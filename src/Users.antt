-- ===== src/Users.antt =====
-- server/api/users: users, their groups and what a group permits (user.go, group.go, permissions.go),
-- and the checks of service.go. The groups of a provider come from an argument.
pub mod Permissions
pub mod File
use openrport.Prelude.{
  ℕ, Bool, true, false, not, ◌&&◌, ◌||◌, List, [], ◌∷◌, Option, none, some, ◌==◌, nat_eq,
  if◌then◌else◌, lookup, insert, any,
}
use openrport.Prelude.Results.{Result, ok, err}
use openrport.Strings.{Text, text_eq}

-- `none` for a nil list of groups, and for a nil flag
pub record User : Type 0 where
  pub username : Text
  pub password : Text
  pub password_expired : Option Bool
  pub groups : Option (List Text)
  pub two_fa_send_to : Text
  pub tot_p : Text

-- A map from permissions, `none` for nil
abbrev pub Permissions : Type 0
Permissions = Option (List (Text × Bool))

-- Without the extended permissions, which the functions below do not read.
pub record Group : Type 0 where
  pub name : Text
  pub permissions : Permissions

pub data UserError : Type 0 where
  group_failed no_permission : UserError
  file_failed write_failed username_taken user_not_found : UserError
  username_empty password_empty not_bcrypt non_unique_username : UserError

abbrev pub all_permissions : List Text
all_permissions =
    (b't' ∷ b'u' ∷ b'n' ∷ b'n' ∷ b'e' ∷ b'l' ∷ b's' ∷ [])
    ∷ (b's' ∷ b'c' ∷ b'r' ∷ b'i' ∷ b'p' ∷ b't' ∷ b's' ∷ [])
    ∷ (b'c' ∷ b'o' ∷ b'm' ∷ b'm' ∷ b'a' ∷ b'n' ∷ b'd' ∷ b's' ∷ [])
    ∷ (b'v' ∷ b'a' ∷ b'u' ∷ b'l' ∷ b't' ∷ [])
    ∷ (b's' ∷ b'c' ∷ b'h' ∷ b'e' ∷ b'd' ∷ b'u' ∷ b'l' ∷ b'e' ∷ b'r' ∷ [])
    ∷ (b'm' ∷ b'o' ∷ b'n' ∷ b'i' ∷ b't' ∷ b'o' ∷ b'r' ∷ b'i' ∷ b'n' ∷ b'g' ∷ [])
    ∷ (b'u' ∷ b'p' ∷ b'l' ∷ b'o' ∷ b'a' ∷ b'd' ∷ b's' ∷ [])
    ∷ (b'a' ∷ b'u' ∷ b'd' ∷ b'i' ∷ b't' ∷ b'l' ∷ b'o' ∷ b'g' ∷ [])
    ∷ []

-- The value of a key of a Go map, false without one.
abbrev pub is_true : Option Bool → Bool
is_true none = false
is_true (some b) = b

unfoldable pub has : Permissions → Text → Bool
has none p = false
has (some granted) p = is_true (lookup p granted)

-- NewPermissions(perms...)
unfoldable pub new_permissions : List Text → List (Text × Bool)
new_permissions [] = []
new_permissions (p ∷ ps) = insert p true (new_permissions ps)

abbrev pub all_of : Permissions → List Text → List (Text × Bool)
all_of permissions [] = []
all_of permissions (p ∷ ps) = insert p (has permissions p) (all_of permissions ps)

-- All
unfoldable pub all : Permissions → List (Text × Bool)
unfolding has
all permissions = all_of permissions all_permissions

abbrev pub groups_of_user : User → List Text
groups_of_user user = elim user.groups [ none ↦ [] | some groups ↦ groups ]

module _ (get_group : Text → Result UserError Group) where
  unfoldable pub check_groups : List Text → Text → Result UserError (Unit {0})
  unfolding has
  check_groups [] permission = err no_permission
  check_groups (name ∷ names) permission = elim (get_group name) [
    | err e ↦ err e
    | ok group ↦
        let rest = check_groups names permission in
        if has group.permissions permission then ok tt else rest
  ]

  unfoldable pub check_permission : User → Text → Result UserError (Unit {0})
  unfolding check_groups
  check_permission user permission = check_groups (groups_of_user user) permission

  -- The inner loop of GetEffectiveUserPermissions, and the outer one.
  unfoldable pub grant : Permissions → List Text → List (Text × Bool) → List (Text × Bool)
  unfolding has
  grant permissions [] granted = granted
  grant permissions (p ∷ ps) granted = grant permissions ps (
      if has permissions p && not (is_true (lookup p granted))
      then insert p true granted
      else granted)

  unfoldable pub grant_groups :
      List Text → List (Text × Bool) → Result UserError (List (Text × Bool))
  unfolding grant
  grant_groups [] granted = ok granted
  grant_groups (name ∷ names) granted = elim (get_group name) [
    | err e ↦ err e
    | ok group ↦ grant_groups names (grant group.permissions all_permissions granted)
  ]

  unfoldable pub get_effective_user_permissions :
      Bool → User → Result UserError (List (Text × Bool))
  unfolding grant_groups new_permissions all
  get_effective_user_permissions supports_group_permissions user =
      if not supports_group_permissions
      then ok (all (some (new_permissions all_permissions)))
      else grant_groups (groups_of_user user) (all (some []))
