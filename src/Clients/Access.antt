-- ===== src/Clients/Access.antt =====
-- server/clients/client_service.go, CheckClientsAccess, and the clients that a user is shown
-- (server/clients/cr.go): the two agree.
use openrport.Prelude.{
  ℕ, ◌≡◌, ◌↔◌, ◌⊎◌, inr, refl, String, Bool, true, not, ◌&&◌, ◌||◌, List, [], ◌∷◌, Option, ◌==◌,
  string_eq, if◌then◌else◌, any, all, arith,
}
use openrport.Prelude.Results.{Result, ok, err}
use openrport.Strings.{Text}
use openrport.Clients.Client.{
  Client, ClientGroup, administrators, obsolete, has_access_via_user_groups,
  user_group_has_access_via_client_group,
}

-- server/api/users/user.go
pub record User : Type 0 where
  pub groups : List String

unfoldable pub is_admin : User → Bool
is_admin u = any (λ g. g == administrators) u.groups

pub data AccessError : Type 0 where
  access_denied : List Text → AccessError

module _ (to_lower : Text → Text) where
  abbrev pub group_access : List String → List ClientGroup → Client → Bool
  group_access user_groups groups c =
      has_access_via_user_groups c user_groups
      || user_group_has_access_via_client_group to_lower c user_groups groups

  unfoldable pub clients_with_no_access : List String → List ClientGroup → List Client → List Text
  clients_with_no_access user_groups groups [] = []
  clients_with_no_access user_groups groups (c ∷ cs) =
      let rest = clients_with_no_access user_groups groups cs in
      if group_access user_groups groups c then rest else c.id ∷ rest

  abbrev denied_or_ok : List Text → Result AccessError (Unit {0})
  denied_or_ok [] = ok tt
  denied_or_ok (id ∷ ids) = err (access_denied (id ∷ ids))

  unfoldable pub check_clients_access :
      List Client → User → List ClientGroup → Result AccessError (Unit {0})
  unfolding is_admin clients_with_no_access
  check_clients_access clients user groups =
      if is_admin user
      then ok tt
      else denied_or_ok (clients_with_no_access user.groups groups clients)

  -- getNonObsoleteClientsByUser's test of one client
  unfoldable pub visible_to : ℕ → Option ℕ → User → List ClientGroup → Client → Bool
  unfolding is_admin
  visible_to now keep user groups c =
      not (obsolete now keep c) && (is_admin user || group_access user.groups groups c)

  no_access_none :
      (user_groups : List String) (groups : List ClientGroup) (clients : List Client)
      → (clients_with_no_access user_groups groups clients ≡ [])
        ↔ (all (group_access user_groups groups) clients ≡ true)
  unfolding clients_with_no_access
  no_access_none user_groups groups [] = (λ _. refl, λ _. refl)
  no_access_none user_groups groups (c ∷ cs) = ground (arith, no_access_none user_groups groups cs)

  shown_if_current :
      (now : ℕ) (keep : Option ℕ) (user : User) (groups : List ClientGroup) (clients : List Client)
      → (all (λ c. not (obsolete now keep c)) clients ≡ true)
      → (all (visible_to now keep user groups) clients ≡ true)
        ↔ ((is_admin user ≡ true) ⊎ (all (group_access user.groups groups) clients ≡ true))
  unfolding visible_to
  shown_if_current now keep user groups [] _ = (λ _. inr refl, λ _. refl)
  shown_if_current now keep user groups (c ∷ cs) h =
      ground (arith, shown_if_current now keep user groups cs)

  denied_ok : (ids : List Text) → (denied_or_ok ids ≡ ok tt) ↔ (ids ≡ [])
  denied_ok [] = (λ _. refl, λ _. refl)
  denied_ok (id ∷ ids) = ground arith

  -- A user passes the access check for a list of clients, none of them obsolete, exactly if each of
  -- them is a client that the user is shown.
  pub check_clients_access-visible_to :
      (now : ℕ) (keep : Option ℕ) (clients : List Client) (user : User) (groups : List ClientGroup)
      → (all (λ c. not (obsolete now keep c)) clients ≡ true)
      → (check_clients_access clients user groups ≡ ok tt)
        ↔ (all (visible_to now keep user groups) clients ≡ true)
  unfolding check_clients_access visible_to
  check_clients_access-visible_to now keep clients user groups h = ground (
    arith,
    shown_if_current now keep user groups clients h,
    no_access_none user.groups groups clients,
    denied_ok (clients_with_no_access user.groups groups clients),
  )
