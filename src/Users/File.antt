-- ===== src/Users/File.antt =====
-- server/api/users/file_adapter.go and cache.go: the users of a file, and the cache in front of it.
-- FileManager (file.go) is the provider of the users of a file: what it reads, and what it refuses to
-- read.
pub mod Distinct
pub mod Readable
pub mod Changes
use openrport.Prelude.{
  contains, Bool, false, not, ◌&&◌, List, [], ◌∷◌, ◌++◌, Option, none, some, ◌==◌, nat_eq,
  if◌then◌else◌, lookup, insert, any,
}
use openrport.Prelude.Results.{Result, ok, err}
use openrport.Prelude.Actions.{Action}
use openrport.Strings.{Text, text_eq, has_prefix}
use openrport.Remotes.{is_empty}
use openrport.Users.{
  file_failed, write_failed, username_empty, password_empty, not_bcrypt, non_unique_username, User,
  UserError, username_taken, user_not_found,
}

pub record FileProvider (F : Type 0) : Type 0 where
  pub read : F → Result UserError (List User)
  pub save : List User → F → F × Result UserError (Unit {0})

-- The file with its JSON. `elements` is `none` if the file cannot be opened or does not begin with a JSON
-- value (an empty one has none), and else holds what Decode yields for each element, `none` if that fails. `write` is
-- MarshalIndent with WriteFile, and whether they succeed; `trim` is strings.TrimSpace.
pub record Json (F : Type 0) : Type 0 where
  pub elements : F → Option (List (Option User))
  pub write : List User → F → F × Bool
  pub trim : Text → Text

abbrev pub htpasswd_bcrypt_prefix : Text
htpasswd_bcrypt_prefix = b'$' ∷ b'2' ∷ b'y' ∷ b'$' ∷ []

abbrev pub trimmed : (Text → Text) → User → User
trimmed trim user = record user { username = trim user.username; password = trim user.password }

-- The tests of one element, with the usernames in front of it.
abbrev pub refusal : User → List Text → Option UserError
refusal user usernames =
    if is_empty user.username
    then some username_empty
    else (if is_empty user.password
        then some password_empty
        else (if not (has_prefix user.password htpasswd_bcrypt_prefix)
            then some not_bcrypt
            else (if contains usernames user.username then some non_unique_username else none)))

-- parseUsers' loop
unfoldable pub parse_users :
    (Text → Text) → List (Option User) → List Text → Result UserError (List User)
parse_users trim [] usernames = ok []
parse_users trim (none ∷ entries) usernames = err file_failed
parse_users trim (some user ∷ entries) usernames =
    let rest = parse_users trim entries ((trim user.username) ∷ usernames) in
    elim (refusal (trimmed trim user) usernames) [
      | some e ↦ err e
      | none ↦ elim rest [ err e ↦ err e | ok users ↦ ok (trimmed trim user ∷ users) ]
    ]

-- ReadUsersFromFile and SaveUsersToFile
abbrev pub file_manager : {F : Type 0} → Json F → FileProvider F
file_manager json = record {
  read = λ file. elim (json.elements file) [
    | none ↦ err file_failed
    | some entries ↦ parse_users json.trim entries []
  ];
  save = λ users file.
      let (file', written) = json.write users file in
      (file', if written then ok tt else err write_failed);
}

pub record FileAdapter (F : Type 0) : Type 0 where
  pub file : F
  pub by_username : List (Text × User)

abbrev add_each : List User → List (Text × User) → List (Text × User)
add_each [] m = m
add_each (u ∷ users) m = add_each users (insert u.username u m)

-- UserCache.Load
unfoldable pub load_cache : List User → List (Text × User)
load_cache users = add_each users []

abbrev pub has_name : Text → List User → Bool
has_name name users = any (λ u. u.username == name) users

-- The first user of that name is taken out.
abbrev pub without_first : Text → List User → Option (List User)
without_first name [] = none
without_first name (u ∷ users) =
    let rest = without_first name users in
    if u.username == name
    then some users
    else (elim rest [ none ↦ none | some left ↦ some (u ∷ left) ])

abbrev or_old : Text → Text → Text
or_old new old = if is_empty new then old else new

abbrev or_given {ℓ} : {A : Type ℓ} → Option A → Option A → Option A
or_given none old = old
or_given (some a) old = some a

-- The assignments of Update.
unfoldable pub changed : User → User → User
changed change u = record u {
  password = or_old change.password u.password;
  password_expired =
      or_given change.password_expired
        (if is_empty change.password then u.password_expired else some false);
  groups = or_given change.groups u.groups;
  username = or_old change.username u.username;
  tot_p = or_old change.tot_p u.tot_p;
}

-- The loop keeps the last index of the name: the last user of that name is changed.
abbrev pub change_last : User → Text → List User → Option (List User)
change_last change name [] = none
change_last change name (u ∷ users) = elim (change_last change name users) [
  | some later ↦ some (u ∷ later)
  | none ↦ if u.username == name then some (changed change u ∷ users) else none
]

abbrev pub name_taken : User → Text → List User → Bool
name_taken change name users =
    not (is_empty change.username)
    && (not (change.username == name) && has_name change.username users)

module _ {F : Type 0} (provider : FileProvider F) where
  unfoldable pub load : Action (FileAdapter F) UserError (Unit {0})
  unfolding load_cache
  load fa = elim (provider.read fa.file) [
    | err e ↦ (fa, err e)
    | ok users ↦ (record fa { by_username = load_cache users }, ok tt)
  ]

  abbrev save_and_load : List User → Action (FileAdapter F) UserError (Unit {0})
  save_and_load users fa =
      let (file, saved) = provider.save users fa.file in
      elim saved [
        | err e ↦ (record fa { file = file }, err e)
        | ok _ ↦ load (record fa { file = file })
      ]

  abbrev pub write :
      (List User → Result UserError (List User)) → Action (FileAdapter F) UserError (Unit {0})
  write f fa = elim (provider.read fa.file) [
    | err e ↦ (fa, err e)
    | ok users ↦ elim (f users) [ err e ↦ (fa, err e) | ok after ↦ save_and_load after fa ]
  ]

  abbrev pub deleted : Text → List User → Result UserError (List User)
  deleted name users = elim (without_first name users) [
    | none ↦ err user_not_found
    | some left ↦ ok left
  ]

  abbrev pub updated : User → Text → List User → Result UserError (List User)
  updated change name users =
      if name_taken change name users
      then err username_taken
      else (elim (change_last change name users) [
        | none ↦ err user_not_found
        | some after ↦ ok after
      ])

  abbrev pub added : User → List User → Result UserError (List User)
  added change users =
      if has_name change.username users then err username_taken else ok (users ++ (change ∷ []))

  unfoldable pub delete_user : Text → Action (FileAdapter F) UserError (Unit {0})
  unfolding load
  delete_user name = write (deleted name)

  unfoldable pub update_user : User → Text → Action (FileAdapter F) UserError (Unit {0})
  unfolding load
  update_user change name = write (updated change name)

  unfoldable pub add_user : User → Action (FileAdapter F) UserError (Unit {0})
  unfolding load
  add_user change = write (added change)

  unfoldable pub get_by_username : Text → FileAdapter F → Option User
  get_by_username name fa = lookup name fa.by_username
