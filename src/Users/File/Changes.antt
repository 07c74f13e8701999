-- ===== src/Users/File/Changes.antt =====
-- server/api/users/file_adapter.go over file.go: a file that could be read can be read after a change.
use openrport.Prelude.{
  ◌≡◌, ◌⊎◌, inl, inr, ap, Bool, true, false, List, [], ◌∷◌, ◌++◌, some, nat_eq, all, map,
  Bool-cases, Option-cases, arith,
}
use openrport.Prelude.Results.{Result, ok, err, Result-cases}
use openrport.Strings.{Text, text_eq}
use openrport.Remotes.{is_empty}
use openrport.Users.{User, UserError, write_failed}
use openrport.Users.File.{
  Json, FileProvider, FileAdapter, file_manager, has_name, without_first, changed, change_last,
  name_taken, load, deleted, updated, added, delete_user, update_user, add_user, write,
}
use openrport.Users.File.Distinct.{
  distinct, distinct-without_first, distinct-added, distinct-change_last,
}
use openrport.Users.File.Readable.{fits, fits_change, parse_users-map, fits-parse_users, apart-none}

module _ (trim : Text → Text) where
  abbrev AllFit : List User → Type 0
  AllFit users = all (fits trim) users ≡ true

  fits-without_first :
      (m : Text) (users left : List User)
      → AllFit users
      → without_first m users ≡ some left
      → AllFit left
  fits-without_first m [] left h e = ground (arith, e)
  fits-without_first m (u ∷ users) left h e = elim (Option-cases (without_first m users)) [
    | inl gone ↦ ground (arith, h, e, gone)
    | inr (rest, found) ↦
        ground (arith, h, e, found, fits-without_first m users rest (ground (arith, h)) found)
  ]

  fits-added :
      (users : List User) (c : User)
      → AllFit users
      → fits trim c ≡ true
      → AllFit (users ++ (c ∷ []))
  fits-added [] c h f = ground (arith, f)
  fits-added (u ∷ users) c h f = ground (arith, h, fits-added users c (ground (arith, h)) f)

  fits-changed :
      (change u : User)
      → fits_change trim change ≡ true
      → fits trim u ≡ true
      → fits trim (changed change u) ≡ true
  unfolding changed
  fits-changed change u c f = elim (Bool-cases (is_empty change.username)) [
    | inl a ↦ elim (Bool-cases (is_empty change.password)) [
      | inl b ↦ ground (arith, c, f, a, b)
      | inr b ↦ ground (arith, c, f, a, b)
    ]
    | inr a ↦ elim (Bool-cases (is_empty change.password)) [
      | inl b ↦ ground (arith, c, f, a, b)
      | inr b ↦ ground (arith, c, f, a, b)
    ]
  ]

  fits-change_last :
      (change : User) (m : Text) (users after : List User)
      → fits_change trim change ≡ true
      → AllFit users
      → change_last change m users ≡ some after
      → AllFit after
  fits-change_last change m [] after c h e = ground (arith, e)
  fits-change_last change m (u ∷ users) after c h e =
      elim (Option-cases (change_last change m users)) [
        | inl gone ↦ ground (arith, h, e, gone, fits-changed change u c (ground (arith, h)))
        | inr (rest, found) ↦
            ground
              (arith, h, e, found, fits-change_last change m users rest c (ground (arith, h)) found)
      ]

-- Users that can be written and read back.
abbrev IsFile : (Text → Text) → List User → Type 0
IsFile trim users = (all (fits trim) users ≡ true) × (distinct users ≡ true)

module _ {F : Type 0} (json : Json F) where
  abbrev manager : FileProvider F
  manager = file_manager json

  added-IsFile :
      (u : User) (users after : List User)
      → fits json.trim u ≡ true
      → IsFile json.trim users
      → added manager u users ≡ ok after
      → IsFile json.trim after
  added-IsFile u users after f (h, d) e = elim (Bool-cases (has_name u.username users)) [
    | inl taken ↦ absurd (ground (arith, e, taken))
    | inr new ↦ (
      ground (arith, e, new, fits-added json.trim users u h f),
      ground (arith, e, new, distinct-added users u d new),
    )
  ]

  updated-IsFile :
      (u : User) (name : Text) (users after : List User)
      → fits_change json.trim u ≡ true
      → IsFile json.trim users
      → updated manager u name users ≡ ok after
      → IsFile json.trim after
  updated-IsFile u name users after f (h, d) e = elim (Bool-cases (name_taken u name users)) [
    | inl taken ↦ absurd (ground (arith, e, taken))
    | inr free ↦ elim (Option-cases (change_last u name users)) [
      | inl gone ↦ absurd (ground (arith, e, free, gone))
      | inr (made, found) ↦ (
        ground (arith, e, free, found, fits-change_last json.trim u name users made f h found),
        ground (arith, e, free, found, distinct-change_last u name users made d free found),
      )
    ]
  ]

  deleted-IsFile :
      (name : Text) (users after : List User)
      → IsFile json.trim users
      → deleted manager name users ≡ ok after
      → IsFile json.trim after
  deleted-IsFile name users after (h, d) e = elim (Option-cases (without_first name users)) [
    | inl gone ↦ absurd (ground (arith, e, gone))
    | inr (left, found) ↦ (
      ground (arith, e, found, fits-without_first json.trim name users left h found),
      ground (arith, e, found, distinct-without_first name users left d found),
    )
  ]

  -- The documented behaviour of TrimSpace, and of encoding/json: what was written is read back. The
  -- texts of users are UTF-8, which all texts are that come out of JSON.
  pub record IsJson : Type 0 where
    pub trim_again : (s : Text) → json.trim (json.trim s) ≡ json.trim s
    pub elements-write :
        (users : List User) (file file' : F)
        → json.write users file ≡ (file', true)
        → json.elements file' ≡ some (map (λ u. some u) users)

  abbrev pub is_readable : F → Bool
  is_readable file = elim (manager.read file) [ err e ↦ false | ok users ↦ true ]

  -- The call has failed to write, or the file can be read afterwards.
  abbrev pub IsReadableAfter : FileAdapter F × Result UserError (Unit {0}) → Type 0
  IsReadableAfter (fa, r) = (r ≡ err write_failed) ⊎ (is_readable fa.file ≡ true)

  module _ (law : IsJson) where
    read-IsFile :
        (file : F) (users : List User) → manager.read file ≡ ok users → IsFile json.trim users
    read-IsFile file users h = elim (Option-cases (json.elements file)) [
      | inl gone ↦ absurd (ground (arith, h, gone))
      | inr (entries, e) ↦
          let (f, d, a) =
            fits-parse_users json.trim law.trim_again entries [] users (ground (arith, h, e)) in
          (f, d)
    ]

    read-written :
        (users : List User) (file file' : F)
        → IsFile json.trim users
        → json.write users file ≡ (file', true)
        → manager.read file' ≡ ok users
    read-written users file file' (f, d) h = ground (
      arith,
      law.elements-write users file file' h,
      parse_users-map json.trim users [] f d (apart-none users),
    )

    write-readable :
        (f : List User → Result UserError (List User)) (fa : FileAdapter F)
        → ((users after : List User)
            → IsFile json.trim users
            → f users ≡ ok after
            → IsFile json.trim after)
        → is_readable fa.file ≡ true
        → IsReadableAfter (write manager f fa)
    unfolding load
    write-readable f fa keeps h = elim (Result-cases (manager.read fa.file)) [
      | inr (w, bad) ↦ absurd (ground (arith, h, bad))
      | inl (users, e) ↦ elim (Result-cases (f users)) [
        | inr (w, refused) ↦ inr (ground (arith, h, e, refused))
        | inl (after, made) ↦
            let file = (json.write after fa.file).0 in
            elim (Bool-cases (json.write after fa.file).1) [
              | inr failed ↦ inl (ground (arith, e, made, failed))
              | inl done ↦
                  let again =
                    read-written after fa.file file
                      (keeps users after (read-IsFile fa.file users e) made)
                      (ap (λ b. (file, b)) done) in
                  inr (ground (arith, e, made, done, again))
            ]
      ]
    ]

    -- Where JSON that was written is read back as it was, and the users can be read from the file: they
    -- can be read after a user is added, changed or deleted, whether that succeeds, unless the file
    -- could not be written. The name and the password of a new user must not be empty, nor have space
    -- around them, and the password be a bcrypt hash; the same of a changed name or password.
    pub operations-readable :
        (fa : FileAdapter F) (new change : User) (name : Text)
        → is_readable fa.file ≡ true
        → fits json.trim new ≡ true
        → fits_change json.trim change ≡ true
        → IsReadableAfter (add_user manager new fa)
          × IsReadableAfter (update_user manager change name fa)
          × IsReadableAfter (delete_user manager name fa)
    unfolding add_user update_user delete_user
    operations-readable fa new change name h f c = (
      write-readable (added manager new) fa (λ users after v e. added-IsFile new users after f v e)
          h,
      write-readable (updated manager change name) fa
          (λ users after v e. updated-IsFile change name users after c v e) h,
      write-readable (deleted manager name) fa
          (λ users after v e. deleted-IsFile name users after v e) h,
    )
