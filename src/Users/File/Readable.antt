-- ===== src/Users/File/Readable.antt =====
-- server/api/users/file.go with file_adapter.go: the file stays one that can be read.
use openrport.Prelude.{
  ◌≡◌, refl, inl, inr, ap, Bool, true, not, ◌&&◌, ◌||◌, List, [], ◌∷◌, Option, none, some, ◌==◌,
  nat_eq, all, map, contains, Option-cases, arith, beq_refl,
}
use openrport.Prelude.Results.{ok, Result-cases}
use openrport.Strings.{Text, text_eq, has_prefix}
use openrport.Remotes.{is_empty}
use openrport.Users.{User}
use openrport.Users.File.{htpasswd_bcrypt_prefix, trimmed, refusal, parse_users, has_name}
use openrport.Users.File.Distinct.{distinct, beq_sym}

-- The reader takes a name, and a password, as it is.
abbrev pub is_name : (Text → Text) → Text → Bool
is_name trim s = trim s == s && not (is_empty s)

abbrev pub is_password : (Text → Text) → Text → Bool
is_password trim s = trim s == s && (not (is_empty s) && has_prefix s htpasswd_bcrypt_prefix)

abbrev pub fits : (Text → Text) → User → Bool
fits trim u = is_name trim u.username && is_password trim u.password

-- A change of a user, whose empty fields are no change.
abbrev pub fits_change : (Text → Text) → User → Bool
fits_change trim u =
    (is_empty u.username || is_name trim u.username)
    && (is_empty u.password || is_password trim u.password)

-- No user has one of the names.
abbrev apart : List Text → List User → Bool
apart names users = all (λ u. not (contains names u.username)) users

apart-cons :
    (n : Text) (names : List Text) (users : List User)
    → apart (n ∷ names) users ≡ (not (has_name n users) && apart names users)
apart-cons n names [] = refl
apart-cons n names (u ∷ users) = ground (arith, beq_sym n u.username, apart-cons n names users)

pub apart-none : (users : List User) → apart [] users ≡ true
apart-none [] = refl
apart-none (u ∷ users) = ground (arith, apart-none users)

module _ (trim : Text → Text) where
  trimmed-fits : (u : User) → fits trim u ≡ true → trimmed trim u ≡ u
  trimmed-fits u h = ground (
    arith,
    h,
    text_eq.equal_iff (trim u.username) u.username,
    text_eq.equal_iff (trim u.password) u.password,
  )

  -- Users that fit are read back as they were written.
  pub parse_users-map :
      (users : List User) (names : List Text)
      → all (fits trim) users ≡ true
      → distinct users ≡ true
      → apart names users ≡ true
      → parse_users trim (map (λ u. some u) users) names ≡ ok users
  unfolding parse_users
  parse_users-map [] names f d a = refl
  parse_users-map (u ∷ users) names f d a =
      let e = trimmed-fits u (ground (arith, f)) in
      let name : trim u.username ≡ u.username = ap (λ v. v.username) e in
      ground (
        arith,
        f,
        d,
        a,
        e,
        name,
        apart-cons u.username names users,
        parse_users-map users (u.username ∷ names) (ground (arith, f)) (ground (arith, d))
            (ground (arith, d, a, apart-cons u.username names users)),
      )

  module _ (idempotent : (s : Text) → trim (trim s) ≡ trim s) where
    -- Users that were read fit, and their names are distinct.
    pub fits-parse_users :
        (entries : List (Option User)) (names : List Text) (users : List User)
        → parse_users trim entries names ≡ ok users
        → (all (fits trim) users ≡ true) × (distinct users ≡ true) × (apart names users ≡ true)
    unfolding parse_users
    fits-parse_users [] names users h = (ground (arith, h), ground (arith, h), ground (arith, h))
    fits-parse_users (none ∷ entries) names users h = absurd (ground (arith, h))
    fits-parse_users (some u ∷ entries) names users h =
        let v = trimmed trim u in
        elim (Option-cases (refusal v names)) [
          | inr (w, e) ↦ absurd (ground (arith, h, e))
          | inl e ↦ elim (Result-cases (parse_users trim entries (v.username ∷ names))) [
            | inr (w, bad) ↦ absurd (ground (arith, h, e, bad))
            | inl (rest, good) ↦
                let (f, d, a) = fits-parse_users entries (v.username ∷ names) rest good in
                let is : users ≡ v ∷ rest = ground (arith, h, e, good) in
                let this : fits trim v ≡ true = ground (
                  arith,
                  e,
                  idempotent u.username,
                  idempotent u.password,
                  beq_refl v.username,
                  beq_refl v.password,
                ) in
                (
                  ground (arith, is, this, f),
                  ground (arith, is, d, a, apart-cons v.username names rest),
                  ground (arith, is, e, a, apart-cons v.username names rest),
                )
          ]
        ]
