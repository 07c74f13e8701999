-- ===== src/Users/File/Distinct.antt =====
-- server/api/users/file_adapter.go: lists of users with distinct names, as the operations change them.
use openrport.Prelude.{
  ◌≡◌, ◌⊎◌, refl, inl, inr, sym, subst, Bool, true, false, not, ◌&&◌, ◌||◌, List, [], ◌∷◌, ◌++◌,
  some, ◌==◌, nat_eq, Bool-cases, Option-cases, arith, ◌∙◌,
}
use openrport.Strings.{Text, text_eq}
use openrport.Remotes.{is_empty}
use openrport.Users.{User}
use openrport.Users.File.{has_name, without_first, changed, change_last, name_taken}

abbrev pub distinct : List User → Bool
distinct [] = true
distinct (u ∷ users) = not (has_name u.username users) && distinct users

has_name-without_first :
    (n m : Text) (users left : List User)
    → has_name n users ≡ false
    → without_first m users ≡ some left
    → has_name n left ≡ false
has_name-without_first n m [] left h e = ground (arith, e)
has_name-without_first n m (u ∷ users) left h e = elim (Option-cases (without_first m users)) [
  | inl gone ↦ ground (arith, h, e, gone)
  | inr (rest, found) ↦
      ground (arith, h, e, found, has_name-without_first n m users rest (ground (arith, h)) found)
]

pub distinct-without_first :
    (m : Text) (users left : List User)
    → distinct users ≡ true
    → without_first m users ≡ some left
    → distinct left ≡ true
distinct-without_first m [] left h e = ground (arith, e)
distinct-without_first m (u ∷ users) left h e = elim (Option-cases (without_first m users)) [
  | inl gone ↦ ground (arith, h, e, gone)
  | inr (rest, found) ↦ ground (
    arith,
    h,
    e,
    found,
    has_name-without_first u.username m users rest (ground (arith, h)) found,
    distinct-without_first m users rest (ground (arith, h)) found,
  )
]

pub beq_sym : (a b : Text) → (a == b) ≡ (b == a)
beq_sym a b = elim (Bool-cases (a == b)) [
  | inl same ↦
      let e : a ≡ b = (text_eq.equal_iff a b).0 same in
      same ∙ sym ((text_eq.equal_iff b a).1 (sym e))
  | inr differs ↦ elim (Bool-cases (b == a)) [
    | inl same ↦
        ground
          (arith, same, differs, (text_eq.equal_iff a b).1 (sym ((text_eq.equal_iff b a).0 same)))
    | inr other ↦ differs ∙ sym other
  ]
]

has_name-added :
    (n : Text) (users : List User) (c : User)
    → has_name n (users ++ (c ∷ [])) ≡ (has_name n users || (c.username == n))
has_name-added n [] c = ground arith
has_name-added n (u ∷ users) c = ground (arith, has_name-added n users c)

pub distinct-added :
    (users : List User) (c : User)
    → distinct users ≡ true
    → has_name c.username users ≡ false
    → distinct (users ++ (c ∷ [])) ≡ true
distinct-added [] c h new = refl
distinct-added (u ∷ users) c h new = ground (
  arith,
  h,
  new,
  has_name-added u.username users c,
  beq_sym u.username c.username,
  distinct-added users c (ground (arith, h)) (ground (arith, new)),
)

-- Where a user is changed, there was one of the name.
has_name-change_last :
    (change : User) (m : Text) (users after : List User)
    → change_last change m users ≡ some after
    → has_name m users ≡ true
has_name-change_last change m [] after e = ground (arith, e)
has_name-change_last change m (u ∷ users) after e =
    elim (Option-cases (change_last change m users)) [
      | inl gone ↦ ground (arith, e, gone)
      | inr (rest, found) ↦ ground (arith, has_name-change_last change m users rest found)
    ]

abbrev Avoids : User → Text → Type 0
Avoids change n = (is_empty change.username ≡ true) ⊎ ((change.username == n) ≡ false)

avoided :
    (change : User) (n m : Text) (users after : List User)
    → has_name n users ≡ false
    → Avoids change n
    → change_last change m users ≡ some after
    → has_name n after ≡ false
unfolding changed
avoided change n m [] after h a e = ground (arith, e)
avoided change n m (u ∷ users) after h a e = elim (Option-cases (change_last change m users)) [
  | inl gone ↦ ground (arith, h, a, e, gone)
  | inr (rest, found) ↦
      ground (arith, h, e, found, avoided change n m users rest (ground (arith, h)) a found)
]

kept_apart :
    (change : User) (m : Text) (u : User) (users : List User)
    → name_taken change m (u ∷ users) ≡ false
    → has_name m users ≡ true
    → has_name u.username users ≡ false
    → Avoids change u.username
kept_apart change m u users free there h = elim (Bool-cases (change.username == u.username)) [
  | inr differs ↦ inr differs
  | inl same ↦ elim (Bool-cases (change.username == m)) [
    | inl own ↦
        let e : m ≡ u.username =
          sym ((text_eq.equal_iff change.username m).0 own)
          ∙ (text_eq.equal_iff change.username u.username).0 same in
        absurd (ground (arith, h, subst (λ n. has_name n users ≡ true) e there))
    | inr other ↦ inl (ground (arith, free, other, same, beq_sym change.username u.username))
  ]
]

name_of_changed :
    (change : User) (m : Text) (u : User) (users : List User)
    → name_taken change m (u ∷ users) ≡ false
    → (u.username == m) ≡ true
    → has_name u.username users ≡ false
    → has_name (changed change u).username users ≡ false
unfolding changed
name_of_changed change m u users free own h = elim (Bool-cases (change.username == m)) [
  | inl same ↦
      let e : change.username ≡ u.username =
        (text_eq.equal_iff change.username m).0 same
        ∙ sym ((text_eq.equal_iff u.username m).0 own) in
      ground (arith, h, subst (λ n. has_name n users ≡ false) (sym e) h)
  | inr other ↦ ground (arith, h, free, other)
]

pub distinct-change_last :
    (change : User) (m : Text) (users after : List User)
    → distinct users ≡ true
    → name_taken change m users ≡ false
    → change_last change m users ≡ some after
    → distinct after ≡ true
unfolding changed
distinct-change_last change m [] after h free e = ground (arith, e)
distinct-change_last change m (u ∷ users) after h free e =
    elim (Option-cases (change_last change m users)) [
      | inl gone ↦ ground (arith, h, e, gone, name_of_changed change m u users free)
      | inr (rest, found) ↦ ground (
        arith,
        h,
        e,
        found,
        avoided change u.username m users rest (ground (arith, h))
            (kept_apart change m u users free (has_name-change_last change m users rest found)
              (ground (arith, h)))
            found,
        distinct-change_last change m users rest (ground (arith, h)) (ground (arith, free)) found,
      )
    ]
