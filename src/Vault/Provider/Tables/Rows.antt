-- ===== src/Vault/Provider/Tables/Rows.antt =====
-- The rows of the vault's table (server/vault/sqlite.go): what the statements keep, and what a read
-- finds after a write.
use openrport.Prelude.{
  ℕ, zero, suc, ◌≤◌, ◌<◌, ◌≡◌, refl, String, Bool, true, false, not, ◌&&◌, ◌||◌, List, [], ◌∷◌,
  ◌++◌, some, ◌==◌, nat_eq, string_eq, arith, eq_iff, filter, any, is_some, none, ◌⊎◌, Bool-cases,
  inl, inr, subst,
}
use openrport.Prelude.Int.{ℤ, pos, negsuc}
use openrport.Prelude.Results.{ok, err}
use openrport.Vault.Model.{InputValue, StoredValue, Error}
use openrport.Vault.Provider.Tables.{
  Tables, id_eq, has_key, first, save, remove, get_by_id, get_status, update_where, updated_row,
  inserted_row,
}

-- Ids fall below the sequence's next one and are distinct, and so are the pairs of key and client.
abbrev pub Rows : ℕ → List StoredValue → Type 0
Rows n [] = Unit {0}
Rows n (v ∷ vs) =
    (v.id < n)
    × (any (λ w. v.id == w.id) vs ≡ false)
    × (any (has_key v.key v.client_id) vs ≡ false)
    × Rows n vs

pub record IsValid (t : Tables) : Type 0 where
  pub positive : 0 < t.next_id
  pub rows : Rows t.next_id t.values

Rows-mono : (n m : ℕ) (vs : List StoredValue) → n ≤ m → Rows n vs → Rows m vs
Rows-mono n m [] h r = tt
Rows-mono n m (v ∷ vs) h (a, b, k, r) = (omega arith, b, k, Rows-mono n m vs h r)

any-append :
    (p : StoredValue → Bool) (xs ys : List StoredValue) → any p (xs ++ ys) ≡ any p xs || any p ys
any-append p [] ys = refl
any-append p (x ∷ xs) ys = ground (arith, any-append p xs ys)

Rows-insert :
    (n : ℕ) (vs : List StoredValue) (row : StoredValue)
    → row.id ≡ n
    → any (has_key row.key row.client_id) vs ≡ false
    → Rows n vs
    → Rows (suc n) (vs ++ row ∷ [])
Rows-insert n [] row e fresh r = (omega arith, refl, refl, tt)
Rows-insert n (v ∷ vs) row e fresh (a, b, k, r) = (
  omega arith,
  ground (arith, any-append (λ w. v.id == w.id) vs (row ∷ [])),
  ground (
    arith,
    any-append (has_key v.key v.client_id) vs (row ∷ []),
    eq_iff v.key row.key,
    eq_iff row.key v.key,
    eq_iff v.client_id row.client_id,
    eq_iff row.client_id v.client_id,
  ),
  Rows-insert n vs row e (ground arith) r,
)

any-filter :
    (p q : StoredValue → Bool) (vs : List StoredValue)
    → any p vs ≡ false
    → any p (filter q vs) ≡ false
any-filter p q [] h = refl
any-filter p q (v ∷ vs) h = ground (arith, any-filter p q vs)

Rows-filter :
    (n : ℕ) (q : StoredValue → Bool) (vs : List StoredValue) → Rows n vs → Rows n (filter q vs)
Rows-filter n q [] r = tt
Rows-filter n q (v ∷ vs) (a, b, k, r) = ground (
  arith,
  a,
  any-filter (λ w. v.id == w.id) q vs b,
  any-filter (has_key v.key v.client_id) q vs k,
  Rows-filter n q vs r,
)

-- Deleting keeps the rows valid.
pub remove-IsValid : (id : ℤ) (t t' : Tables) → remove id t ≡ ok t' → IsValid t → IsValid t'
unfolding remove
remove-IsValid id t t' h v =
    ground (arith, Rows-filter t.next_id (λ w. not (id_eq id w.id)) t.values v.rows)

module _ (user : String) (val : InputValue) (now : ℕ) where
  abbrev updated : ℤ → List StoredValue → List StoredValue
  updated id vs = update_where id (updated_row user val now) vs

  -- Rows other than the one with the id, that hold the new key and client.
  abbrev clash : ℤ → StoredValue → Bool
  clash id v = not (id_eq id v.id) && has_key val.key val.client_id v

  updated_absent :
      (id : ℤ) (vs : List StoredValue) → any (λ v. id_eq id v.id) vs ≡ false → updated id vs ≡ vs
  unfolding update_where
  updated_absent id [] h = refl
  updated_absent id (v ∷ vs) h = ground (arith, updated_absent id vs)

  any_id-updated :
      (i : ℕ) (id : ℤ) (vs : List StoredValue)
      → any (λ w. i == w.id) (updated id vs) ≡ any (λ w. i == w.id) vs
  unfolding update_where
  any_id-updated i id [] = refl
  any_id-updated i id (v ∷ vs) = ground (arith, any_id-updated i id vs)

  any_key-updated :
      (v : StoredValue) (id : ℤ) (vs : List StoredValue)
      → has_key val.key val.client_id v ≡ false
      → any (has_key v.key v.client_id) vs ≡ false
      → any (has_key v.key v.client_id) (updated id vs) ≡ false
  unfolding update_where
  any_key-updated v id [] other h = refl
  any_key-updated v id (w ∷ vs) other h = ground (
    arith,
    any_key-updated v id vs other,
    eq_iff val.key v.key,
    eq_iff v.key val.key,
    eq_iff val.client_id v.client_id,
    eq_iff v.client_id val.client_id,
  )

  no_clash :
      (id : ℤ) (vs : List StoredValue)
      → any (λ v. id_eq id v.id) vs ≡ false
      → any (clash id) vs ≡ false
      → any (has_key val.key val.client_id) vs ≡ false
  no_clash id [] a b = refl
  no_clash id (v ∷ vs) a b = ground (arith, no_clash id vs)

  id_absent :
      (id : ℤ) (i : ℕ) (vs : List StoredValue)
      → id_eq id i ≡ true
      → any (λ w. i == w.id) vs ≡ false
      → any (λ w. id_eq id w.id) vs ≡ false
  id_absent (pos n) i [] e h = refl
  id_absent (pos n) i (v ∷ vs) e h = ground (arith, id_absent (pos n) i vs e)
  id_absent (negsuc n) i vs e h = cc

  Rows-updated :
      (n : ℕ) (id : ℤ) (vs : List StoredValue)
      → any (clash id) vs ≡ false
      → Rows n vs
      → Rows n (updated id vs)
  unfolding update_where
  Rows-updated n id [] c r = tt
  Rows-updated n id (v ∷ vs) c (a, b, k, r) = elim (Bool-cases (id_eq id v.id)) [
    | inl hit ↦
        let absent = id_absent id v.id vs hit b in
        ground (arith, hit, absent, updated_absent id vs absent, no_clash id vs absent, r)
    | inr miss ↦
        ground
          (arith, miss, any_id-updated v.id id vs, any_key-updated v id vs, Rows-updated n id vs, r)
  ]

  Rows-update :
      (n : ℕ) (id : ℤ) (vs : List StoredValue)
      → any (λ v. id_eq id v.id) vs && any (clash id) vs ≡ false
      → Rows n vs
      → Rows n (updated id vs)
  Rows-update n id vs c r = elim (Bool-cases (any (λ v. id_eq id v.id) vs)) [
    | inl some_row ↦ Rows-updated n id vs (ground arith) r
    | inr absent ↦ rw (updated_absent id vs absent) r
  ]

-- Inserting and updating keep the rows valid.
pub save-IsValid :
    (user : String) (id : ℤ) (val : InputValue) (now : ℕ) (t t' : Tables) (stored : ℤ)
    → save user id val now t ≡ ok (t', stored)
    → IsValid t
    → IsValid t'
unfolding save
save-IsValid user (pos n) val now t t' stored h v =
    let row = inserted_row user val now t.next_id in
    ground (
      arith,
      Rows-insert t.next_id t.values row refl,
      Rows-update user val now t.next_id (pos n) t.values,
      v.rows,
    )
save-IsValid user (negsuc n) val now t t' stored h v =
    ground (arith, Rows-update user val now t.next_id (negsuc n) t.values, v.rows)

first-append :
    (p : StoredValue → Bool) (xs : List StoredValue) (row : StoredValue)
    → any p xs ≡ false
    → p row ≡ true
    → first p (xs ++ row ∷ []) ≡ some row
unfolding first
first-append p [] row h k = ground arith
first-append p (x ∷ xs) row h k = ground (arith, first-append p xs row)

ids_below : (n : ℕ) (vs : List StoredValue) → Rows n vs → any (λ v. id_eq (pos n) v.id) vs ≡ false
ids_below n [] r = refl
ids_below n (v ∷ vs) (a, b, k, r) = ground (arith, ids_below n vs r)

first-updated :
    (user : String) (val : InputValue) (now : ℕ) (id : ℤ) (vs : List StoredValue)
    → any (λ v. id_eq id v.id) vs ≡ true
    → (v : StoredValue) × (first (λ w. id_eq id w.id) (updated user val now id vs) ≡ some v)
      × (v.input ≡ val)
unfolding first update_where
first-updated user val now id [] h = cc
first-updated user val now id (v ∷ vs) h = elim (Bool-cases (id_eq id v.id)) [
  | inl hit ↦ (updated_row user val now v, ground (arith, hit), refl)
  | inr miss ↦
      let (w, found, same) = first-updated user val now id vs (ground arith) in
      (w, ground (arith, found, miss), same)
]

-- What a successful save leaves under the id that it returns, where the id is not negative and, for
-- an update, names a row: the value as it was given.
pub save-get_by_id :
    (user : String) (n : ℕ) (val : InputValue) (now : ℕ) (t t' : Tables) (stored : ℤ)
    → save user (pos n) val now t ≡ ok (t', stored)
    → n == 0 || any (λ v. id_eq (pos n) v.id) t.values ≡ true
    → IsValid t
    → (v : StoredValue) × (get_by_id stored t' ≡ ok (some v)) × (v.input ≡ val)
unfolding save get_by_id
save-get_by_id user zero val now t t' stored h row v = (
  inserted_row user val now t.next_id,
  ground (
    arith,
    first-append (λ w. id_eq (pos t.next_id) w.id) t.values (inserted_row user val now t.next_id)
        (ids_below t.next_id t.values v.rows),
  ),
  refl,
)
save-get_by_id user (suc n) val now t t' stored h row v =
    let (w, found, same) = first-updated user val now (pos (suc n)) t.values (ground arith) in
    (w, ground (arith, found), same)

pub first-any : (p : StoredValue → Bool) (vs : List StoredValue) → any p vs ≡ is_some (first p vs)
unfolding first
first-any p [] = refl
first-any p (v ∷ vs) = ground (arith, first-any p vs)

no_other :
    (p q : StoredValue → Bool) (vs : List StoredValue)
    → any q vs ≡ false
    → any (λ w. not (p w) && q w) vs ≡ false
no_other p q [] h = refl
no_other p q (w ∷ vs) h = ground (arith, h, no_other p q vs)

-- In valid rows the first with a key and client is the only one.
first-clash :
    (user : String) (val : InputValue) (now n : ℕ) (id : ℤ) (vs : List StoredValue)
    (v : StoredValue)
    → Rows n vs
    → first (has_key val.key val.client_id) vs ≡ some v
    → id_eq id v.id ≡ true
    → any (clash user val now id) vs ≡ false
unfolding first
first-clash user val now n id [] v r found own = refl
first-clash user val now n id (w ∷ vs) v (a, b, k, r) found own =
    elim (Bool-cases (has_key val.key val.client_id w)) [
      | inr other ↦
          ground
            (arith, other, first-clash user val now n id vs v r (ground (arith, found, other)) own)
      | inl here ↦
          let key : w.key ≡ val.key = (eq_iff w.key val.key).0 (ground (arith, here)) in
          let client : w.client_id ≡ val.client_id =
            (eq_iff w.client_id val.client_id).0 (ground (arith, here)) in
          let only : any (has_key val.key val.client_id) vs ≡ false =
            subst (λ x. any (has_key x val.client_id) vs ≡ false) key
              (subst (λ y. any (has_key w.key y) vs ≡ false) client k) in
          ground (
            arith,
            here,
            found,
            own,
            no_other (λ u. id_eq id u.id) (has_key val.key val.client_id) vs only,
          )
    ]

not_refused :
    (user : String) (id : ℤ) (val : InputValue) (now : ℕ) (t : Tables) (e : Error)
    → (id_eq id 0 ≡ false) ⊎ (any (has_key val.key val.client_id) t.values ≡ false)
    → any (clash user val now id) t.values ≡ false
    → save user id val now t ≡ err e
    → ⊥
unfolding save
not_refused user (pos n) val now t e new apart h = ground (arith, new, apart, h)
not_refused user (negsuc n) val now t e new apart h = ground (arith, apart, h)

-- On valid rows no save is refused whose key and client no row has, or only the row that it updates.
pub save_accepted :
    (user : String) (id : ℤ) (val : InputValue) (now : ℕ) (t : Tables) (e : Error)
    → IsValid t
    → (first (has_key val.key val.client_id) t.values ≡ none)
      ⊎ ((id_eq id 0 ≡ false)
          × (v : StoredValue) × (first (has_key val.key val.client_id) t.values ≡ some v)
          × (id_eq id v.id ≡ true))
    → save user id val now t ≡ err e
    → ⊥
save_accepted user id val now t e v (inl absent) h =
    let fresh : any (has_key val.key val.client_id) t.values ≡ false =
      ground (arith, first-any (has_key val.key val.client_id) t.values, absent) in
    not_refused user id val now t e (inr fresh)
      (no_other (λ u. id_eq id u.id) (has_key val.key val.client_id) t.values fresh) h
save_accepted user id val now t e v (inr (update, w, found, own)) h =
    not_refused user id val now t e (inl update)
      (first-clash user val now t.next_id id t.values w v.rows found own) h

-- Saving leaves the status table alone.
pub get_status-save :
    (user : String) (id : ℤ) (val : InputValue) (now : ℕ) (t t' : Tables) (stored : ℤ)
    → save user id val now t ≡ ok (t', stored)
    → get_status t' ≡ get_status t
unfolding save get_status
get_status-save user (pos n) val now t t' stored h = ground arith
get_status-save user (negsuc n) val now t t' stored h = ground arith
