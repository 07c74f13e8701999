-- ===== src/Vault/Manager/Storing.antt =====
-- Storing and reading back through server/vault/manager.go, over the tables of sqlite.go.
use openrport.Prelude.{
  ℕ, ◌≡◌, ◌≢◌, ◌⊎◌, refl, none, false, String, List, [], ◌∷◌, ◌++◌, true, not, ◌||◌, Option, some,
  ◌==◌, nat_eq, string_eq, arith, any, length, inl, inr, Option-cases, Bool-cases,
}
use openrport.Prelude.Int.{ℤ, pos}
use openrport.Prelude.Results.{ok, err, Result-cases}
use openrport.Enc.{Bytes, Crypto, IsSound, encrypt_by_pass}
use openrport.Enc.RoundTrip.{decrypt-encrypt}
use openrport.Vault.Model.{
  InputValue, StoredValue, UserData, db_failure, validate, ValueError, none_or_errors, key_errors,
  value_errors, type_errors,
}
use openrport.Vault.Provider.Tables
use openrport.Vault.Provider.Tables.{
  Tables, sqlite_provider, id_eq, save, get_by_id, get_status, find_by_key_and_client_id, first,
  has_key,
}
use openrport.Vault.Provider.Tables.Rows.{
  IsValid, save-IsValid, save-get_by_id, remove-IsValid, first-any, get_status-save, save_accepted,
}
use openrport.Vault.Manager.{Manager, is_database_initialized}
use openrport.Vault.Manager.Values.{
  get_one, store, remove, with_value, is_positive, taken_by_another,
}
use openrport.Vault.Manager.Access.{store-Stored, failed_unchanged, finds}

-- The database, if there is one, has valid rows.
abbrev pub HasValidRows : Manager Tables → Type 0
HasValidRows m = (t : Tables) → m.factory.database ≡ some t → IsValid t

row_exists :
    (n : ℕ) (t : Tables)
    → not (is_positive (pos n)) || finds (get_by_id (pos n) t) ≡ true
    → n == 0 || any (λ v. id_eq (pos n) v.id) t.values ≡ true
unfolding get_by_id
row_exists n t h = ground (arith, h, first-any (λ v. id_eq (pos n) v.id) t.values)

module _ (c : Crypto) where
  store-HasValidRows :
      (m : Manager Tables) (random : Option Bytes) (now : ℕ) (existing_id : ℤ) (value : InputValue)
      (user : UserData)
      → HasValidRows m
      → HasValidRows (store c sqlite_provider random now existing_id value user m).0
  store-HasValidRows m random now existing_id value user v t e =
      let r = store c sqlite_provider random now existing_id value user m in
      elim (Result-cases r.1) [
        | inr (x, failed) ↦ v t (
            ground (
              arith,
              failed,
              failed_unchanged c sqlite_provider m random now existing_id value user,
              e,
            ))
        | inl (id, done) ↦
            let did =
              store-Stored c sqlite_provider m r.0 random now existing_id id value user
                (ground arith) in
            save-IsValid user.username existing_id (record value { value = did.encrypted }) now
              did.before t id (ground (arith, did.saved, did.result)) (v did.before did.had)
      ]

  remove-HasValidRows :
      (m : Manager Tables) (id : ℤ) (user : UserData)
      → HasValidRows m
      → HasValidRows (remove c sqlite_provider id user m).0
  unfolding remove
  remove-HasValidRows m id user v t e = elim (Option-cases m.factory.database) [
    | inl e' ↦ absurd (ground (arith, e'))
    | inr (s, e') ↦ elim (Result-cases (Tables.remove id s)) [
      | inr (x, bad) ↦ v t (ground (arith, e', bad))
      | inl (s', good) ↦
          let which : (t ≡ s) ⊎ (t ≡ s') = ground (arith, e, e', good) in
          elim which [
            | inl same ↦ rw same (v s e')
            | inr new ↦ rw new (remove-IsValid id s s' good (v s e'))
          ]
    ]
  ]

  not_taken :
      (id : ℤ) (stored : Option StoredValue)
      → taken_by_another id stored ≡ false
      → (stored ≡ none)
        ⊎ ((id_eq id 0 ≡ false) × (v : StoredValue) × (stored ≡ some v) × (id_eq id v.id ≡ true))
  not_taken id none h = inl refl
  not_taken id (some v) h = inr (ground (arith, h), v, refl, ground (arith, h))

  none_or_errors_lem :
      (es : List ValueError) (e : String) → none_or_errors es ≡ err (db_failure e) → ⊥
  none_or_errors_lem [] e h = ground (arith, h)
  none_or_errors_lem (x ∷ es) e h = ground (arith, h)

  validate_lem : (value : InputValue) (e : String) → validate value ≡ err (db_failure e) → ⊥
  unfolding validate
  validate_lem value e h =
      none_or_errors_lem (key_errors value ++ (value_errors value ++ type_errors value)) e h

  not_refused_by_database :
      (m : Manager Tables) (random : Option Bytes) (now : ℕ) (id : ℤ) (value : InputValue)
      (user : UserData) (e : String)
      → HasValidRows m
      → (store c sqlite_provider random now id value user m).1 ≡ err (db_failure e)
      → ⊥
  unfolding store get_status get_by_id find_by_key_and_client_id is_database_initialized
  not_refused_by_database m random now id value user e v h =
      elim (Option-cases m.factory.database) [
        | inl gone ↦ ground (arith, h, gone)
        | inr (t, had) ↦
            let stored = first (has_key value.key value.client_id) t.values in
            elim (Bool-cases (taken_by_another id stored)) [
              | inl taken ↦ ground (arith, h, had, taken, validate_lem value e)
              | inr free ↦ elim (Result-cases (encrypt_by_pass c random value.value m.pass)) [
                | inr (w, bad) ↦ ground (arith, h, had, free, bad, validate_lem value e)
                | inl (enc, made) ↦
                    let val = record value { value = enc } in
                    elim (Result-cases (save user.username id val now t)) [
                      | inl (r, saved) ↦
                          ground (arith, h, had, free, made, saved, validate_lem value e)
                      | inr (w, refused) ↦
                          save_accepted user.username id val now t w (v t had)
                            (not_taken id stored free) refused
                    ]
              ]
            ]
      ]

  -- Storing and deleting, whether they succeed or not, keep the ids distinct and below the sequence
  -- and no two values under one client and key; and the database refuses no value that the vault
  -- tries to store.
  pub HasValidRows-kept :
      (m : Manager Tables) (random : Option Bytes) (now : ℕ) (id : ℤ) (value : InputValue)
      (user : UserData) (e : String)
      → HasValidRows m
      → HasValidRows (store c sqlite_provider random now id value user m).0
        × HasValidRows (remove c sqlite_provider id user m).0
        × ((store c sqlite_provider random now id value user m).1 ≢ err (db_failure e))
  HasValidRows-kept m random now id value user e v = (
    store-HasValidRows m random now id value user v,
    remove-HasValidRows m id user v,
    not_refused_by_database m random now id value user e v,
  )

  -- What a successful store has written is read back, decrypted, under the id that the store
  -- returned, by every user who is in the group that the value asks for. The store is a new value
  -- (id 0) or replaces one that exists.
  pub get_one-store :
      (m m' : Manager Tables) (nonce : Bytes) (now n : ℕ) (id : ℤ) (value : InputValue)
      (user reader : UserData)
      → IsSound c
      → HasValidRows m
      → length nonce ≡ c.nonce_size
      → store c sqlite_provider (some nonce) now (pos n) value user m ≡ (m', ok id)
      → value.required_group == "" || any (λ gr. gr == value.required_group) reader.groups ≡ true
      → (v : StoredValue) × (get_one c sqlite_provider id reader m' ≡ (m', ok (some v)))
        × (v.input ≡ value)
  unfolding get_one is_database_initialized
  get_one-store m m' nonce now n id value user reader sound v size h allowed =
      let did = store-Stored c sqlite_provider m m' (some nonce) now (pos n) id value user h in
      let (enc, made, read, nonempty) = decrypt-encrypt c sound value.value m.pass nonce size in
      let (w, found, same) =
        save-get_by_id user.username n (record value { value = did.encrypted }) now did.before
          did.after id did.saved (row_exists n did.before did.existed) (v did.before did.had) in
      let kept =
        get_status-save user.username (pos n) (record value { value = did.encrypted }) now
          did.before did.after id did.saved in
      (
        with_value w value.value,
        ground (arith, made, read, found, same, kept, did),
        ground (arith, same),
      )
