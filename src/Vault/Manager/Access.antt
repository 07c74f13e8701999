-- ===== src/Vault/Manager/Access.antt =====
-- Who may see and change a value of server/vault/manager.go, over every database provider.
use openrport.Prelude.{
  ℕ, ◌≡◌, ◌⊎◌, Bool, true, false, not, ◌||◌, Option, none, some, string_eq, nat_eq, arith, inl, inr,
  Option-cases,
}
use openrport.Prelude.Int.{ℤ}
use openrport.Prelude.Results.{Result, ok, err, Result-cases}
use openrport.Enc.{Bytes, Crypto, encrypt_by_pass}
use openrport.Vault.Model.{InputValue, StoredValue, UserData, Error}
use openrport.Vault.Provider.{DbProvider, with_provider}
use openrport.Vault.Manager.{Manager, is_locked, is_database_initialized}
use openrport.Vault.Manager.Values.{get_one, store, remove, allows, is_positive}

abbrev pub is_ok : {A : Type 0} → Result Error A → Bool
is_ok (ok a) = true
is_ok (err e) = false

abbrev pub finds : Result Error (Option StoredValue) → Bool
finds (ok (some v)) = true
finds (ok none) = false
finds (err e) = false

module _ {S : Type 0} (c : Crypto) (db : DbProvider S) where
  -- A user outside the group that a stored value with a positive id asks for cannot read it, delete
  -- it, or store another value under its id: each of the three fails and leaves the vault as it
  -- was.
  pub forbidden_fails :
      (m : Manager S) (id : ℤ) (val : StoredValue) (user : UserData) (value : InputValue)
      (random : Option Bytes) (now : ℕ)
      → with_provider (db.get_by_id id) m.factory ≡ ok (some val)
      → allows val user ≡ false
      → is_positive id ≡ true
      → ((get_one c db id user m).0 ≡ m)
        × (is_ok (get_one c db id user m).1 ≡ false)
        × ((remove c db id user m).0 ≡ m)
        × (is_ok (remove c db id user m).1 ≡ false)
        × ((store c db random now id value user m).0 ≡ m)
        × (is_ok (store c db random now id value user m).1 ≡ false)
  unfolding get_one store remove
  forbidden_fails m id val user value random now found denied positive = ground arith

  -- What a successful store has done.
  pub record Stored (m m' : Manager S) (random : Option Bytes) (now : ℕ) (existing_id id : ℤ)
      (value : InputValue) (user : UserData) : Type 0 where
    pub before : S
    pub after : S
    pub encrypted : Bytes
    pub had : m.factory.database ≡ some before
    pub unlocked : is_locked m ≡ false
    pub initialized : is_database_initialized c db m ≡ ok true
    pub made : encrypt_by_pass c random value.value m.pass ≡ ok encrypted
    pub saved :
        db.save user.username existing_id (record value { value = encrypted }) now before
        ≡ ok (after, id)
    pub existed : not (is_positive existing_id) || finds (db.get_by_id existing_id before) ≡ true
    pub result : m' ≡ record m { factory = record { database = some after } }

  -- A store that succeeds ran on an unlocked vault that is set up, over a row that exists if it was
  -- an update, and has written the value, encrypted under the vault's password, and nothing else.
  pub store-Stored :
      (m m' : Manager S) (random : Option Bytes) (now : ℕ) (existing_id id : ℤ) (value : InputValue)
      (user : UserData)
      → store c db random now existing_id value user m ≡ (m', ok id)
      → Stored m m' random now existing_id id value user
  unfolding store
  store-Stored m m' random now existing_id id value user h =
      elim (Option-cases m.factory.database) [
        | inl e ↦ absurd (ground (arith, e))
        | inr (s, e) ↦ elim (Result-cases (encrypt_by_pass c random value.value m.pass)) [
          | inr (x, bad) ↦ absurd (ground (arith, e, bad))
          | inl (enc, made) ↦
              elim (Result-cases
                (db.save user.username existing_id (record value { value = enc }) now s)) [
                  | inr (x, bad) ↦ absurd (ground (arith, e, made, bad))
                  | inl (r, saved) ↦ record {
                    before = s;
                    after = r.0;
                    encrypted = enc;
                    had = e;
                    unlocked = ground arith;
                    initialized = ground arith;
                    made = made;
                    saved = ground (arith, e, made, saved);
                    existed = ground (arith, e);
                    result = ground (arith, e, made, saved);
                  }
                ]
        ]
      ]

  -- A store and a deletion succeed or leave the vault as it was.
  pub failed_unchanged :
      (m : Manager S) (random : Option Bytes) (now : ℕ) (id : ℤ) (value : InputValue)
      (user : UserData)
      → ((is_ok (store c db random now id value user m).1 ≡ true)
          ⊎ ((store c db random now id value user m).0 ≡ m))
        × ((is_ok (remove c db id user m).1 ≡ true) ⊎ ((remove c db id user m).0 ≡ m))
  unfolding store remove
  failed_unchanged m random now id value user = ground arith
