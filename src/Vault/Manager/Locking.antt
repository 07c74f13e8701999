-- ===== src/Vault/Manager/Locking.antt =====
-- The lock of server/vault/manager.go, over every database provider.
use openrport.Prelude.{
  ℕ, ◌≤◌, ◌<◌, ◌≡◌, refl, inl, inr, Bool, true, false, [], ◌∷◌, Option, none, some, ◌==◌, not, ◌&&◌,
  ◌||◌, ◌↔◌, if◌then◌else◌, Option-cases, string_eq, nat_eq, arith, length,
}
use openrport.Prelude.Int.{ℤ}
use openrport.Prelude.Results.{Result, ok, err}
use openrport.Enc.{Bytes, Crypto, IsSound}
use openrport.Enc.RoundTrip.{decrypt-encrypt}
use openrport.Vault.Model.{
  DbStatus, InputValue, UserData, Error, vault_locked, db_status_init, db_status_not_init,
}
use openrport.Vault.Provider.{DbProvider, with_provider}
use openrport.Vault.Provider.Tables.{Tables, sqlite_provider, get_status, set_status}
use openrport.Vault.Pass.{pass_match, validate_pass, get_enc_rand_value}
use openrport.Vault.Manager.{Manager, is_locked, unlock, lock, init_vault}
use openrport.Vault.Manager.Values.{get_one, store, remove}

abbrev is_ok_true : Result Error Bool → Bool
is_ok_true (ok b) = b
is_ok_true (err e) = false

module _ {S : Type 0} (c : Crypto) (db : DbProvider S) where
  -- A locked vault neither shows, stores nor deletes a value, whoever asks, and stays as it is.
  pub locked_refuses :
      (m : Manager S) (id : ℤ) (value : InputValue) (user : UserData) (random : Option Bytes)
      (now : ℕ)
      → is_locked m ≡ true
      → (get_one c db id user m ≡ (m, err vault_locked))
        × (store c db random now id value user m ≡ (m, err vault_locked))
        × (remove c db id user m ≡ (m, err vault_locked))
  unfolding get_one store remove
  locked_refuses m id value user random now h = ground arith

  -- The password decrypts the control value of a database that is set up.
  abbrev accepts : Bytes → Result Error DbStatus → Bool
  accepts pass (err e) = false
  accepts pass (ok s) =
      not (s.status_name == "" || s.status_name == db_status_not_init)
      && is_ok_true (pass_match c s pass)

  -- Unlocking succeeds exactly on a locked vault whose control value the password decrypts, and
  -- then sets the password alone; where it fails nothing changes.
  pub unlock_lem :
      (m : Manager S) (pass : Bytes)
      → let opens = is_locked m && accepts pass (with_provider db.get_status m.factory) in
        ((unlock c db pass m).0 ≡ (if opens then record m { pass = pass } else m))
        × (((unlock c db pass m).1 ≡ ok tt) ↔ (opens ≡ true))
  unfolding unlock
  unlock_lem m pass = ground arith

-- What init_vault leaves in the status table.
abbrev control_status : ℕ → Bytes → Bytes → DbStatus
control_status id enc hash = record {
  id = id;
  status_name = db_status_init;
  enc_check_value = enc;
  dec_check_value = hash;
}

module _ (c : Crypto) (sound : IsSound c) where
  control_value :
      (pass hash nonce : Bytes)
      → length nonce ≡ c.nonce_size
      → 0 < length pass
      → (enc : Bytes) × (get_enc_rand_value c hash (some nonce) pass ≡ ok (enc, hash))
        × ((s : DbStatus) → s.enc_check_value ≡ enc → pass_match c s pass ≡ ok true)
  unfolding pass_match get_enc_rand_value
  control_value [] hash nonce n p = absurd (omega arith)
  control_value (b ∷ bs) hash nonce n p =
      let (enc, made, read, nonempty) = decrypt-encrypt c sound hash (b ∷ bs) nonce n in
      (enc, rw (made, get_enc_rand_value), λ s q. ground (arith, read))

  -- A vault set up for the first time with a password of 4 to 32 bytes is unlocked, can be locked,
  -- and is unlocked again by the same password, whatever the rest of its database holds.
  pub set_up_reopens :
      (m : Manager Tables) (t : Tables) (pass hash nonce : Bytes)
      → m.factory.database ≡ none
      → length nonce ≡ c.nonce_size
      → 4 ≤ length pass
      → length pass ≤ 32
      → let r = init_vault c sqlite_provider (ok t) hash (some nonce) pass m in
        let q = lock c sqlite_provider r.0 in
        (r.1 ≡ ok tt)
        × (is_locked r.0 ≡ false)
        × (q.1 ≡ ok tt)
        × (is_locked q.0 ≡ true)
        × (unlock c sqlite_provider pass q.0 ≡ (r.0, ok tt))
  unfolding init_vault unlock lock validate_pass set_status get_status
  set_up_reopens m t pass hash nonce fresh n short long =
      let (enc, made, matches) = control_value pass hash nonce n (omega arith) in
      elim (Option-cases t.status) [
        | inl e ↦ ground (arith, e, made, matches (control_status 1 enc hash) refl)
        | inr (s, e) ↦ ground (arith, e, made, matches (control_status s.id enc hash) refl)
      ]
