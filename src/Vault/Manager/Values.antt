-- ===== src/Vault/Manager/Values.antt =====
-- server/vault/manager.go: reading, storing and deleting a value.
use openrport.Prelude.{
  ℕ, Bool, true, false, not, ◌||◌, Option, none, some, ◌==◌, nat_eq, string_eq, any,
}
use openrport.Prelude.Int.{ℤ, pos, negsuc}
use openrport.Prelude.Results.{Result, ok, err}
use openrport.Prelude.Actions.{Action, ◌>>=◌, ◌>>◌, return, fail, require, ask}
use openrport.Enc
use openrport.Enc.{Bytes, Crypto, encrypt_by_pass, decrypt_by_pass}
use openrport.Vault.Model.{
  InputValue, StoredValue, UserData, Error, group_forbidden, id_not_found, key_exists, enc_failure,
  validate,
}
use openrport.Vault.Provider.{DbProvider}
use openrport.Vault.Provider.Tables.{id_eq}
use openrport.Vault.Manager.{Manager, query, exec, exec_save, check_unlocked_and_initialized}

abbrev pub lifted_enc : {A : Type 0} → Result Enc.Error A → Result Error A
lifted_enc (ok a) = ok a
lifted_enc (err e) = err (enc_failure e)

-- The group that a stored value asks for is among the user's.
abbrev pub allows : StoredValue → UserData → Bool
allows val user = val.required_group == "" || any (λ gr. gr == val.required_group) user.groups

abbrev pub with_value : StoredValue → Bytes → StoredValue
with_value val value = record val { input = record (val.input) { value = value } }

abbrev pub is_positive : ℤ → Bool
is_positive (pos n) = not (n == 0)
is_positive (negsuc n) = false

-- `found && (existingID == 0 || storedValue.ID != int(existingID))`
abbrev pub taken_by_another : ℤ → Option StoredValue → Bool
taken_by_another existing_id none = false
taken_by_another existing_id (some v) = id_eq existing_id 0 || not (id_eq existing_id v.id)

module _ {S : Type 0} (c : Crypto) (db : DbProvider S) where
  check_group_access : StoredValue → UserData → Action (Manager S) Error (Unit {0})
  check_group_access val user = require (allows val user) group_forbidden

  abbrev decrypted : UserData → Option StoredValue → Action (Manager S) Error (Option StoredValue)
  decrypted user none = return none
  decrypted user (some val) = do
    check_group_access val user
    decrypted_value ← ask (λ m. lifted_enc (decrypt_by_pass c val.value m.pass))
    return (some (with_value val decrypted_value))

  -- `none` stands for `found == false`.
  unfoldable pub get_one : ℤ → UserData → Action (Manager S) Error (Option StoredValue)
  unfolding check_group_access check_unlocked_and_initialized
  get_one id user = do
    check_unlocked_and_initialized c db
    found ← query c db (db.get_by_id id)
    decrypted user found

  abbrev check_existing : UserData → Option StoredValue → Action (Manager S) Error (Unit {0})
  check_existing user none = fail id_not_found
  check_existing user (some val) = check_group_access val user

  abbrev check_update : ℤ → UserData → Action (Manager S) Error (Unit {0})
  check_update existing_id user = elim (is_positive existing_id) [
    | true ↦ query c db (db.get_by_id existing_id) >>= check_existing user
    | false ↦ return tt
  ]

  unfoldable pub store : Option Bytes → ℕ → ℤ → InputValue → UserData → Action (Manager S) Error ℤ
  unfolding check_group_access check_unlocked_and_initialized
  store random now existing_id value_to_store user = do
    check_unlocked_and_initialized c db
    ask (λ m. validate value_to_store)
    stored ← query c db (db.find_by_key_and_client_id value_to_store.key value_to_store.client_id)
    check_update existing_id user
    require (not (taken_by_another existing_id stored)) key_exists
    enc_value ← ask (λ m. lifted_enc (encrypt_by_pass c random value_to_store.value m.pass))
    exec_save c db
        (db.save user.username existing_id (record value_to_store { value = enc_value }) now)

  abbrev remove_found : ℤ → UserData → Option StoredValue → Action (Manager S) Error (Unit {0})
  remove_found id user none = fail id_not_found
  remove_found id user (some val) = do check_group_access val user; exec c db (db.remove id)

  unfoldable pub remove : ℤ → UserData → Action (Manager S) Error (Unit {0})
  unfolding check_group_access check_unlocked_and_initialized
  remove id user = do
    check_unlocked_and_initialized c db
    found ← query c db (db.get_by_id id)
    remove_found id user found
