-- ===== src/Vault/Manager.antt =====
-- server/vault/manager.go. A method is an action on the manager: it returns the new manager, also
-- when it fails. The locks make each method one step; `random` is what the random source yields and
-- `now` the time of the call. The empty password means that the vault is locked.
pub mod Values
pub mod Locking
pub mod Access
pub mod Storing
use openrport.Prelude.{
  ℕ, String, Bool, true, false, not, ◌&&◌, ◌||◌, List, [], ◌∷◌, Option, none, some, ◌==◌, nat_eq,
  string_eq, if◌then◌else◌, any,
}
use openrport.Prelude.Int.{ℤ, pos, negsuc}
use openrport.Prelude.Results.{Result, ok, err}
use openrport.Prelude.Actions.{Action, ◌>>=◌, ◌>>◌, return, fail, require, ask}
use openrport.Enc
use openrport.Enc.{Bytes, Crypto, encrypt_by_pass, decrypt_by_pass}
use openrport.Vault.Model.{
  DbStatus, db_status_init, db_status_not_init, InputValue, StoredValue, UserData, Error,
  already_initialized, already_unlocked, already_locked, not_initialized, vault_locked,
  wrong_password, group_forbidden, id_not_found, key_exists, database_not_initialised, enc_failure,
  validate,
}
use openrport.Vault.Provider.{DbProvider, Factory, with_provider, init}
use openrport.Vault.Pass.{validate_pass, pass_match, get_enc_rand_value}

pub record Manager (S : Type 0) : Type 0 where
  pub pass : Bytes
  pub factory : Factory S

pub record StatusReport : Type 0 where
  pub init_status : String
  pub lock_status : String

abbrev pub new_manager : {S : Type 0} → Factory S → Manager S
new_manager factory = record { pass = []; factory = factory }

abbrev pub is_locked_pass : Bytes → Bool
is_locked_pass [] = true
is_locked_pass (b ∷ bs) = false

abbrev pub is_locked : {S : Type 0} → Manager S → Bool
is_locked m = is_locked_pass m.pass

abbrev set_pass : {S : Type 0} → Bytes → Action (Manager S) Error (Unit {0})
set_pass pass m = (record m { pass = pass }, ok tt)

module _ {S : Type 0} (c : Crypto) (db : DbProvider S) where
  -- A read of the database.
  abbrev pub query : {A : Type 0} → (S → Result Error A) → Action (Manager S) Error A
  query f m = (m, with_provider f m.factory)

  -- A write: the database is the same if it fails.
  abbrev pub exec : (S → Result Error S) → Action (Manager S) Error (Unit {0})
  exec f m = elim (with_provider f m.factory) [
    | ok s ↦ (record m { factory = record { database = some s } }, ok tt)
    | err e ↦ (m, err e)
  ]

  abbrev pub exec_save : (S → Result Error (S × ℤ)) → Action (Manager S) Error ℤ
  exec_save f m = elim (with_provider f m.factory) [
    | ok r ↦ (record m { factory = record { database = some (r.0) } }, ok (r.1))
    | err e ↦ (m, err e)
  ]

  -- Init of the factory.
  abbrev init_factory : Result Error S → Action (Manager S) Error (Unit {0})
  init_factory built m = elim (init built m.factory) [
    | ok f ↦ (record m { factory = f }, ok tt)
    | err e ↦ (m, err e)
  ]

  abbrev initialized_status : Result Error DbStatus → Result Error Bool
  initialized_status (ok s) = ok (s.status_name == db_status_init)
  initialized_status (err database_not_initialised) = ok false
  initialized_status (err e) = err e

  unfoldable pub is_database_initialized : Manager S → Result Error Bool
  is_database_initialized m = initialized_status (with_provider db.get_status m.factory)

  unfoldable pub init_vault :
      Result Error S → Bytes → Option Bytes → Bytes → Action (Manager S) Error (Unit {0})
  unfolding is_database_initialized
  init_vault built timestamp_hash random pass = do
    ask (λ m. validate_pass pass)
    is_init ← ask is_database_initialized
    require (not is_init) already_initialized
    init_factory built
    (enc_value, dec_value) ← ask (λ m. get_enc_rand_value c timestamp_hash random pass)
    exec (
        db.set_status (record {
          id = 0;
          status_name = db_status_init;
          enc_check_value = enc_value;
          dec_check_value = dec_value;
        }))
    set_pass pass

  abbrev not_yet_initialized : DbStatus → Bool
  not_yet_initialized s = s.status_name == "" || s.status_name == db_status_not_init

  unfoldable pub unlock : Bytes → Action (Manager S) Error (Unit {0})
  unlock pass = do
    locked ← (λ m. (m, ok (is_locked m)))
    require locked already_unlocked
    db_status ← query db.get_status
    require (not (not_yet_initialized db_status)) not_initialized
    matches ← ask (λ m. pass_match c db_status pass)
    require matches wrong_password
    set_pass pass

  unfoldable pub lock : Action (Manager S) Error (Unit {0})
  lock = do
    locked ← (λ m. (m, ok (is_locked m)))
    require (not locked) already_locked
    db_status ← query db.get_status
    require (not (not_yet_initialized db_status)) not_initialized
    set_pass []

  abbrev lock_status : Bytes → String
  lock_status pass = if is_locked_pass pass then "locked" else "unlocked"

  abbrev report : Bytes → Result Error DbStatus → Result Error StatusReport
  report pass (ok s) =
      if not_yet_initialized s
      then ok (record { init_status = db_status_not_init; lock_status = "" })
      else ok (record { init_status = s.status_name; lock_status = lock_status pass })
  report pass (err database_not_initialised) =
      ok (record { init_status = db_status_not_init; lock_status = "" })
  report pass (err e) = err e

  unfoldable pub status : Manager S → Result Error StatusReport
  status m = report m.pass (with_provider db.get_status m.factory)

  unfoldable pub check_unlocked_and_initialized : Action (Manager S) Error (Unit {0})
  unfolding is_database_initialized
  check_unlocked_and_initialized = do
    locked ← (λ m. (m, ok (is_locked m)))
    require (not locked) vault_locked
    is_init ← ask is_database_initialized
    require is_init not_initialized
