-- ===== src/Vault/Provider.antt =====
-- server/vault/dbProvider.go and sqlite.go: the database behind the manager. The interface is a
-- record of operations over the database's state; a call that fails leaves the state as it was. The
-- tables give the SQL statements of sqlite.go their documented meaning.
pub mod Tables
use openrport.Prelude.{ℕ, String, Bool, true, false, Option, none, some}
use openrport.Prelude.Int.{ℤ}
use openrport.Prelude.Results.{Result, ok, err, ◌>>=◌}
use openrport.Vault.Model.{DbStatus, InputValue, StoredValue, Error, database_not_initialised}

pub record DbProvider (S : Type 0) : Type 0 where
  pub get_status : S → Result Error DbStatus
  pub set_status : DbStatus → S → Result Error S
  pub get_by_id : ℤ → S → Result Error (Option StoredValue)
  pub find_by_key_and_client_id : String → String → S → Result Error (Option StoredValue)
  pub save : String → ℤ → InputValue → ℕ → S → Result Error (S × ℤ)
  pub remove : ℤ → S → Result Error S

-- StatefulDbProviderFactory: `database` is `none` until Init has built the provider, and until then
-- each call is NotInitDbProvider's.
pub record Factory (S : Type 0) : Type 0 where
  pub database : Option S

-- A call through GetDbProvider.
abbrev pub with_provider : {S A : Type 0} → (S → Result Error A) → Factory S → Result Error A
with_provider f factory = elim factory.database [
  | none ↦ err database_not_initialised
  | some s ↦ f s
]

-- Factory.Init, with what initDBBuilder returns.
abbrev pub init : {S : Type 0} → Result Error S → Factory S → Result Error (Factory S)
init built factory = elim built [ ok s ↦ ok (record { database = some s }) | err e ↦ err e ]
