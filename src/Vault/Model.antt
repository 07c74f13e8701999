-- ===== src/Vault/Model.antt =====
-- server/vault/model.go and validate.go: what the vault stores, its errors, and the check of a
-- value that a user sends. Times are numbers, and an optional text column is an `Option`.
use openrport.Prelude.{
  ℕ, String, Bool, true, false, ◌||◌, List, [], ◌∷◌, ◌++◌, Option, ◌==◌, string_eq, if◌then◌else◌,
}
use openrport.Prelude.Results.{Result, ok, err}
use openrport.Enc.{Bytes}
use openrport.Enc

pub record DbStatus : Type 0 where
  pub id : ℕ
  pub status_name : String
  pub enc_check_value : Bytes
  pub dec_check_value : Bytes

abbrev pub db_status_init : String
db_status_init = "setup-completed"

abbrev pub db_status_not_init : String
db_status_not_init = "uninitialized"

abbrev pub no_status : DbStatus
no_status = record { id = 0; status_name = ""; enc_check_value = []; dec_check_value = [] }

pub record InputValue : Type 0 where
  pub client_id : String
  pub required_group : String
  pub key : String
  pub value : Bytes
  pub value_type : String

pub record StoredValue : Type 0 where
  pub input : InputValue
  pub open input use *
  pub id : ℕ
  pub created_at : ℕ
  pub updated_at : ℕ
  pub created_by : String
  pub updated_by : Option String

pub record UserData : Type 0 where
  pub username : String
  pub groups : List String

pub data ValueError : Type 0 where
  key_required value_required type_required unknown_type : ValueError

pub data Error : Type 0 where
  pass_too_short pass_too_long : Error
  already_initialized already_unlocked already_locked not_initialized : Error
  vault_locked wrong_password empty_control_value group_forbidden : Error
  id_not_found key_exists database_not_initialised : Error
  invalid_value : List ValueError → Error
  db_failure : String → Error
  enc_failure : Enc.Error → Error

abbrev is_empty : Bytes → Bool
is_empty [] = true
is_empty (b ∷ bs) = false

abbrev pub key_errors : InputValue → List ValueError
key_errors iv = if iv.key == "" then key_required ∷ [] else []

abbrev pub value_errors : InputValue → List ValueError
value_errors iv = if is_empty iv.value then value_required ∷ [] else []

abbrev known_type : String → Bool
known_type t = t == "text" || (t == "secret" || (t == "markdown" || t == "string"))

abbrev pub type_errors : InputValue → List ValueError
type_errors iv =
    if iv.value_type == ""
    then type_required ∷ []
    else if known_type iv.value_type
    then []
    else unknown_type ∷ []

abbrev pub none_or_errors : List ValueError → Result Error (Unit {0})
none_or_errors [] = ok tt
none_or_errors (e ∷ es) = err (invalid_value (e ∷ es))

unfoldable pub validate : InputValue → Result Error (Unit {0})
validate iv = none_or_errors (key_errors iv ++ (value_errors iv ++ type_errors iv))
