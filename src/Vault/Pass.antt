-- ===== src/Vault/Pass.antt =====
-- server/vault/pass.go: the vault's password, as long as the source allows, and the value that
-- tells whether a password is the right one.
use openrport.Prelude.{ℕ, Bool, true, false, [], ◌∷◌, Option, ltb, if◌then◌else◌, length}
use openrport.Prelude.Results.{Result, ok, err}
use openrport.Enc.{Bytes, Crypto, encrypt_by_pass, decrypt_by_pass}
use openrport.Vault.Model.{
  DbStatus, Error, pass_too_short, pass_too_long, empty_control_value, enc_failure,
}

abbrev pub min_pass_length_bytes : ℕ
min_pass_length_bytes = 4

abbrev pub max_pass_length_bytes : ℕ
max_pass_length_bytes = 32

unfoldable pub validate_pass : Bytes → Result Error (Unit {0})
validate_pass pass =
    if ltb (length pass) min_pass_length_bytes
    then err pass_too_short
    else if ltb max_pass_length_bytes (length pass)
    then err pass_too_long
    else ok tt

unfoldable pub pass_match : Crypto → DbStatus → Bytes → Result Error Bool
pass_match c db_status [] = ok false
pass_match c db_status (b ∷ bs) = elim db_status.enc_check_value [
  | [] ↦ err empty_control_value
  | x ∷ xs ↦ elim (decrypt_by_pass c (x ∷ xs) (b ∷ bs)) [
    | ok dec_value ↦ ok true
    | err e ↦ ok false
  ]
]

-- `timestamp_hash` is the hash of the time of the call.
unfoldable pub get_enc_rand_value :
    Crypto → Bytes → Option Bytes → Bytes → Result Error (Bytes × Bytes)
get_enc_rand_value c timestamp_hash random pass =
    elim (encrypt_by_pass c random timestamp_hash pass) [
      | ok enc_value ↦ ok (enc_value, timestamp_hash)
      | err e ↦ err (enc_failure e)
    ]
