-- ===== src/Examples/Vaults.antt =====
-- A vault with one value, over a toy cipher that has the documented properties.
use openrport.Prelude.{
  ◌≢◌, ◌≡◌, ◌≢◌, refl, subst, true, false, [], ◌∷◌, Option, none, some, arith, string_eq,
}
use openrport.Prelude.Int.{pos}
use openrport.Prelude.Results.{ok, err}
use openrport.Enc.{Bytes, Crypto, IsSound, encrypt_by_pass, decrypt_by_pass}
use openrport.Enc.RoundTrip.{decrypt-encrypt}
use openrport.Vault.Model.{
  db_failure, DbStatus, db_status_init, InputValue, StoredValue, UserData, Error, vault_locked,
  group_forbidden,
}
use openrport.Vault.Provider.{DbProvider, Factory, with_provider}
use openrport.Vault.Provider.Tables.{Tables, sqlite_provider, get_by_id, save, first}
use openrport.Vault.Provider.Tables.Rows.{IsValid}
use openrport.Vault.Manager.{Manager, new_manager, is_locked, init_vault, unlock, lock}
use openrport.Vault.Manager.Values.{get_one, store, remove}
use openrport.Vault.Manager.Locking.{set_up_reopens}
use openrport.Vault.Manager.Access.{forbidden_fails, store-Stored, Stored, is_ok}
use openrport.Vault.Manager.Storing.{HasValidRows, HasValidRows-kept, get_one-store}

abbrev hash : Bytes
hash =
    1 ∷ 1 ∷ 1 ∷ 1 ∷ 1 ∷ 1 ∷ 1 ∷ 1 ∷ 1 ∷ 1 ∷ 1 ∷ 1 ∷ 1 ∷ 1 ∷ 1 ∷ 1 ∷ 1 ∷ 1 ∷ 1 ∷ 1 ∷ 1 ∷ 1 ∷ 1 ∷ 1
    ∷ 1 ∷ 1 ∷ 1 ∷ 1 ∷ 1 ∷ 1 ∷ 1 ∷ 1 ∷ []

abbrev open_toy : Bytes → Option Bytes
open_toy [] = none
open_toy (t ∷ payload) = some payload

abbrev toy : Crypto
toy = record {
  sha256 = λ x. hash;
  nonce_size = 1;
  seal = λ k n payload. 7 ∷ payload;
  open_sealed = λ k n sealed. open_toy sealed;
  base64_encode = λ x. x;
  base64_decode = λ x. some x;
}

abbrev toy_sound : IsSound toy
toy_sound = record {
  length-sha256 = λ x. refl;
  seal_tagged = λ k n x. omega arith;
  open_sealed-seal = λ k n x h. refl;
  base64_encode-nil = refl;
  base64_decode-encode = λ x. refl;
}

decrypt-encrypt_example :
    (encrypted : Bytes) × (encrypt_by_pass toy (some (9 ∷ [])) (4 ∷ 2 ∷ []) (5 ∷ []) ≡ ok encrypted)
    × (decrypt_by_pass toy encrypted (5 ∷ []) ≡ ok (4 ∷ 2 ∷ []))
    × (encrypted ≢ [])
decrypt-encrypt_example = decrypt-encrypt toy toy_sound (4 ∷ 2 ∷ []) (5 ∷ []) (9 ∷ []) refl

abbrev pass : Bytes
pass = 1 ∷ 2 ∷ 3 ∷ 4 ∷ []

abbrev fresh : Manager Tables
fresh = new_manager (record { database = none })

abbrev no_rows : Tables
no_rows = record { status = none; values = []; next_id = 1 }

set_up_reopens_example :
    let r = init_vault toy sqlite_provider (ok no_rows) (8 ∷ []) (some (9 ∷ [])) pass fresh in
    let q = lock toy sqlite_provider r.0 in
    (r.1 ≡ ok tt)
    × (is_locked r.0 ≡ false)
    × (q.1 ≡ ok tt)
    × (is_locked q.0 ≡ true)
    × (unlock toy sqlite_provider pass q.0 ≡ (r.0, ok tt))
set_up_reopens_example =
    set_up_reopens toy toy_sound fresh no_rows pass (8 ∷ []) (9 ∷ []) refl refl (omega arith)
      (omega arith)

abbrev secret : InputValue
secret = record {
  client_id = "c1";
  required_group = "ops";
  key = "root";
  value = 4 ∷ 2 ∷ [];
  value_type = "secret";
}

abbrev admin : UserData
admin = record { username = "ann"; groups = "ops" ∷ [] }

abbrev guest : UserData
guest = record { username = "bob"; groups = [] }

abbrev status_row : DbStatus
status_row = record {
  id = 1;
  status_name = db_status_init;
  enc_check_value = 9 ∷ 7 ∷ 8 ∷ [];
  dec_check_value = 8 ∷ [];
}

abbrev opened : Manager Tables
opened = record {
  pass = pass;
  factory = record {
    database = some (record { status = some status_row; values = []; next_id = 1 });
  };
}

abbrev closed : Manager Tables
closed = record opened { pass = [] }

abbrev secret_row : StoredValue
secret_row = record {
  input = record secret { value = 9 ∷ 7 ∷ 4 ∷ 2 ∷ [] };
  id = 1;
  created_at = 100;
  updated_at = 100;
  created_by = "ann";
  updated_by = some "ann";
}

abbrev filled : Manager Tables
filled = record {
  pass = pass;
  factory = record {
    database = some (record { status = some status_row; values = secret_row ∷ []; next_id = 2 });
  };
}

forbidden_fails_example :
    ((get_one toy sqlite_provider (pos 1) guest filled).0 ≡ filled)
    × (is_ok (get_one toy sqlite_provider (pos 1) guest filled).1 ≡ false)
    × ((remove toy sqlite_provider (pos 1) guest filled).0 ≡ filled)
    × (is_ok (remove toy sqlite_provider (pos 1) guest filled).1 ≡ false)
    × ((store toy sqlite_provider none 100 (pos 1) secret guest filled).0 ≡ filled)
    × (is_ok (store toy sqlite_provider none 100 (pos 1) secret guest filled).1 ≡ false)
unfolding get_by_id first
forbidden_fails_example =
    forbidden_fails toy sqlite_provider filled (pos 1) secret_row guest secret none 100 refl refl
      refl

store-Stored_example :
    Stored toy sqlite_provider opened filled (some (9 ∷ [])) 100 (pos 0) (pos 1) secret admin
unfolding store openrport.Vault.Provider.Tables.get_status openrport.Vault.Model.validate
    openrport.Vault.Provider.Tables.find_by_key_and_client_id encrypt_by_pass save
store-Stored_example =
    store-Stored toy sqlite_provider opened filled (some (9 ∷ [])) 100 (pos 0) (pos 1) secret admin
      refl

opened_rows : IsValid (record { status = some status_row; values = []; next_id = 1 })
opened_rows = record { positive = omega arith; rows = tt }

opened-HasValidRows : HasValidRows opened
opened-HasValidRows t h =
    let same : record { status = some status_row; values = []; next_id = 1 } ≡ t = ground arith in
    subst IsValid same opened_rows

HasValidRows-kept_example :
    HasValidRows (store toy sqlite_provider (some (9 ∷ [])) 100 (pos 0) secret admin opened).0
    × HasValidRows (remove toy sqlite_provider (pos 0) admin opened).0
    × ((store toy sqlite_provider (some (9 ∷ [])) 100 (pos 0) secret admin opened).1
        ≢ err (db_failure "UNIQUE constraint failed: values.client_id, values.key"))
HasValidRows-kept_example =
    HasValidRows-kept toy opened (some (9 ∷ [])) 100 (pos 0) secret admin
      "UNIQUE constraint failed: values.client_id, values.key" opened-HasValidRows

get_one-store_example :
    (v : StoredValue) × (get_one toy sqlite_provider (pos 1) admin filled ≡ (filled, ok (some v)))
    × (v.input ≡ secret)
unfolding store openrport.Vault.Provider.Tables.get_status openrport.Vault.Model.validate
    openrport.Vault.Provider.Tables.find_by_key_and_client_id encrypt_by_pass save
get_one-store_example =
    get_one-store toy opened filled (9 ∷ []) 100 0 (pos 1) secret admin admin toy_sound
      opened-HasValidRows refl refl refl
