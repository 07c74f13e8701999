-- ===== src/Vault/Provider/Tables.antt =====
-- server/vault/sqlite.go over the two tables of db/migration/vaults. `next_id` is the sequence of
-- AUTOINCREMENT. I/O failures of the engine are not modelled here; the unique index on client and
-- key is.
pub mod Rows
use openrport.Prelude.{
  ℕ, suc, ◌+◌, String, Bool, true, false, not, ◌&&◌, List, [], ◌∷◌, ◌++◌, map, Option, none, some,
  ◌==◌, nat_eq, string_eq, if◌then◌else◌, filter, any,
}
use openrport.Prelude.Int.{ℤ, pos, negsuc}
use openrport.Prelude.Results.{Result, ok, err}
use openrport.Vault.Model.{DbStatus, InputValue, StoredValue, Error, db_failure, no_status}
use openrport.Vault.Provider.{DbProvider}

pub record Tables : Type 0 where
  pub status : Option DbStatus
  pub values : List StoredValue
  pub next_id : ℕ

abbrev pub id_eq : ℤ → ℕ → Bool
id_eq (pos n) i = n == i
id_eq (negsuc n) i = false

unfoldable pub get_status : Tables → Result Error DbStatus
get_status t = elim t.status [ none ↦ ok no_status | some s ↦ ok s ]

unfoldable pub set_status : DbStatus → Tables → Result Error Tables
set_status new_status t = elim t.status [
  | none ↦ ok (record t { status = some (record new_status { id = 1 }) })
  | some s ↦ ok (record t { status = some (record new_status { id = s.id }) })
]

-- SELECT ... LIMIT 1
unfoldable pub first : (StoredValue → Bool) → List StoredValue → Option StoredValue
first p [] = none
first p (v ∷ vs) = if p v then some v else first p vs

unfoldable pub get_by_id : ℤ → Tables → Result Error (Option StoredValue)
unfolding first
get_by_id id t = ok (first (λ v. id_eq id v.id) t.values)

abbrev pub has_key : String → String → StoredValue → Bool
has_key key client_id v = v.key == key && v.client_id == client_id

unfoldable pub find_by_key_and_client_id :
    String → String → Tables → Result Error (Option StoredValue)
unfolding first
find_by_key_and_client_id key client_id t = ok (first (has_key key client_id) t.values)

-- The unique index refuses a second row for a client and key.
abbrev unique_violation : Error
unique_violation = db_failure "UNIQUE constraint failed: values.client_id, values.key"

abbrev pub updated_row : String → InputValue → ℕ → StoredValue → StoredValue
updated_row user val now_date v = record v {
  input = val;
  updated_at = now_date;
  updated_by = some user;
}

abbrev inserted_row : String → InputValue → ℕ → ℕ → StoredValue
inserted_row user val now_date id = record {
  input = val;
  id = id;
  created_at = now_date;
  updated_at = now_date;
  created_by = user;
  updated_by = some user;
}

insert_value : String → InputValue → ℕ → Tables → Result Error (Tables × ℤ)
insert_value user val now_date t =
    if any (has_key val.key val.client_id) t.values
    then err unique_violation
    else ok (
      record t {
        values = t.values ++ inserted_row user val now_date t.next_id ∷ [];
        next_id = suc t.next_id;
      },
      pos t.next_id,
    )

unfoldable pub update_where : ℤ → (StoredValue → StoredValue) → List StoredValue → List StoredValue
update_where id f [] = []
update_where id f (v ∷ vs) = (if id_eq id v.id then f v else v) ∷ update_where id f vs

-- The row with the id is compared with the others only, and a statement that matches no row
-- changes nothing and is no error.
update_value : String → ℤ → InputValue → ℕ → Tables → Result Error (Tables × ℤ)
unfolding update_where
update_value user id val now_date t =
    if any (λ v. id_eq id v.id) t.values
      && any (λ v. not (id_eq id v.id) && has_key val.key val.client_id v) t.values
    then err unique_violation
    else ok (record t { values = update_where id (updated_row user val now_date) t.values }, id)

unfoldable pub save : String → ℤ → InputValue → ℕ → Tables → Result Error (Tables × ℤ)
unfolding insert_value update_value
save user (pos n) val now_date t =
    if n == 0 then insert_value user val now_date t else update_value user (pos n) val now_date t
save user (negsuc n) val now_date t = update_value user (negsuc n) val now_date t

unfoldable pub remove : ℤ → Tables → Result Error Tables
remove id t =
    if any (λ v. id_eq id v.id) t.values
    then ok (record t { values = filter (λ v. not (id_eq id v.id)) t.values })
    else err (db_failure "cannot find entry by id")

abbrev pub sqlite_provider : DbProvider Tables
sqlite_provider = record {
  get_status = get_status;
  set_status = set_status;
  get_by_id = get_by_id;
  find_by_key_and_client_id = find_by_key_and_client_id;
  save = save;
  remove = remove;
}
