-- ===== src/Sessions/Storage.antt =====
-- server/api/session/sqlite.go: the table of the sessions. DATETIME makes a comparison one of whole
-- seconds. The id of a new row is SQLite's for an INTEGER PRIMARY KEY without AUTOINCREMENT: one
-- more than the largest in the table.
use openrport.Prelude.{
  ℕ, suc, ◌/◌, Bool, not, ◌&&◌, List, [], ◌∷◌, Option, none, some, leb, ltb, if◌then◌else◌, ◌==◌,
  string_eq, filter,
}
use openrport.Prelude.Int.{ℤ, pos, negsuc, int_eq}
use openrport.Prelude.Results.{ok}
use openrport.Sessions.{ApiSession, StorageProvider}

abbrev pub Table : Type 0
Table = List ApiSession

abbrev pub seconds : ℕ → ℕ
seconds t = t / 1000000000

unfoldable pub find_by_id : ℤ → List ApiSession → Option ApiSession
find_by_id id [] = none
find_by_id id (s ∷ ss) = if s.session_id == id then some s else find_by_id id ss

abbrev pub id_above : ℤ → ℕ → ℕ
id_above (pos n) next = if ltb n next then next else suc n
id_above (negsuc n) next = next

unfoldable pub next_id : Table → ℕ
next_id [] = 1
next_id (s ∷ ss) = id_above s.session_id (next_id ss)

abbrev add : ApiSession → Table → Table × ℤ
add s rows = (record s { session_id = pos (next_id rows) } ∷ rows, pos (next_id rows))

unfoldable pub update_rows : ApiSession → List ApiSession → List ApiSession
update_rows s [] = []
update_rows s (r ∷ rows) = (if r.session_id == s.session_id then s else r) ∷ update_rows s rows

unfoldable pub save_session : ApiSession → Table → Table × ℤ
unfolding update_rows next_id
save_session s t = if s.session_id == pos 0 then add s t else (update_rows s t, s.session_id)

abbrev delete_where : (ApiSession → Bool) → Table → Table
delete_where p t = filter (λ s. not (p s)) t

abbrev pub sqlite_provider : StorageProvider Table
sqlite_provider = record {
  get = λ id t. ok (find_by_id id t);
  get_all = λ now t. ok (filter (λ s. leb (seconds now) (seconds s.expires_at)) t);
  save = λ s t. ok (save_session s t);
  delete = λ id t. ok (delete_where (λ s. s.session_id == id) t);
  delete_expired = λ now t. ok (delete_where (λ s. leb (seconds s.expires_at) (seconds now)) t);
  delete_all_by_user = λ u t. ok (delete_where (λ s. s.username == u) t);
  delete_by_id = λ u id t. ok (delete_where (λ s. s.username == u && s.session_id == id) t);
}
