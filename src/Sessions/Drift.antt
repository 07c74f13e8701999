-- ===== src/Sessions/Drift.antt =====
-- server/api/session/cache.go and sqlite.go: where the cache and the table behind it part.
use openrport.Prelude.{
  ℕ, ◌≤◌, ◌∙◌, ◌<◌, ◌≡◌, refl, ap, String, Bool, false, not, List, [], ◌∷◌, none, some, arith, ◌==◌,
  string_eq, any, filter, ◌&&◌,
}
use openrport.Prelude.Int.{ℤ, pos, negsuc, int_eq}
use openrport.Prelude.Results.{ok}
use openrport.Sessions.{
  delete, ApiSession, InternalCacheProvider, IsCache, Cache, get, save, delete_by_id,
}
use openrport.Sessions.Users.{delete_by_id_cache}
use openrport.Sessions.Laws.{get-save}
use openrport.Sessions.Storage.{
  next_id, id_above, Table, sqlite_provider, save_session, update_rows, find_by_id,
}

filter_none :
    {A : Type 0} (q : A → Bool) (xs : List A) → any q xs ≡ false → filter (λ x. not (q x)) xs ≡ xs
filter_none q [] h = refl
filter_none q (x ∷ xs) h = ground (arith, filter_none q xs)

update_rows_gone :
    (s : ApiSession) (rows : Table)
    → find_by_id s.session_id rows ≡ none
    → update_rows s rows ≡ rows
unfolding update_rows find_by_id
update_rows_gone s [] h = refl
update_rows_gone s (r ∷ rows) h = ground (arith, update_rows_gone s rows)

save_session_gone :
    (s : ApiSession) (rows : Table)
    → (s.session_id == pos 0) ≡ false
    → find_by_id s.session_id rows ≡ none
    → save_session s rows ≡ (rows, s.session_id)
unfolding save_session
save_session_gone s rows old gone = ground (arith, update_rows_gone s rows gone)

id_above_le : (id : ℤ) (next : ℕ) → next ≤ id_above id next
id_above_le (pos n) next = ground arith
id_above_le (negsuc n) next = omega arith

row_below :
    (rows : Table) (n : ℕ) → next_id rows ≤ n → any (λ s. s.session_id == pos n) rows ≡ false
unfolding next_id
row_below [] n h = refl
row_below (s ∷ rows) n h = ground (
  arith,
  row_below rows n,
  id_above_le s.session_id (next_id rows),
  int_eq.equal_iff s.session_id (pos n),
)

new_row :
    (s : ApiSession) (rows : Table)
    → s.session_id ≡ pos 0
    → save_session s rows
      ≡ (record s { session_id = pos (next_id rows) } ∷ rows, pos (next_id rows))
unfolding save_session
new_row s rows h = ground (arith, int_eq.equal_iff s.session_id (pos 0))

module _ {C : Type 0} (p : InternalCacheProvider C) (law : IsCache p) where
  -- Deleting a session by an id other than -1 and a user with whom the table has no row of that id
  -- ends the session in the cache all the same, while the table keeps every row.
  pub delete_by_id_other_user :
      (now later : ℕ) (u : String) (id : ℤ) (m : Cache C Table)
      → (id == negsuc 0) ≡ false
      → any (λ s. s.username == u && s.session_id == id) m.storage ≡ false
      → (get p sqlite_provider later id ((delete_by_id p sqlite_provider now u id m).0) ≡ none)
        × ((delete_by_id p sqlite_provider now u id m).0.storage ≡ m.storage)
  unfolding get delete_by_id
  delete_by_id_other_user now later u id m one none_matches = (
    ground (
      arith,
      ap (p.get later id) (delete_by_id_cache p law sqlite_provider now u id m),
      law.get-delete later id id m.cache,
      int_eq.equal_iff id id,
    ),
    filter_none (λ s. s.username == u && s.session_id == id) m.storage none_matches,
  )

  -- Saving a session that has an id but whose row is gone, before it expires, succeeds and makes it
  -- readable again, though the table still has no row for it.
  pub save_after_deletion :
      (now : ℕ) (s : ApiSession) (m : Cache C Table)
      → (s.session_id == pos 0) ≡ false
      → find_by_id s.session_id m.storage ≡ none
      → now < s.expires_at
      → ((save p sqlite_provider now s m).1 ≡ ok s.session_id)
        × (get p sqlite_provider now s.session_id ((save p sqlite_provider now s m).0) ≡ some s)
        × ((save p sqlite_provider now s m).0.storage ≡ m.storage)
  unfolding save_session get save
  save_after_deletion now s m old gone live =
      let row : save_session s m.storage ≡ (m.storage, s.session_id) =
        save_session_gone s m.storage old gone in
      let result : (save p sqlite_provider now s m).1 ≡ ok s.session_id =
        ap (λ (r : Table × ℤ). ok (r.1)) row in
      (
        result,
        ground (
          arith,
          get-save p law sqlite_provider now now s s.session_id s.session_id m result live,
          int_eq.equal_iff s.session_id s.session_id,
        ),
        ap (λ (r : Table × ℤ). r.0) row,
      )

  deleted_new :
      (now : ℕ) (a : ApiSession) (m : Cache C Table)
      → a.session_id ≡ pos 0
      → (delete p sqlite_provider
          (pos (next_id m.storage))
          ((save p sqlite_provider now a m).0)).0.storage
        ≡ m.storage
  unfolding save delete
  deleted_new now a m na = ground (
    arith,
    new_row a m.storage na,
    int_eq.equal_iff (pos (next_id m.storage)) (pos (next_id m.storage)),
    filter_none (λ s. s.session_id == pos (next_id m.storage)) m.storage
        (row_below m.storage (next_id m.storage) (omega arith)),
  )

  -- The id of a new session that is deleted is given to the next new session, whoever's it is: a
  -- read by the id of the one that has ended then returns the other.
  pub deleted_id_reused :
      (now later : ℕ) (a b : ApiSession) (m : Cache C Table)
      → a.session_id ≡ pos 0
      → b.session_id ≡ pos 0
      → later < b.expires_at
      → (id : ℤ) × ((save p sqlite_provider now a m).1 ≡ ok id)
        × (get p sqlite_provider later id (
              (save p sqlite_provider later b
                ((delete p sqlite_provider id ((save p sqlite_provider now a m).0)).0)).0)
            ≡ some (record b { session_id = id }))
  unfolding save
  deleted_id_reused now later a b m na nb live =
      let id = pos (next_id m.storage) in
      let first = (save p sqlite_provider now a m).0 in
      let second = (delete p sqlite_provider id first).0 in
      let empty : second.storage ≡ m.storage = deleted_new now a m na in
      let result : (save p sqlite_provider later b second).1 ≡ ok id =
        ap (λ (r : Table × ℤ). ok (r.1)) (ap (save_session b) empty ∙ new_row b m.storage nb) in
      (
        id,
        ap (λ (r : Table × ℤ). ok (r.1)) (new_row a m.storage na),
        ground (
          arith,
          get-save p law sqlite_provider later later b id id second result live,
          int_eq.equal_iff id id,
        ),
      )
