-- ===== src/Clients/Store/Loading.antt =====
-- server/clients/sqlite.go and init.go: what the table forgets and when, against the memory's test
-- of an obsolete client, and what a restart of the server loads.
use openrport.Prelude.{
  ℕ, ◌-◌, ◌≡◌, ◌≤◌, refl, ap, inl, inr, Bool, Bool-cases, true, false, not, ◌&&◌, List, [], ◌∷◌,
  Option, none, some, arith, ◌==◌, if◌then◌else◌, lookup, insert, all, filter, ltb, map,
  Option-cases,
}
use openrport.Prelude.Results.{ok}
use openrport.Strings.{Text, text_eq}
use openrport.Clients.Client.{Client, obsolete, is_connected}
use openrport.Tunnels.{Tunnel}
use openrport.Clients.Store.{
  load_tunnel, store_tunnel, StoredTunnel, ClientSqlite, Rows, convert, convert_to_sqlite,
  is_retained, is_deleted, select, delete_where, sqlite_provider, mark_disconnected,
  load_initial_clients, values, convert_client_list, seconds, keep_disconnected_clients_start,
  replace, disconnected_now,
}

-- What of a client the table keeps: not the session, the pause, the count of tunnels, and what a
-- running tunnel has.
abbrev pub stored : Client → Client
stored c = record c {
  session_id = [];
  paused = false;
  tunnels = map (λ t. load_tunnel (store_tunnel t)) c.tunnels;
  tunnel_id_auto_increment = 0;
}

map-map {ℓ κ μ} :
    {A : Type ℓ} {B : Type κ} {C : Type μ} (g : B → C) (f : A → B) (xs : List A)
    → map g (map f xs) ≡ map (λ x. g (f x)) xs
map-map g f [] = refl
map-map g f (x ∷ xs) = ap (◌∷◌ (g (f x))) (map-map g f xs)

-- A stored client is read back as it was, less what the table does not keep of it: its session, its
-- pause, the number of its tunnels so far, and what a running tunnel has besides its remote.
pub convert-convert_to_sqlite : (c : Client) → convert (convert_to_sqlite c) ≡ stored c
unfolding convert convert_to_sqlite
convert-convert_to_sqlite c =
    ap (λ (ts : List Tunnel). record (stored c) { tunnels = ts })
      (map-map load_tunnel store_tunnel c.tunnels)

store_load : (ts : List StoredTunnel) → map store_tunnel (map load_tunnel ts) ≡ ts
store_load [] = refl
store_load (t ∷ ts) = ap (◌∷◌ t) (store_load ts)

retained_or_deleted :
    (now : ℕ) (keep : Option ℕ) (row : ClientSqlite)
    → is_retained now keep row ≡ not (is_deleted now keep row)
unfolding is_retained is_deleted
retained_or_deleted now keep row = ground arith

values_kept :
    (now : ℕ) (keep : Option ℕ) (rows : Rows)
    → values (delete_where (is_deleted now keep) rows) ≡ filter (is_retained now keep) (values rows)
values_kept now keep [] = refl
values_kept now keep ((id, row) ∷ rows) =
    ground (arith, values_kept now keep rows, retained_or_deleted now keep row)

-- Deleting the obsolete rows leaves exactly the rows that GetAll selects at the same time.
pub delete_obsolete-get_all :
    (now : ℕ) (keep : Option ℕ) (rows : Rows)
    → convert_client_list (values (delete_where (is_deleted now keep) rows)) ≡ select now keep rows
delete_obsolete-get_all now keep rows = ap convert_client_list (values_kept now keep rows)

seconds_lt : (a b : ℕ) → (ltb (seconds a) (seconds b) ≡ true) → (ltb a b ≡ true)
seconds_lt a b h = ground arith

-- The table compares whole seconds, so it deletes no client that the memory still shows.
pub is_deleted-obsolete :
    (now : ℕ) (keep : Option ℕ) (c : Client)
    → is_deleted now keep (convert_to_sqlite c) ≡ true
    → obsolete now keep c ≡ true
unfolding is_deleted obsolete convert_to_sqlite
is_deleted-obsolete now none c h = elim (Option-cases c.disconnected_at) [
  | inl connected ↦ ground arith
  | inr (t, at) ↦ ground arith
]
is_deleted-obsolete now (some k) c h = elim (Option-cases c.disconnected_at) [
  | inl connected ↦ ground arith
  | inr (t, at) ↦ ground (arith, seconds_lt t (now - k))
]

-- Each row stands under its own id, and an id has one row: the table's primary key.
abbrev pub IsKeyed : Rows → Type 0
IsKeyed [] = Unit
IsKeyed ((id, row) ∷ rows) = (row.id ≡ id) × (lookup id rows ≡ none) × IsKeyed rows

marked : ℕ → Client → Client
marked now c = if is_connected c then disconnected_now now c else c

save_marked : ℕ → List Client → Rows → Rows
save_marked now [] rows = rows
save_marked now (c ∷ cs) rows =
    save_marked now cs (if is_connected c then replace (disconnected_now now c) rows else rows)

mark_disconnected_lem :
    (keep : Option ℕ) (now : ℕ) (cs : List Client) (rows : Rows)
    → mark_disconnected (sqlite_provider keep) now cs rows
      ≡ ok (save_marked now cs rows, map (marked now) cs)
unfolding mark_disconnected save_marked marked
mark_disconnected_lem keep now [] rows = refl
mark_disconnected_lem keep now (c ∷ cs) rows = ground (
  arith,
  mark_disconnected_lem keep now cs rows,
  mark_disconnected_lem keep now cs (replace (disconnected_now now c) rows),
)

has_no_id : Text → List Client → Bool
has_no_id id [] = true
has_no_id id (c ∷ cs) = not (id == c.id) && has_no_id id cs

save_marked_past :
    (now : ℕ) (cs : List Client) (id : Text) (row : ClientSqlite) (rows : Rows)
    → has_no_id id cs ≡ true
    → save_marked now cs ((id, row) ∷ rows) ≡ (id, row) ∷ save_marked now cs rows
unfolding save_marked has_no_id insert
save_marked_past now [] id row rows h = refl
save_marked_past now (c ∷ cs) id row rows h = ground (
  arith,
  save_marked_past now cs id row rows,
  save_marked_past now cs id row (replace (disconnected_now now c) rows),
)

select-has_no_id :
    (now : ℕ) (keep : Option ℕ) (id : Text) (rows : Rows)
    → IsKeyed rows
    → lookup id rows ≡ none
    → has_no_id id (select now keep rows) ≡ true
unfolding has_no_id lookup convert
select-has_no_id now keep id [] v h = refl
select-has_no_id now keep id ((j, row) ∷ rows) v h = ground (
  arith,
  select-has_no_id now keep id rows (v.2),
  text_eq.equal_iff j id,
  text_eq.equal_iff id j,
  text_eq.equal_iff id row.id,
)

-- What loading makes of the table: each selected row that says connected is disconnected now.
mark_rows : ℕ → Option ℕ → Rows → Rows
mark_rows now keep [] = []
mark_rows now keep ((id, row) ∷ rows) =
    (id, if is_retained now keep row then convert_to_sqlite (marked now (convert row)) else row)
    ∷ mark_rows now keep rows

to-from_row : (row : ClientSqlite) → convert_to_sqlite (convert row) ≡ row
unfolding convert convert_to_sqlite
to-from_row row =
    ap (λ (ts : List StoredTunnel). record row { details = record row.details { tunnels = ts } })
      (store_load row.details.tunnels)

-- What is read from the table, whenever disconnected, is kept in full.
restored :
    (row : ClientSqlite) (at : Option ℕ)
    → convert (convert_to_sqlite (record (convert row) { disconnected_at = at }))
      ≡ record (convert row) { disconnected_at = at }
unfolding convert convert_to_sqlite
restored row at =
    ap
      (λ (ts : List StoredTunnel). record (convert row) {
        disconnected_at = at;
        tunnels = map load_tunnel ts;
      })
      (store_load row.details.tunnels)

restored_marked :
    (now : ℕ) (row : ClientSqlite)
    → convert (convert_to_sqlite (marked now (convert row))) ≡ marked now (convert row)
unfolding marked
restored_marked now row = elim (Bool-cases (is_connected (convert row))) [
  | inl c ↦ rw c (restored row (some now))
  | inr d ↦ rw d (restored row (convert row).disconnected_at)
]

save_marked-select :
    (now : ℕ) (keep : Option ℕ) (rows : Rows)
    → IsKeyed rows
    → save_marked now (select now keep rows) rows ≡ mark_rows now keep rows
unfolding save_marked mark_rows insert marked convert
save_marked-select now keep [] v = refl
save_marked-select now keep ((id, row) ∷ rows) v = ground (
  arith,
  save_marked-select now keep rows (v.2),
  text_eq.equal_iff id row.id,
  select-has_no_id now keep id rows (v.2) (v.1),
  to-from_row row,
  save_marked_past now (select now keep rows) id row rows,
  save_marked_past now (select now keep rows) id
      (convert_to_sqlite (disconnected_now now (convert row))) rows,
)

start_le : (now : ℕ) (keep : Option ℕ) → keep_disconnected_clients_start now keep ≤ now
start_le now none = omega arith
start_le now (some k) = omega arith

retained_marked :
    (now : ℕ) (keep : Option ℕ) (row : ClientSqlite)
    → is_retained now keep row ≡ true
    → is_retained now keep (convert_to_sqlite (marked now (convert row))) ≡ true
unfolding is_retained marked is_connected convert convert_to_sqlite
retained_marked now keep row h = elim (Option-cases row.disconnected_at) [
  | inl connected ↦ ground (arith, start_le now keep)
  | inr (t, at) ↦ ground arith
]

select-mark_rows :
    (now : ℕ) (keep : Option ℕ) (rows : Rows)
    → select now keep (mark_rows now keep rows) ≡ map (marked now) (select now keep rows)
unfolding mark_rows
select-mark_rows now keep [] = refl
select-mark_rows now keep ((id, row) ∷ rows) =
    ground
      (arith, select-mark_rows now keep rows, retained_marked now keep row, restored_marked now row)

all_disconnected :
    (now : ℕ) (cs : List Client) → all (λ c. not (is_connected c)) (map (marked now) cs) ≡ true
unfolding marked is_connected
all_disconnected now [] = refl
all_disconnected now (c ∷ cs) = ground (arith, all_disconnected now cs)

-- Loading from a table of distinct ids succeeds. The clients it returns are those that GetAll
-- selects from the table afterwards, none of them is connected, and they are the ones it selected
-- before, where a connected client has the present time as the time of its disconnection.
pub load_initial_clients_lem :
    (keep : Option ℕ) (now : ℕ) (rows : Rows)
    → IsKeyed rows
    → (after : Rows) × (clients : List Client) × (load_initial_clients
          (sqlite_provider keep)
          now
          rows
        ≡ ok (after, clients))
      × (select now keep after ≡ clients)
      × (all (λ c. not (is_connected c)) clients ≡ true)
      × (clients
          ≡ map
              (λ c. if is_connected c then record c { disconnected_at = some now } else c)
              (select now keep rows))
unfolding load_initial_clients marked
load_initial_clients_lem keep now rows v = (
  mark_rows now keep rows,
  map (marked now) (select now keep rows),
  ground (
    arith,
    mark_disconnected_lem keep now (select now keep rows) rows,
    save_marked-select now keep rows v,
  ),
  select-mark_rows now keep rows,
  all_disconnected now (select now keep rows),
  refl,
)
