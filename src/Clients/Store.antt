-- ===== src/Clients/Store.antt =====
-- server/clients/sqlite.go and init.go: the clients that outlive the server. The interface is a
-- record of operations over the store's state. The table keeps one row for an id, in JSON for the
-- details, and compares times by SQLite's DATETIME, that is in whole seconds; a time is in
-- nanoseconds here.
pub mod Loading
use openrport.Prelude.{
  ℕ, ◌-◌, ◌/◌, String, Bool, true, false, not, ◌&&◌, ◌||◌, List, [], ◌∷◌, Option, none, some, map,
  ltb, leb, if◌then◌else◌, filter, insert, delete,
}
use openrport.Prelude.Results.{Result, ok, err}
use openrport.Strings.{Text, text_eq}
use openrport.Remotes.{Remote}
use openrport.Tunnels.{Tunnel}
use openrport.Clients.Client.{Client, is_connected}

pub data StoreError : Type 0 where
  busy : StoreError
  failed_to_get failed_to_save failed_to_delete : StoreError → StoreError

pub record ClientStore (S : Type 0) : Type 0 where
  pub get_all : ℕ → S → Result StoreError (List Client)
  pub save : Client → S → Result StoreError S
  pub delete_obsolete : ℕ → S → Result StoreError S
  pub delete : Text → S → Result StoreError S

-- What JSON has of a tunnel: not its protocols, its ACL in use and its proxy.
pub record StoredTunnel : Type 0 where
  pub id : Text
  pub remote : Remote

abbrev pub store_tunnel : Tunnel → StoredTunnel
store_tunnel t = record { id = t.id; remote = t.remote }

abbrev pub load_tunnel : StoredTunnel → Tunnel
load_tunnel t = record {
  id = t.id;
  remote = t.remote;
  protocols = [];
  acl = none;
  internal_tunnel_proxy = none;
}

pub record ClientDetails : Type 0 where
  pub name : Text
  pub os : Text
  pub os_arch : Text
  pub os_family : Text
  pub os_kernel : Text
  pub hostname : Text
  pub version : Text
  pub address : Text
  pub os_full_name : Text
  pub ipv4 : List Text
  pub ipv6 : List Text
  pub tags : List Text
  pub allowed_user_groups : List String
  pub tunnels : List StoredTunnel

-- clientSqlite; `disconnected_at` is `none` for a sql.NullTime that is not valid.
pub record ClientSqlite : Type 0 where
  pub id : Text
  pub client_auth_id : Text
  pub disconnected_at : Option ℕ
  pub details : ClientDetails

unfoldable pub convert_to_sqlite : Client → ClientSqlite
convert_to_sqlite c = record {
  id = c.id;
  client_auth_id = c.client_auth_id;
  disconnected_at = c.disconnected_at;
  details = record {
    name = c.name;
    os = c.os;
    os_arch = c.os_arch;
    os_family = c.os_family;
    os_kernel = c.os_kernel;
    hostname = c.hostname;
    version = c.version;
    address = c.address;
    os_full_name = c.os_full_name;
    ipv4 = c.ipv4;
    ipv6 = c.ipv6;
    tags = c.tags;
    allowed_user_groups = c.allowed_user_groups;
    tunnels = map store_tunnel c.tunnels;
  };
}

unfoldable pub convert : ClientSqlite → Client
convert s = record {
  id = s.id;
  name = s.details.name;
  os = s.details.os;
  os_arch = s.details.os_arch;
  os_family = s.details.os_family;
  os_kernel = s.details.os_kernel;
  os_full_name = s.details.os_full_name;
  hostname = s.details.hostname;
  ipv4 = s.details.ipv4;
  ipv6 = s.details.ipv6;
  tags = s.details.tags;
  version = s.details.version;
  address = s.details.address;
  client_auth_id = s.client_auth_id;
  allowed_user_groups = s.details.allowed_user_groups;
  disconnected_at = s.disconnected_at;
  session_id = [];
  paused = false;
  tunnels = map load_tunnel s.details.tunnels;
  tunnel_id_auto_increment = 0;
}

-- The table, by its primary key.
abbrev pub Rows : Type 0
Rows = List (Text × ClientSqlite)

abbrev pub seconds : ℕ → ℕ
seconds t = t / 1000000000

abbrev pub keep_disconnected_clients_start : ℕ → Option ℕ → ℕ
keep_disconnected_clients_start now none = now
keep_disconnected_clients_start now (some keep) = now - keep

-- The condition of GetAll's SELECT.
unfoldable pub is_retained : ℕ → Option ℕ → ClientSqlite → Bool
is_retained now keep row = elim row.disconnected_at [
  | none ↦ true
  | some at ↦
      leb (seconds (keep_disconnected_clients_start now keep)) (seconds at)
      || (elim keep [ none ↦ true | some k ↦ false ])
]

-- The condition of DeleteObsolete's DELETE.
unfoldable pub is_deleted : ℕ → Option ℕ → ClientSqlite → Bool
is_deleted now keep row = elim row.disconnected_at [
  | none ↦ false
  | some at ↦
      ltb (seconds at) (seconds (keep_disconnected_clients_start now keep))
      && (elim keep [ none ↦ false | some k ↦ true ])
]

abbrev pub convert_client_list : List ClientSqlite → List Client
convert_client_list = map convert

abbrev pub values : Rows → List ClientSqlite
values [] = []
values ((id, row) ∷ rows) = row ∷ values rows

abbrev pub select : ℕ → Option ℕ → Rows → List Client
select now keep rows = convert_client_list (filter (is_retained now keep) (values rows))

abbrev pub delete_where : (ClientSqlite → Bool) → Rows → Rows
delete_where p [] = []
delete_where p ((id, row) ∷ rows) =
    let rest = delete_where p rows in if p row then rest else (id, row) ∷ rest

abbrev pub replace : Client → Rows → Rows
replace c rows = insert c.id (convert_to_sqlite c) rows

abbrev pub sqlite_provider : Option ℕ → ClientStore Rows
sqlite_provider keep = record {
  get_all = λ now rows. ok (select now keep rows);
  save = λ c rows. ok (replace c rows);
  delete_obsolete = λ now rows. ok (delete_where (is_deleted now keep) rows);
  delete = λ id rows. ok (delete id rows);
}

abbrev pub disconnected_now : ℕ → Client → Client
disconnected_now now c = record c { disconnected_at = some now }

module _ {S : Type 0} (p : ClientStore S) where
  -- The loop of LoadInitialClients, with the clients as it leaves them.
  unfoldable pub mark_disconnected : ℕ → List Client → S → Result StoreError (S × List Client)
  mark_disconnected now [] s = ok (s, [])
  mark_disconnected now (c ∷ cs) s =
      if is_connected c
      then elim (p.save (disconnected_now now c) s) [
        | err e ↦ err (failed_to_save e)
        | ok s' ↦ elim (mark_disconnected now cs s') [
          | err e ↦ err e
          | ok r ↦ ok (r.0, disconnected_now now c ∷ (r.1))
        ]
      ]
      else elim (mark_disconnected now cs s) [ err e ↦ err e | ok r ↦ ok (r.0, c ∷ (r.1)) ]

  unfoldable pub load_initial_clients : ℕ → S → Result StoreError (S × List Client)
  load_initial_clients now s = elim (p.get_all now s) [
    | err e ↦ err (failed_to_get e)
    | ok all ↦ mark_disconnected now all s
  ]
