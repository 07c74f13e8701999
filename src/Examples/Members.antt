-- ===== src/Examples/Members.antt =====
-- Two clients, a group that holds one of them, and the repository that keeps them.
use openrport.Prelude.{
  ℕ, ◌+◌, ◌≡◌, ◌↔◌, refl, true, false, not, ◌&&◌, leb, if◌then◌else◌, List, [], ◌∷◌, none, some,
  arith, In, all, map, lookup,
}
use openrport.Prelude.Results.{ok}
use openrport.Strings.{Text, split, text_eq}
use openrport.Groups.{matches}
use openrport.Groups.Pattern.{Glob, matches-Glob}
use openrport.Groups.Tags.{
  RawMessage, and_op, or_op, parse_tag, matches_raw_tags, matches_raw_tags_or,
  matches_raw_tags_case,
}
use openrport.Clients.Client.{Client, obsolete, is_connected}
use openrport.Clients.Access.{User, check_clients_access}
use openrport.Clients.Store.{
  ClientStore, ClientSqlite, Rows, convert, convert_to_sqlite, select, sqlite_provider,
  delete_where, is_deleted, values, convert_client_list, load_initial_clients,
}
use openrport.Clients.Store.Loading.{load_initial_clients_lem}
use openrport.Clients.Repository.{
  ClientRepository, save, delete_client, delete_obsolete, get_by_id, get_user_clients,
}
use openrport.Clients.Repository.Laws.{IsValid, IsValid-kept, delete_obsolete_lem}
use openrport.Clients.Repository.Queries.{get_user_clients-check_clients_access}

-- strings.ToLower on ASCII
abbrev lower_letter : ℕ → ℕ
lower_letter c = if leb 65 c && leb c 90 then c + 32 else c

abbrev to_lower : Text → Text
to_lower t = map lower_letter t

-- A pattern and a value that it matches: n*d and AND.
abbrev n_star_d : Text
n_star_d = b'n' ∷ b'*' ∷ b'd' ∷ []

abbrev nod : Text
nod = b'N' ∷ b'o' ∷ b'D' ∷ []

matches-Glob_example :
    (matches to_lower n_star_d nod ≡ true) ↔ Glob (split b'*' (to_lower n_star_d)) (to_lower nod)
matches-Glob_example = matches-Glob to_lower n_star_d nod

abbrev upper_and : Text
upper_and = b'A' ∷ b'N' ∷ b'D' ∷ []

abbrev and_condition : RawMessage
and_condition = record {
  bytes = 12;
  as_map = some ((upper_and, (b'a' ∷ []) ∷ []) ∷ []);
  as_list = none;
}

abbrev plain_condition : RawMessage
plain_condition = record { bytes = 5; as_map = none; as_list = some ((b'a' ∷ []) ∷ []) }

matches_raw_tags_case_example :
    (parse_tag to_lower and_condition ≡ ok (upper_and, (b'a' ∷ []) ∷ []))
    × (matches_raw_tags to_lower (some and_condition) ((b'a' ∷ []) ∷ []) ≡ false)
unfolding openrport.Groups.Tags.allowed_operator
matches_raw_tags_case_example =
    matches_raw_tags_case to_lower and_condition upper_and (b'a' ∷ []) [] ((b'a' ∷ []) ∷ []) refl
      refl (λ h. ground arith) (λ h. ground arith) (omega arith)

abbrev pub web : Client
web = record {
  id = b'w' ∷ [];
  name = [];
  os = [];
  os_arch = [];
  os_family = [];
  os_kernel = [];
  os_full_name = [];
  hostname = [];
  ipv4 = [];
  ipv6 = [];
  tags = (b'a' ∷ []) ∷ [];
  version = [];
  address = [];
  client_auth_id = [];
  allowed_user_groups = "ops" ∷ [];
  disconnected_at = none;
  session_id = [];
  paused = false;
  tunnels = [];
  tunnel_id_auto_increment = 0;
}

-- Disconnected at second 1; an hour later it is obsolete.
abbrev pub old : Client
old = record web { id = b'o' ∷ []; disconnected_at = some 1000000000 }

abbrev minute : ℕ
minute = 60000000000

abbrev pub hour : ℕ
hour = 3600000000000

abbrev ops : User
ops = record { groups = "ops" ∷ [] }

abbrev rows : Rows
rows = (web.id, convert_to_sqlite web) ∷ (old.id, convert_to_sqlite old) ∷ []

load_initial_clients_lem_example :
    (after : Rows) × (clients : List Client) × (load_initial_clients
        (sqlite_provider none)
        hour
        rows
      ≡ ok (after, clients))
    × (select hour none after ≡ clients)
    × (all (λ c. not (is_connected c)) clients ≡ true)
    × (clients ≡ record web { disconnected_at = some hour } ∷ old ∷ [])
unfolding convert_to_sqlite openrport.Clients.Store.is_retained convert is_connected lookup
load_initial_clients_lem_example =
    load_initial_clients_lem none hour rows (refl, refl, (refl, refl, tt))

abbrev pub store : ClientStore Rows
store = sqlite_provider (some minute)

abbrev pub repository : ClientRepository Rows
repository = record {
  client_state = (web.id, web) ∷ (old.id, old) ∷ [];
  client_store = some rows;
  keep_disconnected_clients = some minute;
  has_post_save_handler = false;
  handled = [];
}

pub repository-IsValid : IsValid repository
unfolding lookup
repository-IsValid = (refl, refl, (refl, refl, tt))

IsValid-kept_example :
    IsValid ((save store old repository).0)
    × IsValid ((delete_client store old repository).0)
    × IsValid ((delete_obsolete store hour repository).0)
IsValid-kept_example = IsValid-kept store old hour repository repository-IsValid

delete_obsolete_lem_example :
    (lookup web.id ((delete_obsolete store hour repository).0.client_state)
      ≡ get_by_id hour web.id repository)
    × (In old (old ∷ []) ↔ (
        (lookup old.id repository.client_state ≡ some old)
        × (obsolete hour (some minute) old ≡ true)))
unfolding delete_obsolete obsolete
delete_obsolete_lem_example =
    delete_obsolete_lem store hour repository (old ∷ []) web.id old repository-IsValid refl

get_user_clients-check_clients_access_example :
    In web (get_user_clients to_lower hour ops [] repository) ↔ (
      (get_by_id hour web.id repository ≡ some web)
      × (check_clients_access to_lower (web ∷ []) ops [] ≡ ok tt))
get_user_clients-check_clients_access_example =
    get_user_clients-check_clients_access to_lower hour ops [] web repository repository-IsValid
