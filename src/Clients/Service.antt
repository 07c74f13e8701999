-- ===== src/Clients/Service.antt =====
-- server/clients/client_service.go: the service around the repository. A client is named by its id:
-- the pointer that a caller holds is taken to be the one in the repository, so a change of the client
-- is one of its entry there, saved or not. `max_clients` is `none` without license information.
pub mod Connecting
pub mod Connected
pub mod Failed
pub mod Pausing
pub mod Ending
use openrport.Prelude.{
  ℕ, ◌+◌, Bool, true, false, not, ◌&&◌, ◌||◌, List, [], ◌∷◌, ◌++◌, Option, none, some, map, ◌==◌,
  nat_eq, ltb, any, if◌then◌else◌, lookup, insert, is_some, filter, String,
}
use openrport.Prelude.Results.{Result, ok, err, guard, or_fail, ◌>>=◌, ◌>>◌}
use openrport.Prelude.Actions.{Action}
use openrport.Strings.{Text, text_eq}
use openrport.Ports.{PortDistributor}
use openrport.Remotes.{Remote, is_empty}
use openrport.Tunnels.{Tunnel}
use openrport.Clients.Client.{Client, ClientGroup, is_connected, belongs_to_one_of}
use openrport.Clients.Access.{User, AccessError, check_clients_access}
use openrport.Clients.Store.{ClientStore, StoreError}
use openrport.Clients.Repository.{
  Clients, ClientRepository, get_by_id, get_all_by_client_auth_id, save, delete_client,
}
use openrport.Clients.Starting.{Starting, StartError, Parts, start_client_tunnels}
use openrport.Clients.Reestablish.{get_tunnels_to_reestablish, exclude_not_allowed_tunnels}

-- share/protocol.go: the parts of a ConnectionRequest that a Client here has
pub record ConnectionRequest : Type 0 where
  pub name : Text
  pub session_id : Text
  pub os : Text
  pub os_full_name : Text
  pub os_arch : Text
  pub os_family : Text
  pub os_kernel : Text
  pub version : Text
  pub hostname : Text
  pub ipv4 : List Text
  pub ipv6 : List Text
  pub tags : List Text
  pub remotes : List Remote

pub data ServiceError : Type 0 where
  bad_address already_connected bad_version client_auth_id_in_use : ServiceError
  filter_failed : Text → ServiceError
  start_failed : StartError → ServiceError
  store_failed : StoreError → ServiceError
  client_id_empty client_not_found client_active : ServiceError
  access_failed : AccessError → ServiceError

pub record Service (S P W : Type 0) : Type 0 where
  pub repo : ClientRepository S
  pub distributor : PortDistributor P
  pub outside : W
  pub max_clients : Option ℕ

-- clientdata.NewClientFromConnRequest and SetConnected. A client that is new has nobody's groups, no
-- tunnel so far and no pause.
unfoldable pub new_client_from_conn_request :
    Option Client → Text → Text → ConnectionRequest → Text → Client
new_client_from_conn_request existing client_auth_id client_id req client_host = record {
  id = elim existing [ none ↦ client_id | some c ↦ c.id ];
  name = req.name;
  os = req.os;
  os_arch = req.os_arch;
  os_family = req.os_family;
  os_kernel = req.os_kernel;
  os_full_name = req.os_full_name;
  hostname = req.hostname;
  ipv4 = req.ipv4;
  ipv6 = req.ipv6;
  tags = req.tags;
  version = req.version;
  address = client_host;
  client_auth_id = client_auth_id;
  allowed_user_groups = elim existing [ none ↦ [] | some c ↦ c.allowed_user_groups ];
  disconnected_at = none;
  session_id = req.session_id;
  paused = elim existing [ none ↦ false | some c ↦ c.paused ];
  tunnels = [];
  tunnel_id_auto_increment = elim existing [ none ↦ 0 | some c ↦ c.tunnel_id_auto_increment ];
}

-- The loop of UpdateClientStatus, behind `i` connected clients. Which clients come first is open in
-- Go: they come out of a map.
unfoldable pub set_paused : ℕ → ℕ → Clients → Clients
set_paused max i [] = []
set_paused max i ((id, c) ∷ m) =
    let counted = set_paused max (i + 1) m in
    let uncounted = set_paused max i m in
    if is_connected c
    then (id, record c { paused = not (ltb i max) }) ∷ counted
    else (id, c) ∷ uncounted

-- session_id of the request against the client's
abbrev pub session_reused : ConnectionRequest → Client → Bool
session_reused req c = not (is_empty req.session_id) && req.session_id == c.session_id

abbrev pub old_remotes : Client → List Remote
old_remotes c = map (λ t. t.remote) c.tunnels

module _ {S P W : Type 0} where
  unfoldable pub update_client_status : Service S P W → Service S P W
  unfolding set_paused
  update_client_status s = elim s.max_clients [
    | none ↦ s
    | some max ↦ record s {
      repo = record s.repo { client_state = set_paused max 0 s.repo.client_state };
    }
  ]

  unfoldable pub is_client_auth_id_in_use : ℕ → Text → Text → Service S P W → Bool
  is_client_auth_id_in_use now client_auth_id client_id s =
      any (λ c. not (c.id == client_id)) (get_all_by_client_auth_id now client_auth_id s.repo)

  -- A change of a client that the repository holds.
  abbrev pub put_client : Client → Service S P W → Service S P W
  put_client c s = record s {
    repo = record s.repo { client_state = insert c.id c s.repo.client_state };
  }

  -- The same of a client that it does not hold yet, unless `held`.
  abbrev pub put_if : Bool → Client → Service S P W → Service S P W
  put_if held c s = if held then put_client c s else s

  -- The client as the pointer shows it.
  abbrev pub current : Bool → Client → Service S P W → Client
  current held c s = elim (lookup c.id s.repo.client_state) [
    | none ↦ c
    | some d ↦ if held then d else c
  ]

  unfoldable pub get_existing_client_by_id : ℕ → Text → Service S P W → Result ServiceError Client
  get_existing_client_by_id now client_id s =
      if is_empty client_id
      then err client_id_empty
      else or_fail (get_by_id now client_id s.repo) client_not_found

  unfoldable pub check_client_access :
      (Text → Text)
      → ℕ
      → Text
      → User
      → List ClientGroup
      → Service S P W
      → Result ServiceError (Unit {0})
  unfolding get_existing_client_by_id
  check_client_access to_lower now client_id user groups s =
      get_existing_client_by_id now client_id s >>= λ c.
      elim (check_clients_access to_lower (c ∷ []) user groups) [
        | ok _ ↦ ok tt
        | err e ↦ err (access_failed e)
      ]
