-- ===== src/Examples/Connections.antt =====
-- A client that connects, its tunnels, and its end.
use openrport.Prelude.{
  ℕ, ◌+◌, ◌≡◌, ◌<◌, ◌⊎◌, ◌↔◌, refl, inl, inr, String, Bool, true, false, not, ◌&&◌, ◌||◌, List, [],
  ◌∷◌, ◌++◌, Option, none, some, ◌==◌, nat_eq, if◌then◌else◌, length, map, leb, lookup, delete,
  arith, ltb,
}
use openrport.Prelude.Results.{Result, ok, err}
use openrport.Strings.{Text, text_eq}
use openrport.Strings.Decimal.{itoa}
use openrport.Ports.{Connections, Error, connections_failed, refresh, protocol_tcp}
use openrport.Remotes.{Remote, plain, zero_host}
use openrport.Tunnels.{Tunnel, TunnelError, World, new_tunnel, terminate}
use openrport.Tunnels.Acl.{Net, AclError, invalid_ip, parse_tunnel_acl}
use openrport.Clients.Client.{Client, is_connected, remove_tunnel_by_id}
use openrport.Clients.Repository.{ClientRepository, query_clients, get_by_id, get_active_by_id}
use openrport.Clients.Repository.Laws.{IsValid}
use openrport.Clients.Store.{Rows}
use openrport.Clients.Starting.{
  Starting, Parts, StartError, port_error, acl_error, tunnel_error, start_client_tunnels,
  find_tunnel,
}
use openrport.Clients.Starting.Numbering.{IsNumbered, start_client_tunnels-IsNumbered}
use openrport.Clients.Starting.Identity.{find_tunnel-IsNumbered}
use openrport.Clients.Starting.LocalPorts.{IsSafe}
use openrport.Clients.Starting.Sockets.{noted, all_allowed, Outcome, start_client_tunnels_allowed}
use openrport.Clients.Reestablish.{get_tunnels_to_reestablish, without_random}
use openrport.Clients.Reestablish.Marks.{get_tunnels_to_reestablish_lem}
use openrport.Clients.Service.{
  Service, ServiceError, ConnectionRequest, already_connected, start_failed, store_failed,
  client_active, new_client_from_conn_request, update_client_status, is_client_auth_id_in_use,
}
use openrport.Clients.Service.Connecting.{Attempt, Peer, start_client, admit}
use openrport.Clients.Service.Connected.{start_client_refused, start_client_accepted}
use openrport.Clients.Service.Failed.{start_client_failed}
use openrport.Clients.Service.Pausing.{is_going, update_client_status_lem}
use openrport.Clients.Service.Ending.{terminate_client, terminate_tunnel, set_tunnel_acl}
use openrport.Clients.Service.Ending.Laws.{terminate_tunnel_lem, set_tunnel_acl_refused}
use openrport.Clients.Service.Ending.Disconnect.{terminate_client-get_active_by_id}
use openrport.Examples.Addresses.{lists, lists_law, ssh, two_ports}
use openrport.Examples.Members.{web, hour, store, repository, repository-IsValid}

-- Everything is done, and the number counts the protocols that listen.
abbrev quiet : World ℕ
quiet = record {
  listen = λ p t w. (w + 1, ok tt);
  close = λ p t force w. (w, ok tt);
  start_proxy = λ p w. (w, ok tt);
  stop_proxy = λ p w. (w, ok tt);
  add_route = λ sub base host port w. (w, ok 200);
  delete_route = λ sub w. (w, ok 200);
}

-- No text is an address.
abbrev no_addresses : Net
no_addresses = record {
  parse_cidr = λ s. none;
  parse_ip = λ s. none;
  is_unspecified = λ ip. false;
  is_v4 = λ ip. true;
  contains = λ n ip. false;
}

abbrev parts : Parts (List ℕ) ℕ
parts = record {
  sets = lists;
  connections = ssh;
  world = quiet;
  net = no_addresses;
  hostname = λ url. none;
  tunnel_proxy_enabled = false;
}

-- Any local port to port 5 of the client
abbrev wanted : Remote
wanted = plain protocol_tcp [] [] (b'h' ∷ []) (b'5' ∷ [])

abbrev idle : Starting (List ℕ) ℕ
idle = record { client = web; distributor = two_ports; outside = 0 }

web-IsNumbered : IsNumbered web
web-IsNumbered = omega arith

start_client_tunnels-IsNumbered_example :
    IsNumbered ((start_client_tunnels parts (wanted ∷ wanted ∷ []) idle).0).client
start_client_tunnels-IsNumbered_example =
    start_client_tunnels-IsNumbered parts (wanted ∷ wanted ∷ []) idle web-IsNumbered

abbrev opened : Tunnel
opened = record {
  id = b'1' ∷ [];
  remote = record wanted {
    local_host = zero_host;
    local_port = b'2' ∷ b'0' ∷ b'0' ∷ b'0' ∷ b'1' ∷ [];
    local_port_random = true;
  };
  protocols = protocol_tcp ∷ [];
  acl = none;
  internal_tunnel_proxy = none;
}

-- No port is in use, and tunnels may have a proxy.
abbrev proxied_parts : Parts (List ℕ) ℕ
proxied_parts = record parts { connections = λ protocol. ok []; tunnel_proxy_enabled = true }

abbrev web_page : Remote
web_page = record wanted { http_proxy = true }

abbrev silent : Starting (List ℕ) (ℕ × List Text)
silent = record { client = web; distributor = two_ports; outside = (0, []) }

silent-IsSafe : IsSafe (noted proxied_parts) lists_law silent
unfolding lookup
silent-IsSafe = record {
  pools = λ p port h. absurd (ground arith);
  bounded = λ n h. ground (arith, h);
  listening = tt;
}

abbrev page_started : Starting (List ℕ) (ℕ × List Text) × Result StartError (List Tunnel)
page_started = start_client_tunnels (noted proxied_parts) (web_page ∷ []) silent

start_client_tunnels_allowed_example :
    (all_allowed lists two_ports page_started.0.outside.1 ≡ true)
    × Outcome proxied_parts lists_law (web_page ∷ []) page_started.0 page_started.1
start_client_tunnels_allowed_example =
    start_client_tunnels_allowed proxied_parts lists_law (web_page ∷ []) silent page_started.0
      page_started.1 silent-IsSafe refl refl

-- The tunnel listens, and so does its proxy.
two_listen : length page_started.0.outside.1 ≡ 2
unfolding start_client_tunnels refresh openrport.Ports.refresh_protocol
    openrport.Clients.Starting.start_each openrport.Clients.Starting.start_client_tunnel
    openrport.Clients.Starting.choose_local_port openrport.Remotes.is_local_specified
    openrport.Ports.get_random_port openrport.Ports.ensure_pools lookup openrport.Prelude.insert
    openrport.Ports.pop_port openrport.Ports.remove_from_pools
    openrport.Clients.Starting.start_tunnel openrport.Clients.Starting.find_tunnel_by_remote
    openrport.Clients.Starting.start_unlisted_tunnel openrport.Clients.Starting.start_proxied_tunnel
    openrport.Clients.Starting.start_tunnel_with_proxy new_tunnel openrport.Tunnels.start
    openrport.Remotes.has_subdomain_tunnel
two_listen = refl

abbrev open_web : Client
open_web = record web { tunnels = opened ∷ []; tunnel_id_auto_increment = 1 }

find_tunnel-IsNumbered_example :
    (find_tunnel (b'1' ∷ []) (opened ∷ []) ≡ some opened)
    × (find_tunnel (b'1' ∷ []) (remove_tunnel_by_id (b'1' ∷ []) open_web).tunnels ≡ none)
    × (length (remove_tunnel_by_id (b'1' ∷ []) open_web).tunnels + 1 ≡ 1)
unfolding itoa
find_tunnel-IsNumbered_example =
    find_tunnel-IsNumbered open_web opened (omega arith) (1, omega arith, refl, omega arith)
      (inl refl)

abbrev service : Service Rows (List ℕ) ℕ
service = record { repo = repository; distributor = two_ports; outside = 0; max_clients = none }

abbrev request : ConnectionRequest
request = record {
  name = [];
  session_id = b'x' ∷ [];
  os = [];
  os_full_name = [];
  os_arch = [];
  os_family = [];
  os_kernel = [];
  version = [];
  hostname = [];
  ipv4 = [];
  ipv6 = [];
  tags = [];
  remotes = [];
}

abbrev attempt : Text → Attempt
attempt id = record {
  now = hour;
  client_auth_id = b'l' ∷ [];
  client_id = id;
  client_host = some (b'h' ∷ []);
  auth_multiuse_creds = false;
  req = request;
}

abbrev peer : Peer
peer = record { supports_policies = λ version. some false; send = λ remote. ok true }

start_client_refused_example :
    (start_client store parts peer (attempt web.id) service ≡ (service, err already_connected))
    ↔ ((request.session_id ≡ []) ⊎ ((request.session_id == web.session_id) ≡ false))
unfolding get_by_id lookup openrport.Clients.Client.obsolete is_connected
start_client_refused_example =
    start_client_refused store parts peer (attempt web.id) web (b'h' ∷ []) service refl refl refl

abbrev newcomer : Client
newcomer = new_client_from_conn_request none (b'l' ∷ []) (b'n' ∷ []) request (b'h' ∷ [])

abbrev welcomed : Service Rows (List ℕ) ℕ
welcomed = (start_client store parts peer (attempt (b'n' ∷ [])) service).0

start_client_accepted_example :
    (get_active_by_id (b'n' ∷ []) welcomed.repo ≡ some newcomer)
    × (newcomer.session_id ≡ b'x' ∷ [])
    × (newcomer.client_auth_id ≡ b'l' ∷ [])
    × ((false ≡ true) ⊎ (is_client_auth_id_in_use hour (b'l' ∷ []) (b'n' ∷ []) service ≡ false))
unfolding start_client get_by_id lookup is_client_auth_id_in_use
    openrport.Clients.Repository.get_all_by_client_auth_id openrport.Clients.Client.obsolete
    update_client_status new_client_from_conn_request start_client_tunnels refresh
    openrport.Ports.refresh_protocol openrport.Clients.Starting.start_each
    openrport.Clients.Service.Connecting.save_client openrport.Clients.Repository.save
start_client_accepted_example =
    start_client_accepted store parts peer (attempt (b'n' ∷ [])) newcomer service welcomed
      repository-IsValid refl

abbrev no_list : Connections
no_list protocol = err connections_failed

abbrev gone : Client
gone = record web { disconnected_at = some hour }

abbrev waiting : Service Rows (List ℕ) ℕ
waiting = record service { repo = record repository { client_state = (web.id, gone) ∷ [] } }

waiting-IsValid : IsValid waiting.repo
unfolding lookup
waiting-IsValid = (refl, refl, tt)

start_client_failed_example :
    ((start_client store (record parts { connections = no_list }) peer (attempt web.id) waiting).1
      ≡ err (start_failed (port_error connections_failed)))
    × (get_active_by_id web.id
          ((start_client store
              (record parts { connections = no_list })
              peer
              (attempt web.id)
              waiting).0
            ).repo
        ≡ some (new_client_from_conn_request (some gone) (b'l' ∷ []) web.id request (b'h' ∷ [])))
unfolding get_by_id lookup openrport.Clients.Client.obsolete admit is_connected
    is_client_auth_id_in_use openrport.Clients.Repository.get_all_by_client_auth_id
    openrport.Clients.Reestablish.get_tunnels_to_reestablish refresh
    openrport.Ports.refresh_protocol
start_client_failed_example =
    start_client_failed store (record parts { connections = no_list }) peer (attempt web.id)
      (b'h' ∷ []) [] gone waiting connections_failed waiting-IsValid refl refl refl refl refl

update_client_status_lem_example :
    (length (
        query_clients is_connected
          (update_client_status (record service { max_clients = some 0 })).repo.client_state)
      ≡ 1)
    × (length (
          query_clients is_going
            (update_client_status (record service { max_clients = some 0 })).repo.client_state)
        ≡ 0)
unfolding query_clients is_connected
update_client_status_lem_example =
    update_client_status_lem 0 (record service { max_clients = some 0 }) refl

terminate_client-get_active_by_id_example :
    get_active_by_id web.id ((terminate_client store parts hour web service).0).repo ≡ none
unfolding terminate_client get_by_id lookup openrport.Prelude.insert
    openrport.Clients.Client.obsolete update_client_status
    openrport.Clients.Service.Connecting.save_client openrport.Clients.Repository.save
terminate_client-get_active_by_id_example =
    terminate_client-get_active_by_id store parts hour web service repository-IsValid refl

terminate_tunnel_lem_example :
    (((terminate_tunnel store parts open_web opened true service).1 ≡ ok tt)
      × ((terminate quiet opened true 0).1 ≡ ok tt)
      × (lookup web.id
            ((terminate_tunnel store parts open_web opened true service).0).repo.client_state
          ≡ some (remove_tunnel_by_id (b'1' ∷ []) open_web)))
    ⊎ ((e : TunnelError) × ((terminate_tunnel store parts open_web opened true service).1
          ≡ err (start_failed (tunnel_error e)))
        × ((terminate quiet opened true 0).1 ≡ err e)
        × (((terminate_tunnel store parts open_web opened true service).0).repo ≡ repository))
terminate_tunnel_lem_example = terminate_tunnel_lem store parts open_web opened true web.id service

-- A client with two tunnels.
abbrev second : Tunnel
second = record opened { id = b'2' ∷ [] }

abbrev busy_web : Client
busy_web = record open_web { tunnels = opened ∷ second ∷ [] }

set_tunnel_acl_refused_example :
    (c' : Client) × (lookup web.id
        ((set_tunnel_acl store parts busy_web second (some (b'z' ∷ [])) service).0
          ).repo.client_state
      ≡ some c')
    × (find_tunnel (b'1' ∷ []) c'.tunnels ≡ some opened)
unfolding parse_tunnel_acl find_tunnel set_tunnel_acl openrport.Strings.split
    openrport.Tunnels.Acl.parse_ip_net openrport.Strings.contains_byte
set_tunnel_acl_refused_example =
    set_tunnel_acl_refused store parts busy_web second service (b'z' ∷ []) (b'1' ∷ [])
      (start_failed (acl_error invalid_ip)) refl refl

get_tunnels_to_reestablish_lem_example :
    ((get_tunnels_to_reestablish (opened.remote ∷ opened.remote ∷ []) (wanted ∷ []) ≡ [])
      ⊎ (length (get_tunnels_to_reestablish (opened.remote ∷ opened.remote ∷ []) (wanted ∷ []))
            + length (wanted ∷ [])
          ≡ length (opened.remote ∷ opened.remote ∷ [])))
    × (get_tunnels_to_reestablish (opened.remote ∷ opened.remote ∷ []) []
        ≡ map without_random (opened.remote ∷ opened.remote ∷ []))
get_tunnels_to_reestablish_lem_example =
    get_tunnels_to_reestablish_lem (opened.remote ∷ opened.remote ∷ []) (wanted ∷ [])
