-- ===== src/Clients/Starting.antt =====
-- server/clients/client_service.go: starting a client's tunnels. A tunnel that is started changes the
-- client, the port distributor and the world outside; what runs in the background afterwards (the
-- automatic closing) is in Ending. `hostname` is url.Parse with Hostname.
pub mod Numbering
pub mod Identity
pub mod LocalPorts
pub mod Listening
pub mod AllowedPorts
pub mod Opened
pub mod Sockets
pub mod SameClient
use openrport.Prelude.{
  ℕ, Bool, true, false, not, ◌&&◌, List, [], ◌∷◌, ◌++◌, Option, none, some, ◌==◌, nat_eq,
  if◌then◌else◌,
}
use openrport.Prelude.Results.{Result, ok, err}
use openrport.Prelude.Actions.{Action, ◌>>=◌, ◌>>◌, return, require, ask}
use openrport.Prelude.Int.{ℤ, pos, negsuc}
use openrport.Strings.{Text, text_eq}
use openrport.Strings.Decimal.{itoa, atoi}
use openrport.Ports.{
  PortDistributor, Connections, Error, refresh, is_port_allowed, is_port_busy, get_random_port,
}
use openrport.Ports.Sets.{Mapset}
use openrport.Remotes.{
  Remote, zero_host, local_host_ip, equals, is_local_specified, has_subdomain_tunnel,
}
use openrport.Tunnels.{
  Tunnel, Proxy, TunnelError, World, terminated_after_proxy_failure, route_status, new_tunnel,
  start, terminate, get_tunnel_domains,
}
use openrport.Tunnels.Acl.{Net, TunnelAcl, AclError, parse_tunnel_acl}
use openrport.Clients.Client.{Client, next_tunnel_number}

pub data StartError : Type 0 where
  port_error : Error → StartError
  acl_error : AclError → StartError
  tunnel_error : TunnelError → StartError
  invalid_local_port local_port_not_allowed local_port_in_use : StartError
  unable_to_start_tunnel : StartError → StartError

-- What a start changes.
pub record Starting (P W : Type 0) : Type 0 where
  pub client : Client
  pub distributor : PortDistributor P
  pub outside : W

unfoldable pub find_tunnel_by_remote : Remote → List Tunnel → Option Tunnel
unfolding equals
find_tunnel_by_remote r [] = none
find_tunnel_by_remote r (t ∷ ts) =
    let rest = find_tunnel_by_remote r ts in if equals t.remote r then some t else rest

unfoldable pub find_tunnel : Text → List Tunnel → Option Tunnel
find_tunnel id [] = none
find_tunnel id (t ∷ ts) = let rest = find_tunnel id ts in if t.id == id then some t else rest

-- A call that changes a part of the state, and whose error is one of this file's.
abbrev lift : {E F S T A : Type 0} → (S → T) → (T → S → S) → (E → F) → Action T E A → Action S F A
lift get put wrap m s =
    let (t, r) = m (get s) in (put t s, elim r [ ok a ↦ ok a | err e ↦ err (wrap e) ])

abbrev of_result : {E F S A : Type 0} → (E → F) → Result E A → Action S F A
of_result wrap r s = (s, elim r [ ok a ↦ ok a | err e ↦ err (wrap e) ])

abbrev pub parse_optional_acl : Net → Option Text → Result AclError (Option TunnelAcl)
parse_optional_acl net none = ok none
parse_optional_acl net (some acl) = parse_tunnel_acl net acl

-- ParseTunnelACL of 127.0.0.1, whose error is dropped
abbrev pub local_acl : Net → Option TunnelAcl
local_acl net = elim (parse_tunnel_acl net local_host_ip) [ ok acl ↦ acl | err e ↦ none ]

module _ {P : Type 0} (sets : Mapset P) (connections : Connections) where
  -- No set of ports has a negative number.
  abbrev pub is_allowed_number : ℤ → PortDistributor P → Bool
  is_allowed_number (pos n) d = is_port_allowed sets connections n d
  is_allowed_number (negsuc n) d = false

  abbrev port_is_busy : Text → ℤ → PortDistributor P → Result Error Bool
  port_is_busy protocol (pos n) d = is_port_busy sets connections protocol n d
  port_is_busy protocol (negsuc n) d = ok true

  unfoldable pub check_local_port : Text → Text → PortDistributor P → Result StartError (Unit {0})
  check_local_port protocol port d = elim (atoi port) [
    | none ↦ err invalid_local_port
    | some n ↦
        if not (is_allowed_number n d)
        then err local_port_not_allowed
        else (elim (port_is_busy protocol n d) [
          | err e ↦ err (port_error e)
          | ok busy ↦ if busy then err local_port_in_use else ok tt
        ])
  ]

-- The parts of the server that a start uses.
pub record Parts (P W : Type 0) : Type 0 where
  pub sets : Mapset P
  pub connections : Connections
  pub world : World W
  pub net : Net
  pub hostname : Text → Option Text
  pub tunnel_proxy_enabled : Bool

module _ {P W : Type 0} (parts : Parts P W) where
  abbrev on_ports :
      {A : Type 0} → Action (PortDistributor P) Error A → Action (Starting P W) StartError A
  on_ports = lift (λ s. s.distributor) (λ d s. record s { distributor = d }) port_error

  abbrev on_world : {A : Type 0} → Action W TunnelError A → Action (Starting P W) StartError A
  on_world = lift (λ s. s.outside) (λ w s. record s { outside = w }) tunnel_error

  -- NewTunnelID
  abbrev new_tunnel_id : Action (Starting P W) StartError Text
  new_tunnel_id s =
      let n = next_tunnel_number s.client in
      (record s { client = record s.client { tunnel_id_auto_increment = n } }, ok (itoa n))

  unfoldable pub start_regular_tunnel :
      Remote → Option TunnelAcl → Action (Starting P W) StartError Tunnel
  start_regular_tunnel remote acl = do
    id ← new_tunnel_id
    t ← of_result tunnel_error (new_tunnel id remote acl)
    on_world (start parts.world t)
    return t

  -- `if err := tProxy.Start(ctx); err != nil`: the tunnel behind the proxy is terminated.
  abbrev pub start_proxy_or_terminate : Proxy → Tunnel → Action W TunnelError (Unit {0})
  start_proxy_or_terminate proxy t w =
      let (w₁, started) = parts.world.start_proxy proxy w in
      let (w₂, terminated) = terminate parts.world t true w₁ in
      elim started [
        | ok _ ↦ (w₁, ok tt)
        | err e ↦
            (w₂, elim terminated [ err e₂ ↦ err e₂ | ok _ ↦ err terminated_after_proxy_failure ])
      ]

  unfoldable pub start_tunnel_with_proxy :
      Remote → Option TunnelAcl → Action (Starting P W) StartError Tunnel
  start_tunnel_with_proxy remote acl = do
    port ← on_ports (get_random_port parts.sets parts.connections remote.protocol)
    id ← new_tunnel_id
    let inner = record remote { local_host = local_host_ip; local_port = itoa port }
    t ← of_result tunnel_error (new_tunnel id inner (local_acl parts.net))
    on_world (start parts.world t)
    let proxy : Proxy = record { host = remote.local_host; port = remote.local_port; acl = acl }
    on_world (start_proxy_or_terminate proxy t)
    return (record t {
      remote = record inner { local_host = proxy.host; local_port = proxy.port };
      internal_tunnel_proxy = some proxy;
    })

  abbrev pub check_status : ℕ → Action W TunnelError (Unit {0})
  check_status status = require (status == 200) (route_status status)

  unfoldable pub start_caddy_downstream_proxy : Remote → Tunnel → Action W TunnelError (Unit {0})
  start_caddy_downstream_proxy remote t = do
    ds ← ask (λ _. get_tunnel_domains parts.hostname remote)
    status ← parts.world.add_route (ds.0) (ds.1) t.remote.local_host t.remote.local_port
    check_status status

  abbrev pub stop_proxy_of : Tunnel → Action W TunnelError (Unit {0})
  stop_proxy_of t = elim t.internal_tunnel_proxy [
    | none ↦ return tt
    | some p ↦ parts.world.stop_proxy p
  ]

  -- A failed route stops the proxy; an error of that is only logged.
  abbrev pub route_or_stop : Remote → Tunnel → Action W TunnelError (Unit {0})
  route_or_stop remote t w =
      let (w₁, routed) = start_caddy_downstream_proxy remote t w in
      elim routed [ ok _ ↦ (w₁, ok tt) | err e ↦ ((stop_proxy_of t w₁).0, err e) ]

  abbrev pub route_if_subdomain : Remote → Tunnel → Action W TunnelError (Unit {0})
  route_if_subdomain remote t =
      if has_subdomain_tunnel remote then route_or_stop remote t else return tt

  unfoldable pub start_proxied_tunnel :
      Remote → Option TunnelAcl → Action (Starting P W) StartError Tunnel
  start_proxied_tunnel remote acl = do
    t ← start_tunnel_with_proxy remote acl
    on_world (route_if_subdomain remote t)
    return t

  abbrev pub append_tunnel : Tunnel → Action (Starting P W) StartError (Unit {0})
  append_tunnel t s =
      (record s { client = record s.client { tunnels = s.client.tunnels ++ (t ∷ []) } }, ok tt)

  unfoldable pub start_unlisted_tunnel :
      Remote → Option TunnelAcl → Action (Starting P W) StartError Tunnel
  start_unlisted_tunnel remote acl =
      if parts.tunnel_proxy_enabled && remote.http_proxy
      then start_proxied_tunnel remote acl
      else start_regular_tunnel remote acl

  abbrev pub start_new_tunnel : Remote → Option TunnelAcl → Action (Starting P W) StartError Tunnel
  start_new_tunnel remote acl = do t ← start_unlisted_tunnel remote acl; append_tunnel t; return t

  unfoldable pub start_tunnel : Remote → Option TunnelAcl → Action (Starting P W) StartError Tunnel
  start_tunnel remote acl s = elim (find_tunnel_by_remote remote s.client.tunnels) [
    | some t ↦ (s, ok t)
    | none ↦ start_new_tunnel remote acl s
  ]

  -- The first half of the loop's body: the local port.
  unfoldable pub choose_local_port : Remote → Action (Starting P W) StartError Remote
  choose_local_port remote =
      if not (is_local_specified remote)
      then (do
        port ← on_ports (get_random_port parts.sets parts.connections remote.protocol)
        return (record remote {
          local_port = itoa port;
          local_host = zero_host;
          local_port_random = true;
        }))
      else (do
        ask (λ s.
            check_local_port parts.sets parts.connections remote.protocol remote.local_port
              s.distributor)
        return remote)

  -- The body of startClientTunnels' loop.
  unfoldable pub start_client_tunnel : Remote → Action (Starting P W) StartError Tunnel
  start_client_tunnel remote = do
    r ← choose_local_port remote
    acl ← of_result acl_error (parse_optional_acl parts.net r.acl)
    lift (λ s. s) (λ t s. t) unable_to_start_tunnel (start_tunnel r acl)

  unfoldable pub start_each : List Remote → Action (Starting P W) StartError (List Tunnel)
  start_each [] = return []
  start_each (r ∷ rs) = do t ← start_client_tunnel r; ts ← start_each rs; return (t ∷ ts)

  unfoldable pub start_client_tunnels : List Remote → Action (Starting P W) StartError (List Tunnel)
  start_client_tunnels remotes = do
    on_ports (refresh parts.sets parts.connections)
    start_each remotes
