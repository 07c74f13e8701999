-- ===== src/Tunnels.antt =====
-- server/clients/clienttunnel: tunnels. What a tunnel does outside the server's own state (it listens,
-- its proxy is started, Caddy is told of a route) is a record of operations on a world.
pub mod Acl
use openrport.Prelude.{
  ℕ, Bool, true, false, List, [], ◌∷◌, ◌++◌, Option, none, some, ◌==◌, if◌then◌else◌, map,
}
use openrport.Prelude.Results.{Result, ok, err}
use openrport.Prelude.Actions.{Action, ◌>>◌, return}
use openrport.Strings.{Text, text_eq, split}
use openrport.Ports.{protocol_tcp, protocol_udp, protocol_tcpudp}
use openrport.Remotes.{Remote}
use openrport.Tunnels.Acl.{TunnelAcl}

-- InternalTunnelProxy
pub record Proxy : Type 0 where
  pub host : Text
  pub port : Text
  pub acl : Option TunnelAcl

-- `protocols` are those of the TunnelProtocol, `acl` is what it was given last. A tunnel that was read
-- from the database has none of either.
pub record Tunnel : Type 0 where
  pub id : Text
  pub remote : Remote
  pub protocols : List Text
  pub acl : Option TunnelAcl
  pub internal_tunnel_proxy : Option Proxy

pub data TunnelError : Type 0 where
  unsupported_protocol listen_failed close_failed proxy_failed : TunnelError
  terminated_after_proxy_failure : TunnelError
  bad_url route_failed : TunnelError
  route_status : ℕ → TunnelError

-- Of a protocol: Start and Terminate. Of the proxy: Start and Stop. Of Caddy's API: AddRoute, with the
-- two domains and the target's host and port, and DeleteRoute; both answer with a status code.
pub record World (W : Type 0) : Type 0 where
  pub listen : Text → Tunnel → Action W TunnelError (Unit {0})
  pub close : Text → Tunnel → Bool → Action W TunnelError (Unit {0})
  pub start_proxy : Proxy → Action W TunnelError (Unit {0})
  pub stop_proxy : Proxy → Action W TunnelError (Unit {0})
  pub add_route : Text → Text → Text → Text → Action W TunnelError ℕ
  pub delete_route : Text → Action W TunnelError ℕ

abbrev tunnel_protocols : Text → Option (List Text)
tunnel_protocols protocol =
    if protocol == protocol_udp
    then some (protocol_udp ∷ [])
    else (if protocol == protocol_tcp
        then some (protocol_tcp ∷ [])
        else (if protocol == protocol_tcpudp
            then some (protocol_tcp ∷ protocol_udp ∷ [])
            else none))

unfoldable pub new_tunnel : Text → Remote → Option TunnelAcl → Result TunnelError Tunnel
new_tunnel id remote acl = elim (tunnel_protocols remote.protocol) [
  | none ↦ err unsupported_protocol
  | some protocols ↦ ok (record {
    id = id;
    remote = remote;
    protocols = protocols;
    acl = acl;
    internal_tunnel_proxy = none;
  })
]

-- SetACL of the protocols and of the proxy
abbrev pub set_proxy_acl : Option TunnelAcl → Proxy → Proxy
set_proxy_acl acl p = record p { acl = acl }

unfoldable pub set_protocol_acl : Option TunnelAcl → Tunnel → Tunnel
set_protocol_acl acl t = record t {
  acl = acl;
  internal_tunnel_proxy = elim t.internal_tunnel_proxy [
    | none ↦ none
    | some p ↦ some (set_proxy_acl acl p)
  ];
}

abbrev join_dots : List Text → Text
join_dots [] = []
join_dots (part ∷ parts) = elim parts [ [] ↦ part | next ∷ more ↦ part ++ (b'.' ∷ join_dots parts) ]

abbrev domains : List Text → Text × Text
domains [] = ([], [])
domains (part ∷ parts) = (part, join_dots parts)

-- GetTunnelDomains; `hostname` is url.Parse with Hostname.
unfoldable pub get_tunnel_domains : (Text → Option Text) → Remote → Result TunnelError (Text × Text)
get_tunnel_domains hostname r = elim (hostname r.tunnel_url) [
  | none ↦ err bad_url
  | some h ↦ ok (domains (split b'.' h))
]

abbrev both_closed :
    Result TunnelError (Unit {0}) → Result TunnelError (Unit {0}) → Result TunnelError (Unit {0})
both_closed (err e) r = err e
both_closed (ok _) r = r

module _ {W : Type 0} (world : World W) where
  -- MultiProtocolTunnel's Start, and that of a single protocol
  unfoldable pub start_protocols : List Text → Tunnel → Action W TunnelError (Unit {0})
  start_protocols [] t = return tt
  start_protocols (p ∷ ps) t = world.listen p t >> start_protocols ps t

  unfoldable pub start : Tunnel → Action W TunnelError (Unit {0})
  unfolding start_protocols
  start t = start_protocols t.protocols t

  -- Terminate goes on behind a failure; the errors of the protocols are one error.
  -- A tunnel from the database, whose TunnelProtocol is nil, is taken as one without protocols;
  -- the source would panic on it.
  unfoldable pub terminate_protocols : List Text → Tunnel → Bool → Action W TunnelError (Unit {0})
  terminate_protocols [] t force w = (w, ok tt)
  terminate_protocols (p ∷ ps) t force w =
      let (w₁, first) = world.close p t force w in
      let (w₂, rest) = terminate_protocols ps t force w₁ in (w₂, both_closed first rest)

  unfoldable pub terminate : Tunnel → Bool → Action W TunnelError (Unit {0})
  unfolding terminate_protocols
  terminate t force = terminate_protocols t.protocols t force
