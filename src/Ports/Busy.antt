-- ===== src/Ports/Busy.antt =====
-- server/ports/port_distributor.go: which ports are busy after a Refresh.
use openrport.Prelude.{
  ℕ, ◌≡◌, Bool, false, not, ◌&&◌, ◌||◌, List, [], ◌∷◌, ◌==◌, nat_eq, string_eq, insert,
  lookup-insert, arith,
}
use openrport.Strings.{text_eq}
use openrport.Prelude.Results.{ok}
use openrport.Ports.{
  PortDistributor, Connection, is_active, busy_ports, Connections, protocol_tcp, protocol_udp,
  refresh_protocol, refresh, is_port_busy, list_busy_ports,
}
use openrport.Ports.Sets.{Mapset, IsMapset}

-- An active connection among those listed has the local port; port 0 counts for none.
abbrev pub listens : ℕ → List Connection → Bool
listens port [] = false
listens port (c ∷ cs) =
    (is_active c && not (c.local_port == 0)) && c.local_port == port || listens port cs

module _ {S : Type 0} (sets : Mapset S) (law : IsMapset sets) (connections : Connections) where
  contains-busy_ports :
      (cs : List Connection) (port : ℕ)
      → sets.contains (busy_ports sets connections cs) port ≡ listens port cs
  unfolding busy_ports
  contains-busy_ports [] port = law.contains-empty port
  contains-busy_ports (c ∷ cs) port = ground (
    arith,
    contains-busy_ports cs port,
    law.contains-add c.local_port port (busy_ports sets connections cs),
  )

  -- After a successful Refresh a port is busy for tcp exactly where it is not allowed or is the
  -- local port of an active tcp connection, and likewise for udp.
  is_port_busy-refresh :
      (d d' : PortDistributor S) (tcp udp : List Connection) (port : ℕ)
      → connections protocol_tcp ≡ ok tcp
      → connections protocol_udp ≡ ok udp
      → refresh sets connections d ≡ (d', ok tt)
      → (is_port_busy sets connections protocol_tcp port d'
          ≡ ok (not (sets.contains d.allowed_ports port) || listens port tcp))
        × (is_port_busy sets connections protocol_udp port d'
            ≡ ok (not (sets.contains d.allowed_ports port) || listens port udp))
  unfolding refresh refresh_protocol is_port_busy list_busy_ports
  is_port_busy-refresh d d' tcp udp port t u h =
      let free_tcp = sets.difference d.allowed_ports (busy_ports sets connections tcp) in
      let free_udp = sets.difference d.allowed_ports (busy_ports sets connections udp) in
      let after_tcp = insert protocol_tcp free_tcp d.ports_pools in
      ground (
        arith,
        t,
        u,
        lookup-insert protocol_udp protocol_udp free_udp after_tcp,
        lookup-insert protocol_udp protocol_tcp free_udp after_tcp,
        lookup-insert protocol_tcp protocol_tcp free_tcp d.ports_pools,
        law.contains-difference d.allowed_ports (busy_ports sets connections tcp) port,
        law.contains-difference d.allowed_ports (busy_ports sets connections udp) port,
        contains-busy_ports tcp port,
        contains-busy_ports udp port,
      )
