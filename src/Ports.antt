-- ===== src/Ports.antt =====
-- server/ports/port_distributor.go: which local ports a tunnel may listen on. The sets are those of
-- github.com/deckarep/golang-set and the open connections come from gopsutil: both are arguments.
pub mod Sets
pub mod Taking
pub mod Distribution
pub mod Busy
use openrport.Prelude.{
  String, ℕ, Bool, true, false, not, ◌&&◌, ◌||◌, List, [], ◌∷◌, Option, none, some, ◌==◌, nat_eq,
  string_eq, if◌then◌else◌, lookup, insert,
}
use openrport.Strings.{Text, text_eq}
use openrport.Prelude.Results.{Result, ok, err, ◌>>=◌ as ◌>>=ᵣ◌}
use openrport.Prelude.Actions.{Action, ◌>>=◌, ◌>>◌, return, fail}
use Sets.{Mapset}

abbrev pub protocol_tcp : Text
protocol_tcp = b't' ∷ b'c' ∷ b'p' ∷ []

abbrev pub protocol_udp : Text
protocol_udp = b'u' ∷ b'd' ∷ b'p' ∷ []

abbrev pub protocol_tcpudp : Text
protocol_tcpudp = b't' ∷ b'c' ∷ b'p' ∷ b'+' ∷ b'u' ∷ b'd' ∷ b'p' ∷ []

pub record PortDistributor (S : Type 0) : Type 0 where
  pub allowed_ports : S
  pub ports_pools : List (Text × S)

pub data Error : Type 0 where
  no_ports_available : Error
  connections_failed : Error
  nil_pool : Error  -- a method called on a nil set: a panic

-- What net.Connections lists of a connection.
pub record Connection : Type 0 where
  pub status : String
  pub local_port : ℕ

abbrev pub Connections : Type 0
Connections = Text → Result Error (List Connection)

abbrev pub is_active : Connection → Bool
is_active c = c.status == "LISTEN" || (c.status == "NONE" || c.status == "")

-- IsProtocol's tcp+udp stands for the two protocols.
abbrev pub sub_protocols : Text → List Text
sub_protocols protocol =
    if protocol == protocol_tcpudp then protocol_tcp ∷ protocol_udp ∷ [] else protocol ∷ []

module _ {S : Type 0} (sets : Mapset S) (connections : Connections) where
  unfoldable pub busy_ports : List Connection → S
  busy_ports [] = sets.empty
  busy_ports (c ∷ cs) =
      if is_active c && not (c.local_port == 0)
      then sets.add c.local_port (busy_ports cs)
      else busy_ports cs

  unfoldable pub list_busy_ports : Text → Result Error S
  unfolding busy_ports
  list_busy_ports protocol = elim (connections protocol) [
    | ok cs ↦ ok (busy_ports cs)
    | err e ↦ err e
  ]

  unfoldable pub refresh_protocol : Text → Action (PortDistributor S) Error (Unit {0})
  unfolding list_busy_ports
  refresh_protocol protocol d = elim (list_busy_ports protocol) [
    | ok busy ↦ (
      record d {
        ports_pools = insert protocol (sets.difference d.allowed_ports busy) d.ports_pools;
      },
      ok tt,
    )
    | err e ↦ (d, err e)
  ]

  unfoldable pub refresh : Action (PortDistributor S) Error (Unit {0})
  refresh = do refresh_protocol protocol_tcp; refresh_protocol protocol_udp

  unfoldable pub is_port_allowed : ℕ → PortDistributor S → Bool
  is_port_allowed port d = sets.contains d.allowed_ports port

  abbrev pub intersection : Option S → Option S → Option S
  intersection (some a) (some b) = some (sets.intersect a b)
  intersection _ _ = none

  unfoldable pub get_pool : Text → PortDistributor S → Option S
  get_pool protocol d =
      if protocol == protocol_tcpudp
      then intersection (lookup protocol_tcp d.ports_pools) (lookup protocol_udp d.ports_pools)
      else lookup protocol d.ports_pools

  unfoldable pub is_port_busy : Text → ℕ → PortDistributor S → Result Error Bool
  unfolding get_pool
  is_port_busy protocol port d = elim (get_pool protocol d) [
    | none ↦ err nil_pool
    | some pool ↦ ok (not (sets.contains pool port))
  ]

  abbrev ensure_pool : Text → Action (PortDistributor S) Error (Unit {0})
  ensure_pool p d = elim (lookup p d.ports_pools) [
    | none ↦ refresh_protocol p d
    | some pool ↦ (d, ok tt)
  ]

  -- The first loop of GetRandomPort.
  unfoldable pub ensure_pools : List Text → Action (PortDistributor S) Error (Unit {0})
  ensure_pools [] = return tt
  ensure_pools (p ∷ ps) = ensure_pool p >> ensure_pools ps

  abbrev pub set_pool : Text → S → PortDistributor S → PortDistributor S
  set_pool p pool d = record d { ports_pools = insert p pool d.ports_pools }

  -- `d.getPool(protocol).Pop()`: the set of a single protocol is the pool itself, and an
  -- intersection is a new set.
  unfoldable pub pop_port : Text → Action (PortDistributor S) Error ℕ
  unfolding get_pool
  pop_port protocol d = elim (get_pool protocol d) [
    | none ↦ (d, err nil_pool)
    | some pool ↦ elim (sets.pop pool) [
      | none ↦ (d, err no_ports_available)
      | some (port, rest) ↦
          (if protocol == protocol_tcpudp then d else set_pool protocol rest d, ok port)
    ]
  ]

  abbrev remove_from_pool : ℕ → Text → Action (PortDistributor S) Error (Unit {0})
  remove_from_pool port p d = elim (lookup p d.ports_pools) [
    | none ↦ (d, err nil_pool)
    | some pool ↦ (set_pool p (sets.remove port pool) d, ok tt)
  ]

  -- The last loop of GetRandomPort.
  unfoldable pub remove_from_pools : ℕ → List Text → Action (PortDistributor S) Error (Unit {0})
  remove_from_pools port [] = return tt
  remove_from_pools port (p ∷ ps) = remove_from_pool port p >> remove_from_pools port ps

  unfoldable pub get_random_port : Text → Action (PortDistributor S) Error ℕ
  get_random_port protocol = do
    let subs = sub_protocols protocol
    ensure_pools subs
    port ← pop_port protocol
    remove_from_pools port subs
    return port
