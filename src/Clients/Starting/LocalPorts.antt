-- ===== src/Clients/Starting/LocalPorts.antt =====
-- server/clients/client_service.go with server/ports: a tunnel listens on an allowed port.
use openrport.Prelude.{
  ℕ, ◌≡◌, ◌<◌, ◌^◌, refl, sym, subst, inl, inr, true, List, [], ◌∷◌, ◌++◌, some, ◌==◌, arith,
  Option-cases, Bool-cases, any, beq_refl, lookup,
}
use openrport.Prelude.Int.{pos}
use openrport.Prelude.Results.{ok, Result-cases}
use openrport.Strings.{Text, text_eq}
use openrport.Strings.Decimal.{itoa, atoi, atoi-itoa}
use openrport.Ports.{
  protocol_tcp, protocol_tcpudp, PortDistributor, Connections, is_port_allowed, get_random_port,
  refresh_protocol, ensure_pools, pop_port, remove_from_pools, sub_protocols, set_pool,
}
use openrport.Ports.Sets.{Mapset, IsMapset}
use openrport.Ports.Taking.{HasAllowedPools}
use openrport.Ports.Distribution.{get_random_port_allowed}
use openrport.Remotes.{Remote, equals}
use openrport.Tunnels.{Tunnel}
use openrport.Clients.Starting.{Starting, Parts, find_tunnel_by_remote}

module _ {P : Type 0} (sets : Mapset P) (connections : Connections) where
  pub refresh_protocol-allowed_ports :
      (p : Text) (d : PortDistributor P)
      → ((refresh_protocol sets connections p d).0).allowed_ports ≡ d.allowed_ports
  unfolding refresh_protocol
  refresh_protocol-allowed_ports p d = ground arith

  ensure_pools-allowed_ports :
      (ps : List Text) (d : PortDistributor P)
      → ((ensure_pools sets connections ps d).0).allowed_ports ≡ d.allowed_ports
  unfolding ensure_pools
  ensure_pools-allowed_ports [] d = refl
  ensure_pools-allowed_ports (p ∷ ps) d = ground (
    arith,
    refresh_protocol-allowed_ports p d,
    ensure_pools-allowed_ports ps d,
    ensure_pools-allowed_ports ps ((refresh_protocol sets connections p d).0),
  )

  remove_from_pools-allowed_ports :
      (port : ℕ) (ps : List Text) (d : PortDistributor P)
      → ((remove_from_pools sets connections port ps d).0).allowed_ports ≡ d.allowed_ports
  unfolding remove_from_pools
  remove_from_pools-allowed_ports port [] d = refl
  remove_from_pools-allowed_ports port (p ∷ ps) d = elim (Option-cases (lookup p d.ports_pools)) [
    | inl missing ↦ ground (arith, missing)
    | inr (pool, e) ↦ ground (
      arith,
      e,
      remove_from_pools-allowed_ports port ps
          (set_pool sets connections p (sets.remove port pool) d),
    )
  ]

  pop_port-allowed_ports :
      (protocol : Text) (d : PortDistributor P)
      → ((pop_port sets connections protocol d).0).allowed_ports ≡ d.allowed_ports
  unfolding pop_port
  pop_port-allowed_ports protocol d = ground arith

  pub get_random_port-allowed_ports :
      (protocol : Text) (d : PortDistributor P)
      → ((get_random_port sets connections protocol d).0).allowed_ports ≡ d.allowed_ports
  unfolding get_random_port
  get_random_port-allowed_ports protocol d =
      let ensured = (ensure_pools sets connections (sub_protocols protocol) d).0 in
      let (popped, port) = pop_port sets connections protocol ensured in
      elim (Result-cases ((pop_port sets connections protocol ensured).1)) [
        | inl (x, e) ↦ ground (
          arith,
          e,
          ensure_pools-allowed_ports (sub_protocols protocol) d,
          pop_port-allowed_ports protocol ensured,
          remove_from_pools-allowed_ports x (sub_protocols protocol) popped,
        )
        | inr (x, e) ↦ ground (
          arith,
          e,
          ensure_pools-allowed_ports (sub_protocols protocol) d,
          pop_port-allowed_ports protocol ensured,
        )
      ]

-- The text is the number of an allowed port.
abbrev pub IsAllowedText : {P : Type 0} → Mapset P → PortDistributor P → Text → Type 0
IsAllowedText sets d port =
    (n : ℕ) × (atoi port ≡ some (pos n)) × (sets.contains d.allowed_ports n ≡ true)

abbrev pub AllAllowed : {P : Type 0} → Mapset P → PortDistributor P → List Tunnel → Type 0
AllAllowed sets d [] = Unit
AllAllowed sets d (t ∷ ts) = IsAllowedText sets d t.remote.local_port × AllAllowed sets d ts

-- The pools hold allowed ports only, those are of 64 bits, and the client's tunnels listen on some.
pub record IsSafe {P W : Type 0} (parts : Parts P W) (law : IsMapset parts.sets) (s : Starting P W)
    : Type 0 where
  pub pools : HasAllowedPools parts.sets law parts.connections s.distributor
  pub bounded : (n : ℕ) → parts.sets.contains s.distributor.allowed_ports n ≡ true → n < 2 ^ 63
  pub listening : AllAllowed parts.sets s.distributor s.client.tunnels

pub AllAllowed-append :
    {P : Type 0} (sets : Mapset P) (d : PortDistributor P) (ts : List Tunnel) (t : Tunnel)
    → AllAllowed sets d ts
    → IsAllowedText sets d t.remote.local_port
    → AllAllowed sets d (ts ++ (t ∷ []))
AllAllowed-append sets d [] t all a = (a, tt)
AllAllowed-append sets d (u ∷ ts) t (b, all) a = (b, AllAllowed-append sets d ts t all a)

pub AllAllowed-found :
    {P : Type 0} (sets : Mapset P) (d : PortDistributor P) (r : Remote) (ts : List Tunnel)
    (t : Tunnel)
    → AllAllowed sets d ts
    → find_tunnel_by_remote r ts ≡ some t
    → IsAllowedText sets d t.remote.local_port
unfolding find_tunnel_by_remote
AllAllowed-found sets d r [] t all h = absurd (ground (arith, h))
AllAllowed-found sets d r (u ∷ ts) t (b, all) h = elim (Bool-cases (equals u.remote r)) [
  | inl e ↦
      subst (λ v. IsAllowedText sets d v.remote.local_port) {x = u} {y = t} (ground (arith, h, e)) b
  | inr e ↦ AllAllowed-found sets d r ts t all (ground (arith, h, e))
]

pub AllAllowed-same :
    {P : Type 0} (sets : Mapset P) (d d' : PortDistributor P) (ts : List Tunnel)
    → d'.allowed_ports ≡ d.allowed_ports
    → AllAllowed sets d ts
    → AllAllowed sets d' ts
AllAllowed-same sets d d' [] e all = tt
AllAllowed-same sets d d' (t ∷ ts) e ((n, a, c), all) =
    ((n, a, subst (λ p. sets.contains p n ≡ true) (sym e) c), AllAllowed-same sets d d' ts e all)

module _ {P W : Type 0} (parts : Parts P W) (law : IsMapset parts.sets) where
  -- What a successful step keeps.
  pub record Kept (s s' : Starting P W) : Type 0 where
    pub same_allowed : s'.distributor.allowed_ports ≡ s.distributor.allowed_ports
    pub same_tunnels : s'.client.tunnels ≡ s.client.tunnels
    pub pools : HasAllowedPools parts.sets law parts.connections s'.distributor

  pub Kept-IsSafe : (s s' : Starting P W) → IsSafe parts law s → Kept s s' → IsSafe parts law s'
  Kept-IsSafe s s' safe k = record {
    pools = k.pools;
    bounded = λ n h. safe.bounded n (subst (λ p. parts.sets.contains p n ≡ true) k.same_allowed h);
    listening = subst (AllAllowed parts.sets s'.distributor) (sym k.same_tunnels) (
        AllAllowed-same parts.sets s.distributor s'.distributor s.client.tunnels k.same_allowed
          safe.listening);
  }

  any_sub : (protocol : Text) → (p : Text) × (any (λ q. q == p) (sub_protocols protocol) ≡ true)
  any_sub protocol = elim (Bool-cases (protocol == protocol_tcpudp)) [
    | inl e ↦ (protocol_tcp, ground (arith, e))
    | inr e ↦ (protocol, ground (arith, e, beq_refl protocol))
  ]

  pub random_port-IsAllowedText :
      (protocol : Text) (d d' : PortDistributor P) (port : ℕ)
      → HasAllowedPools parts.sets law parts.connections d
      → ((n : ℕ) → parts.sets.contains d.allowed_ports n ≡ true → n < 2 ^ 63)
      → get_random_port parts.sets parts.connections protocol d ≡ (d', ok port)
      → IsAllowedText parts.sets d' (itoa port)
        × HasAllowedPools parts.sets law parts.connections d'
        × (d'.allowed_ports ≡ d.allowed_ports)
  unfolding is_port_allowed
  random_port-IsAllowedText protocol d d' port pools bounded h =
      let (p, sub) = any_sub protocol in
      let (allowed, taken, kept) =
        get_random_port_allowed parts.sets law parts.connections protocol p d d' port pools sub h in
      let same : d'.allowed_ports ≡ d.allowed_ports =
        ground (arith, h, get_random_port-allowed_ports parts.sets parts.connections protocol d) in
      (
        (
          port,
          atoi-itoa port
              (bounded port (subst (λ q. parts.sets.contains q port ≡ true) same allowed)),
          allowed,
        ),
        kept,
        same,
      )
