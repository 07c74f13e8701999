-- ===== src/Ports/Distribution.antt =====
-- server/ports/port_distributor.go: GetRandomPort hands out allowed ports, and none twice.
use openrport.Prelude.{
  ℕ, ◌≡◌, sym, subst, ◌⊎◌, true, false, List, [], ◌∷◌, ◌==◌, nat_eq, string_eq, lookup-insert,
  arith, inl, inr, Bool-cases, any, beq_refl,
}
use openrport.Strings.{Text, text_eq}
use openrport.Prelude.Results.{ok, Result-cases}
use openrport.Ports.{
  PortDistributor, Connections, protocol_tcp, protocol_tcpudp, sub_protocols, refresh_protocol,
  is_port_allowed, ensure_pools, get_random_port, list_busy_ports,
}
use openrport.Ports.Sets.{Mapset, IsMapset}
use openrport.Ports.Taking.{HasAllowedPools, offers, get_random_port-Taken_ensured}

module _ {S : Type 0} (sets : Mapset S) (law : IsMapset sets) (connections : Connections) where
  pub refresh_protocol-HasAllowedPools :
      (p : Text) (d : PortDistributor S)
      → HasAllowedPools sets law connections d
      → HasAllowedPools sets law connections (refresh_protocol sets connections p d).0
  unfolding refresh_protocol is_port_allowed
  refresh_protocol-HasAllowedPools p d h q port offered =
      elim (Result-cases (list_busy_ports sets connections p)) [
        | inr (x, bad) ↦ ground (arith, bad, h q port)
        | inl (busy, good) ↦ ground (
          arith,
          good,
          h q port,
          lookup-insert p q (sets.difference d.allowed_ports busy) d.ports_pools,
          law.contains-difference d.allowed_ports busy port,
        )
      ]

  -- The first loop goes on with the pool that is there, fails to make one, or goes on with a new
  -- one.
  ensure_pools_cases :
      (p : Text) (ps : List Text) (d : PortDistributor S)
      → let refreshed = (refresh_protocol sets connections p d).0 in
        let all_done = (ensure_pools sets connections (p ∷ ps) d).0 in
        (all_done ≡ (ensure_pools sets connections ps d).0)
        ⊎ ((all_done ≡ refreshed) ⊎ (all_done ≡ (ensure_pools sets connections ps refreshed).0))
  unfolding ensure_pools
  ensure_pools_cases p ps d = ground arith

  ensure_pools-HasAllowedPools :
      (ps : List Text) (d : PortDistributor S)
      → HasAllowedPools sets law connections d
      → HasAllowedPools sets law connections (ensure_pools sets connections ps d).0
  unfolding ensure_pools
  ensure_pools-HasAllowedPools [] d h = h
  ensure_pools-HasAllowedPools (p ∷ ps) d h =
      let refreshed = refresh_protocol sets connections p d in
      let kept = refresh_protocol-HasAllowedPools p d h in
      elim (ensure_pools_cases p ps d) [
        | inl same ↦
            subst (HasAllowedPools sets law connections) (sym same)
              (ensure_pools-HasAllowedPools ps d h)
        | inr (inl same) ↦ subst (HasAllowedPools sets law connections) (sym same) kept
        | inr (inr same) ↦
            subst (HasAllowedPools sets law connections) (sym same)
              (ensure_pools-HasAllowedPools ps refreshed.0 kept)
      ]

  -- Where the pools hold allowed ports only, GetRandomPort yields an allowed port, which no pool of
  -- the protocol (for tcp+udp, of the two) has afterwards, and the pools still hold allowed ports
  -- only.
  pub get_random_port_allowed :
      (protocol p : Text) (d d' : PortDistributor S) (port : ℕ)
      → HasAllowedPools sets law connections d
      → any (λ q. q == p) (sub_protocols protocol) ≡ true
      → get_random_port sets connections protocol d ≡ (d', ok port)
      → (is_port_allowed sets connections port d' ≡ true)
        × (offers sets law connections d' p port ≡ false)
        × HasAllowedPools sets law connections d'
  unfolding is_port_allowed
  get_random_port_allowed protocol p d d' port allowed sub h =
      let ensured = ensure_pools sets connections (sub_protocols protocol) d in
      let kept = ensure_pools-HasAllowedPools (sub_protocols protocol) d allowed in
      let took = get_random_port-Taken_ensured sets law connections protocol d d' port h in
      (
        elim (Bool-cases (protocol == protocol_tcpudp)) [
          | inl both ↦
              ground
                (arith, both, took.offered protocol_tcp, took.same_allowed, kept protocol_tcp port)
          | inr single ↦ ground (
            arith,
            single,
            beq_refl protocol,
            took.offered protocol,
            took.same_allowed,
            kept protocol port,
          )
        ],
        ground (arith, sub, took.left p port),
        λ p x o. ground (arith, took.left p x, took.same_allowed, kept p x),
      )
