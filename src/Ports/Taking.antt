-- ===== src/Ports/Taking.antt =====
-- server/ports/port_distributor.go: what GetRandomPort takes out of the pools.
use openrport.Prelude.{
  ℕ, ◌≡◌, Bool, true, false, not, ◌&&◌, List, [], ◌∷◌, Option, none, some, ◌==◌, nat_eq, string_eq,
  lookup, lookup-insert, arith, list_beq_iff, inl, inr, Option-cases, Bool-cases, any,
}
use openrport.Strings.{Text, text_eq}
use openrport.Prelude.Results.{ok, Result-cases}
use openrport.Ports.{
  PortDistributor, Connections, protocol_tcp, protocol_udp, protocol_tcpudp, sub_protocols,
  is_port_allowed, get_pool, ensure_pools, pop_port, remove_from_pools, get_random_port, set_pool,
  intersection,
}
use openrport.Ports.Sets.{Mapset, IsMapset}

module _ {S : Type 0} (sets : Mapset S) (law : IsMapset sets) (connections : Connections) where
  -- Whether the pool of a protocol is there and has the port.
  abbrev pub pool_has : Option S → ℕ → Bool
  pool_has none port = false
  pool_has (some pool) port = sets.contains pool port

  abbrev pub offers : PortDistributor S → Text → ℕ → Bool
  offers d p port = pool_has (lookup p d.ports_pools) port

  -- Every pool holds allowed ports only.
  abbrev pub HasAllowedPools : PortDistributor S → Type 0
  HasAllowedPools d =
      (p : Text) (port : ℕ)
      → offers d p port ≡ true
      → is_port_allowed sets connections port d ≡ true

  -- The port x of the pool of p is the one that is taken from the pools of ps.
  abbrev pub taken : ℕ → List Text → Text → ℕ → Bool
  taken port ps p x = port == x && any (λ q. q == p) ps

  remove_from_pools_lem :
      (port : ℕ) (ps : List Text) (d d' : PortDistributor S)
      → remove_from_pools sets connections port ps d ≡ (d', ok tt)
      → (d'.allowed_ports ≡ d.allowed_ports)
        × ((p : Text) (x : ℕ) → offers d' p x ≡ (offers d p x && not (taken port ps p x)))
  unfolding remove_from_pools
  remove_from_pools_lem port [] d d' h = (ground arith, λ p x. ground arith)
  remove_from_pools_lem port (q ∷ qs) d d' h = elim (Option-cases (lookup q d.ports_pools)) [
    | inl e ↦ absurd (ground (arith, e))
    | inr (pool, e) ↦
        let e' = set_pool sets connections q (sets.remove port pool) d in
        let (same, rest) = remove_from_pools_lem port qs e' d' (ground (arith, e)) in
        (
          same,
          λ p x. ground (
            arith,
            e,
            rest p x,
            lookup-insert q p (sets.remove port pool) d.ports_pools,
            list_beq_iff q p,
            law.contains-remove port x pool,
          ),
        )
  ]

  intersection-has :
      (a b : Option S) (pool : S) (port : ℕ)
      → intersection sets connections a b ≡ some pool
      → sets.contains pool port ≡ true
      → (pool_has a port ≡ true) × (pool_has b port ≡ true)
  intersection-has (some a) (some b) pool port e h = ground (arith, law.contains-intersect a b port)
  intersection-has none b pool port e h = cc
  intersection-has (some a) none pool port e h = cc

  pop_single :
      (protocol : Text) (d : PortDistributor S) (pool rest : S) (port : ℕ)
      → lookup protocol d.ports_pools ≡ some pool
      → sets.pop pool ≡ some (port, rest)
      → (p : Text) (x : ℕ)
      → (offers (set_pool sets connections protocol rest d) p x
          && not (taken port (protocol ∷ []) p x))
        ≡ (offers d p x && not (taken port (protocol ∷ []) p x))
  pop_single protocol d pool rest port e popped p x = ground (
    arith,
    e,
    (law.pop_some pool rest port popped).1 x,
    lookup-insert protocol p rest d.ports_pools,
    list_beq_iff protocol p,
  )

  -- Where Pop finds a port, each pool concerned had it, and but for it the pools are as they were.
  pop_port_lem :
      (protocol : Text) (d d' : PortDistributor S) (port : ℕ)
      → pop_port sets connections protocol d ≡ (d', ok port)
      → (d'.allowed_ports ≡ d.allowed_ports)
        × ((p : Text) → any (λ q. q == p) (sub_protocols protocol) ≡ true → offers d p port ≡ true)
        × ((p : Text) (x : ℕ)
            → (offers d' p x && not (taken port (sub_protocols protocol) p x))
              ≡ (offers d p x && not (taken port (sub_protocols protocol) p x)))
  unfolding pop_port
  pop_port_lem protocol d d' port h = elim (Option-cases (get_pool sets connections protocol d)) [
    | inl e ↦ absurd (ground (arith, e))
    | inr (pool, e) ↦ elim (Option-cases (sets.pop pool)) [
      | inl e₂ ↦ absurd (ground (arith, e, e₂))
      | inr (r, e₂) ↦ elim (Bool-cases (protocol == protocol_tcpudp)) [
        | inl both ↦ (
          ground (arith, e, e₂, both),
          λ p q. ground (
            arith,
            e,
            both,
            list_beq_iff protocol_tcp p,
            list_beq_iff protocol_udp p,
            intersection-has (lookup protocol_tcp d.ports_pools) (lookup protocol_udp d.ports_pools)
                pool port (ground (arith, e, both))
                (ground (arith, e, e₂, (law.pop_some pool r.1 r.0 e₂).0)),
          ),
          λ p x. ground (arith, e, e₂, both),
        )
        | inr single ↦ (
          ground (arith, e, e₂, single),
          λ p q.
              ground
                (arith, e, e₂, single, list_beq_iff protocol p, (law.pop_some pool r.1 r.0 e₂).0),
          λ p x. ground (
            arith,
            e,
            e₂,
            single,
            pop_single protocol d pool r.1 r.0 (ground (arith, e, single)) e₂ p x,
          ),
        )
      ]
    ]
  ]

  -- What GetRandomPort has done to the pools, once they were all there, where it yields a port.
  pub record Taken (protocol : Text) (port : ℕ) (d d' : PortDistributor S) : Type 0 where
    pub same_allowed : d'.allowed_ports ≡ d.allowed_ports
    pub offered :
        (p : Text) → any (λ q. q == p) (sub_protocols protocol) ≡ true → offers d p port ≡ true
    pub left :
        (p : Text) (x : ℕ)
        → offers d' p x ≡ (offers d p x && not (taken port (sub_protocols protocol) p x))

  get_random_port-Taken :
      (protocol : Text) (d d₁ d' : PortDistributor S) (port : ℕ)
      → ensure_pools sets connections (sub_protocols protocol) d ≡ (d₁, ok tt)
      → get_random_port sets connections protocol d ≡ (d', ok port)
      → Taken protocol port d₁ d'
  unfolding get_random_port
  get_random_port-Taken protocol d d₁ d' port e h =
      let subs = sub_protocols protocol in
      let popped = pop_port sets connections protocol d₁ in
      elim (Result-cases popped.1) [
        | inr (x, bad) ↦ absurd (ground (arith, e, bad))
        | inl (y, good) ↦
            let removed = remove_from_pools sets connections y subs popped.0 in
            elim (Result-cases removed.1) [
              | inr (x, bad) ↦ absurd (ground (arith, e, good, bad))
              | inl (u, fine) ↦
                  let first =
                    pop_port_lem protocol d₁ popped.0 port (ground (arith, e, good, fine)) in
                  let last =
                    remove_from_pools_lem port subs popped.0 d' (ground (arith, e, good, fine)) in
                  record {
                    same_allowed = ground (arith, first.0, last.0);
                    offered = first.1;
                    left = λ p x. ground (arith, first.2 p x, last.1 p x);
                  }
            ]
      ]

  pub get_random_port-Taken_ensured :
      (protocol : Text) (d d' : PortDistributor S) (port : ℕ)
      → get_random_port sets connections protocol d ≡ (d', ok port)
      → Taken protocol port (ensure_pools sets connections (sub_protocols protocol) d).0 d'
  unfolding get_random_port
  get_random_port-Taken_ensured protocol d d' port h =
      let ensured = ensure_pools sets connections (sub_protocols protocol) d in
      elim (Result-cases ensured.1) [
        | inr (x, bad) ↦ absurd (ground (arith, bad))
        | inl (u, good) ↦
            get_random_port-Taken protocol d ensured.0 d' port (ground (arith, good)) h
      ]
