-- ===== src/Clients/Starting/Listening.antt =====
-- server/clients/client_service.go: every step of a successful start keeps that all of a client's
-- tunnels listen on allowed ports.
use openrport.Prelude.{
  ℕ, ◌≡◌, refl, ◌∙◌, ap, sym, subst, inl, inr, true, ◌&&◌, [], ◌∷◌, ◌++◌, Option, arith,
  Option-cases, Bool-cases,
}
use openrport.Prelude.Int.{pos, negsuc}
use openrport.Prelude.Results.{Result, ok, Result-cases}
use openrport.Strings.{Text, text_eq}
use openrport.Strings.Decimal.{itoa, atoi}
use openrport.Ports.{PortDistributor, Connections, Error, is_port_allowed, get_random_port}
use openrport.Ports.Sets.{Mapset, IsMapset}
use openrport.Ports.Taking.{HasAllowedPools}
use openrport.Remotes.{Remote, zero_host, is_local_specified}
use openrport.Tunnels.{Tunnel, new_tunnel}
use openrport.Tunnels.Acl.{TunnelAcl}
use openrport.Clients.Starting.{
  Starting, Parts, find_tunnel_by_remote, start_regular_tunnel, start_tunnel_with_proxy,
  start_proxied_tunnel, start_tunnel, start_unlisted_tunnel, choose_local_port, start_client_tunnel,
  check_local_port, parse_optional_acl,
}
use openrport.Clients.Starting.LocalPorts.{
  IsAllowedText, IsSafe, Kept, Kept-IsSafe, random_port-IsAllowedText, AllAllowed-append,
  AllAllowed-found,
}

check_local_port-IsAllowedText :
    {P : Type 0} (sets : Mapset P) (connections : Connections) (protocol port : Text)
    (d : PortDistributor P)
    → check_local_port sets connections protocol port d ≡ ok tt
    → IsAllowedText sets d port
unfolding check_local_port is_port_allowed
check_local_port-IsAllowedText sets connections protocol port d h =
    elim (Option-cases (atoi port)) [
      | inl bad ↦ absurd (ground (arith, h, bad))
      | inr (negsuc n, e) ↦ absurd (ground (arith, h, e))
      | inr (pos n, e) ↦ (n, e, ground (arith, h, e))
    ]

module _ {P W : Type 0} (parts : Parts P W) (law : IsMapset parts.sets) where
  Kept-refl : (s : Starting P W) → IsSafe parts law s → Kept parts law s s
  Kept-refl s safe = record { same_allowed = refl; same_tunnels = refl; pools = safe.pools }

  abbrev ports_of : Text → Starting P W → PortDistributor P × Result Error ℕ
  ports_of protocol s = get_random_port parts.sets parts.connections protocol s.distributor

  abbrev pub Chosen : Starting P W → Starting P W → Remote → Type 0
  Chosen s s' r = IsAllowedText parts.sets s'.distributor r.local_port × Kept parts law s s'

  given-Chosen :
      (r : Remote) (s : Starting P W)
      → IsSafe parts law s
      → check_local_port parts.sets parts.connections r.protocol r.local_port s.distributor ≡ ok tt
      → Chosen s s r
  given-Chosen r s safe h = (
    check_local_port-IsAllowedText parts.sets parts.connections r.protocol r.local_port
        s.distributor h,
    Kept-refl s safe,
  )

  random-Chosen :
      (r : Remote) (s : Starting P W) (port : ℕ)
      → IsSafe parts law s
      → (ports_of r.protocol s).1 ≡ ok port
      → Chosen s
          (record s { distributor = (ports_of r.protocol s).0 })
          (record r { local_port = itoa port; local_host = zero_host; local_port_random = true })
  random-Chosen r s port safe h =
      let (allowed, pools, same) =
        random_port-IsAllowedText parts law r.protocol s.distributor ((ports_of r.protocol s).0)
          port safe.pools safe.bounded (ground (arith, h)) in
      (allowed, record { same_allowed = same; same_tunnels = refl; pools = pools })

  pub choose_local_port-Chosen :
      (r r' : Remote) (s s' : Starting P W)
      → IsSafe parts law s
      → choose_local_port parts r s ≡ (s', ok r')
      → Chosen s s' r'
  unfolding choose_local_port
  choose_local_port-Chosen r r' s s' safe h = elim (Bool-cases (is_local_specified r)) [
    | inl given ↦
        elim (Result-cases
          (check_local_port parts.sets parts.connections r.protocol r.local_port s.distributor)) [
            | inl (u, e) ↦
                subst (λ (w : Starting P W × Remote). Chosen s (w.0) (w.1)) {x = (s, r)}
                  {y = (s', r')} (ground (arith, h, given, e)) (given-Chosen r s safe e)
            | inr (w, e) ↦ absurd (ground (arith, h, given, e))
          ]
    | inr missing ↦ elim (Result-cases ((ports_of r.protocol s).1)) [
      | inl (port, e) ↦
          subst (λ (w : Starting P W × Remote). Chosen s (w.0) (w.1))
            {x = (
              record s { distributor = (ports_of r.protocol s).0 },
              record r { local_port = itoa port; local_host = zero_host; local_port_random = true },
            )}
            {y = (s', r')} (ground (arith, h, missing, e)) (random-Chosen r s port safe e)
      | inr (w, e) ↦ absurd (ground (arith, h, missing, e))
    ]
  ]

  start_regular_tunnel-Kept :
      (r : Remote) (acl : Option TunnelAcl) (s s' : Starting P W) (t : Tunnel)
      → IsSafe parts law s
      → start_regular_tunnel parts r acl s ≡ (s', ok t)
      → Kept parts law s s' × (t.remote.local_port ≡ r.local_port)
  unfolding start_regular_tunnel new_tunnel
  start_regular_tunnel-Kept r acl s s' t safe h =
      let same : s'.distributor ≡ s.distributor = ground (arith, h) in
      (
        record {
          same_allowed = ap (λ d. d.allowed_ports) same;
          same_tunnels = ground (arith, h);
          pools = subst (HasAllowedPools parts.sets law parts.connections) (sym same) safe.pools;
        },
        ground (arith, h),
      )

  start_tunnel_with_proxy-Kept :
      (r : Remote) (acl : Option TunnelAcl) (s s' : Starting P W) (t : Tunnel)
      → IsSafe parts law s
      → start_proxied_tunnel parts r acl s ≡ (s', ok t)
      → Kept parts law s s' × (t.remote.local_port ≡ r.local_port)
  unfolding start_proxied_tunnel start_tunnel_with_proxy new_tunnel
  start_tunnel_with_proxy-Kept r acl s s' t safe h =
      elim (Result-cases ((ports_of r.protocol s).1)) [
        | inl (port, e) ↦
            let (chosen, k) = random-Chosen r s port safe e in
            let same : s'.distributor ≡ (ports_of r.protocol s).0 = ground (arith, h, e) in
            (
              record {
                same_allowed = ap (λ d. d.allowed_ports) same ∙ k.same_allowed;
                same_tunnels = ground (arith, h, e);
                pools = subst (HasAllowedPools parts.sets law parts.connections) (sym same) k.pools;
              },
              ground (arith, h, e),
            )
        | inr (w, e) ↦ absurd (ground (arith, h, e))
      ]

  start_unlisted_tunnel-Kept :
      (r : Remote) (acl : Option TunnelAcl) (s s' : Starting P W) (t : Tunnel)
      → IsSafe parts law s
      → start_unlisted_tunnel parts r acl s ≡ (s', ok t)
      → Kept parts law s s' × (t.remote.local_port ≡ r.local_port)
  unfolding start_unlisted_tunnel
  start_unlisted_tunnel-Kept r acl s s' t safe h =
      elim (Bool-cases (parts.tunnel_proxy_enabled && r.http_proxy)) [
        | inl proxied ↦ start_tunnel_with_proxy-Kept r acl s s' t safe (ground (arith, h, proxied))
        | inr regular ↦ start_regular_tunnel-Kept r acl s s' t safe (ground (arith, h, regular))
      ]

  -- The state in which one more tunnel is in the client's list.
  abbrev listed : Tunnel → Starting P W → Starting P W
  listed t s = record s { client = record s.client { tunnels = s.client.tunnels ++ (t ∷ []) } }

  abbrev pub Started : Starting P W → Starting P W → Tunnel → Type 0
  Started s s' t =
      IsSafe parts law s'
      × IsAllowedText parts.sets s'.distributor t.remote.local_port
      × (s'.distributor.allowed_ports ≡ s.distributor.allowed_ports)

  listed-Started :
      (r : Remote) (s s' : Starting P W) (t : Tunnel)
      → IsSafe parts law s
      → IsAllowedText parts.sets s.distributor r.local_port
      → Kept parts law s s' × (t.remote.local_port ≡ r.local_port)
      → Started s (listed t s') t
  listed-Started r s s' t safe (n, a, c) (k, port) =
      let v = Kept-IsSafe parts law s s' safe k in
      let allowed : IsAllowedText parts.sets s'.distributor t.remote.local_port =
        (n, ap atoi port ∙ a, subst (λ p. parts.sets.contains p n ≡ true) (sym k.same_allowed) c) in
      (
        record {
          pools = v.pools;
          bounded = v.bounded;
          listening =
              AllAllowed-append parts.sets s'.distributor s'.client.tunnels t v.listening allowed;
        },
        allowed,
        k.same_allowed,
      )

  start_tunnel-Started :
      (r : Remote) (acl : Option TunnelAcl) (s s' : Starting P W) (t : Tunnel)
      → IsSafe parts law s
      → IsAllowedText parts.sets s.distributor r.local_port
      → start_tunnel parts r acl s ≡ (s', ok t)
      → Started s s' t
  unfolding start_tunnel
  start_tunnel-Started r acl s s' t safe allowed h =
      elim (Option-cases (find_tunnel_by_remote r s.client.tunnels)) [
        | inr (found, e) ↦
            subst (λ (w : Starting P W × Tunnel). Started s (w.0) (w.1)) {x = (s, found)}
              {y = (s', t)} (ground (arith, h, e))
              (
                safe,
                AllAllowed-found parts.sets s.distributor r s.client.tunnels found safe.listening e,
                refl,
              )
        | inl e ↦ elim (Result-cases ((start_unlisted_tunnel parts r acl s).1)) [
          | inl (new, f) ↦
              let s₁ = (start_unlisted_tunnel parts r acl s).0 in
              subst (λ (w : Starting P W × Tunnel). Started s (w.0) (w.1))
                {x = (listed new s₁, new)} {y = (s', t)} (ground (arith, h, e, f))
                (listed-Started r s s₁ new safe allowed
                  (start_unlisted_tunnel-Kept r acl s s₁ new safe (ground (arith, f))))
          | inr (w, f) ↦ absurd (ground (arith, h, e, f))
        ]
      ]

  pub start_client_tunnel-Started :
      (r : Remote) (s s' : Starting P W) (t : Tunnel)
      → IsSafe parts law s
      → start_client_tunnel parts r s ≡ (s', ok t)
      → Started s s' t
  unfolding start_client_tunnel
  start_client_tunnel-Started r s s' t safe h =
      elim (Result-cases ((choose_local_port parts r s).1)) [
        | inr (w, e) ↦ absurd (ground (arith, h, e))
        | inl (r', e) ↦ elim (Result-cases (parse_optional_acl parts.net r'.acl)) [
          | inr (w, f) ↦ absurd (ground (arith, h, e, f))
          | inl (acl, f) ↦
              let s₁ = (choose_local_port parts r s).0 in
              let (allowed, k) = choose_local_port-Chosen r r' s s₁ safe (ground (arith, e)) in
              elim (Result-cases ((start_tunnel parts r' acl s₁).1)) [
                | inr (w, g) ↦ absurd (ground (arith, h, e, f, g))
                | inl (u, g) ↦
                    let (v, a, same) =
                      start_tunnel-Started r' acl s₁ s' t (Kept-IsSafe parts law s s₁ safe k)
                        allowed (ground (arith, h, e, f, g)) in
                    (v, a, same ∙ k.same_allowed)
              ]
        ]
      ]
