-- ===== src/Clients/Starting/Opened.antt =====
-- server/clients/client_service.go: what starting tunnels does to the world outside. A test of the
-- world that each listening on a good port keeps is kept by starting tunnels, whether that succeeds.
use openrport.Prelude.{
  ℕ, ◌≡◌, sym, subst, inl, inr, Bool, true, ◌&&◌, List, [], ◌∷◌, Option, ◌==◌, nat_eq, arith,
  Option-cases, Bool-cases,
}
use openrport.Prelude.Results.{ok, Result-cases}
use openrport.Strings.{Text, text_eq}
use openrport.Strings.Decimal.{itoa}
use openrport.Ports.{get_random_port}
use openrport.Remotes.{Remote, local_host_ip, has_subdomain_tunnel}
use openrport.Tunnels.{
  get_tunnel_domains, Tunnel, Proxy, World, new_tunnel, start, start_protocols, terminate,
  terminate_protocols,
}
use openrport.Tunnels.Acl.{TunnelAcl}
use openrport.Clients.Client.{next_tunnel_number}
use openrport.Clients.Starting.{
  Starting, Parts, local_acl, start_proxy_or_terminate, start_caddy_downstream_proxy,
  route_if_subdomain, start_regular_tunnel, start_tunnel_with_proxy, start_proxied_tunnel,
  start_unlisted_tunnel, start_tunnel, find_tunnel_by_remote, choose_local_port,
}

-- What an operation of the world keeps.
pub record Keeps {W : Type 0} (world : World W) (IsGood : Text → Type 0) (safe : W → Bool)
    : Type 0 where
  pub listens :
      (p : Text) (t : Tunnel) (w : W)
      → IsGood t.remote.local_port
      → safe w ≡ true
      → safe (world.listen p t w).0 ≡ true
  pub starts :
      (p : Proxy) (w : W) → IsGood p.port → safe w ≡ true → safe (world.start_proxy p w).0 ≡ true
  pub closes :
      (p : Text) (t : Tunnel) (force : Bool) (w : W)
      → safe w ≡ true
      → safe (world.close p t force w).0 ≡ true
  pub stops : (p : Proxy) (w : W) → safe w ≡ true → safe (world.stop_proxy p w).0 ≡ true
  pub routes :
      (a b host port : Text) (w : W)
      → safe w ≡ true
      → safe (world.add_route a b host port w).0 ≡ true

new_tunnel-remote :
    (id : Text) (r : Remote) (acl : Option TunnelAcl) (t : Tunnel)
    → new_tunnel id r acl ≡ ok t
    → t.remote ≡ r
unfolding new_tunnel
new_tunnel-remote id r acl t h = ground (arith, h)

module _ {P W : Type 0} (parts : Parts P W) (IsGood : Text → Type 0) (safe : W → Bool)
    (keeps : Keeps parts.world IsGood safe) where
  start-safe :
      (ps : List Text) (t : Tunnel) (w : W)
      → IsGood t.remote.local_port
      → safe w ≡ true
      → safe (start_protocols parts.world ps t w).0 ≡ true
  unfolding start_protocols
  start-safe [] t w good h = h
  start-safe (p ∷ ps) t w good h =
      let w₁ = (parts.world.listen p t w).0 in
      let h₁ = keeps.listens p t w good h in
      elim (Result-cases (parts.world.listen p t w).1) [
        | inl (u, e) ↦ ground (arith, e, start-safe ps t w₁ good h₁)
        | inr (x, e) ↦ ground (arith, e, h₁)
      ]

  terminate-safe :
      (ps : List Text) (t : Tunnel) (force : Bool) (w : W)
      → safe w ≡ true
      → safe (terminate_protocols parts.world ps t force w).0 ≡ true
  unfolding terminate_protocols
  terminate-safe [] t force w h = h
  terminate-safe (p ∷ ps) t force w h =
      terminate-safe ps t force (parts.world.close p t force w).0 (keeps.closes p t force w h)

  proxy-safe :
      (proxy : Proxy) (t : Tunnel) (w : W)
      → IsGood proxy.port
      → safe w ≡ true
      → safe (start_proxy_or_terminate parts proxy t w).0 ≡ true
  unfolding terminate
  proxy-safe proxy t w good h =
      let w₁ = (parts.world.start_proxy proxy w).0 in
      let h₁ = keeps.starts proxy w good h in
      elim (Result-cases (parts.world.start_proxy proxy w).1) [
        | inl (u, e) ↦ ground (arith, e, h₁)
        | inr (x, e) ↦ ground (arith, e, terminate-safe t.protocols t true w₁ h₁)
      ]

  caddy-safe :
      (r : Remote) (t : Tunnel) (w : W)
      → safe w ≡ true
      → safe (start_caddy_downstream_proxy parts r t w).0 ≡ true
  unfolding start_caddy_downstream_proxy
  caddy-safe r t w h = elim (Result-cases (get_tunnel_domains parts.hostname r)) [
    | inr (x, e) ↦ ground (arith, e, h)
    | inl (ds, e) ↦
        let h₁ = keeps.routes ds.0 ds.1 t.remote.local_host t.remote.local_port w h in
        elim (Result-cases
          (parts.world.add_route ds.0 ds.1 t.remote.local_host t.remote.local_port w).1) [
            | inr (x, f) ↦ ground (arith, e, f, h₁)
            | inl (status, f) ↦ elim (Bool-cases (status == 200)) [
              | inl fine ↦ ground (arith, e, f, h₁, fine)
              | inr bad ↦ ground (arith, e, f, h₁, bad)
            ]
          ]
  ]

  route-safe :
      (r : Remote) (t : Tunnel) (w : W)
      → safe w ≡ true
      → safe (route_if_subdomain parts r t w).0 ≡ true
  route-safe r t w h =
      let w₁ = (start_caddy_downstream_proxy parts r t w).0 in
      let h₁ = caddy-safe r t w h in
      elim (Bool-cases (has_subdomain_tunnel r)) [
        | inr plain ↦ ground (arith, plain, h)
        | inl sub ↦ elim (Result-cases (start_caddy_downstream_proxy parts r t w).1) [
          | inl (u, e) ↦ ground (arith, sub, e, h₁)
          | inr (x, e) ↦ elim (Option-cases t.internal_tunnel_proxy) [
            | inl none_there ↦ ground (arith, sub, e, h₁, none_there)
            | inr (p, there) ↦ ground (arith, sub, e, h₁, there, keeps.stops p w₁ h₁)
          ]
        ]
      ]

  abbrev IsSafeAfter : Starting P W → Type 0
  IsSafeAfter s = safe s.outside ≡ true

  regular-safe :
      (r : Remote) (acl : Option TunnelAcl) (s : Starting P W)
      → IsGood r.local_port
      → IsSafeAfter s
      → IsSafeAfter (start_regular_tunnel parts r acl s).0
  unfolding start_regular_tunnel start
  regular-safe r acl s good h =
      let id = itoa (next_tunnel_number s.client) in
      elim (Result-cases (new_tunnel id r acl)) [
        | inr (x, e) ↦ ground (arith, e, h)
        | inl (t, e) ↦
            let h₁ =
              start-safe t.protocols t s.outside
                (subst (λ u. IsGood u.local_port) (sym (new_tunnel-remote id r acl t e)) good) h in
            elim (Result-cases (start_protocols parts.world t.protocols t s.outside).1) [
              | inl (u, f) ↦ ground (arith, e, f, h₁)
              | inr (x, f) ↦ ground (arith, e, f, h₁)
            ]
      ]

  proxied-safe :
      (r : Remote) (acl : Option TunnelAcl) (s : Starting P W)
      → IsGood r.local_port
      → ((port : ℕ)
          → (get_random_port parts.sets parts.connections r.protocol s.distributor).1 ≡ ok port
          → IsGood (itoa port))
      → IsSafeAfter s
      → IsSafeAfter (start_tunnel_with_proxy parts r acl s).0
  unfolding start_tunnel_with_proxy start
  proxied-safe r acl s good random h =
      let id = itoa (next_tunnel_number s.client) in
      elim (Result-cases
        (get_random_port parts.sets parts.connections r.protocol s.distributor).1) [
          | inr (x, e) ↦ ground (arith, e, h)
          | inl (port, e) ↦
              let inner = record r { local_host = local_host_ip; local_port = itoa port } in
              let proxy : Proxy = record { host = r.local_host; port = r.local_port; acl = acl } in
              elim (Result-cases (new_tunnel id inner (local_acl parts.net))) [
                | inr (x, f) ↦ ground (arith, e, f, h)
                | inl (t, f) ↦
                    let h₁ =
                      start-safe t.protocols t s.outside
                        (subst (λ u. IsGood u.local_port)
                          (sym (new_tunnel-remote id inner (local_acl parts.net) t f))
                          (random port e))
                        h in
                    let w₁ = (start_protocols parts.world t.protocols t s.outside).0 in
                    let h₂ = proxy-safe proxy t w₁ good h₁ in
                    elim (Result-cases (start_protocols parts.world t.protocols t s.outside).1) [
                      | inr (x, g) ↦ ground (arith, e, f, g, h₁)
                      | inl (u, g) ↦
                          elim (Result-cases (start_proxy_or_terminate parts proxy t w₁).1) [
                            | inl (v, k) ↦ ground (arith, e, f, g, k, h₂)
                            | inr (x, k) ↦ ground (arith, e, f, g, k, h₂)
                          ]
                    ]
              ]
        ]

  unlisted-safe :
      (r : Remote) (acl : Option TunnelAcl) (s : Starting P W)
      → IsGood r.local_port
      → ((port : ℕ)
          → (get_random_port parts.sets parts.connections r.protocol s.distributor).1 ≡ ok port
          → IsGood (itoa port))
      → IsSafeAfter s
      → IsSafeAfter (start_unlisted_tunnel parts r acl s).0
  unfolding start_unlisted_tunnel start_proxied_tunnel
  unlisted-safe r acl s good random h =
      let s₁ = (start_tunnel_with_proxy parts r acl s).0 in
      let h₁ = proxied-safe r acl s good random h in
      elim (Bool-cases (parts.tunnel_proxy_enabled && r.http_proxy)) [
        | inr regular ↦ ground (arith, regular, regular-safe r acl s good h)
        | inl proxied ↦ elim (Result-cases (start_tunnel_with_proxy parts r acl s).1) [
          | inr (x, e) ↦ ground (arith, proxied, e, h₁)
          | inl (t, e) ↦
              let h₂ = route-safe r t s₁.outside h₁ in
              elim (Result-cases (route_if_subdomain parts r t s₁.outside).1) [
                | inl (u, f) ↦ ground (arith, proxied, e, f, h₂)
                | inr (x, f) ↦ ground (arith, proxied, e, f, h₂)
              ]
        ]
      ]

  pub start_tunnel-safe :
      (r : Remote) (acl : Option TunnelAcl) (s : Starting P W)
      → IsGood r.local_port
      → ((port : ℕ)
          → (get_random_port parts.sets parts.connections r.protocol s.distributor).1 ≡ ok port
          → IsGood (itoa port))
      → safe s.outside ≡ true
      → safe (start_tunnel parts r acl s).0.outside ≡ true
  unfolding start_tunnel
  start_tunnel-safe r acl s good random h =
      let h₁ = unlisted-safe r acl s good random h in
      elim (Option-cases (find_tunnel_by_remote r s.client.tunnels)) [
        | inr (t, there) ↦ ground (arith, there, h)
        | inl e ↦ elim (Result-cases (start_unlisted_tunnel parts r acl s).1) [
          | inl (t, f) ↦ ground (arith, e, f, h₁)
          | inr (x, f) ↦ ground (arith, e, f, h₁)
        ]
      ]

  pub choose_local_port-outside :
      (r : Remote) (s : Starting P W) → (choose_local_port parts r s).0.outside ≡ s.outside
  unfolding choose_local_port
  choose_local_port-outside r s = ground arith
