-- ===== src/Clients/Starting/AllowedPorts.antt =====
-- server/clients/client_service.go, startClientTunnels: where the tunnels it starts listen.
use openrport.Prelude.{◌≡◌, refl, ◌∙◌, subst, inl, inr, List, [], ◌∷◌, arith, length}
use openrport.Prelude.Results.{ok, Result-cases}
use openrport.Strings.{text_eq}
use openrport.Ports.{PortDistributor, refresh, refresh_protocol, protocol_tcp, protocol_udp}
use openrport.Ports.Sets.{IsMapset}
use openrport.Ports.Taking.{HasAllowedPools}
use openrport.Ports.Distribution.{refresh_protocol-HasAllowedPools}
use openrport.Remotes.{Remote}
use openrport.Tunnels.{Tunnel}
use openrport.Clients.Starting.{
  Starting, Parts, start_client_tunnel, start_each, start_client_tunnels,
}
use openrport.Clients.Starting.LocalPorts.{
  AllAllowed, IsSafe, Kept-IsSafe, refresh_protocol-allowed_ports, AllAllowed-same,
}
use openrport.Clients.Starting.Listening.{start_client_tunnel-Started}

module _ {P W : Type 0} (parts : Parts P W) (law : IsMapset parts.sets) where
  abbrev AllStarted : Starting P W → Starting P W → List Remote → List Tunnel → Type 0
  AllStarted s s' remotes ts =
      IsSafe parts law s'
      × AllAllowed parts.sets s'.distributor ts
      × (length ts ≡ length remotes)
      × (s'.distributor.allowed_ports ≡ s.distributor.allowed_ports)

  start_each-AllStarted :
      (remotes : List Remote) (s s' : Starting P W) (ts : List Tunnel)
      → IsSafe parts law s
      → start_each parts remotes s ≡ (s', ok ts)
      → AllStarted s s' remotes ts
  unfolding start_each
  start_each-AllStarted [] s s' ts safe h =
      subst (λ (w : Starting P W × List Tunnel). AllStarted s (w.0) [] (w.1)) {x = (s, [])}
        {y = (s', ts)} (ground (arith, h)) (safe, tt, refl, refl)
  start_each-AllStarted (r ∷ rs) s s' ts safe h =
      elim (Result-cases ((start_client_tunnel parts r s).1)) [
        | inr (w, e) ↦ absurd (ground (arith, h, e))
        | inl (t, e) ↦
            let s₁ = (start_client_tunnel parts r s).0 in
            elim (Result-cases ((start_each parts rs s₁).1)) [
              | inr (w, f) ↦ absurd (ground (arith, h, e, f))
              | inl (us, f) ↦
                  let (v, a, same) =
                    start_client_tunnel-Started parts law r s s₁ t safe (ground (arith, e)) in
                  let s₂ = (start_each parts rs s₁).0 in
                  let (v', all, len, same') =
                    start_each-AllStarted rs s₁ s₂ us v (ground (arith, f)) in
                  subst (λ (w : Starting P W × List Tunnel). AllStarted s (w.0) (r ∷ rs) (w.1))
                    {x = (s₂, t ∷ us)} {y = (s', ts)} (ground (arith, h, e, f))
                    (
                      v',
                      (
                        (AllAllowed-same parts.sets s₁.distributor s₂.distributor (t ∷ []) same'
                            (a, tt)).0,
                        all,
                      ),
                      ground (arith, len),
                      same' ∙ same,
                    )
            ]
      ]

  refresh-pools :
      (d : PortDistributor P)
      → HasAllowedPools parts.sets law parts.connections d
      → HasAllowedPools parts.sets law parts.connections
          ((refresh parts.sets parts.connections d).0)
        × (((refresh parts.sets parts.connections d).0).allowed_ports ≡ d.allowed_ports)
  unfolding refresh
  refresh-pools d pools =
      let d₁ = (refresh_protocol parts.sets parts.connections protocol_tcp d).0 in
      let d₂ = (refresh_protocol parts.sets parts.connections protocol_udp d₁).0 in
      let p₁ =
        refresh_protocol-HasAllowedPools parts.sets law parts.connections protocol_tcp d pools in
      let p₂ =
        refresh_protocol-HasAllowedPools parts.sets law parts.connections protocol_udp d₁ p₁ in
      let same₁ = refresh_protocol-allowed_ports parts.sets parts.connections protocol_tcp d in
      let same₂ = refresh_protocol-allowed_ports parts.sets parts.connections protocol_udp d₁ in
      elim (Result-cases ((refresh_protocol parts.sets parts.connections protocol_tcp d).1)) [
        | inl (u, e) ↦
            subst
              (λ (x : PortDistributor P).
                HasAllowedPools parts.sets law parts.connections x
                × (x.allowed_ports ≡ d.allowed_ports))
              {x = d₂} {y = (refresh parts.sets parts.connections d).0} (ground (arith, e))
              (p₂, same₂ ∙ same₁)
        | inr (w, e) ↦
            subst
              (λ (x : PortDistributor P).
                HasAllowedPools parts.sets law parts.connections x
                × (x.allowed_ports ≡ d.allowed_ports))
              {x = d₁} {y = (refresh parts.sets parts.connections d).0} (ground (arith, e))
              (p₁, same₁)
      ]

  pub refresh-IsSafe :
      (s : Starting P W)
      → IsSafe parts law s
      → IsSafe parts law
          (record s { distributor = (refresh parts.sets parts.connections s.distributor).0 })
        × ((refresh parts.sets parts.connections s.distributor).0.allowed_ports
            ≡ s.distributor.allowed_ports)
  refresh-IsSafe s safe =
      let d = (refresh parts.sets parts.connections s.distributor).0 in
      let (pools, same) = refresh-pools s.distributor safe.pools in
      (
        Kept-IsSafe parts law s (record s { distributor = d }) safe
            (record { same_allowed = same; same_tunnels = refl; pools = pools }),
        same,
      )

  -- The tunnels that are started successfully, one for each remote, and all that the client has then,
  -- have allowed local ports.
  pub start_client_tunnels-listed :
      (remotes : List Remote) (s s' : Starting P W) (ts : List Tunnel)
      → IsSafe parts law s
      → start_client_tunnels parts remotes s ≡ (s', ok ts)
      → IsSafe parts law s' × AllAllowed parts.sets s'.distributor ts × (length ts ≡ length remotes)
  unfolding start_client_tunnels
  start_client_tunnels-listed remotes s s' ts safe h =
      let s₁ = record s { distributor = (refresh parts.sets parts.connections s.distributor).0 } in
      let (safe₁, same) = refresh-IsSafe s safe in
      elim (Result-cases ((refresh parts.sets parts.connections s.distributor).1)) [
        | inl (u, e) ↦
            let (v, all, len, _) =
              start_each-AllStarted remotes s₁ s' ts safe₁ (ground (arith, h, e)) in
            (v, all, len)
        | inr (w, e) ↦ absurd (ground (arith, h, e))
      ]
