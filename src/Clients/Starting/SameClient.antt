-- ===== src/Clients/Starting/SameClient.antt =====
-- server/clients/client_service.go: what starting tunnels leaves of a client.
use openrport.Prelude.{◌≡◌, inl, inr, refl, List, [], ◌∷◌, Option, nat_eq, arith}
use openrport.Prelude.Results.{Result-cases}
use openrport.Strings.{text_eq}
use openrport.Ports.{refresh}
use openrport.Remotes.{Remote}
use openrport.Tunnels.Acl.{TunnelAcl}
use openrport.Clients.Client.{Client, next_tunnel_number}
use openrport.Clients.Starting.{
  Starting, Parts, start_client_tunnels, start_regular_tunnel, start_tunnel_with_proxy,
  start_proxied_tunnel, start_unlisted_tunnel, start_tunnel, choose_local_port, start_client_tunnel,
  start_each, parse_optional_acl,
}

-- All but the client's tunnels and their count is as before.
abbrev pub SameClient : Client → Client → Type 0
SameClient c c' =
    c' ≡ record c { tunnels = c'.tunnels; tunnel_id_auto_increment = c'.tunnel_id_auto_increment }

module _ {P W : Type 0} (parts : Parts P W) where
  start_unlisted_tunnel-SameClient :
      (r : Remote) (acl : Option TunnelAcl) (s : Starting P W)
      → SameClient s.client ((start_unlisted_tunnel parts r acl s).0).client
  unfolding start_unlisted_tunnel start_proxied_tunnel start_tunnel_with_proxy start_regular_tunnel
      next_tunnel_number
  start_unlisted_tunnel-SameClient r acl s = ground arith

  start_tunnel-SameClient :
      (r : Remote) (acl : Option TunnelAcl) (s : Starting P W)
      → SameClient s.client ((start_tunnel parts r acl s).0).client
  unfolding start_tunnel
  start_tunnel-SameClient r acl s = ground (arith, start_unlisted_tunnel-SameClient r acl s)

  choose_local_port-SameClient :
      (r : Remote) (s : Starting P W) → ((choose_local_port parts r s).0).client ≡ s.client
  unfolding choose_local_port
  choose_local_port-SameClient r s = ground arith

  start_client_tunnel-SameClient :
      (r : Remote) (s : Starting P W)
      → SameClient s.client ((start_client_tunnel parts r s).0).client
  unfolding start_client_tunnel
  start_client_tunnel-SameClient r s =
      let s₁ = (choose_local_port parts r s).0 in
      elim (Result-cases ((choose_local_port parts r s).1)) [
        | inr (w, e) ↦ ground (arith, e, choose_local_port-SameClient r s)
        | inl (r', e) ↦ elim (Result-cases (parse_optional_acl parts.net r'.acl)) [
          | inr (w, f) ↦ ground (arith, e, f, choose_local_port-SameClient r s)
          | inl (acl, f) ↦
              ground
                (arith, e, f, choose_local_port-SameClient r s, start_tunnel-SameClient r' acl s₁)
        ]
      ]

  start_each-SameClient :
      (rs : List Remote) (s : Starting P W) → SameClient s.client ((start_each parts rs s).0).client
  unfolding start_each
  start_each-SameClient [] s = refl
  start_each-SameClient (r ∷ rs) s =
      let s₁ = (start_client_tunnel parts r s).0 in
      elim (Result-cases ((start_client_tunnel parts r s).1)) [
        | inr (w, e) ↦ ground (arith, e, start_client_tunnel-SameClient r s)
        | inl (t, e) ↦
            ground (arith, e, start_client_tunnel-SameClient r s, start_each-SameClient rs s₁)
      ]

  pub start_client_tunnels-SameClient :
      (rs : List Remote) (s : Starting P W)
      → SameClient s.client ((start_client_tunnels parts rs s).0).client
  unfolding start_client_tunnels
  start_client_tunnels-SameClient rs s =
      let d = (refresh parts.sets parts.connections s.distributor).0 in
      elim (Result-cases ((refresh parts.sets parts.connections s.distributor).1)) [
        | inr (w, e) ↦ ground (arith, e)
        | inl (u, e) ↦ ground (arith, e, start_each-SameClient rs (record s { distributor = d }))
      ]
