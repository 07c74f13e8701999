-- ===== src/Clients/Starting/Numbering.antt =====
-- server/clients/client_service.go: a client's tunnels have different ids, in the order of their
-- start, whatever of starting and ending them fails.
use openrport.Prelude.{
  ℕ, ◌+◌, ◌≡◌, ◌≤◌, ◌<◌, refl, sym, subst, inl, inr, ◌&&◌, List, [], ◌∷◌, ◌++◌, Option, arith,
  Option-cases, Bool-cases,
}
use openrport.Prelude.Results.{Result, ok, err, Result-cases}
use openrport.Strings.{Text, text_eq}
use openrport.Strings.Decimal.{itoa}
use openrport.Ports.{refresh}
use openrport.Remotes.{Remote}
use openrport.Tunnels.{Tunnel, new_tunnel}
use openrport.Tunnels.Acl.{TunnelAcl}
use openrport.Clients.Client.{Client, next_tunnel_number}
use openrport.Clients.Starting.{
  Starting, StartError, Parts, start_regular_tunnel, start_tunnel_with_proxy, start_proxied_tunnel,
  start_tunnel, start_unlisted_tunnel, find_tunnel_by_remote, choose_local_port,
  start_client_tunnel, start_each, start_client_tunnels, parse_optional_acl,
}

-- The ids of the tunnels are numbers that increase, above the first bound and up to the second.
abbrev pub Numbered : ℕ → ℕ → List Tunnel → Type 0
Numbered low high [] = low ≤ high
Numbered low high (t ∷ ts) = (k : ℕ) × (low < k) × (t.id ≡ itoa k) × Numbered k high ts

abbrev pub IsNumbered : Client → Type 0
IsNumbered c = Numbered 0 c.tunnel_id_auto_increment c.tunnels

Numbered-le :
    (low high more : ℕ) (ts : List Tunnel)
    → high ≤ more
    → Numbered low high ts
    → Numbered low more ts
Numbered-le low high more [] le h = omega (arith, le, h)
Numbered-le low high more (t ∷ ts) le (k, lt, e, rest) =
    (k, lt, e, Numbered-le k high more ts le rest)

Numbered-append :
    (low high k : ℕ) (ts : List Tunnel) (t : Tunnel)
    → high < k
    → t.id ≡ itoa k
    → Numbered low high ts
    → Numbered low k (ts ++ (t ∷ []))
Numbered-append low high k [] t lt e h = (k, omega (arith, lt, h), e, omega arith)
Numbered-append low high k (u ∷ ts) t lt e (j, l, f, rest) =
    (j, l, f, Numbered-append j high k ts t lt e rest)

new_tunnel-id :
    (id : Text) (remote : Remote) (acl : Option TunnelAcl) (t : Tunnel)
    → new_tunnel id remote acl ≡ ok t
    → t.id ≡ id
unfolding new_tunnel
new_tunnel-id id remote acl t h = ground (arith, h)

-- What starting one tunnel does to a client: its list is as it was, and the tunnel's id is new.
record Issued {P W : Type 0} (s s' : Starting P W) (r : Result StartError Tunnel) : Type 0 where
  same_tunnels : s'.client.tunnels ≡ s.client.tunnels
  no_less : s.client.tunnel_id_auto_increment ≤ s'.client.tunnel_id_auto_increment
  new_id :
      (t : Tunnel)
      → r ≡ ok t
      → (s.client.tunnel_id_auto_increment < s'.client.tunnel_id_auto_increment)
        × (t.id ≡ itoa s'.client.tunnel_id_auto_increment)

module _ {P W : Type 0} (parts : Parts P W) where
  start_regular_tunnel-Issued :
      (remote : Remote) (acl : Option TunnelAcl) (s : Starting P W)
      → Issued s
          ((start_regular_tunnel parts remote acl s).0)
          ((start_regular_tunnel parts remote acl s).1)
  unfolding start_regular_tunnel next_tunnel_number
  start_regular_tunnel-Issued remote acl s = record {
    same_tunnels = ground arith;
    no_less = ground arith;
    new_id = λ t h.
        ground
          (arith, h, new_tunnel-id (itoa (s.client.tunnel_id_auto_increment + 1)) remote acl t);
  }

  start_tunnel_with_proxy-Issued :
      (remote : Remote) (acl : Option TunnelAcl) (s : Starting P W)
      → Issued s
          ((start_tunnel_with_proxy parts remote acl s).0)
          ((start_tunnel_with_proxy parts remote acl s).1)
  unfolding start_tunnel_with_proxy next_tunnel_number new_tunnel
  start_tunnel_with_proxy-Issued remote acl s = record {
    same_tunnels = ground arith;
    no_less = ground arith;
    new_id = λ t h. ground (arith, h);
  }

  start_proxied_tunnel-Issued :
      (remote : Remote) (acl : Option TunnelAcl) (s : Starting P W)
      → Issued s
          ((start_proxied_tunnel parts remote acl s).0)
          ((start_proxied_tunnel parts remote acl s).1)
  unfolding start_proxied_tunnel
  start_proxied_tunnel-Issued remote acl s =
      let i = start_tunnel_with_proxy-Issued remote acl s in
      record {
        same_tunnels = ground (arith, i.same_tunnels);
        no_less = ground (arith, i.no_less);
        new_id = λ t h. ground (arith, h, i.new_id t);
      }

  start_unlisted_tunnel-Issued :
      (remote : Remote) (acl : Option TunnelAcl) (s : Starting P W)
      → Issued s
          ((start_unlisted_tunnel parts remote acl s).0)
          ((start_unlisted_tunnel parts remote acl s).1)
  unfolding start_unlisted_tunnel
  start_unlisted_tunnel-Issued remote acl s =
      elim (Bool-cases (parts.tunnel_proxy_enabled && remote.http_proxy)) [
        | inl proxied ↦ rw proxied (start_proxied_tunnel-Issued remote acl s)
        | inr regular ↦ rw regular (start_regular_tunnel-Issued remote acl s)
      ]

  appended-IsNumbered :
      (s s' : Starting P W) (t : Tunnel)
      → Issued s s' (ok t)
      → IsNumbered s.client
      → Numbered 0 s'.client.tunnel_id_auto_increment (s'.client.tunnels ++ (t ∷ []))
  appended-IsNumbered s s' t i v = rw i.same_tunnels (
      Numbered-append 0 s.client.tunnel_id_auto_increment s'.client.tunnel_id_auto_increment
        s.client.tunnels t ((i.new_id t refl).0) ((i.new_id t refl).1) v)

  kept-IsNumbered :
      (s s' : Starting P W) (r : Result StartError Tunnel)
      → Issued s s' r
      → IsNumbered s.client
      → IsNumbered s'.client
  kept-IsNumbered s s' r i v = rw i.same_tunnels (
      Numbered-le 0 s.client.tunnel_id_auto_increment s'.client.tunnel_id_auto_increment
        s.client.tunnels i.no_less v)

  start_tunnel-IsNumbered :
      (remote : Remote) (acl : Option TunnelAcl) (s : Starting P W)
      → IsNumbered s.client
      → IsNumbered ((start_tunnel parts remote acl s).0).client
  unfolding start_tunnel
  start_tunnel-IsNumbered remote acl s v =
      elim (Option-cases (find_tunnel_by_remote remote s.client.tunnels)) [
        | inr (t, e) ↦
            subst IsNumbered {x = s.client} {y = ((start_tunnel parts remote acl s).0).client}
              (ground (arith, e)) v
        | inl e ↦
            let i = start_unlisted_tunnel-Issued remote acl s in
            let s' = (start_unlisted_tunnel parts remote acl s).0 in
            elim (Result-cases ((start_unlisted_tunnel parts remote acl s).1)) [
              | inl (t, f) ↦
                  subst IsNumbered
                    {x = record s'.client { tunnels = s'.client.tunnels ++ (t ∷ []) }}
                    {y = ((start_tunnel parts remote acl s).0).client} (ground (arith, e, f))
                    (appended-IsNumbered s s' t (subst (Issued s s') f i) v)
              | inr (w, f) ↦
                  subst IsNumbered {x = s'.client}
                    {y = ((start_tunnel parts remote acl s).0).client} (ground (arith, e, f))
                    (kept-IsNumbered s s' (err w) (subst (Issued s s') f i) v)
            ]
      ]

  choose_local_port-client :
      (remote : Remote) (s : Starting P W)
      → ((choose_local_port parts remote s).0).client ≡ s.client
  unfolding choose_local_port
  choose_local_port-client remote s = ground arith

  start_client_tunnel-IsNumbered :
      (remote : Remote) (s : Starting P W)
      → IsNumbered s.client
      → IsNumbered ((start_client_tunnel parts remote s).0).client
  unfolding start_client_tunnel
  start_client_tunnel-IsNumbered remote s v =
      let chosen = (choose_local_port parts remote s).0 in
      elim (Result-cases ((choose_local_port parts remote s).1)) [
        | inl (r, e) ↦ elim (Result-cases (parse_optional_acl parts.net r.acl)) [
          | inl (acl, f) ↦
              subst IsNumbered {x = ((start_tunnel parts r acl chosen).0).client}
                {y = ((start_client_tunnel parts remote s).0).client} (ground (arith, e, f))
                (start_tunnel-IsNumbered r acl chosen
                  (subst IsNumbered (sym (choose_local_port-client remote s)) v))
          | inr (w, f) ↦
              subst IsNumbered {x = s.client} {y = ((start_client_tunnel parts remote s).0).client}
                (ground (arith, e, f, choose_local_port-client remote s)) v
        ]
        | inr (w, e) ↦
            subst IsNumbered {x = s.client} {y = ((start_client_tunnel parts remote s).0).client}
              (ground (arith, e, choose_local_port-client remote s)) v
      ]

  start_each-IsNumbered :
      (remotes : List Remote) (s : Starting P W)
      → IsNumbered s.client
      → IsNumbered ((start_each parts remotes s).0).client
  unfolding start_each
  start_each-IsNumbered [] s v = v
  start_each-IsNumbered (r ∷ rs) s v =
      let s' = (start_client_tunnel parts r s).0 in
      let v' = start_client_tunnel-IsNumbered r s v in
      elim (Result-cases ((start_client_tunnel parts r s).1)) [
        | inl (t, e) ↦
            subst IsNumbered {x = ((start_each parts rs s').0).client}
              {y = ((start_each parts (r ∷ rs) s).0).client} (ground (arith, e))
              (start_each-IsNumbered rs s' v')
        | inr (w, e) ↦
            subst IsNumbered {x = s'.client} {y = ((start_each parts (r ∷ rs) s).0).client}
              (ground (arith, e)) v'
      ]

  -- Whatever fails while a client's tunnels are started, the ids of all the tunnels that the client
  -- has afterwards are different: they are the numbers of their start, in this order.
  pub start_client_tunnels-IsNumbered :
      (remotes : List Remote) (s : Starting P W)
      → IsNumbered s.client
      → IsNumbered ((start_client_tunnels parts remotes s).0).client
  unfolding start_client_tunnels
  start_client_tunnels-IsNumbered remotes s v =
      let (d, refreshed) = refresh parts.sets parts.connections s.distributor in
      elim (Result-cases ((refresh parts.sets parts.connections s.distributor).1)) [
        | inl (u, e) ↦
            subst IsNumbered
              {x = ((start_each parts remotes (record s { distributor = d })).0).client}
              {y = ((start_client_tunnels parts remotes s).0).client} (ground (arith, e))
              (start_each-IsNumbered remotes (record s { distributor = d }) v)
        | inr (w, e) ↦
            subst IsNumbered {x = s.client} {y = ((start_client_tunnels parts remotes s).0).client}
              (ground (arith, e)) v
      ]
