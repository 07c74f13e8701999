-- ===== src/Clients/Starting/Sockets.antt =====
-- server/clients/client_service.go, startClientTunnels: the ports on which something is made to listen,
-- a protocol of a tunnel or a proxy.
use openrport.Prelude.{
  ℕ, ◌≡◌, refl, ◌∙◌, ap, sym, subst, inl, inr, Bool, true, false, List, [], ◌∷◌, none, some, all,
  arith, length,
}
use openrport.Prelude.Int.{pos, negsuc}
use openrport.Prelude.Results.{Result, ok, err, Result-cases}
use openrport.Strings.{Text}
use openrport.Strings.Decimal.{itoa, atoi}
use openrport.Ports.{PortDistributor, get_random_port, refresh}
use openrport.Ports.Sets.{Mapset, IsMapset}
use openrport.Remotes.{Remote}
use openrport.Tunnels.{Tunnel, World}
use openrport.Clients.Starting.{
  Starting, Parts, StartError, start_client_tunnel, choose_local_port, start_tunnel, start_each,
  start_client_tunnels, parse_optional_acl,
}
use openrport.Clients.Starting.LocalPorts.{
  AllAllowed, IsAllowedText, IsSafe, Kept-IsSafe, random_port-IsAllowedText,
}
use openrport.Clients.Starting.Listening.{choose_local_port-Chosen, start_client_tunnel-Started}
use openrport.Clients.Starting.AllowedPorts.{start_client_tunnels-listed, refresh-IsSafe}
use openrport.Clients.Starting.Opened.{Keeps, start_tunnel-safe, choose_local_port-outside}

moved :
    {P : Type 0} (sets : Mapset P) (d d' : PortDistributor P) (port : Text)
    → d'.allowed_ports ≡ d.allowed_ports
    → IsAllowedText sets d port
    → IsAllowedText sets d' port
moved sets d d' port e (n, a, c) = (n, a, subst (λ p. sets.contains p n ≡ true) (sym e) c)

module _ {P W : Type 0} (parts : Parts P W) (law : IsMapset parts.sets) (d : PortDistributor P)
    (safe : W → Bool) (keeps : Keeps parts.world (IsAllowedText parts.sets d) safe) where
  random_port-good :
      (protocol : Text) (s : Starting P W)
      → IsSafe parts law s
      → s.distributor.allowed_ports ≡ d.allowed_ports
      → (port : ℕ)
      → (get_random_port parts.sets parts.connections protocol s.distributor).1 ≡ ok port
      → IsAllowedText parts.sets d (itoa port)
  random_port-good protocol s v same port got =
      let d' = (get_random_port parts.sets parts.connections protocol s.distributor).0 in
      let (allowed, pools, same') =
        random_port-IsAllowedText parts law protocol s.distributor d' port v.pools v.bounded
          (ap (λ x. (d', x)) got) in
      moved parts.sets d' d (itoa port) (sym (same' ∙ same)) allowed

  tunnel-safe :
      (r : Remote) (s : Starting P W)
      → IsSafe parts law s
      → s.distributor.allowed_ports ≡ d.allowed_ports
      → safe s.outside ≡ true
      → safe (start_client_tunnel parts r s).0.outside ≡ true
  unfolding start_client_tunnel
  tunnel-safe r s v same h =
      let s₁ = (choose_local_port parts r s).0 in
      let out = choose_local_port-outside parts (IsAllowedText parts.sets d) safe keeps r s in
      elim (Result-cases (choose_local_port parts r s).1) [
        | inr (x, e) ↦ ground (arith, e, out, h)
        | inl (r', e) ↦ elim (Result-cases (parse_optional_acl parts.net r'.acl)) [
          | inr (x, f) ↦ ground (arith, e, f, out, h)
          | inl (acl, f) ↦
              let (allowed, k) =
                choose_local_port-Chosen parts law r r' s s₁ v (ground (arith, e)) in
              let v₁ = Kept-IsSafe parts law s s₁ v k in
              let same₁ : s₁.distributor.allowed_ports ≡ d.allowed_ports = k.same_allowed ∙ same in
              let h₁ =
                start_tunnel-safe parts (IsAllowedText parts.sets d) safe keeps r' acl s₁
                  (moved parts.sets s₁.distributor d r'.local_port (sym same₁) allowed)
                  (λ port got. random_port-good r'.protocol s₁ v₁ same₁ port got)
                  (ap safe out ∙ h) in
              elim (Result-cases (start_tunnel parts r' acl s₁).1) [
                | inl (t, g) ↦ ground (arith, e, f, g, h₁)
                | inr (x, g) ↦ ground (arith, e, f, g, h₁)
              ]
        ]
      ]

  each-safe :
      (rs : List Remote) (s : Starting P W)
      → IsSafe parts law s
      → s.distributor.allowed_ports ≡ d.allowed_ports
      → safe s.outside ≡ true
      → safe (start_each parts rs s).0.outside ≡ true
  unfolding start_each
  each-safe [] s v same h = h
  each-safe (r ∷ rs) s v same h =
      let s₁ = (start_client_tunnel parts r s).0 in
      let h₁ = tunnel-safe r s v same h in
      elim (Result-cases (start_client_tunnel parts r s).1) [
        | inr (x, e) ↦ ground (arith, e, h₁)
        | inl (t, e) ↦
            let (v₁, a, same₁) =
              start_client_tunnel-Started parts law r s s₁ t v (ground (arith, e)) in
            let h₂ = each-safe rs s₁ v₁ (same₁ ∙ same) h₁ in
            elim (Result-cases (start_each parts rs s₁).1) [
              | inl (ts, f) ↦ ground (arith, e, f, h₂)
              | inr (x, f) ↦ ground (arith, e, f, h₂)
            ]
      ]

  all-safe :
      (rs : List Remote) (s : Starting P W)
      → IsSafe parts law s
      → s.distributor.allowed_ports ≡ d.allowed_ports
      → safe s.outside ≡ true
      → safe (start_client_tunnels parts rs s).0.outside ≡ true
  unfolding start_client_tunnels
  all-safe rs s v same h =
      let s₁ = record s { distributor = (refresh parts.sets parts.connections s.distributor).0 } in
      let (v₁, same₁) = refresh-IsSafe parts law s v in
      elim (Result-cases (refresh parts.sets parts.connections s.distributor).1) [
        | inr (x, e) ↦ ground (arith, e, h)
        | inl (u, e) ↦ ground (arith, e, each-safe rs s₁ v₁ (same₁ ∙ same) h)
      ]

-- A world that also notes each port on which something is to listen.
abbrev pub noting : {W : Type 0} → World W → World (W × List Text)
noting world = record {
  listen =
      λ p t (w, ports). let (w', r) = world.listen p t w in ((w', t.remote.local_port ∷ ports), r);
  close = λ p t force (w, ports). let (w', r) = world.close p t force w in ((w', ports), r);
  start_proxy = λ p (w, ports). let (w', r) = world.start_proxy p w in ((w', p.port ∷ ports), r);
  stop_proxy = λ p (w, ports). let (w', r) = world.stop_proxy p w in ((w', ports), r);
  add_route =
      λ a b host port (w, ports). let (w', r) = world.add_route a b host port w in ((w', ports), r);
  delete_route = λ a (w, ports). let (w', r) = world.delete_route a w in ((w', ports), r);
}

abbrev pub noted : {P W : Type 0} → Parts P W → Parts P (W × List Text)
noted parts = record {
  sets = parts.sets;
  connections = parts.connections;
  world = noting parts.world;
  net = parts.net;
  hostname = parts.hostname;
  tunnel_proxy_enabled = parts.tunnel_proxy_enabled;
}

abbrev pub is_allowed_text : {P : Type 0} → Mapset P → PortDistributor P → Text → Bool
is_allowed_text sets d port = elim (atoi port) [
  | none ↦ false
  | some (pos n) ↦ sets.contains d.allowed_ports n
  | some (negsuc n) ↦ false
]

abbrev pub all_allowed : {P : Type 0} → Mapset P → PortDistributor P → List Text → Bool
all_allowed sets d ports = all (is_allowed_text sets d) ports

module _ {P W : Type 0} (parts : Parts P W) (law : IsMapset parts.sets) where
  noting-Keeps :
      (d : PortDistributor P)
      → Keeps
          (noting parts.world)
          (IsAllowedText parts.sets d)
          (λ (w, ports). all_allowed parts.sets d ports)
  noting-Keeps d = record {
    listens = λ p t (w, ports) (n, a, c) h. ground (arith, a, c, h);
    starts = λ p (w, ports) (n, a, c) h. ground (arith, a, c, h);
    closes = λ p t force (w, ports) h. h;
    stops = λ p (w, ports) h. h;
    routes = λ a b host port (w, ports) h. h;
  }

  -- What a start that succeeds yields.
  abbrev pub Outcome :
      List Remote → Starting P (W × List Text) → Result StartError (List Tunnel) → Type 0
  Outcome remotes s' (err e) = Unit
  Outcome remotes s' (ok ts) =
      IsSafe (noted parts) law s'
      × AllAllowed parts.sets s'.distributor ts
      × (length ts ≡ length remotes)

  outcome :
      (remotes : List Remote) (s s' : Starting P (W × List Text))
      (r : Result StartError (List Tunnel))
      → IsSafe (noted parts) law s
      → start_client_tunnels (noted parts) remotes s ≡ (s', r)
      → Outcome remotes s' r
  outcome remotes s s' (err e) v h = tt
  outcome remotes s s' (ok ts) v h =
      start_client_tunnels-listed (noted parts) law remotes s s' ts v h

  -- Where the pools hold allowed ports only, of 64 bits, the client's tunnels have allowed local
  -- ports, and what was made to listen before listens on such: whatever starting tunnels makes listen,
  -- the protocols of a tunnel, those of a tunnel behind a proxy, or the proxy, listens on an allowed
  -- port, also if the start fails. If it succeeds, it yields one tunnel for each remote, and these and
  -- all tunnels of the client have allowed local ports, and the pools hold allowed ports still.
  pub start_client_tunnels_allowed :
      (remotes : List Remote) (s s' : Starting P (W × List Text))
      (r : Result StartError (List Tunnel))
      → IsSafe (noted parts) law s
      → all_allowed parts.sets s.distributor s.outside.1 ≡ true
      → start_client_tunnels (noted parts) remotes s ≡ (s', r)
      → (all_allowed parts.sets s.distributor s'.outside.1 ≡ true) × Outcome remotes s' r
  start_client_tunnels_allowed remotes s s' r v h done = (
    ap
          (λ (w : Starting P (W × List Text) × Result StartError (List Tunnel)).
            all_allowed parts.sets s.distributor w.0.outside.1)
          (sym done)
        ∙ all-safe (noted parts) law s.distributor
            (λ (w, ports). all_allowed parts.sets s.distributor ports) (noting-Keeps s.distributor)
            remotes s v refl h,
    outcome remotes s s' r v done,
  )
