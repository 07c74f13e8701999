-- ===== src/Clients/Service/Connected.antt =====
-- server/clients/client_service.go, StartClient: which connections are refused, what an accepted one
-- leaves, and what a failed one leaves.
use openrport.Prelude.{
  ℕ, ◌≡◌, ◌⊎◌, ◌↔◌, ◌==◌, inl, inr, refl, sym, ap, ◌∙◌, subst, Bool, true, false, List, [], Option,
  none, some, lookup, lookup-insert, nat_eq, beq_refl, arith, Option-cases, Bool-cases, is_some,
}
use openrport.Prelude.Results.{Result, ok, err, Result-cases}
use openrport.Strings.{Text, text_eq}
use openrport.Remotes.{Remote}
use openrport.Tunnels.{Tunnel}
use openrport.Clients.Client.{Client, is_connected}
use openrport.Clients.Store.{ClientStore}
use openrport.Clients.Repository.{ClientRepository, get_by_id, get_active_by_id}
use openrport.Clients.Repository.Laws.{IsValid}
use openrport.Clients.Starting.{Parts, start_client_tunnels}
use openrport.Clients.Starting.SameClient.{SameClient, start_client_tunnels-SameClient}
use openrport.Clients.Service.{
  Service, ServiceError, already_connected, start_failed, new_client_from_conn_request,
  update_client_status, is_client_auth_id_in_use, put_if, put_client, current,
}
use openrport.Clients.Service.Connecting.{
  Attempt, Peer, remotes_to_start, save_client, starting_of, after_start, start_tunnels, finish,
  connect, admit, start_client,
}
use openrport.Clients.Service.Ending.Laws.{
  lookup-IsKeyed, lookup-update_client_status, save_client-lookup,
}

unchanged : (c : Client) → SameClient c c
unchanged c = refl

module _ {S P W : Type 0} (store : ClientStore S) (parts : Parts P W) where
  -- The client that the service goes on with: the new one, paused or not.
  current_lem :
      (held : Bool) (client : Client) (s : Service S P W)
      → (b : Bool) × (current held client (update_client_status (put_if held client s))
          ≡ record client { paused = b })
  current_lem false client s = (
    client.paused,
    elim (Option-cases (lookup client.id (update_client_status s).repo.client_state)) [
      | inl e ↦ ground (arith, e)
      | inr (d, e) ↦ ground (arith, e)
    ],
  )
  current_lem true client s =
      let (b, e) = lookup-update_client_status store parts client.id client (put_client client s) (
        ground (
          arith,
          beq_refl client.id,
          lookup-insert client.id client.id client s.repo.client_state,
        )) in
      (b, ground (arith, e))

  -- What an accepted connection leaves.
  abbrev Accepted : Client → Service S P W → Client → Type 0
  Accepted client s' c =
      (lookup client.id s'.repo.client_state ≡ some c)
      × (c.disconnected_at ≡ client.disconnected_at)
      × (c.session_id ≡ client.session_id)
      × (c.client_auth_id ≡ client.client_auth_id)

  saved-Accepted :
      (client c : Client) (s s' : Service S P W)
      → c.id ≡ client.id
      → c.disconnected_at ≡ client.disconnected_at
      → c.session_id ≡ client.session_id
      → c.client_auth_id ≡ client.client_auth_id
      → (save_client store parts c s).1 ≡ ok tt
      → s' ≡ (save_client store parts c s).0
      → Accepted client s' c
  saved-Accepted client c s s' id at session auth saved same = (
    ground
        (arith, id, same, beq_refl client.id, save_client-lookup store parts c client.id s saved),
    at,
    session,
    auth,
  )

  finish_lem :
      (s₀ s' : Service S P W) (c₀ c : Client) (started : Result ServiceError (List Tunnel))
      → finish store parts (s₀, c₀, started) ≡ (s', ok c)
      → (c ≡ c₀)
        × ((save_client store parts c₀ s₀).1 ≡ ok tt)
        × (s' ≡ (save_client store parts c₀ s₀).0)
  finish_lem s₀ s' c₀ c (err e) h = absurd (ground (arith, h))
  finish_lem s₀ s' c₀ c (ok ts) h = elim (Result-cases ((save_client store parts c₀ s₀).1)) [
    | inr (w, f) ↦ absurd (ground (arith, h, f))
    | inl (u, f) ↦ (ground (arith, h, f), f, ground (arith, h, f))
  ]

  finished-Accepted :
      (client c₀ c : Client) (s₀ s' : Service S P W) (b : Bool)
      (started : Result ServiceError (List Tunnel))
      → SameClient (record client { paused = b }) c₀
      → finish store parts (s₀, c₀, started) ≡ (s', ok c)
      → Accepted client s' c
  finished-Accepted client c₀ c s₀ s' b started same h =
      let (e, saved, after) = finish_lem s₀ s' c₀ c started h in
      subst (Accepted client s') (sym e) (
        saved-Accepted client c₀ s₀ s' (ap (λ d. d.id) same) (ap (λ d. d.disconnected_at) same)
          (ap (λ d. d.session_id) same) (ap (λ d. d.client_auth_id) same) saved after)

  connect-Accepted :
      (held : Bool) (remotes : List Remote) (client c : Client) (s s' : Service S P W)
      → connect store parts held remotes client s ≡ (s', ok c)
      → Accepted client s' c
  unfolding connect start_tunnels
  connect-Accepted held remotes client c s s' h =
      let s₁ = update_client_status (put_if held client s) in
      let (b, e) = current_lem held client s in
      let c₁ : Client = record client { paused = b } in
      let run = start_client_tunnels parts remotes (starting_of store parts c₁ s₁) in
      elim (Bool-cases b) [
        | inl on ↦
            finished-Accepted client c₁ c s₁ s' b (ok []) (unchanged c₁) (ground (arith, h, e, on))
        | inr off ↦
            finished-Accepted client (run.0).client c (after_start store parts held (run.0) s₁) s' b
              (elim (run.1) [ ok ts ↦ ok ts | err w ↦ err (start_failed w) ])
              (start_client_tunnels-SameClient parts remotes (starting_of store parts c₁ s₁))
              (ground (arith, h, e, off))
      ]

  remotes_lem :
      (peer : Peer) (a : Attempt) (c : Client)
      → is_connected c ≡ true
      → (remotes_to_start peer a (some c) ≡ err already_connected)
        ↔ ((a.req.session_id ≡ []) ⊎ ((a.req.session_id == c.session_id) ≡ false))
  unfolding remotes_to_start
  remotes_lem peer a c on = elim (Bool-cases (a.req.session_id == c.session_id)) [
    | inl same ↦ ground (arith, on, same)
    | inr other ↦ ground (arith, on, other)
  ]

  admit_lem :
      (peer : Peer) (a : Attempt) (c : Client) (host : Text) (s : Service S P W)
      → a.client_host ≡ some host
      → get_by_id a.now a.client_id s.repo ≡ some c
      → (admit store parts peer a s ≡ err already_connected)
        ↔ (remotes_to_start peer a (some c) ≡ err already_connected)
  unfolding admit
  admit_lem peer a c host s at found = elim (Result-cases (remotes_to_start peer a (some c))) [
    | inl (r, e) ↦ ground (arith, at, found, e)
    | inr (w, e) ↦ ground (arith, at, found, e)
  ]

  connect_lem :
      (held : Bool) (remotes : List Remote) (c : Client) (s : Service S P W)
      → (connect store parts held remotes c s).1 ≡ err already_connected
      → ⊥
  unfolding connect start_tunnels save_client
  connect_lem held remotes c s h = ground (arith, h)

  -- Where the address of a connection is readable and its id is that of a connected client, the
  -- connection is refused as already connected exactly if it names no session or another session than
  -- the client's; and nothing changes then.
  pub start_client_refused :
      (peer : Peer) (a : Attempt) (c : Client) (host : Text) (s : Service S P W)
      → a.client_host ≡ some host
      → get_by_id a.now a.client_id s.repo ≡ some c
      → is_connected c ≡ true
      → (start_client store parts peer a s ≡ (s, err already_connected))
        ↔ ((a.req.session_id ≡ []) ⊎ ((a.req.session_id == c.session_id) ≡ false))
  unfolding start_client
  start_client_refused peer a c host s at found on =
      elim (Result-cases (admit store parts peer a s)) [
        | inr (w, e) ↦
            ground (arith, e, remotes_lem peer a c on, admit_lem peer a c host s at found)
        | inl ((h, remotes), e) ↦ ground (
          arith,
          e,
          remotes_lem peer a c on,
          admit_lem peer a c host s at found,
          connect_lem (is_some (get_by_id a.now a.client_id s.repo)) remotes
              (new_client_from_conn_request (get_by_id a.now a.client_id s.repo) a.client_auth_id
                a.client_id a.req h)
              s,
        )
      ]

  found_id :
      (now : ℕ) (id : Text) (s : Service S P W) (c : Client)
      → IsValid s.repo
      → get_by_id now id s.repo ≡ some c
      → c.id ≡ id
  unfolding get_by_id
  found_id now id s c v h = lookup-IsKeyed id c s.repo.client_state v (ground (arith, h))

  pub new_client-id :
      (a : Attempt) (host : Text) (s : Service S P W)
      → IsValid s.repo
      → (new_client_from_conn_request
          (get_by_id a.now a.client_id s.repo)
          a.client_auth_id
          a.client_id
          a.req
          host).id
        ≡ a.client_id
  unfolding new_client_from_conn_request
  new_client-id a host s v = elim (Option-cases (get_by_id a.now a.client_id s.repo)) [
    | inl e ↦ ground (arith, e)
    | inr (c, e) ↦ ground (arith, e, found_id a.now a.client_id s c v e)
  ]

  pub new_client-connected :
      (existing : Option Client) (a : Attempt) (host : Text)
      → (new_client_from_conn_request existing a.client_auth_id a.client_id a.req
          host).disconnected_at
        ≡ none
  unfolding new_client_from_conn_request
  new_client-connected existing a host = refl

  new_client-session :
      (existing : Option Client) (a : Attempt) (host : Text)
      → (new_client_from_conn_request existing a.client_auth_id a.client_id a.req host).session_id
        ≡ a.req.session_id
  unfolding new_client_from_conn_request
  new_client-session existing a host = refl

  new_client-auth :
      (existing : Option Client) (a : Attempt) (host : Text)
      → (new_client_from_conn_request existing a.client_auth_id a.client_id a.req
          host).client_auth_id
        ≡ a.client_auth_id
  unfolding new_client_from_conn_request
  new_client-auth existing a host = refl

  admit-login :
      (peer : Peer) (a : Attempt) (s : Service S P W) (host : Text) (remotes : List Remote)
      → admit store parts peer a s ≡ ok (host, remotes)
      → (a.auth_multiuse_creds ≡ true)
        ⊎ (is_client_auth_id_in_use a.now a.client_auth_id a.client_id s ≡ false)
  unfolding admit
  admit-login peer a s host remotes h = elim (Bool-cases (a.auth_multiuse_creds)) [
    | inl shared ↦ inl shared
    | inr alone ↦
        elim (Bool-cases (is_client_auth_id_in_use a.now a.client_auth_id a.client_id s)) [
          | inr free ↦ inr free
          | inl used ↦ absurd (ground (arith, h, alone, used))
        ]
  ]

  pub shown_active :
      (id : Text) (c : Client) (r : ClientRepository S)
      → lookup id r.client_state ≡ some c
      → c.disconnected_at ≡ none
      → get_active_by_id id r ≡ some c
  unfolding get_active_by_id is_connected
  shown_active id c r h at = ground (arith, h, at)

  -- A connection that is accepted leaves its client connected under its id, with the session and the
  -- login of this connection. Unless logins may be shared, no other client used the login before.
  pub start_client_accepted :
      (peer : Peer) (a : Attempt) (c : Client) (s s' : Service S P W)
      → IsValid s.repo
      → start_client store parts peer a s ≡ (s', ok c)
      → (get_active_by_id a.client_id s'.repo ≡ some c)
        × (c.session_id ≡ a.req.session_id)
        × (c.client_auth_id ≡ a.client_auth_id)
        × ((a.auth_multiuse_creds ≡ true)
            ⊎ (is_client_auth_id_in_use a.now a.client_auth_id a.client_id s ≡ false))
  unfolding start_client
  start_client_accepted peer a c s s' v h = elim (Result-cases (admit store parts peer a s)) [
    | inr (w, e) ↦ absurd (ground (arith, h, e))
    | inl ((host, remotes), e) ↦
        let existing = get_by_id a.now a.client_id s.repo in
        let client : Client =
          new_client_from_conn_request existing a.client_auth_id a.client_id a.req host in
        let (found, at, session, auth) =
          connect-Accepted (is_some existing) remotes client c s s' (ground (arith, h, e)) in
        let id = new_client-id a host s v in
        (
          shown_active a.client_id c s'.repo
              (subst (λ (i : Text). lookup i s'.repo.client_state ≡ some c) id found)
              (at ∙ new_client-connected existing a host),
          session ∙ new_client-session existing a host,
          auth ∙ new_client-auth existing a host,
          admit-login peer a s host remotes e,
        )
  ]
