-- ===== src/Clients/Service/Ending/Laws.antt =====
-- server/clients/client_service.go: what is left of a client and of a tunnel that has ended.
use openrport.Prelude.{
  ℕ, ◌+◌, ◌≡◌, ◌⊎◌, inl, inr, Bool, true, false, not, [], ◌∷◌, some, if◌then◌else◌, lookup, insert,
  delete, lookup-insert, ◌==◌, nat_eq, ltb, beq_refl, arith, Option-cases, Bool-cases, List, map,
  is_some, ◌&&◌,
}
use openrport.Prelude.Results.{ok, err, Result-cases}
use openrport.Strings.{Text, text_eq}
use openrport.Tunnels.{Tunnel, TunnelError, terminate}
use openrport.Tunnels.Acl.{parse_tunnel_acl}
use openrport.Clients.Client.{Client, is_connected, remove_tunnel_by_id}
use openrport.Clients.Store.{ClientStore, StoreError, failed_to_delete}
use openrport.Clients.Repository.{Clients, get_by_id, delete_client, save}
use openrport.Clients.Repository.Laws.{IsValid, IsKeyed}
use openrport.Clients.Starting.{Parts, tunnel_error, find_tunnel}
use openrport.Clients.Service.{
  Service, ServiceError, client_active, start_failed, store_failed, get_existing_client_by_id,
  update_client_status, set_paused,
}
use openrport.Clients.Service.Connecting.{save_client}
use openrport.Clients.Service.Ending.{
  delete_from_repo, delete_offline, forget_tunnel, terminate_tunnel, set_tunnel_acl,
}

pub lookup-IsKeyed :
    (id : Text) (c : Client) (m : Clients) → IsKeyed m → lookup id m ≡ some c → c.id ≡ id
unfolding lookup
lookup-IsKeyed id c [] v h = absurd (ground (arith, h))
lookup-IsKeyed id c ((j, d) ∷ m) v h =
    ground (arith, h, v, text_eq.equal_iff j id, lookup-IsKeyed id c m (v.2))

pub lookup-set_paused :
    (max i : ℕ) (id : Text) (c : Client) (m : Clients)
    → lookup id m ≡ some c
    → (b : Bool) × (lookup id (set_paused max i m) ≡ some (record c { paused = b }))
unfolding lookup set_paused
lookup-set_paused max i id c [] h = absurd (ground (arith, h))
lookup-set_paused max i id c ((j, d) ∷ m) h = elim (Bool-cases (j == id)) [
  | inl here ↦ elim (Bool-cases (is_connected d)) [
    | inl on ↦ (not (ltb i max), ground (arith, h, here, on))
    | inr off ↦ (d.paused, ground (arith, h, here, off))
  ]
  | inr there ↦ elim (Bool-cases (is_connected d)) [
    | inl on ↦
        let (b, e) = lookup-set_paused max (i + 1) id c m (ground (arith, h, there)) in
        (b, ground (arith, there, on, e))
    | inr off ↦
        let (b, e) = lookup-set_paused max i id c m (ground (arith, h, there)) in
        (b, ground (arith, there, off, e))
  ]
]

module _ {S P W : Type 0} (store : ClientStore S) (parts : Parts P W) where
  pub lookup-update_client_status :
      (id : Text) (c : Client) (s : Service S P W)
      → lookup id s.repo.client_state ≡ some c
      → (b : Bool) × (lookup id (update_client_status s).repo.client_state
          ≡ some (record c { paused = b }))
  unfolding update_client_status
  lookup-update_client_status id c s h = elim (Option-cases s.max_clients) [
    | inl e ↦ (c.paused, ground (arith, e, h))
    | inr (max, e) ↦
        let (b, f) = lookup-set_paused max 0 id c s.repo.client_state h in (b, ground (arith, e, f))
  ]

  -- A save puts the client into the map, or fails and leaves the map.
  pub save_client-lookup :
      (c : Client) (id : Text) (s : Service S P W)
      → ((save_client store parts c s).1 ≡ ok tt)
      → lookup id (save_client store parts c s).0.repo.client_state
        ≡ (if c.id == id then some c else lookup id s.repo.client_state)
  unfolding save_client save
  save_client-lookup c id s h = ground (arith, h, lookup-insert c.id id c s.repo.client_state)

  forget_tunnel-lookup :
      (c : Client) (t : Tunnel) (id : Text) (s : Service S P W)
      → lookup id (forget_tunnel store parts c t s).repo.client_state
        ≡ (if c.id == id then some (remove_tunnel_by_id t.id c) else lookup id s.repo.client_state)
  unfolding forget_tunnel save_client save remove_tunnel_by_id
  forget_tunnel-lookup c t id s =
      let c' = remove_tunnel_by_id t.id c in
      ground (
        arith,
        lookup-insert c.id id c' s.repo.client_state,
        lookup-insert c.id id c' (insert c.id c' s.repo.client_state),
      )

  -- Closing a tunnel succeeds exactly if the tunnel can be terminated. Then the client has no tunnel
  -- of that id any more, in memory even if the database refuses the change; other clients are as they
  -- were. If it cannot, no client changes.
  pub terminate_tunnel_lem :
      (c : Client) (t : Tunnel) (force : Bool) (id : Text) (s : Service S P W)
      → (((terminate_tunnel store parts c t force s).1 ≡ ok tt)
          × ((terminate parts.world t force s.outside).1 ≡ ok tt)
          × (lookup id (terminate_tunnel store parts c t force s).0.repo.client_state ≡ (
              if c.id == id
              then some (remove_tunnel_by_id t.id c)
              else lookup id s.repo.client_state)))
        ⊎ ((e : TunnelError) × ((terminate_tunnel store parts c t force s).1
              ≡ err (start_failed (tunnel_error e)))
            × ((terminate parts.world t force s.outside).1 ≡ err e)
            × ((terminate_tunnel store parts c t force s).0.repo ≡ s.repo))
  unfolding terminate_tunnel
  terminate_tunnel_lem c t force id s =
      elim (Result-cases ((terminate parts.world t force s.outside).1)) [
        | inl (u, e) ↦ inl (
          ground (arith, e),
          e,
          ground (
            arith,
            e,
            forget_tunnel-lookup c t id
                (record s { outside = (terminate parts.world t force s.outside).0 }),
          ),
        )
        | inr (w, e) ↦ inr (w, ground (arith, e), e, ground (arith, e))
      ]

  find_tunnel-replace :
      (id : Text) (new : Tunnel) (ts : List Tunnel)
      → find_tunnel id (map (λ u. if u.id == new.id then new else u) ts)
        ≡ (if new.id == id && is_some (find_tunnel id ts) then some new else find_tunnel id ts)
  unfolding find_tunnel
  find_tunnel-replace id new [] = ground arith
  find_tunnel-replace id new (u ∷ ts) = ground (
    arith,
    text_eq.equal_iff u.id new.id,
    text_eq.equal_iff new.id id,
    text_eq.equal_iff u.id id,
    beq_refl id,
    find_tunnel-replace id new ts,
  )

  -- When a text is refused as the ACL of a tunnel that its client lists, that tunnel shows the text from
  -- then on, but keeps the ACL in use, and each other tunnel of the client stays as it was.
  pub set_tunnel_acl_refused :
      (c : Client) (t : Tunnel) (s : Service S P W) (text id : Text) (e : ServiceError)
      → find_tunnel t.id c.tunnels ≡ some t
      → (set_tunnel_acl store parts c t (some text) s).1 ≡ err e
      → (c' : Client) × (lookup c.id
            (set_tunnel_acl store parts c t (some text) s).0.repo.client_state
          ≡ some c')
        × (find_tunnel id c'.tunnels ≡ (
            if t.id == id
            then some (record t { remote = record t.remote { acl = some text } })
            else find_tunnel id c.tunnels))
  unfolding set_tunnel_acl
  set_tunnel_acl_refused c t s text id e listed refused =
      let new = record t { remote = record t.remote { acl = some text } } in
      let c' = record c { tunnels = map (λ u. if u.id == t.id then new else u) c.tunnels } in
      elim (Result-cases (parse_tunnel_acl parts.net text)) [
        | inl (acl, good) ↦ absurd (ground (arith, refused, good))
        | inr (w, bad) ↦ (
          c',
          ground (arith, bad, beq_refl c.id, lookup-insert c.id c.id c' s.repo.client_state),
          ground (arith, listed, text_eq.equal_iff t.id id, find_tunnel-replace id new c.tunnels),
        )
      ]

  pub delete_from_repo-state :
      (c : Client) (s : Service S P W)
      → (((delete_from_repo store parts c s).1 ≡ ok tt)
          × ((delete_from_repo store parts c s).0.repo.client_state
              ≡ delete c.id s.repo.client_state))
        ⊎ ((e : StoreError) × ((delete_from_repo store parts c s).1 ≡ err (store_failed e))
            × ((delete_from_repo store parts c s).0.repo.client_state ≡ s.repo.client_state))
  unfolding delete_from_repo delete_client
  delete_from_repo-state c s = elim (Option-cases s.repo.client_store) [
    | inl e ↦ inl (ground (arith, e), ground (arith, e))
    | inr (db, e) ↦ elim (Result-cases (store.delete c.id db)) [
      | inl (db', f) ↦ inl (ground (arith, e, f), ground (arith, e, f))
      | inr (w, f) ↦ inr (failed_to_delete w, ground (arith, e, f), ground (arith, e, f))
    ]
  ]

  existing-lookup :
      (now : ℕ) (id : Text) (c : Client) (s : Service S P W)
      → get_existing_client_by_id now id s ≡ ok c
      → lookup id s.repo.client_state ≡ some c
  unfolding get_existing_client_by_id get_by_id
  existing-lookup now id c s h = ground (arith, h)

  -- A connected client is not deleted. A client that is found and not connected is deleted, and no
  -- other, unless the database refuses; then none is.
  pub delete_offline_lem :
      (now : ℕ) (id : Text) (c : Client) (s : Service S P W)
      → IsValid s.repo
      → get_existing_client_by_id now id s ≡ ok c
      → ((is_connected c ≡ true) × (delete_offline store parts now id s ≡ (s, err client_active)))
        ⊎ ((is_connected c ≡ false)
            × ((((delete_offline store parts now id s).1 ≡ ok tt)
                  × ((delete_offline store parts now id s).0.repo.client_state
                      ≡ delete id s.repo.client_state))
                ⊎ ((e : StoreError) × ((delete_offline store parts now id s).1
                      ≡ err (store_failed e))
                    × ((delete_offline store parts now id s).0.repo.client_state
                        ≡ s.repo.client_state))))
  unfolding delete_offline
  delete_offline_lem now id c s v h = elim (Bool-cases (is_connected c)) [
    | inl on ↦ inl (on, ground (arith, h, on))
    | inr off ↦
        let same = lookup-IsKeyed id c s.repo.client_state v (existing-lookup now id c s h) in
        inr (
          off,
          elim (delete_from_repo-state c s) [
            | inl (done, gone) ↦
                inl (ground (arith, h, off, done), ground (arith, h, off, gone, same))
            | inr (e, failed, kept) ↦
                inr (e, ground (arith, h, off, failed), ground (arith, h, off, kept))
          ],
        )
  ]
