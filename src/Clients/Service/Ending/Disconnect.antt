-- ===== src/Clients/Service/Ending/Disconnect.antt =====
-- server/clients/client_service.go, Terminate: a client whose connection has ended.
use openrport.Prelude.{
  ℕ, ◌≡◌, inl, inr, refl, subst, false, none, some, lookup, lookup-insert, lookup-delete, nat_eq,
  beq_refl, arith, Option-cases, Bool-cases,
}
use openrport.Prelude.Results.{ok}
use openrport.Strings.{Text, text_eq}
use openrport.Clients.Client.{Client, is_connected, obsolete}
use openrport.Clients.Store.{ClientStore}
use openrport.Clients.Repository.{ClientRepository, get_by_id, get_active_by_id}
use openrport.Clients.Repository.Laws.{IsValid}
use openrport.Clients.Starting.{Parts}
use openrport.Clients.Service.{Service, put_client, update_client_status}
use openrport.Clients.Service.Connecting.{save_client}
use openrport.Clients.Service.Ending.{terminate_client, set_disconnected, save_found, keeps_none}
use openrport.Clients.Service.Ending.Laws.{
  lookup-IsKeyed, lookup-update_client_status, save_client-lookup, delete_from_repo-state,
}

module _ {S P W : Type 0} (store : ClientStore S) (parts : Parts P W) where
  removed :
      (id : Text) (r : ClientRepository S)
      → lookup id r.client_state ≡ none
      → get_active_by_id id r ≡ none
  unfolding get_active_by_id
  removed id r h = ground (arith, h)

  not_found :
      (now : ℕ) (id : Text) (s : Service S P W)
      → lookup id s.repo.client_state ≡ none
      → save_found store parts now id s ≡ (s, ok tt)
  unfolding save_found get_by_id
  not_found now id s h = ground (arith, h)

  inactive :
      (id : Text) (c : Client) (r : ClientRepository S)
      → lookup id r.client_state ≡ some c
      → is_connected c ≡ false
      → get_active_by_id id r ≡ none
  unfolding get_active_by_id
  inactive id c r h off = ground (arith, h, off)

  just_disconnected :
      (now : ℕ) (id : Text) (d : Client) (r : ClientRepository S)
      → lookup id r.client_state ≡ some d
      → d.disconnected_at ≡ some now
      → get_by_id now id r ≡ some d
  unfolding get_by_id obsolete
  just_disconnected now id d r h off = elim (Option-cases r.keep_disconnected_clients) [
    | inl e ↦ ground (arith, h, off, e)
    | inr (k, e) ↦ ground (arith, h, off, e)
  ]

  -- What a client that was found is after UpdateClientStatus is saved.
  save_found_held :
      (now : ℕ) (id : Text) (d d' : Client) (s : Service S P W)
      → get_by_id now id s.repo ≡ some d
      → lookup id (update_client_status s).repo.client_state ≡ some d'
      → save_found store parts now id s ≡ save_client store parts d' (update_client_status s)
  unfolding save_found
  save_found_held now id d d' s found e = ground (arith, found, e)

  terminated_held :
      (now : ℕ) (id : Text) (d : Client) (s : Service S P W)
      → d.id ≡ id
      → lookup id s.repo.client_state ≡ some d
      → d.disconnected_at ≡ some now
      → (save_found store parts now id s).1 ≡ ok tt
      → get_active_by_id id (save_found store parts now id s).0.repo ≡ none
  unfolding is_connected
  terminated_held now id d s same h off saved =
      let (b, e) = lookup-update_client_status store parts id d s h in
      let d' = record d { paused = b } in
      let run = save_found_held now id d d' s (just_disconnected now id d s.repo h off) e in
      inactive id d' (save_found store parts now id s).0.repo
        (ground (
          arith,
          run,
          same,
          beq_refl id,
          save_client-lookup store parts d' id (update_client_status s)
              (ground (arith, run, saved)),
        ))
        (ground (arith, off))

  -- Terminate that succeeds leaves no connected client of that id.
  pub terminate_client-get_active_by_id :
      (now : ℕ) (c : Client) (s : Service S P W)
      → IsValid s.repo
      → (terminate_client store parts now c s).1 ≡ ok tt
      → get_active_by_id c.id (terminate_client store parts now c s).0.repo ≡ none
  unfolding terminate_client
  terminate_client-get_active_by_id now c s v h =
      elim (Bool-cases (keeps_none s.repo.keep_disconnected_clients)) [
        | inl e ↦ elim (delete_from_repo-state store parts c s) [
          | inl (done, gone) ↦
              removed c.id (terminate_client store parts now c s).0.repo (
                ground (arith, e, gone, lookup-delete c.id c.id s.repo.client_state, beq_refl c.id))
          | inr (w, failed, _) ↦ absurd (ground (arith, h, e, failed))
        ]
        | inr e ↦ elim (Option-cases (lookup c.id s.repo.client_state)) [
          | inl none_held ↦
              removed c.id (terminate_client store parts now c s).0.repo
                (ground (arith, e, none_held, not_found now c.id s none_held))
          | inr (d, held) ↦
              let same = lookup-IsKeyed c.id d s.repo.client_state v held in
              let d' = set_disconnected now d in
              let s' = put_client d' s in
              subst (λ (w : Service S P W). get_active_by_id c.id w.repo ≡ none)
                {x = (save_found store parts now c.id s').0}
                {y = (terminate_client store parts now c s).0} (ground (arith, e, held))
                (terminated_held now c.id d' s' same
                  (ground
                    (arith, same, beq_refl c.id, lookup-insert d.id c.id d' s.repo.client_state))
                  refl (ground (arith, h, e, held)))
        ]
      ]
