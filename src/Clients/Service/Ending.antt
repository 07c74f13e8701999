-- ===== src/Clients/Service/Ending.antt =====
-- server/clients/client_service.go: the end of a client's connection and of its tunnels, and the
-- writes to a client. What is only logged leaves no error here.
pub mod Laws
pub mod Disconnect
use openrport.Prelude.{
  ℕ, Bool, true, false, not, ◌&&◌, ◌||◌, List, [], ◌∷◌, ◌++◌, Option, none, some, if◌then◌else◌,
  is_some, String, lookup, ◌==◌, nat_eq, map,
}
use openrport.Prelude.Results.{Result, ok, err}
use openrport.Prelude.Actions.{Action, ◌>>=◌, ◌>>◌, return, fail, ask, require}
use openrport.Strings.{Text, text_eq}
use openrport.Remotes.{Remote, has_subdomain_tunnel}
use openrport.Tunnels.{
  Tunnel, TunnelError, World, Proxy, route_status, terminate, get_tunnel_domains, set_protocol_acl,
}
use openrport.Tunnels.Acl.{AclError, TunnelAcl}
use openrport.Clients.Client.{Client, is_connected, remove_tunnel_by_id}
use openrport.Clients.Store.{ClientStore, StoreError}
use openrport.Clients.Repository.{get_by_id, delete_client}
use openrport.Clients.Starting.{Parts, StartError, acl_error, tunnel_error, parse_optional_acl}
use openrport.Clients.Service.{
  Service, ServiceError, client_active, start_failed, store_failed, get_existing_client_by_id,
  put_client, update_client_status,
}
use openrport.Clients.Service.Connecting.{save_client}

abbrev pub keeps_none : Option ℕ → Bool
keeps_none none = false
keeps_none (some duration) = duration == 0

abbrev pub set_disconnected : ℕ → Client → Client
set_disconnected now c = record c { disconnected_at = some now }

module _ {S P W : Type 0} where
  -- The client as the repository holds it, changed in place.
  abbrev pub change_held : (Client → Client) → Text → Service S P W → Service S P W
  change_held f id s = elim (lookup id s.repo.client_state) [
    | none ↦ s
    | some c ↦ put_client (f c) s
  ]

module _ {S P W : Type 0} (store : ClientStore S) (parts : Parts P W) where
  -- `repo.Delete(client)`
  unfoldable pub delete_from_repo : Client → Action (Service S P W) ServiceError (Unit {0})
  delete_from_repo c s =
      let (repo, deleted) = delete_client store c s.repo in
      (record s { repo = repo }, elim deleted [ ok _ ↦ ok tt | err e ↦ err (store_failed e) ])

  -- Terminate's save: the client that was found, in the state that it has after UpdateClientStatus.
  unfoldable pub save_found : ℕ → Text → Action (Service S P W) ServiceError (Unit {0})
  save_found now id s = elim (get_by_id now id s.repo) [
    | none ↦ (s, ok tt)
    | some c ↦
        let s' = update_client_status s in
        elim (lookup id s'.repo.client_state) [
          | none ↦ (s', ok tt)
          | some d ↦ save_client store parts d s'
        ]
  ]

  unfoldable pub terminate_client : ℕ → Client → Action (Service S P W) ServiceError (Unit {0})
  unfolding delete_from_repo save_found
  terminate_client now client s =
      if keeps_none s.repo.keep_disconnected_clients
      then delete_from_repo client s
      else save_found now client.id (change_held (set_disconnected now) client.id s)

  -- `close` closes the client's connection.
  unfoldable pub force_delete :
      (Client → Action W TunnelError (Unit {0}))
      → Client
      → Action (Service S P W) ServiceError (Unit {0})
  unfolding delete_from_repo
  force_delete close client s =
      if is_connected client
      then (let (w, closed) = close client s.outside in
          elim closed [
            | err e ↦ (record s { outside = w }, err (start_failed (tunnel_error e)))
            | ok _ ↦ delete_from_repo client (record s { outside = w })
          ])
      else delete_from_repo client s

  abbrev with_existing :
      ℕ
      → Text
      → (Client → Action (Service S P W) ServiceError (Unit {0}))
      → Action (Service S P W) ServiceError (Unit {0})
  with_existing now id f s = elim (get_existing_client_by_id now id s) [
    | err e ↦ (s, err e)
    | ok c ↦ f c s
  ]

  unfoldable pub delete_offline : ℕ → Text → Action (Service S P W) ServiceError (Unit {0})
  unfolding delete_from_repo
  delete_offline now id =
      with_existing now id (λ c. if is_connected c then fail client_active else delete_from_repo c)

  -- A change in place and a save: a save that fails leaves the change.
  abbrev change_and_save :
      (Client → Client) → Client → Action (Service S P W) ServiceError (Unit {0})
  change_and_save f c s = save_client store parts (f c) (put_client (f c) s)

  unfoldable pub set_acl : ℕ → Text → List String → Action (Service S P W) ServiceError (Unit {0})
  set_acl now id groups =
      with_existing now id (change_and_save (λ c. record c { allowed_user_groups = groups }))

  -- removeCaddyDownstreamProxy; its errors are dropped.
  unfoldable pub remove_caddy_downstream_proxy : Tunnel → Action W TunnelError (Unit {0})
  remove_caddy_downstream_proxy t = do
    ds ← ask (λ _. get_tunnel_domains parts.hostname t.remote)
    status ← parts.world.delete_route (ds.0)
    require (status == 200) (route_status status)

  unfoldable pub stop_tunnel_proxy : Tunnel → W → W
  unfolding remove_caddy_downstream_proxy
  stop_tunnel_proxy t w = elim t.internal_tunnel_proxy [
    | none ↦ w
    | some p ↦
        let w' = (parts.world.stop_proxy p w).0 in
        if has_subdomain_tunnel t.remote then (remove_caddy_downstream_proxy t w').0 else w'
  ]

  -- The common end of the two functions below.
  unfoldable pub forget_tunnel : Client → Tunnel → Service S P W → Service S P W
  unfolding stop_tunnel_proxy
  forget_tunnel c t s =
      let c' = remove_tunnel_by_id t.id c in
      (save_client store parts c'
        (put_client c' (record s { outside = stop_tunnel_proxy t s.outside }))).0

  unfoldable pub cleanup_after_auto_close : Client → Tunnel → Service S P W → Service S P W
  unfolding forget_tunnel
  cleanup_after_auto_close c t s = forget_tunnel c t s

  unfoldable pub terminate_tunnel :
      Client → Tunnel → Bool → Action (Service S P W) ServiceError (Unit {0})
  unfolding forget_tunnel
  terminate_tunnel c t force s =
      let (w, terminated) = terminate parts.world t force s.outside in
      elim terminated [
        | err e ↦ (record s { outside = w }, err (start_failed (tunnel_error e)))
        | ok _ ↦ (forget_tunnel c t (record s { outside = w }), ok tt)
      ]

  abbrev replace_tunnel : Tunnel → Client → Client
  replace_tunnel t c = record c { tunnels = map (λ u. if u.id == t.id then t else u) c.tunnels }

  -- A text that is no ACL stays as the tunnel's, whose ACL in use is then the old one.
  unfoldable pub set_tunnel_acl :
      Client → Tunnel → Option Text → Action (Service S P W) ServiceError (Unit {0})
  set_tunnel_acl c t acl_str s =
      let t' = record t { remote = record t.remote { acl = acl_str } } in
      elim (parse_optional_acl parts.net acl_str) [
        | err e ↦ (put_client (replace_tunnel t' c) s, err (start_failed (acl_error e)))
        | ok acl ↦
            let c' = replace_tunnel (set_protocol_acl acl t') c in
            ((save_client store parts c' (put_client c' s)).0, ok tt)
      ]
