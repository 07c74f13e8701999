-- ===== src/Clients/Service/Failed.antt =====
-- server/clients/client_service.go, StartClient: what a connection that fails late leaves.
use openrport.Prelude.{
  insert, ◌≡◌, true, false, List, none, some, lookup, lookup-insert, nat_eq, beq_refl, arith,
}
use openrport.Prelude.Results.{ok, err}
use openrport.Strings.{Text, text_eq}
use openrport.Remotes.{Remote}
use openrport.Clients.Client.{Client}
use openrport.Clients.Store.{ClientStore}
use openrport.Clients.Repository.{get_by_id, get_active_by_id}
use openrport.Clients.Repository.Laws.{IsValid}
use openrport.Clients.Starting.{port_error, Parts, start_client_tunnels}
use openrport.Ports.{Error, refresh}
use openrport.Clients.Service.{
  Service, start_failed, new_client_from_conn_request, update_client_status,
}
use openrport.Clients.Service.Connecting.{
  Attempt, Peer, start_tunnels, connect, admit, start_client,
}
use openrport.Clients.Service.Connected.{new_client-id, shown_active, new_client-connected}

module _ {S P W : Type 0} (store : ClientStore S) (parts : Parts P W) where
  new_client-paused :
      (c : Client) (a : Attempt) (host : Text)
      → c.paused ≡ false
      → (new_client_from_conn_request (some c) a.client_auth_id a.client_id a.req host).paused
        ≡ false
  unfolding new_client_from_conn_request
  new_client-paused c a host h = h

  connect_failed :
      (remotes : List Remote) (client : Client) (s : Service S P W) (w : Error)
      → s.max_clients ≡ none
      → client.paused ≡ false
      → (refresh parts.sets parts.connections s.distributor).1 ≡ err w
      → ((connect store parts true remotes client s).1 ≡ err (start_failed (port_error w)))
        × (lookup client.id (connect store parts true remotes client s).0.repo.client_state
            ≡ some client)
  unfolding connect start_tunnels start_client_tunnels update_client_status
  connect_failed remotes client s w unlimited going failed =
      let inserted = insert client.id client s.repo.client_state in
      (
        ground (
          arith,
          unlimited,
          going,
          failed,
          beq_refl client.id,
          lookup-insert client.id client.id client s.repo.client_state,
        ),
        ground (
          arith,
          unlimited,
          going,
          failed,
          beq_refl client.id,
          lookup-insert client.id client.id client s.repo.client_state,
          lookup-insert client.id client.id client inserted,
        ),
      )

  -- A connection of a known client that fails because the ports cannot be listed leaves the client
  -- connected in memory, without license information and if it is not paused.
  pub start_client_failed :
      (peer : Peer) (a : Attempt) (host : Text) (remotes : List Remote) (c : Client)
      (s : Service S P W) (w : Error)
      → IsValid s.repo
      → s.max_clients ≡ none
      → get_by_id a.now a.client_id s.repo ≡ some c
      → c.paused ≡ false
      → admit store parts peer a s ≡ ok (host, remotes)
      → (refresh parts.sets parts.connections s.distributor).1 ≡ err w
      → ((start_client store parts peer a s).1 ≡ err (start_failed (port_error w)))
        × (get_active_by_id a.client_id (start_client store parts peer a s).0.repo
            ≡ some (new_client_from_conn_request (some c) a.client_auth_id a.client_id a.req host))
  unfolding start_client
  start_client_failed peer a host remotes c s w v unlimited found going admitted failed =
      let client = new_client_from_conn_request (some c) a.client_auth_id a.client_id a.req host in
      let (error, held) =
        connect_failed remotes client s w unlimited (new_client-paused c a host going) failed in
      let id = new_client-id store parts a host s v in
      (
        ground (arith, admitted, found, error),
        shown_active store parts a.client_id client (start_client store parts peer a s).0.repo
            (ground (arith, admitted, found, held, id))
            (new_client-connected store parts (some c) a host),
      )
