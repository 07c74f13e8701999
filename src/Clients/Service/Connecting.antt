-- ===== src/Clients/Service/Connecting.antt =====
-- server/clients/client_service.go, StartClient and StartClientTunnels. The version test and the
-- question to the client, whether it allows a tunnel, are arguments.
use openrport.Prelude.{
  ℕ, Bool, true, not, ◌&&◌, ◌||◌, List, [], ◌++◌, Option, none, some, if◌then◌else◌, is_some,
}
use openrport.Prelude.Results.{Result, ok, err, guard, or_fail, ◌>>=◌, ◌>>◌}
use openrport.Prelude.Actions.{Action}
use openrport.Strings.{Text}
use openrport.Remotes.{Remote}
use openrport.Tunnels.{Tunnel}
use openrport.Clients.Client.{Client, is_connected}
use openrport.Clients.Store.{ClientStore}
use openrport.Clients.Repository.{get_by_id, save}
use openrport.Clients.Starting.{Starting, Parts, start_client_tunnels}
use openrport.Clients.Reestablish.{get_tunnels_to_reestablish, exclude_not_allowed_tunnels}
use openrport.Clients.Service.{
  Service, ServiceError, ConnectionRequest, already_connected, bad_address, bad_version,
  filter_failed, client_auth_id_in_use, start_failed, store_failed, new_client_from_conn_request,
  session_reused, old_remotes, update_client_status, is_client_auth_id_in_use, put_if, current,
}

-- A connection attempt; `client_host` is `none` if SplitHostPort fails.
pub record Attempt : Type 0 where
  pub now : ℕ
  pub client_auth_id : Text
  pub client_id : Text
  pub client_host : Option Text
  pub auth_multiuse_creds : Bool
  pub req : ConnectionRequest

-- `supports_policies` is whether a version is 0.6.4 at least, `none` if it is no version.
pub record Peer : Type 0 where
  pub supports_policies : Text → Option Bool
  pub send : Text → Result Text Bool

abbrev exclude : Peer → List Remote → Result ServiceError (List Remote)
exclude peer old = elim (exclude_not_allowed_tunnels peer.send old) [
  | ok kept ↦ ok kept
  | err e ↦ err (filter_failed e)
]

-- The block for a client that is found: the tunnels that the request asks for and the old ones.
unfoldable pub remotes_to_start : Peer → Attempt → Option Client → Result ServiceError (List Remote)
remotes_to_start peer a none = ok a.req.remotes
remotes_to_start peer a (some c) = do
  guard (not (is_connected c && not (session_reused a.req c))) already_connected
  let old = get_tunnels_to_reestablish (old_remotes c) a.req.remotes
  supported ← or_fail (peer.supports_policies a.req.version) bad_version
  kept ← if supported then exclude peer old else ok old
  ok (a.req.remotes ++ kept)

module _ {S P W : Type 0} (store : ClientStore S) (parts : Parts P W) where
  abbrev pub starting_of : Client → Service S P W → Starting P W
  starting_of c s = record { client = c; distributor = s.distributor; outside = s.outside }

  abbrev pub after_start : Bool → Starting P W → Service S P W → Service S P W
  after_start held t s =
      put_if held t.client (record s { distributor = t.distributor; outside = t.outside })

  -- `repo.Save(client)`
  unfoldable pub save_client : Client → Action (Service S P W) ServiceError (Unit {0})
  save_client c s =
      let (repo, saved) = save store c s.repo in
      (record s { repo = repo }, elim saved [ ok _ ↦ ok tt | err e ↦ err (store_failed e) ])

  -- Starts the client's tunnels; the client is changed as far as that came.
  unfoldable pub start_tunnels :
      Bool
      → List Remote
      → Client
      → Service S P W
      → Service S P W × Client × Result ServiceError (List Tunnel)
  start_tunnels held remotes c s =
      let (t, started) = start_client_tunnels parts remotes (starting_of c s) in
      (
        after_start held t s,
        t.client,
        elim started [ ok ts ↦ ok ts | err e ↦ err (start_failed e) ],
      )

  -- The end of StartClient.
  abbrev pub finish :
      Service S P W × Client × Result ServiceError (List Tunnel)
      → Service S P W × Result ServiceError Client
  finish (s, c, started) = elim started [
    | err e ↦ (s, err e)
    | ok _ ↦ let (s', saved) = save_client c s in (s', elim saved [ ok _ ↦ ok c | err e ↦ err e ])
  ]

  -- StartClient behind its tests. `held` is whether the client was found.
  unfoldable pub connect :
      Bool → List Remote → Client → Service S P W → Service S P W × Result ServiceError Client
  unfolding start_tunnels
  connect held remotes client s =
      let s' = update_client_status (put_if held client s) in
      let c = current held client s' in
      finish (if c.paused then (s', c, ok []) else start_tunnels held remotes c s')

  -- The tests of StartClient.
  unfoldable pub admit : Peer → Attempt → Service S P W → Result ServiceError (Text × List Remote)
  unfolding remotes_to_start
  admit peer a s = do
    host ← or_fail a.client_host bad_address
    remotes ← remotes_to_start peer a (get_by_id a.now a.client_id s.repo)
    guard
        (a.auth_multiuse_creds
          || not (is_client_auth_id_in_use a.now a.client_auth_id a.client_id s))
        client_auth_id_in_use
    ok (host, remotes)

  unfoldable pub start_client : Peer → Attempt → Action (Service S P W) ServiceError Client
  unfolding admit connect
  start_client peer a s = elim (admit peer a s) [
    | err e ↦ (s, err e)
    | ok (host, remotes) ↦
        let existing = get_by_id a.now a.client_id s.repo in
        connect (is_some existing) remotes
          (new_client_from_conn_request existing a.client_auth_id a.client_id a.req host) s
  ]

  -- StartClientTunnels of a client in the repository
  unfoldable pub start_more_tunnels :
      List Remote → Client → Action (Service S P W) ServiceError (List Tunnel)
  unfolding start_tunnels save_client
  start_more_tunnels remotes client s =
      let (s₁, c, started) = start_tunnels true remotes client s in
      elim started [
        | err e ↦ (s₁, err e)
        | ok ts ↦
            let (s₂, saved) = save_client c s₁ in (s₂, elim saved [ ok _ ↦ ok ts | err e ↦ err e ])
      ]
