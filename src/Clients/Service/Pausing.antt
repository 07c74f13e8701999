-- ===== src/Clients/Service/Pausing.antt =====
-- server/clients/client_service.go, UpdateClientStatus: how many clients the license lets go on.
use openrport.Prelude.{
  ℕ, ◌+◌, ◌-◌, ◌≡◌, inl, inr, Bool, not, ◌&&◌, [], ◌∷◌, some, if◌then◌else◌, length, leb, arith,
  Bool-cases,
}
use openrport.Clients.Client.{Client, is_connected}
use openrport.Clients.Repository.{Clients, query_clients}
use openrport.Clients.Service.{Service, set_paused, update_client_status}

abbrev pub is_going : Client → Bool
is_going c = is_connected c && not c.paused

set_paused_counts :
    (max i : ℕ) (m : Clients)
    → (length (query_clients is_connected (set_paused max i m))
        ≡ length (query_clients is_connected m))
      × (length (query_clients is_going (set_paused max i m)) ≡ (
          if leb (max - i) (length (query_clients is_connected m))
          then max - i
          else length (query_clients is_connected m)))
unfolding set_paused query_clients is_connected
set_paused_counts max i [] = ground arith
set_paused_counts max i ((id, c) ∷ m) = elim (Bool-cases (is_connected c)) [
  | inl on ↦ ground (arith, on, set_paused_counts max (i + 1) m)
  | inr off ↦ ground (arith, off, set_paused_counts max i m)
]

-- With license information the connected clients stay connected, and as many of them as the license
-- has, or all if they are fewer, are not paused.
pub update_client_status_lem :
    {S P W : Type 0} (max : ℕ) (s : Service S P W)
    → s.max_clients ≡ some max
    → (length (query_clients is_connected (update_client_status s).repo.client_state)
        ≡ length (query_clients is_connected s.repo.client_state))
      × (length (query_clients is_going (update_client_status s).repo.client_state) ≡ (
          if leb max (length (query_clients is_connected s.repo.client_state))
          then max
          else length (query_clients is_connected s.repo.client_state)))
unfolding update_client_status
update_client_status_lem max s h = ground (arith, h, set_paused_counts max 0 s.repo.client_state)
