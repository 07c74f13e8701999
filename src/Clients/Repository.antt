-- ===== src/Clients/Repository.antt =====
-- server/clients/cr.go: the clients in memory, and the database that follows them. A client is a
-- value here: code that changes a client it has got from the repository is not part of this file.
-- The lock makes each access to the map one step; `now` is the time of the call.
pub mod Laws
pub mod Queries
use openrport.Prelude.{
  ℕ, ◌+◌, leb, ◌&&◌, map, list_beq, nat_eq, String, Bool, true, false, not, ◌&&◌, ◌||◌, List, [],
  ◌∷◌, ◌++◌, Option, none, some, ◌==◌, if◌then◌else◌, filter, any, all, length, contains, lookup,
  insert, delete,
}
use openrport.Prelude.Results.{Result, ok, err}
use openrport.Prelude.Actions.{Action, ◌>>=◌, ◌>>◌, return, fail, ask}
use openrport.Strings.{Text, text_eq}
use openrport.Clients.Client.{Client, ClientGroup, is_connected, obsolete}
use openrport.Clients.Access.{User, visible_to}
use openrport.Clients.Store.{
  ClientStore, StoreError, failed_to_save, failed_to_delete, load_initial_clients,
}

abbrev pub Clients : Type 0
Clients = List (Text × Client)

-- `client_store` is `none` for a nil store. `handled` are the clients that the post-save handler
-- has been called with, if one is set.
pub record ClientRepository (S : Type 0) : Type 0 where
  pub client_state : Clients
  pub client_store : Option S
  pub keep_disconnected_clients : Option ℕ
  pub has_post_save_handler : Bool
  pub handled : List Client

abbrev pub add_all : List Client → Clients → Clients
add_all [] m = m
add_all (c ∷ cs) m = add_all cs (insert c.id c m)

abbrev pub new_client_repository_with_db :
    {S : Type 0} → List Client → Option ℕ → Option S → ClientRepository S
new_client_repository_with_db initial_clients keep store = record {
  client_state = add_all initial_clients [];
  client_store = store;
  keep_disconnected_clients = keep;
  has_post_save_handler = false;
  handled = [];
}

abbrev lower_letter : ℕ → ℕ
lower_letter c = if leb b'A' c && leb c b'Z' then c + 32 else c

-- strings.EqualFold(operator, "AND"): no letter outside ASCII folds to one of these three.
unfoldable pub is_and_operator : Text → Bool
is_and_operator operator = list_beq (map lower_letter operator) (b'a' ∷ b'n' ∷ b'd' ∷ [])

abbrev find_all : (List Text → Bool) → List Client → List Client
find_all p clients = filter (λ c. p c.tags) clients

unfoldable pub find_matching_and_clients : List Client → List Text → List Client
find_matching_and_clients available tags =
    find_all (λ client_tags. all (λ tag. contains client_tags tag) tags) available

unfoldable pub find_matching_or_clients : List Client → List Text → List Client
find_matching_or_clients available tags =
    find_all (λ client_tags. any (λ client_tag. contains tags client_tag) client_tags) available

-- queryClients: the order of Go's map is open.
unfoldable pub query_clients : (Client → Bool) → Clients → List Client
query_clients p [] = []
query_clients p ((id, c) ∷ m) = let rest = query_clients p m in if p c then c ∷ rest else rest

abbrev or_nil : (Client → Bool) → Option Client → Option Client
or_nil hide none = none
or_nil hide (some c) = if hide c then none else some c

module _ {S : Type 0} where
  abbrev update_client : Client → Action (ClientRepository S) StoreError (Unit {0})
  update_client c r = (record r { client_state = insert c.id c r.client_state }, ok tt)

  abbrev remove_client : Text → Action (ClientRepository S) StoreError (Unit {0})
  remove_client id r = (record r { client_state = delete id r.client_state }, ok tt)

  abbrev call_handler : Client → Action (ClientRepository S) StoreError (Unit {0})
  call_handler c r =
      (if r.has_post_save_handler then record r { handled = c ∷ r.handled } else r, ok tt)

  abbrev pub is_obsolete : ℕ → ClientRepository S → Client → Bool
  is_obsolete now r c = obsolete now r.keep_disconnected_clients c

  unfoldable pub remove_clients : List Client → Action (ClientRepository S) StoreError (Unit {0})
  remove_clients [] = return tt
  remove_clients (c ∷ cs) = remove_client c.id >> remove_clients cs

  unfoldable pub get_non_obsolete_clients : ℕ → ClientRepository S → List Client
  unfolding query_clients
  get_non_obsolete_clients now r = query_clients (λ c. not (is_obsolete now r c)) r.client_state

  unfoldable pub get_all_active_clients : ClientRepository S → List Client
  unfolding query_clients
  get_all_active_clients r = query_clients is_connected r.client_state

  unfoldable pub get_by_id : ℕ → Text → ClientRepository S → Option Client
  get_by_id now id r = or_nil (is_obsolete now r) (lookup id r.client_state)

  unfoldable pub get_active_by_id : Text → ClientRepository S → Option Client
  get_active_by_id id r = or_nil (λ c. not (is_connected c)) (lookup id r.client_state)

  unfoldable pub count : ℕ → ClientRepository S → ℕ
  unfolding get_non_obsolete_clients
  count now r = length (get_non_obsolete_clients now r)

  unfoldable pub count_active : ClientRepository S → ℕ
  unfolding get_all_active_clients
  count_active r = length (get_all_active_clients r)

  unfoldable pub count_disconnected : ℕ → ClientRepository S → ℕ
  unfolding get_non_obsolete_clients
  count_disconnected now r =
      length (filter (λ c. not (is_connected c)) (get_non_obsolete_clients now r))

  unfoldable pub get_all_by_client_auth_id : ℕ → Text → ClientRepository S → List Client
  unfolding get_non_obsolete_clients
  get_all_by_client_auth_id now client_auth_id r =
      filter (λ c. c.client_auth_id == client_auth_id) (get_non_obsolete_clients now r)

  -- getNonObsoleteClientsByUser
  unfoldable pub get_user_clients :
      (Text → Text) → ℕ → User → List ClientGroup → ClientRepository S → List Client
  unfolding query_clients
  get_user_clients to_lower now user groups r =
      query_clients (visible_to to_lower now r.keep_disconnected_clients user groups) r.client_state

  -- GetClientsByTag behind the test of the operator
  unfoldable pub find_by_tags : ℕ → List Text → Bool → Bool → ClientRepository S → List Client
  unfolding get_non_obsolete_clients get_all_active_clients find_matching_and_clients
      find_matching_or_clients
  find_by_tags now tags is_and allow_disconnected r =
      let available =
        if allow_disconnected then get_non_obsolete_clients now r else get_all_active_clients r in
      if is_and
      then find_matching_and_clients available tags
      else find_matching_or_clients available tags

  unfoldable pub get_clients_by_tag : ℕ → List Text → Text → Bool → ClientRepository S → List Client
  unfolding find_by_tags
  get_clients_by_tag now tags operator allow_disconnected r =
      find_by_tags now tags (is_and_operator operator) allow_disconnected r

module _ {S : Type 0} (store : ClientStore S) where
  -- `if store != nil { err := ... }`
  abbrev pub with_store :
      (S → Result StoreError S)
      → (StoreError → StoreError)
      → Action (ClientRepository S) StoreError (Unit {0})
  with_store f wrap r = elim r.client_store [
    | none ↦ (r, ok tt)
    | some s ↦ elim (f s) [
      | ok s' ↦ (record r { client_store = some s' }, ok tt)
      | err e ↦ (r, err (wrap e))
    ]
  ]

  unfoldable pub save : Client → Action (ClientRepository S) StoreError (Unit {0})
  save c = do with_store (store.save c) failed_to_save; update_client c; call_handler c

  unfoldable pub delete_client : Client → Action (ClientRepository S) StoreError (Unit {0})
  delete_client c = do with_store (store.delete c.id) failed_to_delete; remove_client c.id

  unfoldable pub delete_obsolete : ℕ → Action (ClientRepository S) StoreError (List Client)
  unfolding query_clients remove_clients
  delete_obsolete now = do
    with_store (store.delete_obsolete now) failed_to_delete
    clients_to_delete ← ask (λ r. ok (query_clients (is_obsolete now r) r.client_state))
    remove_clients clients_to_delete
    return clients_to_delete

-- InitClientRepository
unfoldable pub init_client_repository :
    {S : Type 0} → ClientStore S → Option ℕ → ℕ → S → Result StoreError (ClientRepository S)
init_client_repository provider keep now s = elim (load_initial_clients provider now s) [
  | err e ↦ err e
  | ok r ↦ ok (new_client_repository_with_db (r.1) keep (some (r.0)))
]
