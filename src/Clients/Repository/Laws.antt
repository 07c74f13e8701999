-- ===== src/Clients/Repository/Laws.antt =====
-- server/clients/cr.go: the map of clients keeps one entry for a client, under its own id, and what
-- each write does to what the reads return.
use openrport.Prelude.{
  ℕ, ◌≡◌, refl, subst, ◌↔◌, ◌⊎◌, inl, inr, Bool, true, false, List, [], ◌∷◌, Option, none, some,
  arith, ◌==◌, if◌then◌else◌, lookup, insert, delete, lookup-insert, lookup-delete, In,
  Option-cases,
}
use openrport.Prelude.Results.{Result, ok, err, Result-cases}
use openrport.Strings.{Text, text_eq}
use openrport.Clients.Client.{Client, obsolete}
use openrport.Clients.Store.{ClientStore, StoreError, failed_to_delete, failed_to_save}
use openrport.Clients.Repository.{
  Clients, ClientRepository, add_all, query_clients, save, delete_client, delete_obsolete,
  get_by_id, remove_clients, new_client_repository_with_db, is_obsolete, with_store,
}

-- Each entry stands under the id of its client, and an id has one entry.
abbrev pub IsKeyed : Clients → Type 0
IsKeyed [] = Unit
IsKeyed ((id, c) ∷ m) = (c.id ≡ id) × (lookup id m ≡ none) × IsKeyed m

abbrev pub IsValid : {S : Type 0} → ClientRepository S → Type 0
IsValid r = IsKeyed r.client_state

insert-IsKeyed : (c : Client) (m : Clients) → IsKeyed m → IsKeyed (insert c.id c m)
unfolding insert lookup
insert-IsKeyed c [] v = (refl, refl, tt)
insert-IsKeyed c ((id, d) ∷ m) v = ground (
  arith,
  insert-IsKeyed c m (v.2),
  lookup-insert c.id id c m,
  text_eq.equal_iff id c.id,
  text_eq.equal_iff c.id id,
)

delete-IsKeyed : (id : Text) (m : Clients) → IsKeyed m → IsKeyed (delete id m)
unfolding delete lookup
delete-IsKeyed id [] v = tt
delete-IsKeyed id ((j, d) ∷ m) v = ground (
  arith,
  delete-IsKeyed id m (v.2),
  lookup-delete id j m,
  text_eq.equal_iff id j,
  text_eq.equal_iff j id,
)

pub query_clients-lookup :
    (p : Client → Bool) (c : Client) (m : Clients)
    → IsKeyed m
    → In c (query_clients p m) ↔ ((lookup c.id m ≡ some c) × (p c ≡ true))
unfolding query_clients lookup
query_clients-lookup p c [] v = ground arith
query_clients-lookup p c ((id, d) ∷ m) v =
    ground (arith, query_clients-lookup p c m (v.2), text_eq.equal_iff id c.id)

add_all-IsKeyed : (cs : List Client) (m : Clients) → IsKeyed m → IsKeyed (add_all cs m)
add_all-IsKeyed [] m v = v
add_all-IsKeyed (c ∷ cs) m v = add_all-IsKeyed cs (insert c.id c m) (insert-IsKeyed c m v)

-- The repository that starts from a list of clients is valid, whatever the list repeats.
pub new_client_repository-IsValid :
    {S : Type 0} (initial : List Client) (keep : Option ℕ) (store : Option S)
    → IsValid (new_client_repository_with_db initial keep store)
new_client_repository-IsValid initial keep store = add_all-IsKeyed initial [] tt

delete_all : List Client → Clients → Clients
delete_all [] m = m
delete_all (c ∷ cs) m = delete_all cs (delete c.id m)

delete_all-IsKeyed : (cs : List Client) (m : Clients) → IsKeyed m → IsKeyed (delete_all cs m)
unfolding delete_all
delete_all-IsKeyed [] m v = v
delete_all-IsKeyed (c ∷ cs) m v = delete_all-IsKeyed cs (delete c.id m) (delete-IsKeyed c.id m v)

has_id : Text → List Client → Bool
has_id id [] = false
has_id id (c ∷ cs) = if c.id == id then true else has_id id cs

lookup-delete_all :
    (id : Text) (cs : List Client) (m : Clients)
    → lookup id (delete_all cs m) ≡ (if has_id id cs then none else lookup id m)
unfolding delete_all has_id
lookup-delete_all id [] m = refl
lookup-delete_all id (c ∷ cs) m =
    ground (arith, lookup-delete_all id cs (delete c.id m), lookup-delete c.id id m)

has_id-query_clients :
    (p : Client → Bool) (id : Text) (m : Clients)
    → IsKeyed m
    → has_id id (query_clients p m) ≡ (elim (lookup id m) [ none ↦ false | some c ↦ p c ])
unfolding has_id query_clients lookup
has_id-query_clients p id [] v = refl
has_id-query_clients p id ((j, c) ∷ m) v = ground (
  arith,
  has_id-query_clients p id m (v.2),
  text_eq.equal_iff j id,
  text_eq.equal_iff id j,
  text_eq.equal_iff c.id id,
)

module _ {S : Type 0} (store : ClientStore S) where
  removed : List Client → ClientRepository S → ClientRepository S
  removed cs r = record r { client_state = delete_all cs r.client_state }

  remove_clients_lem :
      (cs : List Client) (r : ClientRepository S) → remove_clients cs r ≡ (removed cs r, ok tt)
  unfolding remove_clients removed delete_all
  remove_clients_lem [] r = refl
  remove_clients_lem (c ∷ cs) r =
      remove_clients_lem cs (record r { client_state = delete c.id r.client_state })

  stored : Option S → ClientRepository S → ClientRepository S
  stored o r = record r { client_store = o }

  -- A call of the store leaves its new state, or an error and the repository as it was.
  with_store-cases :
      (f : S → Result StoreError S) (wrap : StoreError → StoreError) (r : ClientRepository S)
      → ((o : Option S) × (with_store store f wrap r ≡ (stored o r, ok tt)))
        ⊎ ((e : StoreError) × (with_store store f wrap r ≡ (r, err e)))
  unfolding stored
  with_store-cases f wrap r = elim (Option-cases r.client_store) [
    | inl nil ↦ inl (none, ground arith)
    | inr (s, here) ↦ elim (Result-cases (f s)) [
      | inl (s', good) ↦ inl (some s', ground arith)
      | inr (e, bad) ↦ inr (wrap e, ground arith)
    ]
  ]

  obsolete_clients : ℕ → ClientRepository S → List Client
  obsolete_clients now r = query_clients (is_obsolete now r) r.client_state

  delete_obsolete-cases :
      (now : ℕ) (r : ClientRepository S)
      → ((o : Option S) × (delete_obsolete store now r
            ≡ (removed (obsolete_clients now r) (stored o r), ok (obsolete_clients now r))))
        ⊎ ((e : StoreError) × (delete_obsolete store now r ≡ (r, err e)))
  unfolding delete_obsolete obsolete_clients stored
  delete_obsolete-cases now r =
      elim (with_store-cases (store.delete_obsolete now) failed_to_delete r) [
        | inl (o, good) ↦
            inl (o, ground (arith, remove_clients_lem (obsolete_clients now r) (stored o r)))
        | inr (e, bad) ↦ inr (e, ground arith)
      ]

  -- Saving a client, deleting one and deleting the obsolete ones keep a repository valid, also if
  -- the store fails.
  pub IsValid-kept :
      (c : Client) (now : ℕ) (r : ClientRepository S)
      → IsValid r
      → IsValid ((save store c r).0)
        × IsValid ((delete_client store c r).0)
        × IsValid ((delete_obsolete store now r).0)
  unfolding save delete_client removed stored
  IsValid-kept c now r v = (
    ground (
      arith,
      insert-IsKeyed c r.client_state v,
      with_store-cases (store.save c) failed_to_save r,
    ),
    ground (
      arith,
      delete-IsKeyed c.id r.client_state v,
      with_store-cases (store.delete c.id) failed_to_delete r,
    ),
    ground (
      arith,
      delete_obsolete-cases now r,
      delete_all-IsKeyed (obsolete_clients now r) r.client_state v,
    ),
  )

  -- Each of the three writes succeeds or leaves the repository as it was.
  pub failed_write_unchanged :
      (c : Client) (now : ℕ) (r : ClientRepository S)
      → (((save store c r).1 ≡ ok tt) ⊎ ((save store c r).0 ≡ r))
        × (((delete_client store c r).1 ≡ ok tt) ⊎ ((delete_client store c r).0 ≡ r))
        × (((delete_obsolete store now r).1 ≡ ok (query_clients (is_obsolete now r) r.client_state))
            ⊎ ((delete_obsolete store now r).0 ≡ r))
  unfolding save delete_client obsolete_clients
  failed_write_unchanged c now r = (
    ground (arith, with_store-cases (store.save c) failed_to_save r),
    ground (arith, with_store-cases (store.delete c.id) failed_to_delete r),
    ground (arith, delete_obsolete-cases now r),
  )

  -- After a client is saved, the reads by an id return it under its own id, unless it is obsolete,
  -- and what they returned before under every other.
  pub get_by_id-save :
      (c : Client) (now : ℕ) (id : Text) (r : ClientRepository S)
      → (save store c r).1 ≡ ok tt
      → get_by_id now id ((save store c r).0) ≡ (
          if c.id == id
          then (if obsolete now r.keep_disconnected_clients c then none else some c)
          else get_by_id now id r)
  unfolding save get_by_id stored
  get_by_id-save c now id r h = ground (
    arith,
    with_store-cases (store.save c) failed_to_save r,
    lookup-insert c.id id c r.client_state,
  )

  -- After a client is deleted, the reads by an id return nothing under its id, and what they
  -- returned before under every other.
  pub get_by_id-delete_client :
      (c : Client) (now : ℕ) (id : Text) (r : ClientRepository S)
      → (delete_client store c r).1 ≡ ok tt
      → get_by_id now id ((delete_client store c r).0)
        ≡ (if c.id == id then none else get_by_id now id r)
  unfolding delete_client get_by_id stored
  get_by_id-delete_client c now id r h = ground (
    arith,
    with_store-cases (store.delete c.id) failed_to_delete r,
    lookup-delete c.id id r.client_state,
  )

  -- Deleting the obsolete clients of a valid repository leaves in memory exactly what the read by
  -- an id returned before, and returns exactly the clients that it took out, the obsolete ones.
  pub delete_obsolete_lem :
      (now : ℕ) (r : ClientRepository S) (deleted : List Client) (id : Text) (c : Client)
      → IsValid r
      → (delete_obsolete store now r).1 ≡ ok deleted
      → (lookup id ((delete_obsolete store now r).0.client_state) ≡ get_by_id now id r)
        × (In c deleted ↔ (
            (lookup c.id r.client_state ≡ some c)
            × (obsolete now r.keep_disconnected_clients c ≡ true)))
  unfolding get_by_id removed stored obsolete_clients
  delete_obsolete_lem now r deleted id c v h =
      let same : obsolete_clients now r ≡ deleted = ground (arith, delete_obsolete-cases now r) in
      (
        ground (
          arith,
          delete_obsolete-cases now r,
          lookup-delete_all id (obsolete_clients now r) r.client_state,
          has_id-query_clients (is_obsolete now r) id r.client_state v,
        ),
        subst
            (λ cs. In c cs ↔ (
              (lookup c.id r.client_state ≡ some c)
              × (obsolete now r.keep_disconnected_clients c ≡ true)))
            same (query_clients-lookup (is_obsolete now r) c r.client_state v),
      )
