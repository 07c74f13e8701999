-- ===== src/Clients/Repository/Queries.antt =====
-- server/clients/cr.go: what the reads of a valid repository return, against the read by an id.
use openrport.Prelude.{
  ℕ, ◌+◌, ◌≡◌, refl, subst, ◌↔◌, inl, inr, Bool, true, false, not, List, [], ◌∷◌, Option, some,
  arith, if◌then◌else◌, In, Bool-cases, filter, all, any, contains, length,
}
use openrport.Prelude.Results.{ok}
use openrport.Strings.{Text, text_eq}
use openrport.Clients.Client.{Client, ClientGroup, obsolete, is_connected}
use openrport.Clients.Access.{
  User, visible_to, check_clients_access, check_clients_access-visible_to,
}
use openrport.Clients.Repository.{
  Clients, ClientRepository, query_clients, get_by_id, get_active_by_id, get_non_obsolete_clients,
  get_all_active_clients, get_user_clients, get_clients_by_tag, find_by_tags, is_and_operator,
  find_matching_and_clients, find_matching_or_clients, count, count_active, count_disconnected,
  is_obsolete,
}
use openrport.Clients.Repository.Laws.{IsValid, query_clients-lookup}

In-filter :
    {A : Type 0} (p : A → Bool) (a : A) (xs : List A)
    → In a (filter p xs) ↔ (In a xs × (p a ≡ true))
In-filter p a [] = ground arith
In-filter p a (x ∷ xs) = elim (Bool-cases (p x)) [
  | inl pass ↦ ground (arith, In-filter p a xs, λ (e : x ≡ a). subst (λ z. p z ≡ true) e pass)
  | inr fails ↦ ground (arith, In-filter p a xs, λ (e : x ≡ a). subst (λ z. p z ≡ false) e fails)
]

count_split :
    (now : ℕ) (keep : Option ℕ) (m : Clients)
    → length (query_clients (λ c. not (obsolete now keep c)) m)
      ≡ length (query_clients is_connected m)
        + length
            (filter (λ c. not (is_connected c)) (query_clients (λ c. not (obsolete now keep c)) m))
unfolding query_clients obsolete is_connected
count_split now keep [] = refl
count_split now keep ((id, c) ∷ m) = ground (arith, count_split now keep m)

module _ {S : Type 0} where
  non_obsolete_lem :
      (now : ℕ) (c : Client) (r : ClientRepository S)
      → IsValid r
      → In c (get_non_obsolete_clients now r) ↔ (get_by_id now c.id r ≡ some c)
  unfolding get_non_obsolete_clients get_by_id
  non_obsolete_lem now c r v =
      ground (arith, query_clients-lookup (λ d. not (is_obsolete now r d)) c r.client_state v)

  active_lem :
      (c : Client) (r : ClientRepository S)
      → IsValid r
      → In c (get_all_active_clients r) ↔ (get_active_by_id c.id r ≡ some c)
  unfolding get_all_active_clients get_active_by_id
  active_lem c r v = ground (arith, query_clients-lookup is_connected c r.client_state v)

  -- In a valid repository the clients that a user is shown are exactly those that the read by an id
  -- returns and for which the user passes the access check.
  pub get_user_clients-check_clients_access :
      (to_lower : Text → Text) (now : ℕ) (user : User) (groups : List ClientGroup) (c : Client)
      (r : ClientRepository S)
      → IsValid r
      → In c (get_user_clients to_lower now user groups r) ↔ (
          (get_by_id now c.id r ≡ some c)
          × (check_clients_access to_lower (c ∷ []) user groups ≡ ok tt))
  unfolding get_user_clients get_by_id visible_to
  get_user_clients-check_clients_access to_lower now user groups c r v = ground (
    arith,
    query_clients-lookup (visible_to to_lower now r.keep_disconnected_clients user groups) c
        r.client_state v,
    check_clients_access-visible_to to_lower now r.keep_disconnected_clients (c ∷ []) user groups,
  )

  find_by_tags_lem :
      (now : ℕ) (tags : List Text) (is_and allow_disconnected : Bool) (c : Client)
      (r : ClientRepository S)
      → IsValid r
      → In c (find_by_tags now tags is_and allow_disconnected r) ↔ (
          ((if allow_disconnected then get_by_id now c.id r else get_active_by_id c.id r) ≡ some c)
          × ((if is_and
                then all (λ tag. contains c.tags tag) tags
                else any (λ tag. contains tags tag) c.tags)
              ≡ true))
  unfolding find_by_tags find_matching_and_clients find_matching_or_clients
  find_by_tags_lem now tags true true c r v = ground (
    arith,
    non_obsolete_lem now c r v,
    In-filter {A = Client} (λ d. all (λ tag. contains d.tags tag) tags) c
        (get_non_obsolete_clients now r),
  )
  find_by_tags_lem now tags true false c r v = ground (
    arith,
    active_lem c r v,
    In-filter {A = Client} (λ d. all (λ tag. contains d.tags tag) tags) c
        (get_all_active_clients r),
  )
  find_by_tags_lem now tags false true c r v = ground (
    arith,
    non_obsolete_lem now c r v,
    In-filter {A = Client} (λ d. any (λ tag. contains tags tag) d.tags) c
        (get_non_obsolete_clients now r),
  )
  find_by_tags_lem now tags false false c r v = ground (
    arith,
    active_lem c r v,
    In-filter {A = Client} (λ d. any (λ tag. contains tags tag) d.tags) c
        (get_all_active_clients r),
  )

  -- In a valid repository the tag search with the operator AND, in any case, returns exactly the
  -- clients, active ones only or all that are not obsolete, that carry every given tag, and with
  -- any other operator those that carry one of them.
  pub get_clients_by_tag_lem :
      (now : ℕ) (tags : List Text) (operator : Text) (allow_disconnected : Bool) (c : Client)
      (r : ClientRepository S)
      → IsValid r
      → In c (get_clients_by_tag now tags operator allow_disconnected r) ↔ (
          ((if allow_disconnected then get_by_id now c.id r else get_active_by_id c.id r) ≡ some c)
          × ((if is_and_operator operator
                then all (λ tag. contains c.tags tag) tags
                else any (λ tag. contains tags tag) c.tags)
              ≡ true))
  unfolding get_clients_by_tag
  get_clients_by_tag_lem now tags operator allow_disconnected c r v =
      find_by_tags_lem now tags (is_and_operator operator) allow_disconnected c r v

  -- Count is the sum of CountActive and CountDisconnected: no connected client is obsolete.
  pub count_lem :
      (now : ℕ) (r : ClientRepository S) → count now r ≡ count_active r + count_disconnected now r
  unfolding count count_active count_disconnected get_non_obsolete_clients get_all_active_clients
  count_lem now r = count_split now r.keep_disconnected_clients r.client_state
