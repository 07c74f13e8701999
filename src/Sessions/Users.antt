-- ===== src/Sessions/Users.antt =====
-- server/api/session/cache.go: the sessions of one user, listed and deleted.
use openrport.Prelude.{
  ℕ, ◌≤◌, ◌≡◌, ◌≢◌, refl, ap, sym, ◌∙◌, subst, ◌↔◌, ◌⊎◌, inl, inr, String, true, List, [], ◌∷◌,
  none, some, arith, if◌then◌else◌, ◌==◌, In, Bool-cases, string_eq,
}
use openrport.Prelude.Int.{ℤ, negsuc, int_eq}
use openrport.Prelude.Results.{Result-cases}
use openrport.Sessions.{
  ApiSession, InternalCacheProvider, IsCache, StorageProvider, Cache, until, get, save, delete,
  delete_by_id, delete_all_by_user, delete_each, delete_user_sessions_from_cache, sessions_of,
  get_all_by_user,
}
use openrport.Sessions.Order.{IsSorted, sort-IsSorted, In-sort}
use openrport.Sessions.Items.{In-sessions_of, item_of, has_id, In-has_id, has_id-In}

module _ {C : Type 0} (p : InternalCacheProvider C) (law : IsCache p) where
  -- Each entry stands under the id of its session.
  abbrev pub IsKeyed : C → Type 0
  IsKeyed c = (now : ℕ) (k : ℤ) (s : ApiSession) → p.get now k c ≡ some s → s.session_id ≡ k

  module _ {T : Type 0} (storage : StorageProvider T) where
    get-delete_each :
        (now : ℕ) (j : ℤ) (ss : List ApiSession) (c : C)
        → p.get now j (delete_each p storage ss c) ≡ (if has_id j ss then none else p.get now j c)
    unfolding delete_each has_id
    get-delete_each now j [] c = refl
    get-delete_each now j (s ∷ ss) c = ground (
      arith,
      get-delete_each now j ss (p.delete s.session_id c),
      law.get-delete now s.session_id j c,
    )

    -- A user's sessions come ordered by their last access, and they are exactly the sessions with
    -- that user that a read by an id returns.
    pub get_all_by_user_lem :
        (now : ℕ) (username : String) (m : Cache C T) (s : ApiSession)
        → IsSorted (get_all_by_user p storage now username m)
          × (In s (get_all_by_user p storage now username m)
              ↔ ((s.username ≡ username) × (k : ℤ) × (get p storage now k m ≡ some s)))
    unfolding get_all_by_user get
    get_all_by_user_lem now username m s =
        let sorted = In-sort s (sessions_of username (p.items now m.cache)) in
        (
          sort-IsSorted (sessions_of username (p.items now m.cache)),
          (
            λ listed.
                let (k, i, name) = item_of username s (p.items now m.cache) (sorted.0 listed) in
                (name, k, (law.items_iff now k s m.cache).0 i),
            λ (name, k, found). sorted.1 (
                In-sessions_of username k s (p.items now m.cache)
                  ((law.items_iff now k s m.cache).1 found) name),
          ),
        )

    save-IsKeyed :
        (now : ℕ) (s : ApiSession) (m : Cache C T)
        → IsKeyed m.cache
        → IsKeyed ((save p storage now s m).0.cache)
    unfolding save
    save-IsKeyed now s m v later k t found = elim (Result-cases (storage.save s m.storage)) [
      | inr (e, bad) ↦ v later k t (ground arith)
      | inl (r, good) ↦ elim (Bool-cases (r.1 == k)) [
        | inl same ↦
            let value : record s { session_id = r.1 } ≡ t =
              law.get-set_value now later (r.1) (until s.expires_at now)
                (record s { session_id = r.1 }) t m.cache
                (ground (arith, int_eq.equal_iff (r.1) k)) in
            ap (λ (x : ApiSession). x.session_id) (sym value) ∙ (int_eq.equal_iff (r.1) k).0 same
        | inr other ↦ v later k t (
            ground (
              arith,
              law.get-set_other now later (r.1) k (until s.expires_at now)
                  (record s { session_id = r.1 }) m.cache other,
            ))
      ]
    ]

    delete-IsKeyed : (id : ℤ) (c : C) → IsKeyed c → IsKeyed (p.delete id c)
    delete-IsKeyed id c v now k s found = v now k s (ground (arith, law.get-delete now id k c))

    delete_each-IsKeyed :
        (ss : List ApiSession) (c : C) → IsKeyed c → IsKeyed (delete_each p storage ss c)
    unfolding delete_each
    delete_each-IsKeyed [] c v = v
    delete_each-IsKeyed (s ∷ ss) c v =
        delete_each-IsKeyed ss (p.delete s.session_id c) (delete-IsKeyed s.session_id c v)

    delete_all_cache :
        (now : ℕ) (u : String) (m : Cache C T)
        → (delete_all_by_user p storage now u m).0.cache
          ≡ delete_each p storage (sessions_of u (p.items now m.cache)) m.cache
    unfolding delete_all_by_user delete_user_sessions_from_cache
    delete_all_cache now u m = elim (Result-cases (storage.delete_all_by_user u m.storage)) [
      | inl (t, good) ↦ ground arith
      | inr (e, bad) ↦ ground arith
    ]

    listed_has_id :
        (now later : ℕ) (u : String) (k : ℤ) (s : ApiSession) (c : C)
        → IsKeyed c
        → now ≤ later
        → p.get later k c ≡ some s
        → (has_id k (sessions_of u (p.items now c)) ≡ true) ↔ (s.username ≡ u)
    listed_has_id now later u k s c v h found =
        let earlier : p.get now k c ≡ some s = law.get_earlier now later k s c h found in
        (
          λ listed.
              let (t, i, id) = has_id-In k (sessions_of u (p.items now c)) listed in
              let (j, item, name) = item_of u t (p.items now c) i in
              let there : p.get now j c ≡ some t = (law.items_iff now j t c).0 item in
              let key : j ≡ k = sym (v now j t there) ∙ id in
              let both : some t ≡ some s =
                sym (subst (λ x. p.get now x c ≡ some t) key there) ∙ earlier in
              ground (arith, name),
          λ name.
              let i : In s (sessions_of u (p.items now c)) =
                In-sessions_of u k s (p.items now c) ((law.items_iff now k s c).1 earlier) name in
              subst (λ x. has_id x (sessions_of u (p.items now c)) ≡ true) (v later k s found)
                (In-has_id s (sessions_of u (p.items now c)) i),
        )

    -- Deleting all sessions of a user, also if the storage then fails, leaves from that time on
    -- exactly the sessions of the other users, where each entry of the cache stands under the id
    -- of its session.
    pub delete_all_by_user_lem :
        (now later : ℕ) (username : String) (m : Cache C T) (k : ℤ) (s : ApiSession)
        → IsKeyed m.cache
        → now ≤ later
        → (get p storage later k ((delete_all_by_user p storage now username m).0) ≡ some s)
          ↔ ((get p storage later k m ≡ some s) × (s.username ≢ username))
    unfolding get
    delete_all_by_user_lem now later u m k s v h = ground (
      arith,
      ap (p.get later k) (delete_all_cache now u m),
      get-delete_each later k (sessions_of u (p.items now m.cache)) m.cache,
      listed_has_id now later u k s m.cache v h,
    )

    delete_cache :
        (id : ℤ) (m : Cache C T)
        → ((delete p storage id m).0.cache ≡ p.delete id m.cache)
          ⊎ ((delete p storage id m).0.cache ≡ m.cache)
    unfolding delete
    delete_cache id m = elim (Result-cases (storage.delete id m.storage)) [
      | inl (t, good) ↦ inl (ground arith)
      | inr (e, bad) ↦ inr (ground arith)
    ]

    pub delete_by_id_cache :
        (now : ℕ) (u : String) (id : ℤ) (m : Cache C T)
        → (delete_by_id p storage now u id m).0.cache ≡ (
            if id == negsuc 0
            then delete_each p storage (sessions_of u (p.items now m.cache)) m.cache
            else p.delete id m.cache)
    unfolding delete_by_id delete_user_sessions_from_cache
    delete_by_id_cache now u id m = elim (Result-cases (storage.delete_by_id u id m.storage)) [
      | inl (t, good) ↦ ground arith
      | inr (e, bad) ↦ ground arith
    ]

    delete_by_id-IsKeyed :
        (now : ℕ) (u : String) (id : ℤ) (m : Cache C T)
        → IsKeyed m.cache
        → IsKeyed ((delete_by_id p storage now u id m).0.cache)
    delete_by_id-IsKeyed now u id m v = elim (Bool-cases (id == negsuc 0)) [
      | inl all_of ↦
          subst IsKeyed (sym (delete_by_id_cache now u id m ∙ ground arith))
            (delete_each-IsKeyed (sessions_of u (p.items now m.cache)) m.cache v)
      | inr one ↦
          subst IsKeyed (sym (delete_by_id_cache now u id m ∙ ground arith))
            (delete-IsKeyed id m.cache v)
    ]

    -- Saving and deleting keep each entry of the cache under the id of its session.
    pub IsKeyed-kept :
        (now : ℕ) (s : ApiSession) (u : String) (id : ℤ) (m : Cache C T)
        → IsKeyed m.cache
        → IsKeyed ((save p storage now s m).0.cache)
          × IsKeyed ((delete p storage id m).0.cache)
          × IsKeyed ((delete_by_id p storage now u id m).0.cache)
          × IsKeyed ((delete_all_by_user p storage now u m).0.cache)
    IsKeyed-kept now s u id m v = (
      save-IsKeyed now s m v,
      elim (delete_cache id m) [
        | inl e ↦ subst IsKeyed (sym e) (delete-IsKeyed id m.cache v)
        | inr e ↦ subst IsKeyed (sym e) v
      ],
      delete_by_id-IsKeyed now u id m v,
      subst IsKeyed (sym (delete_all_cache now u m))
          (delete_each-IsKeyed (sessions_of u (p.items now m.cache)) m.cache v),
    )
