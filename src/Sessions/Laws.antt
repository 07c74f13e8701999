-- ===== src/Sessions/Laws.antt =====
-- server/api/session/cache.go: what a session that is saved or deleted does to later reads.
use openrport.Prelude.{
  ℕ, suc, ◌+◌, ◌-◌, ◌<◌, ◌≡◌, inl, inr, none, some, arith, ltb, if◌then◌else◌, ◌==◌, Bool-cases,
}
use openrport.Prelude.Int.{ℤ, pos, int_eq}
use openrport.Prelude.Results.{ok, Result-cases}
use openrport.Sessions.{
  ApiSession, InternalCacheProvider, IsCache, StorageProvider, Cache, until, get, save, delete,
}

until_later : (t now : ℕ) → now < t → until t now ≡ pos (suc (t - now - 1))
until_later t now h = ground arith

module _ {C T : Type 0} (p : InternalCacheProvider C) (law : IsCache p)
    (storage : StorageProvider T) where
  set_lem :
      (now later t : ℕ) (k j : ℤ) (s : ApiSession) (c : C)
      → now < t
      → p.get later j (p.set now k s (until t now) c)
        ≡ (if k == j then (if ltb t later then none else some s) else p.get later j c)
  set_lem now later t k j s c h = elim (Bool-cases (k == j)) [
    | inl same ↦ rw (until_later t now h) (
        ground (
          arith,
          law.get-set now later (t - now - 1) k s c,
          int_eq.equal_iff k j,
          (λ (e : now + suc (t - now - 1) ≡ t). e) (omega arith),
        ))
    | inr other ↦ ground (arith, law.get-set_other now later k j (until t now) s c other)
  ]

  -- A session saved before it expires is returned under the id that the storage gave it, until it
  -- expires; the other sessions are returned as before.
  pub get-save :
      (now later : ℕ) (s : ApiSession) (id j : ℤ) (m : Cache C T)
      → (save p storage now s m).1 ≡ ok id
      → now < s.expires_at
      → get p storage later j ((save p storage now s m).0) ≡ (
          if id == j
          then (if ltb s.expires_at later then none else some (record s { session_id = id }))
          else get p storage later j m)
  unfolding get save
  get-save now later s id j m h live = elim (Result-cases (storage.save s m.storage)) [
    | inl (r, good) ↦
        ground (
          arith,
          set_lem now later s.expires_at (r.1) j (record s { session_id = r.1 }) m.cache live,
        )
    | inr (e, bad) ↦ ground arith
  ]

  -- Deleting a session ends it, and no other.
  pub get-delete :
      (later : ℕ) (id j : ℤ) (m : Cache C T)
      → (delete p storage id m).1 ≡ ok tt
      → get p storage later j ((delete p storage id m).0)
        ≡ (if id == j then none else get p storage later j m)
  unfolding get delete
  get-delete later id j m h = elim (Result-cases (storage.delete id m.storage)) [
    | inl (r, good) ↦ ground (arith, law.get-delete later id j m.cache)
    | inr (e, bad) ↦ ground arith
  ]
