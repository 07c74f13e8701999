-- ===== src/Sessions.antt =====
-- server/api/session/session.go and cache.go: the sessions of the API's users, in a cache in front
-- of a storage. The cache is github.com/patrickmn/go-cache: an argument, keyed here by the id whose
-- decimal text formatID gives; each entry is an APISession, so the errors for another type cannot
-- occur. A time is in nanoseconds.
pub mod Storage
pub mod Order
pub mod Laws
pub mod Items
pub mod Users
pub mod Drift
use openrport.Prelude.{
  ℕ, suc, ◌+◌, ◌-◌, ◌≤◌, ◌≡◌, ◌↔◌, String, Bool, true, false, List, [], ◌∷◌, Option, none, some,
  ltb, leb, if◌then◌else◌, ◌==◌, string_eq, filter, In,
}
use openrport.Prelude.Int.{ℤ, pos, negsuc, int_eq}
use openrport.Prelude.Results.{Result, ok, err}
use openrport.Prelude.Actions.{Action, ◌>>=◌, ◌>>◌, return}

pub record ApiSession : Type 0 where
  pub session_id : ℤ
  pub expires_at : ℕ
  pub last_access_at : ℕ
  pub username : String
  pub user_agent : String
  pub ip_address : String

pub data SessionError : Type 0 where
  storage_failed : SessionError
  unable_to_delete_from_storage : SessionError → SessionError

pub record InternalCacheProvider (C : Type 0) : Type 0 where
  pub set : ℕ → ℤ → ApiSession → ℤ → C → C
  pub get : ℕ → ℤ → C → Option ApiSession
  pub delete : ℤ → C → C
  pub items : ℕ → C → List (ℤ × ApiSession)

-- What go-cache documents: an item is returned until its expiration, which is `d` after the call
-- where `d` is positive, and Items returns what Get returns.
pub record IsCache {C : Type 0} (p : InternalCacheProvider C) : Type 0 where
  pub get-set :
      (now later d : ℕ) (k : ℤ) (s : ApiSession) (c : C)
      → p.get later k (p.set now k s (pos (suc d)) c)
        ≡ (if ltb (now + suc d) later then none else some s)
  pub get-set_value :
      (now later : ℕ) (k d : ℤ) (s t : ApiSession) (c : C)
      → p.get later k (p.set now k s d c) ≡ some t
      → s ≡ t
  pub get-set_other :
      (now later : ℕ) (k j d : ℤ) (s : ApiSession) (c : C)
      → (k == j) ≡ false
      → p.get later j (p.set now k s d c) ≡ p.get later j c
  pub get-delete :
      (now : ℕ) (k j : ℤ) (c : C)
      → p.get now j (p.delete k c) ≡ (if k == j then none else p.get now j c)
  pub get_earlier :
      (now later : ℕ) (k : ℤ) (s : ApiSession) (c : C)
      → now ≤ later
      → p.get later k c ≡ some s
      → p.get now k c ≡ some s
  pub items_iff :
      (now : ℕ) (k : ℤ) (s : ApiSession) (c : C)
      → In (k, s) (p.items now c) ↔ (p.get now k c ≡ some s)

pub record StorageProvider (T : Type 0) : Type 0 where
  pub get : ℤ → T → Result SessionError (Option ApiSession)
  pub get_all : ℕ → T → Result SessionError (List ApiSession)
  pub save : ApiSession → T → Result SessionError (T × ℤ)
  pub delete : ℤ → T → Result SessionError T
  pub delete_expired : ℕ → T → Result SessionError T
  pub delete_all_by_user : String → T → Result SessionError T
  pub delete_by_id : String → ℤ → T → Result SessionError T

pub record Cache (C T : Type 0) : Type 0 where
  pub cache : C
  pub storage : T

-- time.Until and time.Sub
abbrev pub until : ℕ → ℕ → ℤ
until t now = if leb now t then pos (t - now) else negsuc (now - t - 1)

-- Stable insertion by the time of the last access, for sort.SliceStable.
unfoldable pub insert_by_access : ApiSession → List ApiSession → List ApiSession
insert_by_access s [] = s ∷ []
insert_by_access s (t ∷ ts) =
    let rest = insert_by_access s ts in
    if ltb t.last_access_at s.last_access_at then t ∷ rest else s ∷ t ∷ ts

unfoldable pub sort_by_access : List ApiSession → List ApiSession
sort_by_access [] = []
sort_by_access (s ∷ ss) = insert_by_access s (sort_by_access ss)

abbrev pub sessions_of : String → List (ℤ × ApiSession) → List ApiSession
sessions_of username [] = []
sessions_of username ((k, s) ∷ items) =
    let rest = sessions_of username items in if s.username == username then s ∷ rest else rest

module _ {C T : Type 0} (p : InternalCacheProvider C) (storage : StorageProvider T) where
  -- The loop of NewCache.
  unfoldable pub fill : ℕ → List ApiSession → C → C
  fill now [] c = c
  fill now (s ∷ ss) c = fill now ss (p.set now s.session_id s (until s.expires_at now) c)

  unfoldable pub new_cache : ℕ → C → T → Result SessionError (Cache C T)
  new_cache now c t = elim (storage.get_all now t) [
    | err e ↦ err e
    | ok valid_sessions ↦ ok (record { cache = fill now valid_sessions c; storage = t })
  ]

  unfoldable pub get : ℕ → ℤ → Cache C T → Option ApiSession
  get now session_id m = p.get now session_id m.cache

  -- A write to the storage.
  abbrev pub write : (T → Result SessionError T) → Action (Cache C T) SessionError (Unit {0})
  write f m = elim (f m.storage) [ ok t ↦ (record m { storage = t }, ok tt) | err e ↦ (m, err e) ]

  abbrev update_cache : (C → C) → Action (Cache C T) SessionError (Unit {0})
  update_cache f m = (record m { cache = f m.cache }, ok tt)

  unfoldable pub save : ℕ → ApiSession → Action (Cache C T) SessionError ℤ
  save now s m = elim (storage.save s m.storage) [
    | err e ↦ (m, err e)
    | ok r ↦ (
      record m {
        storage = r.0;
        cache = p.set now (r.1) (record s { session_id = r.1 }) (until s.expires_at now) m.cache;
      },
      ok (r.1),
    )
  ]

  unfoldable pub delete : ℤ → Action (Cache C T) SessionError (Unit {0})
  delete session_id = do write (storage.delete session_id); update_cache (p.delete session_id)

  unfoldable pub delete_expired : ℕ → Action (Cache C T) SessionError (Unit {0})
  delete_expired now = write (storage.delete_expired now)

  unfoldable pub get_all_by_user : ℕ → String → Cache C T → List ApiSession
  get_all_by_user now username m = sort_by_access (sessions_of username (p.items now m.cache))

  -- The loop of deleteUserSessionsFromCache.
  unfoldable pub delete_each : List ApiSession → C → C
  delete_each [] c = c
  delete_each (s ∷ ss) c = delete_each ss (p.delete s.session_id c)

  unfoldable pub delete_user_sessions_from_cache : ℕ → String → ℤ → C → C
  unfolding delete_each
  delete_user_sessions_from_cache now username session_id c =
      if session_id == negsuc 0
      then delete_each (sessions_of username (p.items now c)) c
      else p.delete session_id c

  abbrev wrapped : Result SessionError T → Result SessionError T
  wrapped (ok t) = ok t
  wrapped (err e) = err (unable_to_delete_from_storage e)

  unfoldable pub delete_by_id : ℕ → String → ℤ → Action (Cache C T) SessionError (Unit {0})
  unfolding delete_user_sessions_from_cache
  delete_by_id now username session_id = do
    update_cache (delete_user_sessions_from_cache now username session_id)
    write (λ t. wrapped (storage.delete_by_id username session_id t))

  unfoldable pub delete_all_by_user : ℕ → String → Action (Cache C T) SessionError (Unit {0})
  unfolding delete_user_sessions_from_cache
  delete_all_by_user now username = do
    update_cache (delete_user_sessions_from_cache now username (negsuc 0))
    write (λ t. wrapped (storage.delete_all_by_user username t))
