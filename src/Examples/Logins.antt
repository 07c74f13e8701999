-- ===== src/Examples/Logins.antt =====
-- Sessions in a cache that is a list of entries, over an empty and a filled table.
use openrport.Prelude.{
  length, ◌||◌, ◌==◌, nat_eq, ℕ, eq_iff, suc, ◌+◌, ◌≤◌, ◌≡◌, ◌≢◌, ◌↔◌, refl, ap, Bool, true, false,
  not, ◌&&◌, contains, List, [], ◌∷◌, Option, none, some, arith, In, if◌then◌else◌, ◌==◌, ltb,
}
use openrport.Prelude.Int.{ℤ, pos, int_eq}
use openrport.Prelude.Results.{ok}
use openrport.Sessions.{
  ApiSession, InternalCacheProvider, IsCache, Cache, get, save, delete, delete_by_id,
  delete_all_by_user, get_all_by_user,
}
use openrport.Sessions.Storage.{Table, sqlite_provider}
use openrport.Sessions.Users.{IsKeyed, IsKeyed-kept, delete_all_by_user_lem}
use openrport.Strings.{Text}
use openrport.Bearer.{
  Scope, TokenContext, validate_bearer_token, current_uri_matches_token_scopes, rooted,
}
use openrport.Bearer.Scopes.{includes, excludes, scopes_lem}
use openrport.Bearer.Tokens.{deleted_session_refused, revoked_token_accepted}
use openrport.Sessions.Drift.{delete_by_id_other_user, save_after_deletion}

-- The session and, unless it never expires, the time until which it is returned.
abbrev Entry : Type 0
Entry = ApiSession × Option ℕ

abbrev Entries : Type 0
Entries = List (ℤ × Entry)

abbrev live : ℕ → Entry → Bool
live now (s, none) = true
live now (s, some t) = not (ltb t now)

abbrev shown : ℕ → Entry → Option ApiSession
shown now e = if live now e then some (e.0) else none

abbrev find : ℕ → ℤ → Entries → Option ApiSession
find now k [] = none
find now k ((j, e) ∷ c) = if j == k then shown now e else find now k c

abbrev without : ℤ → Entries → Entries
without k [] = []
without k ((j, e) ∷ c) = let rest = without k c in if j == k then rest else (j, e) ∷ rest

abbrev expiration : ℕ → ℤ → Option ℕ
expiration now (pos (suc d)) = some (now + suc d)
expiration now _ = none

-- The entries that no earlier one under the same key hides.
abbrev listed : ℕ → List ℤ → Entries → List (ℤ × ApiSession)
listed now seen [] = []
listed now seen ((j, e) ∷ c) =
    let rest = listed now (j ∷ seen) c in
    if not (contains seen j) && live now e then (j, e.0) ∷ rest else rest

abbrev entries : InternalCacheProvider Entries
entries = record {
  set = λ now k s d c. (k, (s, expiration now d)) ∷ c;
  get = find;
  delete = without;
  items = λ now c. listed now [] c;
}

contains_same : (seen : List ℤ) (j k : ℤ) → j ≡ k → contains seen j ≡ contains seen k
contains_same seen j k e = ap (contains seen) e

pair_iff :
    (j k : ℤ) (t s : ApiSession) → (◌≡◌ {A = ℤ × ApiSession} (j, t) (k, s)) ↔ ((j ≡ k) × (t ≡ s))
pair_iff j k t s =
    (λ e. (ap (λ (x : ℤ × ApiSession). x.0) e, ap (λ (x : ℤ × ApiSession). x.1) e), λ (e, f). cc)

find-without :
    (now : ℕ) (k j : ℤ) (c : Entries)
    → find now j (without k c) ≡ (if k == j then none else find now j c)
find-without now k j [] = ground arith
find-without now k j ((i, e) ∷ c) = ground (
  arith,
  find-without now k j c,
  int_eq.equal_iff i k,
  int_eq.equal_iff i j,
  int_eq.equal_iff k j,
)

shown_earlier :
    (now later : ℕ) (e : Entry) (s : ApiSession)
    → now ≤ later
    → shown later e ≡ some s
    → shown now e ≡ some s
shown_earlier now later (t, none) s h found = found
shown_earlier now later (t, some u) s h found = ground arith

find_earlier :
    (now later : ℕ) (k : ℤ) (s : ApiSession) (c : Entries)
    → now ≤ later
    → find later k c ≡ some s
    → find now k c ≡ some s
find_earlier now later k s [] h found = found
find_earlier now later k s ((j, e) ∷ c) h found =
    ground (arith, find_earlier now later k s c h, shown_earlier now later e s h)

listed_iff :
    (now : ℕ) (seen : List ℤ) (k : ℤ) (s : ApiSession) (c : Entries)
    → In (k, s) (listed now seen c) ↔ ((contains seen k ≡ false) × (find now k c ≡ some s))
listed_iff now seen k s [] = ground arith
listed_iff now seen k s ((j, (t, e)) ∷ c) = ground (
  arith,
  listed_iff now (j ∷ seen) k s c,
  int_eq.equal_iff j k,
  contains_same seen j k,
  pair_iff j k t s,
)

entries_law : IsCache entries
entries_law = record {
  get-set = λ now later d k s c. ground (arith, int_eq.equal_iff k k);
  get-set_value = λ now later k d s t c h. ground (arith, int_eq.equal_iff k k);
  get-set_other = λ now later k j d s c h. ground (arith, h);
  get-delete = find-without;
  get_earlier = find_earlier;
  items_iff = λ now k s c. ground (arith, listed_iff now [] k s c);
}

abbrev ann : ApiSession
ann = record {
  session_id = pos 1;
  expires_at = 100;
  last_access_at = 5;
  username = "ann";
  user_agent = "";
  ip_address = "";
}

abbrev logins : Cache Entries Table
logins = record { cache = (pos 1, (ann, some 100)) ∷ []; storage = ann ∷ [] }

logins-IsKeyed : IsKeyed entries entries_law logins.cache
logins-IsKeyed now k s h =
    ground
      (arith, int_eq.equal_iff (pos 1) k, ap (λ (x : ApiSession). x.session_id) {x = ann} {y = s})

delete_all_by_user_lem_example :
    (get entries sqlite_provider 20
        (pos 1)
        ((delete_all_by_user entries sqlite_provider 10 "ann" logins).0)
      ≡ some ann)
    ↔ ((get entries sqlite_provider 20 (pos 1) logins ≡ some ann) × (ann.username ≢ "ann"))
delete_all_by_user_lem_example =
    delete_all_by_user_lem entries entries_law sqlite_provider 10 20 "ann" logins (pos 1) ann
      logins-IsKeyed (omega arith)

IsKeyed-kept_example :
    IsKeyed entries entries_law ((save entries sqlite_provider 10 ann logins).0.cache)
    × IsKeyed entries entries_law ((delete entries sqlite_provider (pos 1) logins).0.cache)
    × IsKeyed entries entries_law
        ((delete_by_id entries sqlite_provider 10 "ann" (pos 1) logins).0.cache)
    × IsKeyed entries entries_law
        ((delete_all_by_user entries sqlite_provider 10 "ann" logins).0.cache)
IsKeyed-kept_example =
    IsKeyed-kept entries entries_law sqlite_provider 10 ann "ann" (pos 1) logins logins-IsKeyed

delete_by_id_other_user_example :
    (get entries sqlite_provider 20
        (pos 1)
        ((delete_by_id entries sqlite_provider 10 "bob" (pos 1) logins).0)
      ≡ none)
    × ((delete_by_id entries sqlite_provider 10 "bob" (pos 1) logins).0.storage ≡ ann ∷ [])
delete_by_id_other_user_example =
    delete_by_id_other_user entries entries_law 10 20 "bob" (pos 1) logins refl refl

abbrev deleted : Cache Entries Table
deleted = record { cache = []; storage = [] }

save_after_deletion_example :
    ((save entries sqlite_provider 10 ann deleted).1 ≡ ok (pos 1))
    × (get entries sqlite_provider 10 (pos 1) ((save entries sqlite_provider 10 ann deleted).0)
        ≡ some ann)
    × ((save entries sqlite_provider 10 ann deleted).0.storage ≡ [])
unfolding openrport.Sessions.Storage.find_by_id
save_after_deletion_example =
    save_after_deletion entries entries_law 10 ann deleted refl refl (omega arith)

abbrev me : Text
me = b'/' ∷ b'm' ∷ b'e' ∷ []

abbrev get_method : Text
get_method = b'G' ∷ b'E' ∷ b'T' ∷ []

abbrev everywhere : Scope
everywhere = record { uri = b'*' ∷ []; method = b'*' ∷ []; exclude = false }

abbrev not_me : Scope
not_me = record { uri = me; method = b'*' ∷ []; exclude = true }

scopes_lem_example : current_uri_matches_token_scopes me get_method (everywhere ∷ not_me ∷ []) ≡ (
    length (everywhere ∷ not_me ∷ []) == 0
    || (includes (rooted me) get_method (everywhere ∷ not_me ∷ [])
        && not (excludes (rooted me) get_method (everywhere ∷ not_me ∷ []))))
scopes_lem_example = scopes_lem me get_method (everywhere ∷ not_me ∷ [])

abbrev token : TokenContext
token = record {
  app_claims = record { username = "ann"; session_id = pos 1; scopes = [] };
  jwt_valid = true;
}

deleted_session_refused_example :
    validate_bearer_token entries sqlite_provider 10 token me get_method
      ((delete entries sqlite_provider (pos 1) logins).0)
    ≡ none
unfolding delete
deleted_session_refused_example =
    deleted_session_refused entries entries_law sqlite_provider 10 token me get_method logins refl

abbrev new_ann : ApiSession
new_ann = record ann { session_id = pos 0 }

abbrev new_bob : ApiSession
new_bob = record new_ann { username = "bob" }

revoked_token_accepted_example :
    validate_bearer_token entries sqlite_provider 20 token me get_method (
      (save entries sqlite_provider 20 new_bob (
        (delete entries sqlite_provider
          (pos 1)
          ((save entries sqlite_provider 10 new_ann deleted).0)).0)).0)
    ≡ some (record new_bob { session_id = pos 1 })
unfolding current_uri_matches_token_scopes save openrport.Sessions.Storage.save_session
revoked_token_accepted_example =
    revoked_token_accepted entries entries_law 10 20 new_ann new_bob deleted token me get_method
      refl refl (omega arith) refl (λ h. ground (arith, eq_iff "ann" "")) refl refl
