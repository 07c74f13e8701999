-- ===== src/Sessions/Items.antt =====
-- server/api/session/cache.go: the items of the cache that are one user's, and their ids.
use openrport.Prelude.{
  ◌≡◌, refl, ap, sym, ◌∙◌, subst, ◌⊎◌, inl, inr, String, Bool, true, false, List, [], ◌∷◌, arith,
  if◌then◌else◌, ◌==◌, In, Bool-cases, string_eq, eq_iff,
}
use openrport.Prelude.Int.{ℤ, int_eq}
use openrport.Sessions.{ApiSession, sessions_of}

pub sessions_of-cons :
    (u : String) (k : ℤ) (t : ApiSession) (items : List (ℤ × ApiSession))
    → ((t.username ≡ u) × (sessions_of u ((k, t) ∷ items) ≡ t ∷ sessions_of u items))
      ⊎ (((t.username == u) ≡ false) × (sessions_of u ((k, t) ∷ items) ≡ sessions_of u items))
sessions_of-cons u k t items = ground (arith, eq_iff t.username u)

pub In-sessions_of :
    (u : String) (k : ℤ) (s : ApiSession) (items : List (ℤ × ApiSession))
    → In (k, s) items
    → s.username ≡ u
    → In s (sessions_of u items)
In-sessions_of u k s [] h e = absurd h
In-sessions_of u k s ((j, t) ∷ items) (inl here) e =
    let same : t ≡ s = ap (λ (x : ℤ × ApiSession). x.1) here in
    let name : t.username ≡ u = ap (λ (x : ApiSession). x.username) same ∙ e in
    elim (sessions_of-cons u j t items) [
      | inl (n, q) ↦ subst (In s) (sym q) (inl same)
      | inr (n, q) ↦ absurd (ground (arith, eq_iff t.username u))
    ]
In-sessions_of u k s ((j, t) ∷ items) (inr there) e =
    ground (arith, sessions_of-cons u j t items, In-sessions_of u k s items there e)

pub item_of :
    (u : String) (s : ApiSession) (items : List (ℤ × ApiSession))
    → In s (sessions_of u items)
    → (k : ℤ) × In (k, s) items × (s.username ≡ u)
item_of u s [] h = absurd h
item_of u s ((j, t) ∷ items) h = elim (sessions_of-cons u j t items) [
  | inl (same, e) ↦ elim (subst (In s) e h) [
    | inl here ↦
        (j, inl (ap (λ x. (j, x)) here), ap (λ (x : ApiSession). x.username) (sym here) ∙ same)
    | inr there ↦ let (k, i, n) = item_of u s items there in (k, inr i, n)
  ]
  | inr (other, e) ↦ let (k, i, n) = item_of u s items (subst (In s) e h) in (k, inr i, n)
]

unfoldable pub has_id : ℤ → List ApiSession → Bool
has_id id [] = false
has_id id (s ∷ ss) = if s.session_id == id then true else has_id id ss

pub In-has_id : (s : ApiSession) (ss : List ApiSession) → In s ss → has_id s.session_id ss ≡ true
unfolding has_id
In-has_id s [] h = absurd h
In-has_id s (t ∷ ts) (inl e) =
    ground
      (arith, int_eq.equal_iff t.session_id s.session_id, ap (λ (x : ApiSession). x.session_id) e)
In-has_id s (t ∷ ts) (inr i) = ground (arith, In-has_id s ts i)

pub has_id-In :
    (id : ℤ) (ss : List ApiSession)
    → has_id id ss ≡ true
    → (s : ApiSession) × In s ss × (s.session_id ≡ id)
unfolding has_id
has_id-In id [] h = absurd (ground arith)
has_id-In id (s ∷ ss) h = elim (Bool-cases (s.session_id == id)) [
  | inl same ↦ (s, inl refl, (int_eq.equal_iff s.session_id id).0 same)
  | inr other ↦ let (t, i, e) = has_id-In id ss (ground arith) in (t, inr i, e)
]
