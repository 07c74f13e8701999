-- ===== src/Security/MaxBadAttempts/Laws.antt =====
-- The attempts ban list of share/security/banlist.go over whole histories of attempts.
use openrport.Prelude.{
  ℕ, suc, ◌+◌, ◌<◌, ◌≡◌, refl, ap, ◌∙◌, String, Bool, true, false, List, ◌∷◌, [], inl, inr, ◌++◌,
  Option, none, some, arith, eq_iff, ltb, if◌then◌else◌, ◌==◌, lookup, lookup-insert, string_eq,
  nat_eq, Option-cases, beq_refl,
}
use openrport.Security.MaxBadAttempts.{
  Visitor, MaxBadAttemptsBanList, Attempt, bad, success, is_banned, step, run, visitor_or_new,
  count_bad,
}

-- The consecutive bad attempts counted for a visitor.
abbrev pub attempts_of : Option Visitor → ℕ
attempts_of none = 0
attempts_of (some v) = v.bad_attempts

abbrev pub attempts : String → MaxBadAttemptsBanList → ℕ
attempts k l = attempts_of (lookup k l.visitors)

-- The bad attempts of one visitor in a history, and whether none of its attempts succeeds.
abbrev pub bad_count : String → List Attempt → ℕ
bad_count k [] = 0
bad_count k (bad now j ∷ rest) = if j == k then suc (bad_count k rest) else bad_count k rest
bad_count k (success j ∷ rest) = bad_count k rest

abbrev pub no_success : String → List Attempt → Bool
no_success k [] = true
no_success k (bad now j ∷ rest) = no_success k rest
no_success k (success j ∷ rest) = if j == k then false else no_success k rest

lookup-bad :
    (l : MaxBadAttemptsBanList) (now : ℕ) (j k : String)
    → lookup k (step l (bad now j)).visitors ≡ (
        if j == k
        then some (count_bad now l (visitor_or_new (lookup j l.visitors)))
        else lookup k l.visitors)
unfolding step
lookup-bad l now j k = lookup-insert j k _ l.visitors

lookup-success_other :
    (l : MaxBadAttemptsBanList) (j k : String)
    → (j == k) ≡ false
    → lookup k (step l (success j)).visitors ≡ lookup k l.visitors
unfolding step
lookup-success_other l j k h = elim (Option-cases (lookup j l.visitors)) [
  | inl e ↦ rw (e, step) refl
  | inr (v, e) ↦ rw (e, step) (rw (lookup-insert j k _ l.visitors) (rw h refl))
]

max-step :
    (l : MaxBadAttemptsBanList) (a : Attempt) → (step l a).max_bad_attempts ≡ l.max_bad_attempts
unfolding step
max-step l (bad now k) = refl
max-step l (success k) = ground arith

duration-step : (l : MaxBadAttemptsBanList) (a : Attempt) → (step l a).ban_duration ≡ l.ban_duration
unfolding step
duration-step l (bad now k) = refl
duration-step l (success k) = ground arith

duration-run :
    (l : MaxBadAttemptsBanList) (history : List Attempt)
    → (run l history).ban_duration ≡ l.ban_duration
unfolding run
duration-run l [] = refl
duration-run l (a ∷ rest) = duration-run (step l a) rest ∙ duration-step l a

max-run :
    (l : MaxBadAttemptsBanList) (history : List Attempt)
    → (run l history).max_bad_attempts ≡ l.max_bad_attempts
unfolding run
max-run l [] = refl
max-run l (a ∷ rest) = max-run (step l a) rest ∙ max-step l a

run-append :
    (l : MaxBadAttemptsBanList) (xs ys : List Attempt) → run l (xs ++ ys) ≡ run (run l xs) ys
unfolding run
run-append l [] ys = refl
run-append l (a ∷ xs) ys = run-append (step l a) xs ys

-- One bad attempt below the maximum counts and bans nobody.
bad_below :
    (l : MaxBadAttemptsBanList) (t now : ℕ) (j k : String)
    → (if j == k then suc (attempts k l) else attempts k l) < l.max_bad_attempts
    → (is_banned now k (step l (bad t j)) ≡ is_banned now k l)
      × (attempts k (step l (bad t j)) ≡ (if j == k then suc (attempts k l) else attempts k l))
unfolding is_banned
bad_below l t now j k h = ground (
  arith,
  lookup-bad l t j k,
  eq_iff j k,
  ap (λ (x : String). lookup x l.visitors) {x = j} {y = k},
)

success_other :
    (l : MaxBadAttemptsBanList) (now : ℕ) (j k : String)
    → (j == k) ≡ false
    → (is_banned now k (step l (success j)) ≡ is_banned now k l)
      × (attempts k (step l (success j)) ≡ attempts k l)
unfolding is_banned
success_other l now j k h = rw (lookup-success_other l j k h) (refl, refl)

bad_at_max :
    (l : MaxBadAttemptsBanList) (t now : ℕ) (k : String)
    → suc (attempts k l) ≡ l.max_bad_attempts
    → (is_banned now k (run l (bad t k ∷ [])) ≡ ltb now (t + l.ban_duration))
      × (attempts k (run l (bad t k ∷ [])) ≡ 0)
unfolding is_banned run
bad_at_max l t now k h = ground (arith, lookup-bad l t k k, eq_iff k k)

-- While a visitor has no success and fewer than `max_bad_attempts` bad attempts in a row, counting
-- those before the history, nothing that anybody does changes whether it is banned.
pub banned-run_below :
    (l : MaxBadAttemptsBanList) (history : List Attempt) (k : String) (now : ℕ)
    → no_success k history ≡ true
    → attempts k l + bad_count k history < l.max_bad_attempts
    → (is_banned now k (run l history) ≡ is_banned now k l)
      × (attempts k (run l history) ≡ attempts k l + bad_count k history)
unfolding run
banned-run_below l [] k now s h = (refl, omega arith)
banned-run_below l (bad t j ∷ rest) k now s h =
    let here = bad_below l t now j k (ground arith) in
    let later = banned-run_below (step l (bad t j)) rest k now s in
    ground (arith, here, later, max-step l (bad t j))
banned-run_below l (success j ∷ rest) k now s h =
    let same = success_other l now j k in
    let later = banned-run_below (step l (success j)) rest k now in
    ground (arith, same, later, max-step l (success j))

-- The bad attempt that brings a visitor's run of failures to `max_bad_attempts`, whatever others do
-- in between, bans it exactly until `ban_duration` later, and its count starts again.
pub banned-run_max :
    (l : MaxBadAttemptsBanList) (history : List Attempt) (k : String) (t now : ℕ)
    → no_success k history ≡ true
    → attempts k l + bad_count k history + 1 ≡ l.max_bad_attempts
    → (is_banned now k (run l (history ++ bad t k ∷ [])) ≡ ltb now (t + l.ban_duration))
      × (attempts k (run l (history ++ bad t k ∷ [])) ≡ 0)
banned-run_max l history k t now s h =
    let below = banned-run_below l history k now s (omega arith) in
    let last = bad_at_max (run l history) t now k (omega (arith, below, max-run l history)) in
    rw (run-append l history (bad t k ∷ [])) (ground (arith, last, duration-run l history))

-- After a successful attempt the visitor is not banned and none of its earlier failures counts.
pub success_resets :
    (l : MaxBadAttemptsBanList) (k : String) (now : ℕ)
    → (is_banned now k (step l (success k)) ≡ false) × (attempts k (step l (success k)) ≡ 0)
unfolding is_banned step
success_resets l k now = elim (Option-cases (lookup k l.visitors)) [
  | inl e ↦ rw (e, step) (rw e (refl, refl))
  | inr (v, e) ↦ rw (e, step) (rw (lookup-insert k k _ l.visitors) (rw (beq_refl k) (refl, refl)))
]
