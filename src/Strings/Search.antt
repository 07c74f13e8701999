-- ===== src/Strings/Search.antt =====
-- What the searches of package strings find.
use openrport.Prelude.{
  ℕ, List, false, ◌||◌, ◌==◌, suc, ◌+◌, ◌-◌, ◌≤◌, ◌≡◌, refl, sym, ap, ◌∙◌, subst, true, [], ◌∷◌,
  ◌++◌, some, nat_eq, length, take, drop, list_beq_iff, length-append, drop-append, drop-append_add,
  drop-append_le, arith, Bool-cases, inl, inr, Option-cases,
}
use mathlib.Core.List.{append_assoc}
use openrport.Strings.{Text, has_prefix, has_suffix, index, split, contains_byte}

pub has_prefix-append : (p s : Text) → has_prefix (p ++ s) p ≡ true
unfolding has_prefix
has_prefix-append [] s = refl
has_prefix-append (c ∷ p) s = ground (arith, has_prefix-append p s)

-- A text with a prefix is the prefix and the rest.
pub has_prefix-split : (s p : Text) → has_prefix s p ≡ true → s ≡ p ++ drop (length p) s
unfolding has_prefix
has_prefix-split s [] h = refl
has_prefix-split [] (c ∷ p) h = cc
has_prefix-split (b ∷ s) (c ∷ p) h = ground (arith, has_prefix-split s p)

pub has_suffix-append : (x s : Text) → has_suffix (x ++ s) s ≡ true
unfolding has_suffix
has_suffix-append x s = ground (
  arith,
  length-append x s,
  drop-append x s,
  list_beq_iff (drop (length (x ++ s) - length s) (x ++ s)) s,
  ap (λ (n : ℕ). drop n (x ++ s)) {x = length (x ++ s) - length s} {y = length x}
      (omega (arith, length-append x s)),
)

pub has_suffix-split :
    (s suffix : Text)
    → has_suffix s suffix ≡ true
    → (length suffix ≤ length s) × (drop (length s - length suffix) s ≡ suffix)
unfolding has_suffix
has_suffix-split s suffix h =
    ground (arith, list_beq_iff (drop (length s - length suffix) s) suffix)

-- A suffix that is no longer than the end of a text is a suffix of that end.
pub has_suffix-shorter :
    (x s suffix : Text)
    → has_suffix (x ++ s) suffix ≡ true
    → length suffix ≤ length s
    → has_suffix s suffix ≡ true
unfolding has_suffix
has_suffix-shorter x s suffix h le = ground (
  arith,
  h,
  length-append x s,
  drop-append_add x s (length s - length suffix),
  ap (λ (n : ℕ). drop n (x ++ s)) {x = length (x ++ s) - length suffix}
      {y = length x + (length s - length suffix)} (omega (arith, length-append x s)),
)

-- The text sought stands at the index.
abbrev pub FoundAt : Text → Text → ℕ → Type 0
FoundAt s sub i = (s ≡ take i s ++ (sub ++ drop (i + length sub) s)) × (i + length sub ≤ length s)

FoundAt-zero : (s sub : Text) → has_prefix s sub ≡ true → FoundAt s sub 0
FoundAt-zero s sub h = (
  has_prefix-split s sub h
      ∙ ap (λ (n : ℕ). sub ++ drop n s) {x = length sub} {y = 0 + length sub} (omega arith),
  omega (arith, ap length (has_prefix-split s sub h), length-append sub (drop (length sub) s)),
)

FoundAt-suc : (c : ℕ) (s sub : Text) (i : ℕ) → FoundAt s sub i → FoundAt (c ∷ s) sub (suc i)
FoundAt-suc c s sub i (e, le) = (
  ap (◌∷◌ c) e
      ∙ ap (λ (n : ℕ). c ∷ (take i s ++ (sub ++ drop n (c ∷ s)))) {x = suc (i + length sub)}
          {y = suc i + length sub} (omega arith),
  omega arith,
)

-- What strings.Index finds is there.
pub index-FoundAt : (s sub : Text) (i : ℕ) → index s sub ≡ some i → FoundAt s sub i
unfolding index
index-FoundAt [] sub i h = elim (Bool-cases (has_prefix [] sub)) [
  | inl hit ↦ subst (FoundAt [] sub) {x = 0} {y = i} (ground (arith, hit)) (FoundAt-zero [] sub hit)
  | inr miss ↦ absurd (ground (arith, miss))
]
index-FoundAt (c ∷ s) sub i h = elim (Bool-cases (has_prefix (c ∷ s) sub)) [
  | inl hit ↦
      subst (FoundAt (c ∷ s) sub) {x = 0} {y = i} (ground (arith, hit))
        (FoundAt-zero (c ∷ s) sub hit)
  | inr miss ↦ elim (Option-cases (index s sub)) [
    | inl e ↦ absurd (ground (arith, miss, e))
    | inr (j, e) ↦
        subst (FoundAt (c ∷ s) sub) {x = suc j} {y = i} (ground (arith, miss, e))
          (FoundAt-suc c s sub j (index-FoundAt s sub j e))
  ]
]

-- If the text sought occurs, strings.Index finds an occurrence, and what follows the one known is
-- still behind it.
abbrev pub FoundBefore : Text → Text → Text → Type 0
FoundBefore s sub w =
    (i : ℕ) × (y : Text) × (index s sub ≡ some i) × (drop (i + length sub) s ≡ y ++ w)

pub index_hit : (s sub : Text) → has_prefix s sub ≡ true → index s sub ≡ some 0
unfolding index
index_hit [] sub h = rw h
index_hit (c ∷ s) sub h = rw h

pub index-FoundBefore : (u sub w : Text) → FoundBefore (u ++ (sub ++ w)) sub w
unfolding index
index-FoundBefore [] sub w = (
  0,
  [],
  index_hit (sub ++ w) sub (has_prefix-append sub w),
  ap (λ (n : ℕ). drop n (sub ++ w)) {x = 0 + length sub} {y = length sub} (omega arith)
      ∙ drop-append sub w,
)
index-FoundBefore (c ∷ u) sub w = elim (Bool-cases (has_prefix (c ∷ (u ++ (sub ++ w))) sub)) [
  | inl hit ↦ (
    0,
    drop (length sub) ((c ∷ u) ++ sub),
    rw hit,
    ap (λ (n : ℕ). drop n (c ∷ (u ++ (sub ++ w)))) {x = 0 + length sub} {y = length sub}
          (omega arith)
        ∙ ap (λ (t : Text). drop (length sub) (c ∷ t)) (sym (append_assoc u sub w))
        ∙ drop-append_le (length sub) ((c ∷ u) ++ sub) w (omega (arith, length-append (c ∷ u) sub)),
  )
  | inr miss ↦
      let (i, y, found, rest) = index-FoundBefore u sub w in
      (
        suc i,
        y,
        rw (miss) (rw found),
        ap (λ (n : ℕ). drop n (c ∷ (u ++ (sub ++ w)))) {x = suc i + length sub}
              {y = suc (i + length sub)} (omega arith)
            ∙ rest,
      )
]

-- Splitting a text without the separator yields the text, and there is always one part.
pub split_absent : (c : ℕ) (s : Text) → contains_byte c s ≡ false → split c s ≡ s ∷ []
unfolding split contains_byte
split_absent c [] h = refl
split_absent c (x ∷ s) h = ground (arith, split_absent c s)

pub split_nonempty : (c : ℕ) (s : Text) → (p : Text) × (ps : List Text) × (split c s ≡ p ∷ ps)
unfolding split
split_nonempty c [] = ([], [], refl)
split_nonempty c (x ∷ s) = elim (Bool-cases (x == c)) [
  | inl sep ↦ ([], split c s, rw sep)
  | inr other ↦ let (p, ps, e) = split_nonempty c s in (x ∷ p, ps, rw other (rw e))
]

pub split-append :
    (c : ℕ) (x y : Text) → contains_byte c x ≡ false → split c (x ++ (c ∷ y)) ≡ x ∷ split c y
unfolding split contains_byte
split-append c [] y h = ground arith
split-append c (d ∷ x) y h = ground (arith, split-append c x y)

pub contains_byte-append :
    (c : ℕ) (x y : Text) → contains_byte c (x ++ y) ≡ (contains_byte c x || contains_byte c y)
unfolding contains_byte
contains_byte-append c [] y = refl
contains_byte-append c (d ∷ x) y = ground (arith, contains_byte-append c x y)
