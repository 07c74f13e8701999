-- ===== src/Groups/Pattern.antt =====
-- The wildcard patterns of server/cgroups/group.go against their meaning: a star stands for any
-- text.
use openrport.Prelude.{
  ℕ, ◌+◌, ◌-◌, ◌≤◌, ◌≡◌, refl, sym, ap, ◌∙◌, subst, ◌↔◌, true, List, [], ◌∷◌, ◌++◌, ◌==◌, nat_eq,
  length, take, drop, arith, Bool-cases, Option-cases, inl, inr, length-drop, drop-append,
  take-append-drop, list_beq_iff,
}
use mathlib.Core.List.{append_assoc, append-nil}
use openrport.Strings.{Text, has_prefix, has_suffix, index, split, contains_byte}
use openrport.Strings.Search.{
  has_prefix-append, has_prefix-split, has_suffix-append, has_suffix-split, has_suffix-shorter,
  split_absent, split_nonempty, FoundAt, index-FoundAt, index-FoundBefore, index_hit,
}
use openrport.Groups.{matches, matches_parts, matches_wildcards, last_part}

-- A text that has the parts in order, each behind a gap of any length, and ends with the last.
pub data Fills : List Text → Text → Type 0 where
  finished : Fills [] []
  gap :
      (g part : Text) {parts : List Text} {rest whole : Text}
      → Fills parts rest
      → whole ≡ g ++ (part ++ rest)
      → Fills (part ∷ parts) whole

-- A text that a pattern with these parts stands for: the first part at its start, the others behind
-- the stars.
abbrev pub Glob : List Text → Text → Type 0
Glob [] value = ⊥
Glob (p ∷ ps) value = (rest : Text) × (value ≡ p ++ rest) × Fills ps rest

-- The greedy search finds the parts wherever they can be found, also behind other text.
matches_parts-Fills :
    (parts : List Text) (u w : Text) → Fills parts w → matches_parts parts (u ++ w) ≡ true
unfolding matches_parts
matches_parts-Fills [] u w f = refl
matches_parts-Fills (part ∷ parts) u w (gap g _ {rest = rest} f e) =
    let (i, y, found, behind) = index-FoundBefore (u ++ g) part rest in
    let same : u ++ w ≡ (u ++ g) ++ (part ++ rest) =
      ap (◌++◌ u) e ∙ sym (append_assoc u g (part ++ rest)) in
    rw same (rw (found, matches_parts) (rw behind (matches_parts-Fills parts y rest f)))

-- A search that succeeds found its first part, and goes on behind it.
matches_parts_first :
    (p : Text) (ps : List Text) (w : Text)
    → matches_parts (p ∷ ps) w ≡ true
    → (i : ℕ) × FoundAt w p i × (matches_parts ps (drop (i + length p) w) ≡ true)
unfolding matches_parts
matches_parts_first p ps w h = elim (Option-cases (index w p)) [
  | inl e ↦ absurd (ground (arith, e))
  | inr (i, e) ↦ (i, index-FoundAt w p i e, ground (arith, e))
]

-- The last part fits into what the search is given.
last_part-le :
    (p : Text) (ps : List Text) (w : Text)
    → matches_parts (p ∷ ps) w ≡ true
    → length (last_part p ps) ≤ length w
last_part-le p [] w h =
    let (i, found, more) = matches_parts_first p [] w h in omega (arith, found.1)
last_part-le p (q ∷ qs) w h =
    let (i, found, more) = matches_parts_first p (q ∷ qs) w h in
    omega
      (arith, last_part-le q qs (drop (i + length p) w) more, length-drop (i + length p) w, found.1)

-- A search that succeeds in a text with the last part as its suffix has filled the text.
matches_parts→Fills :
    (p : Text) (ps : List Text) (w : Text)
    → matches_parts (p ∷ ps) w ≡ true
    → has_suffix w (last_part p ps) ≡ true
    → Fills (p ∷ ps) w
matches_parts→Fills p [] w h suffix =
    let (le, ends) = has_suffix-split w p suffix in
    let k = length w - length p in
    gap (take k w) p finished
      (sym (take-append-drop k w) ∙ ap (◌++◌ (take k w)) (ends ∙ sym (append-nil p)))
matches_parts→Fills p (q ∷ qs) w h suffix =
    let (i, found, more) = matches_parts_first p (q ∷ qs) w h in
    let rest = drop (i + length p) w in
    let ends =
      has_suffix-shorter (take i w ++ p) rest (last_part q qs)
        (subst (λ t. has_suffix t (last_part q qs) ≡ true)
          (found.0 ∙ sym (append_assoc (take i w) p rest)) suffix)
        (last_part-le q qs rest more) in
    gap (take i w) p (matches_parts→Fills q qs rest more ends) found.0

Fills-suffix :
    (p : Text) (ps : List Text) (w : Text)
    → Fills (p ∷ ps) w
    → (u : Text) × (w ≡ u ++ last_part p ps)
Fills-suffix p [] w (gap g _ finished e) = (g, e ∙ ap (◌++◌ g) (append-nil p))
Fills-suffix p (q ∷ qs) w (gap g _ {rest = rest} f e) =
    let (u, ends) = Fills-suffix q qs rest f in
    (g ++ (p ++ u), e ∙ ap (λ t. g ++ (p ++ t)) ends ∙ (simp append_assoc))

matches_parts_prefix :
    (p : Text) (ps : List Text) (rest : Text)
    → matches_parts (p ∷ ps) (p ++ rest) ≡ matches_parts ps rest
unfolding matches_parts
matches_parts_prefix p ps rest =
    rw (index_hit (p ++ rest) p (has_prefix-append p rest), matches_parts)
      (ap (λ (n : ℕ). matches_parts ps (drop n (p ++ rest))) {x = 0 + length p} {y = length p}
          (omega arith)
        ∙ ap (matches_parts ps) (drop-append p rest))

Glob_sound :
    (p q : Text) (qs : List Text) (rest : Text)
    → matches_wildcards (p ∷ q ∷ qs) (p ++ rest) ≡ true
    → Fills (q ∷ qs) rest
Glob_sound p q qs rest h =
    let found : matches_parts (q ∷ qs) rest ≡ true =
      sym (matches_parts_prefix p (q ∷ qs) rest) ∙ ground arith in
    matches_parts→Fills q qs rest found
      (has_suffix-shorter p rest (last_part q qs) (ground arith) (last_part-le q qs rest found))

Glob_complete :
    (p q : Text) (qs : List Text) (rest : Text)
    → Fills (q ∷ qs) rest
    → matches_wildcards (p ∷ q ∷ qs) (p ++ rest) ≡ true
Glob_complete p q qs rest f =
    let (u, ends) = Fills-suffix q qs rest f in
    let whole : p ++ rest ≡ (p ++ u) ++ last_part q qs =
      ap (◌++◌ p) ends ∙ sym (append_assoc p u (last_part q qs)) in
    let suffix : has_suffix (p ++ rest) (last_part q qs) ≡ true =
      subst (λ t. has_suffix t (last_part q qs) ≡ true) (sym whole)
        (has_suffix-append (p ++ u) (last_part q qs)) in
    ground (
      arith,
      suffix,
      has_prefix-append p rest,
      matches_parts_prefix p (q ∷ qs) rest,
      matches_parts-Fills (q ∷ qs) [] rest f,
    )

wildcards_prefix :
    (p q : Text) (qs : List Text) (value : Text)
    → matches_wildcards (p ∷ q ∷ qs) value ≡ true
    → has_prefix value p ≡ true
wildcards_prefix p q qs value h = ground arith

-- A text matches the parts of a pattern with stars exactly if it is made of them in order, the
-- first at its start, the last at its end, and any text in place of each star.
pub matches_wildcards_iff :
    (p q : Text) (qs : List Text) (value : Text)
    → (matches_wildcards (p ∷ q ∷ qs) value ≡ true) ↔ Glob (p ∷ q ∷ qs) value
matches_wildcards_iff p q qs value = (
  λ h.
      let e = has_prefix-split value p (wildcards_prefix p q qs value h) in
      (
        drop (length p) value,
        e,
        Glob_sound p q qs (drop (length p) value)
            (subst (λ t. matches_wildcards (p ∷ q ∷ qs) t ≡ true) e h),
      ),
  λ (rest, e, f).
      subst (λ t. matches_wildcards (p ∷ q ∷ qs) t ≡ true) (sym e) (Glob_complete p q qs rest f),
)

-- Splitting a text that has the separator yields two parts at least.
split_present :
    (c : ℕ) (s : Text)
    → contains_byte c s ≡ true
    → (p q : Text) × (qs : List Text) × (split c s ≡ p ∷ q ∷ qs)
unfolding split contains_byte
split_present c [] h = cc
split_present c (x ∷ s) h = elim (Bool-cases (x == c)) [
  | inl sep ↦ let (q, qs, e) = split_nonempty c s in ([], q, qs, rw sep (rw e))
  | inr other ↦
      let (p, q, qs, e) = split_present c s (ground (arith, other)) in
      (x ∷ p, q, qs, rw other (rw e))
]

Fills-none : {w : Text} → Fills [] w → w ≡ []
Fills-none finished = refl

-- A parameter matches a value exactly if, both in lower case, the value is what the pattern stands
-- for: the parts between the stars in order, the first at the start, the last at the end, and any
-- text for each star; without a star, the very same text.
pub matches-Glob :
    (to_lower : Text → Text) (p value : Text)
    → (matches to_lower p value ≡ true) ↔ Glob (split b'*' (to_lower p)) (to_lower value)
unfolding matches
matches-Glob to_lower p value =
    let str = to_lower p in
    elim (Bool-cases (contains_byte b'*' str)) [
      | inl star ↦
          let (first, second, others, e) = split_present b'*' str star in
          rw star (rw e (matches_wildcards_iff first second others (to_lower value)))
      | inr plain ↦ rw plain (
          rw (split_absent b'*' str plain) (
            λ h. (
              [],
              sym ((list_beq_iff str (to_lower value)).0 h) ∙ sym (append-nil str),
              finished,
            ),
            λ (rest, e, f).
                (list_beq_iff str (to_lower value)).1
                  (sym (e ∙ ap (◌++◌ str) (Fills-none f) ∙ append-nil str)),
          ))
    ]
