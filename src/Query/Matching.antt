-- ===== src/Query/Matching.antt =====
-- share/query/matches_filter.go: what the count of matched filter values decides.
use openrport.Prelude.{
  suc, ◌≡◌, inl, inr, refl, sym, ap, ◌∙◌, subst, Bool, true, false, not, ◌&&◌, ◌||◌, all, any, List,
  [], ◌∷◌, ◌++◌, none, some, ◌==◌, nat_eq, length, lookup, contains, filter, length-filter-le,
  arith, Bool-cases, Option-cases, beq_refl,
}
use openrport.Prelude.Results.{ok, Result-cases}
use openrport.Strings.{Text, text_eq}
use openrport.Query.{
  Field, FilterOption, FilterOperator, LogicalOperator, and, or, Matchers, candidates,
  value_matches, mark, match_values, match_candidates, match_columns, matches_filter, decide,
}

-- No filter value is given twice.
abbrev pub Distinct : List Text → Type 0
Distinct [] = Unit
Distinct (v ∷ vs) = (contains vs v ≡ false) × Distinct vs

-- The values of the columns that there are.
abbrev pub field_values : List (Text × Field) → List Text → List Text
field_values value_map [] = []
field_values value_map (col ∷ cols) = elim (lookup col value_map) [
  | none ↦ field_values value_map cols
  | some field ↦ candidates field ++ field_values value_map cols
]

any-append :
    {A : Type 0} (p : A → Bool) (xs ys : List A) → any p (xs ++ ys) ≡ (any p xs || any p ys)
any-append p [] ys = refl
any-append p (x ∷ xs) ys = ground (arith, any-append p xs ys)

module _ (m : Matchers) (operator : FilterOperator) where
  -- Some value of the columns matches the filter value.
  abbrev pub is_hit : List Text → Text → Bool
  is_hit cs v = any (λ c. value_matches m operator c v) cs

  match_values-contains :
      (c : Text) (vs ms : List Text) (x : Text)
      → contains (match_values m operator c vs ms) x
        ≡ (contains ms x || (contains vs x && value_matches m operator c x))
  unfolding match_values
  match_values-contains c [] ms x = ground arith
  match_values-contains c (v ∷ vs) ms x = elim (Bool-cases (v == x)) [
    | inl same ↦
        let e : v ≡ x = (text_eq.equal_iff v x).0 same in
        subst
          (λ w.
            contains (match_values m operator c (w ∷ vs) ms) x
            ≡ (contains ms x || (contains (w ∷ vs) x && value_matches m operator c x)))
          (sym e)
          (ground (
            arith,
            beq_refl x,
            match_values-contains c vs (mark m x ms (value_matches m operator c x)) x,
          ))
    | inr differs ↦
        ground (
          arith,
          differs,
          match_values-contains c vs (mark m v ms (value_matches m operator c v)) x,
        )
  ]

  match_candidates-contains :
      (cs vs ms : List Text) (x : Text)
      → contains (match_candidates m operator cs vs ms) x
        ≡ (contains ms x || (contains vs x && is_hit cs x))
  unfolding match_candidates
  match_candidates-contains [] vs ms x = ground arith
  match_candidates-contains (c ∷ cs) vs ms x = ground (
    arith,
    match_values-contains c vs ms x,
    match_candidates-contains cs vs (match_values m operator c vs ms) x,
  )

  match_columns-contains :
      (value_map : List (Text × Field)) (cols vs ms after : List Text) (x : Text)
      → match_columns m value_map operator cols vs ms ≡ ok after
      → contains after x
        ≡ (contains ms x || (contains vs x && is_hit (field_values value_map cols) x))
  unfolding match_columns
  match_columns-contains value_map [] vs ms after x h = ground (arith, h)
  match_columns-contains value_map (col ∷ cols) vs ms after x h =
      elim (Option-cases (lookup col value_map)) [
        | inl e ↦ absurd (ground (arith, h, e))
        | inr (field, e) ↦ ground (
          arith,
          e,
          any-append (λ c. value_matches m operator c x) (candidates field)
              (field_values value_map cols),
          match_candidates-contains (candidates field) vs ms x,
          match_columns-contains value_map cols vs
              (match_candidates m operator (candidates field) vs ms) after x (ground (arith, h, e)),
        )
      ]

-- The map has as many keys as there are filter values among them.
abbrev Counted : List Text → List Text → Type 0
Counted values ms = length ms ≡ length (filter (contains ms) values)

filter-absent :
    (v : Text) (ms ws : List Text)
    → contains ws v ≡ false
    → filter (contains (v ∷ ms)) ws ≡ filter (contains ms) ws
filter-absent v ms [] h = refl
filter-absent v ms (w ∷ ws) h =
    ground (arith, h, text_eq.equal_iff v w, text_eq.equal_iff w v, filter-absent v ms ws)

filter-present :
    (v : Text) (ms ws : List Text)
    → Distinct ws
    → contains ms v ≡ false
    → contains ws v ≡ true
    → length (filter (contains (v ∷ ms)) ws) ≡ suc (length (filter (contains ms) ws))
filter-present v ms [] d absent h = absurd (ground (arith, h))
filter-present v ms (w ∷ ws) (fresh, d) absent h = elim (Bool-cases (w == v)) [
  | inl same ↦
      let e : w ≡ v = (text_eq.equal_iff w v).0 same in
      let gone : contains ws v ≡ false = subst (λ u. contains ws u ≡ false) e fresh in
      subst
        (λ u.
          length (filter (contains (v ∷ ms)) (u ∷ ws))
          ≡ suc (length (filter (contains ms) (u ∷ ws))))
        (sym e) (ground (arith, absent, beq_refl v, filter-absent v ms ws gone))
  | inr differs ↦ ground (
    arith,
    differs,
    h,
    text_eq.equal_iff v w,
    text_eq.equal_iff w v,
    filter-present v ms ws d absent,
  )
]

mark-Counted :
    (values : List Text) (v : Text) (ms : List Text) (hit : Bool) (m : Matchers)
    → Distinct values
    → contains values v ≡ true
    → Counted values ms
    → Counted values (mark m v ms hit)
mark-Counted values v ms hit m d i c = elim (Bool-cases (contains ms v)) [
  | inl known ↦ rw known c
  | inr new ↦ elim (Bool-cases hit) [
    | inl h ↦ rw new rw h (ap suc c ∙ sym (filter-present v ms values d new i))
    | inr n ↦ rw new rw n c
  ]
]

module _ (m : Matchers) (operator : FilterOperator) (values : List Text) (d : Distinct values) where
  match_values-Counted :
      (c : Text) (vs ms : List Text)
      → all (contains values) vs ≡ true
      → Counted values ms
      → Counted values (match_values m operator c vs ms)
  unfolding match_values
  match_values-Counted c [] ms i k = k
  match_values-Counted c (v ∷ vs) ms i k =
      match_values-Counted c vs (mark m v ms (value_matches m operator c v)) (ground (arith, i))
        (mark-Counted values v ms (value_matches m operator c v) m d (ground (arith, i)) k)

  match_candidates-Counted :
      (cs vs ms : List Text)
      → all (contains values) vs ≡ true
      → Counted values ms
      → Counted values (match_candidates m operator cs vs ms)
  unfolding match_candidates
  match_candidates-Counted [] vs ms i k = k
  match_candidates-Counted (c ∷ cs) vs ms i k =
      match_candidates-Counted cs vs (match_values m operator c vs ms) i
        (match_values-Counted c vs ms i k)

  match_columns-Counted :
      (value_map : List (Text × Field)) (cols vs ms after : List Text)
      → all (contains values) vs ≡ true
      → Counted values ms
      → match_columns m value_map operator cols vs ms ≡ ok after
      → Counted values after
  unfolding match_columns
  match_columns-Counted value_map [] vs ms after i k h =
      subst (Counted values) {x = ms} {y = after} (ground (arith, h)) k
  match_columns-Counted value_map (col ∷ cols) vs ms after i k h =
      elim (Option-cases (lookup col value_map)) [
        | inl e ↦ absurd (ground (arith, h, e))
        | inr (field, e) ↦
            match_columns-Counted value_map cols vs
              (match_candidates m operator (candidates field) vs ms) after i
              (match_candidates-Counted (candidates field) vs ms i k) (ground (arith, h, e))
      ]

contains_cons :
    (v : Text) (vs ws : List Text) → all (contains vs) ws ≡ true → all (contains (v ∷ vs)) ws ≡ true
contains_cons v vs [] h = refl
contains_cons v vs (w ∷ ws) h = ground (arith, h, contains_cons v vs ws)

contains_all : (vs : List Text) → all (contains vs) vs ≡ true
contains_all [] = refl
contains_all (v ∷ vs) = ground (arith, beq_refl v, contains_cons v vs vs (contains_all vs))

filter_same :
    (p : Text → Bool) (q : Text → Bool) (values vs : List Text)
    → all (contains values) vs ≡ true
    → ((x : Text) → p x ≡ (contains values x && q x))
    → filter p vs ≡ filter q vs
filter_same p q values [] i e = refl
filter_same p q values (v ∷ vs) i e =
    ground (arith, i, e v, filter_same p q values vs (ground (arith, i)) e)

filter-all :
    {A : Type 0} (q : A → Bool) (vs : List A) → (length (filter q vs) == length vs) ≡ all q vs
filter-all q [] = refl
filter-all q (v ∷ vs) = ground (arith, filter-all q vs, length-filter-le q vs)

filter-any : {A : Type 0} (q : A → Bool) (vs : List A) → not (length (filter q vs) == 0) ≡ any q vs
filter-any q [] = refl
filter-any q (v ∷ vs) = ground (arith, filter-any q vs)

none-Counted : (values : List Text) → Counted values []
none-Counted [] = refl
none-Counted (v ∷ vs) = none-Counted vs

abbrev pub demanded : LogicalOperator → (Text → Bool) → List Text → Bool
demanded and q vs = all q vs
demanded or q vs = any q vs

decided :
    (op : LogicalOperator) (vs ms : List Text) (q : Text → Bool) (b : Bool) (m : Matchers)
    → length ms ≡ length (filter q vs)
    → b ≡ decide m op vs ms
    → b ≡ demanded op q vs
decided and vs ms q b m e h = ground (arith, h, e, filter-all q vs)
decided or vs ms q b m e h = ground (arith, h, e, filter-any q vs)

-- A filter whose values are all different, and whose columns there are, matches exactly if, for an
-- `and`, each of its values matches some value of the columns, and otherwise, if one does.
pub matches_filter-demanded :
    (m : Matchers) (value_map : List (Text × Field)) (f : FilterOption) (b : Bool)
    → Distinct f.values
    → matches_filter m value_map f ≡ ok b
    → b
      ≡ demanded f.values_logical_operator
          (is_hit m f.operator (field_values value_map f.column))
          f.values
unfolding matches_filter
matches_filter-demanded m value_map f b d h =
    elim (Result-cases (match_columns m value_map f.operator f.column f.values [])) [
      | inr (col, e) ↦ absurd (ground (arith, h, e))
      | inl (ms, e) ↦
          let q = is_hit m f.operator (field_values value_map f.column) in
          let count =
            match_columns-Counted m f.operator f.values d value_map f.column f.values [] ms
              (contains_all f.values) (none-Counted f.values) e in
          let same =
            filter_same (contains ms) q f.values f.values (contains_all f.values)
              (λ x. match_columns-contains m f.operator value_map f.column f.values [] ms x e) in
          decided f.values_logical_operator f.values ms q b m (count ∙ ap length same)
            (ground (arith, h, e))
    ]
