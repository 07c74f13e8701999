-- ===== src/Groups/Tags.antt =====
-- server/cgroups/group.go: the tag condition of a group, an operator over patterns.
use openrport.Prelude.{
  ℕ, ◌<◌, ◌≡◌, ◌≢◌, Bool, true, false, not, ◌&&◌, ◌||◌, List, [], ◌∷◌, Option, none, some, ◌==◌,
  string_eq, nat_eq, if◌then◌else◌, length, list_beq, list_beq_iff, arith, any,
}
use openrport.Prelude.Results.{Result, ok, err}
use openrport.Strings.{Text}
use openrport.Groups.{matches}

pub data TagError : Type 0 where
  only_and_or empty_operands unparsable : TagError

-- What json.Unmarshal makes of a raw value, as a map to lists of strings and as a list of strings;
-- `none` where it fails.
pub record RawMessage : Type 0 where
  pub bytes : ℕ
  pub as_map : Option (List (Text × List Text))
  pub as_list : Option (List Text)

abbrev pub and_op : Text
and_op = b'a' ∷ b'n' ∷ b'd' ∷ []

abbrev pub or_op : Text
or_op = b'o' ∷ b'r' ∷ []

module _ (to_lower : Text → Text) where
  unfoldable pub allowed_operator : Text → Bool
  allowed_operator op =
      let lowered = to_lower op in list_beq lowered and_op || list_beq lowered or_op

  abbrev pub parse_list : Option (List Text) → Result TagError (Text × List Text)
  parse_list none = err unparsable
  parse_list (some []) = err unparsable
  parse_list (some (x ∷ xs)) = ok (or_op, x ∷ xs)

  abbrev pub parse_operator : Text → List Text → Result TagError (Text × List Text)
  parse_operator operator operands =
      if not (allowed_operator operator)
      then err only_and_or
      else elim operands [ [] ↦ err empty_operands | x ∷ xs ↦ ok (operator, x ∷ xs) ]

  unfoldable pub parse_tag : RawMessage → Result TagError (Text × List Text)
  unfolding allowed_operator
  parse_tag p = elim p.as_map [
    | some ((operator, operands) ∷ []) ↦ parse_operator operator operands
    | _ ↦ parse_list p.as_list
  ]

  abbrev pub has_operand : List Text → Text → Bool
  has_operand [] o = false
  has_operand (m ∷ ms) o = list_beq m o || has_operand ms o

  -- The inner loop: the operands that the value newly matches.
  unfoldable pub add_matches : Text → List Text → List Text → List Text
  add_matches value [] matched = matched
  add_matches value (operand ∷ operands) matched = add_matches value operands (
      if has_operand matched operand
      then matched
      else if matches to_lower operand value
      then operand ∷ matched
      else matched)

  -- The outer loop; `matched` lists the keys of the map.
  unfoldable pub collect_matches : List Text → List Text → List Text → List Text
  unfolding add_matches
  collect_matches [] operands matched = matched
  collect_matches (value ∷ values) operands matched =
      collect_matches values operands (add_matches value operands matched)

  abbrev pub decide_operator : Text → List Text → List Text → Bool
  decide_operator operator operands matched =
      if list_beq operator and_op
      then length matched == length operands
      else if list_beq operator or_op
      then not (length matched == 0)
      else false

  unfoldable pub matches_raw_tags : Option RawMessage → List Text → Bool
  unfolding parse_tag collect_matches
  matches_raw_tags none values = true
  matches_raw_tags (some p) values =
      if p.bytes == 0 && length values == 0 then true else elim (parse_tag p) [
        | err e ↦ false
        | ok (operator, operands) ↦
            decide_operator operator operands (collect_matches values operands [])
      ]

  add_matches_some :
      (value : Text) (operands matched : List Text)
      → not (length (add_matches value operands matched) == 0)
        ≡ (not (length matched == 0) || any (λ o. matches to_lower o value) operands)
  unfolding add_matches
  add_matches_some value [] matched = ground arith
  add_matches_some value (o ∷ operands) [] =
      ground (arith, add_matches_some value operands [], add_matches_some value operands (o ∷ []))
  add_matches_some value (o ∷ operands) (m ∷ matched) = ground (
    arith,
    add_matches_some value operands (m ∷ matched),
    add_matches_some value operands (o ∷ m ∷ matched),
  )

  collect_matches_some :
      (values operands matched : List Text)
      → not (length (collect_matches values operands matched) == 0)
        ≡ (not (length matched == 0) || any (λ v. any (λ o. matches to_lower o v) operands) values)
  unfolding collect_matches
  collect_matches_some [] operands matched = ground arith
  collect_matches_some (v ∷ values) operands matched = ground (
    arith,
    collect_matches_some values operands (add_matches v operands matched),
    add_matches_some v operands matched,
  )

  -- A tag condition that is not empty, under the operator "or", and so each plain list of tags,
  -- holds of a client exactly if one of its patterns matches one of the client's tags.
  pub matches_raw_tags_or :
      (p : RawMessage) (operands values : List Text)
      → parse_tag p ≡ ok (or_op, operands)
      → 0 < p.bytes
      → matches_raw_tags (some p) values
        ≡ any (λ v. any (λ o. matches to_lower o v) operands) values
  unfolding matches_raw_tags
  matches_raw_tags_or p operands values parsed size =
      ground (arith, parsed, collect_matches_some values operands [])

  -- An operator that is "and" or "or" only after strings.ToLower, with an operand, is accepted by
  -- ParseTag, and no client then belongs to the group.
  pub matches_raw_tags_case :
      (p : RawMessage) (operator operand : Text) (operands values : List Text)
      → p.as_map ≡ some ((operator, operand ∷ operands) ∷ [])
      → allowed_operator operator ≡ true
      → operator ≢ and_op
      → operator ≢ or_op
      → 0 < p.bytes
      → (parse_tag p ≡ ok (operator, operand ∷ operands))
        × (matches_raw_tags (some p) values ≡ false)
  unfolding matches_raw_tags
  matches_raw_tags_case p operator operand operands values decoded allowed not_and not_or size =
      ground (arith, decoded, list_beq_iff operator and_op, list_beq_iff operator or_op)
