-- ===== src/Groups.antt =====
-- server/cgroups/group.go: which clients belong to a group, by patterns over their attributes.
-- `to_lower` is strings.ToLower, and the two decoders of a raw JSON value are encoding/json's.
pub mod Pattern
pub mod Tags
use openrport.Prelude.{
  ℕ, suc, ◌+◌, String, Bool, true, false, not, ◌&&◌, ◌||◌, List, [], ◌∷◌, Option, none, some, ◌==◌,
  string_eq, nat_eq, if◌then◌else◌, length, drop, any, list_beq,
}
use openrport.Prelude.Results.{Result, ok, err}
use openrport.Strings.{Text, has_prefix, has_suffix, index, split, contains_byte}

abbrev pub Param : Type 0
Param = Text

-- The loop over the parts: each is found behind the one before.
unfoldable pub matches_parts : List Text → Text → Bool
matches_parts [] value = true
matches_parts (part ∷ parts) value = elim (index value part) [
  | none ↦ false
  | some i ↦ matches_parts parts (drop (i + length part) value)
]

abbrev pub last_part : Text → List Text → Text
last_part p [] = p
last_part p (q ∷ qs) = last_part q qs

-- `parts[0]` and `parts[len(parts)-1]`; strings.Split yields one part at least.
abbrev pub matches_wildcards : List Text → Text → Bool
matches_wildcards [] value = true
matches_wildcards (p ∷ ps) value =
    if not (has_prefix value p) || not (has_suffix value (last_part p ps))
    then false
    else matches_parts (p ∷ ps) value

module _ (to_lower : Text → Text) where
  unfoldable pub matches : Param → Text → Bool
  matches p value =
      let str = to_lower p in
      let lowered = to_lower value in
      if contains_byte b'*' str
      then matches_wildcards (split b'*' str) lowered
      else list_beq str lowered

  -- `none` is a nil *ParamValues.
  abbrev pub matches_values : List Param → List Text → Bool
  matches_values [] values = false
  matches_values (p ∷ ps) values = any (λ v. matches p v) values || matches_values ps values

  unfoldable pub matches_one_of : Option (List Param) → List Text → Bool
  unfolding matches
  matches_one_of none values = true
  matches_one_of (some []) [] = true
  matches_one_of (some []) (v ∷ vs) = false
  matches_one_of (some (p ∷ ps)) values = matches_values (p ∷ ps) values
