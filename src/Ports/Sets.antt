-- ===== src/Ports/Sets.antt =====
-- The sets of github.com/deckarep/golang-set, as far as server/ports/port_distributor.go uses them,
-- and what their documentation says of them.
use openrport.Prelude.{
  ℕ, ◌≡◌, Bool, true, false, not, ◌&&◌, Option, none, some, ◌==◌, nat_eq, if◌then◌else◌,
}

pub record Mapset (S : Type 0) : Type 0 where
  pub empty : S
  pub add : ℕ → S → S
  pub contains : S → ℕ → Bool
  pub difference : S → S → S
  pub intersect : S → S → S
  pub remove : ℕ → S → S
  pub pop : S → Option (ℕ × S)

-- Pop takes some element out of a set that has one.
pub record IsMapset {S : Type 0} (sets : Mapset S) : Type 0 where
  pub contains-empty : (x : ℕ) → sets.contains sets.empty x ≡ false
  pub contains-add :
      (y x : ℕ) (s : S)
      → sets.contains (sets.add y s) x ≡ (if y == x then true else sets.contains s x)
  pub contains-difference :
      (a b : S) (x : ℕ)
      → sets.contains (sets.difference a b) x ≡ (sets.contains a x && not (sets.contains b x))
  pub contains-intersect :
      (a b : S) (x : ℕ)
      → sets.contains (sets.intersect a b) x ≡ (sets.contains a x && sets.contains b x)
  pub contains-remove :
      (y x : ℕ) (s : S)
      → sets.contains (sets.remove y s) x ≡ (if y == x then false else sets.contains s x)
  pub pop_none : (s : S) (x : ℕ) → sets.pop s ≡ none → sets.contains s x ≡ false
  pub pop_some :
      (s s' : S) (y : ℕ)
      → sets.pop s ≡ some (y, s')
      → (sets.contains s y ≡ true)
        × ((x : ℕ) → sets.contains s' x ≡ (if y == x then false else sets.contains s x))
