-- ===== src/Prelude/Actions.antt =====
-- A method that can fail and that keeps, also when it fails, what it has changed by then.
use mathlib.Core.Bool.{Bool, true, false}
use openrport.Prelude.Results.{Result, ok, err}

abbrev pub Action : Type 0 → Type 0 → Type 0 → Type 0
Action S E A = S → S × Result E A

infixl 5 ◌>>=◌ ◌>>◌
abbrev pub ◌>>=◌ : {S E A B : Type 0} → Action S E A → (A → Action S E B) → Action S E B
◌>>=◌ m f s = let (s', r) = m s in elim r [ ok a ↦ f a s' | err e ↦ (s', err e) ]

abbrev pub ◌>>◌ : {S E B : Type 0} → Action S E (Unit {0}) → Action S E B → Action S E B
m >> k = m >>= λ _. k

-- `return a, nil`
abbrev pub return : {S E A : Type 0} → A → Action S E A
return a s = (s, ok a)

-- `return nil, e`
abbrev pub fail : {S E A : Type 0} → E → Action S E A
fail e s = (s, err e)

-- `if !b { return e }`
abbrev pub require : {S E : Type 0} → Bool → E → Action S E (Unit {0})
require true e s = (s, ok tt)
require false e s = (s, err e)

-- A call that changes nothing.
abbrev pub ask : {S E A : Type 0} → (S → Result E A) → Action S E A
ask f s = (s, f s)
