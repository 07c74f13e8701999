-- ===== src/Sessions/Order.antt =====
-- server/api/session/cache.go, GetAllByUser: the order of a user's sessions.
use openrport.Prelude.{◌≤◌, ◌≡◌, ◌↔◌, ◌⊎◌, List, [], ◌∷◌, arith, string_eq, In}
use openrport.Sessions.{ApiSession, insert_by_access, sort_by_access}

abbrev pub IsSorted : List ApiSession → Type 0
IsSorted [] = Unit
IsSorted (s ∷ []) = Unit
IsSorted (s ∷ t ∷ ts) = s.last_access_at ≤ t.last_access_at × IsSorted (t ∷ ts)

insert-IsSorted :
    (s : ApiSession) (ts : List ApiSession) → IsSorted ts → IsSorted (insert_by_access s ts)
unfolding insert_by_access
insert-IsSorted s [] v = tt
insert-IsSorted s (t ∷ []) v = ground arith
insert-IsSorted s (t ∷ u ∷ us) v = ground (arith, insert-IsSorted s (u ∷ us) (v.1))

pub sort-IsSorted : (ss : List ApiSession) → IsSorted (sort_by_access ss)
unfolding sort_by_access
sort-IsSorted [] = tt
sort-IsSorted (s ∷ ss) = insert-IsSorted s (sort_by_access ss) (sort-IsSorted ss)

In-insert :
    (a s : ApiSession) (ts : List ApiSession) → In a (insert_by_access s ts) ↔ ((s ≡ a) ⊎ In a ts)
unfolding insert_by_access
In-insert a s [] = ground arith
In-insert a s (t ∷ ts) = ground (arith, In-insert a s ts)

pub In-sort : (a : ApiSession) (ss : List ApiSession) → In a (sort_by_access ss) ↔ In a ss
unfolding sort_by_access
In-sort a [] = ground arith
In-sort a (s ∷ ss) = ground (arith, In-insert a s (sort_by_access ss), In-sort a ss)
