-- ===== src/Examples/Addresses.antt =====
-- Visitors that are banned and ports that are given out, over sets that are lists of numbers.
use openrport.Prelude.{
  ℕ, ◌+◌, ◌≡◌, ◌<◌, ◌⊎◌, ◌↔◌, refl, inl, inr, String, Bool, true, false, not, ◌&&◌, ◌||◌, List, [],
  ◌∷◌, ◌++◌, Option, none, some, arith, any, filter, contains, contains-filter, ◌==◌, nat_eq,
  string_eq, if◌then◌else◌, ltb, lookup,
}
use openrport.Prelude.Results.{ok}
use openrport.Security.BanList.{BanList}
use openrport.Security.MaxBadAttempts.{MaxBadAttemptsBanList, bad, run, is_banned}
use openrport.Security.MaxBadAttempts.Laws.{attempts, banned-run_max}
use openrport.Ports.{
  PortDistributor, Connection, Connections, Error, get_random_port, is_port_allowed, is_port_busy,
  refresh, sub_protocols, protocol_tcp, protocol_udp,
}
use openrport.Ports.Sets.{Mapset, IsMapset}
use openrport.Ports.Taking.{HasAllowedPools, offers}
use openrport.Ports.Distribution.{get_random_port_allowed}

abbrev pop_list : List ℕ → Option (ℕ × List ℕ)
pop_list [] = none
pop_list (x ∷ xs) = some (x, filter (λ y. not (x == y)) xs)

abbrev pub lists : Mapset (List ℕ)
lists = record {
  empty = [];
  add = λ x s. x ∷ s;
  contains = contains;
  difference = λ a b. filter (λ x. not (contains b x)) a;
  intersect = λ a b. filter (contains b) a;
  remove = λ y s. filter (λ x. not (y == x)) s;
  pop = pop_list;
}

pop_list-some :
    (s t : List ℕ) (y : ℕ)
    → pop_list s ≡ some (y, t)
    → (contains s y ≡ true) × ((x : ℕ) → contains t x ≡ (if y == x then false else contains s x))
pop_list-some [] t y h = absurd (ground arith)
pop_list-some (z ∷ zs) t y h =
    (ground arith, λ x. ground (arith, contains-filter (λ w. not (z == w)) zs x))

pop_list-none : (s : List ℕ) (x : ℕ) → pop_list s ≡ none → contains s x ≡ false
pop_list-none [] x h = refl
pop_list-none (z ∷ zs) x h = absurd (ground arith)

pub lists_law : IsMapset lists
lists_law = record {
  contains-empty = λ x. refl;
  contains-add = λ y x s. ground arith;
  contains-difference = λ a b x. contains-filter (λ z. not (contains b z)) a x;
  contains-intersect = λ a b x. contains-filter (contains b) a x;
  contains-remove = λ y x s. ground (arith, contains-filter (λ z. not (y == z)) s x);
  pop_none = pop_list-none;
  pop_some = pop_list-some;
}

abbrev pub ssh : Connections
ssh protocol = ok (record { status = "LISTEN"; local_port = 20000 } ∷ [])

abbrev pub two_ports : PortDistributor (List ℕ)
two_ports = record { allowed_ports = 20000 ∷ 20001 ∷ []; ports_pools = [] }

abbrev none_left : PortDistributor (List ℕ)
none_left = record { allowed_ports = 20000 ∷ 20001 ∷ []; ports_pools = (protocol_tcp, []) ∷ [] }

pub two_ports-HasAllowedPools : HasAllowedPools lists lists_law ssh two_ports
unfolding lookup
two_ports-HasAllowedPools p port h = absurd (ground arith)

get_random_port_allowed_example :
    (is_port_allowed lists ssh 20001 none_left ≡ true)
    × (offers lists lists_law ssh none_left protocol_tcp 20001 ≡ false)
    × HasAllowedPools lists lists_law ssh none_left
unfolding get_random_port openrport.Ports.ensure_pools lookup openrport.Ports.refresh_protocol
    openrport.Ports.pop_port openrport.Prelude.insert openrport.Ports.remove_from_pools
get_random_port_allowed_example =
    get_random_port_allowed lists lists_law ssh protocol_tcp protocol_tcp two_ports none_left 20001
      two_ports-HasAllowedPools refl refl

abbrev visitors : BanList
visitors = record { ban_duration = 60; visitors = [] }

abbrev two_strikes : MaxBadAttemptsBanList
two_strikes = record { ban_duration = 60; max_bad_attempts = 2; visitors = [] }

banned-run_max_example :
    (is_banned 50 "a" (run two_strikes (bad 5 "a" ∷ bad 6 "b" ∷ bad 7 "a" ∷ [])) ≡ true)
    × (attempts "a" (run two_strikes (bad 5 "a" ∷ bad 6 "b" ∷ bad 7 "a" ∷ [])) ≡ 0)
unfolding lookup
banned-run_max_example =
    banned-run_max two_strikes (bad 5 "a" ∷ bad 6 "b" ∷ []) "a" 7 50 refl (omega arith)
