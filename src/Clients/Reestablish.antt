-- ===== src/Clients/Reestablish.antt =====
-- server/clients/client_service.go, getTunnelsToReestablish and excludeNotAllowedTunnels, with
-- clienttunnel/tunnel_allowed.go: which tunnels of its last connection a client gets again.
pub mod Marks
use openrport.Prelude.{
  ℕ, ◌+◌, ◌≡◌, ◌≤◌, ◌⊎◌, inl, inr, refl, ap, ◌∙◌, Bool, true, false, not, ◌&&◌, List, [], ◌∷◌, ◌++◌,
  Option, none, some, map, ◌==◌, nat_eq, ltb, if◌then◌else◌, length, is_some, In, arith,
  Option-cases, Bool-cases,
}
use openrport.Prelude.Results.{Result, ok, err}
use openrport.Strings.{Text, text_eq, index}
use openrport.Remotes.{Remote, to_string, remote_address, equal_acl, is_local_specified}

-- The old tunnels, each with its mark.
abbrev pub Marked : Type 0
Marked = List (Bool × Remote)

abbrev pub unmarked : List Remote → Marked
unmarked [] = []
unmarked (o ∷ old) = (false, o) ∷ unmarked old

-- The inner loops: the first old tunnel that has no mark and fits gets one.
unfoldable pub mark_first : (Remote → Bool) → Marked → Option Marked
mark_first fits [] = none
mark_first fits ((marked, o) ∷ old) =
    let rest = mark_first fits old in
    if not marked && fits o
    then some ((true, o) ∷ old)
    else (elim rest [ none ↦ none | some later ↦ some ((marked, o) ∷ later) ])

-- The outer loops, over the new tunnels that `is_meant` selects.
unfoldable pub mark_each :
    (Remote → Bool) → (Remote → Remote → Bool) → List Remote → Marked → Option Marked
unfolding mark_first
mark_each is_meant fits [] old = some old
mark_each is_meant fits (n ∷ new) old =
    if is_meant n
    then (elim (mark_first (fits n) old) [
      | none ↦ none
      | some old' ↦ mark_each is_meant fits new old'
    ])
    else mark_each is_meant fits new old

abbrev pub same_string : Remote → Remote → Bool
same_string n o = to_string n == to_string o

abbrev pub same_random : Remote → Remote → Bool
same_random n o = o.local_port_random && (remote_address n == remote_address o && equal_acl n o.acl)

abbrev pub without_random : Remote → Remote
without_random r = if r.local_port_random then record r { local_host = []; local_port = [] } else r

unfoldable pub left_over : Marked → List Remote
left_over [] = []
left_over ((marked, o) ∷ old) =
    let rest = left_over old in if marked then rest else without_random o ∷ rest

abbrev pub mark_new : List Remote → Marked → Option Marked
mark_new new old = elim (mark_each is_local_specified same_string new old) [
  | none ↦ none
  | some old' ↦ mark_each (λ n. not (is_local_specified n)) same_random new old'
]

unfoldable pub get_tunnels_to_reestablish : List Remote → List Remote → List Remote
unfolding mark_each left_over
get_tunnels_to_reestablish old new =
    if ltb (length old) (length new)
    then []
    else (elim (mark_new new (unmarked old)) [ none ↦ [] | some m ↦ left_over m ])

-- IsAllowed: a client that does not know the request allows it. `send` asks the client.
abbrev unknown_request : Text
unknown_request =
    b'u' ∷ b'n' ∷ b'k' ∷ b'n' ∷ b'o' ∷ b'w' ∷ b'n' ∷ b' ' ∷ b'r' ∷ b'e' ∷ b'q' ∷ b'u' ∷ b'e' ∷ b's'
    ∷ b't' ∷ []

abbrev pub is_unknown_request : Text → Bool
is_unknown_request error = is_some (index error unknown_request)

unfoldable pub is_allowed : (Text → Result Text Bool) → Text → Result Text Bool
is_allowed send remote = elim (send remote) [
  | ok allowed ↦ ok allowed
  | err e ↦ if is_unknown_request e then ok true else err e
]

-- The loop of excludeNotAllowedTunnels, of which `tunnels` are all and `filtered` those kept so far.
unfoldable pub exclude_loop :
    (Text → Result Text Bool) → List Remote → List Remote → List Remote → Result Text (List Remote)
unfolding is_allowed
exclude_loop send tunnels filtered [] = ok filtered
exclude_loop send tunnels filtered (t ∷ ts) = elim (is_allowed send (remote_address t)) [
  | err e ↦ if is_unknown_request e then ok tunnels else err e
  | ok allowed ↦ exclude_loop send tunnels (if allowed then filtered ++ (t ∷ []) else filtered) ts
]

unfoldable pub exclude_not_allowed_tunnels :
    (Text → Result Text Bool) → List Remote → Result Text (List Remote)
unfolding exclude_loop
exclude_not_allowed_tunnels send tunnels = exclude_loop send tunnels [] tunnels
