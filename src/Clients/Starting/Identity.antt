-- ===== src/Clients/Starting/Identity.antt =====
-- server/clients/client_service.go and clientdata/client.go: a tunnel's id finds it, and closing the
-- tunnel of an id.
use openrport.Prelude.{
  ℕ, ◌+◌, ◌≡◌, ◌≤◌, ◌<◌, ◌^◌, refl, subst, inl, inr, Bool, not, List, [], ◌∷◌, none, some, ◌==◌, In,
  filter, length, beq_refl, arith, Bool-cases,
}
use openrport.Strings.{Text, text_eq}
use openrport.Strings.Decimal.{itoa, itoa_injective}
use openrport.Tunnels.{Tunnel}
use openrport.Clients.Client.{Client, remove_tunnel_by_id}
use openrport.Clients.Starting.{find_tunnel}
use openrport.Clients.Starting.Numbering.{Numbered, IsNumbered}

Numbered-weaker :
    (low least high : ℕ) (ts : List Tunnel)
    → least ≤ low
    → Numbered low high ts
    → Numbered least high ts
Numbered-weaker low least high [] le h = omega (arith, le, h)
Numbered-weaker low least high (t ∷ ts) le (k, lt, e, rest) = (k, omega (arith, le, lt), e, rest)

Numbered-filter :
    (p : Tunnel → Bool) (low high : ℕ) (ts : List Tunnel)
    → Numbered low high ts
    → Numbered low high (filter p ts)
Numbered-filter p low high [] h = h
Numbered-filter p low high (t ∷ ts) (k, lt, e, rest) = elim (Bool-cases (p t)) [
  | inl kept ↦ rw kept (k, lt, e, Numbered-filter p k high ts rest)
  | inr gone ↦ rw gone (
      Numbered-weaker k low high (filter p ts) (omega (arith, lt))
        (Numbered-filter p k high ts rest))
]

-- Closing a tunnel leaves the ids of the others as they are.
pub remove_tunnel_by_id-IsNumbered :
    (id : Text) (c : Client) → IsNumbered c → IsNumbered (remove_tunnel_by_id id c)
unfolding remove_tunnel_by_id
remove_tunnel_by_id-IsNumbered id c v =
    Numbered-filter (λ t. not (t.id == id)) 0 c.tunnel_id_auto_increment c.tunnels v

Numbered-bounds : (low high : ℕ) (ts : List Tunnel) → Numbered low high ts → low ≤ high
Numbered-bounds low high [] h = h
Numbered-bounds low high (t ∷ ts) (k, lt, e, rest) =
    omega (arith, lt, Numbered-bounds k high ts rest)

Numbered-above :
    (low high : ℕ) (t : Tunnel) (ts : List Tunnel)
    → Numbered low high ts
    → In t ts
    → (k : ℕ) × (low < k) × (k ≤ high) × (t.id ≡ itoa k)
Numbered-above low high t [] h i = absurd i
Numbered-above low high t (u ∷ ts) (k, lt, e, rest) (inl same) =
    (k, lt, Numbered-bounds k high ts rest, subst (λ v. v.id ≡ itoa k) same e)
Numbered-above low high t (u ∷ ts) (k, lt, e, rest) (inr later) =
    let (j, l, le, f) = Numbered-above k high t ts rest later in (j, omega (arith, lt, l), le, f)

find_tunnel-In :
    (low high : ℕ) (t : Tunnel) (ts : List Tunnel)
    → high < 2 ^ 63
    → Numbered low high ts
    → In t ts
    → find_tunnel t.id ts ≡ some t
unfolding find_tunnel
find_tunnel-In low high t [] bound h i = absurd i
find_tunnel-In low high t (u ∷ ts) bound (k, lt, e, rest) (inl same) =
    ground (arith, same, beq_refl t.id)
find_tunnel-In low high t (u ∷ ts) bound (k, lt, e, rest) (inr later) =
    let (j, l, le, f) = Numbered-above k high t ts rest later in
    ground (
      arith,
      text_eq.equal_iff u.id t.id,
      e,
      f,
      itoa_injective k j (omega (arith, l, le, bound)) (omega (arith, le, bound)),
      find_tunnel-In k high t ts bound rest later,
    )

find_tunnel-removed :
    (id : Text) (ts : List Tunnel) → find_tunnel id (filter (λ t. not (t.id == id)) ts) ≡ none
unfolding find_tunnel
find_tunnel-removed id [] = refl
find_tunnel-removed id (t ∷ ts) = ground (arith, find_tunnel-removed id ts)

none_removed :
    (low high k : ℕ) (ts : List Tunnel)
    → high < 2 ^ 63
    → k ≤ low
    → Numbered low high ts
    → filter (λ t. not (t.id == itoa k)) ts ≡ ts
none_removed low high k [] bound le h = refl
none_removed low high k (t ∷ ts) bound le (j, lt, e, rest) = ground (
  arith,
  text_eq.equal_iff t.id (itoa k),
  e,
  itoa_injective j k (omega (arith, Numbered-bounds j high ts rest, bound))
      (omega (arith, le, lt, Numbered-bounds j high ts rest, bound)),
  none_removed j high k ts bound (omega (arith, le, lt)) rest,
)

removed_one :
    (low high : ℕ) (t : Tunnel) (ts : List Tunnel)
    → high < 2 ^ 63
    → Numbered low high ts
    → In t ts
    → length (filter (λ u. not (u.id == t.id)) ts) + 1 ≡ length ts
removed_one low high t [] bound h i = absurd i
removed_one low high t (u ∷ ts) bound (k, lt, e, rest) (inl same) =
    ground (arith, same, e, beq_refl t.id, none_removed k high k ts bound (omega arith) rest)
removed_one low high t (u ∷ ts) bound (k, lt, e, rest) (inr later) =
    let (j, l, le, f) = Numbered-above k high t ts rest later in
    ground (
      arith,
      text_eq.equal_iff u.id t.id,
      e,
      f,
      itoa_injective k j (omega (arith, l, le, bound)) (omega (arith, le, bound)),
      removed_one k high t ts bound rest later,
    )

-- Among numbered tunnels, fewer than 2^63 so far, each is the one that is found under its id, and
-- closing it leaves one tunnel
-- less, and none under this id.
pub find_tunnel-IsNumbered :
    (c : Client) (t : Tunnel)
    → c.tunnel_id_auto_increment < 2 ^ 63
    → IsNumbered c
    → In t c.tunnels
    → (find_tunnel t.id c.tunnels ≡ some t)
      × (find_tunnel t.id (remove_tunnel_by_id t.id c).tunnels ≡ none)
      × (length (remove_tunnel_by_id t.id c).tunnels + 1 ≡ length c.tunnels)
unfolding remove_tunnel_by_id
find_tunnel-IsNumbered c t bound v i = (
  find_tunnel-In 0 c.tunnel_id_auto_increment t c.tunnels bound v i,
  find_tunnel-removed t.id c.tunnels,
  removed_one 0 c.tunnel_id_auto_increment t c.tunnels bound v i,
)
