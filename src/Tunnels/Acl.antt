-- ===== src/Tunnels/Acl.antt =====
-- server/clients/clienttunnel/tunnel_acl.go: from which addresses a tunnel may be used. What the
-- code takes of package net is a record of functions.
use openrport.Prelude.{
  ℕ, zero, suc, ◌≡◌, ◌↔◌, ◌⊎◌, inl, inr, Bool, true, List, [], ◌∷◌, Option, none, some,
  if◌then◌else◌, any, arith,
}
use openrport.Prelude.Results.{Result, ok, err, ◌>>=◌, or_fail, Result-cases}
use openrport.Strings.{Text, split, contains_byte}
use openrport.Strings.Search.{split_nonempty}

-- net.IPNet: an address and a mask, of 4 or 16 bytes.
pub record IpNet : Type 0 where
  pub ip : Text
  pub mask : Text

-- `is_unspecified` is equality with 0.0.0.0 or ::, and `is_v4` that To4 is not nil.
pub record Net : Type 0 where
  pub parse_cidr : Text → Option (Text × IpNet)
  pub parse_ip : Text → Option Text
  pub is_unspecified : Text → Bool
  pub is_v4 : Text → Bool
  pub contains : IpNet → Text → Bool

pub data AclError : Type 0 where
  bad_cidr invalid_ip allows_everyone : AclError

abbrev pub TunnelAcl : Type 0
TunnelAcl = List IpNet

abbrev pub full_mask : ℕ → Text
full_mask zero = []
full_mask (suc n) = 255 ∷ full_mask n

module _ (net : Net) where
  -- `ip.Equal(net.IPv4zero) || ip.Equal(net.IPv6zero)` is refused.
  abbrev refuse_unspecified : Text → IpNet → Result AclError IpNet
  refuse_unspecified ip n = if net.is_unspecified ip then err allows_everyone else ok n

  unfoldable pub parse_ip_net : Text → Result AclError IpNet
  parse_ip_net s =
      if contains_byte b'/' s
      then (or_fail (net.parse_cidr s) bad_cidr >>= λ (ip, n). refuse_unspecified ip n)
      else (or_fail (net.parse_ip s) invalid_ip >>= λ ip.
          refuse_unspecified ip
            (record { ip = ip; mask = full_mask (if net.is_v4 ip then 4 else 16) }))

  unfoldable pub parse_values : List Text → Result AclError TunnelAcl
  parse_values [] = ok []
  parse_values (s ∷ values) = parse_ip_net s >>= λ n. parse_values values >>= λ acl. ok (n ∷ acl)

  -- `none` is a nil ACL.
  unfoldable pub parse_tunnel_acl : Text → Result AclError (Option TunnelAcl)
  unfolding parse_values
  parse_tunnel_acl [] = ok none
  parse_tunnel_acl (c ∷ s) = parse_values (split b',' (c ∷ s)) >>= λ acl. ok (some acl)

  unfoldable pub check_access : TunnelAcl → Text → Bool
  check_access [] ip = true
  check_access (n ∷ acl) ip = any (λ allowed. net.contains allowed ip) (n ∷ acl)

  -- Some value of the list names a network that the address is in.
  abbrev pub Names : List Text → Text → Type 0
  Names [] ip = ⊥
  Names (s ∷ values) ip =
      ((n : IpNet) × (parse_ip_net s ≡ ok n) × (net.contains n ip ≡ true)) ⊎ Names values ip

  parse_values-Names :
      (values : List Text) (acl : TunnelAcl) (ip : Text)
      → parse_values values ≡ ok acl
      → (any (λ allowed. net.contains allowed ip) acl ≡ true) ↔ Names values ip
  unfolding parse_values
  parse_values-Names [] acl ip h = ground (arith, h)
  parse_values-Names (s ∷ values) acl ip h = elim (Result-cases (parse_ip_net s)) [
    | inl (n, e) ↦ elim (Result-cases (parse_values values)) [
      | inl (rest, f) ↦ ground (arith, h, e, f, parse_values-Names values rest ip f)
      | inr (w, f) ↦ absurd (ground (arith, h, e, f))
    ]
    | inr (w, e) ↦ absurd (ground (arith, h, e))
  ]

  parse_values_nonempty : (s : Text) (values : List Text) → ¬ (parse_values (s ∷ values) ≡ ok [])
  unfolding parse_values
  parse_values_nonempty s values h = elim (Result-cases (parse_ip_net s)) [
    | inl (n, e) ↦ elim (Result-cases (parse_values values)) [
      | inl (rest, f) ↦ ground (arith, h, e, f)
      | inr (w, f) ↦ ground (arith, h, e, f)
    ]
    | inr (w, e) ↦ ground (arith, h, e)
  ]

  parsed_values :
      (s : Text) (acl : TunnelAcl)
      → parse_tunnel_acl s ≡ ok (some acl)
      → parse_values (split b',' s) ≡ ok acl
  unfolding parse_tunnel_acl
  parsed_values [] acl h = ground (arith, h)
  parsed_values (c ∷ s) acl h = elim (Result-cases (parse_values (split b',' (c ∷ s)))) [
    | inl (found, e) ↦ ground (arith, h, e)
    | inr (w, e) ↦ ground (arith, h, e)
  ]

  -- An ACL that has been read from a text lets exactly the addresses in that are in a network which
  -- one of the text's values names.
  pub check_access-parse_tunnel_acl :
      (s : Text) (acl : TunnelAcl) (ip : Text)
      → parse_tunnel_acl s ≡ ok (some acl)
      → (check_access acl ip ≡ true) ↔ Names (split b',' s) ip
  unfolding check_access
  check_access-parse_tunnel_acl s [] ip h =
      let (p, ps, e) = split_nonempty b',' s in
      absurd (parse_values_nonempty p ps (ground (arith, e, parsed_values s [] h)))
  check_access-parse_tunnel_acl s (n ∷ acl) ip h =
      parse_values-Names (split b',' s) (n ∷ acl) ip (parsed_values s (n ∷ acl) h)
