-- ===== src/Remotes/RoundTrip.antt =====
-- share/models/remote.go: NewRemote reads back what String writes.
use openrport.Prelude.{
  ℕ, ◌-◌, ◌≡◌, ◌≤◌, refl, sym, ap, ◌∙◌, subst, inl, inr, Bool, true, false, all, [], ◌∷◌, ◌++◌,
  ◌==◌, nat_eq, if◌then◌else◌, length, take, take-append, length-append, take-append-drop,
  Bool-cases, arith,
}
use mathlib.Core.List.{append_assoc, append-nil}
use openrport.Prelude.Results.{ok}
use openrport.Strings.{Text, text_eq, has_suffix, split, contains_byte}
use openrport.Strings.Search.{
  has_suffix-append, has_suffix-split, has_suffix-shorter, split_absent, split-append,
  contains_byte-append,
}
use openrport.Strings.Decimal.{is_digit}
use openrport.Ports.{protocol_tcp, protocol_udp, protocol_tcpudp}
use openrport.Remotes.{
  plain, is_empty, is_port, after_newline, protocol_suffix, match_protocol, with_default_hosts,
  read_part, read_parts, new_remote, join_host_port, remote_address, to_string,
}
use openrport.Remotes.Reading.{IsProtocol}

-- A host that the notation can spell: no colon and no newline, and no port by itself.
pub record IsHostName (is_host : Text → Bool) (h : Text) : Type 0 where
  pub accepted : is_host h ≡ true
  pub nonempty : is_empty h ≡ false
  pub no_port : is_port h ≡ false
  pub no_colon : contains_byte b':' h ≡ false
  pub no_newline : contains_byte 10 h ≡ false

digits_lack :
    (c : ℕ) (s : Text) → is_digit c ≡ false → all is_digit s ≡ true → contains_byte c s ≡ false
unfolding contains_byte
digits_lack c [] h d = refl
digits_lack c (x ∷ s) h d = ground (arith, digits_lack c s h)

port_lacks : (c : ℕ) (s : Text) → is_digit c ≡ false → is_port s ≡ true → contains_byte c s ≡ false
unfolding is_port
port_lacks c s h p = digits_lack c s h (ground (arith, p))

abbrev last_byte : Text → ℕ
last_byte [] = 0
last_byte (c ∷ s) = elim s [ [] ↦ c | d ∷ t ↦ last_byte s ]

last_byte-append : (x : Text) (c : ℕ) (s : Text) → last_byte (x ++ (c ∷ s)) ≡ last_byte (c ∷ s)
last_byte-append [] c s = refl
last_byte-append (d ∷ []) c s = refl
last_byte-append (d ∷ e ∷ x) c s = last_byte-append (e ∷ x) c s

last_digit : (c : ℕ) (s : Text) → all is_digit (c ∷ s) ≡ true → is_digit (last_byte (c ∷ s)) ≡ true
last_digit c [] h = ground (arith, h)
last_digit c (d ∷ s) h = last_digit d s (ground (arith, h))

suffix_last :
    (s : Text) (c : ℕ) (suffix : Text)
    → has_suffix s (c ∷ suffix) ≡ true
    → last_byte s ≡ last_byte (c ∷ suffix)
suffix_last s c suffix h =
    let k = length s - length (c ∷ suffix) in
    ap last_byte {x = s} {y = take k s ++ (c ∷ suffix)}
      (sym (take-append-drop k s) ∙ ap (◌++◌ (take k s)) ((has_suffix-split s (c ∷ suffix) h).1))
    ∙ last_byte-append (take k s) c suffix

port_lacks_suffix :
    (x port suffix : Text) (c : ℕ)
    → is_port port ≡ true
    → is_digit (last_byte (c ∷ suffix)) ≡ false
    → has_suffix (x ++ port) (c ∷ suffix) ≡ false
unfolding is_port
port_lacks_suffix x [] suffix c p l = absurd (ground (arith, p))
port_lacks_suffix x (d ∷ port) suffix c p l =
    elim (Bool-cases (has_suffix (x ++ (d ∷ port)) (c ∷ suffix))) [
      | inl h ↦ absurd (
          ground (
            arith,
            l,
            last_digit d port (ground (arith, p)),
            suffix_last (x ++ (d ∷ port)) c suffix h,
            last_byte-append x d port,
          ))
      | inr h ↦ h
    ]

after_newline_lem : (s : Text) → contains_byte 10 s ≡ false → after_newline s ≡ s
unfolding after_newline contains_byte
after_newline_lem [] h = refl
after_newline_lem (c ∷ s) h = ground (arith, h, after_newline_lem s)

suffix_absent :
    (x y suffix : Text)
    → length suffix ≤ length y
    → has_suffix y suffix ≡ false
    → has_suffix (x ++ y) suffix ≡ false
suffix_absent x y suffix le h = elim (Bool-cases (has_suffix (x ++ y) suffix)) [
  | inl e ↦ absurd (ground (arith, h, has_suffix-shorter x y suffix e le))
  | inr e ↦ e
]

cut : (x y : Text) → take (length (x ++ y) - length y) (x ++ y) ≡ x
cut x y =
    ap (λ (n : ℕ). take n (x ++ y)) {x = length (x ++ y) - length y} {y = length x}
      (omega (arith, length-append x y))
    ∙ take-append x y

abbrev mark : Text → Text
mark protocol = if protocol == protocol_tcp then [] else protocol_suffix protocol

match_protocol-mark :
    (x port protocol : Text)
    → IsProtocol protocol
    → is_port port ≡ true
    → contains_byte 10 (x ++ port) ≡ false
    → match_protocol ((x ++ port) ++ mark protocol) ≡ (x ++ port, protocol)
unfolding match_protocol has_suffix
match_protocol-mark x port protocol (inl e) p h =
    subst (λ t. match_protocol ((x ++ port) ++ mark t) ≡ (x ++ port, t)) (sym e)
      (subst (λ u. match_protocol u ≡ (x ++ port, protocol_tcp)) (sym (append-nil (x ++ port)))
        (ground (
          arith,
          port_lacks_suffix x port protocol_tcp b'/' p refl,
          port_lacks_suffix x port protocol_udp b'/' p refl,
          port_lacks_suffix x port protocol_tcpudp b'/' p refl,
        )))
match_protocol-mark x port protocol (inr (inl e)) p h =
    subst (λ t. match_protocol ((x ++ port) ++ mark t) ≡ (x ++ port, t)) (sym e)
      (ground (
        arith,
        suffix_absent (x ++ port) (protocol_suffix protocol_udp) (protocol_suffix protocol_tcp)
            (omega arith) refl,
        has_suffix-append (x ++ port) (protocol_suffix protocol_udp),
        cut (x ++ port) (protocol_suffix protocol_udp),
        after_newline_lem (x ++ port) h,
      ))
match_protocol-mark x port protocol (inr (inr e)) p h =
    subst (λ t. match_protocol ((x ++ port) ++ mark t) ≡ (x ++ port, t)) (sym e)
      (ground (
        arith,
        suffix_absent (x ++ port) (protocol_suffix protocol_tcpudp) (protocol_suffix protocol_tcp)
            (omega arith) refl,
        suffix_absent (x ++ port) (protocol_suffix protocol_tcpudp) (protocol_suffix protocol_udp)
            (omega arith) refl,
        has_suffix-append (x ++ port) (protocol_suffix protocol_tcpudp),
        cut (x ++ port) (protocol_suffix protocol_tcpudp),
        after_newline_lem (x ++ port) h,
      ))

-- Both addresses, in the notation.
abbrev front : Text → Text → Text → Text
front lh lp rh = (lh ++ (b':' ∷ (lp ++ (b':' ∷ rh)))) ++ (b':' ∷ [])

front_lem :
    (lh lp rh rp : Text)
    → front lh lp rh ++ rp ≡ lh ++ (b':' ∷ (lp ++ (b':' ∷ (rh ++ (b':' ∷ rp)))))
front_lem lh lp rh rp = simp (append_assoc)

split-front :
    (lh lp rh rp : Text)
    → contains_byte b':' lh ≡ false
    → contains_byte b':' lp ≡ false
    → contains_byte b':' rh ≡ false
    → contains_byte b':' rp ≡ false
    → split b':' (front lh lp rh ++ rp) ≡ lh ∷ lp ∷ rh ∷ rp ∷ []
split-front lh lp rh rp a b c d = ground (
  arith,
  front_lem lh lp rh rp,
  split-append b':' lh (lp ++ (b':' ∷ (rh ++ (b':' ∷ rp)))),
  split-append b':' lp (rh ++ (b':' ∷ rp)),
  split-append b':' rh rp,
  split_absent b':' rp,
)

front_no_newline :
    (lh lp rh rp : Text)
    → contains_byte 10 lh ≡ false
    → contains_byte 10 lp ≡ false
    → contains_byte 10 rh ≡ false
    → contains_byte 10 rp ≡ false
    → contains_byte 10 (front lh lp rh ++ rp) ≡ false
unfolding contains_byte
front_no_newline lh lp rh rp a b c d = ground (
  arith,
  a,
  b,
  c,
  d,
  front_lem lh lp rh rp,
  contains_byte-append 10 lh (b':' ∷ (lp ++ (b':' ∷ (rh ++ (b':' ∷ rp))))),
  contains_byte-append 10 lp (b':' ∷ (rh ++ (b':' ∷ rp))),
  contains_byte-append 10 rh (b':' ∷ rp),
)

to_string_lem :
    (protocol lh lp rh rp : Text)
    → contains_byte b':' rh ≡ false
    → to_string (plain protocol lh lp rh rp) ≡ (front lh lp rh ++ rp) ++ mark protocol
unfolding to_string remote_address join_host_port
to_string_lem protocol lh lp rh rp h = rw h (simp (append_assoc, append-nil))

read_all :
    (is_host : Text → Bool) (protocol lh lp rh rp : Text)
    → IsHostName is_host lh
    → is_port lp ≡ true
    → IsHostName is_host rh
    → is_port rp ≡ true
    → read_parts is_host (lh ∷ lp ∷ rh ∷ rp ∷ []) (plain protocol [] [] [] [])
      ≡ ok (plain protocol lh lp rh rp)
unfolding read_parts read_part is_port
read_all is_host protocol lh lp rh rp l p r q =
    ground (arith, p, q, l.accepted, l.nonempty, l.no_port, r.accepted, r.nonempty, r.no_port)

-- NewRemote reads back what String writes of a remote that has one of the three protocols, ports of
-- digits, hosts that the notation can spell, and nothing else.
pub new_remote-to_string :
    (is_host : Text → Bool) (protocol lh lp rh rp : Text)
    → IsProtocol protocol
    → IsHostName is_host lh
    → is_port lp ≡ true
    → IsHostName is_host rh
    → is_port rp ≡ true
    → new_remote is_host (to_string (plain protocol lh lp rh rp)) ≡ ok (plain protocol lh lp rh rp)
unfolding new_remote with_default_hosts
new_remote-to_string is_host protocol lh lp rh rp known l p r q =
    rw (to_string_lem protocol lh lp rh rp r.no_colon) rw
      (match_protocol-mark (front lh lp rh) rp protocol known q (
        front_no_newline lh lp rh rp l.no_newline (port_lacks 10 lp refl p) r.no_newline
          (port_lacks 10 rp refl q)))
      rw
      (split-front lh lp rh rp l.no_colon (port_lacks b':' lp refl p) r.no_colon
        (port_lacks b':' rp refl q))
      rw (read_all is_host protocol lh lp rh rp l p r q) rw (l.nonempty) rw (r.nonempty) refl
