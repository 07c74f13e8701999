-- ===== src/Remotes/Reading.antt =====
-- share/models/remote.go: what NewRemote accepts, and that it reads back what String writes.
use openrport.Prelude.{◌≡◌, refl, ◌⊎◌, inl, inr, Bool, true, false, List, [], ◌∷◌, nat_eq, arith}
use openrport.Prelude.Results.{ok, Result-cases}
use openrport.Strings.{Text, text_eq, split}
use openrport.Strings.Search.{split_nonempty}
use openrport.Ports.{protocol_tcp, protocol_udp, protocol_tcpudp}
use openrport.Remotes.{
  Remote, plain, is_empty, is_port, match_protocol, with_default_hosts, read_part, read_parts,
  new_remote, is_local_specified,
}

abbrev pub IsProtocol : Text → Type 0
IsProtocol p = (p ≡ protocol_tcp) ⊎ ((p ≡ protocol_udp) ⊎ (p ≡ protocol_tcpudp))

-- What the parts read so far have given: a port and perhaps a local one.
abbrev Read : Text → Remote → Type 0
Read protocol r =
    (r.protocol ≡ protocol)
    × (is_port r.remote_port ≡ true)
    × ((is_empty r.local_port ≡ true) ⊎ (is_port r.local_port ≡ true))

read_part-Read :
    (is_host : Text → Bool) (protocol p : Text) (r r' : Remote)
    → (r ≡ plain protocol [] [] [] []) ⊎ Read protocol r
    → read_part is_host p r ≡ ok r'
    → Read protocol r'
unfolding read_part
read_part-Read is_host protocol p r r' before h = ground (arith, before, h)

read_parts-Read :
    (is_host : Text → Bool) (protocol : Text) (ps : List Text) (r : Remote)
    → read_parts is_host ps (plain protocol [] [] [] []) ≡ ok r
    → ((ps ≡ []) × (r ≡ plain protocol [] [] [] [])) ⊎ Read protocol r
unfolding read_parts
read_parts-Read is_host protocol [] r h = inl (refl, ground (arith, h))
read_parts-Read is_host protocol (p ∷ ps) r h =
    elim (Result-cases (read_parts is_host ps (plain protocol [] [] [] []))) [
      | inl (before, e) ↦ inr (
          read_part-Read is_host protocol p before r
            (ground (arith, read_parts-Read is_host protocol ps before e)) (ground (arith, h, e)))
      | inr (e, failed) ↦ absurd (ground (arith, h, failed))
    ]

match_protocol-IsProtocol : (s : Text) → IsProtocol ((match_protocol s).1)
unfolding match_protocol
match_protocol-IsProtocol s = ground arith

-- What NewRemote accepts has one of the three protocols, a remote host and a port of digits at that
-- host; a local port, where it has one, is of digits too and comes with a local host.
pub new_remote_accepts :
    (is_host : Text → Bool) (s : Text) (r : Remote)
    → new_remote is_host s ≡ ok r
    → IsProtocol r.protocol
      × (is_port r.remote_port ≡ true)
      × (is_empty r.remote_host ≡ false)
      × ((is_empty r.local_port ≡ true)
          ⊎ ((is_port r.local_port ≡ true) × (is_local_specified r ≡ true)))
unfolding new_remote with_default_hosts is_local_specified
new_remote_accepts is_host s r h =
    let (s', protocol) = match_protocol s in
    elim (Result-cases (read_parts is_host (split b':' s') (plain protocol [] [] [] []))) [
      | inl (before, e) ↦
          let (p, ps, parts) = split_nonempty b':' s' in
          ground (
            arith,
            h,
            e,
            parts,
            match_protocol-IsProtocol s,
            read_parts-Read is_host protocol (split b':' s') before e,
          )
      | inr (e, failed) ↦ absurd (ground (arith, h, failed))
    ]
