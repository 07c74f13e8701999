-- ===== src/Remotes.antt =====
-- share/models/remote.go: what a tunnel connects, and the notation for it. A text is a list of bytes;
-- `is_host` says whether url.Parse reads a text.
pub mod Reading
pub mod RoundTrip
use openrport.Prelude.{
  ℕ, ◌+◌, ◌-◌, Bool, true, false, not, ◌&&◌, ◌||◌, all, List, [], ◌∷◌, ◌++◌, Option, none, some,
  ◌==◌, nat_eq, leb, if◌then◌else◌, length, take,
}
use openrport.Prelude.Results.{Result, ok, err, ◌>>=◌}
use openrport.Strings.{Text, text_eq, has_suffix, split, contains_byte}
use openrport.Strings.Decimal.{is_digit}
use openrport.Ports.{protocol_tcp, protocol_udp, protocol_tcpudp}

-- 0.0.0.0
abbrev pub zero_host : Text
zero_host = b'0' ∷ b'.' ∷ b'0' ∷ b'.' ∷ b'0' ∷ b'.' ∷ b'0' ∷ []

-- 127.0.0.1
abbrev pub local_host_ip : Text
local_host_ip = b'1' ∷ b'2' ∷ b'7' ∷ b'.' ∷ b'0' ∷ b'.' ∷ b'0' ∷ b'.' ∷ b'1' ∷ []

pub record Remote : Type 0 where
  pub name : Text
  pub protocol : Text
  pub local_host : Text
  pub local_port : Text
  pub local_port_random : Bool
  pub owner : Text
  pub remote_host : Text
  pub remote_port : Text
  pub scheme : Option Text
  pub acl : Option Text
  pub idle_timeout_minutes : ℕ
  pub auto_close : ℕ
  pub http_proxy : Bool
  pub host_header : Text
  pub auth_user : Text
  pub auth_password : Text
  pub tunnel_url : Text

pub data RemoteError : Type 0 where
  invalid_remote missing_ports invalid_host : RemoteError

-- The Remote that has the protocol and these addresses only.
abbrev pub plain : Text → Text → Text → Text → Text → Remote
plain protocol local_host local_port remote_host remote_port = record {
  name = [];
  protocol = protocol;
  local_host = local_host;
  local_port = local_port;
  local_port_random = false;
  owner = [];
  remote_host = remote_host;
  remote_port = remote_port;
  scheme = none;
  acl = none;
  idle_timeout_minutes = 0;
  auto_close = 0;
  http_proxy = false;
  host_header = [];
  auth_user = [];
  auth_password = [];
  tunnel_url = [];
}

-- `s == ""`
abbrev pub is_empty : Text → Bool
is_empty [] = true
is_empty (c ∷ s) = false

unfoldable pub is_port : Text → Bool
is_port s = not (is_empty s) && all is_digit s

-- What of a text the `(.*)` of protocolRe matches: no newline.
unfoldable pub after_newline : Text → Text
after_newline [] = []
after_newline (c ∷ s) =
    let rest = after_newline s in if contains_byte 10 (c ∷ s) then rest else c ∷ s

-- `/tcp` and the like
abbrev pub protocol_suffix : Text → Text
protocol_suffix protocol = b'/' ∷ protocol

abbrev cut_suffix : Text → Text → Text
cut_suffix s suffix = after_newline (take (length s - length suffix) s)

-- protocolRe: the text in front of the protocol, and the protocol, tcp without one.
unfoldable pub match_protocol : Text → Text × Text
unfolding after_newline
match_protocol s =
    if has_suffix s (protocol_suffix protocol_tcp)
    then (cut_suffix s (protocol_suffix protocol_tcp), protocol_tcp)
    else (if has_suffix s (protocol_suffix protocol_udp)
        then (cut_suffix s (protocol_suffix protocol_udp), protocol_udp)
        else (if has_suffix s (protocol_suffix protocol_tcpudp)
            then (cut_suffix s (protocol_suffix protocol_tcpudp), protocol_tcpudp)
            else (s, protocol_tcp)))

-- The end of NewRemote: the hosts that the notation leaves out.
unfoldable pub with_default_hosts : Remote → Remote
with_default_hosts r =
    let r' =
      if is_empty r.local_host && not (is_empty r.local_port)
      then record r { local_host = zero_host }
      else r in
    if is_empty r'.remote_host then record r' { remote_host = local_host_ip } else r'

module _ (is_host : Text → Bool) where
  -- The body of NewRemote's loop.
  unfoldable pub read_part : Text → Remote → Result RemoteError Remote
  read_part p r =
      if is_port p
      then ok (
          if is_empty r.remote_port
          then record r { remote_port = p }
          else record r { local_port = p })
      else (if is_empty r.remote_port && is_empty r.local_port
          then err missing_ports
          else (if not (is_host p)
              then err invalid_host
              else ok (
                  if is_empty r.remote_host
                  then record r { remote_host = p }
                  else record r { local_host = p })))

  -- The loop, from the last part to the first.
  unfoldable pub read_parts : List Text → Remote → Result RemoteError Remote
  read_parts [] r = ok r
  read_parts (p ∷ ps) r = read_parts ps r >>= read_part p

  unfoldable pub new_remote : Text → Result RemoteError Remote
  unfolding match_protocol with_default_hosts
  new_remote s =
      let (s', protocol) = match_protocol s in
      let parts = split b':' s' in
      if leb 5 (length parts)
      then err invalid_remote
      else (read_parts parts (plain protocol [] [] [] []) >>= λ r. ok (with_default_hosts r))

-- net.JoinHostPort
unfoldable pub join_host_port : Text → Text → Text
join_host_port host port =
    if contains_byte b':' host then b'[' ∷ (host ++ (b']' ∷ b':' ∷ port)) else host ++ (b':' ∷ port)

-- Remote
unfoldable pub remote_address : Remote → Text
unfolding join_host_port
remote_address r = join_host_port r.remote_host r.remote_port

abbrev protocol_mark : Text → Text
protocol_mark protocol = if protocol == protocol_tcp then [] else protocol_suffix protocol

abbrev acl_mark : Option Text → Text
acl_mark none = []
acl_mark (some acl) = (b'(' ∷ b'a' ∷ b'c' ∷ b'l' ∷ b':' ∷ []) ++ (acl ++ (b')' ∷ []))

-- String
unfoldable pub to_string : Remote → Text
unfolding remote_address
to_string r =
    r.local_host
    ++ (b':'
        ∷ (r.local_port
            ++ (b':' ∷ (remote_address r ++ (protocol_mark r.protocol ++ acl_mark r.acl)))))

unfoldable pub equals : Remote → Remote → Bool
unfolding to_string
equals r other = to_string r == to_string other

unfoldable pub is_protocol : Text → Text → Bool
is_protocol protocol other =
    protocol == other
    || ((protocol == protocol_tcpudp && (other == protocol_tcp || other == protocol_udp))
        || (other == protocol_tcpudp && (protocol == protocol_tcp || protocol == protocol_udp)))

unfoldable pub equal_acl : Remote → Option Text → Bool
equal_acl r acl = elim r.acl [
  | none ↦ (elim acl [ none ↦ true | some a ↦ false ])
  | some own ↦ (elim acl [ none ↦ false | some a ↦ own == a ])
]

unfoldable pub is_local_specified : Remote → Bool
is_local_specified r = not (is_empty r.local_host) && not (is_empty r.local_port)

unfoldable pub has_subdomain_tunnel : Remote → Bool
has_subdomain_tunnel r = not (is_empty r.tunnel_url)
