-- ===== src/Pairing/Messages.antt =====
-- The messages of the pairing protocol and their bytes (internal/pairing/pairing.go). An array
-- `[n]byte` is a list of `n` bytes.
pub mod Frames
pub mod RoundTrip
use opl_core.Prelude.{
  ℕ, zero, suc, ◌+◌, ◌-◌, ◌≡◌, Bool, true, false, not, ◌&&◌, ◌||◌, List, [], ◌∷◌, ◌++◌,
  if◌then◌else◌, ◌==◌, nat_eq, bytes_eq, Bytes, length, take, drop, Option, some, none, Result, ok,
  err, ltb, leb, all, is_some, reject, ◌>>=◌, ◌>>◌,
}
use opl_core.Prelude.Addr.{Addr, v4, is4}
use opl_core.Prelude.Binary.{at, slice, is_zero, put_u16, put_u64, get_u16, get_u64}
use opl_core.Discovery.Frame.{as4, addr_at}
use opl_core.Codec.Utf8.{runes, is_space}

pub data Error : Type 0 where
  protocol auth_failed join_paused room_full member_disabled internal eof unexpected_eof outside :
      Error

abbrev pub protocol_version : ℕ
protocol_version = 2

abbrev pub max_name_bytes : ℕ
max_name_bytes = 64

abbrev pub max_uid_bytes : ℕ
max_uid_bytes = 31

abbrev pub status_ok : ℕ
status_ok = 0

pub record ServerChallenge : Type 0 where
  pub version : ℕ
  pub server_nonce : Bytes
  pub host_public_key : Bytes

pub record ClientRequest : Type 0 where
  pub client_nonce : Bytes
  pub client_public_key : Bytes
  pub uid : Bytes
  pub name : Bytes
  pub mac : Bytes

pub record PairResult : Type 0 where
  pub status : ℕ
  pub assigned_ip : Addr
  pub prefix_length : ℕ
  pub wire_guard_port : ℕ
  pub discovery_relay_port : ℕ
  pub host_public_key : Bytes
  pub lease_revision : ℕ
  pub mac : Bytes

-- no control characters
abbrev pub printable : ℕ → Bool
printable r = not (ltb r 0x20 || r == 0x7f)

abbrev pub all_printable : Option (List ℕ) → Bool
all_printable none = false
all_printable (some rs) = all printable rs

unfoldable pub valid_name : Bytes → Bool
valid_name name = leb (length name) max_name_bytes && all_printable (runes name)

-- `value == strings.TrimSpace(value)`: neither the first nor the last character is a space
abbrev pub ends_with_space : List ℕ → Bool
ends_with_space [] = false
ends_with_space (r ∷ []) = is_space r
ends_with_space (r ∷ s ∷ rs) = ends_with_space (s ∷ rs)

abbrev pub starts_with_space : List ℕ → Bool
starts_with_space [] = false
starts_with_space (r ∷ rs) = is_space r

abbrev pub trimmed : Option (List ℕ) → Bool
trimmed none = false
trimmed (some rs) = not (starts_with_space rs || ends_with_space rs)

unfoldable pub valid_uid : Bytes → Bool
valid_uid value =
    trimmed (runes value)
    && leb 8 (length value)
    && leb (length value) 31
    && all_printable (runes value)

-- an empty id, or a valid one
abbrev pub valid_uid_or_none : Bytes → Bool
valid_uid_or_none [] = true
valid_uid_or_none (c ∷ cs) = valid_uid (c ∷ cs)

unfoldable pub valid_auth_key : Bytes → Bool
valid_auth_key value = (length value == 12 || length value == 32) && not (is_zero value)

-- `random` is what the random source returns: 32 bytes, or `none` for its error.
unfoldable pub new_server_challenge : Bytes → Option Bytes → Result Error ServerChallenge
new_server_challenge host_public_key random =
    if is_zero host_public_key then err protocol else elim random [
      | none ↦ err unexpected_eof
      | some nonce ↦ ok (record {
        version = protocol_version;
        server_nonce = nonce;
        host_public_key = host_public_key;
      })
    ]

unfoldable pub marshal_challenge : ServerChallenge → Bytes
marshal_challenge v = v.version ∷ (v.server_nonce ++ v.host_public_key)

unfoldable pub parse_server_challenge : Bytes → Result Error ServerChallenge
parse_server_challenge b =
    if not (length b == 65) || not (at b 0 == protocol_version) || is_zero (drop 33 b)
    then err protocol
    else ok (record { version = at b 0; server_nonce = slice b 1 33; host_public_key = drop 33 b })

-- what `MarshalBinary` and `ParseClientRequest` both ask of a request
unfoldable pub valid_request : ClientRequest → Bool
valid_request v = valid_uid_or_none v.uid && valid_name v.name && not (is_zero v.client_public_key)

-- `byte(len(uid))` and `byte(len(name))` are exact: both are below 65 by the check.
unfoldable pub request_bytes : ClientRequest → Bytes
request_bytes v =
    v.client_nonce
    ++ (v.client_public_key ++ length v.uid ∷ (v.uid ++ length v.name ∷ (v.name ++ v.mac)))

unfoldable pub marshal_request : ClientRequest → Result Error Bytes
unfolding request_bytes
marshal_request v = if not (valid_request v) then err protocol else ok (request_bytes v)

-- The request that the bytes hold, at the lengths of its id and its name.
unfoldable pub request_at : Bytes → ℕ → ℕ → ClientRequest
request_at b uid_length name_length = record {
  client_nonce = take 32 b;
  client_public_key = slice b 32 64;
  uid = slice b 65 (65 + uid_length);
  name = slice b (66 + uid_length) (66 + uid_length + name_length);
  mac = drop (66 + uid_length + name_length) b;
}

unfoldable pub parse_client_request : Bytes → Result Error ClientRequest
parse_client_request b =
    let uid_length = at b 64 in
    let name_length = at b (65 + uid_length) in
    let v = request_at b uid_length name_length in
    if ltb (length b) 98
    then err protocol
    else if ltb max_uid_bytes uid_length || ltb (length b) (98 + uid_length)
    then err protocol
    else if ltb max_name_bytes name_length || not (length b == 98 + uid_length + name_length)
    then err protocol
    else if not (valid_request v)
    then err protocol
    else ok v

-- `resultWithoutMAC`, which leaves the address zero unless it is an IPv4 address
abbrev pub ip_bytes : Addr → Bytes
ip_bytes (v4 a b c d) = a ∷ b ∷ c ∷ d ∷ []
ip_bytes _ = 0 ∷ 0 ∷ 0 ∷ 0 ∷ []

unfoldable pub result_without_mac : PairResult → Bytes
result_without_mac v =
    v.status
    ∷ (ip_bytes v.assigned_ip
        ++ v.prefix_length
          ∷ (put_u16 v.wire_guard_port
              ++ (put_u16 v.discovery_relay_port
                  ++ (v.host_public_key ++ put_u64 v.lease_revision))))

unfoldable pub valid_result : PairResult → Bool
valid_result v =
    is4 v.assigned_ip
    && leb v.prefix_length 32
    && not (v.wire_guard_port == 0)
    && not (v.discovery_relay_port == 0)

unfoldable pub marshal_result : PairResult → Result Error Bytes
unfolding result_without_mac
marshal_result v = if not (valid_result v) then err protocol else ok (result_without_mac v ++ v.mac)

unfoldable pub parse_pair_result : Bytes → Result Error PairResult
parse_pair_result b =
    let wire_guard_port = get_u16 b 6 in
    let discovery_relay_port = get_u16 b 8 in
    if not (length b == 82) || not (at b 0 == status_ok) || ltb 32 (at b 5)
    then err protocol
    else if wire_guard_port == 0 || discovery_relay_port == 0
    then err protocol
    else ok (record {
      status = at b 0;
      assigned_ip = addr_at b 1;
      prefix_length = at b 5;
      wire_guard_port = wire_guard_port;
      discovery_relay_port = discovery_relay_port;
      host_public_key = slice b 10 42;
      lease_revision = get_u64 b 42;
      mac = drop 50 b;
    })
