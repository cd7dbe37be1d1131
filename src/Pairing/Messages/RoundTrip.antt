-- ===== src/Pairing/Messages/RoundTrip.antt =====
-- Each message is read back from its bytes (internal/pairing/pairing.go).
use opl_core.Prelude.{
  ℕ, suc, ◌+◌, ◌≡◌, ◌<◌, ◌≤◌, true, false, [], ◌∷◌, ◌++◌, nat_eq, Bytes, length, take, drop, ◌≢◌,
  ok, arith, take-append_front, drop-append_front, drop-append_past, refl, ap, sym, ◌∙◌,
  length-append, append_assoc, subst, ap₂, get_or-drop, Bool-cases, inl, inr, ok_inj,
}
use opl_core.Prelude.Addr.{Addr, v4, is4}
use opl_core.Prelude.Binary.{
  at, slice, is_zero, put_u16, put_u64, get_u16, get_u64, get_u16-put_u16, get_u64-put_u64,
  get_u64-drop, put_u64-IsArray,
}
use opl_core.Discovery.Frame.{addr_at}
use opl_core.Pairing.Messages.{
  ServerChallenge, ClientRequest, PairResult, marshal_challenge, parse_server_challenge,
  valid_request, valid_result, valid_name, valid_uid, valid_uid_or_none, request_bytes,
  marshal_request, request_at, parse_client_request, result_without_mac, marshal_result,
  parse_pair_result,
}

-- The sizes of a challenge's array fields.
pub record IsChallenge (v : ServerChallenge) : Type 0 where
  pub nonce : length v.server_nonce ≡ 32
  pub key : length v.host_public_key ≡ 32

-- A challenge of this version, with a key that is not all zero, is read back from its bytes.
pub parse-marshal_challenge :
    (v : ServerChallenge)
    → IsChallenge v
    → v.version ≡ 2
    → is_zero v.host_public_key ≡ false
    → parse_server_challenge (marshal_challenge v) ≡ ok v
unfolding parse_server_challenge marshal_challenge
parse-marshal_challenge v s two key = rw (
  take-append_front 32 v.server_nonce v.host_public_key s.nonce,
  drop-append_front 32 v.server_nonce v.host_public_key s.nonce,
  length-append v.server_nonce v.host_public_key,
  s.nonce,
  s.key,
  two,
  key,
)

-- The sizes of a request's array fields.
pub record IsRequest (v : ClientRequest) : Type 0 where
  pub nonce : length v.client_nonce ≡ 32
  pub key : length v.client_public_key ≡ 32
  pub code : length v.mac ≡ 32

module _ (v : ClientRequest) (s : IsRequest v) where
  abbrev tail2 : Bytes
  tail2 = length v.name ∷ (v.name ++ v.mac)

  abbrev tail1 : Bytes
  tail1 = length v.uid ∷ (v.uid ++ tail2)

  past_keys : (k : ℕ) → drop (64 + k) (request_bytes v) ≡ drop k tail1
  unfolding request_bytes
  past_keys k =
      ap (λ i. drop i (request_bytes v)) (omega arith)
      ∙ drop-append_past 32 (32 + k) v.client_nonce (v.client_public_key ++ tail1) s.nonce
      ∙ drop-append_past 32 k v.client_public_key tail1 s.key

  past_uid : (k : ℕ) → drop (65 + length v.uid + k) (request_bytes v) ≡ drop k tail2
  past_uid k =
      ap (λ i. drop i (request_bytes v)) (omega arith)
      ∙ past_keys (suc (length v.uid + k))
      ∙ drop-append_past (length v.uid) k v.uid tail2 refl

  past_name :
      (k : ℕ) → drop (66 + length v.uid + length v.name + k) (request_bytes v) ≡ drop k v.mac
  past_name k =
      ap (λ i. drop i (request_bytes v)) (omega arith)
      ∙ past_uid (suc (length v.name + k))
      ∙ drop-append_past (length v.name) k v.name v.mac refl

  uid_length : at (request_bytes v) 64 ≡ length v.uid
  uid_length = sym (get_or-drop 64 0 (request_bytes v) 0) ∙ ap (λ r. at r 0) (past_keys 0)

  name_length : at (request_bytes v) (65 + length v.uid) ≡ length v.name
  name_length =
      ap (at (request_bytes v)) (omega arith)
      ∙ sym (get_or-drop (65 + length v.uid + 0) 0 (request_bytes v) 0)
      ∙ ap (λ r. at r 0) (past_uid 0)

  pub length-request_bytes : length (request_bytes v) ≡ 98 + length v.uid + length v.name
  unfolding request_bytes
  length-request_bytes = omega (
    arith,
    length-append {0} v.client_nonce (v.client_public_key ++ tail1),
    length-append {0} v.client_public_key tail1,
    length-append {0} v.uid tail2,
    length-append {0} v.name v.mac,
    s.nonce,
    s.key,
    s.code,
  )

  uid_back : slice (request_bytes v) 65 (65 + length v.uid) ≡ v.uid
  uid_back =
      ap (λ n. take n (drop 65 (request_bytes v))) (omega arith)
      ∙ ap (take (length v.uid)) (past_keys 1)
      ∙ take-append_front (length v.uid) v.uid tail2 refl

  name_back :
      slice (request_bytes v) (66 + length v.uid) (66 + length v.uid + length v.name) ≡ v.name
  name_back =
      ap₂ (λ n i. take n (drop i (request_bytes v))) (omega arith) (omega arith)
      ∙ ap (take (length v.name)) (past_uid 1)
      ∙ take-append_front (length v.name) v.name v.mac refl

  mac_back : drop (66 + length v.uid + length v.name) (request_bytes v) ≡ v.mac
  mac_back = ap (λ i. drop i (request_bytes v)) (omega arith) ∙ past_name 0

  nonce_back : take 32 (request_bytes v) ≡ v.client_nonce
  unfolding request_bytes
  nonce_back = take-append_front 32 v.client_nonce (v.client_public_key ++ tail1) s.nonce

  key_back : slice (request_bytes v) 32 64 ≡ v.client_public_key
  unfolding request_bytes
  key_back =
      ap (take 32) (drop-append_front 32 v.client_nonce (v.client_public_key ++ tail1) s.nonce)
      ∙ take-append_front 32 v.client_public_key tail1 s.key

  request_at-bytes : request_at (request_bytes v) (length v.uid) (length v.name) ≡ v
  unfolding request_at
  request_at-bytes = rw (nonce_back, key_back, uid_back, name_back, mac_back)

-- What `marshal_request` demands.
marshal_request_ok :
    (v : ClientRequest) {b : Bytes}
    → marshal_request v ≡ ok b
    → (valid_request v ≡ true) × (request_bytes v ≡ b)
unfolding marshal_request
marshal_request_ok v h = elim (Bool-cases (valid_request v)) [
  | inl good ↦ (good, ok_inj (rw good at h))
  | inr bad ↦ absurd (ground arith)
]

valid_name-length : (name : Bytes) → valid_name name ≡ true → length name ≤ 64
unfolding valid_name
valid_name-length name h = ground arith

valid_uid-length : (uid : Bytes) → valid_uid uid ≡ true → length uid ≤ 31
unfolding valid_uid
valid_uid-length uid h = ground arith

uid_or_none-length : (uid : Bytes) → valid_uid_or_none uid ≡ true → length uid ≤ 31
uid_or_none-length [] h = omega arith
uid_or_none-length (c ∷ cs) h = valid_uid-length (c ∷ cs) h

pub request_lengths :
    (v : ClientRequest) → valid_request v ≡ true → (length v.uid ≤ 31) × (length v.name ≤ 64)
unfolding valid_request
request_lengths v h =
    (uid_or_none-length v.uid (ground arith), valid_name-length v.name (ground arith))

-- Marshalling a valid request gives bytes from which the same request is read.
pub parse-marshal_request :
    (v : ClientRequest) {b : Bytes}
    → IsRequest v
    → marshal_request v ≡ ok b
    → parse_client_request b ≡ ok v
unfolding parse_client_request
parse-marshal_request v s h =
    let (good, eq) = marshal_request_ok v h in
    let (uid, name) = request_lengths v good in
    subst (λ c. parse_client_request c ≡ ok v) eq
      (rw (uid_length v s, name_length v s, length-request_bytes v s, request_at-bytes v s, good)
        (ground arith))

-- The sizes of a result's fields.
pub record IsResult (v : PairResult) : Type 0 where
  pub key : length v.host_public_key ≡ 32
  pub code : length v.mac ≡ 32
  pub wire_guard_port : v.wire_guard_port < 65536
  pub discovery_relay_port : v.discovery_relay_port < 65536
  pub lease_revision : v.lease_revision < 18446744073709551616

pub is4-v4 : (ip : Addr) → is4 ip ≡ true → (a : ℕ) × (b : ℕ) × (c : ℕ) × (d : ℕ) × (ip ≡ v4 a b c d)
is4-v4 (v4 a b c d) h = (a, b, c, d, refl)
is4-v4 _ h = absurd (ground arith)

marshal_result_ok :
    (v : PairResult) {b : Bytes}
    → marshal_result v ≡ ok b
    → (is4 v.assigned_ip ≡ true)
      × (v.prefix_length ≤ 32)
      × (v.wire_guard_port ≢ 0)
      × (v.discovery_relay_port ≢ 0)
      × (result_without_mac v ++ v.mac ≡ b)
unfolding marshal_result valid_result
marshal_result_ok v h = elim (Bool-cases (valid_result v)) [
  | inl good ↦ (ground arith, ground arith, ground arith, ground arith, ok_inj (rw good at h))
  | inr bad ↦ absurd (ground arith)
]

module _ (v : PairResult) (s : IsResult v) (a b c d : ℕ) (ip : v.assigned_ip ≡ v4 a b c d) where
  abbrev pub marshalled : Bytes
  marshalled = result_without_mac v ++ v.mac

  abbrev tail : Bytes
  tail = v.host_public_key ++ (put_u64 v.lease_revision ++ v.mac)

  layout :
      marshalled
      ≡ v.status
        ∷ a
        ∷ b
        ∷ c
        ∷ d
        ∷ v.prefix_length
        ∷ (put_u16 v.wire_guard_port ++ (put_u16 v.discovery_relay_port ++ tail))
  unfolding result_without_mac
  layout = rw ip (simp append_assoc)

  pub length-marshalled : length marshalled ≡ 82
  unfolding put_u16
  length-marshalled = rw layout (
      omega (
        arith,
        length-append {0} v.host_public_key (put_u64 v.lease_revision ++ v.mac),
        length-append {0} (put_u64 v.lease_revision) v.mac,
        (put_u64-IsArray v.lease_revision).0,
        s.key,
        s.code,
      ))

  first_fields :
      (at marshalled 0 ≡ v.status)
      × (addr_at marshalled 1 ≡ v.assigned_ip)
      × (at marshalled 5 ≡ v.prefix_length)
  first_fields = rw layout (refl, sym ip, refl)

  ports :
      (get_u16 marshalled 6 ≡ v.wire_guard_port) × (get_u16 marshalled 8 ≡ v.discovery_relay_port)
  unfolding put_u16 get_u16
  ports = rw layout (
    get_u16-put_u16 v.wire_guard_port [] s.wire_guard_port,
    get_u16-put_u16 v.discovery_relay_port [] s.discovery_relay_port,
  )

  past_ports : (k : ℕ) → drop (10 + k) marshalled ≡ drop k tail
  unfolding put_u16
  past_ports k = ap (λ i. drop i marshalled) ten ∙ rw layout refl
    where
      ten : 10 + k ≡ suc (suc (suc (suc (suc (suc (suc (suc (suc (suc k)))))))))
      ten = omega arith

  key_field : slice marshalled 10 42 ≡ v.host_public_key
  key_field =
      ap (take 32) (past_ports 0)
      ∙ take-append_front 32 v.host_public_key (put_u64 v.lease_revision ++ v.mac) s.key

  revision_field : get_u64 marshalled 42 ≡ v.lease_revision
  revision_field =
      sym (get_u64-drop 42 0 marshalled)
      ∙ ap (λ r. get_u64 r 0)
          (past_ports 32
            ∙ drop-append_front 32 v.host_public_key (put_u64 v.lease_revision ++ v.mac) s.key)
      ∙ get_u64-put_u64 v.lease_revision v.mac s.lease_revision

  mac_field : drop 50 marshalled ≡ v.mac
  mac_field =
      past_ports 40
      ∙ drop-append_past 32 8 v.host_public_key (put_u64 v.lease_revision ++ v.mac) s.key
      ∙ drop-append_front 8 (put_u64 v.lease_revision) v.mac (put_u64-IsArray v.lease_revision).0

-- A successful result that can be marshalled is read back from its bytes.
pub parse-marshal_result :
    (v : PairResult) {b : Bytes}
    → IsResult v
    → v.status ≡ 0
    → marshal_result v ≡ ok b
    → parse_pair_result b ≡ ok v
unfolding parse_pair_result
parse-marshal_result v s zero_status h =
    let (four, prefix, wg, relay, eq) = marshal_result_ok v h in
    let (a, b, c, d, ip) = is4-v4 v.assigned_ip four in
    let (status, address, prefix_field) = first_fields v s a b c d ip in
    let (wg_field, relay_field) = ports v s a b c d ip in
    subst (λ m. parse_pair_result m ≡ ok v) eq
      (rw
        (
          length-marshalled v s a b c d ip,
          status,
          address,
          prefix_field,
          wg_field,
          relay_field,
          key_field v s a b c d ip,
          revision_field v s a b c d ip,
          mac_field v s a b c d ip,
        )
        (ground arith))
