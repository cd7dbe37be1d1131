-- ===== src/Pairing/Messages/Frames.antt =====
-- Frames on the connection (internal/pairing/pairing.go, `WriteFrame` and `ReadFrame`). What a reader
-- has yet to deliver is a byte list; `io.ReadFull` fails with EOF on none and with an unexpected EOF
-- on too few.
use opl_core.Prelude.{
  ℕ, ◌+◌, ◌≡◌, ◌≤◌, Bool, true, not, ◌&&◌, ◌||◌, [], ◌∷◌, ◌++◌, if◌then◌else◌, ◌==◌, nat_eq, Bytes,
  length, take, drop, Result, ok, err, ltb, leb, ◌>>=◌, ◌>>◌, reject, arith, take-append_front,
  drop-append_front, refl, ap, length-append, bind_ok, ok_inj, Bool-cases, inl, inr, length-take,
  length-drop, take-append-drop, take-length, sym, ◌∙◌, append_assoc, append-nil, subst,
}
use opl_core.Prelude.Binary.{
  at, put_u32, get_u32, get_u32-put_u32, IsBytes, put_u32-IsArray, put_u32-get_u32, put_u16-get_u16,
  take-ats, IsBytes-take,
}
use opl_core.Pairing.Messages.{Error, protocol, eof, unexpected_eof}

abbrev pub max_frame_bytes : ℕ
max_frame_bytes = 16384

abbrev pub frame_server_challenge : ℕ
frame_server_challenge = 1

abbrev pub frame_client_request : ℕ
frame_client_request = 2

abbrev pub frame_pair_result : ℕ
frame_pair_result = 3

abbrev pub frame_pair_ack : ℕ
frame_pair_ack = 4

abbrev pub frame_stats_report : ℕ
frame_stats_report = 5

abbrev pub frame_device_snapshot : ℕ
frame_device_snapshot = 6

unfoldable pub valid_frame_type : ℕ → Bool
valid_frame_type value = leb 1 value && leb value 6

unfoldable pub valid_failure_status : ℕ → Bool
valid_failure_status value = leb 1 value && leb value 5

-- The bytes that `WriteFrame` hands to the connection.
unfoldable pub write_frame : ℕ → Bytes → Result Error Bytes
unfolding valid_frame_type
write_frame frame_type payload =
    let size = 1 + length payload in
    if not (valid_frame_type frame_type) || ltb max_frame_bytes size
    then err protocol
    else ok (put_u32 size ++ frame_type ∷ payload)

-- io.ReadFull of a buffer of `n` bytes
unfoldable pub read_full : ℕ → Bytes → Result Error (Bytes × Bytes)
read_full n stream =
    if leb n (length stream)
    then ok (take n stream, drop n stream)
    else if length stream == 0
    then err eof
    else err unexpected_eof

abbrev pub checked_frame : Bytes → Bytes → Result Error (ℕ × Bytes × Bytes)
checked_frame b rest =
    if not (valid_frame_type (at b 0)) then err protocol else ok (at b 0, drop 1 b, rest)

-- A frame's type, its payload and what follows it.
unfoldable pub read_frame : Bytes → Result Error (ℕ × Bytes × Bytes)
read_frame stream = do
  size ← read_full 4 stream
  let n = get_u32 size.0 0
  reject (n == 0 || ltb max_frame_bytes n) protocol
  b ← read_full n size.1
  checked_frame b.0 b.1

write_frame_ok :
    (t : ℕ) (payload : Bytes) {b : Bytes}
    → write_frame t payload ≡ ok b
    → (valid_frame_type t ≡ true)
      × (1 + length payload ≤ 16384)
      × (put_u32 (1 + length payload) ++ t ∷ payload ≡ b)
unfolding write_frame
write_frame_ok t payload h = ground arith

read_full-front :
    (n : ℕ) (front rest : Bytes) → length front ≡ n → read_full n (front ++ rest) ≡ ok (front, rest)
unfolding read_full
read_full-front n front rest h = ground (
  arith,
  take-append_front n front rest h,
  drop-append_front n front rest h,
  length-append front rest,
)

-- A frame that was written is read back, with its type and payload, and the reader stands behind it.
pub read_frame-write_frame :
    (t : ℕ) (payload rest : Bytes) {b : Bytes}
    → write_frame t payload ≡ ok b
    → read_frame (b ++ rest) ≡ ok (t, payload, rest)
unfolding read_frame
read_frame-write_frame t payload rest h =
    let (valid, short, eq) = write_frame_ok t payload h in
    let size = get_u32-put_u32 (1 + length payload) [] (omega arith) in
    subst (λ s. read_frame (s ++ rest) ≡ ok (t, payload, rest)) eq
      (rw
        (
          append_assoc,
          read_full-front 4 (put_u32 (1 + length payload)) (t ∷ (payload ++ rest))
              (put_u32-IsArray (1 + length payload)).0,
          ← append-nil (put_u32 (1 + length payload)),
          size,
        )
        (ground
          (arith, valid, read_full-front (1 + length payload) (t ∷ payload) rest (omega arith))))

read_full_ok :
    (n : ℕ) (stream : Bytes) {r : Bytes × Bytes}
    → read_full n stream ≡ ok r
    → (length r.0 ≡ n) × (r.0 ++ r.1 ≡ stream) × (r.0 ≡ take n stream)
unfolding read_full
read_full_ok n stream {r} h = elim (Bool-cases (leb n (length stream))) [
  | inl long ↦
      let e : (take n stream, drop n stream) ≡ r = ok_inj (rw long at h) in
      subst
        (λ (x : Bytes × Bytes). (length x.0 ≡ n) × (x.0 ++ x.1 ≡ stream) × (x.0 ≡ take n stream)) e
        (length-take n stream (ground arith), take-append-drop n stream, refl)
  | inr short ↦ absurd (ground arith)
]

first_byte : (b : Bytes) → 1 ≤ length b → at b 0 ∷ drop 1 b ≡ b
first_byte [] h = absurd (omega arith)
first_byte (x ∷ xs) h = refl

put_size : (size : Bytes) → IsBytes size → length size ≡ 4 → put_u32 (get_u32 size 0) ≡ size
put_size size h four =
    rw (put_u32-get_u32 size 0 h, put_u16-get_u16 size 0 h, put_u16-get_u16 size 2 h)
      (sym (take-ats 4 size (omega arith)) ∙ take-length 4 size four)

frame_fits :
    (n : ℕ) → reject (n == 0 || ltb max_frame_bytes n) protocol ≡ ok tt → (1 ≤ n) × (n ≤ 16384)
frame_fits n h = ground arith

checked_ok :
    (b rest : Bytes) {r : ℕ × Bytes × Bytes}
    → checked_frame b rest ≡ ok r
    → (valid_frame_type (at b 0) ≡ true) × ((at b 0, drop 1 b, rest) ≡ r)
checked_ok b rest h = elim (Bool-cases (valid_frame_type (at b 0))) [
  | inl v ↦ (v, ok_inj (rw v at h))
  | inr v ↦ absurd (ground arith)
]

write_checked :
    (n : ℕ) (b : Bytes)
    → valid_frame_type (at b 0) ≡ true
    → length b ≡ n
    → 1 ≤ n
    → n ≤ 16384
    → write_frame (at b 0) (drop 1 b) ≡ ok (put_u32 n ++ b)
unfolding write_frame
write_checked n b v size pos small =
    let count : 1 + length (drop 1 b) ≡ n = omega (arith, length-drop {0} 1 b) in
    rw (v, count, first_byte b (omega arith)) (ground arith)

-- What is read is a frame that `WriteFrame` writes, in front of what is left: no type or length is
-- let through that it would refuse.
pub write_frame-read_frame :
    (stream : Bytes) {r : ℕ × Bytes × Bytes}
    → IsBytes stream
    → read_frame stream ≡ ok r
    → (b : Bytes) × (write_frame r.0 r.1 ≡ ok b) × (b ++ r.2 ≡ stream)
unfolding read_frame
write_frame-read_frame stream {r} h e =
    let (size, read4, e1) = bind_ok (read_full 4 stream) _ e in
    let (four, front, taken) = read_full_ok 4 stream read4 in
    let (u, guard, e2) =
      bind_ok (reject (get_u32 size.0 0 == 0 || ltb max_frame_bytes (get_u32 size.0 0)) protocol) _
        e1 in
    let (pos, small) = frame_fits (get_u32 size.0 0) guard in
    let (b, body, e3) = bind_ok (read_full (get_u32 size.0 0) size.1) _ e2 in
    let (count, back, taken2) = read_full_ok (get_u32 size.0 0) size.1 body in
    let (v, eq) = checked_ok b.0 b.1 e3 in
    let four_bytes : IsBytes size.0 = rw taken (IsBytes-take 4 stream h) in
    let written = write_checked (get_u32 size.0 0) b.0 v count pos small in
    subst
      (λ (x : ℕ × Bytes × Bytes). (w : Bytes) × (write_frame x.0 x.1 ≡ ok w) × (w ++ x.2 ≡ stream))
      eq
      (
        put_u32 (get_u32 size.0 0) ++ b.0,
        written,
        rw (put_size size.0 four_bytes four)
            (append_assoc size.0 b.0 b.1 ∙ ap (λ s. size.0 ++ s) back ∙ front),
      )
