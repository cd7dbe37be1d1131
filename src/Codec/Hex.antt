-- ===== src/Codec/Hex.antt =====
-- encoding/hex: two digits for each byte, lower case when written, either case when read.
use opl_core.Prelude.{
  ℕ, ◌+◌, ◌-◌, ◌*◌, ◌/◌, ◌%◌, ◌<◌, ◌≡◌, refl, [], ◌∷◌, Bytes, Option, some, none, ltb, leb, ◌&&◌,
  if◌then◌else◌, arith, length, subst, nat_eq,
}
use opl_core.Prelude.Binary.{IsBytes}

unfoldable pub digit : ℕ → ℕ
digit n = if ltb n 10 then 48 + n else 87 + n

unfoldable pub value : ℕ → Option ℕ
value c =
    if leb 48 c && leb c 57
    then some (c - 48)
    else if leb 97 c && leb c 102
    then some (c - 87)
    else if leb 65 c && leb c 70
    then some (c - 55)
    else none

unfoldable pub encode : Bytes → Bytes
unfolding digit
encode [] = []
encode (b ∷ bs) = digit (b / 16) ∷ digit (b % 16) ∷ encode bs

abbrev pub pair : Option ℕ → Option ℕ → Option Bytes → Option Bytes
pair (some hi) (some lo) (some rest) = some ((hi * 16 + lo) ∷ rest)
pair _ _ _ = none

-- hex.DecodeString; `none` is its error
unfoldable pub decode : Bytes → Option Bytes
unfolding value
decode [] = some []
decode (x ∷ []) = none
decode (x ∷ y ∷ rest) = pair (value x) (value y) (decode rest)

-- strings.ToLower of a text of hex digits
unfoldable pub to_lower : Bytes → Bytes
to_lower [] = []
to_lower (c ∷ cs) = (if leb 65 c && leb c 90 then c + 32 else c) ∷ to_lower cs

value-digit : (n : ℕ) → n < 16 → value (digit n) ≡ some n
unfolding value digit
value-digit n h = ground arith

pub decode-encode : (bs : Bytes) → IsBytes bs → decode (encode bs) ≡ some bs
unfolding decode encode
decode-encode [] h = refl
decode-encode (b ∷ bs) h =
    rw
      (value-digit (b / 16) (omega arith), value-digit (b % 16) (omega arith), decode-encode bs h.1)
      (ground arith)

pub to_lower-encode : (bs : Bytes) → IsBytes bs → to_lower (encode bs) ≡ encode bs
unfolding to_lower encode
to_lower-encode [] h = refl
to_lower-encode (b ∷ bs) h = ground (arith, to_lower-encode bs h.1)

pair-some :
    (a b : Option ℕ) (c : Option Bytes) {bs : Bytes}
    → pair a b c ≡ some bs
    → (hi : ℕ) × (lo : ℕ) × (rest : Bytes) × (a ≡ some hi)
      × (b ≡ some lo)
      × (c ≡ some rest)
      × (bs ≡ (hi * 16 + lo) ∷ rest)
pair-some (some hi) (some lo) (some rest) h = (hi, lo, rest, refl, refl, refl, ground arith)
pair-some none b c h = absurd (ground arith)
pair-some (some a) none c h = absurd (ground arith)
pair-some (some a) (some b) none h = absurd (ground arith)

digit-value :
    (c : ℕ) {v : ℕ}
    → value c ≡ some v
    → (if leb 65 c && leb c 90 then c + 32 else c) ≡ c
    → (v < 16) × (digit v ≡ c)
unfolding value digit
digit-value c h l = ground arith

-- A lower-case text of hex digits is what the bytes it stands for are written as.
pub encode-decode : (s : Bytes) {bs : Bytes} → decode s ≡ some bs → to_lower s ≡ s → encode bs ≡ s
unfolding decode encode to_lower
encode-decode [] h l = ground arith
encode-decode (x ∷ []) h l = absurd (ground arith)
encode-decode (x ∷ y ∷ rest) {bs} h l =
    let (hi, lo, tail, p, q, r, e) = pair-some (value x) (value y) (decode rest) h in
    let (hi_lt, hi_digit) = digit-value x p (cc) in
    let (lo_lt, lo_digit) = digit-value y q (cc) in
    let ih = encode-decode rest r (cc) in
    let hi_back : (hi * 16 + lo) / 16 ≡ hi = omega arith in
    let lo_back : (hi * 16 + lo) % 16 ≡ lo = omega arith in
    rw (e, hi_back, lo_back, hi_digit, lo_digit, ih)

-- What is decoded is bytes, one for two digits.
pub decode-length : (s : Bytes) {bs : Bytes} → decode s ≡ some bs → length s ≡ 2 * length bs
unfolding decode
decode-length [] h = ground arith
decode-length (x ∷ []) h = absurd (ground arith)
decode-length (x ∷ y ∷ rest) h =
    let (hi, lo, tail, p, q, r, e) = pair-some (value x) (value y) (decode rest) h in
    rw e (omega (arith, decode-length rest r))

value-lt : (c : ℕ) {v : ℕ} → value c ≡ some v → v < 16
unfolding value
value-lt c h = ground arith

pub decode-IsBytes : (s : Bytes) {bs : Bytes} → decode s ≡ some bs → IsBytes bs
unfolding decode
decode-IsBytes [] {bs} h = let e : [] ≡ bs = ground arith in subst IsBytes e tt
decode-IsBytes (x ∷ []) h = absurd (ground arith)
decode-IsBytes (x ∷ y ∷ rest) h =
    let (hi, lo, tail, p, q, r, e) = pair-some (value x) (value y) (decode rest) h in
    rw e (omega (arith, value-lt x p, value-lt y q), decode-IsBytes rest r)
