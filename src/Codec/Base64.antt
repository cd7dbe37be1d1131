-- ===== src/Codec/Base64.antt =====
-- encoding/base64: RawURLEncoding. Four digits stand for three bytes, the rest is written
-- without padding; a reader skips line ends and ignores the unused bits of the last digit.
use opl_core.Prelude.{
  ℕ, ◌+◌, ◌-◌, ◌*◌, ◌/◌, ◌%◌, ◌<◌, ◌≡◌, refl, [], ◌∷◌, Bytes, Option, some, none, ltb, leb, ◌&&◌,
  ◌||◌, if◌then◌else◌, arith, Bool-cases, Option-cases, inl, inr, subst, ◌==◌, nat_eq,
}
use opl_core.Prelude.Binary.{IsBytes}

unfoldable pub digit : ℕ → ℕ
digit n =
    if ltb n 26
    then 65 + n
    else if ltb n 52
    then 71 + n
    else if ltb n 62
    then n - 4
    else if n == 62
    then 45
    else 95

unfoldable pub value : ℕ → Option ℕ
value c =
    if leb 65 c && leb c 90
    then some (c - 65)
    else if leb 97 c && leb c 122
    then some (c - 71)
    else if leb 48 c && leb c 57
    then some (c + 4)
    else if c == 45
    then some 62
    else if c == 95
    then some 63
    else none

unfoldable pub encode : Bytes → Bytes
encode [] = []
encode (a ∷ []) = digit (a / 4) ∷ digit (a % 4 * 16) ∷ []
encode (a ∷ b ∷ []) = digit (a / 4) ∷ digit (a % 4 * 16 + b / 16) ∷ digit (b % 16 * 4) ∷ []
encode (a ∷ b ∷ c ∷ rest) =
    digit (a / 4)
    ∷ digit (a % 4 * 16 + b / 16)
    ∷ digit (b % 16 * 4 + c / 64)
    ∷ digit (c % 64)
    ∷ encode rest

abbrev pub join : Option ℕ → Option Bytes → Option Bytes
join (some v) (some vs) = some (v ∷ vs)
join _ _ = none

-- the values of the digits, line ends skipped
unfoldable pub values : Bytes → Option Bytes
values [] = some []
values (c ∷ cs) = let rest = values cs in if c == 10 || c == 13 then rest else join (value c) rest

unfoldable pub bytes_of : Bytes → Option Bytes
bytes_of [] = some []
bytes_of (p ∷ []) = none
bytes_of (p ∷ q ∷ []) = some ((p * 4 + q / 16) ∷ [])
bytes_of (p ∷ q ∷ r ∷ []) = some ((p * 4 + q / 16) ∷ (q % 16 * 16 + r / 4) ∷ [])
bytes_of (p ∷ q ∷ r ∷ s ∷ rest) = elim (bytes_of rest) [
  | none ↦ none
  | some bs ↦ some ((p * 4 + q / 16) ∷ (q % 16 * 16 + r / 4) ∷ (r % 4 * 64 + s) ∷ bs)
]

abbrev pub decode_values : Option Bytes → Option Bytes
decode_values none = none
decode_values (some vs) = bytes_of vs

-- DecodeString; `none` is its error
unfoldable pub decode : Bytes → Option Bytes
unfolding values bytes_of
decode s = decode_values (values s)

values-digit : (n : ℕ) (cs : Bytes) → n < 64 → values (digit n ∷ cs) ≡ join (some n) (values cs)
unfolding values value digit
values-digit n cs h = ground arith

-- The values of the digits that are written.
abbrev sextets : Bytes → Bytes
sextets [] = []
sextets (a ∷ []) = (a / 4) ∷ (a % 4 * 16) ∷ []
sextets (a ∷ b ∷ []) = (a / 4) ∷ (a % 4 * 16 + b / 16) ∷ (b % 16 * 4) ∷ []
sextets (a ∷ b ∷ c ∷ rest) =
    (a / 4) ∷ (a % 4 * 16 + b / 16) ∷ (b % 16 * 4 + c / 64) ∷ (c % 64) ∷ sextets rest

values-encode : (bs : Bytes) → IsBytes bs → values (encode bs) ≡ some (sextets bs)
unfolding encode
values-encode [] h = unfold values in refl
values-encode (a ∷ []) h =
    rw (values-digit (a / 4) _ (omega arith), values-digit (a % 4 * 16) _ (omega arith))
      (unfold values in refl)
values-encode (a ∷ b ∷ []) h =
    rw
      (
        values-digit (a / 4) _ (omega arith),
        values-digit (a % 4 * 16 + b / 16) _ (omega arith),
        values-digit (b % 16 * 4) _ (omega arith),
      )
      (unfold values in refl)
values-encode (a ∷ b ∷ c ∷ rest) h = rw (
  values-digit (a / 4) _ (omega arith),
  values-digit (a % 4 * 16 + b / 16) _ (omega arith),
  values-digit (b % 16 * 4 + c / 64) _ (omega arith),
  values-digit (c % 64) _ (omega arith),
  values-encode rest h.1.1.1,
)

bytes_of-sextets : (bs : Bytes) → IsBytes bs → bytes_of (sextets bs) ≡ some bs
unfolding bytes_of
bytes_of-sextets [] h = refl
bytes_of-sextets (a ∷ []) h = ground arith
bytes_of-sextets (a ∷ b ∷ []) h = ground arith
bytes_of-sextets (a ∷ b ∷ c ∷ rest) h = rw (bytes_of-sextets rest h.1.1.1) (ground arith)

pub decode-encode : (bs : Bytes) → IsBytes bs → decode (encode bs) ≡ some bs
unfolding decode
decode-encode bs h = rw (values-encode bs h) (bytes_of-sextets bs h)

-- Every value of a digit fits six bits.
abbrev IsSextets : Bytes → Type 0
IsSextets [] = Unit {0}
IsSextets (v ∷ vs) = (v < 64) × IsSextets vs

value-lt : (c : ℕ) {v : ℕ} → value c ≡ some v → v < 64
unfolding value
value-lt c h = ground arith

join-some :
    (a : Option ℕ) (b : Option Bytes) {vs : Bytes}
    → join a b ≡ some vs
    → (v : ℕ) × (rest : Bytes) × (a ≡ some v) × (b ≡ some rest) × (v ∷ rest ≡ vs)
join-some (some v) (some rest) h = (v, rest, refl, refl, ground arith)
join-some none b h = absurd (ground arith)
join-some (some v) none h = absurd (ground arith)

values-IsSextets : (s : Bytes) {vs : Bytes} → values s ≡ some vs → IsSextets vs
unfolding values
values-IsSextets [] {vs} h = let e : [] ≡ vs = ground arith in subst IsSextets e tt
values-IsSextets (c ∷ cs) {vs} h = elim (Bool-cases (c == 10 || c == 13)) [
  | inl skip ↦ values-IsSextets cs (rw skip at h)
  | inr digit ↦
      let (v, rest, p, q, e) = join-some (value c) (values cs) (rw digit at h) in
      subst IsSextets e (value-lt c p, values-IsSextets cs q)
]

bytes_of-IsBytes : (vs : Bytes) {bs : Bytes} → IsSextets vs → bytes_of vs ≡ some bs → IsBytes bs
unfolding bytes_of
bytes_of-IsBytes [] {bs} k h = let e : [] ≡ bs = ground arith in subst IsBytes e tt
bytes_of-IsBytes (p ∷ []) k h = absurd (ground arith)
bytes_of-IsBytes (p ∷ q ∷ []) {bs} k h =
    let e : (p * 4 + q / 16) ∷ [] ≡ bs = ground arith in subst IsBytes e (omega arith)
bytes_of-IsBytes (p ∷ q ∷ r ∷ []) {bs} k h =
    let e : (p * 4 + q / 16) ∷ (q % 16 * 16 + r / 4) ∷ [] ≡ bs = ground arith in
    subst IsBytes e (omega arith)
bytes_of-IsBytes (p ∷ q ∷ r ∷ s ∷ rest) {bs} k h = elim (Option-cases (bytes_of rest)) [
  | inl e ↦ absurd (ground arith)
  | inr (tail, e) ↦
      let eq : (p * 4 + q / 16) ∷ (q % 16 * 16 + r / 4) ∷ (r % 4 * 64 + s) ∷ tail ≡ bs =
        ground arith in
      subst IsBytes eq
        (omega arith, (omega arith, (omega arith, bytes_of-IsBytes rest k.1.1.1.1 e)))
]

-- What is decoded is bytes.
pub decode-IsBytes : (s : Bytes) {bs : Bytes} → decode s ≡ some bs → IsBytes bs
unfolding decode
decode-IsBytes s h = elim (Option-cases (values s)) [
  | inl e ↦ absurd (ground arith)
  | inr (vs, e) ↦ bytes_of-IsBytes vs (values-IsSextets s e) (rw e at h)
]
