-- ===== src/Prelude/Binary.antt =====
-- Fixed-width integers and byte slices, as the source reads and writes them.
use opl_core.Prelude.Tests.{Bytes, ◌==◌, nat_eq}
use opl_core.Prelude.Lists.{get_or-drop, get_or, take, drop, length}
use Prim.Native.Nat.{ℕ, zero, suc, bit_or, ◌+◌, ◌-◌, ◌*◌, ◌/◌, ◌%◌, ◌<◌, ◌≤◌}
use mathlib.Core.Bool.{Bool}
use mathlib.Core.Path.{◌≡◌, ap, ap₂, sym, refl, ◌∙◌}
use mathlib.Core.List.{[], ◌∷◌, ◌++◌}
use native.Mathlib.Omega.{arith}

-- Every element fits a byte.
abbrev pub IsBytes : Bytes → Type 0
IsBytes [] = Unit {0}
IsBytes (x ∷ xs) = (x < 256) × IsBytes xs

-- A value of an array type `[n]byte`.
abbrev pub IsArray : ℕ → Bytes → Type 0
IsArray n xs = (length xs ≡ n) × IsBytes xs

pub IsBytes-append : (xs ys : Bytes) → IsBytes xs → IsBytes ys → IsBytes (xs ++ ys)
IsBytes-append [] ys h k = k
IsBytes-append (x ∷ xs) ys h k = (h.0, IsBytes-append xs ys h.1 k)

-- b[i]; the callers check the length first
abbrev pub at : Bytes → ℕ → ℕ
at b i = get_or b i 0

-- b[i:j]
abbrev pub slice : Bytes → ℕ → ℕ → Bytes
slice b i j = take (j - i) (drop i b)

-- binary.BigEndian
unfoldable pub put_u16 : ℕ → Bytes
put_u16 v = (v / 256 % 256) ∷ (v % 256) ∷ []

unfoldable pub put_u32 : ℕ → Bytes
unfolding put_u16
put_u32 v = put_u16 (v / 65536 % 65536) ++ put_u16 (v % 65536)

unfoldable pub put_u64 : ℕ → Bytes
unfolding put_u32
put_u64 v = put_u32 (v / 4294967296 % 4294967296) ++ put_u32 (v % 4294967296)

-- The value that starts at an offset.
unfoldable pub get_u16 : Bytes → ℕ → ℕ
get_u16 b i = at b i * 256 + at b (i + 1)

unfoldable pub get_u32 : Bytes → ℕ → ℕ
get_u32 b i = get_u16 b i * 65536 + get_u16 b (i + 2)

unfoldable pub get_u64 : Bytes → ℕ → ℕ
get_u64 b i = get_u32 b i * 4294967296 + get_u32 b (i + 4)

-- Each integer is read back from its bytes, wherever they stand.
pub get_u16-put_u16 : (v : ℕ) (rest : Bytes) → v < 65536 → get_u16 (put_u16 v ++ rest) 0 ≡ v
unfolding get_u16 put_u16
get_u16-put_u16 v rest h = omega arith

pub get_u32-put_u32 : (v : ℕ) (rest : Bytes) → v < 4294967296 → get_u32 (put_u32 v ++ rest) 0 ≡ v
unfolding get_u32 get_u16 put_u32
get_u32-put_u32 v rest h = omega arith

pub get_u64-put_u64 :
    (v : ℕ) (rest : Bytes) → v < 18446744073709551616 → get_u64 (put_u64 v ++ rest) 0 ≡ v
unfolding get_u64 get_u32 get_u16 put_u64
get_u64-put_u64 v rest h = omega arith

pub get_u16-drop : (n i : ℕ) (b : Bytes) → get_u16 (drop n b) i ≡ get_u16 b (n + i)
unfolding get_u16
get_u16-drop n i b = ground (arith, get_or-drop n i b 0, get_or-drop n (i + 1) b 0, offset n i)
  where
    offset : (n i : ℕ) → n + (i + 1) ≡ n + i + 1
    offset n i = omega arith

pub get_u32-drop : (n i : ℕ) (b : Bytes) → get_u32 (drop n b) i ≡ get_u32 b (n + i)
unfolding get_u32
get_u32-drop n i b = ground (arith, get_u16-drop n i b, get_u16-drop n (i + 2) b, offset n i)
  where
    offset : (n i : ℕ) → n + (i + 2) ≡ n + i + 2
    offset n i = omega arith

pub get_u64-drop : (n i : ℕ) (b : Bytes) → get_u64 (drop n b) i ≡ get_u64 b (n + i)
unfolding get_u64
get_u64-drop n i b = ground (arith, get_u32-drop n i b, get_u32-drop n (i + 4) b, offset n i)
  where
    offset : (n i : ℕ) → n + (i + 4) ≡ n + i + 4
    offset n i = omega arith

pub put_u16-IsArray : (v : ℕ) → IsArray 2 (put_u16 v)
unfolding put_u16
put_u16-IsArray v = omega arith

pub put_u32-IsArray : (v : ℕ) → IsArray 4 (put_u32 v)
unfolding put_u32
put_u32-IsArray v = omega arith

pub put_u64-IsArray : (v : ℕ) → IsArray 8 (put_u64 v)
unfolding put_u64
put_u64-IsArray v = omega arith

-- The loops `combined |= b`, after which every byte was 0 exactly when `combined` is 0.
unfoldable pub or_bytes : ℕ → Bytes → ℕ
or_bytes combined [] = combined
or_bytes combined (b ∷ bs) = or_bytes (bit_or combined b) bs

unfoldable pub is_zero : Bytes → Bool
unfolding or_bytes
is_zero value = or_bytes 0 value == 0

-- a `[n]byte` that no field was copied to
abbrev pub zeroes : ℕ → Bytes
zeroes zero = []
zeroes (suc n) = 0 ∷ zeroes n

pub at-lt : (b : Bytes) (i : ℕ) → IsBytes b → at b i < 256
at-lt [] i h = omega arith
at-lt (x ∷ xs) zero h = h.0
at-lt (x ∷ xs) (suc i) h = at-lt xs i h.1

-- The `n` bytes from an offset on, one by one.
abbrev pub ats : Bytes → ℕ → ℕ → Bytes
ats b i zero = []
ats b i (suc n) = at b i ∷ ats b (suc i) n

ats-suc : (x : ℕ) (xs : Bytes) (i n : ℕ) → ats (x ∷ xs) (suc i) n ≡ ats xs i n
ats-suc x xs i zero = refl
ats-suc x xs i (suc n) = ap (λ r. at xs i ∷ r) (ats-suc x xs (suc i) n)

pub take-ats : (n : ℕ) (b : Bytes) → n ≤ length b → take n b ≡ ats b 0 n
take-ats zero b h = refl
take-ats (suc n) [] h = absurd (omega arith)
take-ats (suc n) (x ∷ xs) h = ap (λ r. x ∷ r) (take-ats n xs (omega arith) ∙ sym (ats-suc x xs 0 n))

-- Bytes that were read as an integer are written again.
pub put_u16-get_u16 :
    (b : Bytes) (i : ℕ) → IsBytes b → put_u16 (get_u16 b i) ≡ at b i ∷ at b (i + 1) ∷ []
unfolding put_u16 get_u16
put_u16-get_u16 b i h = bytes2 (at-lt b i h) (at-lt b (i + 1) h)
  where
    bytes2 :
        {x y : ℕ}
        → x < 256
        → y < 256
        → ((x * 256 + y) / 256 % 256) ∷ ((x * 256 + y) % 256) ∷ [] ≡ x ∷ y ∷ []
    bytes2 p q = ground arith

pub get_u16-lt : (b : Bytes) (i : ℕ) → IsBytes b → get_u16 b i < 65536
unfolding get_u16
get_u16-lt b i h = omega (arith, at-lt b i h, at-lt b (i + 1) h)

pub get_u32-lt : (b : Bytes) (i : ℕ) → IsBytes b → get_u32 b i < 4294967296
unfolding get_u32
get_u32-lt b i h = omega (arith, get_u16-lt b i h, get_u16-lt b (i + 2) h)

put_u32-halves :
    (hi lo : ℕ) → hi < 65536 → lo < 65536 → put_u32 (hi * 65536 + lo) ≡ put_u16 hi ++ put_u16 lo
unfolding put_u32
put_u32-halves hi lo p q = ap₂ (λ x y. put_u16 x ++ put_u16 y) (omega arith) (omega arith)

pub put_u32-get_u32 :
    (b : Bytes) (i : ℕ)
    → IsBytes b
    → put_u32 (get_u32 b i) ≡ put_u16 (get_u16 b i) ++ put_u16 (get_u16 b (i + 2))
unfolding get_u32
put_u32-get_u32 b i h = put_u32-halves _ _ (get_u16-lt b i h) (get_u16-lt b (i + 2) h)

put_u64-halves :
    (hi lo : ℕ)
    → hi < 4294967296
    → lo < 4294967296
    → put_u64 (hi * 4294967296 + lo) ≡ put_u32 hi ++ put_u32 lo
unfolding put_u64
put_u64-halves hi lo p q = ap₂ (λ x y. put_u32 x ++ put_u32 y) (omega arith) (omega arith)

pub put_u64-get_u64 :
    (b : Bytes) (i : ℕ)
    → IsBytes b
    → put_u64 (get_u64 b i) ≡ put_u32 (get_u32 b i) ++ put_u32 (get_u32 b (i + 4))
unfolding get_u64
put_u64-get_u64 b i h = put_u64-halves _ _ (get_u32-lt b i h) (get_u32-lt b (i + 4) h)

pub IsBytes-drop : (n : ℕ) (b : Bytes) → IsBytes b → IsBytes (drop n b)
IsBytes-drop zero b h = h
IsBytes-drop (suc n) [] h = h
IsBytes-drop (suc n) (x ∷ xs) h = IsBytes-drop n xs h.1

pub IsBytes-take : (n : ℕ) (b : Bytes) → IsBytes b → IsBytes (take n b)
IsBytes-take zero b h = tt
IsBytes-take (suc n) [] h = h
IsBytes-take (suc n) (x ∷ xs) h = (h.0, IsBytes-take n xs h.1)
