-- ===== src/Codec/Sha256.antt =====
-- crypto/sha256 and crypto/hmac, as FIPS 180-4 and RFC 2104 state them. Words are numbers below
-- 2 ^ 32.
use Prim.Native.Nat.{bit_xor, bit_and}
use opl_core.Prelude.{
  ℕ, zero, suc, ◌+◌, ◌-◌, ◌*◌, ◌/◌, ◌%◌, ◌^◌, ◌≡◌, refl, List, [], ◌∷◌, ◌++◌, Bytes, length, get_or,
  take, drop, text,
}
use opl_core.Prelude.Binary.{put_u32, put_u64, put_u16, get_u32, get_u16, zeroes}
use opl_core.Codec.Hex

record State : Type 0 where
  a : ℕ
  b : ℕ
  c : ℕ
  d : ℕ
  e : ℕ
  f : ℕ
  g : ℕ
  h : ℕ

abbrev w32 : ℕ → ℕ
w32 x = x % 4294967296

abbrev rotr : ℕ → ℕ → ℕ
rotr k x = x / 2 ^ k + x % 2 ^ k * 2 ^ (32 - k)

abbrev xor3 : ℕ → ℕ → ℕ → ℕ
xor3 x y z = bit_xor (bit_xor x y) z

abbrev constants : List ℕ
constants =
    0x428a2f98 ∷ 0x71374491 ∷ 0xb5c0fbcf ∷ 0xe9b5dba5 ∷ 0x3956c25b ∷ 0x59f111f1 ∷ 0x923f82a4
    ∷ 0xab1c5ed5 ∷ 0xd807aa98 ∷ 0x12835b01 ∷ 0x243185be ∷ 0x550c7dc3 ∷ 0x72be5d74 ∷ 0x80deb1fe
    ∷ 0x9bdc06a7 ∷ 0xc19bf174 ∷ 0xe49b69c1 ∷ 0xefbe4786 ∷ 0xfc19dc6 ∷ 0x240ca1cc ∷ 0x2de92c6f
    ∷ 0x4a7484aa ∷ 0x5cb0a9dc ∷ 0x76f988da ∷ 0x983e5152 ∷ 0xa831c66d ∷ 0xb00327c8 ∷ 0xbf597fc7
    ∷ 0xc6e00bf3 ∷ 0xd5a79147 ∷ 0x6ca6351 ∷ 0x14292967 ∷ 0x27b70a85 ∷ 0x2e1b2138 ∷ 0x4d2c6dfc
    ∷ 0x53380d13 ∷ 0x650a7354 ∷ 0x766a0abb ∷ 0x81c2c92e ∷ 0x92722c85 ∷ 0xa2bfe8a1 ∷ 0xa81a664b
    ∷ 0xc24b8b70 ∷ 0xc76c51a3 ∷ 0xd192e819 ∷ 0xd6990624 ∷ 0xf40e3585 ∷ 0x106aa070 ∷ 0x19a4c116
    ∷ 0x1e376c08 ∷ 0x2748774c ∷ 0x34b0bcb5 ∷ 0x391c0cb3 ∷ 0x4ed8aa4a ∷ 0x5b9cca4f ∷ 0x682e6ff3
    ∷ 0x748f82ee ∷ 0x78a5636f ∷ 0x84c87814 ∷ 0x8cc70208 ∷ 0x90befffa ∷ 0xa4506ceb ∷ 0xbef9a3f7
    ∷ 0xc67178f2 ∷ []

abbrev initial : State
initial = record {
  a = 0x6a09e667;
  b = 0xbb67ae85;
  c = 0x3c6ef372;
  d = 0xa54ff53a;
  e = 0x510e527f;
  f = 0x9b05688c;
  g = 0x1f83d9ab;
  h = 0x5be0cd19;
}

-- the words of a block
words : ℕ → Bytes → List ℕ
words zero bs = []
words (suc n) bs = get_u32 bs 0 ∷ words n (drop 4 bs)

-- W[t] from the sixteen words before it
next_word : List ℕ → ℕ
next_word w =
    let x = get_or w 1 0 in
    let y = get_or w 14 0 in
    w32 (
      get_or w 0 0
      + xor3 (rotr 7 x) (rotr 18 x) (x / 8)
      + get_or w 9 0
      + xor3 (rotr 17 y) (rotr 19 y) (y / 1024))

round : ℕ → ℕ → State → State
round k w s =
    let t1 = w32 (
      s.h
      + xor3 (rotr 6 s.e) (rotr 11 s.e) (rotr 25 s.e)
      + bit_xor (bit_and s.e s.f) (bit_and (4294967295 - s.e) s.g)
      + k
      + w) in
    let t2 = w32 (
      xor3 (rotr 2 s.a) (rotr 13 s.a) (rotr 22 s.a)
      + xor3 (bit_and s.a s.b) (bit_and s.a s.c) (bit_and s.b s.c)) in
    record {
      a = w32 (t1 + t2);
      b = s.a;
      c = s.b;
      d = s.c;
      e = w32 (s.d + t1);
      f = s.e;
      g = s.f;
      h = s.g;
    }

-- the rounds that are left, over a window of sixteen words
rounds : List ℕ → List ℕ → State → State
unfolding next_word round
rounds [] w s = s
rounds (k ∷ ks) w s = rounds ks (drop 1 w ++ next_word w ∷ []) (round k (get_or w 0 0) s)

add_state : State → State → State
add_state s t = record {
  a = w32 (s.a + t.a);
  b = w32 (s.b + t.b);
  c = w32 (s.c + t.c);
  d = w32 (s.d + t.d);
  e = w32 (s.e + t.e);
  f = w32 (s.f + t.f);
  g = w32 (s.g + t.g);
  h = w32 (s.h + t.h);
}

blocks : ℕ → Bytes → State → State
unfolding words rounds add_state
blocks zero bs s = s
blocks (suc n) bs s =
    blocks n (drop 64 bs) (add_state s (rounds constants (words 16 (take 64 bs)) s))

-- 0x80, zeroes up to 56 bytes modulo 64, and the length in bits
padded : Bytes → Bytes
padded bs = let n = length bs in bs ++ (128 ∷ (zeroes ((119 - n % 64) % 64) ++ put_u64 (n * 8)))

digest : State → Bytes
digest s =
    put_u32 s.a
    ++ (put_u32 s.b
        ++ (put_u32 s.c
            ++ (put_u32 s.d ++ (put_u32 s.e ++ (put_u32 s.f ++ (put_u32 s.g ++ put_u32 s.h))))))

unfoldable pub sum256 : Bytes → Bytes
unfolding blocks padded digest
sum256 bs = digest (blocks (length (padded bs) / 64) (padded bs) initial)

abbrev xor_each : ℕ → Bytes → Bytes
xor_each x [] = []
xor_each x (b ∷ bs) = bit_xor b x ∷ xor_each x bs

-- A key of at most 64 bytes, which every key of the program is, filled up with zeroes.
unfoldable pub hmac : Bytes → Bytes → Bytes
unfolding sum256
hmac key message =
    let block = key ++ zeroes (64 - length key) in
    sum256 (xor_each 0x5c block ++ sum256 (xor_each 0x36 block ++ message))

length-digest : (s : State) → length (digest s) ≡ 32
unfolding digest put_u32 put_u16
length-digest s = refl

pub length-sum256 : (bs : Bytes) → length (sum256 bs) ≡ 32
unfolding sum256
length-sum256 bs = length-digest (blocks (length (padded bs) / 64) (padded bs) initial)

pub length-hmac : (key message : Bytes) → length (hmac key message) ≡ 32
unfolding hmac
length-hmac key message = length-digest _

-- FIPS 180-4, "abc"
sum256_abc :
    Hex.encode (sum256 (text "abc"))
    ≡ text "ba7816bf8f01cfea414140de5dae2223b00361a396177a9cb410ff61f20015ad"
unfolding sum256 Hex.encode put_u16 put_u32 put_u64 get_u32 get_u16
sum256_abc = refl

-- RFC 4231, test case 2
hmac_jefe :
    Hex.encode (hmac (text "Jefe") (text "what do ya want for nothing?"))
    ≡ text "5bdcc146bf60754e6a042426089575c75a003f089d2739839dec58b964ec3843"
unfolding hmac Hex.encode put_u16 put_u32 put_u64 get_u32 get_u16
hmac_jefe = refl
