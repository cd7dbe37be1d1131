-- ===== src/Codec/Utf8.antt =====
-- unicode/utf8 and `range` over a string: the code points of a text, if it is valid UTF-8; and
-- unicode.IsSpace.
use opl_core.Prelude.{
  ℕ, ◌+◌, ◌-◌, ◌*◌, ◌≡◌, refl, Bool, true, ◌&&◌, ◌||◌, List, [], ◌∷◌, Bytes, Option, some, none,
  ltb, leb, if◌then◌else◌, ◌==◌, nat_eq,
}

-- lo <= x <= hi
abbrev pub between : ℕ → ℕ → ℕ → Bool
between lo hi x = leb lo x && leb x hi

abbrev pub cons_rune : Bool → ℕ → Option (List ℕ) → Option (List ℕ)
cons_rune true r (some rs) = some (r ∷ rs)
cons_rune _ r rs = none

-- a lead byte c, its first continuation byte d, and the ranges of the standard
abbrev pub second_ok : ℕ → ℕ → Bool
second_ok c d =
    if c == 0xe0
    then between 0xa0 0xbf d
    else if c == 0xed
    then between 0x80 0x9f d
    else if c == 0xf0
    then between 0x90 0xbf d
    else if c == 0xf4
    then between 0x80 0x8f d
    else between 0x80 0xbf d

unfoldable pub runes : Bytes → Option (List ℕ)
runes [] = some []
runes (c ∷ []) = cons_rune (ltb c 0x80) c (some [])
runes (c ∷ d ∷ []) =
    if ltb c 0x80
    then cons_rune true c (runes (d ∷ []))
    else cons_rune (between 0xc2 0xdf c && between 0x80 0xbf d) ((c - 0xc0) * 64 + (d - 0x80))
        (some [])
runes (c ∷ d ∷ e ∷ []) =
    if ltb c 0x80
    then cons_rune true c (runes (d ∷ e ∷ []))
    else if leb c 0xdf
    then cons_rune (between 0xc2 0xdf c && between 0x80 0xbf d) ((c - 0xc0) * 64 + (d - 0x80))
        (runes (e ∷ []))
    else cons_rune (between 0xe0 0xef c && second_ok c d && between 0x80 0xbf e)
        (((c - 0xe0) * 64 + (d - 0x80)) * 64 + (e - 0x80)) (some [])
runes (c ∷ d ∷ e ∷ f ∷ rest) =
    let after1 = runes (d ∷ e ∷ f ∷ rest) in
    let after2 = runes (e ∷ f ∷ rest) in
    let after3 = runes (f ∷ rest) in
    let after4 = runes rest in
    if ltb c 0x80
    then cons_rune true c after1
    else if leb c 0xdf
    then cons_rune (between 0xc2 0xdf c && between 0x80 0xbf d) ((c - 0xc0) * 64 + (d - 0x80))
        after2
    else if leb c 0xef
    then cons_rune (between 0xe0 0xef c && second_ok c d && between 0x80 0xbf e)
        (((c - 0xe0) * 64 + (d - 0x80)) * 64 + (e - 0x80)) after3
    else cons_rune
        (between 0xf0 0xf4 c && second_ok c d && between 0x80 0xbf e && between 0x80 0xbf f)
        ((((c - 0xf0) * 64 + (d - 0x80)) * 64 + (e - 0x80)) * 64 + (f - 0x80)) after4

-- unicode.IsSpace
unfoldable pub is_space : ℕ → Bool
is_space r =
    between 9 13 r
    || r == 32
    || r == 0x85
    || r == 0xa0
    || r == 0x1680
    || between 0x2000 0x200a r
    || between 0x2028 0x2029 r
    || r == 0x202f
    || r == 0x205f
    || r == 0x3000

-- three characters of three bytes each
three_characters :
    runes (231 ∷ 142 ∷ 169 ∷ 229 ∷ 174 ∷ 182 ∷ 228 ∷ 184 ∷ 128 ∷ [])
    ≡ some (0x73a9 ∷ 0x5bb6 ∷ 0x4e00 ∷ [])
unfolding runes
three_characters = refl

overlong_refused : runes (0xc0 ∷ 0x80 ∷ []) ≡ none
unfolding runes
overlong_refused = refl
