-- ===== src/GoString.antt =====
-- Go strings: sequences of bytes, with the functions of `strings`, `unicode` and `unicode/utf8`
-- that the program calls. A string is the list of its bytes, which need not be valid UTF-8.
pub mod Laws
pub mod Zero
use mathlib.Core.List.{reverse}
use Prim.Native.Char.{code}
use session_bound_agent_iden.Common.{
  ℕ, zero, suc, ◌+◌, ◌-◌, ◌*◌, ◌/◌, ◌%◌, String, Bool, true, false, not, ◌&&◌, ◌||◌, List, [], ◌∷◌,
  ltb, leb, ◌==◌, if◌then◌else◌, length, take, drop, all, any, is_nil,
}

abbrev pub Bytes : Type 0
Bytes = List ℕ

-- The bytes of an ASCII text, for literals.
abbrev pub bytes : String → Bytes
bytes String.[] = []
bytes (String.◌∷◌ c s) = code c ∷ bytes s

-- `a == b` on strings.
unfoldable pub bytes_eq : Bytes → Bytes → Bool
bytes_eq [] [] = true
bytes_eq (x ∷ xs) (y ∷ ys) = x == y && bytes_eq xs ys
bytes_eq _ _ = false

-- What decoding one rune yields; an invalid sequence is `rune_error` of width 1.
pub record Rune : Type 0 where
  pub point : ℕ
  pub width : ℕ

abbrev pub rune_error : ℕ
rune_error = 0xFFFD

abbrev invalid : Rune
invalid = record { point = rune_error; width = 1 }

abbrev between : ℕ → ℕ → ℕ → Bool
between lo hi x = leb lo x && leb x hi

-- The range of a second byte after a leading byte, as in `utf8.acceptRanges`.
second_lo : ℕ → ℕ
second_lo b = if b == 0xE0 then 0xA0 else if b == 0xF0 then 0x90 else 0x80

second_hi : ℕ → ℕ
second_hi b = if b == 0xED then 0x9F else if b == 0xF4 then 0x8F else 0xBF

decode_two : ℕ → Bytes → Rune
decode_two b (c ∷ _) =
    if between 0x80 0xBF c then record { point = b % 32 * 64 + c % 64; width = 2 } else invalid
decode_two b [] = invalid

decode_three : ℕ → Bytes → Rune
unfolding second_lo second_hi
decode_three b (c ∷ d ∷ _) =
    if between (second_lo b) (second_hi b) c && between 0x80 0xBF d
    then record { point = b % 16 * 4096 + c % 64 * 64 + d % 64; width = 3 }
    else invalid
decode_three b _ = invalid

decode_four : ℕ → Bytes → Rune
unfolding second_lo second_hi
decode_four b (c ∷ d ∷ e ∷ _) =
    if between (second_lo b) (second_hi b) c && between 0x80 0xBF d && between 0x80 0xBF e
    then record { point = b % 8 * 262144 + c % 64 * 4096 + d % 64 * 64 + e % 64; width = 4 }
    else invalid
decode_four b _ = invalid

-- `utf8.DecodeRuneInString` at a first byte and what follows it.
unfoldable pub decode_rune : ℕ → Bytes → Rune
unfolding decode_two decode_three decode_four
decode_rune b rest =
    if ltb b 0x80
    then record { point = b; width = 1 }
    else if between 0xC2 0xDF b
    then decode_two b rest
    else if between 0xE0 0xEF b
    then decode_three b rest
    else if between 0xF0 0xF4 b
    then decode_four b rest
    else invalid

-- `for _, r := range s`: the first number counts the bytes that the last rune still covers.
unfoldable pub runes_from : ℕ → Bytes → List Rune
unfolding decode_rune
runes_from skip [] = []
runes_from (suc skip) (b ∷ rest) = runes_from skip rest
runes_from zero (b ∷ rest) = let r = decode_rune b rest in r ∷ runes_from (r.width - 1) rest

unfoldable pub runes : Bytes → List Rune
unfolding runes_from
runes s = runes_from 0 s

-- `utf8.ValidString`
unfoldable pub valid_string : Bytes → Bool
unfolding runes
valid_string s = all (λ r. not (r.point == rune_error && r.width == 1)) (runes s)

-- `unicode.IsControl`
unfoldable pub is_control : ℕ → Bool
is_control r = ltb r 0x20 || between 0x7F 0x9F r

-- `unicode.IsSpace`
unfoldable pub is_space : ℕ → Bool
is_space r =
    between 0x09 0x0D r
    || r == 0x20
    || r == 0x85
    || r == 0xA0
    || r == 0x1680
    || between 0x2000 0x200A r
    || r == 0x2028
    || r == 0x2029
    || r == 0x202F
    || r == 0x205F
    || r == 0x3000

-- How many bytes the leading space runes cover.
space_width : List Rune → ℕ
unfolding is_space
space_width [] = 0
space_width (r ∷ rs) = if is_space r.point then r.width + space_width rs else 0

-- `strings.TrimSpace`. No space rune holds a byte that could belong to the rune before it, so
-- decoding forwards finds the trailing space that Go finds by decoding backwards.
trim_left : Bytes → Bytes
unfolding space_width runes
trim_left s = drop (space_width (runes s)) s

trim_right : Bytes → Bytes
unfolding space_width runes
trim_right s = take (length s - space_width (reverse (runes s))) s

unfoldable pub trim_space : Bytes → Bytes
unfolding trim_left trim_right
trim_space s = trim_right (trim_left s)

-- `strings.TrimSpace(s) == ""`
unfoldable pub is_blank : Bytes → Bool
unfolding trim_space
is_blank s = is_nil (trim_space s)

-- `strings.ContainsAny(s, chars)` for ASCII `chars`
unfoldable pub contains_any : Bytes → Bytes → Bool
contains_any s chars = any (λ b. any (λ c. b == c) chars) s

-- `strings.HasPrefix(s, prefix)` and `strings.HasSuffix(s, suffix)`
unfoldable pub has_prefix : Bytes → Bytes → Bool
has_prefix s [] = true
has_prefix [] (p ∷ ps) = false
has_prefix (b ∷ s) (p ∷ ps) = b == p && has_prefix s ps

unfoldable pub has_suffix : Bytes → Bytes → Bool
unfolding has_prefix
has_suffix s suffix = has_prefix (reverse s) (reverse suffix)
