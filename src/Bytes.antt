-- ===== src/Bytes.antt =====
-- Go strings as lists of bytes, and what the source uses of the standard library on them: strings,
-- unicode/utf8, fmt's %02X and net/url's PathUnescape.

use fabric_workspace_fs.Prelude.{
  ◌≡◌, refl, arith, ℕ, ◌+◌, ◌-◌, ◌*◌, ◌/◌, ◌%◌, Bool, true, false, ◌&&◌, ◌||◌, Option, none, some,
  List, [], ◌∷◌, ltb, leb, ◌==◌, if◌then◌else◌, String,
}
use Prim.Native.Char.{code}

abbrev pub Bytes : Type 0
Bytes = List ℕ

-- an ASCII text literal
abbrev pub ascii : String → Bytes
ascii String.[] = []
ascii (String.◌∷◌ c s) = code c ∷ ascii s

unfoldable pub same : Bytes → Bytes → Bool
same [] [] = true
same [] (_ ∷ _) = false
same (_ ∷ _) [] = false
same (a ∷ s) (b ∷ t) = a == b && same s t

pub same→≡ : (s t : Bytes) → same s t ≡ true → s ≡ t
unfolding same
same→≡ [] [] h = refl
same→≡ [] (b ∷ t) h = absurd (ground arith)
same→≡ (a ∷ s) [] h = absurd (ground arith)
same→≡ (a ∷ s) (b ∷ t) h = ground (arith, same→≡ s t)

pub same_refl : (s : Bytes) → same s s ≡ true
unfolding same
same_refl [] = refl
same_refl (a ∷ s) = ground (arith, same_refl s)

pub same_sym : (s t : Bytes) → same s t ≡ same t s
unfolding same
same_sym [] [] = refl
same_sym [] (b ∷ t) = refl
same_sym (a ∷ s) [] = refl
same_sym (a ∷ s) (b ∷ t) = ground (arith, same_sym s t)

-- `strings.IndexByte(s, c) >= 0`
unfoldable pub contains : ℕ → Bytes → Bool
contains c [] = false
contains c (b ∷ s) = b == c || contains c s

-- `strings.HasPrefix(s, p)`
unfoldable pub has_prefix : Bytes → Bytes → Bool
has_prefix s [] = true
has_prefix [] (_ ∷ _) = false
has_prefix (a ∷ s) (b ∷ p) = a == b && has_prefix s p

-- the text before the first `c`, as `strings.Cut` gives it
unfoldable pub before_byte : ℕ → Bytes → Bytes
before_byte c [] = []
before_byte c (b ∷ s) = let rest = before_byte c s in if b == c then [] else b ∷ rest

unfoldable pub cons_first : ℕ → List Bytes → List Bytes
cons_first b [] = (b ∷ []) ∷ []
cons_first b (p ∷ ps) = (b ∷ p) ∷ ps

-- `strings.Split(s, c)` for a separator of one byte
unfoldable pub split : ℕ → Bytes → List Bytes
unfolding cons_first
split c [] = [] ∷ []
split c (b ∷ s) = let rest = split c s in if b == c then [] ∷ rest else cons_first b rest

-- `strings.ToUpper` and `strings.ToLower` on ASCII letters; other bytes stay
unfoldable pub upper : ℕ → ℕ
upper b = if leb b'a' b && leb b b'z' then b - 32 else b

unfoldable pub lower : ℕ → ℕ
lower b = if leb b'A' b && leb b b'Z' then b + 32 else b

-- `utf8.ValidString`: the bytes that may come next, as how many continuation bytes are missing and
-- the range of the first of them
pub data Decoding : Type 0 where
  boundary : Decoding
  inside : ℕ → ℕ → ℕ → Decoding
  broken : Decoding

unfoldable pub lead : ℕ → Decoding
lead b =
    if ltb b 0x80
    then boundary
    else if ltb b 0xc2
    then broken
    else if ltb b 0xe0
    then inside 0 0x80 0xbf
    else if ltb b 0xf0
    then inside 1 (if b == 0xe0 then 0xa0 else 0x80) (if b == 0xed then 0x9f else 0xbf)
    else if ltb b 0xf5
    then inside 2 (if b == 0xf0 then 0x90 else 0x80) (if b == 0xf4 then 0x8f else 0xbf)
    else broken

unfoldable pub decode_byte : Decoding → ℕ → Decoding
unfolding lead
decode_byte boundary b = lead b
decode_byte broken b = broken
decode_byte (inside n lo hi) b =
    if leb lo b && leb b hi then (if n == 0 then boundary else inside (n - 1) 0x80 0xbf) else broken

unfoldable pub decode_from : Decoding → Bytes → Decoding
unfolding decode_byte
decode_from d [] = d
decode_from d (b ∷ s) = decode_from (decode_byte d b) s

unfoldable pub valid_utf8 : Bytes → Bool
unfolding decode_from
valid_utf8 s = elim (decode_from boundary s) [
  | boundary ↦ true
  | inside n lo hi ↦ false
  | broken ↦ false
]

-- one digit of `%02X`, and `%` with both digits of a byte
unfoldable pub hex_digit : ℕ → ℕ
hex_digit n = if ltb n 10 then 48 + n else 55 + n

unfoldable pub percent : ℕ → Bytes
unfolding hex_digit
percent b = b'%' ∷ hex_digit (b / 16) ∷ hex_digit (b % 16) ∷ []

unfoldable pub unhex : ℕ → Option ℕ
unhex c =
    if leb b'0' c && leb c b'9'
    then some (c - 48)
    else if leb b'a' c && leb c b'f'
    then some (c - 87)
    else if leb b'A' c && leb c b'F'
    then some (c - 55)
    else none

-- the byte of two hexadecimal digits in front of an unescaped rest
unfoldable pub unhex_pair : ℕ → ℕ → Option Bytes → Option Bytes
unfolding unhex
unhex_pair a b rest = elim (unhex a) [
  | none ↦ none
  | some x ↦ elim (unhex b) [
    | none ↦ none
    | some y ↦ elim rest [ none ↦ none | some s ↦ some ((16 * x + y) ∷ s) ]
  ]
]

unfoldable pub cons_byte : ℕ → Option Bytes → Option Bytes
cons_byte c none = none
cons_byte c (some s) = some (c ∷ s)

-- `url.PathUnescape`; `none` is its error
unfoldable pub path_unescape : Bytes → Option Bytes
unfolding unhex_pair cons_byte
path_unescape [] = some []
path_unescape (c ∷ []) = if c == b'%' then none else some (c ∷ [])
path_unescape (c ∷ a ∷ []) =
    let rest = path_unescape (a ∷ []) in if c == b'%' then none else cons_byte c rest
path_unescape (c ∷ a ∷ b ∷ s) =
    let escaped = unhex_pair a b (path_unescape s) in
    let plain = cons_byte c (path_unescape (a ∷ b ∷ s)) in if c == b'%' then escaped else plain
