-- ===== src/Names/Roundtrip.antt =====
-- internal/namespace/names.go: the encoding of names can be undone, so distinct names stay distinct.
use mathlib.Core.Path.{subst}
use mathlib.Core.List.{append-nil}
use fabric_workspace_fs.Prelude.{
  ℕ, ◌+◌, ◌*◌, ◌/◌, ◌%◌, ◌≤◌, ◌<◌, ◌≡◌, ◌↔◌, ◌≢◌, refl, ◌∙◌, ap, sym, ◌⊎◌, inl, inr, Bool, true,
  false, ◌&&◌, ◌||◌, Option, none, some, [], ◌∷◌, ◌++◌, map, arith, ltb, leb, ◌==◌, if◌then◌else◌,
  length, All, Bool-cases, Option-cases,
}
use fabric_workspace_fs.Errors.{Error, Result, ok, err, ◌>>=◌}
use fabric_workspace_fs.Bytes.{
  same→≡, same_refl, lead, Bytes, ascii, same, before_byte, upper, Decoding, boundary, inside,
  broken, decode_byte, decode_from, valid_utf8, hex_digit, percent, unhex, unhex_pair, cons_byte,
  path_unescape,
}
use fabric_workspace_fs.Names.{
  is_nil, is_device_stem, is_reserved, escapes, put_ascii, encode_loop, is_com_or_lpt,
  windows_device_name, escape_first, encode, component, file_name, check_canonical, parse_file_name,
  max_name_bytes,
}

-- a continuation byte is never above 0xBF
abbrev IsTight : Decoding → Type 0
IsTight boundary = Unit
IsTight broken = Unit
IsTight (inside n lo hi) = hi < 256

decode_byte-IsTight : (d : Decoding) (b : ℕ) → IsTight d → IsTight (decode_byte d b)
unfolding decode_byte lead
decode_byte-IsTight boundary b t = ground arith
decode_byte-IsTight broken b t = tt
decode_byte-IsTight (inside n lo hi) b t = ground arith

byte_bound : (d : Decoding) (b : ℕ) → IsTight d → decode_byte d b ≢ broken → b < 256
unfolding decode_byte lead
byte_bound boundary b t h = ground arith
byte_bound broken b t h = absurd (h refl)
byte_bound (inside n lo hi) b t h = ground arith

decode_broken : (s : Bytes) → decode_from broken s ≡ broken
unfolding decode_from decode_byte
decode_broken [] = refl
decode_broken (b ∷ s) = decode_broken s

bytes_bound :
    (d : Decoding) (s : Bytes) → IsTight d → decode_from d s ≢ broken → All (λ b. b < 256) s
unfolding decode_from
bytes_bound d [] t h = tt
bytes_bound d (b ∷ s) t h = (
  byte_bound d b t (λ e. h (ap (λ x. decode_from x s) e ∙ decode_broken s)),
  bytes_bound (decode_byte d b) s (decode_byte-IsTight d b t) h,
)

-- a valid text is made of bytes
pub valid_bytes : (s : Bytes) → valid_utf8 s ≡ true → All (λ b. b < 256) s
unfolding valid_utf8
valid_bytes s h = bytes_bound boundary s tt (λ e. ground (arith, e))

unhex-hex_digit : (n : ℕ) → n < 16 → unhex (hex_digit n) ≡ some n
unfolding unhex hex_digit
unhex-hex_digit n h = ground arith

pair_digits :
    (a b x y : ℕ) (r : Option Bytes)
    → unhex a ≡ some x
    → unhex b ≡ some y
    → unhex_pair a b r ≡ cons_byte (16 * x + y) r
unfolding unhex_pair cons_byte
pair_digits a b x y none h k = ground arith
pair_digits a b x y (some s) h k = ground arith

unescape_percent :
    (b : ℕ) (s : Bytes) → b < 256 → path_unescape (percent b ++ s) ≡ cons_byte b (path_unescape s)
unfolding percent path_unescape
unescape_percent b s h =
    pair_digits (hex_digit (b / 16)) (hex_digit (b % 16)) (b / 16) (b % 16) (path_unescape s)
      (unhex-hex_digit (b / 16) (omega arith)) (unhex-hex_digit (b % 16) (omega arith))
    ∙ ap (λ x. cons_byte x (path_unescape s)) (omega arith)

unescape_plain :
    (b : ℕ) (s : Bytes) → b ≢ 37 → path_unescape (b ∷ s) ≡ cons_byte b (path_unescape s)
unfolding path_unescape
unescape_plain b [] h = ground arith
unescape_plain b (a ∷ []) h = ground arith
unescape_plain b (a ∷ c ∷ s) h = ground arith

unescape_put :
    (dots last : Bool) (b : ℕ) (s : Bytes)
    → b < 256
    → path_unescape (put_ascii dots last b ++ s) ≡ cons_byte b (path_unescape s)
unfolding put_ascii
unescape_put dots last b s h = elim (Bool-cases (escapes dots last b)) [
  | inl yes_it ↦ rw yes_it (unescape_percent b s h)
  | inr plain ↦ rw plain (unescape_plain b s (unfold escapes is_reserved in ground arith))
]

pub path_unescape-encode_loop :
    (dots : Bool) (s : Bytes) → All (λ b. b < 256) s → path_unescape (encode_loop dots s) ≡ some s
unfolding encode_loop
path_unescape-encode_loop dots [] h = unfold path_unescape in refl
path_unescape-encode_loop dots (b ∷ []) h =
    ap path_unescape (sym (append-nil (put_ascii dots true b)))
    ∙ unescape_put dots true b [] h.0
    ∙ unfold path_unescape cons_byte in refl
path_unescape-encode_loop dots (b ∷ c ∷ s) h =
    elim (Bool-cases (b == 0xc2 && (leb 0x80 c && leb c 0x9f))) [
      | inl control ↦ rw control (
          unescape_percent b (percent c ++ encode_loop dots s) h.0
          ∙ rw
              (
                unescape_percent c (encode_loop dots s) h.1.0,
                path_unescape-encode_loop dots s h.1.1,
              )
              (unfold cons_byte in refl))
      | inr other ↦ rw other (
          unescape_put dots false b (encode_loop dots (c ∷ s)) h.0
          ∙ rw (path_unescape-encode_loop dots (c ∷ s) h.1) (unfold cons_byte in refl))
    ]

-- the first byte of a device name is a letter, which `encode_loop` leaves as it is
com_or_lpt_head : (b : ℕ) (s : Bytes) → is_com_or_lpt (b ∷ s) ≡ true → (b ≡ 67) ⊎ (b ≡ 76)
unfolding is_com_or_lpt same
com_or_lpt_head b [] h = absurd (ground arith)
com_or_lpt_head b (c ∷ []) h = absurd (ground arith)
com_or_lpt_head b (c ∷ d ∷ []) h = absurd (ground arith)
com_or_lpt_head b (c ∷ d ∷ e ∷ []) h = ground arith
com_or_lpt_head b (c ∷ d ∷ e ∷ f ∷ s) h = absurd (ground arith)

same_head : (b : ℕ) (s : Bytes) (c : ℕ) (t : Bytes) → same (b ∷ s) (c ∷ t) ≡ true → b ≡ c
unfolding same
same_head b s c t h = ground arith

stem_head : (b : ℕ) (s : Bytes) → is_device_stem (b ∷ s) ≡ true → (65 ≤ b) × (b ≤ 90)
unfolding is_device_stem same
stem_head b s h = ground (arith, com_or_lpt_head b s)

no_stem : is_device_stem [] ≡ false
unfolding is_device_stem same is_com_or_lpt
no_stem = refl

device_head :
    (b : ℕ) (s : Bytes)
    → windows_device_name (b ∷ s) ≡ true
    → (65 ≤ upper b) × (upper b ≤ 90) × (b ≢ 46)
unfolding windows_device_name before_byte
device_head b s h = elim (Bool-cases (b == 46)) [
  | inl dot ↦ absurd (ground (arith, no_stem))
  | inr letter ↦
      let (low, high) = stem_head (upper b) (map upper (before_byte 46 s)) (ground arith) in
      (low, high, ground arith)
]

-- an escape of the first byte is undone with the others
unescape_escape_first :
    (b : ℕ) (s : Bytes)
    → b < 256
    → b ≢ 37
    → path_unescape (escape_first (b ∷ s)) ≡ path_unescape (b ∷ s)
unfolding escape_first
unescape_escape_first b s h n = unescape_percent b s h ∙ sym (unescape_plain b s n)

abbrev pub IsLetter : ℕ → Type 0
IsLetter b = ((65 ≤ b) × (b ≤ 90)) ⊎ ((97 ≤ b) × (b ≤ 122))

letter_plain : (dots last : Bool) (b : ℕ) → IsLetter b → escapes dots last b ≡ false
unfolding escapes is_reserved
letter_plain dots last b h = ground arith

pub device-IsLetter : (b : ℕ) (s : Bytes) → windows_device_name (b ∷ s) ≡ true → IsLetter b
unfolding upper
device-IsLetter b s h = ground (arith, device_head b s h)

-- a letter in front of a name stands in front of its encoding
pub encode_letter :
    (dots : Bool) (b : ℕ) (s : Bytes)
    → IsLetter b
    → (t : Bytes) × (encode_loop dots (b ∷ s) ≡ b ∷ t)
unfolding encode_loop put_ascii
encode_letter dots b [] h = ([], rw (letter_plain dots true b h))
encode_letter dots b (c ∷ s) h =
    let other : (b == 0xc2 && (leb 0x80 c && leb c 0x9f)) ≡ false = ground arith in
    (encode_loop dots (c ∷ s), rw (other, letter_plain dots false b h))

escaped_device :
    (dots : Bool) (name : Bytes)
    → All (λ b. b < 256) name
    → windows_device_name name ≡ true
    → path_unescape (escape_first (encode_loop dots name)) ≡ some name
escaped_device dots [] h d = unfold escape_first encode_loop path_unescape in refl
escaped_device dots (b ∷ s) h d =
    let letter = device-IsLetter b s d in
    let (t, e) = encode_letter dots b s letter in
    ap (λ x. path_unescape (escape_first x)) e
    ∙ unescape_escape_first b t h.0 (ground arith)
    ∙ ap path_unescape (sym e)
    ∙ path_unescape-encode_loop dots (b ∷ s) h

abbrev pub is_dots : Bytes → Bool
is_dots name = same name (ascii ".") || same name (ascii "..")

pub encode_parts :
    (name encoded : Bytes)
    → encode name ≡ ok encoded
    → (valid_utf8 name ≡ true)
      × ((if windows_device_name name
            then escape_first (encode_loop (is_dots name) name)
            else encode_loop (is_dots name) name)
          ≡ encoded)
unfolding encode
encode_parts name encoded h = ground arith

-- Whenever Encode accepts a name, percent-unescaping its result gives the name back.
pub path_unescape-encode :
    (name encoded : Bytes) → encode name ≡ ok encoded → path_unescape encoded ≡ some name
path_unescape-encode name encoded h =
    let (valid, e) = encode_parts name encoded h in
    let bytes = valid_bytes name valid in
    rw (← e) (elim (Bool-cases (windows_device_name name)) [
      | inl device ↦ rw device (escaped_device (is_dots name) name bytes device)
      | inr other ↦ rw other (path_unescape-encode_loop (is_dots name) name bytes)
    ])

file_name_parts :
    (remote local : Bytes)
    → file_name remote ≡ ok local
    → (component remote ≡ none) × (encode remote ≡ ok local) × (length local ≤ max_name_bytes)
unfolding file_name
file_name_parts remote local h = ground arith

component_nonempty : (remote : Bytes) → component remote ≡ none → is_nil remote ≡ false
unfolding component
component_nonempty remote h = ground arith

local_nonempty :
    (remote local : Bytes)
    → path_unescape local ≡ some remote
    → is_nil remote ≡ false
    → is_nil local ≡ false
unfolding path_unescape
local_nonempty remote [] h n = ground arith
local_nonempty remote (b ∷ s) h n = refl

parse_canonical :
    (remote local : Bytes) → file_name remote ≡ ok local → parse_file_name local ≡ ok remote
unfolding parse_file_name check_canonical
parse_canonical remote local h =
    let (fine, encoded, short) = file_name_parts remote local h in
    let undone = path_unescape-encode remote local encoded in
    let full = local_nonempty remote local undone (component_nonempty remote fine) in
    let long : ltb max_name_bytes (length local) ≡ false = ground arith in
    rw (full, long, undone, h, same_refl local)

pub Result-cases {ℓ} :
    {A : Type ℓ} (r : Result A) → ((e : Error) × (r ≡ err e)) ⊎ ((a : A) × (r ≡ ok a))
Result-cases (err e) = inl (e, refl)
Result-cases (ok a) = inr (a, refl)

parsed_canonical :
    (local remote : Bytes) (r : Result Bytes)
    → (r >>= (λ canonical. check_canonical canonical local remote)) ≡ ok remote
    → r ≡ ok local
unfolding check_canonical
parsed_canonical local remote (err e) h = absurd (ground arith)
parsed_canonical local remote (ok c) h = ground (arith, same→≡ c local)

parsed_remote :
    (local remote other : Bytes) (r : Result Bytes)
    → (r >>= (λ canonical. check_canonical canonical local other)) ≡ ok remote
    → other ≡ remote
unfolding check_canonical
parsed_remote local remote other (err e) h = absurd (ground arith)
parsed_remote local remote other (ok c) h = ground arith

canonical_parsed :
    (remote local : Bytes) → parse_file_name local ≡ ok remote → file_name remote ≡ ok local
unfolding parse_file_name
canonical_parsed remote local h = elim (Option-cases (path_unescape local)) [
  | inl n ↦ absurd (ground (arith, n))
  | inr (other, s) ↦
      let k : (file_name other >>= (λ canonical. check_canonical canonical local other))
          ≡ ok remote =
        ground (arith, s) in
      let e = parsed_remote local remote other (file_name other) k in
      subst (λ x. file_name x ≡ ok local) e
        (parsed_canonical local other (file_name other) (k ∙ ap ok (sym e)))
]

-- For all byte strings, ParseFileName accepts a local name and returns a remote name exactly when
-- FileName of that remote name returns this local name; so each local name stands for at most one
-- remote name and only canonical local names are accepted.
pub parse_file_name_iff :
    (remote local : Bytes) → (parse_file_name local ≡ ok remote) ↔ (file_name remote ≡ ok local)
parse_file_name_iff remote local = (canonical_parsed remote local, parse_canonical remote local)
