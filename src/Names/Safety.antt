-- ===== src/Names/Safety.antt =====
-- internal/namespace/names.go: no encoded name holds a separator, a control or another character that
-- the host systems reserve; only the escape character itself is added.
use fabric_workspace_fs.Prelude.{
  ℕ, ◌/◌, ◌%◌, ◌<◌, ◌≡◌, refl, ◌⊎◌, inl, inr, Bool, true, false, ◌&&◌, [], ◌∷◌, ◌++◌, arith, leb,
  ◌==◌, All, Bool-cases,
}
use fabric_workspace_fs.Errors.{ok}
use fabric_workspace_fs.Bytes.{Bytes, hex_digit, percent}
use fabric_workspace_fs.Names.{
  is_reserved, escapes, put_ascii, encode_loop, windows_device_name, escape_first, encode,
}
use fabric_workspace_fs.Names.Roundtrip.{
  valid_bytes, encode_parts, is_dots, device-IsLetter, encode_letter,
}

-- a byte that a local name may hold
abbrev pub IsPortable : ℕ → Type 0
IsPortable b = (is_reserved b ≡ false) ⊎ (b ≡ b'%')

All-append : (xs ys : Bytes) → All IsPortable xs → All IsPortable ys → All IsPortable (xs ++ ys)
All-append [] ys h k = k
All-append (x ∷ xs) ys h k = (h.0, All-append xs ys h.1 k)

hex_digit-IsPortable : (n : ℕ) → n < 16 → IsPortable (hex_digit n)
unfolding hex_digit is_reserved
hex_digit-IsPortable n h = ground arith

percent-IsPortable : (b : ℕ) → b < 256 → All IsPortable (percent b)
unfolding percent
percent-IsPortable b h = (
  inr refl,
  (hex_digit-IsPortable (b / 16) (omega arith), (hex_digit-IsPortable (b % 16) (omega arith), tt)),
)

not_reserved : (dots last : Bool) (b : ℕ) → escapes dots last b ≡ false → is_reserved b ≡ false
unfolding escapes
not_reserved dots last b h = ground arith

put_ascii-IsPortable : (dots last : Bool) (b : ℕ) → b < 256 → All IsPortable (put_ascii dots last b)
unfolding put_ascii
put_ascii-IsPortable dots last b h = elim (Bool-cases (escapes dots last b)) [
  | inl escaped ↦ rw escaped (percent-IsPortable b h)
  | inr plain ↦ rw plain (inl (not_reserved dots last b plain), tt)
]

encode_loop-IsPortable :
    (dots : Bool) (s : Bytes) → All (λ b. b < 256) s → All IsPortable (encode_loop dots s)
unfolding encode_loop
encode_loop-IsPortable dots [] h = tt
encode_loop-IsPortable dots (b ∷ []) h = put_ascii-IsPortable dots true b h.0
encode_loop-IsPortable dots (b ∷ c ∷ s) h =
    elim (Bool-cases (b == 0xc2 && (leb 0x80 c && leb c 0x9f))) [
      | inl control ↦ rw control (
          All-append (percent b) (percent c ++ encode_loop dots s) (percent-IsPortable b h.0) (
            All-append (percent c) (encode_loop dots s) (percent-IsPortable c h.1.0)
              (encode_loop-IsPortable dots s h.1.1)))
      | inr other ↦ rw other (
          All-append (put_ascii dots false b) (encode_loop dots (c ∷ s))
            (put_ascii-IsPortable dots false b h.0) (encode_loop-IsPortable dots (c ∷ s) h.1))
    ]

escape_device-IsPortable :
    (dots : Bool) (name : Bytes)
    → windows_device_name name ≡ true
    → All IsPortable (encode_loop dots name)
    → All IsPortable (escape_first (encode_loop dots name))
escape_device-IsPortable dots [] d all = unfold encode_loop escape_first in tt
escape_device-IsPortable dots (b ∷ s) d all =
    let letter = device-IsLetter b s d in
    let (t, e) = encode_letter dots b s letter in
    let rest : All IsPortable (b ∷ t) = rw e at all in
    rw e
      (unfold escape_first in All-append (percent b) t (percent-IsPortable b (ground arith)) rest.1)

-- Every byte of a name that Encode returns is either not reserved (no separator, control or
-- character reserved by a host system) or the percent sign.
pub encode-IsPortable : (name encoded : Bytes) → encode name ≡ ok encoded → All IsPortable encoded
encode-IsPortable name encoded h =
    let (valid, e) = encode_parts name encoded h in
    let all = encode_loop-IsPortable (is_dots name) name (valid_bytes name valid) in
    rw (← e) (elim (Bool-cases (windows_device_name name)) [
      | inl device ↦ rw device (escape_device-IsPortable (is_dots name) name device all)
      | inr other ↦ rw other all
    ])
