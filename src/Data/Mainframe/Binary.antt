-- ===== src/Data/Mainframe/Binary.antt =====
-- decode_binary_field: big-endian integers of two, four and eight bytes.
use native.Mathlib.Nat.{pow-suc}
use py2to3_example_project.Prelude.{
  ℕ, zero, suc, ◌+◌, ◌*◌, ◌/◌, ◌%◌, ◌^◌, ◌<◌, ◌≡◌, refl, Bool, true, false, ◌||◌, List, [], ◌∷◌,
  ◌++◌, arith, ◌==◌, if◌then◌else◌, length, length-append,
}
use py2to3_example_project.Prelude.Int.{ℤ, pos}
use py2to3_example_project.Prelude.Py.{
  Raw, bytes, text, elements, Result, ok, raise, parse_error, type_error,
}
use py2to3_example_project.Prelude.Struct.{big_endian, signed}

-- `struct.unpack` with a format of `width` bytes, on as many.
unpack_int : (width : ℕ) → Bool → Raw → Result ℤ
unpack_int width is_signed (text cs) = raise type_error
unpack_int width is_signed (bytes cs) =
    let n = big_endian 0 cs in ok (if is_signed then signed (256 ^ width / 2) n else pos n)

unfoldable pub decode_binary_field : Raw → (is_signed : Bool) → Result ℤ
unfolding unpack_int
decode_binary_field raw is_signed =
    let size = length (elements raw) in
    if size == 2
    then unpack_int 2 is_signed raw
    else if size == 4
    then unpack_int 4 is_signed raw
    else if size == 8
    then unpack_int 8 is_signed raw
    else raise parse_error

-- The bytes of a number, the most significant first.
abbrev pub to_bytes : (width : ℕ) → ℕ → List ℕ
to_bytes zero n = []
to_bytes (suc w) n = to_bytes w (n / 256) ++ (n % 256) ∷ []

big_endian-append :
    (acc : ℕ) (xs : List ℕ) (b : ℕ) → big_endian acc (xs ++ b ∷ []) ≡ big_endian acc xs * 256 + b
big_endian-append acc [] b = refl
big_endian-append acc (x ∷ xs) b = big_endian-append (acc * 256 + x) xs b

big_endian-to_bytes : (w n : ℕ) → n < 256 ^ w → big_endian 0 (to_bytes w n) ≡ n
big_endian-to_bytes zero n h = omega arith
big_endian-to_bytes (suc w) n h =
    let step = pow-suc 256 w in
    omega (
      arith,
      big_endian-append 0 (to_bytes w (n / 256)) (n % 256),
      big_endian-to_bytes w (n / 256) (omega arith),
    )

length-to_bytes : (w n : ℕ) → length (to_bytes w n) ≡ w
length-to_bytes zero n = refl
length-to_bytes (suc w) n =
    omega (
      arith,
      length-append {0} (to_bytes w (n / 256)) ((n % 256) ∷ []),
      length-to_bytes w (n / 256),
    )

abbrev pub is_width : ℕ → Bool
is_width w = w == 2 || (w == 4 || w == 8)

-- The bytes of a number that fits two, four or eight bytes decode to it, unsigned, and to its two's
-- complement reading, signed. Fields of other widths raise ParseError.
pub decode_binary_field-to_bytes :
    (w n : ℕ)
    → n < 256 ^ w
    → decode_binary_field (bytes (to_bytes w n)) false
        ≡ (if is_width w then ok (pos n) else raise parse_error)
      × (decode_binary_field (bytes (to_bytes w n)) true
          ≡ (if is_width w then ok (signed (256 ^ w / 2) n) else raise parse_error))
unfolding decode_binary_field unpack_int
decode_binary_field-to_bytes w n h =
    rw (length-to_bytes w n, big_endian-to_bytes w n h) (ground arith, ground arith)
