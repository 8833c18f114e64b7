-- ===== src/Prelude/Struct.antt =====
-- Python's slices, concatenation of byte strings, and the struct formats that the program uses.
use py2to3_example_project.Prelude.{
  ℕ, ◌+◌, ◌-◌, ◌*◌, ◌/◌, ◌%◌, List, [], ◌∷◌, ◌++◌, ltb, if◌then◌else◌, take, drop,
}
use py2to3_example_project.Prelude.Int.{ℤ, pos, negsuc}
use py2to3_example_project.Prelude.Py.{
  Raw, bytes, text, Result, ok, raise, type_error, struct_error,
}

-- `xs[a:b]` for indices that are not negative.
abbrev pub slice {ℓ} : {A : Type ℓ} → ℕ → ℕ → List A → List A
slice a b xs = take (b - a) (drop a xs)

-- A slice of a text is a text, and a slice of bytes is bytes.
abbrev pub slice_raw : ℕ → ℕ → Raw → Raw
slice_raw a b (bytes cs) = bytes (slice a b cs)
slice_raw a b (text cs) = text (slice a b cs)

-- `b"…" + raw`
abbrev pub add_raw : List ℕ → Raw → Result (List ℕ)
add_raw xs (bytes ys) = ok (xs ++ ys)
add_raw xs (text ys) = raise type_error

-- `struct.pack` of one unsigned field: "B", ">H" and "<H".
unfoldable pub pack_u8 : ℕ → Result (List ℕ)
pack_u8 n = if ltb n 256 then ok (n ∷ []) else raise struct_error

unfoldable pub pack_u16 : ℕ → Result (List ℕ)
pack_u16 n = if ltb n 65536 then ok ((n / 256) ∷ (n % 256) ∷ []) else raise struct_error

unfoldable pub pack_u16_le : ℕ → Result (List ℕ)
pack_u16_le n = if ltb n 65536 then ok ((n % 256) ∷ (n / 256) ∷ []) else raise struct_error

-- The number that big-endian bytes stand for.
abbrev pub big_endian : ℕ → List ℕ → ℕ
big_endian acc [] = acc
big_endian acc (b ∷ bs) = big_endian (acc * 256 + b) bs

-- `struct.unpack(">H", raw)[0]`
unfoldable pub unpack_u16 : Raw → Result ℕ
unpack_u16 (text cs) = raise type_error
unpack_u16 (bytes (a ∷ b ∷ [])) = ok (a * 256 + b)
unpack_u16 (bytes cs) = raise struct_error

-- Two's complement with `half` values on each side.
abbrev pub signed : ℕ → ℕ → ℤ
signed half n = if ltb n half then pos n else negsuc (half + half - n - 1)
