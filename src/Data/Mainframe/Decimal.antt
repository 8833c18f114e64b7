-- ===== src/Data/Mainframe/Decimal.antt =====
-- decode_comp3 and decode_zoned_decimal. The bytes of a field are those of Python 3: `ord` refuses
-- an element of `bytes`, so that both decoders work on texts only.
use py2to3_example_project.Prelude.{
  ℕ, zero, suc, ◌+◌, ◌*◌, ◌/◌, ◌%◌, ◌<◌, ◌≡◌, refl, ap, ◌∙◌, Bool, ◌||◌, List, [], ◌∷◌, ◌++◌, arith,
  ◌==◌, if◌then◌else◌,
}
use py2to3_example_project.Prelude.Int.{ℤ, pos, negsuc}
use py2to3_example_project.Prelude.Py.{
  Raw, text, elements, ords, Result, ok, raise, ◌>>=◌, parse_error,
}

-- `-n`
abbrev pub negated : ℕ → ℤ
negated zero = pos 0
negated (suc n) = negsuc n

abbrev pub is_negative_sign : ℕ → Bool
is_negative_sign nibble = nibble == 13 || nibble == 11

-- The loop over the bytes, and what is made of the last one: the current byte, and those behind.
comp3_from : (result byte : ℕ) → List ℕ → ℕ × ℕ
comp3_from result byte [] = (result * 10 + byte / 16 % 16, byte % 16)
comp3_from result byte (next ∷ rest) =
    comp3_from (result * 100 + (byte / 16 % 16 * 10 + byte % 16)) next rest

-- The number with the sign that a nibble gives it.
abbrev comp3_value : ℕ × ℕ → ℤ
comp3_value (n, sign) = if is_negative_sign sign then negated n else pos n

abbrev comp3_of : List ℕ → Result ℤ
comp3_of [] = raise parse_error
comp3_of (b ∷ bs) = ok (comp3_value (comp3_from 0 b bs))

unfoldable pub decode_comp3 : Raw → Result ℤ
unfolding comp3_from ords
decode_comp3 raw = elim (elements raw) [ [] ↦ raise parse_error | _ ∷ _ ↦ ords raw >>= comp3_of ]

zoned_from : (result byte : ℕ) → List ℕ → ℕ × ℕ
zoned_from result byte [] = (result * 10 + byte % 16, byte / 16 % 16)
zoned_from result byte (next ∷ rest) = zoned_from (result * 10 + byte % 16) next rest

abbrev zoned_value : ℕ × ℕ → ℤ
zoned_value (n, zone) = if zone == 13 then negated n else pos n

abbrev zoned_of : List ℕ → Result ℤ
zoned_of [] = ok (pos 0)
zoned_of (b ∷ bs) = ok (zoned_value (zoned_from 0 b bs))

unfoldable pub decode_zoned_decimal : Raw → Result ℤ
unfolding zoned_from ords
decode_zoned_decimal raw = elim (elements raw) [ [] ↦ ok (pos 0) | _ ∷ _ ↦ ords raw >>= zoned_of ]

-- The number that decimal digits stand for.
abbrev pub decimal : ℕ → List ℕ → ℕ
decimal acc [] = acc
decimal acc (d ∷ ds) = decimal (acc * 10 + d) ds

-- Pairs of digits, and how they are packed: two to a byte, then a digit with the sign.
abbrev pub digits_of : List (ℕ × ℕ) → ℕ → List ℕ
digits_of [] last = last ∷ []
digits_of ((a, b) ∷ ps) last = a ∷ b ∷ digits_of ps last

abbrev pub packed : List (ℕ × ℕ) → (last sign : ℕ) → List ℕ
packed [] last sign = (last * 16 + sign) ∷ []
packed ((a, b) ∷ ps) last sign = (a * 16 + b) ∷ packed ps last sign

abbrev pub AreDigits : List (ℕ × ℕ) → Type 0
AreDigits [] = Unit
AreDigits ((a, b) ∷ ps) = (a < 10) × (b < 10) × AreDigits ps

comp3_from-packed :
    (acc a b : ℕ) (ps : List (ℕ × ℕ)) (last sign : ℕ)
    → a < 10
    → b < 10
    → AreDigits ps
    → last < 10
    → sign < 16
    → comp3_from acc (a * 16 + b) (packed ps last sign)
      ≡ (decimal acc (a ∷ b ∷ digits_of ps last), sign)
unfolding comp3_from
comp3_from-packed acc a b [] last sign p q ds l s =
    let n1 : (a * 16 + b) / 16 % 16 ≡ a = omega arith in
    let n2 : (a * 16 + b) % 16 ≡ b = omega arith in
    let n3 : (last * 16 + sign) / 16 % 16 ≡ last = omega arith in
    let n4 : (last * 16 + sign) % 16 ≡ sign = omega arith in
    let n5 : acc * 100 + (a * 10 + b) ≡ (acc * 10 + a) * 10 + b = omega arith in
    rw (n1, n2, n3, n4, n5) refl
comp3_from-packed acc a b ((c, d) ∷ ps) last sign p q ds l s =
    let pair : acc * 100 + ((a * 16 + b) / 16 % 16 * 10 + (a * 16 + b) % 16)
        ≡ (acc * 10 + a) * 10 + b =
      omega arith in
    ap (λ (t : ℕ). comp3_from t (c * 16 + d) (packed ps last sign)) pair
    ∙ comp3_from-packed ((acc * 10 + a) * 10 + b) c d ps last sign ds.0 ds.1 ds.2 l s

comp3_from-last :
    (last sign : ℕ)
    → last < 10
    → sign < 16
    → comp3_from 0 (last * 16 + sign) [] ≡ (decimal 0 (last ∷ []), sign)
unfolding comp3_from
comp3_from-last last sign l s =
    let n3 : 0 * 10 + (last * 16 + sign) / 16 % 16 ≡ 0 * 10 + last = omega arith in
    let n4 : (last * 16 + sign) % 16 ≡ sign = omega arith in λ i. (n3 i, n4 i)

-- A text of packed digits decodes to the number that the digits stand for, negative for the signs
-- B and D. The last digit stands beside the sign, in the high half of the last byte.
pub decode_comp3-packed :
    (ps : List (ℕ × ℕ)) (last sign : ℕ)
    → AreDigits ps
    → last < 10
    → sign < 16
    → decode_comp3 (text (packed ps last sign))
      ≡ ok (
          if sign == 13 || sign == 11
          then negated (decimal 0 (digits_of ps last))
          else pos (decimal 0 (digits_of ps last)))
unfolding decode_comp3 ords
decode_comp3-packed [] last sign ds l s =
    ap (λ r. ok (comp3_value r)) (comp3_from-last last sign l s)
decode_comp3-packed ((a, b) ∷ ps) last sign ds l s =
    ap (λ r. ok (comp3_value r)) (comp3_from-packed 0 a b ps last sign ds.0 ds.1 ds.2 l s)

-- Digits written with a zone, all but the last with the zone F.
abbrev pub zoned : List ℕ → (last zone : ℕ) → List ℕ
zoned [] last zone = (zone * 16 + last) ∷ []
zoned (d ∷ ds) last zone = (15 * 16 + d) ∷ zoned ds last zone

abbrev pub AreDecimal : List ℕ → Type 0
AreDecimal [] = Unit
AreDecimal (d ∷ ds) = (d < 10) × AreDecimal ds

zoned_from-zoned :
    (acc d : ℕ) (ds : List ℕ) (last zone : ℕ)
    → d < 10
    → AreDecimal ds
    → last < 10
    → zone < 16
    → zoned_from acc (15 * 16 + d) (zoned ds last zone)
      ≡ (decimal acc (d ∷ (ds ++ last ∷ [])), zone)
unfolding zoned_from
zoned_from-zoned acc d [] last zone p q l z =
    let digit : acc * 10 + (15 * 16 + d) % 16 ≡ acc * 10 + d = omega arith in
    let final : (acc * 10 + d) * 10 + (zone * 16 + last) % 16 ≡ (acc * 10 + d) * 10 + last =
      omega arith in
    let high : (zone * 16 + last) / 16 % 16 ≡ zone = omega arith in
    ap (λ (t : ℕ). zoned_from t (zone * 16 + last) []) digit ∙ λ i. (final i, high i)
zoned_from-zoned acc d (e ∷ ds) last zone p q l z =
    let digit : acc * 10 + (15 * 16 + d) % 16 ≡ acc * 10 + d = omega arith in
    ap (λ (t : ℕ). zoned_from t (15 * 16 + e) (zoned ds last zone)) digit
    ∙ zoned_from-zoned (acc * 10 + d) e ds last zone q.0 q.1 l z

zoned_from-last :
    (last zone : ℕ)
    → last < 10
    → zone < 16
    → zoned_from 0 (zone * 16 + last) [] ≡ (decimal 0 (last ∷ []), zone)
unfolding zoned_from
zoned_from-last last zone l z =
    let n2 : 0 * 10 + (zone * 16 + last) % 16 ≡ 0 * 10 + last = omega arith in
    let n3 : (zone * 16 + last) / 16 % 16 ≡ zone = omega arith in λ i. (n2 i, n3 i)

-- A text of zoned digits decodes to the number that the digits stand for, negative for the zone D
-- of the last one.
pub decode_zoned_decimal-zoned :
    (ds : List ℕ) (last zone : ℕ)
    → AreDecimal ds
    → last < 10
    → zone < 16
    → decode_zoned_decimal (text (zoned ds last zone))
      ≡ ok (
          if zone == 13
          then negated (decimal 0 (ds ++ last ∷ []))
          else pos (decimal 0 (ds ++ last ∷ [])))
unfolding decode_zoned_decimal ords
decode_zoned_decimal-zoned [] last zone ds l z =
    ap (λ r. ok (zoned_value r)) (zoned_from-last last zone l z)
decode_zoned_decimal-zoned (d ∷ ds) last zone p l z =
    ap (λ r. ok (zoned_value r)) (zoned_from-zoned 0 d ds last zone p.0 p.1 l z)
