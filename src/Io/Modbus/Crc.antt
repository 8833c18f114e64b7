-- ===== src/Io/Modbus/Crc.antt =====
-- crc16_modbus, and the residue that a receiver checks.
use Prim.Native.Nat.{bit_xor}
use native.Mathlib.Nat.{pow-suc}
use py2to3_example_project.Prelude.{
  ℕ, zero, suc, ◌+◌, ◌*◌, ◌/◌, ◌%◌, ◌^◌, ◌<◌, ◌≡◌, refl, ap, ◌∙◌, inl, inr, false, List, [], ◌∷◌,
  ◌++◌, arith, ◌==◌, if◌then◌else◌, Bool-cases,
}
use py2to3_example_project.Prelude.Py.{Raw, bytes, elements}
use py2to3_example_project.Prelude.Xor.{bit_xor_self, bit_xor-lt, bit_xor-low}

abbrev crc16_poly : ℕ
crc16_poly = 0xA001

-- `for _ in range(8)`: one bit a round.
crc_rounds : ℕ → ℕ → ℕ
crc_rounds zero crc = crc
crc_rounds (suc n) crc =
    crc_rounds n (if crc % 2 == 1 then bit_xor (crc / 2) crc16_poly else crc / 2)

-- The loop over the bytes.
pub crc_from : ℕ → List ℕ → ℕ
crc_from crc [] = crc
crc_from crc (b ∷ bs) = crc_from (crc_rounds 8 (bit_xor crc b)) bs

-- The elements of a byte string are numbers, those of a text are passed through `ord`; so both
-- give the same codes. `& 0xFFFF` is the remainder by 2 ^ 16.
unfoldable pub crc16_modbus : Raw → ℕ
unfolding crc_from crc_rounds
crc16_modbus raw = crc_from 0xFFFF (elements raw) % 2 ^ 16

abbrev pub AreBytes : List ℕ → Type 0
AreBytes [] = Unit
AreBytes (b ∷ bs) = (b < 256) × AreBytes bs

crc_rounds-lt : (n crc : ℕ) → crc < 2 ^ 16 → crc_rounds n crc < 2 ^ 16
unfolding crc_rounds
crc_rounds-lt zero crc h = h
crc_rounds-lt (suc n) crc h = elim (Bool-cases (crc % 2 == 1)) [
  | inl odd ↦
      rw odd (crc_rounds-lt n _ (bit_xor-lt 16 (crc / 2) crc16_poly (omega arith) (omega arith)))
  | inr even ↦ rw even (crc_rounds-lt n (crc / 2) (omega arith))
]

crc_from-lt : (bs : List ℕ) (crc : ℕ) → crc < 2 ^ 16 → AreBytes bs → crc_from crc bs < 2 ^ 16
unfolding crc_from
crc_from-lt [] crc h a = h
crc_from-lt (b ∷ bs) crc h a =
    crc_from-lt bs (crc_rounds 8 (bit_xor crc b))
      (crc_rounds-lt 8 (bit_xor crc b) (bit_xor-lt 16 crc b h (omega arith))) a.1

-- A number whose low bits are clear is only shifted.
crc_rounds-shift : (n q : ℕ) → crc_rounds n (q * 2 ^ n) ≡ q
unfolding crc_rounds
crc_rounds-shift zero q = omega arith
crc_rounds-shift (suc n) q =
    let double : q * 2 ^ suc n ≡ q * 2 ^ n * 2 =
      omega (arith, ap (λ (t : ℕ). q * t) (pow-suc 2 n)) in
    let even : (q * 2 ^ suc n % 2 == 1) ≡ false = ground arith in
    let half : q * 2 ^ suc n / 2 ≡ q * 2 ^ n = omega arith in rw (even, half) (crc_rounds-shift n q)

crc_from-append :
    (xs ys : List ℕ) (crc : ℕ) → crc_from crc (xs ++ ys) ≡ crc_from (crc_from crc xs) ys
unfolding crc_from
crc_from-append [] ys crc = refl
crc_from-append (x ∷ xs) ys crc = crc_from-append xs ys (crc_rounds 8 (bit_xor crc x))

low_byte : (crc : ℕ) → crc_rounds 8 (bit_xor crc (crc % 256)) ≡ crc / 256
low_byte crc =
    let split : crc ≡ crc / 256 * 2 ^ 8 + crc % 256 = omega arith in
    ap (λ (t : ℕ). crc_rounds 8 (bit_xor t (crc % 256))) split
    ∙ rw (bit_xor-low 8 (crc / 256) (crc % 256) (omega arith)) (crc_rounds-shift 8 (crc / 256))

high_byte : (high : ℕ) → crc_rounds 8 (bit_xor high high) ≡ 0
high_byte high = rw (bit_xor_self high) (crc_rounds-shift 8 0)

-- Feeding a checksum its own low and high byte clears it.
crc_from-residue : (crc : ℕ) → crc_from crc ((crc % 256) ∷ (crc / 256) ∷ []) ≡ 0
unfolding crc_from
crc_from-residue crc = rw (low_byte crc) (high_byte (crc / 256))

-- The mask at the end changes nothing: on bytes the running checksum has 16 bits.
pub crc16_modbus-unmasked :
    (bs : List ℕ) → AreBytes bs → crc16_modbus (bytes bs) ≡ crc_from 0xFFFF bs
unfolding crc16_modbus
crc16_modbus-unmasked bs a = omega (arith, crc_from-lt bs 0xFFFF (omega arith) a)

AreBytes-append : (xs ys : List ℕ) → AreBytes xs → AreBytes ys → AreBytes (xs ++ ys)
AreBytes-append [] ys a b = b
AreBytes-append (x ∷ xs) ys a b = (a.0, AreBytes-append xs ys a.1 b)

pub crc16_modbus-lt : (raw : Raw) → crc16_modbus raw < 2 ^ 16
unfolding crc16_modbus
crc16_modbus-lt raw = omega arith

-- What a receiver checks: the checksum of bytes followed by their checksum, low byte first, is 0.
pub crc16_modbus-residue :
    (bs : List ℕ)
    → AreBytes bs
    → crc16_modbus
        (bytes (bs ++ (crc16_modbus (bytes bs) % 256) ∷ (crc16_modbus (bytes bs) / 256) ∷ []))
      ≡ 0
crc16_modbus-residue bs a =
    let c = crc16_modbus (bytes bs) in
    let lt = crc16_modbus-lt (bytes bs) in
    crc16_modbus-unmasked (bs ++ (c % 256) ∷ (c / 256) ∷ [])
      (AreBytes-append bs ((c % 256) ∷ (c / 256) ∷ []) a (omega arith))
    ∙ crc_from-append bs ((c % 256) ∷ (c / 256) ∷ []) 0xFFFF
    ∙ rw (← crc16_modbus-unmasked bs a) (crc_from-residue c)
