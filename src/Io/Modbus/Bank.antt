-- ===== src/Io/Modbus/Bank.antt =====
-- RegisterBank: registers as pairs of big-endian bytes.
use py2to3_example_project.Prelude.{
  ℕ, zero, suc, ◌+◌, ◌-◌, ◌*◌, ◌/◌, ◌%◌, ◌≤◌, ◌<◌, ◌≡◌, refl, some, List, [], ◌∷◌, arith, length,
  ltb, ◌||◌, if◌then◌else◌, take, drop, get_elem?, length-take, length-drop,
}
use py2to3_example_project.Prelude.Py.{Raw, bytes, elements, Result, ok, raise, modbus_error}
use py2to3_example_project.Prelude.Struct.{unpack_u16, slice, slice_raw}

pub record RegisterBank : Type 0 where
  pub base_address : ℕ
  pub raw : Raw
  pub count : ℕ

unfoldable pub new_bank : ℕ → Raw → RegisterBank
new_bank base_address raw = record {
  base_address = base_address;
  raw = raw;
  count = length (elements raw) / 2;
}

-- The offset is an integer in the source: it is negative exactly below the base address.
unfoldable pub get_register : RegisterBank → ℕ → Result ℕ
unfolding unpack_u16
get_register bank address =
    let offset = (address - bank.base_address) * 2 in
    if ltb address bank.base_address || ltb (length (elements bank.raw)) (offset + 2)
    then raise modbus_error
    else unpack_u16 (slice_raw offset (offset + 2) bank.raw)

-- `get_register_view`, at or above the base address.
unfoldable pub get_register_view : RegisterBank → (start_addr count : ℕ) → List ℕ
get_register_view bank start_addr count =
    let offset = (start_addr - bank.base_address) * 2 in
    slice offset (offset + count * 2) (elements bank.raw)

-- The bytes of a list of registers, high byte first.
abbrev pub register_bytes : List ℕ → List ℕ
register_bytes [] = []
register_bytes (r ∷ rs) = (r / 256) ∷ (r % 256) ∷ register_bytes rs

length-register_bytes : (rs : List ℕ) → length (register_bytes rs) ≡ length rs * 2
length-register_bytes [] = refl
length-register_bytes (r ∷ rs) = omega (arith, length-register_bytes rs)

slice-register_bytes :
    (rs : List ℕ) (i : ℕ) {r : ℕ}
    → get_elem? rs i ≡ some r
    → take 2 (drop (i * 2) (register_bytes rs)) ≡ (r / 256) ∷ (r % 256) ∷ []
slice-register_bytes [] i e = cc
slice-register_bytes (x ∷ rs) zero e = ground arith
slice-register_bytes (x ∷ rs) (suc i) e =
    let step : suc i * 2 ≡ suc (suc (i * 2)) = omega arith in rw step (slice-register_bytes rs i e)

get_elem?-lt : (rs : List ℕ) (i : ℕ) {r : ℕ} → get_elem? rs i ≡ some r → i < length rs
get_elem?-lt [] i e = cc
get_elem?-lt (x ∷ rs) zero e = omega arith
get_elem?-lt (x ∷ rs) (suc i) e = omega (arith, get_elem?-lt rs i e)

-- A bank over the bytes of some registers gives each register back under its address.
pub get_register-new_bank :
    (base : ℕ) (rs : List ℕ) (i : ℕ) {r : ℕ}
    → get_elem? rs i ≡ some r
    → get_register (new_bank base (bytes (register_bytes rs))) (base + i) ≡ ok r
unfolding get_register new_bank
get_register-new_bank base rs i {r} e =
    let at : (base + i - base) * 2 ≡ i * 2 = omega arith in
    let two : i * 2 + 2 - i * 2 ≡ 2 = omega arith in
    rw at (
      rw two (
        ground (arith, slice-register_bytes rs i e, length-register_bytes rs, get_elem?-lt rs i e)))

unpack_u16-total : (cs : List ℕ) → length cs ≡ 2 → (r : ℕ) × (unpack_u16 (bytes cs) ≡ ok r)
unfolding unpack_u16
unpack_u16-total [] h = absurd (omega arith)
unpack_u16-total (a ∷ []) h = absurd (omega arith)
unpack_u16-total (a ∷ b ∷ []) h = (a * 256 + b, refl)
unpack_u16-total (a ∷ b ∷ c ∷ cs) h = absurd (omega arith)

get_register-inside :
    (bank : RegisterBank) (cs : List ℕ) (address : ℕ)
    → bank.raw ≡ bytes cs
    → bank.base_address ≤ address
    → address < bank.base_address + length cs / 2
    → (r : ℕ) × (get_register bank address ≡ ok r)
unfolding get_register
get_register-inside bank cs address e lo hi =
    let offset = (address - bank.base_address) * 2 in
    let (r, got) =
      unpack_u16-total (slice offset (offset + 2) cs) (
        omega (arith, length-take (offset + 2 - offset) (drop offset cs), length-drop offset cs)) in
    (r, ground arith)

-- On a bank of bytes a read succeeds exactly for the addresses from the base up to the number of
-- whole registers; below and above it raises ModbusError.
pub get_register_range :
    (bank : RegisterBank) (cs : List ℕ) (address : ℕ)
    → bank.raw ≡ bytes cs
    → (bank.base_address ≤ address
        → address < bank.base_address + length cs / 2
        → (r : ℕ) × (get_register bank address ≡ ok r))
      × (address < bank.base_address → get_register bank address ≡ raise modbus_error)
      × (bank.base_address + length cs / 2 ≤ address
          → get_register bank address ≡ raise modbus_error)
unfolding get_register
get_register_range bank cs address e =
    (get_register-inside bank cs address e, (λ h. ground arith), λ h. ground arith)
