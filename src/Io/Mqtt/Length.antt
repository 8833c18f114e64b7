-- ===== src/Io/Mqtt/Length.antt =====
-- The remaining length of a packet: `_el` writes it, `_dl` reads it.
use native.Mathlib.Nat.{pow-suc}
use py2to3_example_project.Prelude.{
  ℕ, zero, suc, ◌+◌, ◌*◌, ◌/◌, ◌%◌, ◌^◌, ◌≤◌, ◌<◌, ◌≡◌, refl, sym, ap, ◌∙◌, inl, inr, true, false,
  Option, none, some, List, [], ◌∷◌, ◌++◌, arith, ltb, leb, if◌then◌else◌, Bool-cases,
}
use py2to3_example_project.Prelude.Py.{Raw, bytes, text, Result, ok, raise, type_error}

-- `out += struct.pack("B", b)`, where `out` starts as a text.
append_byte : Raw → ℕ → Result Raw
append_byte (text cs) b = raise type_error
append_byte (bytes cs) b = ok (bytes (cs ++ b ∷ []))

-- The loop of `_el`; a round divides the number by 128. `none` means that the fuel ran out.
el_loop : ℕ → Raw → ℕ → Option (Result Raw)
unfolding append_byte
el_loop zero out n = none
el_loop (suc fuel) out n =
    let b = if ltb 0 (n / 128) then n % 128 + 128 else n % 128 in
    elim (append_byte out b) [
      | raise e ↦ some (raise e)
      | ok out' ↦ if ltb 0 (n / 128) then el_loop fuel out' (n / 128) else some (ok out')
    ]

unfoldable pub el : ℕ → Option (Result Raw)
unfolding el_loop
el n = el_loop (suc n) (text []) n

-- The bytes that the loop is meant to write.
unfoldable pub length_bytes : (fuel n : ℕ) → List ℕ
length_bytes zero n = []
length_bytes (suc fuel) n =
    let rest = length_bytes fuel (n / 128) in
    if ltb 0 (n / 128) then (n % 128 + 128) ∷ rest else (n % 128) ∷ []

-- The loop of `_dl`, for `rounds` more bytes with the factor `m`. The socket gives one byte a call,
-- whose `ord` is a number; at the end of the stream the length is 0.
dl_loop : (rounds m v : ℕ) → List ℕ → ℕ × List ℕ
dl_loop zero m v stream = (v, stream)
dl_loop (suc rounds) m v [] = (0, [])
dl_loop (suc rounds) m v (e ∷ stream) =
    let v' = v + e % 128 * m in
    let rest = dl_loop rounds (m * 128) v' stream in
    if leb 128 (e % 256) then rest else (v', stream)

unfoldable pub dl : List ℕ → ℕ × List ℕ
unfolding dl_loop
dl stream = dl_loop 4 1 0 stream

-- `_el` raises TypeError for every length.
pub el_fails : (n : ℕ) → el n ≡ some (raise type_error)
unfolding el el_loop append_byte
el_fails n = refl

dl_loop-length_bytes :
    (fuel n m v : ℕ) (stream : List ℕ)
    → n < 128 ^ fuel
    → fuel ≤ 4
    → dl_loop fuel m v (length_bytes fuel n ++ stream) ≡ (v + n * m, stream)
unfolding dl_loop length_bytes
dl_loop-length_bytes zero n m v stream h k =
    let nothing : n ≡ 0 = omega arith in
    let same : v ≡ v + 0 * m = omega arith in
    (λ i. (same i, stream)) ∙ ap (λ (t : ℕ). (v + t * m, stream)) (sym nothing)
dl_loop-length_bytes (suc fuel) n m v stream h k =
    let digits : n ≡ n / 128 * 128 + n % 128 = omega arith in
    let product : n * m ≡ (n / 128 * 128 + n % 128) * m = ap (λ (t : ℕ). t * m) digits in
    elim (Bool-cases (ltb 0 (n / 128))) [
      | inl more ↦
          let bit : leb 128 ((n % 128 + 128) % 256) ≡ true = ground arith in
          let low : (n % 128 + 128) % 128 ≡ n % 128 = omega arith in
          let whole : v + n % 128 * m + n / 128 * (m * 128) ≡ v + n * m = omega (arith, product) in
          let ih =
            dl_loop-length_bytes fuel (n / 128) (m * 128) (v + n % 128 * m) stream
              (omega (arith, pow-suc 128 fuel)) (omega arith) in
          rw (more, bit, low) (ih ∙ λ i. (whole i, stream))
      | inr last ↦
          let bit : leb 128 (n % 128 % 256) ≡ false = ground arith in
          let low : n % 128 % 128 ≡ n = ground arith in rw (last, bit, low) refl
    ]

-- What MQTT writes for a length below 2 ^ 28, `_dl` reads back, and it leaves the rest of the
-- stream alone.
pub dl-length_bytes :
    (n : ℕ) (stream : List ℕ) → n < 268435456 → dl (length_bytes 4 n ++ stream) ≡ (n, stream)
unfolding dl
dl-length_bytes n stream h =
    let one : 0 + n * 1 ≡ n = omega arith in
    dl_loop-length_bytes 4 n 1 0 stream h (omega arith) ∙ (λ i. (one i, stream))
