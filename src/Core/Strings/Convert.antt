-- ===== src/Core/Strings/Convert.antt =====
-- The conversions of src/core/string_helpers.py. The codecs are Python's.
use Prim.Native.String.{String}
use py2to3_example_project.Prelude.{
  ℕ, ◌≡◌, refl, Bool, false, Option, none, some, List, [], ◌∷◌, ◌++◌, if◌then◌else◌, not, ◌&&◌,
  ◌||◌, ◌==◌,
}
use py2to3_example_project.Prelude.Str.{Str, same_str}
use py2to3_example_project.Prelude.Py.{
  Raw, bytes, text, Result, ok, raise, ◌>>=◌, unicode_error, Exc,
}

-- A value: text, bytes, or something else with what `str` makes of it.
pub data Part : Type 0 where
  raw : Raw → Part
  other : (shown : Str) → Part

-- Decoding strictly and with replacement, and encoding strictly and with replacement.
pub record Codecs : Type 0 where
  pub decode : (encoding : String) → List ℕ → Result Str
  pub decode_replace : (encoding : String) → List ℕ → Str
  pub encode : (encoding : String) → Str → Result (List ℕ)
  pub encode_replace : (encoding : String) → Str → List ℕ

abbrev pub encoding_candidates : List String
encoding_candidates = "utf-8" ∷ "latin-1" ∷ "cp1252" ∷ "shift_jis" ∷ "iso-8859-15" ∷ "ascii" ∷ []

-- What a codec of the candidates raises is caught.
unfoldable pub first_decoding : Codecs → List String → List ℕ → Option String
first_decoding c [] bs = none
first_decoding c (enc ∷ encs) bs = elim (c.decode enc bs) [
  | ok s ↦ some enc
  | raise e ↦ first_decoding c encs bs
]

unfoldable pub detect_encoding : Codecs → Raw → String
unfolding first_decoding
detect_encoding c (text s) = "utf-8"
detect_encoding c (bytes bs) = elim (first_decoding c encoding_candidates bs) [
  | none ↦ "latin-1"
  | some enc ↦ enc
]

unfoldable pub safe_decode : Codecs → Part → (encoding : String) → Str
safe_decode c (raw (text s)) encoding = s
safe_decode c (raw (bytes bs)) encoding = c.decode_replace encoding bs
safe_decode c (other shown) encoding = shown

unfoldable pub safe_encode : Codecs → Part → (encoding : String) → Raw
safe_encode c (raw (bytes bs)) encoding = bytes bs
safe_encode c (raw (text s)) encoding = bytes (c.encode_replace encoding s)
safe_encode c (other shown) encoding = text shown

unfoldable pub to_platform_string : Codecs → Part → (encoding : String) → Result Str
to_platform_string c (raw (text s)) encoding = ok s
to_platform_string c (raw (bytes bs)) encoding = c.decode encoding bs
to_platform_string c (other shown) encoding = ok shown

unfoldable pub safe_concat : Codecs → List Part → Str
unfolding safe_decode
safe_concat c [] = []
safe_concat c (p ∷ ps) = safe_decode c p "utf-8" ++ safe_concat c ps

abbrev as_text : Codecs → Raw → Str
as_text c (text s) = s
as_text c (bytes bs) = c.decode_replace "utf-8" bs

-- The codecs raise UnicodeError on what they cannot encode or decode.
unfoldable pub validate_roundtrip : Codecs → Raw → (encoding : String) → Result Bool
unfolding same_str
validate_roundtrip c t encoding =
    let s = as_text c t in
    let outcome : Result Bool =
      (c.encode encoding s >>= λ bs. c.decode encoding bs >>= λ back. ok (same_str back s)) in
    elim outcome [ ok b ↦ ok b | raise unicode_error ↦ ok false | raise e ↦ raise e ]

-- `is_control` is the category C of unicodedata, `nfc` its normal form.
unfoldable pub without_controls : (is_control : ℕ → Bool) → Str → Str
without_controls is_control [] = []
without_controls is_control (c ∷ s) =
    let rest = without_controls is_control s in
    if is_control c && not (c == 9 || c == 10) then rest else c ∷ rest

unfoldable pub normalise_sensor_label :
    Codecs → (nfc : Str → Str) → (is_control : ℕ → Bool) → (strip : Str → Str) → Raw → Str
unfolding without_controls
normalise_sensor_label c nfc is_control strip label =
    strip (without_controls is_control (nfc (as_text c label)))

-- The candidates after the second are never found, since latin-1 decodes all bytes: what is not
-- UTF-8 is taken for latin-1, and a text for UTF-8.
pub detect_encoding_lem :
    (c : Codecs) (bs : List ℕ) (s latin : Str) (raised : Exc)
    → c.decode "latin-1" bs ≡ ok latin
    → (detect_encoding c (text s) ≡ "utf-8")
      × (c.decode "utf-8" bs ≡ ok s → detect_encoding c (bytes bs) ≡ "utf-8")
      × (c.decode "utf-8" bs ≡ raise raised → detect_encoding c (bytes bs) ≡ "latin-1")
detect_encoding_lem c bs s latin raised h = (
  unfold detect_encoding in refl,
  (λ e. unfold detect_encoding in rw e refl),
  (λ e. unfold detect_encoding in rw (e, h) refl),
)
