-- ===== src/Data/Analyzer/Tokens.antt =====
-- Tokens, stop words and fingerprints of src/data_processing/text_analyzer.py. The character
-- classes, the change of case, the encoder and the hash are Python's.
use py2to3_example_project.Prelude.{
  ℕ, zero, suc, Bool, false, ◌||◌, ◌&&◌, some, List, [], ◌∷◌, map, ◌==◌, leb, not, if◌then◌else◌,
  length, drop,
}
use py2to3_example_project.Prelude.Text.{codes}
use py2to3_example_project.Prelude.Str.{Str, same_str, rstrip}
use py2to3_example_project.Data.Logs.Regex.{Matcher, one, plus, star, either, group, ◌then_match◌}

pub record Python : Type 0 where
  pub is_word : ℕ → Bool
  pub is_space : ℕ → Bool
  pub lower : Str → Str
  pub encode : Str → List ℕ
  pub md5 : List ℕ → Str

-- `word in words`
unfoldable pub member : Str → List Str → Bool
unfolding same_str
member w [] = false
member w (v ∷ vs) = same_str w v || member w vs

abbrev pub stop_words : List Str
stop_words = map codes (
    "the" ∷ "a" ∷ "an" ∷ "is" ∷ "was" ∷ "are" ∷ "were" ∷ "be" ∷ "been" ∷ "being" ∷ "have" ∷ "has"
    ∷ "had" ∷ "do" ∷ "does" ∷ "did" ∷ "will" ∷ "would" ∷ "could" ∷ "should" ∷ "may" ∷ "might"
    ∷ "shall" ∷ "can" ∷ "of" ∷ "in" ∷ "to" ∷ "for" ∷ "with" ∷ "on" ∷ "at" ∷ "from" ∷ "by" ∷ "up"
    ∷ "about" ∷ "into" ∷ "through" ∷ "during" ∷ "before" ∷ "after" ∷ "and" ∷ "but" ∷ "or" ∷ "nor"
    ∷ "not" ∷ "no" ∷ "so" ∷ "if" ∷ "then" ∷ "than" ∷ "too" ∷ "very" ∷ "just" ∷ "also" ∷ "it" ∷ "its"
    ∷ "this" ∷ "that" ∷ "these" ∷ "those" ∷ "he" ∷ "she" ∷ "they" ∷ "we" ∷ "you" ∷ [])

abbrev pub min_keyword_length : ℕ
min_keyword_length = 3

module _ (py : Python) where
  -- `[\w][\w\-]*[\w]|[\w]+`
  unfoldable pub token_pattern : Matcher
  unfolding one plus star group
  token_pattern = group (
      either
        (one py.is_word then_match star (λ c. py.is_word c || c == b'-') then_match one py.is_word)
        (plus py.is_word))

  -- `findall`: after a match it goes on behind it, else one character on.
  unfoldable pub find_tokens : (fuel : ℕ) → Str → List Str
  unfolding token_pattern
  find_tokens zero s = []
  find_tokens (suc fuel) [] = []
  find_tokens (suc fuel) (c ∷ s) = elim (token_pattern (λ rest g. some g) (c ∷ s) []) [
    | some (some t ∷ g) ↦ t ∷ find_tokens fuel (drop (length t) (c ∷ s))
    | _ ↦ find_tokens fuel s
  ]

  unfoldable pub is_keyword : Str → Bool
  unfolding member
  is_keyword t = not (member t stop_words) && leb min_keyword_length (length t)

  unfoldable pub keep_keywords : List Str → List Str
  unfolding is_keyword
  keep_keywords [] = []
  keep_keywords (t ∷ ts) = let rest = keep_keywords ts in if is_keyword t then t ∷ rest else rest

  -- The tokens of a text in lower case that may be keywords.
  unfoldable pub keyword_tokens : Str → List Str
  unfolding find_tokens keep_keywords
  keyword_tokens s = keep_keywords (map py.lower (find_tokens (length s) s))

  unfoldable pub lstrip : Str → Str
  lstrip [] = []
  lstrip (c ∷ s) = if py.is_space c then lstrip s else c ∷ s

  -- `re.sub(r"\s+", " ", s)`, where `spaced` says that the last character was a space.
  unfoldable pub collapse : (spaced : Bool) → Str → Str
  collapse spaced [] = []
  collapse spaced (c ∷ s) =
      let rest = collapse (py.is_space c) s in
      if py.is_space c then if spaced then rest else b' ' ∷ rest else c ∷ rest

  unfoldable pub normalised : Str → Str
  unfolding lstrip collapse rstrip
  normalised s = collapse false (rstrip py.is_space (lstrip (py.lower s)))

  pub record TextFingerprint : Type 0 where
    pub digest : Str
    pub text_length : ℕ

  unfoldable pub fingerprint : Str → TextFingerprint
  unfolding normalised
  fingerprint s = record {
    digest = py.md5 (py.encode (normalised s));
    text_length = length (normalised s);
  }

  unfoldable pub fingerprint_matches : TextFingerprint → TextFingerprint → Bool
  unfolding same_str
  fingerprint_matches f g = same_str f.digest g.digest

  unfoldable pub batch_fingerprint : ℕ → List Str → List (ℕ × TextFingerprint)
  unfolding fingerprint
  batch_fingerprint i [] = []
  batch_fingerprint i (s ∷ ss) = (i, fingerprint s) ∷ batch_fingerprint (suc i) ss
