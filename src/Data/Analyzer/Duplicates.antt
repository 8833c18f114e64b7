-- ===== src/Data/Analyzer/Duplicates.antt =====
-- TextAnalyzer.deduplicate of src/data_processing/text_analyzer.py.
use py2to3_example_project.Prelude.{
  ◌≡◌, refl, sym, Bool, true, false, List, [], ◌∷◌, arith, if◌then◌else◌, Bool-cases, inl, inr,
}
use mathlib.Core.Path.{subst}
use py2to3_example_project.Prelude.Str.{Str, same_str_refl}
use py2to3_example_project.Data.Analyzer.Tokens.{Python, member, fingerprint}

module _ (py : Python) where
  abbrev pub digest_of : Str → Str
  digest_of s = (fingerprint py s).digest

  -- `list(filter(is_unique, texts))`, with the digests that were seen.
  unfoldable pub unique_from : (seen : List Str) → List Str → List Str
  unfolding member fingerprint
  unique_from seen [] = []
  unique_from seen (s ∷ ss) =
      let other = unique_from seen ss in
      let fresh = unique_from (digest_of s ∷ seen) ss in
      if member (digest_of s) seen then other else s ∷ fresh

  unfoldable pub deduplicate : List Str → List Str
  unfolding unique_from
  deduplicate ss = unique_from [] ss

  -- No digest stands twice, and none of them was seen.
  abbrev pub AllFresh : (seen : List Str) → List Str → Type 0
  AllFresh seen [] = Unit
  AllFresh seen (s ∷ ss) = (member (digest_of s) seen ≡ false) × AllFresh (digest_of s ∷ seen) ss

  -- The digest of every text was seen, or is that of a kept text.
  abbrev pub has_digest : Str → (seen kept : List Str) → Bool
  has_digest d seen [] = member d seen
  has_digest d seen (s ∷ ss) = has_digest d (digest_of s ∷ seen) ss

  abbrev pub AllCovered : (seen kept : List Str) → List Str → Type 0
  AllCovered seen kept [] = Unit
  AllCovered seen kept (s ∷ ss) =
      (has_digest (digest_of s) seen kept ≡ true) × AllCovered seen kept ss

  unique_from-AllFresh : (seen ss : List Str) → AllFresh seen (unique_from seen ss)
  unfolding unique_from
  unique_from-AllFresh seen [] = tt
  unique_from-AllFresh seen (s ∷ ss) = elim (Bool-cases (member (digest_of s) seen)) [
    | inl old ↦ rw old (unique_from-AllFresh seen ss)
    | inr new ↦ rw new (new, unique_from-AllFresh (digest_of s ∷ seen) ss)
  ]

  has_digest-seen :
      (d : Str) (seen kept : List Str) → member d seen ≡ true → has_digest d seen kept ≡ true
  has_digest-seen d seen [] h = h
  has_digest-seen d seen (s ∷ ss) h =
      has_digest-seen d (digest_of s ∷ seen) ss (unfold member in ground arith)

  AllCovered-cons :
      (s : Str) (seen kept ss : List Str)
      → AllCovered (digest_of s ∷ seen) kept ss
      → AllCovered seen (s ∷ kept) ss
  AllCovered-cons s seen kept [] h = tt
  AllCovered-cons s seen kept (t ∷ ss) h = (h.0, AllCovered-cons s seen kept ss h.1)

  member_head : (d : Str) (seen : List Str) → member d (d ∷ seen) ≡ true
  unfolding member
  member_head d seen = rw (same_str_refl d)

  unique_from_old :
      (seen : List Str) (s : Str) (ss : List Str)
      → member (digest_of s) seen ≡ true
      → unique_from seen (s ∷ ss) ≡ unique_from seen ss
  unfolding unique_from
  unique_from_old seen s ss h = rw h

  unique_from_new :
      (seen : List Str) (s : Str) (ss : List Str)
      → member (digest_of s) seen ≡ false
      → unique_from seen (s ∷ ss) ≡ s ∷ unique_from (digest_of s ∷ seen) ss
  unfolding unique_from
  unique_from_new seen s ss h = rw h

  unique_from-AllCovered : (seen ss : List Str) → AllCovered seen (unique_from seen ss) ss
  unique_from-AllCovered seen [] = tt
  unique_from-AllCovered seen (s ∷ ss) = elim (Bool-cases (member (digest_of s) seen)) [
    | inl old ↦
        subst (λ kept. AllCovered seen kept (s ∷ ss)) (sym (unique_from_old seen s ss old))
          (
            has_digest-seen (digest_of s) seen (unique_from seen ss) old,
            unique_from-AllCovered seen ss,
          )
    | inr new ↦
        let kept = unique_from (digest_of s ∷ seen) ss in
        subst (λ all. AllCovered seen all (s ∷ ss)) (sym (unique_from_new seen s ss new))
          (
            has_digest-seen (digest_of s) (digest_of s ∷ seen) kept
                (member_head (digest_of s) seen),
            AllCovered-cons s seen kept ss (unique_from-AllCovered (digest_of s ∷ seen) ss),
          )
  ]

  -- Among texts that are all fresh nothing is removed.
  unique_from-fresh : (seen ss : List Str) → AllFresh seen ss → unique_from seen ss ≡ ss
  unfolding unique_from
  unique_from-fresh seen [] h = refl
  unique_from-fresh seen (s ∷ ss) h = rw (h.0, unique_from-fresh (digest_of s ∷ seen) ss h.1) refl

  -- Of the texts with one digest a deduplication keeps one: no two kept texts share a digest, every
  -- text has the digest of a kept one, and deduplicating again changes nothing.
  pub deduplicate_lem :
      (ss : List Str)
      → AllFresh [] (deduplicate ss)
        × AllCovered [] (deduplicate ss) ss
        × (deduplicate (deduplicate ss) ≡ deduplicate ss)
  unfolding deduplicate
  deduplicate_lem ss = (
    unique_from-AllFresh [] ss,
    unique_from-AllCovered [] ss,
    unique_from-fresh [] (unique_from [] ss) (unique_from-AllFresh [] ss),
  )
