-- ===== src/Data/Mainframe/Blocks.antt =====
-- How the parse of a file cuts it into records, and what the cache gives back.
use Prim.Native.String.{String}
use py2to3_example_project.Prelude.{
  ℕ, zero, suc, ◌+◌, ◌<◌, ◌≡◌, refl, sym, ap, ◌∙◌, inl, inr, true, Option, none, some, List, [],
  ◌∷◌, ◌++◌, arith, ltb, if◌then◌else◌, length, take, drop, take-append-drop, length-take,
  length-drop, append_assoc, append-nil, Bool-cases,
}
use py2to3_example_project.Prelude.Text.{String_discrete}
use py2to3_example_project.Prelude.Dict.{lookup-insert_self}
use py2to3_example_project.Prelude.Py.{bytes, elements, ok}
use py2to3_example_project.Core.Types.{increment}
use py2to3_example_project.Data.Mainframe.Layout.{CopybookLayout}
use py2to3_example_project.Data.Mainframe.Records.{MainframeRecord, Library, parse_record}
use py2to3_example_project.Data.Mainframe.Records.Errors.{parse_record-raw_bytes}
use py2to3_example_project.Data.Mainframe.Files.{
  pickled, complete, Disk, Parser, Progress, add_record, parse_loop, parse_data, parse_file,
  load_cache, save_cache,
}

-- The bytes of all records, one after the other.
abbrev pub bytes_of : {F : Type 0} → List (MainframeRecord F) → List ℕ
bytes_of [] = []
bytes_of (r ∷ rs) = elements r.raw_bytes ++ bytes_of rs

abbrev pub AllSized : {F : Type 0} → ℕ → List (MainframeRecord F) → Type 0
AllSized n [] = Unit
AllSized n (r ∷ rs) = (length (elements r.raw_bytes) ≡ n) × AllSized n rs

module _ {F : Type 0} where
  bytes_of-snoc :
      (rs : List (MainframeRecord F)) (r : MainframeRecord F)
      → bytes_of (rs ++ r ∷ []) ≡ bytes_of rs ++ elements r.raw_bytes
  bytes_of-snoc [] r = append-nil (elements r.raw_bytes)
  bytes_of-snoc (s ∷ rs) r =
      ap (λ bs. elements s.raw_bytes ++ bs) (bytes_of-snoc rs r)
      ∙ sym (append_assoc (elements s.raw_bytes) (bytes_of rs) (elements r.raw_bytes))

  AllSized-snoc :
      (n : ℕ) (rs : List (MainframeRecord F)) (r : MainframeRecord F)
      → AllSized n rs
      → length (elements r.raw_bytes) ≡ n
      → AllSized n (rs ++ r ∷ [])
  AllSized-snoc n [] r a e = (e, tt)
  AllSized-snoc n (s ∷ rs) r a e = (a.0, AllSized-snoc n rs r a.1 e)

module _ {F : Type 0} (lib : Library F) (layout : CopybookLayout) where
  -- The file is the bytes of the records, and a rest that is shorter than a record.
  abbrev pub Cut : Progress F → List ℕ → Option (Progress F) → Type 0
  Cut s input result =
      (t : Progress F) × (rest : List ℕ) × (result ≡ some t)
      × (bytes_of t.records ++ rest ≡ bytes_of s.records ++ input)
      × (length rest < layout.record_length)
      × AllSized layout.record_length t.records

  add_record-bytes_of :
      (s : Progress F) (record_num : ℕ) (raw : List ℕ)
      → bytes_of (add_record lib layout s record_num raw).records ≡ bytes_of s.records ++ raw
  unfolding add_record
  add_record-bytes_of s record_num raw =
      bytes_of-snoc s.records (parse_record lib layout s.failed_count record_num (bytes raw)).0
      ∙ ap (λ r. bytes_of s.records ++ elements r)
          (parse_record-raw_bytes lib layout s.failed_count record_num (bytes raw))

  add_record-AllSized :
      (s : Progress F) (record_num : ℕ) (raw : List ℕ)
      → AllSized layout.record_length s.records
      → length raw ≡ layout.record_length
      → AllSized layout.record_length (add_record lib layout s record_num raw).records
  unfolding add_record
  add_record-AllSized s record_num raw a e =
      AllSized-snoc layout.record_length s.records
        (parse_record lib layout s.failed_count record_num (bytes raw)).0 a
        (ap (λ r. length (elements r))
            (parse_record-raw_bytes lib layout s.failed_count record_num (bytes raw))
          ∙ e)

  -- What the loop does, by the block that it reads first.
  parse_loop-cases :
      (fuel : ℕ) (s : Progress F) (record_num : ℕ) (input raw : List ℕ)
      → take layout.record_length input ≡ raw
      → parse_loop lib (suc fuel) layout s record_num input ≡ (
          if ltb 0 (length raw)
          then (if ltb (length raw) layout.record_length
              then some (record s { failed_count = increment s.failed_count 1 })
              else parse_loop lib fuel layout
                  (add_record lib layout s record_num (take layout.record_length input))
                  (record_num + 1)
                  (drop layout.record_length input))
          else some s)
  unfolding parse_loop
  parse_loop-cases fuel s record_num input [] e = rw (e, parse_loop) refl
  parse_loop-cases fuel s record_num input (b ∷ bs) e = rw (e, parse_loop) (ground arith)

  parse_loop_lem :
      (fuel : ℕ) (s : Progress F) (record_num : ℕ) (input : List ℕ)
      → 0 < layout.record_length
      → length input < fuel
      → AllSized layout.record_length s.records
      → Cut s input (parse_loop lib fuel layout s record_num input)
  parse_loop_lem zero s record_num input p f a = absurd (omega arith)
  parse_loop_lem (suc fuel) s record_num input p f a =
      let n = layout.record_length in
      let raw = take n input in
      let cases = parse_loop-cases fuel s record_num input raw refl in
      let size = length-take n input in
      elim (Bool-cases (ltb 0 (length raw))) [
        | inr done ↦ (s, input, ground arith, refl, ground arith, a)
        | inl some_left ↦ elim (Bool-cases (ltb (length raw) n)) [
          | inl short ↦ (
            record s { failed_count = increment s.failed_count 1 },
            input,
            ground arith,
            refl,
            ground arith,
            a,
          )
          | inr full ↦
              let s' = add_record lib layout s record_num raw in
              let (t, rest, result, joined, small, sized) =
                parse_loop_lem fuel s' (record_num + 1) (drop n input) p
                  (ground (arith, length-drop n input))
                  (add_record-AllSized s record_num raw a (ground arith)) in
              (
                t,
                rest,
                ground arith,
                joined
                    ∙ ap (λ bs. bs ++ drop n input) (add_record-bytes_of s record_num raw)
                    ∙ append_assoc (bytes_of s.records) raw (drop n input)
                    ∙ ap (λ bs. bytes_of s.records ++ bs) (take-append-drop n input),
                small,
                sized,
              )
        ]
      ]

  -- The parse of a file ends, and cuts it into records of exactly the layout's length; what is left
  -- over is shorter than a record. The records' bytes and the rest are the file again. The layout's
  -- length must be above 0.
  pub parse_data_lem :
      (p : Parser F) (input : List ℕ)
      → p.layout ≡ layout
      → 0 < layout.record_length
      → (t : Progress F) × (rest : List ℕ) × (parse_data lib p input ≡ some t)
        × (bytes_of t.records ++ rest ≡ input)
        × (length rest < layout.record_length)
        × AllSized layout.record_length t.records
  unfolding parse_data
  parse_data_lem p input e pos =
      let s : Progress F = record {
        records = [];
        parsed_count = p.record_count;
        failed_count = p.error_count;
      } in
      let (t, rest, result, joined, small, sized) =
        parse_loop_lem (suc (length input)) s 0 input pos (omega arith) tt in
      (
        t,
        rest,
        (λ i. parse_loop lib (suc (length input)) (e i) s 0 input) ∙ result,
        joined,
        small,
        sized,
      )

-- A file that exists, and whose records were written to the cache, is not parsed again: the next
-- parse returns the same records and changes nothing.
pub parse_file-cached :
    {F : Type 0} (lib : Library F) (disk : Disk) (p : Parser F) (path : String) (input : List ℕ)
    (records : List (MainframeRecord F))
    → p.has_cache ≡ true
    → disk.content path ≡ some input
    → disk.save_of path ≡ complete
    → parse_file lib disk (save_cache disk p path records) path
      ≡ some (save_cache disk p path records, ok records, none)
unfolding parse_file load_cache save_cache
parse_file-cached lib disk p path input records c f w =
    ground
      (arith, lookup-insert_self String_discrete (disk.cache_key path) (pickled records) p.cache)
