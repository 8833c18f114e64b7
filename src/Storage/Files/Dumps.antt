-- ===== src/Storage/Files/Dumps.antt =====
-- store_sensor_dump of src/storage/file_store.py: the format of a dump, and the frames in it.
use py2to3_example_project.Prelude.{
  ℕ, zero, suc, ◌+◌, ◌*◌, ◌/◌, ◌%◌, ◌^◌, ◌<◌, ◌≡◌, refl, ap, ◌∙◌, Bool, true, false, Option, none,
  some, List, [], ◌∷◌, ◌++◌, arith, ltb, if◌then◌else◌, length, take, drop, append_assoc, lt→ltb,
}
use py2to3_example_project.Prelude.Str.{Str, Key_discrete, take_all}
use py2to3_example_project.Prelude.Dict.{insert}
use py2to3_example_project.Prelude.Py.{Result, ok, raise, ◌>>=◌, struct_error, storage_error}
use py2to3_example_project.Prelude.Struct.{pack_u16}
use py2to3_example_project.Storage.Files.Store.{Files, dir_raw_dumps, file_permissions_restricted}

-- `struct.pack(">I", n)`
unfoldable pub pack_u32 : ℕ → Result (List ℕ)
pack_u32 n =
    if ltb n (2 ^ 32)
    then ok (n / 2 ^ 24 ∷ n / 2 ^ 16 % 256 ∷ n / 256 % 256 ∷ n % 256 ∷ [])
    else raise struct_error

-- A reading as the dump writes it: its tag, encoded, and the bytes of `>d` of its timestamp.
pub record Reading : Type 0 where
  pub tag : List ℕ
  pub timestamp : List ℕ
  pub quality : ℕ

unfoldable pub dump_frames : List (List ℕ) → Result (List ℕ)
unfolding pack_u32
dump_frames [] = ok []
dump_frames (frame ∷ frames) = do
  size ← pack_u32 (length frame)
  rest ← dump_frames frames
  ok (size ++ (frame ++ rest))

unfoldable pub dump_readings : List Reading → Result (List ℕ)
unfolding pack_u32 pack_u16
dump_readings [] = ok []
dump_readings (r ∷ rs) = do
  size ← pack_u16 (length r.tag)
  quality ← pack_u32 r.quality
  rest ← dump_readings rs
  ok (size ++ (r.tag ++ (r.timestamp ++ (quality ++ rest))))

unfoldable pub dump : List (List ℕ) → List Reading → Result (List ℕ)
unfolding dump_frames dump_readings pack_u32
dump raw_frames readings = do
  frame_count ← pack_u32 (length raw_frames)
  frames ← dump_frames raw_frames
  reading_count ← pack_u32 (length readings)
  tail ← dump_readings readings
  ok (frame_count ++ (frames ++ (reading_count ++ tail)))

-- `fname` is the name from the sensor and the clock. What is written before a struct.error stays in
-- the file; `partial` stands for it.
unfoldable pub store_sensor_dump :
    (opens : Bool)
    → (now : ℕ) → Files
    → (fname : Str) → List Reading
    → (raw_frames : List (List ℕ)) → (partial : List ℕ) → Files × Result (Unit {0})
unfolding dump
store_sensor_dump false now fs fname readings raw_frames partial = (fs, raise storage_error)
store_sensor_dump true now fs fname readings raw_frames partial = elim (dump raw_frames readings) [
  | raise e ↦ (
    insert Key_discrete (dir_raw_dumps, fname)
        (record { content = partial; mtime = now; mode = file_permissions_restricted }) fs,
    raise storage_error,
  )
  | ok bs ↦ (
    insert Key_discrete (dir_raw_dumps, fname)
        (record { content = bs; mtime = now; mode = file_permissions_restricted }) fs,
    ok tt,
  )
]

-- A reader of the format: a number of four bytes, and a count of frames, each after its size.
abbrev pub number : List ℕ → Option (ℕ × List ℕ)
number (a ∷ b ∷ c ∷ d ∷ rest) = some (((a * 256 + b) * 256 + c) * 256 + d, rest)
number _ = none

abbrev pub read_frames : ℕ → List ℕ → Option (List (List ℕ) × List ℕ)
read_frames zero bs = some ([], bs)
read_frames (suc n) bs = elim (number bs) [
  | none ↦ none
  | some (size, rest) ↦ elim (read_frames n (drop size rest)) [
    | none ↦ none
    | some (frames, end) ↦ some (take size rest ∷ frames, end)
  ]
]

-- Every frame is shorter than 2 ^ 32 bytes.
abbrev pub Fit : List (List ℕ) → Type 0
Fit [] = Unit
Fit (frame ∷ frames) = (length frame < 2 ^ 32) × Fit frames

abbrev pub u32 : ℕ → List ℕ
u32 n = n / 2 ^ 24 ∷ n / 2 ^ 16 % 256 ∷ n / 256 % 256 ∷ n % 256 ∷ []

pack_u32_lem : (n : ℕ) → n < 2 ^ 32 → pack_u32 n ≡ ok (u32 n)
unfolding pack_u32
pack_u32_lem n h = rw (lt→ltb n (2 ^ 32) h)

number-u32 : (n : ℕ) (rest : List ℕ) → n < 2 ^ 32 → number (u32 n ++ rest) ≡ some (n, rest)
number-u32 n rest h =
    let value : ((n / 2 ^ 24 * 256 + n / 2 ^ 16 % 256) * 256 + n / 256 % 256) * 256 + n % 256 ≡ n =
      omega arith in
    ap (λ (m : ℕ). some (m, rest)) value

drop_all : (s t : List ℕ) → drop (length s) (s ++ t) ≡ t
drop_all [] t = refl
drop_all (c ∷ s) t = drop_all s t

read_frames_cons :
    (n : ℕ) (bs frame tail end : List ℕ) (frames : List (List ℕ))
    → number bs ≡ some (length frame, frame ++ tail)
    → read_frames n tail ≡ some (frames, end)
    → read_frames (suc n) bs ≡ some (frame ∷ frames, end)
read_frames_cons n bs frame tail end frames p q =
    rw (read_frames, p, drop_all frame tail, q, take_all frame tail) refl

dump_frames_lem :
    (frames : List (List ℕ))
    → Fit frames
    → (bs : List ℕ) × (dump_frames frames ≡ ok bs)
      × ((rest : List ℕ) → read_frames (length frames) (bs ++ rest) ≡ some (frames, rest))
unfolding dump_frames
dump_frames_lem [] h = ([], refl, λ rest. refl)
dump_frames_lem (frame ∷ frames) h =
    let (bs, dumped, back) = dump_frames_lem frames h.1 in
    (
      u32 (length frame) ++ (frame ++ bs),
      (λ i. pack_u32_lem (length frame) h.0 i >>= λ size.
          dumped i >>= λ rest. ok (size ++ (frame ++ rest))),
      λ rest.
          read_frames_cons (length frames) ((u32 (length frame) ++ (frame ++ bs)) ++ rest) frame
            (bs ++ rest) rest frames
            (number-u32 (length frame) ((frame ++ bs) ++ rest) h.0
              ∙ ap (λ (t : List ℕ). some (length frame, t)) (append_assoc frame bs rest))
            (back rest),
    )

-- A dump that is written starts with the number of its raw frames and then holds the frames: a
-- reader of the format gets all of them back in order, and what is left are the readings, after
-- their number.
pub read_frames-dump :
    (raw_frames : List (List ℕ)) (readings : List Reading) {tail : List ℕ}
    → length raw_frames < 2 ^ 32
    → Fit raw_frames
    → length readings < 2 ^ 32
    → dump_readings readings ≡ ok tail
    → (bs rest : List ℕ) × (dump raw_frames readings ≡ ok bs)
      × (number bs ≡ some (length raw_frames, rest))
      × (read_frames (length raw_frames) rest ≡ some (raw_frames, u32 (length readings) ++ tail))
      × (number (u32 (length readings) ++ tail) ≡ some (length readings, tail))
unfolding dump
read_frames-dump raw_frames readings {tail} h f k d =
    let (bs, dumped, back) = dump_frames_lem raw_frames f in
    let rest = bs ++ (u32 (length readings) ++ tail) in
    (
      u32 (length raw_frames) ++ rest,
      rest,
      (λ i. pack_u32_lem (length raw_frames) h i >>= λ a. dumped i >>= λ b.
          pack_u32_lem (length readings) k i >>= λ c. d i >>= λ e. ok (a ++ (b ++ (c ++ e)))),
      number-u32 (length raw_frames) rest h,
      back (u32 (length readings) ++ tail),
      number-u32 (length readings) tail k,
    )
