-- ===== src/Io/Serial/Failure.antt =====
-- SensorPacketStream of src/io_protocols/serial_sensor.py yields no packet in Python 3.
use py2to3_example_project.Prelude.{
  ℕ, zero, suc, ◌+◌, ◌-◌, ◌<◌, ◌≡◌, refl, ap, ◌∙◌, inl, inr, Bool, true, false, ◌||◌, some, [], ◌∷◌,
  arith, ltb, ◌==◌, if◌then◌else◌, length, Bool-cases, length-drop,
}
use py2to3_example_project.Prelude.Py.{
  Exc, Raw, bytes, text, elements, Result, ok, raise, ◌>>=◌, type_error, struct_error,
  stop_iteration,
}
use py2to3_example_project.Io.Serial.Packets.{
  min_packet_len, max_packet_len, SensorPacket, Stream, take_raw, drop_raw, read, is_sync, ord,
  last_element, length_raw, check_body, Turn, go_on, end, turn_body, turn_length, turn, next_packet,
}

bind_raises :
    {B : Type 0} (l : Result ℕ) (f : ℕ → Result B)
    → ((n : ℕ) → (e : Exc) × (f n ≡ raise e))
    → (e : Exc) × ((l >>= f) ≡ raise e)
bind_raises (raise e) f h = (e, refl)
bind_raises (ok n) f h = h n

-- The outcome of a body: an element of bytes is no character, and a text cannot be unpacked.
check_body-raises : (plen : ℕ) (body : Raw) → (e : Exc) × (check_body plen body ≡ raise e)
unfolding check_body
check_body-raises plen (text cs) = (type_error, refl)
check_body-raises plen (bytes []) = (struct_error, refl)
check_body-raises plen (bytes (a ∷ [])) = (struct_error, refl)
check_body-raises plen (bytes (a ∷ b ∷ [])) = (struct_error, refl)
check_body-raises plen (bytes (a ∷ b ∷ c ∷ cs)) =
    bind_raises (last_element (a ∷ b ∷ c ∷ cs)) _ (λ n. (type_error, refl))

abbrev pub size : Stream → ℕ
size s = length (elements s.source)

-- A turn that goes on has read something; one that ends raises. Neither counts a packet.
abbrev Fails : Stream → Turn → Type 0
Fails s (go_on s') = (size s' < size s) × (s'.packets ≡ s.packets)
Fails s (end s' r) = ((e : Exc) × (r ≡ raise e)) × (s'.packets ≡ s.packets)

turn_body-raises :
    (strict : Bool) (plen : ℕ) (body : Raw) (s : Stream)
    → (e : Exc) × (turn_body strict plen body s ≡ end s (raise e))
unfolding turn_body
turn_body-raises strict plen body s = elim (Bool-cases (ltb (length_raw body) (plen - 2))) [
  | inl short ↦ (stop_iteration, rw short)
  | inr full ↦ let (e, p) = check_body-raises plen body in (e, rw (full, p) refl)
]

turn_body-Fails :
    (strict : Bool) (plen : ℕ) (body : Raw) (s s' : Stream)
    → s'.packets ≡ s.packets
    → Fails s (turn_body strict plen body s')
turn_body-Fails strict plen body s s' h =
    let (e, p) = turn_body-raises strict plen body s' in rw p ((e, refl), h)

size-read : (n : ℕ) (s : Stream) → size (read n s).1 ≡ size s - n
size-read n s = by_source s.source
  where
    by_source : (r : Raw) → length (elements (drop_raw n r)) ≡ length (elements r) - n
    by_source (bytes cs) = length-drop n cs
    by_source (text cs) = length-drop n cs

turn_length-Fails :
    (strict : Bool) (lb : Raw) (s s' : Stream)
    → s'.packets ≡ s.packets
    → size s' < size s
    → Fails s (turn_length strict lb s')
unfolding turn_length
turn_length-Fails strict lb s s' h k = by_ord (ord lb)
  where
    by_ord :
        (r : Result ℕ)
        → Fails s (elim r [
          | raise e ↦ end s' (raise e)
          | ok plen ↦
              if ltb plen min_packet_len || ltb max_packet_len plen
              then go_on (record s' { errors = s'.errors + 1 })
              else turn_body strict plen (read (plen - 2) s').0 (read (plen - 2) s').1
        ])
    by_ord (raise e) = ((e, refl), h)
    by_ord (ok plen) = elim (Bool-cases (ltb plen min_packet_len || ltb max_packet_len plen)) [
      | inl bad ↦ rw bad (k, h)
      | inr good ↦
          rw good (turn_body-Fails strict plen (read (plen - 2) s').0 s (read (plen - 2) s').1 h)
    ]

turn-Fails : (strict : Bool) (s : Stream) → Fails s (turn strict s)
unfolding turn
turn-Fails strict s =
    let first = (read 1 s).1 in
    elim (Bool-cases (length_raw (take_raw 1 s.source) == 0)) [
      | inl done ↦ rw done ((stop_iteration, refl), refl)
      | inr more ↦
          let some_left = taken s.source more in
          let shorter : size first < size s = omega (arith, size-read 1 s) in
          rw more (by_sync (is_sync (take_raw 1 s.source)) shorter)
    ]
  where
    taken : (r : Raw) → (length_raw (take_raw 1 r) == 0) ≡ false → 0 < length (elements r)
    taken (bytes []) h = cc
    taken (bytes (c ∷ cs)) h = omega arith
    taken (text []) h = cc
    taken (text (c ∷ cs)) h = omega arith

    by_sync :
        (b : Bool)
        → size (read 1 s).1 < size s
        → Fails s (
            if b
            then if length_raw (read 1 (read 1 s).1).0 == 0
              then end (read 1 (read 1 s).1).1 (raise stop_iteration)
              else turn_length strict (read 1 (read 1 s).1).0 (read 1 (read 1 s).1).1
            else go_on (read 1 s).1)
    by_sync false k = (k, refl)
    by_sync true k = elim (Bool-cases (length_raw (read 1 (read 1 s).1).0 == 0)) [
      | inl done ↦ rw done ((stop_iteration, refl), refl)
      | inr more ↦ rw more (
          turn_length-Fails strict (read 1 (read 1 s).1).0 s (read 1 (read 1 s).1).1 refl
            (omega (arith, size-read 1 (read 1 s).1)))
    ]

next_end :
    (fuel : ℕ) (strict : Bool) (s : Stream) {t : Stream} {r : Result SensorPacket}
    → turn strict s ≡ end t r
    → next_packet (suc fuel) strict s ≡ some (t, r)
unfolding next_packet
next_end fuel strict s p = rw (next_packet, p) refl

next_on :
    (fuel : ℕ) (strict : Bool) (s : Stream) {t : Stream}
    → turn strict s ≡ go_on t
    → next_packet (suc fuel) strict s ≡ next_packet fuel strict t
unfolding next_packet
next_on fuel strict s p = rw (next_packet, p) refl

-- With more fuel than the source is long the call ends, and it never yields a packet: on every
-- source, of bytes or of text, it raises, and no packet is counted.
pub next_packet-raises :
    (fuel : ℕ) (strict : Bool) (s : Stream)
    → size s < fuel
    → (t : Stream) × (e : Exc) × (next_packet fuel strict s ≡ some (t, raise e))
      × (t.packets ≡ s.packets)
next_packet-raises zero strict s h = absurd (omega arith)
next_packet-raises (suc fuel) strict s h =
    by_turn (turn strict s) refl (turn-Fails strict s) (λ t k. next_packet-raises fuel strict t k)
  where
    by_turn :
        (r : Turn)
        → turn strict s ≡ r
        → Fails s r
        → ((t : Stream)
            → size t < fuel
            → (u : Stream) × (e : Exc) × (next_packet fuel strict t ≡ some (u, raise e))
              × (u.packets ≡ t.packets))
        → (u : Stream) × (e : Exc) × (next_packet (suc fuel) strict s ≡ some (u, raise e))
          × (u.packets ≡ s.packets)
    by_turn (end t r) p f ih =
        (t, f.0.0, next_end fuel strict s p ∙ ap (λ x. some (t, x)) f.0.1, f.1)
    by_turn (go_on t) p f ih =
        let (u, e, found, same) = ih t (omega arith) in
        (u, e, next_on fuel strict s p ∙ found, same ∙ f.1)
