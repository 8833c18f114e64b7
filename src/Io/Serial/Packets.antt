-- ===== src/Io/Serial/Packets.antt =====
-- SensorPacket and SensorPacketStream of src/io_protocols/serial_sensor.py over a source of bytes or
-- of text, the two that Python 3 keeps apart.
use Prim.Native.Nat.{bit_xor}
use py2to3_example_project.Prelude.{
  ℕ, zero, suc, ◌+◌, ◌-◌, ◌*◌, ◌%◌, Bool, false, ◌||◌, Option, none, some, List, [], ◌∷◌, ltb, ◌==◌,
  if◌then◌else◌, length, take, drop,
}
use py2to3_example_project.Prelude.Py.{
  Raw, bytes, text, elements, Result, ok, raise, ◌>>=◌, type_error, struct_error, stop_iteration,
  parse_error, index_error,
}

abbrev pub sync_ord : ℕ
sync_ord = 170

abbrev pub min_packet_len : ℕ
min_packet_len = 6

abbrev pub max_packet_len : ℕ
max_packet_len = 256

pub record SensorPacket : Type 0 where
  pub sensor_id : ℕ
  pub sensor_type : ℕ
  pub payload : Raw

-- What is left of the source, and the counters of the stream.
pub record Stream : Type 0 where
  pub source : Raw
  pub packets : ℕ
  pub errors : ℕ

abbrev pub take_raw : ℕ → Raw → Raw
take_raw n (bytes cs) = bytes (take n cs)
take_raw n (text cs) = text (take n cs)

abbrev pub drop_raw : ℕ → Raw → Raw
drop_raw n (bytes cs) = bytes (drop n cs)
drop_raw n (text cs) = text (drop n cs)

-- `source.read(n)`
abbrev pub read : ℕ → Stream → Raw × Stream
read n s = (take_raw n s.source, record s { source = drop_raw n s.source })

-- `b == SYNC_BYTE`, which is a text.
abbrev pub is_sync : Raw → Bool
is_sync (text (c ∷ [])) = c == sync_ord
is_sync _ = false

-- `ord(b)` of a text or byte string of length 1.
abbrev pub ord : Raw → Result ℕ
ord (bytes (c ∷ [])) = ok c
ord (text (c ∷ [])) = ok c
ord _ = raise type_error

-- `ord(c)` of an element: of bytes it is an int.
abbrev pub ord_of_element : Raw → ℕ → Result ℕ
ord_of_element (bytes cs) c = raise type_error
ord_of_element (text cs) c = ok c

-- `struct.unpack(">HB", raw)`
abbrev pub unpack_head : Raw → Result (ℕ × ℕ)
unpack_head (text cs) = raise type_error
unpack_head (bytes (a ∷ b ∷ c ∷ [])) = ok (a * 256 + b, c)
unpack_head (bytes cs) = raise struct_error

abbrev pub last_element : List ℕ → Result ℕ
last_element [] = raise index_error
last_element (c ∷ []) = ok c
last_element (c ∷ d ∷ cs) = last_element (d ∷ cs)

-- `chk ^= ord(c)` over the elements.
abbrev pub xor_all : Raw → ℕ → List ℕ → Result ℕ
xor_all body chk [] = ok chk
xor_all body chk (c ∷ cs) = ord_of_element body c >>= λ n. xor_all body (bit_xor chk n) cs

abbrev pub length_raw : Raw → ℕ
length_raw r = length (elements r)

-- `body[3:-1]`
abbrev pub payload_of : Raw → Raw
payload_of (bytes cs) = bytes (take (length cs - 4) (drop 3 cs))
payload_of (text cs) = text (take (length cs - 4) (drop 3 cs))

-- The identifier and type, the payload, the received checksum and the computed one.
unfoldable pub check_body : (plen : ℕ) → Raw → Result (SensorPacket × ℕ × ℕ)
check_body plen body = do
  head ← unpack_head (take_raw 3 body)
  last ← last_element (elements body)
  received ← ord_of_element body last
  chk ← xor_all body (bit_xor sync_ord plen) (take (length_raw body - 1) (elements body))
  ok (
    record { sensor_id = head.0; sensor_type = head.1; payload = payload_of body },
    received,
    chk % 256,
  )

-- What an iteration of the loop does: it goes on, or ends.
pub data Turn : Type 0 where
  go_on : Stream → Turn
  end : Stream → Result SensorPacket → Turn

unfoldable pub turn_body : (strict : Bool) → (plen : ℕ) → Raw → Stream → Turn
unfolding check_body
turn_body strict plen body s =
    if ltb (length_raw body) (plen - 2)
    then end s (raise stop_iteration)
    else elim (check_body plen body) [
      | raise e ↦ end s (raise e)
      | ok (packet, received, chk) ↦
          if chk == received
          then end (record s { packets = s.packets + 1 }) (ok packet)
          else if strict
          then end (record s { errors = s.errors + 1 }) (raise parse_error)
          else go_on (record s { errors = s.errors + 1 })
    ]

unfoldable pub turn_length : (strict : Bool) → Raw → Stream → Turn
unfolding turn_body
turn_length strict lb s = elim (ord lb) [
  | raise e ↦ end s (raise e)
  | ok plen ↦
      if ltb plen min_packet_len || ltb max_packet_len plen
      then go_on (record s { errors = s.errors + 1 })
      else turn_body strict plen (read (plen - 2) s).0 (read (plen - 2) s).1
]

unfoldable pub turn : (strict : Bool) → Stream → Turn
unfolding turn_length
turn strict s =
    let (b, s') = read 1 s in
    let (lb, s'') = read 1 s' in
    if length_raw b == 0
    then end s' (raise stop_iteration)
    else if is_sync b
    then if length_raw lb == 0 then end s'' (raise stop_iteration) else turn_length strict lb s''
    else go_on s'

-- `__next__`; none when the fuel runs out. An iteration that goes on has read something.
unfoldable pub next_packet :
    (fuel : ℕ) → (strict : Bool) → Stream → Option (Stream × Result SensorPacket)
unfolding turn
next_packet zero strict s = none
next_packet (suc fuel) strict s = elim (turn strict s) [
  | end s' r ↦ some (s', r)
  | go_on s' ↦ next_packet fuel strict s'
]
