-- ===== src/Io/Modbus/Frame.antt =====
-- ModbusFrame: its two encodings and the frames that the client sends. The class counter of
-- transactions is passed along.
use py2to3_example_project.Prelude.{
  ℕ, ◌+◌, ◌/◌, ◌%◌, ◌^◌, ◌<◌, ◌≡◌, List, [], ◌∷◌, ◌++◌, arith, length, length-append,
}
use py2to3_example_project.Prelude.Py.{Raw, bytes, text, Result, ok, raise, ◌>>=◌, type_error}
use py2to3_example_project.Prelude.Struct.{pack_u8, pack_u16, pack_u16_le, add_raw}
use py2to3_example_project.Io.Modbus.Crc
use py2to3_example_project.Io.Modbus.Crc.{crc16_modbus, crc16_modbus-residue, AreBytes}

abbrev pub fc_read_holding_registers : ℕ
fc_read_holding_registers = 0x03

abbrev pub fc_write_single_register : ℕ
fc_write_single_register = 0x06

pub record Frame : Type 0 where
  pub transaction_id : ℕ
  pub unit_id : ℕ
  pub function_code : ℕ
  pub payload : Raw

-- The constructor, with the counter before it; it returns the counter after it.
unfoldable pub new_frame : (counter unit_id function_code : ℕ) → Raw → ℕ × Frame
new_frame counter unit_id function_code payload = (
  counter + 1,
  record {
    transaction_id = (counter + 1) % 2 ^ 16;
    unit_id = unit_id;
    function_code = function_code;
    payload = payload;
  },
)

-- `struct.pack("B", function_code) + payload`
pdu : Frame → Result (List ℕ)
unfolding pack_u8
pdu f = do code ← pack_u8 f.function_code; add_raw code f.payload

unfoldable pub to_tcp_adu : Frame → Result (List ℕ)
unfolding pdu pack_u16 pack_u8
to_tcp_adu f = do
  body ← pdu f
  transaction ← pack_u16 f.transaction_id
  protocol ← pack_u16 0
  size ← pack_u16 (length body + 1)
  unit ← pack_u8 f.unit_id
  ok ((transaction ++ protocol ++ size ++ unit) ++ body)

unfoldable pub to_rtu_frame : Frame → Result (List ℕ)
unfolding pack_u8 pack_u16_le
to_rtu_frame f = do
  unit ← pack_u8 f.unit_id
  code ← pack_u8 f.function_code
  body ← add_raw (unit ++ code) f.payload
  check ← pack_u16_le (crc16_modbus (bytes body))
  ok (body ++ check)

unfoldable pub build_read_holding : (counter unit_id start_addr quantity : ℕ) → Result (ℕ × Frame)
unfolding pack_u16 new_frame
build_read_holding counter unit_id start_addr quantity = do
  start ← pack_u16 start_addr
  count ← pack_u16 quantity
  ok (new_frame counter unit_id fc_read_holding_registers (bytes (start ++ count)))

unfoldable pub build_write_single : (counter unit_id address value : ℕ) → Result (ℕ × Frame)
unfolding pack_u16 new_frame
build_write_single counter unit_id address value = do
  start ← pack_u16 address
  word ← pack_u16 value
  ok (new_frame counter unit_id fc_write_single_register (bytes (start ++ word)))

-- The bytes of a TCP unit: the transaction and the zero protocol, the number of bytes that follow
-- the length field, the unit and the function code, and the payload. The fields must fit their
-- widths, and the payload must be bytes.
pub to_tcp_adu_lem :
    (f : Frame) (ps : List ℕ)
    → f.payload ≡ bytes ps
    → f.transaction_id < 65536
    → f.unit_id < 256
    → f.function_code < 256
    → length ps + 2 < 65536
    → to_tcp_adu f
      ≡ ok (
          (f.transaction_id / 256)
          ∷ (f.transaction_id % 256)
          ∷ 0
          ∷ 0
          ∷ ((length ps + 2) / 256)
          ∷ ((length ps + 2) % 256)
          ∷ f.unit_id
          ∷ f.function_code
          ∷ ps)
unfolding to_tcp_adu
to_tcp_adu_lem f ps p t u c l = ground arith

-- A payload that is a text, as the constructor's default is, cannot be encoded: TypeError.
pub to_tcp_adu_text :
    (f : Frame) (cs : List ℕ)
    → f.payload ≡ text cs
    → f.function_code < 256
    → to_tcp_adu f ≡ raise type_error
unfolding to_tcp_adu
to_tcp_adu_text f cs p c = ground arith

-- A frame whose payload is bytes, and whose unit and function code fit a byte, has an RTU
-- encoding, four bytes longer than its payload, and the checksum of the whole of it is 0.
pub to_rtu_frame_lem :
    (f : Frame) (ps : List ℕ)
    → f.payload ≡ bytes ps
    → AreBytes ps
    → f.unit_id < 256
    → f.function_code < 256
    → (sent : List ℕ) × (to_rtu_frame f ≡ ok sent)
      × (crc16_modbus (bytes sent) ≡ 0)
      × (length sent ≡ length ps + 4)
unfolding to_rtu_frame
to_rtu_frame_lem f ps p a u c =
    let body = f.unit_id ∷ f.function_code ∷ ps in
    let crc = crc16_modbus (bytes body) in
    (
      body ++ (crc % 256) ∷ (crc / 256) ∷ [],
      ground (arith, Crc.crc16_modbus-lt (bytes body)),
      crc16_modbus-residue body (u, (c, a)),
      omega (arith, length-append {0} body ((crc % 256) ∷ (crc / 256) ∷ [])),
    )
