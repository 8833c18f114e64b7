-- ===== src/Io/Tests.antt =====
-- Tests and instances for src/io_protocols.
use py2to3_example_project.Prelude.{
  ℕ, ◌+◌, ◌/◌, ◌%◌, ◌≡◌, ◌≢◌, refl, true, List, [], ◌∷◌, ◌++◌, arith, length,
}
use py2to3_example_project.Prelude.Py.{bytes, ok, raise, type_error}
use py2to3_example_project.Io.Modbus.Crc
use py2to3_example_project.Io.Modbus.Crc.{crc16_modbus, crc_from, AreBytes}
use py2to3_example_project.Io.Modbus.Frame
use py2to3_example_project.Io.Modbus.Frame.{to_tcp_adu, to_rtu_frame}
use py2to3_example_project.Io.Modbus.Bank.{RegisterBank}
use py2to3_example_project.Io.Modbus.Client.Results as ModbusClient
use py2to3_example_project.Io.Modbus.Client.{Client, got, received, read_holding_registers}
use Prim.Native.String.{String}
use py2to3_example_project.Prelude.{take, false}
use py2to3_example_project.Prelude.Queue.{last_items}
use py2to3_example_project.Prelude.Py.{mqtt_error}
use py2to3_example_project.Io.Mqtt.Topics
use py2to3_example_project.Io.Mqtt.Topics.{matches, Accepts}
use py2to3_example_project.Io.Mqtt.Subscription
use py2to3_example_project.Io.Mqtt.Subscription.{enqueue_all, new_subscription, drain}
use py2to3_example_project.Io.Mqtt.Listener
use py2to3_example_project.Io.Mqtt.Listener.{connect, publish, new_listener, start_listener}

-- The request for ten registers from address 0 of unit 1.
abbrev request : List ℕ
request = 1 ∷ 3 ∷ 0 ∷ 0 ∷ 0 ∷ 10 ∷ []

request-AreBytes : AreBytes request
request-AreBytes =
    (omega arith, (omega arith, (omega arith, (omega arith, (omega arith, (omega arith, tt))))))

crc_of_request : crc16_modbus (bytes request) ≡ 0xCDC5
unfolding crc16_modbus
crc_of_request = refl

crc16_modbus-residue_example :
    crc16_modbus (
      bytes (
        request
        ++ (crc16_modbus (bytes request) % 256) ∷ (crc16_modbus (bytes request) / 256) ∷ []))
    ≡ 0
crc16_modbus-residue_example = Crc.crc16_modbus-residue request request-AreBytes

abbrev frame : Frame.Frame
frame = record {
  transaction_id = 258;
  unit_id = 1;
  function_code = 3;
  payload = bytes (0 ∷ 0 ∷ 0 ∷ 10 ∷ []);
}

to_rtu_frame_lem_example :
    (sent : List ℕ) × (to_rtu_frame frame ≡ ok sent)
    × (crc16_modbus (bytes sent) ≡ 0)
    × (length sent ≡ 4 + 4)
to_rtu_frame_lem_example =
    Frame.to_rtu_frame_lem frame (0 ∷ 0 ∷ 0 ∷ 10 ∷ []) refl
      (omega arith, (omega arith, (omega arith, (omega arith, tt)))) (omega arith) (omega arith)

abbrev registers : List ℕ
registers = 500 ∷ 7 ∷ 65535 ∷ []

abbrev small_bank : RegisterBank
small_bank = record { base_address = 100; raw = bytes (1 ∷ 2 ∷ 3 ∷ []); count = 1 }

-- The device answers with a correct header and body.
abbrev client : Client
client = record {
  unit_id = 1;
  connected = true;
  counter = 0;
  incoming = received 0 (1 ∷ 0 ∷ 0 ∷ 0 ∷ 5 ∷ 1 ∷ []) ∷ received 3 (2 ∷ 1 ∷ 244 ∷ []) ∷ [];
}

abbrev answered : RegisterBank
answered = record { base_address = 0; raw = bytes (1 ∷ 244 ∷ []); count = 1 }

read_holding_registers-ne-ok_example : (read_holding_registers client 0 1 (got tt)).1 ≢ ok answered
read_holding_registers-ne-ok_example =
    ModbusClient.read_holding_registers-ne-ok client 0 1 (got tt) answered

abbrev messages : List ℕ
messages = 5 ∷ 6 ∷ 7 ∷ []

abbrev any_sensor : List String
any_sensor = "plant" ∷ "+" ∷ "temp" ∷ []

abbrev sensor_four : List String
sensor_four = "plant" ∷ "s4" ∷ "temp" ∷ []

matches_iff_example :
    (matches any_sensor sensor_four ≡ true → Accepts any_sensor sensor_four)
    × (Accepts any_sensor sensor_four → matches any_sensor sensor_four ≡ true)
matches_iff_example = Topics.matches_iff any_sensor sensor_four

enqueue_all-drain_example :
    ((enqueue_all (new_subscription any_sensor 0 2) messages).received ≡ length messages)
    × ((enqueue_all (new_subscription any_sensor 0 2) messages).queued ≡ last_items 2 messages)
    × ((drain (enqueue_all (new_subscription any_sensor 0 2) messages) 1).1
        ≡ take 1 (last_items 2 messages))
enqueue_all-drain_example = Subscription.enqueue_all-drain any_sensor 0 2 1 messages (omega arith)

abbrev started : Listener.Listener
started = start_listener (new_listener (105 ∷ 100 ∷ []) 60)

Reach-up_example :
    (started.up ≡ false)
    × ((connect started true (0x20 ∷ 2 ∷ 0 ∷ 0 ∷ [])).1 ≡ raise type_error)
    × (publish started (116 ∷ []) (bytes (1 ∷ [])) ≡ raise mqtt_error)
Reach-up_example =
    Listener.Reach-up (105 ∷ 100 ∷ []) 60 (0x20 ∷ 2 ∷ 0 ∷ 0 ∷ []) (116 ∷ []) (bytes (1 ∷ []))
      (Listener.next Listener.here Listener.starting)
