-- ===== src/Io/Serial/Tests.antt =====
-- Instances for src/io_protocols/serial_sensor.py.
use py2to3_example_project.Prelude.{◌≡◌, ◌+◌, true, some, List, [], ◌∷◌, arith, length, ℕ_discrete}
use py2to3_example_project.Prelude.Text.{codes}
use py2to3_example_project.Prelude.Dict.{lookup}
use py2to3_example_project.Prelude.Py.{Exc, text, raise}
use py2to3_example_project.Io.Serial.Packets.{Stream, SensorPacket, next_packet}
use py2to3_example_project.Io.Serial.Failure
use py2to3_example_project.Io.Serial.Reader as SerialReader
use py2to3_example_project.Io.Serial.Reader.{
  Reader, register_sensor, new_reader, track_all, reads_of, packets_of, total_reads,
}

-- A packet of six bytes, as text, with two bytes of noise before it.
abbrev noisy : Stream
noisy = record { source = text (1 ∷ 2 ∷ 0xAA ∷ 6 ∷ 0 ∷ 7 ∷ 1 ∷ 0xAA ∷ []); packets = 0; errors = 0 }

next_packet-raises_example :
    (t : Stream) × (e : Exc) × (next_packet 9 true noisy ≡ some (t, raise e)) × (t.packets ≡ 0)
next_packet-raises_example = Failure.next_packet-raises 9 true noisy (omega arith)

abbrev packet : SensorPacket
packet = record { sensor_id = 7; sensor_type = 1; payload = text [] }

abbrev arriving : List SensorPacket
arriving = packet ∷ record packet { sensor_id = 8 } ∷ packet ∷ []

abbrev reader : Reader
reader = register_sensor new_reader 7 (codes "TT") (codes "boiler")

track_all_lem_example :
    (reads_of (lookup ℕ_discrete 7 (track_all (λ n. codes "S") reader arriving).registry)
      ≡ packets_of 7 arriving + reads_of (lookup ℕ_discrete 7 reader.registry))
    × (total_reads (track_all (λ n. codes "S") reader arriving).registry
        ≡ total_reads reader.registry + length arriving)
track_all_lem_example = SerialReader.track_all_lem (λ n. codes "S") reader arriving 7
