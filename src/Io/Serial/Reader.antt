-- ===== src/Io/Serial/Reader.antt =====
-- SerialSensorReader of src/io_protocols/serial_sensor.py: its port and its registry of sensors.
use py2to3_example_project.Prelude.{
  ℕ, ◌+◌, ◌≡◌, refl, ap, ◌∙◌, ite, if_pos, if_neg, Bool, false, Option, none, some, List, [], ◌∷◌,
  arith, length, ℕ_discrete,
}
use py2to3_example_project.Prelude.Str.{Str}
use py2to3_example_project.Prelude.Text.{codes}
use py2to3_example_project.Prelude.Dict.{lookup, insert, lookup-insert, lookup-insert_ne}
use py2to3_example_project.Prelude.Py.{Result, ok, raise, serial_error, Raw}
use py2to3_example_project.Io.Serial.Packets.{SensorPacket, next_packet}

pub record SensorInfo : Type 0 where
  pub tag : Str
  pub desc : Str
  pub last : Option SensorPacket
  pub reads : ℕ

pub record Reader : Type 0 where
  pub port : Option Raw
  pub registry : List (ℕ × SensorInfo)
  pub running : Bool

unfoldable pub new_reader : Reader
new_reader = record { port = none; registry = []; running = false }

-- `available` is what opening the path gives, none when it raises.
unfoldable pub open_port : Reader → (available : Option Raw) → Reader × Result (Unit {0})
open_port r none = (r, raise serial_error)
open_port r (some source) = (record r { port = some source }, ok tt)

unfoldable pub close : Reader → Reader
close r = record r { port = none; running = false }

unfoldable pub register_sensor : Reader → (sid : ℕ) → (tag desc : Str) → Reader
register_sensor r sid tag desc = record r {
  registry =
      insert ℕ_discrete sid (record { tag = tag; desc = desc; last = none; reads = 0 }) r.registry;
}

-- The entry of a sensor, or a new one; `tag_of` formats the identifier.
abbrev pub info_or_new : (tag_of : ℕ → Str) → ℕ → Option SensorInfo → SensorInfo
info_or_new tag_of sid none = record {
  tag = tag_of sid;
  desc = codes "auto";
  last = none;
  reads = 0;
}
info_or_new tag_of sid (some info) = info

-- The entry after a packet.
abbrev pub tracked : (tag_of : ℕ → Str) → Reader → SensorPacket → SensorInfo
tracked tag_of r packet =
    let info =
      info_or_new tag_of packet.sensor_id (lookup ℕ_discrete packet.sensor_id r.registry) in
    record info { last = some packet; reads = info.reads + 1 }

unfoldable pub track : (tag_of : ℕ → Str) → Reader → SensorPacket → Reader
track tag_of r packet = record r {
  registry = insert ℕ_discrete packet.sensor_id (tracked tag_of r packet) r.registry;
}

-- The first packet of a stream over the port.
unfoldable pub read_one_packet :
    (tag_of : ℕ → Str) → (fuel : ℕ) → Reader → Option (Reader × Result SensorPacket)
unfolding next_packet track
read_one_packet tag_of fuel r = elim r.port [
  | none ↦ some (r, raise serial_error)
  | some source ↦
      elim (next_packet fuel false (record { source = source; packets = 0; errors = 0 })) [
        | none ↦ none
        | some (s, raise e) ↦ some (record r { port = some s.source }, raise e)
        | some (s, ok packet) ↦
            some (track tag_of (record r { port = some s.source }) packet, ok packet)
      ]
]

unfoldable pub track_all : (tag_of : ℕ → Str) → Reader → List SensorPacket → Reader
unfolding track
track_all tag_of r [] = r
track_all tag_of r (p ∷ ps) = track_all tag_of (track tag_of r p) ps

-- The total that `_log_summary` prints.
unfoldable pub total_reads : List (ℕ × SensorInfo) → ℕ
total_reads [] = 0
total_reads ((sid, info) ∷ rest) = info.reads + total_reads rest

abbrev pub reads_of : Option SensorInfo → ℕ
reads_of none = 0
reads_of (some info) = info.reads

abbrev pub packets_of : ℕ → List SensorPacket → ℕ
packets_of sid [] = 0
packets_of sid (p ∷ ps) = ite (ℕ_discrete p.sensor_id sid) 1 0 + packets_of sid ps

info_or_new-reads :
    (tag_of : ℕ → Str) (sid : ℕ) (o : Option SensorInfo)
    → (info_or_new tag_of sid o).reads ≡ reads_of o
info_or_new-reads tag_of sid none = refl
info_or_new-reads tag_of sid (some info) = refl

reads_of-track :
    (tag_of : ℕ → Str) (r : Reader) (p : SensorPacket) (sid : ℕ)
    → reads_of (lookup ℕ_discrete sid (track tag_of r p).registry)
      ≡ ite (ℕ_discrete p.sensor_id sid) 1 0 + reads_of (lookup ℕ_discrete sid r.registry)
unfolding track
reads_of-track tag_of r p sid =
    let old = info_or_new-reads tag_of p.sensor_id (lookup ℕ_discrete p.sensor_id r.registry) in
    elim (ℕ_discrete p.sensor_id sid) [
      | yes e ↦
          let found : reads_of (lookup ℕ_discrete sid (track tag_of r p).registry)
              ≡ reads_of (lookup ℕ_discrete p.sensor_id r.registry) + 1 =
            ap reads_of (
              lookup-insert ℕ_discrete p.sensor_id sid (tracked tag_of r p) r.registry
              ∙ if_pos (ℕ_discrete p.sensor_id sid) e (some (tracked tag_of r p))
                  (lookup ℕ_discrete sid r.registry))
            ∙ ap (λ (n : ℕ). n + 1) old in
          let same : reads_of (lookup ℕ_discrete p.sensor_id r.registry)
              ≡ reads_of (lookup ℕ_discrete sid r.registry) =
            ap (λ (k : ℕ). reads_of (lookup ℕ_discrete k r.registry)) e in
          let one : ite {C = ℕ} (ℕ_discrete p.sensor_id sid) 1 0 ≡ 1 =
            if_pos (ℕ_discrete p.sensor_id sid) e 1 0 in
          omega (arith, found, same, one)
      | no e ↦
          let other =
            lookup-insert_ne ℕ_discrete p.sensor_id sid (tracked tag_of r p) r.registry e in
          let kept : reads_of (lookup ℕ_discrete sid (track tag_of r p).registry)
              ≡ reads_of (lookup ℕ_discrete sid r.registry) =
            ap reads_of other in
          let nothing : ite {C = ℕ} (ℕ_discrete p.sensor_id sid) 1 0 ≡ 0 =
            if_neg (ℕ_discrete p.sensor_id sid) e 1 0 in
          omega (arith, kept, nothing)
    ]

total_reads-insert :
    (sid : ℕ) (info : SensorInfo) (d : List (ℕ × SensorInfo))
    → total_reads (insert ℕ_discrete sid info d) + reads_of (lookup ℕ_discrete sid d)
      ≡ total_reads d + info.reads
unfolding total_reads insert lookup
total_reads-insert sid info [] = omega arith
total_reads-insert sid info ((j, w) ∷ d) = ground (arith, total_reads-insert sid info d)

total_reads-track :
    (tag_of : ℕ → Str) (r : Reader) (p : SensorPacket)
    → total_reads (track tag_of r p).registry ≡ total_reads r.registry + 1
unfolding track
total_reads-track tag_of r p =
    let old = info_or_new-reads tag_of p.sensor_id (lookup ℕ_discrete p.sensor_id r.registry) in
    omega (arith, total_reads-insert p.sensor_id (tracked tag_of r p) r.registry)

-- After packets are tracked the count of each sensor has grown by the number of its packets, known
-- to the registry before or not, and the total by the number of all packets.
pub track_all_lem :
    (tag_of : ℕ → Str) (r : Reader) (ps : List SensorPacket) (sid : ℕ)
    → (reads_of (lookup ℕ_discrete sid (track_all tag_of r ps).registry)
        ≡ packets_of sid ps + reads_of (lookup ℕ_discrete sid r.registry))
      × (total_reads (track_all tag_of r ps).registry ≡ total_reads r.registry + length ps)
unfolding track_all
track_all_lem tag_of r [] sid = omega arith
track_all_lem tag_of r (p ∷ ps) sid =
    let rest = track_all_lem tag_of (track tag_of r p) ps sid in
    let one = reads_of-track tag_of r p sid in
    let all = total_reads-track tag_of r p in (omega arith, omega arith)
