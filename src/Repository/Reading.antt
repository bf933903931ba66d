-- ===== src/Repository/Reading.antt =====
-- Reading back what the encoder writes, part by part.
use irrigation_controller.Prelude.{
  ℕ, ◌^◌, ◌≤◌, ◌<◌, ◌≡◌, refl, ap, ◌∙◌, true, false, not, ◌||◌, some, List, [], ◌++◌, arith, length,
  ltb, ◌==◌,
}
use irrigation_controller.Result.{ok}
use irrigation_controller.Domain.{Zone, max_zones, max_programs, max_schedules}
use irrigation_controller.Configuration.{
  schema_version, zones_are_valid, programs_are_valid, schedules_are_valid, IrrigationConfiguration,
  irrigation_configuration_validate,
}
use irrigation_controller.Repository.{put_u16, put_u32, get_u16, get_u32}
use irrigation_controller.Repository.Encode.{payload_start, done}
use irrigation_controller.Repository.Decode.{
  decode_lists, finish_decode, decode_counted, decode_payload,
}
use irrigation_controller.Repository.Parts.{
  programs_then, schedules_then, lists_then, decode_zones_lem, decode_programs_lem,
  decode_schedules_lem,
}

decode_lists_lem :
    (start configuration : IrrigationConfiguration) (board : List Zone)
    → zones_are_valid board [] configuration.zones ≡ true
    → programs_are_valid board [] configuration.programs ≡ true
    → schedules_are_valid configuration.programs [] configuration.schedules ≡ true
    → decode_lists start
        (length configuration.zones)
        (length configuration.programs)
        (length configuration.schedules)
        (lists_then configuration)
      ≡ some (
        record start {
          zones = configuration.zones;
          programs = configuration.programs;
          schedules = configuration.schedules;
        },
        [],
      )
unfolding decode_lists
decode_lists_lem start configuration board zones programs schedules =
    let third = schedules_then configuration.schedules [] in
    let second = programs_then configuration.programs third in
    let z = decode_zones_lem board [] configuration.zones second zones in
    let p = decode_programs_lem board [] configuration.programs third programs in
    let s = decode_schedules_lem configuration.programs [] configuration.schedules [] schedules in
    ground (arith, z, p, s)

pub u16_lem : (v : ℕ) → v < 2 ^ 16 → (get_u16 (put_u16 v)).0 ≡ v
u16_lem v h = omega arith

pub u32_lem : (v : ℕ) → v < 2 ^ 32 → (get_u32 (put_u32 v)).0 ≡ v
u32_lem v h = omega arith

-- What the validation has checked.
pub record IsValid (configuration : IrrigationConfiguration) (board : List Zone) : Type 0 where
  pub schema : configuration.schema ≡ schema_version
  pub zone_count : length configuration.zones ≤ max_zones
  pub program_count : length configuration.programs ≤ max_programs
  pub schedule_count : length configuration.schedules ≤ max_schedules
  pub zones : zones_are_valid board [] configuration.zones ≡ true
  pub programs : programs_are_valid board [] configuration.programs ≡ true
  pub schedules : schedules_are_valid configuration.programs [] configuration.schedules ≡ true

pub validate-IsValid :
    (configuration : IrrigationConfiguration) (board : List Zone)
    → irrigation_configuration_validate (some configuration) (some board) ≡ ok
    → IsValid configuration board
unfolding irrigation_configuration_validate
validate-IsValid configuration board v = record {
  schema = ground arith;
  zone_count = ground arith;
  program_count = ground arith;
  schedule_count = ground arith;
  zones = ground arith;
  programs = ground arith;
  schedules = ground arith;
}

counts_pass :
    (schema zones programs schedules : ℕ)
    → schema ≡ schema_version
    → zones ≤ max_zones
    → programs ≤ max_programs
    → schedules ≤ max_schedules
    → (not (schema == schema_version)
        || ltb max_zones zones
        || ltb max_programs programs
        || ltb max_schedules schedules)
      ≡ false
counts_pass schema zones programs schedules s z p q = ground arith

decode_counted_lem :
    (configuration : IrrigationConfiguration) (board : List Zone) (size : ℕ)
    → irrigation_configuration_validate (some configuration) (some board) ≡ ok
    → ltb size 13 ≡ false
    → decode_counted
        (some board)
        size
        configuration.schema
        (length configuration.zones)
        (length configuration.programs)
        (length configuration.schedules)
        configuration.next_program_id
        configuration.next_schedule_id
        (lists_then configuration)
      ≡ done configuration
unfolding decode_counted finish_decode
decode_counted_lem configuration board size v h =
    let g = validate-IsValid configuration board v in
    let lists =
      decode_lists_lem
        (record {
          schema = configuration.schema;
          zones = [];
          programs = [];
          schedules = [];
          next_program_id = configuration.next_program_id;
          next_schedule_id = configuration.next_schedule_id;
        })
        configuration board g.zones g.programs g.schedules in
    let counts =
      counts_pass configuration.schema (length configuration.zones) (length configuration.programs)
        (length configuration.schedules) g.schema g.zone_count g.program_count g.schedule_count in
    rw (h, counts, lists, v) refl

pub decode_payload_lem :
    (configuration : IrrigationConfiguration) (board : List Zone)
    → irrigation_configuration_validate (some configuration) (some board) ≡ ok
    → configuration.next_program_id < 2 ^ 32
    → configuration.next_schedule_id < 2 ^ 32
    → decode_payload (some board) (payload_start configuration ++ lists_then configuration)
      ≡ done configuration
unfolding decode_payload
decode_payload_lem configuration board v p q =
    let c = configuration in
    let size = length (payload_start c ++ lists_then c) in
    ap
      (λ (w : ℕ × (ℕ × ℕ)).
        decode_counted (some board) size w.0 (length c.zones) (length c.programs)
          (length c.schedules) w.1.0 w.1.1 (lists_then c))
      (fields c (omega (arith, (validate-IsValid c board v).schema)) p q)
    ∙ decode_counted_lem c board size v (ground arith)
  where
    fields :
        (c : IrrigationConfiguration)
        → c.schema < 2 ^ 16
        → c.next_program_id < 2 ^ 32
        → c.next_schedule_id < 2 ^ 32
        → ◌≡◌ {A = ℕ × (ℕ × ℕ)}
            (
              (get_u16 (put_u16 c.schema)).0,
              ((get_u32 (put_u32 c.next_program_id)).0, (get_u32 (put_u32 c.next_schedule_id)).0),
            )
            (c.schema, (c.next_program_id, c.next_schedule_id))
    fields c x y z =
        rw (u16_lem c.schema x, u32_lem c.next_program_id y, u32_lem c.next_schedule_id z) refl
