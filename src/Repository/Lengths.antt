-- ===== src/Repository/Lengths.antt =====
-- How long the encoded parts of a valid configuration are at most, and the blob as a whole.
use irrigation_controller.Prelude.{
  ℕ, ◌+◌, ◌*◌, ◌^◌, ◌≤◌, ◌<◌, ◌≡◌, refl, true, some, List, [], ◌∷◌, ◌++◌, Text, arith, length,
  length-append,
}
use irrigation_controller.Result.{ok}
use irrigation_controller.Domain.{Zone, max_program_steps}
use irrigation_controller.Configuration.{
  IrrigationZoneConfiguration, IrrigationProgramStepConfiguration, IrrigationProgramConfiguration,
  IrrigationScheduleConfiguration, IrrigationConfiguration, text_is_valid, id_size, zones_are_valid,
  steps_are_valid, programs_are_valid, schedules_are_valid, irrigation_configuration_validate,
}
use irrigation_controller.Repository.{Bytes, max_payload_size, put_u32, crc32}
use irrigation_controller.Repository.Encode.{schedule_fields, payload_start, encode_payload, header}
use irrigation_controller.Repository.Reading.{validate-IsValid}
use irrigation_controller.Repository.Parts.{
  text_then, zones_then, steps_then, programs_then, schedules_then, lists_then,
}
use irrigation_controller.Repository.Writing.{
  programs_then-append, zones_then-append, encode_zones_lem, encode_programs_lem,
  encode_schedules_lem,
}

-- How long the parts are at most.
length-text_then :
    (t : Text) (rest : Bytes)
    → text_is_valid t id_size ≡ true
    → length (text_then t rest) ≤ 32 + length rest
unfolding text_is_valid
length-text_then t rest h = ground (arith, length-append t rest)

length-zones_then :
    (board : List Zone) (before : List Text) (zones : List IrrigationZoneConfiguration)
    (rest : Bytes)
    → zones_are_valid board before zones ≡ true
    → length (zones_then zones rest) ≤ 64 * length zones + length rest
unfolding zones_then zones_are_valid
length-zones_then board before [] rest h = omega arith
length-zones_then board before (zone ∷ zones) rest h =
    let next = zones_then zones rest in
    omega (
      arith,
      length-text_then zone.zone_id (text_then zone.display_name next) (ground arith),
      length-text_then zone.display_name next (ground arith),
      length-zones_then board (before ++ zone.zone_id ∷ []) zones rest (ground arith),
    )

length-steps_then :
    (board : List Zone) (steps : List IrrigationProgramStepConfiguration) (rest : Bytes)
    → steps_are_valid board steps ≡ true
    → length (steps_then steps rest) ≤ 36 * length steps + length rest
unfolding steps_then steps_are_valid
length-steps_then board [] rest h = omega arith
length-steps_then board (step ∷ steps) rest h = omega (
  arith,
  length-text_then step.zone_id (put_u32 step.duration_ms ++ steps_then steps rest) (ground arith),
  length-steps_then board steps rest (ground arith),
)

steps_bounded :
    (board : List Zone) (before : List Text) (program : IrrigationProgramConfiguration)
    (programs : List IrrigationProgramConfiguration)
    → programs_are_valid board before (program ∷ programs) ≡ true
    → length program.steps ≤ max_program_steps
unfolding programs_are_valid
steps_bounded board before program programs h = ground arith

length-programs_then :
    (board : List Zone) (before : List Text) (programs : List IrrigationProgramConfiguration)
    (rest : Bytes)
    → programs_are_valid board before programs ≡ true
    → length (programs_then programs rest) ≤ 353 * length programs + length rest
unfolding programs_then programs_are_valid
length-programs_then board before [] rest h = omega arith
length-programs_then board before (program ∷ programs) rest h =
    let next = programs_then programs rest in
    let steps = length program.steps ∷ steps_then program.steps next in
    omega (
      arith,
      steps_bounded board before program programs h,
      length-text_then program.program_id (text_then program.display_name steps) (ground arith),
      length-text_then program.display_name steps (ground arith),
      length-steps_then board program.steps next (ground arith),
      length-programs_then board (before ++ program.program_id ∷ []) programs rest (ground arith),
    )

length-schedules_then :
    (programs : List IrrigationProgramConfiguration) (before : List Text)
    (schedules : List IrrigationScheduleConfiguration) (rest : Bytes)
    → schedules_are_valid programs before schedules ≡ true
    → length (schedules_then schedules rest) ≤ 68 * length schedules + length rest
unfolding schedules_then schedules_are_valid
length-schedules_then programs before [] rest h = omega arith
length-schedules_then programs before (schedule ∷ schedules) rest h =
    let next = schedules_then schedules rest in
    omega (
      arith,
      length-text_then schedule.schedule_id
          (schedule_fields schedule ++ text_then schedule.program_id next) (ground arith),
      length-text_then schedule.program_id next (ground arith),
      length-schedules_then programs (before ++ schedule.schedule_id ∷ []) schedules rest
          (ground arith),
    )

abbrev pub payload_of : IrrigationConfiguration → Bytes
payload_of configuration = payload_start configuration ++ lists_then configuration

pub length-payload_of :
    (c : IrrigationConfiguration) (board : List Zone)
    → irrigation_configuration_validate (some c) (some board) ≡ ok
    → length (payload_of c) ≤ max_payload_size
length-payload_of c board v =
    let g = validate-IsValid c board v in
    let third = schedules_then c.schedules [] in
    let second = programs_then c.programs third in
    omega (
      arith,
      g.zone_count,
      g.program_count,
      g.schedule_count,
      length-zones_then board [] c.zones second g.zones,
      length-programs_then board [] c.programs third g.programs,
      length-schedules_then c.programs [] c.schedules [] g.schedules,
    )

pub encode_payload_lem :
    (c : IrrigationConfiguration) (board : List Zone)
    → irrigation_configuration_validate (some c) (some board) ≡ ok
    → encode_payload c ≡ some (payload_of c)
unfolding encode_payload
encode_payload_lem c board v =
    let g = validate-IsValid c board v in
    rw
      (
        encode_zones_lem board [] c.zones g.zones,
        encode_programs_lem board [] c.programs g.programs,
        encode_schedules_lem c.programs [] c.schedules g.schedules,
        programs_then-append c.programs [] (schedules_then c.schedules []),
        zones_then-append c.zones [] (programs_then c.programs (schedules_then c.schedules [])),
      )
      refl

pub crc32_bound : (bytes : Bytes) → crc32 bytes < 2 ^ 32
unfolding crc32
crc32_bound bytes = omega arith

-- The blob that the encoder writes for a valid configuration.
abbrev pub blob_of : ℕ → IrrigationConfiguration → Bytes
blob_of generation c = header generation (payload_of c) ++ payload_of c
