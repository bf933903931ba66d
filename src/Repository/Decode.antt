-- ===== src/Repository/Decode.antt =====
-- firmware/infrastructure/persistence/configuration_repository.c: `configuration_repository_decode`.
use irrigation_controller.Prelude.{
  ℕ, zero, suc, ◌+◌, ◌==◌, not, ◌||◌, if◌then◌else◌, Option, none, some, List, [], ◌∷◌, length, ltb,
}
use irrigation_controller.Result.{is_ok}
use irrigation_controller.Domain.{Zone, max_zones, max_programs, max_program_steps, max_schedules}
use irrigation_controller.Configuration.{
  IrrigationZoneConfiguration, IrrigationProgramStepConfiguration, IrrigationProgramConfiguration,
  IrrigationScheduleConfiguration, IrrigationConfiguration, schema_version,
  irrigation_configuration_validate,
}
use irrigation_controller.Repository.{
  Bytes, corrupt, incompatible, invalid_configuration, magic, header_size, max_payload_size, crc32,
  get_u8, get_u16, get_u32, get_text,
}
use irrigation_controller.Repository.Encode.{Stored, done, failed}

-- A read at the cursor: the value and the rest, or `none` for the return of CORRUPT.
abbrev pub Read : Type 0 → Type 0
Read A = Bytes → Option (A × Bytes)

infixl 5 ◌>>=◌
abbrev pub ◌>>=◌ : {A B : Type 0} → Read A → (A → Read B) → Read B
◌>>=◌ m f bytes = elim (m bytes) [ none ↦ none | some (a, rest) ↦ f a rest ]

abbrev pub return : {A : Type 0} → A → Read A
return a bytes = some (a, bytes)

-- A read of bytes that are known to be there.
abbrev pub sure : {A : Type 0} → (Bytes → A × Bytes) → Read A
sure get bytes = some (get bytes)

-- `cursor >= end` and `(size_t)(end - cursor) < 4U` are the return of CORRUPT.
unfoldable pub need : ℕ → Read (Unit {0})
need count bytes = if ltb (length bytes) count then none else some (tt, bytes)

unfoldable pub decode_zones : ℕ → Read (List IrrigationZoneConfiguration)
decode_zones zero = return []
decode_zones (suc count) = do
  zone_id ← get_text
  display_name ← get_text
  zones ← decode_zones count
  return (record { zone_id = zone_id; display_name = display_name } ∷ zones)

unfoldable pub decode_steps : ℕ → Read (List IrrigationProgramStepConfiguration)
decode_steps zero = return []
decode_steps (suc count) = do
  zone_id ← get_text
  _ ← need 4
  duration_ms ← sure get_u32
  steps ← decode_steps count
  return (record { zone_id = zone_id; duration_ms = duration_ms } ∷ steps)

-- `step_count`, and the test that follows it.
unfoldable pub decode_step_count : Read ℕ
decode_step_count bytes =
    let (count, rest) = get_u8 bytes in
    if ltb max_program_steps count then none else some (count, rest)

unfoldable pub decode_programs : ℕ → Read (List IrrigationProgramConfiguration)
decode_programs zero = return []
decode_programs (suc count) = do
  program_id ← get_text
  display_name ← get_text
  _ ← need 1
  step_count ← decode_step_count
  steps ← decode_steps step_count
  programs ← decode_programs count
  return (record { program_id = program_id; display_name = display_name; steps = steps } ∷ programs)

unfoldable pub decode_schedules : ℕ → Read (List IrrigationScheduleConfiguration)
decode_schedules zero = return []
decode_schedules (suc count) = do
  schedule_id ← get_text
  _ ← need 4
  enabled ← sure get_u8
  weekday_mask ← sure get_u8
  hour ← sure get_u8
  minute ← sure get_u8
  program_id ← get_text
  schedules ← decode_schedules count
  return (
      record {
        schedule_id = schedule_id;
        enabled = not (enabled == 0);
        weekday_mask = weekday_mask;
        hour = hour;
        minute = minute;
        program_id = program_id;
      }
      ∷ schedules)

-- The three loops. The first argument has the fields that come before them, with no elements.
unfoldable pub decode_lists : IrrigationConfiguration → ℕ → ℕ → ℕ → Read IrrigationConfiguration
unfolding decode_zones decode_programs decode_schedules
decode_lists start zone_count program_count schedule_count = do
  zones ← decode_zones zone_count
  programs ← decode_programs program_count
  schedules ← decode_schedules schedule_count
  return (record start { zones = zones; programs = programs; schedules = schedules })

-- After the loops: `cursor != end`, and the validation. `board_zones` is NULL where it is `none`.
unfoldable pub finish_decode :
    Option (List Zone) → Option (IrrigationConfiguration × Bytes) → Stored IrrigationConfiguration
unfolding irrigation_configuration_validate
finish_decode board_zones none = failed corrupt
finish_decode board_zones (some (configuration, byte ∷ rest)) = failed corrupt
finish_decode board_zones (some (configuration, [])) =
    if is_ok (irrigation_configuration_validate (some configuration) board_zones)
    then done configuration
    else failed invalid_configuration

-- The fields before the lists, read: the tests on them, and the rest.
unfoldable pub decode_counted :
    Option (List Zone) → ℕ → ℕ → ℕ → ℕ → ℕ → ℕ → ℕ → Bytes → Stored IrrigationConfiguration
unfolding decode_lists finish_decode
decode_counted board_zones size schema zone_count program_count schedule_count next_program_id
      next_schedule_id rest =
    let start : IrrigationConfiguration = record {
      schema = schema;
      zones = [];
      programs = [];
      schedules = [];
      next_program_id = next_program_id;
      next_schedule_id = next_schedule_id;
    } in
    if ltb size 13
    then failed corrupt
    else if not (schema == schema_version)
        || ltb max_zones zone_count
        || ltb max_programs program_count
        || ltb max_schedules schedule_count
    then failed incompatible
    else finish_decode board_zones (decode_lists start zone_count program_count schedule_count rest)

-- From the start of the payload on.
unfoldable pub decode_payload : Option (List Zone) → Bytes → Stored IrrigationConfiguration
unfolding decode_counted
decode_payload board_zones payload =
    let (schema, rest₀) = get_u16 payload in
    let (zone_count, rest₁) = get_u8 rest₀ in
    let (program_count, rest₂) = get_u8 rest₁ in
    let (schedule_count, rest₃) = get_u8 rest₂ in
    let (next_program_id, rest₄) = get_u32 rest₃ in
    let (next_schedule_id, rest₅) = get_u32 rest₄ in
    decode_counted board_zones (length payload) schema zone_count program_count schedule_count
      next_program_id next_schedule_id rest₅

-- The tests on the header. The first component is `*generation` after the call: it is written
-- before the length and the CRC are checked.
unfoldable pub check_header :
    Option (List Zone) → ℕ → ℕ → ℕ → ℕ → ℕ → ℕ → ℕ → Bytes → ℕ × Stored IrrigationConfiguration
unfolding decode_payload crc32
check_header board_zones before blob_length found_magic version generation payload_length stored_crc
      payload =
    if ltb blob_length header_size
    then (before, failed corrupt)
    else if not (found_magic == magic)
    then (before, failed corrupt)
    else if not (version == schema_version)
    then (before, failed incompatible)
    else if ltb max_payload_size payload_length
        || not (blob_length == header_size + payload_length)
        || not (crc32 payload == stored_crc)
    then (generation, failed corrupt)
    else (generation, decode_payload board_zones payload)

-- `generation` is what `*generation` held before.
unfoldable pub configuration_repository_decode :
    Bytes → ℕ → Option (List Zone) → ℕ × Stored IrrigationConfiguration
unfolding check_header
configuration_repository_decode blob generation board_zones =
    let (found_magic, rest₀) = get_u32 blob in
    let (version, rest₁) = get_u16 rest₀ in
    let (found_generation, rest₂) = get_u32 rest₁ in
    let (payload_length, rest₃) = get_u16 rest₂ in
    let (stored_crc, payload) = get_u32 rest₃ in
    check_header board_zones generation (length blob) found_magic version found_generation
      payload_length stored_crc payload
