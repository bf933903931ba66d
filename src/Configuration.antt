-- ===== src/Configuration.antt =====
-- firmware/app/configuration/irrigation_configuration.c: the persistent configuration, validated.
-- A char array is the text before its NUL; an array with its count is a list.
use irrigation_controller.Prelude.{
  ℕ, ◌/◌, ◌^◌, ◌==◌, Bool, true, false, not, ◌&&◌, ◌||◌, if◌then◌else◌, Option, none, some, List,
  [], ◌∷◌, ◌++◌, Text, text_eq, length, ltb, leb,
}
use irrigation_controller.Result.{IrrigationResult, ok, rejected}
use irrigation_controller.Domain.{Zone, max_zones, max_programs, max_program_steps, max_schedules}

abbrev pub schema_version : ℕ
schema_version = 1

abbrev pub id_size : ℕ
id_size = 32

abbrev pub max_step_duration_ms : ℕ
max_step_duration_ms = 3600000

pub record IrrigationZoneConfiguration : Type 0 where
  pub zone_id : Text
  pub display_name : Text

pub record IrrigationProgramStepConfiguration : Type 0 where
  pub zone_id : Text
  pub duration_ms : ℕ  -- uint32_t

pub record IrrigationProgramConfiguration : Type 0 where
  pub program_id : Text
  pub display_name : Text
  pub steps : List IrrigationProgramStepConfiguration

pub record IrrigationScheduleConfiguration : Type 0 where
  pub schedule_id : Text
  pub enabled : Bool
  pub weekday_mask : ℕ  -- uint8_t, as the next two
  pub hour : ℕ
  pub minute : ℕ
  pub program_id : Text

pub record IrrigationConfiguration : Type 0 where
  pub schema : ℕ  -- `schema_version`, uint16_t
  pub zones : List IrrigationZoneConfiguration
  pub programs : List IrrigationProgramConfiguration
  pub schedules : List IrrigationScheduleConfiguration
  pub next_program_id : ℕ  -- uint32_t, as the next
  pub next_schedule_id : ℕ

-- `isalnum` in the C locale, or one of the three characters.
abbrev pub character_is_valid : ℕ → Bool
character_is_valid c =
    (leb 48 c && leb c 57)
    || (leb 65 c && leb c 90)
    || (leb 97 c && leb c 122)
    || c == 32
    || c == 45
    || c == 95

-- The loop of `text_is_valid`.
unfoldable pub characters_are_valid : Text → Bool
characters_are_valid [] = true
characters_are_valid (c ∷ cs) = character_is_valid c && characters_are_valid cs

unfoldable pub text_is_valid : Text → ℕ → Bool
unfolding characters_are_valid
text_is_valid text maximum_length =
    not (length text == 0) && ltb (length text) maximum_length && characters_are_valid text

-- `strcmp` with a zone's id, which is not NULL on the board.
unfoldable pub board_zone_exists : List Zone → Text → Bool
board_zone_exists [] zone_id = false
board_zone_exists (zone ∷ zones) zone_id =
    (elim zone.id [ none ↦ false | some id ↦ text_eq id zone_id ])
    || board_zone_exists zones zone_id

unfoldable pub program_exists : List IrrigationProgramConfiguration → Text → Bool
program_exists [] program_id = false
program_exists (program ∷ programs) program_id =
    text_eq program.program_id program_id || program_exists programs program_id

-- The loops over `previous` that look for the same id.
unfoldable pub is_repeated : Text → List Text → Bool
is_repeated id [] = false
is_repeated id (previous ∷ rest) = text_eq previous id || is_repeated id rest

unfoldable pub zones_are_valid : List Zone → List Text → List IrrigationZoneConfiguration → Bool
unfolding text_is_valid board_zone_exists is_repeated
zones_are_valid board_zones before [] = true
zones_are_valid board_zones before (zone ∷ zones) =
    text_is_valid zone.zone_id id_size
    && text_is_valid zone.display_name id_size
    && board_zone_exists board_zones zone.zone_id
    && not (is_repeated zone.zone_id before)
    && zones_are_valid board_zones (before ++ zone.zone_id ∷ []) zones

unfoldable pub steps_are_valid : List Zone → List IrrigationProgramStepConfiguration → Bool
unfolding text_is_valid board_zone_exists
steps_are_valid board_zones [] = true
steps_are_valid board_zones (step ∷ steps) =
    text_is_valid step.zone_id id_size
    && board_zone_exists board_zones step.zone_id
    && not (step.duration_ms == 0)
    && leb step.duration_ms max_step_duration_ms
    && steps_are_valid board_zones steps

unfoldable pub programs_are_valid :
    List Zone → List Text → List IrrigationProgramConfiguration → Bool
unfolding text_is_valid is_repeated steps_are_valid
programs_are_valid board_zones before [] = true
programs_are_valid board_zones before (program ∷ programs) =
    text_is_valid program.program_id id_size
    && text_is_valid program.display_name id_size
    && leb (length program.steps) max_program_steps
    && not (is_repeated program.program_id before)
    && steps_are_valid board_zones program.steps
    && programs_are_valid board_zones (before ++ program.program_id ∷ []) programs

unfoldable pub schedules_are_valid :
    List IrrigationProgramConfiguration → List Text → List IrrigationScheduleConfiguration → Bool
unfolding text_is_valid program_exists is_repeated
schedules_are_valid programs before [] = true
schedules_are_valid programs before (schedule ∷ schedules) =
    text_is_valid schedule.schedule_id id_size
    && text_is_valid schedule.program_id id_size
    && program_exists programs schedule.program_id
    && not (schedule.weekday_mask == 0)
    && schedule.weekday_mask / 2 ^ 7 == 0
    && ltb schedule.hour 24
    && ltb schedule.minute 60
    && not (is_repeated schedule.schedule_id before)
    && schedules_are_valid programs (before ++ schedule.schedule_id ∷ []) schedules

-- `none` stands for NULL.
unfoldable pub irrigation_configuration_validate :
    Option IrrigationConfiguration → Option (List Zone) → IrrigationResult
unfolding zones_are_valid programs_are_valid schedules_are_valid
irrigation_configuration_validate (some configuration) (some board_zones) =
    if not (configuration.schema == schema_version)
      || ltb max_zones (length board_zones)
      || not (length configuration.zones == length board_zones)
      || ltb max_programs (length configuration.programs)
      || ltb max_schedules (length configuration.schedules)
      || not (zones_are_valid board_zones [] configuration.zones)
      || not (programs_are_valid board_zones [] configuration.programs)
      || not (schedules_are_valid configuration.programs [] configuration.schedules)
    then rejected
    else ok
irrigation_configuration_validate _ _ = rejected
