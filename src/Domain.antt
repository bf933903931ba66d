-- ===== src/Domain.antt =====
-- firmware/common/constants.h and the value types of firmware/domain: outputs, zones, programs.
-- A pointer that the code tests for NULL is an `Option`.
use irrigation_controller.Prelude.{
  ℕ, Bool, true, false, Option, none, some, List, [], ◌∷◌, Text, is_none,
}

abbrev pub local_output_count : ℕ
local_output_count = 8

abbrev pub max_zones : ℕ
max_zones = local_output_count

abbrev pub max_outputs : ℕ
max_outputs = local_output_count

abbrev pub max_programs : ℕ
max_programs = 4

abbrev pub max_program_steps : ℕ
max_program_steps = 8

abbrev pub max_schedules : ℕ
max_schedules = 16

abbrev pub max_program_history_records : ℕ
max_program_history_records = 16

pub record Output : Type 0 where
  pub id : Option Text
  pub driver_output_index : ℕ

pub record Zone : Type 0 where
  pub id : Option Text
  pub output : Option Output
  pub enabled : Bool
  pub default_duration_ms : ℕ

pub record ProgramStep : Type 0 where
  pub zone_id : Option Text
  pub duration_ms : ℕ

-- `step_count` is the length of `steps`.
pub record Program : Type 0 where
  pub id : Option Text
  pub steps : Option (List ProgramStep)
  pub post_program_delay_ms : ℕ

pub data ProgramExecutionOrigin : Type 0 where
  manual : ProgramExecutionOrigin
  scheduled : ProgramExecutionOrigin

pub record ProgramStartContext : Type 0 where
  pub origin : ProgramExecutionOrigin
  pub schedule_id : Option Text

pub data ProgramExecutionResult : Type 0 where
  completed : ProgramExecutionResult
  aborted : ProgramExecutionResult
  fault : ProgramExecutionResult
  interrupted_reboot : ProgramExecutionResult

-- `schedule_id != NULL && schedule_id[0] != '\0'`
abbrev is_named : Option Text → Bool
is_named none = false
is_named (some []) = false
is_named (some (c ∷ cs)) = true

unfoldable pub program_start_context_is_valid : ProgramStartContext → Bool
program_start_context_is_valid context = elim context.origin [
  | manual ↦ is_none context.schedule_id
  | scheduled ↦ is_named context.schedule_id
]

unfoldable pub program_start_context_manual : ProgramStartContext
program_start_context_manual = record { origin = ProgramExecutionOrigin.manual; schedule_id = none }
