-- ===== src/StateStore.antt =====
-- firmware/app/state/state_store.h: the runtime state that every service shares.
-- An array with its count is a list; times and durations are unsigned integers of C.
-- `StateStore *` is never NULL here: each caller tests its own pointer before the call.
pub mod Zones
pub mod MasterValve
pub mod Program
pub mod Scheduler
pub mod Writes
pub mod Consistent
pub mod Outcomes
pub mod Safety
pub mod Boot
pub mod Tests
use irrigation_controller.Prelude.{ℕ, ◌+◌, ◌^◌, ◌-◌, ◌%◌, List, [], Text, replicate}
use irrigation_controller.Domain.{max_outputs, max_schedules}

-- `open` is a reserved word of the language, so OPEN is spelled `opened` throughout.
pub data SystemState : Type 0 where
  boot ready running manual ota maintenance error : SystemState

pub data ZoneState : Type 0 where
  disabled idle opening opened closing fault : ZoneState

pub data OutputState : Type 0 where
  off on unknown : OutputState

pub data MasterValveState : Type 0 where
  closed opening opened closing fault : MasterValveState

pub data ProgramState : Type 0 where
  idle waiting_master running_zone waiting_post_program_delay completed aborted fault : ProgramState

pub data ScheduleOccurrenceStatus : Type 0 where
  none started skipped_busy rejected : ScheduleOccurrenceStatus

pub record MasterValveRuntimeState : Type 0 where
  pub state : MasterValveState
  pub opening_confirmed_at_ms : ℕ  -- uint64_t
  pub pre_open_delay_ms : ℕ  -- uint32_t

pub record ProgramRuntimeState : Type 0 where
  pub state : ProgramState
  pub current_step_index : ℕ
  pub step_started_at_ms : ℕ  -- uint64_t

-- Both arrays have `max_schedules` places, whatever `entry_count` is.
pub record SchedulerRuntimeState : Type 0 where
  pub last_handled_occurrence : List ℕ  -- uint64_t
  pub last_occurrence_status : List ScheduleOccurrenceStatus
  pub entry_count : ℕ

pub record ZoneRuntimeState : Type 0 where
  pub zone_id : Text
  pub output_id : Text
  pub output_index : ℕ
  pub state : ZoneState
  pub opened_at_ms : ℕ  -- uint64_t
  pub duration_ms : ℕ  -- uint32_t

-- `zone_count` is the length of `zones`; `output_states` has `max_outputs` places.
pub record RuntimeState : Type 0 where
  pub system_state : SystemState
  pub output_states : List OutputState
  pub master_valve : MasterValveRuntimeState
  pub program : ProgramRuntimeState
  pub scheduler : SchedulerRuntimeState
  pub zones : List ZoneRuntimeState

-- The struct has the one member `current`.
abbrev pub StateStore : Type 0
StateStore = RuntimeState

-- `UINT64_MAX`, the mark of an entry with no handled occurrence.
abbrev pub schedule_occurrence_unhandled : ℕ
schedule_occurrence_unhandled = 2 ^ 64 - 1

-- `a - b` on uint64_t.
abbrev pub sub_u64 : ℕ → ℕ → ℕ
sub_u64 a b = (a + 2 ^ 64 - b) % 2 ^ 64

unfoldable pub state_store_init : StateStore
state_store_init = record {
  system_state = SystemState.boot;
  output_states = replicate max_outputs off;
  master_valve = record {
    state = MasterValveState.closed;
    opening_confirmed_at_ms = 0;
    pre_open_delay_ms = 0;
  };
  program = record { state = ProgramState.idle; current_step_index = 0; step_started_at_ms = 0 };
  scheduler = record {
    last_handled_occurrence = replicate max_schedules schedule_occurrence_unhandled;
    last_occurrence_status = replicate max_schedules ScheduleOccurrenceStatus.none;
    entry_count = 0;
  };
  zones = [];
}

unfoldable pub state_store_snapshot : StateStore → RuntimeState
state_store_snapshot store = store
