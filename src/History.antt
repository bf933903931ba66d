-- ===== src/History.antt =====
-- firmware/domain/history/program_execution_history.c: the record of program executions, built
-- from the events of the program service.
pub mod Traces
use irrigation_controller.Prelude.{
  ℕ, zero, suc, ◌+◌, ◌%◌, ◌^◌, Bool, true, false, not, ◌&&◌, ◌||◌, if◌then◌else◌, Option, none,
  some, List, [], ◌∷◌, ◌++◌, Text, length, get_elem?, leb, is_none,
}
use irrigation_controller.Result.{IrrigationResult, ok, rejected, not_found, is_ok}
use irrigation_controller.Domain.{
  ProgramExecutionOrigin, ProgramExecutionResult, max_program_history_records,
}
use irrigation_controller.StateStore.{sub_u64}
use irrigation_controller.Events.{Event, EventType}

abbrev pub id_max_length : ℕ
id_max_length = 48

pub record ProgramExecutionTimestamp : Type 0 where
  pub value_ms : ℕ  -- uint64_t
  pub valid : Bool

pub record ProgramExecutionHistoryRecord : Type 0 where
  pub program_id : Text
  pub origin : ProgramExecutionOrigin
  pub schedule_id : Text
  pub schedule_id_valid : Bool
  pub started_at : ProgramExecutionTimestamp
  pub ended_at : ProgramExecutionTimestamp
  pub planned_duration_ms : ℕ  -- uint32_t
  pub actual_duration_ms : ℕ  -- uint64_t
  pub result : ProgramExecutionResult
  pub steps_started : ℕ  -- size_t of 32 bits, as the next
  pub steps_completed : ℕ
  pub last_active_zone_id : Text
  pub last_active_zone_id_valid : Bool

-- `append` is the repository's callback over the state `R` behind its context; `none` is NULL.
-- `records` holds the first `record_count` places of the array.
pub record ProgramExecutionHistory (R : Type 0) : Type 0 where
  pub append : Option (R → ProgramExecutionHistoryRecord → R × IrrigationResult)
  pub repository : R
  pub active : Bool  -- of `in_flight`, as the next
  pub in_flight : ProgramExecutionHistoryRecord
  pub records : List ProgramExecutionHistoryRecord

-- The record that `(ProgramExecutionHistoryRecord){0}` is.
abbrev pub zero_record : ProgramExecutionHistoryRecord
zero_record = record {
  program_id = [];
  origin = ProgramExecutionOrigin.manual;
  schedule_id = [];
  schedule_id_valid = false;
  started_at = record { value_ms = 0; valid = false };
  ended_at = record { value_ms = 0; valid = false };
  planned_duration_ms = 0;
  actual_duration_ms = 0;
  result = ProgramExecutionResult.completed;
  steps_started = 0;
  steps_completed = 0;
  last_active_zone_id = [];
  last_active_zone_id_valid = false;
}

-- `strncpy` of `n` bytes, and the NUL after them.
abbrev pub take_text : ℕ → Text → Text
take_text zero text = []
take_text (suc n) [] = []
take_text (suc n) (c ∷ cs) = c ∷ take_text n cs

abbrev pub copy_id : Option Text → Text
copy_id none = []
copy_id (some source) = take_text 47 source

-- The record of an execution that starts with this event.
abbrev pub record_of : Event → ProgramExecutionHistoryRecord
record_of event =
    let context = event.program_start_context in
    record zero_record {
      program_id = copy_id event.program_id;
      origin = context.origin;
      schedule_id = copy_id context.schedule_id;
      schedule_id_valid = not (is_none context.schedule_id);
      started_at = record { value_ms = event.timestamp_ms; valid = true };
      planned_duration_ms = event.program_planned_duration_ms;
    }

module _ {R : Type 0} where
  unfoldable pub program_execution_history_init :
      Option (R → ProgramExecutionHistoryRecord → R × IrrigationResult)
      → R
      → ProgramExecutionHistory R
  program_execution_history_init append repository = record {
    append = append;
    repository = repository;
    active = false;
    in_flight = zero_record;
    records = [];
  }

  -- After the repository's callback.
  unfoldable pub keep_record : ProgramExecutionHistory R → ProgramExecutionHistory R
  keep_record history = record history {
    records = history.records ++ history.in_flight ∷ [];
    active = false;
    in_flight = zero_record;
  }

  unfoldable pub append_terminal_record :
      ProgramExecutionHistory R → ProgramExecutionHistory R × IrrigationResult
  unfolding keep_record
  append_terminal_record history =
      if not history.active || leb max_program_history_records (length history.records)
      then (history, rejected)
      else elim history.append [
        | none ↦ (keep_record history, ok)
        | some append ↦
            let (repository, result) = append history.repository history.in_flight in
            let appended : ProgramExecutionHistory R = record history { repository = repository } in
            if not (is_ok result) then (appended, result) else (keep_record appended, ok)
      ]

  -- STEP_STARTED while an execution is in flight.
  unfoldable pub record_step_started : ProgramExecutionHistory R → Event → ProgramExecutionHistory R
  record_step_started history event =
      let flight = history.in_flight in
      record history {
        in_flight = record flight {
          steps_started = (flight.steps_started + 1) % 2 ^ 32;
          last_active_zone_id_valid = not (is_none event.zone_id);
          last_active_zone_id =
              (if is_none event.zone_id then flight.last_active_zone_id else copy_id event.zone_id);
        };
      }

  -- STEP_COMPLETED while an execution is in flight.
  unfoldable pub record_step_completed : ProgramExecutionHistory R → ProgramExecutionHistory R
  record_step_completed history =
      let flight = history.in_flight in
      record history {
        in_flight = record flight { steps_completed = (flight.steps_completed + 1) % 2 ^ 32 };
      }

  -- TERMINATED while an execution is in flight.
  unfoldable pub record_terminated : ProgramExecutionHistory R → Event → ProgramExecutionHistory R
  unfolding append_terminal_record
  record_terminated history event =
      let flight = history.in_flight in
      (append_terminal_record (record history {
        in_flight = record flight {
          ended_at = record { value_ms = event.timestamp_ms; valid = true };
          actual_duration_ms = sub_u64 event.timestamp_ms flight.started_at.value_ms;
          result = event.program_execution_result;
        };
      })).0

  -- STARTED: an execution in flight is kept, and the new one is not recorded.
  unfoldable pub record_started : ProgramExecutionHistory R → Event → ProgramExecutionHistory R
  record_started history event =
      if history.active
      then history
      else record history { in_flight = record_of event; active = true }

  unfoldable pub program_execution_history_handle_event :
      Event → ProgramExecutionHistory R → ProgramExecutionHistory R
  unfolding record_started record_step_started record_step_completed record_terminated
  program_execution_history_handle_event event history = elim event.type [
    | EventType.program_execution_started ↦ record_started history event
    | EventType.program_execution_step_started ↦
        if history.active then record_step_started history event else history
    | EventType.program_execution_step_completed ↦
        if history.active then record_step_completed history else history
    | EventType.program_execution_terminated ↦
        if history.active then record_terminated history event else history
    | _ ↦ history
  ]

  unfoldable pub program_execution_history_interrupt_active :
      ProgramExecutionHistory R → ℕ → Bool → ProgramExecutionHistory R × IrrigationResult
  unfolding append_terminal_record
  program_execution_history_interrupt_active history ended_at_ms ended_at_valid =
      let flight = history.in_flight in
      if not history.active
      then (history, not_found)
      else append_terminal_record (record history {
        in_flight = record flight {
          ended_at = record { value_ms = ended_at_ms; valid = ended_at_valid };
          actual_duration_ms =
              (if ended_at_valid && flight.started_at.valid
                then sub_u64 ended_at_ms flight.started_at.value_ms
                else 0);
          result = ProgramExecutionResult.interrupted_reboot;
        };
      })

  unfoldable pub program_execution_history_record_at :
      ProgramExecutionHistory R → ℕ → Option ProgramExecutionHistoryRecord
  program_execution_history_record_at history index = get_elem? history.records index

  unfoldable pub program_execution_history_count : ProgramExecutionHistory R → ℕ
  program_execution_history_count history = length history.records
