-- ===== src/History/Traces.antt =====
-- What a run of events leaves in the history.
use irrigation_controller.Prelude.{
  ℕ, suc, ◌+◌, ◌^◌, ◌≡◌, ◌≤◌, ◌<◌, refl, ap, ◌∙◌, true, false, none, List, [], ◌∷◌, ◌++◌, arith,
  length, leb,
}
use irrigation_controller.Domain.{max_program_history_records}
use irrigation_controller.StateStore.{sub_u64}
use irrigation_controller.Events.{Event, EventType}
use irrigation_controller.History.{
  ProgramExecutionHistory, ProgramExecutionHistoryRecord, record_of, copy_id, keep_record,
  append_terminal_record, record_step_started, record_step_completed, record_terminated,
  record_started, program_execution_history_handle_event,
}

-- The events of the steps of an execution: a start and a completion for each.
abbrev pub Steps : Type 0
Steps = List (Event × Event)

abbrev pub AreSteps : Steps → Type 0
AreSteps [] = Unit {0}
AreSteps ((start, end) ∷ steps) =
    (start.type ≡ EventType.program_execution_step_started)
    × (end.type ≡ EventType.program_execution_step_completed)
    × AreSteps steps

abbrev pub events_of : Steps → List Event → List Event
events_of [] rest = rest
events_of ((start, end) ∷ steps) rest = start ∷ end ∷ events_of steps rest

abbrev pub count_steps : Steps → ℕ
count_steps [] = 0
count_steps (step ∷ steps) = suc (count_steps steps)

-- The record that an execution is to leave.
pub record IsRecordOf (start end : Event) (steps : ℕ) (r : ProgramExecutionHistoryRecord)
    : Type 0 where
  pub program_id : r.program_id ≡ copy_id start.program_id
  pub origin : let context = start.program_start_context in r.origin ≡ context.origin
  pub steps_started : r.steps_started ≡ steps
  pub steps_completed : r.steps_completed ≡ steps
  pub duration : r.actual_duration_ms ≡ sub_u64 end.timestamp_ms start.timestamp_ms
  pub result : r.result ≡ end.program_execution_result

module _ {R : Type 0} where
  -- The events of a run, the first first.
  unfoldable pub handle_all : List Event → ProgramExecutionHistory R → ProgramExecutionHistory R
  handle_all [] history = history
  handle_all (event ∷ events) history =
      handle_all events (program_execution_history_handle_event event history)

  full_step :
      (event : Event) (history : ProgramExecutionHistory R)
      → history.active ≡ true
      → max_program_history_records ≤ length history.records
      → let history' = program_execution_history_handle_event event history in
        (history'.active ≡ true)
        × (history'.records ≡ history.records)
        × (history'.in_flight.program_id ≡ history.in_flight.program_id)
        × (history'.in_flight.started_at ≡ history.in_flight.started_at)
  unfolding program_execution_history_handle_event record_started record_step_started
      record_step_completed record_terminated append_terminal_record
  full_step event history active full = (ground arith, ground arith, ground arith, ground arith)

  -- A history that is full while an execution is in flight records nothing more, whatever events
  -- come: the records stay, and that execution, by its program and its start, stays in flight.
  pub full_lem :
      (events : List Event) (history : ProgramExecutionHistory R)
      → history.active ≡ true
      → max_program_history_records ≤ length history.records
      → let history' = handle_all events history in
        (history'.active ≡ true)
        × (history'.records ≡ history.records)
        × (history'.in_flight.program_id ≡ history.in_flight.program_id)
        × (history'.in_flight.started_at ≡ history.in_flight.started_at)
  unfolding handle_all
  full_lem [] history active full = (active, refl, refl, refl)
  full_lem (event ∷ events) history active full =
      let (active', records, program, start) = full_step event history active full in
      let history' = program_execution_history_handle_event event history in
      let (a, r, p, t) =
        full_lem events history' active' (omega (arith, ap length records, full)) in
      (a, r ∙ records, p ∙ program, t ∙ start)

  -- What the steps leave alone, and what they count.
  record HasRun (steps : ℕ) (history history' : ProgramExecutionHistory R) : Type 0 where
    active : history'.active ≡ true
    append : history'.append ≡ history.append
    records : history'.records ≡ history.records
    program_id : history'.in_flight.program_id ≡ history.in_flight.program_id
    origin : history'.in_flight.origin ≡ history.in_flight.origin
    started_at : history'.in_flight.started_at ≡ history.in_flight.started_at
    started : history'.in_flight.steps_started ≡ history.in_flight.steps_started + steps
    completed : history'.in_flight.steps_completed ≡ history.in_flight.steps_completed + steps

  one_step :
      (start end : Event) (history : ProgramExecutionHistory R)
      → start.type ≡ EventType.program_execution_step_started
      → end.type ≡ EventType.program_execution_step_completed
      → history.active ≡ true
      → history.in_flight.steps_started + 1 < 2 ^ 32
      → history.in_flight.steps_completed + 1 < 2 ^ 32
      → HasRun 1 history (
          program_execution_history_handle_event end
            (program_execution_history_handle_event start history))
  unfolding program_execution_history_handle_event record_step_started record_step_completed
  one_step start end history s e active x y =
      rw (s, e, active)
        (record {
          active = refl;
          append = refl;
          records = refl;
          program_id = refl;
          origin = refl;
          started_at = refl;
          started = omega arith;
          completed = omega arith;
        })

  run_steps :
      (steps : Steps) (rest : List Event) (history : ProgramExecutionHistory R)
      → AreSteps steps
      → history.active ≡ true
      → history.in_flight.steps_started + count_steps steps < 2 ^ 32
      → history.in_flight.steps_completed + count_steps steps < 2 ^ 32
      → (history' : ProgramExecutionHistory R) × HasRun (count_steps steps) history history'
        × (handle_all (events_of steps rest) history ≡ handle_all rest history')
  unfolding handle_all
  run_steps [] rest history t active x y = (
    history,
    record {
      active = active;
      append = refl;
      records = refl;
      program_id = refl;
      origin = refl;
      started_at = refl;
      started = omega arith;
      completed = omega arith;
    },
    refl,
  )
  run_steps ((start, end) ∷ steps) rest history (s, e, t) active x y =
      let after =
        program_execution_history_handle_event end
          (program_execution_history_handle_event start history) in
      let one = one_step start end history s e active (omega arith) (omega arith) in
      let (history', run, same) =
        run_steps steps rest after t one.active (omega (arith, one.started))
          (omega (arith, one.completed)) in
      (
        history',
        record {
          active = run.active;
          append = run.append ∙ one.append;
          records = run.records ∙ one.records;
          program_id = run.program_id ∙ one.program_id;
          origin = run.origin ∙ one.origin;
          started_at = run.started_at ∙ one.started_at;
          started = omega (arith, run.started, one.started);
          completed = omega (arith, run.completed, one.completed);
        },
        same,
      )

  terminated_lem :
      (end : Event) (history : ProgramExecutionHistory R)
      → end.type ≡ EventType.program_execution_terminated
      → history.active ≡ true
      → history.append ≡ none
      → length history.records < max_program_history_records
      → let flight = history.in_flight in
        program_execution_history_handle_event end history
        ≡ keep_record (record history {
          in_flight = record flight {
            ended_at = record { value_ms = end.timestamp_ms; valid = true };
            actual_duration_ms = sub_u64 end.timestamp_ms flight.started_at.value_ms;
            result = end.program_execution_result;
          };
        })
  unfolding program_execution_history_handle_event record_terminated append_terminal_record
  terminated_lem end history e active none_ room =
      let free : leb max_program_history_records (length history.records) ≡ false = ground arith in
      ground (arith, free)

  started_lem :
      (start : Event) (history : ProgramExecutionHistory R)
      → start.type ≡ EventType.program_execution_started
      → history.active ≡ false
      → program_execution_history_handle_event start history
        ≡ record history { in_flight = record_of start; active = true }
  unfolding program_execution_history_handle_event record_started
  started_lem start history s idle = rw (s, record_started, idle) refl

  -- With no execution in flight, no repository callback and room for a record: the events of an
  -- execution, its start, a start and a completion for each of fewer than 2 ^ 32 steps, and its
  -- termination, add one record, with the program, the origin, the number of steps started and
  -- completed, the duration and the result; no execution is in flight after them.
  pub execution_lem :
      (start end : Event) (steps : Steps) (history : ProgramExecutionHistory R)
      → start.type ≡ EventType.program_execution_started
      → end.type ≡ EventType.program_execution_terminated
      → AreSteps steps
      → count_steps steps < 2 ^ 32
      → history.active ≡ false
      → history.append ≡ none
      → length history.records < max_program_history_records
      → let history' = handle_all (start ∷ events_of steps (end ∷ [])) history in
        (r : ProgramExecutionHistoryRecord) × IsRecordOf start end (count_steps steps) r
        × (history'.records ≡ history.records ++ r ∷ [])
        × (history'.active ≡ false)
  unfolding handle_all keep_record
  execution_lem start end steps history s e t few idle none_ room =
      let flying : ProgramExecutionHistory R = record history {
        in_flight = record_of start;
        active = true;
      } in
      let (after, run, same) =
        run_steps steps (end ∷ []) flying t refl (omega (arith, few)) (omega (arith, few)) in
      let begun = started_lem start history s idle in
      let ended =
        terminated_lem end after e run.active (run.append ∙ none_)
          (omega (arith, ap length run.records, room)) in
      let flight = after.in_flight in
      let r : ProgramExecutionHistoryRecord = record flight {
        ended_at = record { value_ms = end.timestamp_ms; valid = true };
        actual_duration_ms = sub_u64 end.timestamp_ms flight.started_at.value_ms;
        result = end.program_execution_result;
      } in
      let whole = ap (handle_all (events_of steps (end ∷ []))) begun ∙ same ∙ ended in
      (
        r,
        record {
          program_id = run.program_id;
          origin = run.origin;
          steps_started = omega (arith, run.started);
          steps_completed = omega (arith, run.completed);
          duration = ap (λ t. sub_u64 end.timestamp_ms t.value_ms) run.started_at;
          result = refl;
        },
        ap (λ h. h.records) whole ∙ ap (λ rs. rs ++ r ∷ []) run.records,
        ap (λ h. h.active) whole,
      )
