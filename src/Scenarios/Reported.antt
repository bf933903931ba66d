-- ===== src/Scenarios/Reported.antt =====
-- The theorems on the event bus and the history, at concrete events.
use irrigation_controller.Prelude.{
  ℕ, suc, ◌≡◌, refl, Bool, true, false, if◌then◌else◌, Option, none, some, List, [], ◌∷◌, ◌++◌,
  Text, literal, arith, replicate,
}
use irrigation_controller.Result.{ok, rejected}
use irrigation_controller.Domain.{ProgramExecutionResult, program_start_context_manual}
use irrigation_controller.Events.{
  Event, EventType, EventBus, event_bus_publish, event_bus_subscribe,
}
use irrigation_controller.Events.Delivery.{
  present, deliver, is_empty, places_of, publish_lem, subscribe_lem,
}
use irrigation_controller.History.{
  ProgramExecutionHistory, ProgramExecutionHistoryRecord, zero_record,
}
use irrigation_controller.History.Traces.{
  Steps, IsRecordOf, handle_all, events_of, full_lem, execution_lem,
}

abbrev event_at : EventType → ℕ → Option Text → Event
event_at type timestamp_ms zone_id = record {
  id = literal "program-execution";
  timestamp_ms = timestamp_ms;
  source = literal "program_service";
  type = type;
  version = 1;
  zone_id = zone_id;
  program_id = some (literal "program-1");
  program_start_context = program_start_context_manual;
  program_execution_result = ProgramExecutionResult.completed;
  program_step_index = 0;
  program_planned_duration_ms = 6000;
}

abbrev start : Event
start = event_at EventType.program_execution_started 1000 none

abbrev end : Event
end = event_at EventType.program_execution_terminated 9000 none

abbrev steps : Steps
steps =
    (
      event_at EventType.program_execution_step_started 2000 (some (literal "zone-1")),
      event_at EventType.program_execution_step_completed 7000 (some (literal "zone-1")),
    )
    ∷ []

-- A subscriber that counts.
abbrev count_event : Event → ℕ → ℕ
count_event event n = suc n

abbrev counting_bus : EventBus ℕ
counting_bus = record { subscriptions = places_of (count_event ∷ count_event ∷ []) 2 }

publish_lem_example : event_bus_publish counting_bus start 0 ≡ (
  deliver (present counting_bus.subscriptions) start 0,
  if is_empty (present counting_bus.subscriptions) then rejected else ok,
)
publish_lem_example = publish_lem counting_bus start 0

test_publish : event_bus_publish counting_bus start 0 ≡ (2, ok)
unfolding event_bus_publish
test_publish = refl

subscribe_lem_example :
    event_bus_subscribe counting_bus (some count_event)
    ≡ (record { subscriptions = places_of (count_event ∷ count_event ∷ count_event ∷ []) 1 }, ok)
subscribe_lem_example = subscribe_lem count_event (count_event ∷ count_event ∷ []) 2

-- A history with no repository, as the firmware has it.
abbrev history_with : Bool → List ProgramExecutionHistoryRecord → ProgramExecutionHistory (Unit {0})
history_with active records = record {
  append = none;
  repository = tt;
  active = active;
  in_flight = zero_record;
  records = records;
}

execution_lem_example :
    let history' = handle_all (start ∷ events_of steps (end ∷ [])) (history_with false []) in
    (r : ProgramExecutionHistoryRecord) × IsRecordOf start end 1 r
    × (history'.records ≡ [] ++ r ∷ [])
    × (history'.active ≡ false)
execution_lem_example =
    execution_lem start end steps (history_with false []) refl refl (refl, refl, tt) (omega arith)
      refl refl (omega arith)

full_lem_example :
    let history = history_with true (replicate 16 zero_record) in
    let history' = handle_all (start ∷ events_of steps (end ∷ [])) history in
    (history'.active ≡ true)
    × (history'.records ≡ history.records)
    × (history'.in_flight.program_id ≡ history.in_flight.program_id)
    × (history'.in_flight.started_at ≡ history.in_flight.started_at)
full_lem_example =
    full_lem (start ∷ events_of steps (end ∷ [])) (history_with true (replicate 16 zero_record))
      refl (omega arith)
