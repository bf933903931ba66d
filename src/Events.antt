-- ===== src/Events.antt =====
-- firmware/app/events: the event and the event bus. A subscriber changes the state behind its
-- context pointer; `H` is that state for all subscribers together.
pub mod Delivery
use irrigation_controller.Prelude.{
  ℕ, Bool, true, false, ◌||◌, if◌then◌else◌, Option, none, some, List, [], ◌∷◌, Text, replicate,
  is_none,
}
use irrigation_controller.Result.{IrrigationResult, ok, rejected}
use irrigation_controller.Domain.{ProgramStartContext, ProgramExecutionResult}

pub data EventType : Type 0 where
  system_ready : EventType
  output_safe_off : EventType
  zone_opened : EventType
  zone_closed : EventType
  zone_timed_out : EventType
  zone_faulted : EventType
  program_execution_started : EventType
  program_execution_step_started : EventType
  program_execution_step_completed : EventType
  program_execution_terminated : EventType

pub record Event : Type 0 where
  pub id : Text
  pub timestamp_ms : ℕ  -- uint64_t
  pub source : Text
  pub type : EventType
  pub version : ℕ  -- uint16_t
  pub zone_id : Option Text
  pub program_id : Option Text
  pub program_start_context : ProgramStartContext
  pub program_execution_result : ProgramExecutionResult
  pub program_step_index : ℕ
  pub program_planned_duration_ms : ℕ  -- uint32_t

abbrev pub max_subscribers : ℕ
max_subscribers = 4

abbrev pub EventSubscriber : Type 0 → Type 0
EventSubscriber H = Event → H → H

-- `none` is a place whose subscriber is NULL.
pub record EventBus (H : Type 0) : Type 0 where
  pub subscriptions : List (Option (EventSubscriber H))

module _ {H : Type 0} where
  unfoldable pub event_bus_init : Option (EventSubscriber H) → EventBus H
  event_bus_init subscriber = record { subscriptions = subscriber ∷ none ∷ none ∷ none ∷ [] }

  -- The loop of `event_bus_subscribe`; `none` is the end of the array.
  unfoldable pub subscribe_loop :
      EventSubscriber H
      → List (Option (EventSubscriber H))
      → Option (List (Option (EventSubscriber H)))
  subscribe_loop subscriber [] = none
  subscribe_loop subscriber (none ∷ rest) = some (some subscriber ∷ rest)
  subscribe_loop subscriber (some taken ∷ rest) = elim (subscribe_loop subscriber rest) [
    | none ↦ none
    | some rest' ↦ some (some taken ∷ rest')
  ]

  unfoldable pub event_bus_subscribe :
      EventBus H → Option (EventSubscriber H) → EventBus H × IrrigationResult
  unfolding subscribe_loop
  event_bus_subscribe bus none = (bus, rejected)
  event_bus_subscribe bus (some subscriber) = elim (subscribe_loop subscriber bus.subscriptions) [
    | none ↦ (bus, rejected)
    | some subscriptions ↦ (record { subscriptions = subscriptions }, ok)
  ]

  -- The loop of `event_bus_publish`, with `delivered`.
  unfoldable pub publish_loop : List (Option (EventSubscriber H)) → Event → H → Bool → H × Bool
  publish_loop [] event context delivered = (context, delivered)
  publish_loop (none ∷ rest) event context delivered = publish_loop rest event context delivered
  publish_loop (some subscriber ∷ rest) event context delivered =
      publish_loop rest event (subscriber event context) true

  unfoldable pub event_bus_publish : EventBus H → Event → H → H × IrrigationResult
  unfolding publish_loop
  event_bus_publish bus event context =
      let (context', delivered) = publish_loop bus.subscriptions event context false in
      (context', if delivered then ok else rejected)
