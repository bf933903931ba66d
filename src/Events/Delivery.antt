-- ===== src/Events/Delivery.antt =====
-- What the event bus delivers, and who is subscribed.
use irrigation_controller.Prelude.{
  ℕ, zero, suc, ◌≡◌, refl, true, false, Bool, if◌then◌else◌, Option, none, some, List, [], ◌∷◌,
  ◌++◌, map, arith, replicate,
}
use irrigation_controller.Result.{ok, rejected}
use irrigation_controller.Events.{
  Event, EventBus, EventSubscriber, publish_loop, event_bus_publish, subscribe_loop,
  event_bus_subscribe,
}

abbrev pub is_empty {ℓ} : {A : Type ℓ} → List A → Bool
is_empty [] = true
is_empty (x ∷ xs) = false

module _ {H : Type 0} where
  -- The subscribers in the order of their places.
  unfoldable pub present : List (Option (EventSubscriber H)) → List (EventSubscriber H)
  present [] = []
  present (none ∷ places) = present places
  present (some subscriber ∷ places) = subscriber ∷ present places

  -- Each of them handles the event after the ones before it.
  unfoldable pub deliver : List (EventSubscriber H) → Event → H → H
  deliver [] event context = context
  deliver (subscriber ∷ rest) event context = deliver rest event (subscriber event context)

  publish_loop_lem :
      (places : List (Option (EventSubscriber H))) (event : Event) (context : H) (delivered : Bool)
      → publish_loop places event context delivered ≡ (
        deliver (present places) event context,
        if is_empty (present places) then delivered else true,
      )
  unfolding publish_loop deliver present
  publish_loop_lem [] event context delivered = refl
  publish_loop_lem (none ∷ places) event context delivered =
      publish_loop_lem places event context delivered
  publish_loop_lem (some subscriber ∷ places) event context delivered =
      ground (arith, publish_loop_lem places event (subscriber event context) true)

  -- A publication is handled by every subscriber, in the order of their places, each once; it
  -- returns OK if there is any subscriber, and REJECTED if there is none.
  pub publish_lem :
      (bus : EventBus H) (event : Event) (context : H)
      → event_bus_publish bus event context ≡ (
        deliver (present bus.subscriptions) event context,
        if is_empty (present bus.subscriptions) then rejected else ok,
      )
  unfolding event_bus_publish
  publish_lem bus event context =
      rw (publish_loop_lem bus.subscriptions event context false) (ground arith)

  -- A bus whose subscribers are `taken`, with `free` places after them.
  abbrev pub places_of : List (EventSubscriber H) → ℕ → List (Option (EventSubscriber H))
  places_of taken free = map some taken ++ replicate free none

  subscribe_loop_lem :
      (subscriber : EventSubscriber H) (taken : List (EventSubscriber H)) (free : ℕ)
      → subscribe_loop subscriber (places_of taken free)
        ≡ elim free [ zero ↦ none | suc left ↦ some (places_of (taken ++ subscriber ∷ []) left) ]
  unfolding subscribe_loop
  subscribe_loop_lem subscriber [] zero = refl
  subscribe_loop_lem subscriber [] (suc left) = refl
  subscribe_loop_lem subscriber (other ∷ taken) zero =
      rw (subscribe_loop_lem subscriber taken zero) refl
  subscribe_loop_lem subscriber (other ∷ taken) (suc left) =
      rw (subscribe_loop_lem subscriber taken (suc left)) refl

  -- On a bus whose free places come after its subscribers, a subscription takes the place after the last subscriber, while there is one, and is refused,
  -- with the bus as it was, when there is none.
  pub subscribe_lem :
      (subscriber : EventSubscriber H) (taken : List (EventSubscriber H)) (free : ℕ)
      → event_bus_subscribe (record { subscriptions = places_of taken free }) (some subscriber)
        ≡ elim free [
          | zero ↦ (record { subscriptions = places_of taken zero }, rejected)
          | suc left ↦ (record { subscriptions = places_of (taken ++ subscriber ∷ []) left }, ok)
        ]
  unfolding event_bus_subscribe
  subscribe_lem subscriber taken zero =
      rw (subscribe_loop_lem subscriber taken zero, event_bus_subscribe) refl
  subscribe_lem subscriber taken (suc left) =
      rw (subscribe_loop_lem subscriber taken (suc left), event_bus_subscribe) refl
