-- ===== src/Scenarios/Lit.antt =====
-- A status LED that keeps the state that it was given.
use irrigation_controller.Prelude.{◌≡◌, true, false, Option, none, some, List, [], ◌∷◌}
use irrigation_controller.Result.{ok}
use irrigation_controller.StatusLed.{
  StatusLedState, StatusLedDriver, status_led_driver_set_state, status_led_service_init,
  status_led_service_refresh, status_led_service_state,
}
use irrigation_controller.StatusLed.Shown.{
  LedCall, last_fault, last_network, shown, led_calls, led_state_lem,
}

abbrev keeping_led : StatusLedDriver (Option StatusLedState)
keeping_led = record { set_state = some (λ led state. (some state, ok)) }

-- A fault is told and goes away again, while the network comes and is lost.
abbrev led_story : List LedCall
led_story =
    LedCall.set_fault true
    ∷ LedCall.set_network_connected true
    ∷ LedCall.refresh
    ∷ LedCall.set_fault false
    ∷ LedCall.set_network_connected false
    ∷ []

led_state_lem_example :
    let (service, led') = led_calls led_story (status_led_service_init keeping_led none) in
    let expected = shown (last_fault false led_story) (last_network none led_story) in
    (status_led_service_state service ≡ expected)
    × (status_led_service_refresh service led'
        ≡ (status_led_driver_set_state keeping_led led' expected).0)
led_state_lem_example = led_state_lem keeping_led none led_story
