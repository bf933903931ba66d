-- ===== src/StatusLed/Shown.antt =====
-- What the status LED shows after any calls of its service.
use irrigation_controller.Prelude.{
  ◌≡◌, refl, ap, ◌∙◌, Bool, true, false, if◌then◌else◌, Option, none, some, List, [], ◌∷◌, arith,
}
use irrigation_controller.StatusLed.{
  StatusLedState, StatusLedDriver, StatusLedService, status_led_driver_set_state, select_state,
  apply_state, status_led_service_init, status_led_service_set_network_connected,
  status_led_service_set_fault, status_led_service_refresh, status_led_service_state,
}

pub data LedCall : Type 0 where
  set_network_connected : Bool → LedCall
  set_fault : Bool → LedCall
  refresh : LedCall

-- The fault that was told last, if any was.
abbrev pub last_fault : Bool → List LedCall → Bool
last_fault told [] = told
last_fault told (LedCall.set_fault is_set ∷ calls) = last_fault is_set calls
last_fault told (call ∷ calls) = last_fault told calls

-- The state of the network that was told last, if any was.
abbrev pub last_network : Option Bool → List LedCall → Option Bool
last_network told [] = told
last_network told (LedCall.set_network_connected connected ∷ calls) =
    last_network (some connected) calls
last_network told (call ∷ calls) = last_network told calls

abbrev pub shown : Bool → Option Bool → StatusLedState
shown true network = StatusLedState.fault
shown false none = StatusLedState.booting
shown false (some true) = StatusLedState.ready
shown false (some false) = StatusLedState.network_disconnected

module _ {L : Type 0} where
  unfoldable pub led_call : LedCall → StatusLedService L × L → StatusLedService L × L
  led_call (LedCall.set_network_connected connected) (service, led) =
      (status_led_service_set_network_connected service connected, led)
  led_call (LedCall.set_fault is_set) (service, led) =
      (status_led_service_set_fault service is_set, led)
  led_call LedCall.refresh (service, led) = (service, status_led_service_refresh service led)

  unfoldable pub led_calls : List LedCall → StatusLedService L × L → StatusLedService L × L
  unfolding led_call
  led_calls [] r = r
  led_calls (call ∷ calls) r = led_calls calls (led_call call r)

  abbrev network_of : StatusLedService L → Option Bool
  network_of service = if service.network_state_known then some service.network_connected else none

  select_state-shown :
      (service : StatusLedService L)
      → select_state service ≡ shown service.fault (network_of service)
  unfolding select_state
  select_state-shown service = ground arith

  led_calls-driver :
      (calls : List LedCall) (r : StatusLedService L × L)
      → (led_calls calls r).0.driver ≡ r.0.driver
  unfolding led_calls led_call status_led_service_set_network_connected status_led_service_set_fault
  led_calls-driver [] r = refl
  led_calls-driver (LedCall.set_network_connected connected ∷ calls) (service, led) =
      led_calls-driver calls (status_led_service_set_network_connected service connected, led)
  led_calls-driver (LedCall.set_fault is_set ∷ calls) (service, led) =
      led_calls-driver calls (status_led_service_set_fault service is_set, led)
  led_calls-driver (LedCall.refresh ∷ calls) (service, led) =
      led_calls-driver calls (service, status_led_service_refresh service led)

  led_calls-state :
      (calls : List LedCall) (r : StatusLedService L × L)
      → status_led_service_state (led_calls calls r).0
        ≡ shown (last_fault r.0.fault calls) (last_network (network_of r.0) calls)
  unfolding led_calls led_call status_led_service_state status_led_service_set_network_connected
      status_led_service_set_fault
  led_calls-state [] (service, led) = select_state-shown service
  led_calls-state (LedCall.set_network_connected connected ∷ calls) (service, led) =
      led_calls-state calls (status_led_service_set_network_connected service connected, led)
  led_calls-state (LedCall.set_fault is_set ∷ calls) (service, led) =
      led_calls-state calls (status_led_service_set_fault service is_set, led)
  led_calls-state (LedCall.refresh ∷ calls) (service, led) =
      led_calls-state calls (service, status_led_service_refresh service led)

  -- After the start of the service and any calls of it, its state is FAULT if the fault that was
  -- told last is set; else BOOTING while no state of the network has been told, and else READY or
  -- NETWORK_DISCONNECTED by the one that was told last. A refresh then has the driver show that
  -- state.
  pub led_state_lem :
      (driver : StatusLedDriver L) (led : L) (calls : List LedCall)
      → let (service, led') = led_calls calls (status_led_service_init driver led) in
        let expected = shown (last_fault false calls) (last_network none calls) in
        (status_led_service_state service ≡ expected)
        × (status_led_service_refresh service led'
            ≡ (status_led_driver_set_state driver led' expected).0)
  unfolding status_led_service_init status_led_service_refresh apply_state status_led_service_state
  led_state_lem driver led calls =
      let r = status_led_service_init driver led in
      let (service, led') = led_calls calls r in
      (
        led_calls-state calls r,
        ap (λ state. (status_led_driver_set_state service.driver led' state).0)
              (led_calls-state calls r)
            ∙ ap
                (λ driver'.
                  (status_led_driver_set_state driver' led'
                    (shown (last_fault false calls) (last_network none calls))).0)
                (led_calls-driver calls r),
      )
