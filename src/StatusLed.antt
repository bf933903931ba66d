-- ===== src/StatusLed.antt =====
-- firmware/app/status/status_led_service.c and firmware/hal/status_led/status_led_driver.c. `L` is
-- the state of the LED's hardware. The service pointer is not NULL.
pub mod Shown
use irrigation_controller.Prelude.{Bool, true, false, not, if◌then◌else◌, Option, none, some}
use irrigation_controller.Result.{IrrigationResult, not_supported}

pub data StatusLedState : Type 0 where
  booting : StatusLedState
  ready : StatusLedState
  network_disconnected : StatusLedState
  fault : StatusLedState

-- The driver's `set_state`; `none` where the driver, its vtable or the function is NULL.
pub record StatusLedDriver (L : Type 0) : Type 0 where
  pub set_state : Option (L → StatusLedState → L × IrrigationResult)

pub record StatusLedService (L : Type 0) : Type 0 where
  pub driver : StatusLedDriver L
  pub network_state_known : Bool
  pub network_connected : Bool
  pub fault : Bool

module _ {L : Type 0} where
  unfoldable pub status_led_driver_set_state :
      StatusLedDriver L → L → StatusLedState → L × IrrigationResult
  status_led_driver_set_state driver led state = elim driver.set_state [
    | none ↦ (led, not_supported)
    | some set_state ↦ set_state led state
  ]

  unfoldable pub select_state : StatusLedService L → StatusLedState
  select_state service =
      if service.fault
      then StatusLedState.fault
      else if not service.network_state_known
      then StatusLedState.booting
      else if service.network_connected
      then StatusLedState.ready
      else StatusLedState.network_disconnected

  -- The hardware after the call.
  unfoldable pub apply_state : StatusLedService L → L → L
  unfolding status_led_driver_set_state select_state
  apply_state service led =
      (status_led_driver_set_state service.driver led (select_state service)).0

  unfoldable pub status_led_service_init : StatusLedDriver L → L → StatusLedService L × L
  unfolding apply_state
  status_led_service_init driver led =
      let service : StatusLedService L = record {
        driver = driver;
        network_state_known = false;
        network_connected = false;
        fault = false;
      } in
      (service, apply_state service led)

  unfoldable pub status_led_service_set_network_connected :
      StatusLedService L → Bool → StatusLedService L
  status_led_service_set_network_connected service connected = record service {
    network_state_known = true;
    network_connected = connected;
  }

  unfoldable pub status_led_service_set_fault : StatusLedService L → Bool → StatusLedService L
  status_led_service_set_fault service is_set = record service { fault = is_set }

  unfoldable pub status_led_service_refresh : StatusLedService L → L → L
  unfolding apply_state
  status_led_service_refresh service led = apply_state service led

  unfoldable pub status_led_service_state : StatusLedService L → StatusLedState
  unfolding select_state
  status_led_service_state service = select_state service
