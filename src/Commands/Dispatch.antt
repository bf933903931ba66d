-- ===== src/Commands/Dispatch.antt =====
-- What a dispatched command can do to the device.
use irrigation_controller.Prelude.{
  ℕ, ◌||◌, ◌≡◌, ◌≢◌, refl, true, Option, none, some, Text, is_none, Pointer, is_null, arith, Bool,
  false, Bool-cases, inl, inr,
}
use irrigation_controller.Result.{IrrigationResult, is_ok, rejected, not_supported}
use irrigation_controller.StateStore.{MasterValveState, ZoneState}
use irrigation_controller.Device.{Device}
use irrigation_controller.ZoneService.{zone_service_open}
use irrigation_controller.ZoneService.Closing.{zone_service_close}
use irrigation_controller.ZoneService.Done.{HasZone, open-Done, close-Done}
use irrigation_controller.ProgramService.Refusals.{open-valve_shut}
use irrigation_controller.Commands.{
  Command, CommandBus, CommandType, command_bus_init, command_bus_dispatch, zone_command,
  zone_command_handler_dispatch,
}

-- A command that the handler has nothing to do with.
abbrev is_malformed : Pointer → Option Command → Bool
is_malformed service none = true
is_malformed service (some command) = is_null service || is_none command.zone_id

-- What a dispatch of a command has come to.
pub data DispatchOutcome {D V H : Type 0} (service : Pointer) (command : Option Command)
    (d : Device D V H) (r : Device D V H × IrrigationResult) : Type 0 where
  rejection :
      is_malformed service command ≡ true → r ≡ (d, rejected) → DispatchOutcome service command d r
  unsupported :
      (c : Command)
      → command ≡ some c
      → is_malformed service command ≡ false
      → c.type ≡ CommandType.system_ready
      → r ≡ (d, not_supported)
      → DispatchOutcome service command d r
  opening :
      (c : Command)
      → command ≡ some c
      → is_malformed service command ≡ false
      → c.type ≡ CommandType.open_zone
      → is_ok r.1 ≡ true
      → HasZone c.zone_id ZoneState.opened r.0.store
      → DispatchOutcome service command d r
  closing :
      (c : Command)
      → command ≡ some c
      → is_malformed service command ≡ false
      → c.type ≡ CommandType.close_zone
      → is_ok r.1 ≡ true
      → HasZone c.zone_id ZoneState.idle r.0.store
      → DispatchOutcome service command d r
  failure :
      (c : Command)
      → command ≡ some c
      → is_malformed service command ≡ false
      → c.type ≢ CommandType.system_ready
      → is_ok r.1 ≡ false
      → DispatchOutcome service command d r

module _ {D V H : Type 0} where
  -- A command bus that has been initialised with the zone command handler.
  abbrev pub zone_bus : CommandBus D V H → Pointer → Option (CommandBus D V H)
  unfolding command_bus_init
  zone_bus bus service = command_bus_init (some bus) (some zone_command_handler_dispatch) service

  zone_command_cases :
      (service : Pointer) (c : Command) (d : Device D V H) (type : CommandType)
      → c.type ≡ type
      → is_malformed service (some c) ≡ false
      → DispatchOutcome service (some c) d (zone_command type c.zone_id c.duration_ms d)
  unfolding zone_command
  zone_command_cases service c d CommandType.system_ready same well =
      DispatchOutcome.unsupported c refl well same refl
  zone_command_cases service c d CommandType.open_zone same well =
      elim (Bool-cases (is_ok (zone_service_open c.zone_id c.duration_ms d).1)) [
        | inl done ↦
            DispatchOutcome.opening c refl well same done (open-Done d c.zone_id c.duration_ms done)
        | inr stopped ↦ DispatchOutcome.failure c refl well (λ other. ground arith) stopped
      ]
  zone_command_cases service c d CommandType.close_zone same well =
      elim (Bool-cases (is_ok (zone_service_close c.zone_id d).1)) [
        | inl done ↦ DispatchOutcome.closing c refl well same done (close-Done d c.zone_id done)
        | inr stopped ↦ DispatchOutcome.failure c refl well (λ other. ground arith) stopped
      ]

  -- On a bus that has been initialised with the zone command handler, a dispatch has one of five
  -- outcomes. A NULL command, a command without a zone and a NULL service are REJECTED, with the
  -- device as it was; a command of a type that is not for zones is NOT_SUPPORTED, with the device as
  -- it was; a command to open a zone returns OK and the store has that zone as OPEN; a command to
  -- close a zone returns OK and the store has that zone as IDLE; or a command to open or to close a
  -- zone does not return OK.
  pub dispatch_cases :
      (bus : CommandBus D V H) (service : Pointer) (command : Option Command) (d : Device D V H)
      → DispatchOutcome service command d (command_bus_dispatch (zone_bus bus service) command d)
  unfolding command_bus_dispatch zone_command_handler_dispatch command_bus_init
  dispatch_cases bus service none d = DispatchOutcome.rejection refl refl
  dispatch_cases bus service (some c) d = elim (Bool-cases (is_malformed service (some c))) [
    | inl bad ↦ rw (bad, command_bus_dispatch) (DispatchOutcome.rejection bad refl)
    | inr well ↦ rw (well, command_bus_dispatch) (zone_command_cases service c d c.type refl well)
  ]

  zone_command-valve_shut :
      (d : Device D V H) (type : CommandType) (id : Option Text) (duration : ℕ)
      → d.store.master_valve.state ≢ MasterValveState.opened
      → is_ok (zone_command type id duration d).1 ≡ true
      → type ≡ CommandType.close_zone
  unfolding zone_command
  zone_command-valve_shut d CommandType.open_zone id duration shut done =
      absurd (ground (arith, (open-valve_shut d id duration shut).0))
  zone_command-valve_shut d CommandType.close_zone id duration shut done = refl
  zone_command-valve_shut d CommandType.system_ready id duration shut done = absurd (ground arith)

  -- On a bus that has been initialised with the zone command handler: while the master valve is not
  -- OPEN, a command whose dispatch returns OK is one to close a zone.
  pub dispatch-valve_shut :
      (bus : CommandBus D V H) (service : Pointer) (command : Command) (d : Device D V H)
      → d.store.master_valve.state ≢ MasterValveState.opened
      → is_ok (command_bus_dispatch (zone_bus bus service) (some command) d).1 ≡ true
      → command.type ≡ CommandType.close_zone
  unfolding command_bus_dispatch zone_command_handler_dispatch command_bus_init
  dispatch-valve_shut bus service command d shut done =
      zone_command-valve_shut d command.type command.zone_id command.duration_ms shut (ground arith)
