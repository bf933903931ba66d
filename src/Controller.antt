-- ===== src/Controller.antt =====
-- firmware/main/system_ready.c: the start of the firmware, and the calls that its tasks make.
-- Left out: logs, Wi-Fi, the web server, the mutex, the status LED, and the reading of the stored
-- configuration, whose schedule is an argument.
pub mod Safety
pub mod StepIndex
use irrigation_controller.Prelude.{
  ℕ, ◌≡◌, Bool, true, false, not, if◌then◌else◌, Option, none, some, List, [], ◌∷◌, Text, literal,
  Pointer,
}
use irrigation_controller.Result.{IrrigationResult, is_ok, rejected}
use irrigation_controller.Domain.{
  Output, Zone, Program, ProgramStartContext, ProgramExecutionResult, program_start_context_manual,
}
use irrigation_controller.StateStore.{StateStore, SystemState, state_store_init}
use irrigation_controller.StateStore.Zones.{
  state_store_transition_system, state_store_configure_zones,
}
use irrigation_controller.Events.{
  Event, EventType, EventBus, EventSubscriber, event_bus_init, event_bus_subscribe,
}
use irrigation_controller.Device.{
  Device, Op, OutputDriver, MasterValveDriver, SchedulerEntry, SchedulerTime, ◌>>=◌, ◌>>◌, return,
  on_store, publish, output_driver_initialize_safe_off,
}
use irrigation_controller.ZoneService.{zone_service_init}
use irrigation_controller.ZoneService.Safety.{ZoneCall, zone_call}
use irrigation_controller.MasterValveService.{
  master_valve_service_init, master_valve_service_zone_start_precondition,
  master_valve_service_open, master_valve_service_process_time, master_valve_service_close,
}
use irrigation_controller.ProgramService.{program_service_init, program_service_set_event_bus}
use irrigation_controller.ProgramService.Control.{
  program_service_start_with_context, program_service_process, program_service_abort,
}
use irrigation_controller.SchedulerService.{
  scheduler_service_init, scheduler_service_configure, scheduler_service_set_enabled,
}
use irrigation_controller.SchedulerService.Processing.{scheduler_service_process}

abbrev dev_output : Text → ℕ → Output
dev_output id driver_output_index = record {
  id = some id;
  driver_output_index = driver_output_index;
}

abbrev dev_zone : Text → Text → ℕ → Zone
dev_zone id output_id driver_output_index = record {
  id = some id;
  output = some (dev_output output_id driver_output_index);
  enabled = true;
  default_duration_ms = 30000;
}

-- `DEV_ZONES`, with `DEV_OUTPUTS`.
abbrev pub dev_zones : List Zone
dev_zones =
    dev_zone (literal "zone-1") (literal "dev-output-1") 0
    ∷ dev_zone (literal "zone-2") (literal "dev-output-2") 1
    ∷ dev_zone (literal "zone-3") (literal "dev-output-3") 2
    ∷ dev_zone (literal "zone-4") (literal "dev-output-4") 3
    ∷ []

abbrev pub no_program : Program
no_program = record { id = none; steps = none; post_program_delay_ms = 0 }

abbrev pub ready_event : Event
ready_event = record {
  id = literal "system-ready";
  timestamp_ms = 0;
  source = literal "main";
  type = EventType.system_ready;
  version = 1;
  zone_id = none;
  program_id = none;
  program_start_context = program_start_context_manual;
  program_execution_result = ProgramExecutionResult.completed;
  program_step_index = 0;
  program_planned_duration_ms = 0;
}

-- What the board and the subscribers bring: the drivers, the readings of the clock, the log and
-- the history's event handler.
pub record Board (D V H : Type 0) : Type 0 where
  pub output_driver : OutputDriver D
  pub outputs : D
  pub valve_driver : MasterValveDriver V
  pub valve : V
  pub now_ms : ℕ → ℕ
  pub log_event : EventSubscriber H
  pub history : EventSubscriber H
  pub context : H

module _ {D V H : Type 0} where
  -- The static variables before `app_main`: the store is initialised, the services are zero.
  abbrev pub power_on : Board D V H → Device D V H
  power_on board = record {
    store = state_store_init;
    clock = record { now_ms = some board.now_ms; reads = 0 };
    bus = record { subscriptions = [] };
    context = board.context;
    output_driver = board.output_driver;
    outputs = board.outputs;
    valve_driver = board.valve_driver;
    valve = board.valve;
    zone_service = record {
      state_store = Pointer.null;
      output_driver = Pointer.null;
      event_bus = Pointer.null;
      start_precondition = none;
      operation_lock = false;
    };
    master_valve_service = record {
      state_store = Pointer.null;
      driver = Pointer.null;
      operation_lock = false;
    };
    program_service = record {
      state_store = Pointer.null;
      master_valve_service = Pointer.null;
      zone_service = Pointer.null;
      event_bus = Pointer.null;
      program = no_program;
      start_context = program_start_context_manual;
      operation_lock = false;
    };
    scheduler_service = record {
      state_store = Pointer.null;
      program_service = Pointer.null;
      entries = [];
    };
  }

  unfoldable pub initialize_outputs : Op D V H IrrigationResult
  initialize_outputs d =
      let (outputs, result) = output_driver_initialize_safe_off d.output_driver d.outputs in
      (record d { outputs = outputs }, result)

  unfoldable pub start_event_bus : EventSubscriber H → Op D V H (Unit {0})
  start_event_bus log_event d =
      let d' : Device D V H = record d { bus = event_bus_init (some log_event) } in
      (publish ready_event >>= λ _. return tt) d'

  unfoldable pub subscribe_history : EventSubscriber H → Op D V H IrrigationResult
  subscribe_history history d =
      let (bus, result) = event_bus_subscribe d.bus (some history) in
      (record d { bus = bus }, result)

  -- The services, from `master_valve_service_init` to `program_service_set_event_bus`.
  unfoldable pub start_services : Op D V H (Unit {0})
  unfolding master_valve_service_init zone_service_init program_service_init
      program_service_set_event_bus
  start_services = do
    _ ← master_valve_service_init Pointer.valid Pointer.valid 500
    _ ← (λ d.
        zone_service_init Pointer.valid Pointer.valid Pointer.valid
          (master_valve_service_zone_start_precondition d.master_valve_service) d)
    _ ← program_service_init Pointer.valid Pointer.valid Pointer.valid no_program
    program_service_set_event_bus Pointer.valid

  -- From `program_execution_history_subscribe` on. True: the tasks are started.
  unfoldable pub start_scheduler : EventSubscriber H → List SchedulerEntry → Op D V H Bool
  unfolding subscribe_history scheduler_service_init scheduler_service_configure
  start_scheduler history entries = do
    subscribed ← subscribe_history history
    if not (is_ok subscribed) then return false else (do
      _ ← scheduler_service_init Pointer.valid Pointer.valid
      configured ← scheduler_service_configure entries
      return (is_ok configured))

  -- From the zones on.
  unfoldable pub start_zones : Board D V H → List SchedulerEntry → Op D V H Bool
  unfolding start_services start_scheduler
  start_zones board entries = do
    configured ← on_store (λ s. state_store_configure_zones s dev_zones)
    if not (is_ok configured)
        then return false
        else (do _ ← start_services; start_scheduler board.history entries)

  -- `app_main`: false where it returns early, with a fault on the LED.
  unfoldable pub app_main : Board D V H → List SchedulerEntry → Device D V H × Bool
  unfolding initialize_outputs start_event_bus start_zones
  app_main board entries =
      (do
        safe ← initialize_outputs
        if not (is_ok safe) then return false else (do
          entered ← on_store (λ s. state_store_transition_system s SystemState.ready)
          if not (is_ok entered)
              then return false
              else (do _ ← start_event_bus board.log_event; start_zones board entries)))
        (power_on board)

-- A call that a task, the web interface or the configuration makes.
pub data Call : Type 0 where
  zone : ZoneCall → Call
  valve_open : Call
  valve_process_time : Call
  valve_close : Call
  program_start : Option Program → ProgramStartContext → Call
  program_process : Call
  program_abort : Call
  scheduler_configure : List SchedulerEntry → Call
  scheduler_set_enabled : ℕ → Bool → Call
  scheduler_process : SchedulerTime → Call

module _ {D V H : Type 0} where
  unfoldable pub perform : Call → Op D V H IrrigationResult
  perform (Call.zone call) = zone_call call
  perform Call.valve_open = master_valve_service_open
  perform Call.valve_process_time = master_valve_service_process_time
  perform Call.valve_close = master_valve_service_close
  perform (Call.program_start program context) = program_service_start_with_context program context
  perform Call.program_process = program_service_process
  perform Call.program_abort = program_service_abort
  perform (Call.scheduler_configure entries) = scheduler_service_configure entries
  perform (Call.scheduler_set_enabled index enabled) = scheduler_service_set_enabled index enabled
  perform (Call.scheduler_process now) = scheduler_service_process now

  -- The devices that a started firmware can reach, one whole call after another, in any order.
  pub data Reachable (board : Board D V H) (entries : List SchedulerEntry)
      : Device D V H → Type 0 where
    started : (app_main board entries).1 ≡ true → Reachable board entries (app_main board entries).0
    called :
        {d : Device D V H} (call : Call)
        → Reachable board entries d
        → Reachable board entries (perform call d).0
