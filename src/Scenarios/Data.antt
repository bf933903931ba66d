-- ===== src/Scenarios/Data.antt =====
-- A development board with virtual outputs, a valve that always answers OK, and a clock that gains
-- one second with each reading.
use irrigation_controller.Prelude.{ℕ, suc, ◌*◌, true, some, List, [], ◌∷◌, Text, literal}
use irrigation_controller.Result.{ok}
use irrigation_controller.Domain.{Program}
use irrigation_controller.Events.{Event, EventSubscriber}
use irrigation_controller.Device.{
  Device, on_store, MasterValveDriver, SchedulerEntry, SchedulerTime,
}
use irrigation_controller.StateStore.{ProgramState}
use irrigation_controller.StateStore.Program.{state_store_set_program_terminal}
use irrigation_controller.ZoneService.Safety.{ZoneCall}
use irrigation_controller.OutputDrivers.{VirtualOutputs, virtual_output_driver}
use irrigation_controller.Controller.{Board, Call, app_main, perform}

abbrev pub Log : Type 0
Log = List Event

abbrev pub willing_valve : MasterValveDriver ℕ
willing_valve = record {
  open_and_confirm = some (λ n. (suc n, ok));
  close_and_confirm = some (λ n. (suc n, ok));
}

abbrev pub keep_log : EventSubscriber Log
keep_log event log = event ∷ log

abbrev pub dev_board : Board VirtualOutputs ℕ Log
dev_board = record {
  output_driver = virtual_output_driver;
  outputs = [];
  valve_driver = willing_valve;
  valve = 0;
  now_ms = λ n. n * 1000;
  log_event = keep_log;
  history = keep_log;
  context = [];
}

abbrev pub zone_1 : Text
zone_1 = literal "zone-1"

abbrev pub garden : Program
garden = record {
  id = some (literal "program-1");
  steps = some (record { zone_id = some zone_1; duration_ms = 5000 } ∷ []);
  post_program_delay_ms = 1000;
}

-- Monday at 06:30.
abbrev pub morning : SchedulerEntry
morning = record {
  id = some (literal "schedule-1");
  enabled = true;
  weekday_mask = 1;
  hour = 6;
  minute = 30;
  program = some (record { address = 1; object = garden });
}

abbrev pub monday : SchedulerTime
monday = record { week_index = 100; weekday = 0; hour = 6; minute = 30 }

abbrev pub entries : List SchedulerEntry
entries = morning ∷ []

abbrev pub started_device : Device VirtualOutputs ℕ Log
started_device = (app_main dev_board entries).0

abbrev pub after : Call → Device VirtualOutputs ℕ Log → Device VirtualOutputs ℕ Log
after call d = (perform call d).0

-- The valve is opened, its delay passes, and the first zone is opened.
abbrev pub opening_device : Device VirtualOutputs ℕ Log
opening_device = after Call.valve_open started_device

abbrev pub valve_open_device : Device VirtualOutputs ℕ Log
valve_open_device = after Call.valve_process_time opening_device

abbrev pub watering_device : Device VirtualOutputs ℕ Log
watering_device = after (Call.zone (ZoneCall.open_zone (some zone_1) 0)) valve_open_device

-- A device whose program has ended at FAULT.
abbrev pub faulty_device : Device VirtualOutputs ℕ Log
faulty_device =
    (on_store (λ s. state_store_set_program_terminal s ProgramState.fault) started_device).0
