-- ===== src/Device.antt =====
-- The objects that firmware/main/system_ready.c keeps in static variables and shares between the
-- services, with the boundaries to the hardware: firmware/app/clock.c, the output driver of
-- firmware/hal/outputs/output_driver.c and the driver of firmware/domain/master_valve.
use irrigation_controller.Prelude.{ℕ, suc, Bool, false, Option, none, some, List, Text, Pointer}
use irrigation_controller.Result.{IrrigationResult, rejected, internal_error}
use irrigation_controller.Domain.{Program, ProgramStartContext}
use irrigation_controller.StateStore.{StateStore}
use irrigation_controller.Events.{Event, EventBus, event_bus_publish}

-- `now_ms` gives the reading of each call: any sequence of times at all.
pub record Clock : Type 0 where
  pub now_ms : Option (ℕ → ℕ)
  pub reads : ℕ

unfoldable pub clock_now_ms : Clock → Clock × ℕ
clock_now_ms clock = elim clock.now_ms [
  | none ↦ (clock, 0)
  | some now_ms ↦ (record clock { reads = suc clock.reads }, now_ms clock.reads)
]

-- A vtable over the state `D` of the hardware; `none` is a NULL driver, vtable or entry.
pub record OutputDriver (D : Type 0) : Type 0 where
  pub initialize_safe_off : Option (D → D × IrrigationResult)
  pub set_output : Option (D → ℕ → Bool → D × IrrigationResult)
  pub get_output : Option (D → ℕ → IrrigationResult × Bool)

pub record MasterValveDriver (V : Type 0) : Type 0 where
  pub open_and_confirm : Option (V → V × IrrigationResult)
  pub close_and_confirm : Option (V → V × IrrigationResult)

module _ {D : Type 0} where
  unfoldable pub output_driver_initialize_safe_off : OutputDriver D → D → D × IrrigationResult
  output_driver_initialize_safe_off driver outputs = elim driver.initialize_safe_off [
    | none ↦ (outputs, internal_error)
    | some initialize ↦ initialize outputs
  ]

  unfoldable pub output_driver_set : OutputDriver D → D → ℕ → Bool → D × IrrigationResult
  output_driver_set driver outputs output_index enabled = elim driver.set_output [
    | none ↦ (outputs, internal_error)
    | some set_output ↦ set_output outputs output_index enabled
  ]

  -- `*enabled` is left alone where the result is not OK; the Boolean beside it is not read then.
  unfoldable pub output_driver_get : OutputDriver D → D → ℕ → IrrigationResult × Bool
  output_driver_get driver outputs output_index = elim driver.get_output [
    | none ↦ (internal_error, false)
    | some get_output ↦ get_output outputs output_index
  ]

  unfoldable pub master_valve_driver_open_and_confirm :
      MasterValveDriver D → D → D × IrrigationResult
  master_valve_driver_open_and_confirm driver valve = elim driver.open_and_confirm [
    | none ↦ (valve, internal_error)
    | some open_and_confirm ↦ open_and_confirm valve
  ]

  unfoldable pub master_valve_driver_close_and_confirm :
      MasterValveDriver D → D → D × IrrigationResult
  master_valve_driver_close_and_confirm driver valve = elim driver.close_and_confirm [
    | none ↦ (valve, internal_error)
    | some close_and_confirm ↦ close_and_confirm valve
  ]

-- The check reads the store through its context; `none` is a NULL check.
abbrev pub ZoneStartPrecondition : Type 0
ZoneStartPrecondition = Option (StateStore → IrrigationResult)

unfoldable pub zone_start_precondition_check : ZoneStartPrecondition → StateStore → IrrigationResult
zone_start_precondition_check none store = rejected
zone_start_precondition_check (some check) store = check store

-- `operation_lock` is true while the atomic flag is set.
pub record ZoneService : Type 0 where
  pub state_store : Pointer
  pub output_driver : Pointer
  pub event_bus : Pointer
  pub start_precondition : ZoneStartPrecondition
  pub operation_lock : Bool

pub record MasterValveService : Type 0 where
  pub state_store : Pointer
  pub driver : Pointer
  pub operation_lock : Bool

-- `program` is the program of the last start.
pub record ProgramService : Type 0 where
  pub state_store : Pointer
  pub master_valve_service : Pointer
  pub zone_service : Pointer
  pub event_bus : Pointer
  pub program : Program
  pub start_context : ProgramStartContext
  pub operation_lock : Bool

pub record SchedulerTime : Type 0 where
  pub week_index : ℕ  -- uint32_t
  pub weekday : ℕ  -- uint8_t, as the next two
  pub hour : ℕ
  pub minute : ℕ

-- `const Program *`, not NULL: the address, which the scheduler compares, and the object.
pub record ProgramPointer : Type 0 where
  pub address : ℕ
  pub object : Program

pub record SchedulerEntry : Type 0 where
  pub id : Option Text
  pub enabled : Bool
  pub weekday_mask : ℕ  -- uint8_t, as the next two
  pub hour : ℕ
  pub minute : ℕ
  pub program : Option ProgramPointer

-- `entries` holds the first `entry_count` places of the array. The mutex of `synchronization` is
-- left out: a call of the model runs alone.
pub record SchedulerService : Type 0 where
  pub state_store : Pointer
  pub program_service : Pointer
  pub entries : List SchedulerEntry

-- `D` and `V` are the states of the outputs and of the master valve, `H` that of the subscribers.
pub record Device (D V H : Type 0) : Type 0 where
  pub store : StateStore
  pub clock : Clock
  pub bus : EventBus H
  pub context : H
  pub output_driver : OutputDriver D
  pub outputs : D
  pub valve_driver : MasterValveDriver V
  pub valve : V
  pub zone_service : ZoneService
  pub master_valve_service : MasterValveService
  pub program_service : ProgramService
  pub scheduler_service : SchedulerService

-- An operation on the device, with its result.
abbrev pub Op : Type 0 → Type 0 → Type 0 → Type 0 → Type 0
Op D V H A = Device D V H → Device D V H × A

infixl 5 ◌>>=◌ ◌>>◌
abbrev pub ◌>>=◌ : {D V H A B : Type 0} → Op D V H A → (A → Op D V H B) → Op D V H B
◌>>=◌ m f d = let (d', a) = m d in f a d'

abbrev pub ◌>>◌ : {D V H A B : Type 0} → Op D V H A → Op D V H B → Op D V H B
m >> k = m >>= λ _. k

abbrev pub return : {D V H A : Type 0} → A → Op D V H A
return a d = (d, a)

-- `f(service->state_store, …)`
abbrev pub on_store : {D V H A : Type 0} → (StateStore → StateStore × A) → Op D V H A
on_store f d = let (store, a) = f d.store in (record d { store = store }, a)

-- `clock_now_ms(&service->clock)`
abbrev pub read_clock : {D V H : Type 0} → Op D V H ℕ
read_clock d = let (clock, now_ms) = clock_now_ms d.clock in (record d { clock = clock }, now_ms)

abbrev pub publish : {D V H : Type 0} → Event → Op D V H IrrigationResult
publish event d =
    let (context, result) = event_bus_publish d.bus event d.context in
    (record d { context = context }, result)

-- `output_driver_set(service->output_driver, …)`
abbrev pub set_output : {D V H : Type 0} → ℕ → Bool → Op D V H IrrigationResult
set_output output_index enabled d =
    let (outputs, result) = output_driver_set d.output_driver d.outputs output_index enabled in
    (record d { outputs = outputs }, result)

abbrev pub open_valve : {D V H : Type 0} → Op D V H IrrigationResult
open_valve d =
    let (valve, result) = master_valve_driver_open_and_confirm d.valve_driver d.valve in
    (record d { valve = valve }, result)

abbrev pub close_valve : {D V H : Type 0} → Op D V H IrrigationResult
close_valve d =
    let (valve, result) = master_valve_driver_close_and_confirm d.valve_driver d.valve in
    (record d { valve = valve }, result)
