-- ===== src/Controller/Safety.antt =====
-- What holds of every device that the firmware can reach.
use irrigation_controller.Prelude.{
  ℕ, ◌<◌, ◌==◌, ◌≡◌, ◌≢◌, ◌⊎◌, refl, sym, ap, subst, inl, inr, Bool, false, not, some, List, Text,
  arith, Bool-cases, if_split, Pointer,
}
use irrigation_controller.Prelude.Tests.{text_eq}
use irrigation_controller.Result.{IrrigationResult, ok, is_ok}
use irrigation_controller.Domain.{max_outputs}
use irrigation_controller.StateStore.{
  StateStore, SystemState, ZoneState, MasterValveState, ZoneRuntimeState, off, on, state_store_init,
}
use irrigation_controller.StateStore.Zones.{
  state_store_transition_system, state_store_configure_zones,
}
use irrigation_controller.StateStore.Tests.{has_active_output, find_in}
use irrigation_controller.StateStore.MasterValve.{state_store_configure_master_valve}
use irrigation_controller.StateStore.Writes.{All-find_in}
use irrigation_controller.StateStore.Consistent.{
  IsConsistent, ZoneIsConsistent, output_at, output_at_inactive,
}
use irrigation_controller.StateStore.Boot.{configure_zones-IsConsistent, init-IsConsistent}
use irrigation_controller.Device.{Device, Op, SchedulerEntry, on_store}
use irrigation_controller.ZoneService.{zone_service_init}
use irrigation_controller.ZoneService.Safety.{zone_call-IsConsistent}
use irrigation_controller.MasterValveService.{master_valve_service_init}
use irrigation_controller.MasterValveService.Safety.{
  OnlyValve, IsDry, OnlyValve-IsConsistent, open-IsConsistent, process_time-IsConsistent,
  close-IsConsistent,
}
use irrigation_controller.ProgramService.{program_service_init, program_service_set_event_bus}
use irrigation_controller.ProgramService.Safety.{
  start-IsConsistent, process-IsConsistent as program_process-IsConsistent, abort-IsConsistent,
}
use irrigation_controller.SchedulerService.{scheduler_service_init}
use irrigation_controller.SchedulerService.Safety.{
  configure-IsConsistent, set_enabled-IsConsistent,
  process-IsConsistent as scheduler_process-IsConsistent,
}
use irrigation_controller.Controller.{
  Board, Call, Reachable, dev_zones, initialize_outputs, start_event_bus, subscribe_history,
  start_services, start_scheduler, start_zones, app_main, perform, power_on,
}

abbrev ready_store : StateStore
ready_store = record state_store_init { system_state = SystemState.ready }

entered : state_store_transition_system state_store_init SystemState.ready ≡ (ready_store, ok)
unfolding state_store_transition_system state_store_init
entered = refl

ready-IsConsistent : IsConsistent ready_store
unfolding state_store_init has_active_output
ready-IsConsistent = (
  0,
  record {
    places = refl;
    distinct = tt;
    zones = tt;
    dark = λ i ne. output_at_inactive ready_store.output_states i refl;
    watered = λ i lit. absurd (ground (arith, output_at_inactive ready_store.output_states i refl));
  },
)

abbrev zoned_store : StateStore
zoned_store = (state_store_configure_zones ready_store dev_zones).0

zoned-IsConsistent : IsConsistent zoned_store
unfolding state_store_init has_active_output
zoned-IsConsistent = elim (configure_zones-IsConsistent ready_store dev_zones refl refl) [
  | inl (done, c) ↦ c
  | inr (stop, same) ↦ subst IsConsistent (sym same) ready-IsConsistent
]

zoned_idle : has_active_output zoned_store.output_states ≡ false
unfolding state_store_init state_store_configure_zones has_active_output text_eq
zoned_idle = refl

zoned-IsDry : IsDry zoned_store
zoned-IsDry i lit = ground (arith, output_at_inactive zoned_store.output_states i zoned_idle)

module _ {D V H : Type 0} where
  abbrev Keeps {ℓ} : {A : Type ℓ} → Device D V H × A → Type 0
  Keeps r = IsConsistent r.0.store

  start_scheduler-Keeps :
      (board : Board D V H) (entries : List SchedulerEntry) (d : Device D V H)
      → IsConsistent d.store
      → Keeps (start_scheduler board.history entries d)
  unfolding start_scheduler subscribe_history scheduler_service_init
  start_scheduler-Keeps board entries d c =
      let r = subscribe_history board.history d in
      if_split (λ (m : Op D V H Bool). Keeps (m r.0)) (not (is_ok r.1)) _ _ (λ _. c)
        (λ _.
          configure-IsConsistent (scheduler_service_init Pointer.valid Pointer.valid r.0).0 entries
            c)

  start_services-OnlyValve : (d : Device D V H) → OnlyValve d.store (start_services d).0.store
  unfolding start_services master_valve_service_init zone_service_init program_service_init
      program_service_set_event_bus state_store_configure_master_valve
  start_services-OnlyValve d = ground arith

  start_zones-Keeps :
      (board : Board D V H) (entries : List SchedulerEntry) (d : Device D V H)
      → d.store ≡ ready_store
      → Keeps (start_zones board entries d)
  unfolding start_zones
  start_zones-Keeps board entries d ready =
      if_split (λ (m : Op D V H Bool). Keeps (m r.0)) (not (is_ok r.1)) _ _ (λ _. zoned)
        (λ _.
          start_scheduler-Keeps board entries (start_services r.0).0
            (OnlyValve-IsConsistent r.0.store _ (start_services-OnlyValve r.0) dry zoned))
    where
      r : Device D V H × IrrigationResult
      r = on_store (λ s. state_store_configure_zones s dev_zones) d

      same : zoned_store ≡ r.0.store
      same = ap (λ s. (state_store_configure_zones s dev_zones).0) (sym ready)

      zoned : Keeps r
      zoned = subst IsConsistent same zoned-IsConsistent

      dry : IsDry r.0.store
      dry = subst IsDry same zoned-IsDry

  app_main-IsConsistent :
      (board : Board D V H) (entries : List SchedulerEntry) → Keeps (app_main board entries)
  unfolding app_main initialize_outputs start_event_bus
  app_main-IsConsistent board entries =
      if_split (λ (m : Op D V H Bool). Keeps (m safe.0)) (not (is_ok safe.1)) _ _
        (λ _. init-IsConsistent)
        (λ _. rw entered (
          start_zones-Keeps board entries
            (start_event_bus board.log_event (record safe.0 { store = ready_store })).0 refl))
    where
      safe : Device D V H × IrrigationResult
      safe = initialize_outputs (power_on board)

  perform-IsConsistent :
      (call : Call) (d : Device D V H) → IsConsistent d.store → Keeps (perform call d)
  unfolding perform
  perform-IsConsistent (Call.zone call) d c = zone_call-IsConsistent d call c
  perform-IsConsistent Call.valve_open d c = open-IsConsistent d c
  perform-IsConsistent Call.valve_process_time d c = process_time-IsConsistent d c
  perform-IsConsistent Call.valve_close d c = close-IsConsistent d c
  perform-IsConsistent (Call.program_start program context) d c =
      start-IsConsistent d program context c
  perform-IsConsistent Call.program_process d c = program_process-IsConsistent d c
  perform-IsConsistent Call.program_abort d c = abort-IsConsistent d c
  perform-IsConsistent (Call.scheduler_configure entries) d c = configure-IsConsistent d entries c
  perform-IsConsistent (Call.scheduler_set_enabled index enabled) d c =
      set_enabled-IsConsistent d index enabled c
  perform-IsConsistent (Call.scheduler_process now) d c = scheduler_process-IsConsistent d now c

  pub Reachable-IsConsistent :
      (board : Board D V H) (entries : List SchedulerEntry) (d : Device D V H)
      → Reachable board entries d
      → IsConsistent d.store
  Reachable-IsConsistent board entries d (Reachable.started e) = app_main-IsConsistent board entries
  Reachable-IsConsistent board entries d (Reachable.called {d = d₀} call r) =
      perform-IsConsistent call d₀ (Reachable-IsConsistent board entries d₀ r)

  -- Of every device that the firmware can reach from its start by whole calls in any order, with
  -- any drivers, clock, programs and schedule: of two different outputs, the store has at least one
  -- as OFF.
  pub one_output_lem :
      (board : Board D V H) (entries : List SchedulerEntry) (d : Device D V H) (i j : ℕ)
      → Reachable board entries d
      → i ≢ j
      → (output_at d.store.output_states i ≡ off) ⊎ (output_at d.store.output_states j ≡ off)
  one_output_lem board entries d i j r ne =
      let (h, held) = Reachable-IsConsistent board entries d r in
      elim (Bool-cases (i == h)) [
        | inl here ↦ inr (held.dark j (λ e. ne (ground arith)))
        | inr there ↦ inl (held.dark i (λ e. ground arith))
      ]

  -- Of every device that the firmware can reach: an output that the store has as ON is so only
  -- while the master valve is OPEN.
  pub watered_lem :
      (board : Board D V H) (entries : List SchedulerEntry) (d : Device D V H) (i : ℕ)
      → Reachable board entries d
      → output_at d.store.output_states i ≡ on
      → d.store.master_valve.state ≡ MasterValveState.opened
  watered_lem board entries d i r lit =
      let (h, held) = Reachable-IsConsistent board entries d r in held.watered i lit

  -- Of every device that the firmware can reach: a zone that is found OPEN has its output ON, on an
  -- index that exists, and the master valve is OPEN.
  pub open_zone_lem :
      (board : Board D V H) (entries : List SchedulerEntry) (d : Device D V H) (id : Text)
      (z : ZoneRuntimeState)
      → Reachable board entries d
      → find_in d.store.zones id ≡ some z
      → z.state ≡ ZoneState.opened
      → (output_at d.store.output_states z.output_index ≡ on)
        × (z.output_index < max_outputs)
        × (d.store.master_valve.state ≡ MasterValveState.opened)
  open_zone_lem board entries d id z r found open_ =
      let (h, held) = Reachable-IsConsistent board entries d r in
      let c =
        All-find_in (ZoneIsConsistent h d.store.system_state d.store.output_states) d.store.zones id
          z found held.zones in
      (c.open_on open_, c.in_range, held.watered z.output_index (c.open_on open_))
