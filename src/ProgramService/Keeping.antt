-- ===== src/ProgramService/Keeping.antt =====
-- The parts of the program service's operations keep the store consistent.
use irrigation_controller.Prelude.{
  ℕ, ◌≡◌, subst, refl, inl, inr, not, Option, none, Text, arith, Bool-cases, Option-cases, if_split,
  is_null, get_elem?,
}
use irrigation_controller.Result.{IrrigationResult, is_ok}
use irrigation_controller.Domain.{ProgramStep, ProgramExecutionResult}
use irrigation_controller.StateStore.{
  StateStore, ProgramState, ProgramRuntimeState, state_store_snapshot,
}
use irrigation_controller.StateStore.Program.{
  state_store_start_program, state_store_set_program_running_zone,
  state_store_set_program_waiting_post_delay, state_store_set_program_terminal,
}
use irrigation_controller.StateStore.Consistent.{IsConsistent}
use irrigation_controller.Events.{EventType}
use irrigation_controller.Device.{Device, Op, read_clock, on_store}
use irrigation_controller.ZoneService.{zone_service_open}
use irrigation_controller.ZoneService.Closing.{zone_service_close}
use irrigation_controller.ZoneService.Safety.{ZoneCall, zone_call, zone_call-IsConsistent}
use irrigation_controller.MasterValveService.{master_valve_service_close_is_eligible}
use irrigation_controller.MasterValveService.Safety.{close-IsConsistent}
use irrigation_controller.ProgramService.{
  steps_of, publish_execution_event, finish, close_if_eligible, fault,
}
use irrigation_controller.ProgramService.Running.{
  record_running, with_step, open_step, open_current_zone,
}

-- The program's part of the store is all that an operation changes.
abbrev pub OnlyProgram : StateStore → StateStore → Type 0
OnlyProgram s s' = record s { program = s'.program } ≡ s'

program-IsConsistent :
    (s : StateStore) (program : ProgramRuntimeState)
    → IsConsistent s
    → IsConsistent (record s { program = program })
program-IsConsistent s program (h, held) = (
  h,
  record {
    places = held.places;
    distinct = held.distinct;
    zones = held.zones;
    dark = held.dark;
    watered = held.watered;
  },
)

pub OnlyProgram-IsConsistent :
    (s s' : StateStore) → OnlyProgram s s' → IsConsistent s → IsConsistent s'
OnlyProgram-IsConsistent s s' only c = subst IsConsistent only (program-IsConsistent s s'.program c)

pub start_program-IsConsistent :
    (s : StateStore) → IsConsistent s → IsConsistent (state_store_start_program s).0
unfolding state_store_start_program
start_program-IsConsistent s c = OnlyProgram-IsConsistent s _ (ground arith) c

pub running_zone-IsConsistent :
    (s : StateStore) (index now : ℕ)
    → IsConsistent s
    → IsConsistent (state_store_set_program_running_zone s index now).0
unfolding state_store_set_program_running_zone
running_zone-IsConsistent s index now c = OnlyProgram-IsConsistent s _ (ground arith) c

pub waiting_post_delay-IsConsistent :
    (s : StateStore) (now : ℕ)
    → IsConsistent s
    → IsConsistent (state_store_set_program_waiting_post_delay s now).0
unfolding state_store_set_program_waiting_post_delay
waiting_post_delay-IsConsistent s now c = OnlyProgram-IsConsistent s _ (ground arith) c

pub terminal-IsConsistent :
    (s : StateStore) (state : ProgramState)
    → IsConsistent s
    → IsConsistent (state_store_set_program_terminal s state).0
unfolding state_store_set_program_terminal
terminal-IsConsistent s state c = OnlyProgram-IsConsistent s _ (ground arith) c

module _ {D V H : Type 0} where
  abbrev pub Keeps {ℓ} : {A : Type ℓ} → Device D V H × A → Type 0
  Keeps r = IsConsistent r.0.store

  pub open-Keeps :
      (d : Device D V H) (id : Option Text) (duration : ℕ)
      → IsConsistent d.store
      → Keeps (zone_service_open id duration d)
  unfolding zone_call
  open-Keeps d id duration c = zone_call-IsConsistent d (ZoneCall.open_zone id duration) c

  pub close-Keeps :
      (d : Device D V H) (id : Option Text) → IsConsistent d.store → Keeps (zone_service_close id d)
  unfolding zone_call
  close-Keeps d id c = zone_call-IsConsistent d (ZoneCall.close_zone id) c

  pub store-publish_execution :
      (d : Device D V H) (type : EventType) (result : ProgramExecutionResult) (index : ℕ)
      (id : Option Text)
      → (publish_execution_event type result index id d).0.store ≡ d.store
  unfolding publish_execution_event
  store-publish_execution d type result index id =
      elim (Bool-cases (is_null d.program_service.event_bus)) [
        | inl unset ↦ rw unset refl
        | inr given ↦ rw given refl
      ]

  pub publish_execution-Keeps :
      (d : Device D V H) (type : EventType) (result : ProgramExecutionResult) (index : ℕ)
      (id : Option Text)
      → IsConsistent d.store
      → Keeps (publish_execution_event type result index id d)
  publish_execution-Keeps d type result index id c =
      rw (store-publish_execution d type result index id) c

  pub finish-Keeps :
      (d : Device D V H) (state : ProgramState) (result : ProgramExecutionResult)
      → IsConsistent d.store
      → Keeps (finish state result d)
  unfolding finish
  finish-Keeps d state result c =
      publish_execution-Keeps (on_store (λ s. state_store_set_program_terminal s state) d).0
        EventType.program_execution_terminated result 0 none (terminal-IsConsistent d.store state c)

  pub close_if_eligible-Keeps :
      (d : Device D V H) → IsConsistent d.store → Keeps (close_if_eligible d)
  unfolding close_if_eligible
  close_if_eligible-Keeps d c =
      if_split Keeps (master_valve_service_close_is_eligible d.master_valve_service d.store) _ _
        (λ _. close-IsConsistent d c) (λ _. c)

  pub fault-Keeps :
      (d : Device D V H) (result : IrrigationResult) → IsConsistent d.store → Keeps (fault result d)
  unfolding fault
  fault-Keeps d result c =
      finish-Keeps (close_if_eligible d).0 ProgramState.fault ProgramExecutionResult.fault
        (close_if_eligible-Keeps d c)

  pub with_step-Keeps :
      (d : Device D V H) (index : ℕ) (body : ProgramStep → Op D V H IrrigationResult)
      → ((step : ProgramStep) → Keeps (body step d))
      → IsConsistent d.store
      → Keeps (with_step index body d)
  unfolding with_step
  with_step-Keeps d index body keep c =
      elim (Option-cases (get_elem? (steps_of d.program_service.program) index)) [
        | inl beyond ↦ rw (beyond, with_step) c
        | inr (step, found) ↦ rw (found, with_step) (keep step)
      ]

  pub record_running-Keeps :
      (d : Device D V H) (index : ℕ) (step : ProgramStep) (result : IrrigationResult)
      → IsConsistent d.store
      → Keeps (record_running index step result d)
  unfolding record_running
  record_running-Keeps d index step result c =
      if_split (λ (m : Op D V H IrrigationResult). Keeps (m d)) (not (is_ok result)) _ _
        (λ _. fault-Keeps d result c)
        (λ _.
          let (d₁, now) = read_clock d in
          let r = on_store (λ s. state_store_set_program_running_zone s index now) d₁ in
          let kept = running_zone-IsConsistent d.store index now c in
          if_split (λ (m : Op D V H IrrigationResult). Keeps (m r.0)) (is_ok r.1) _ _
            (λ _.
              publish_execution-Keeps r.0 EventType.program_execution_step_started
                ProgramExecutionResult.fault index step.zone_id kept)
            (λ _. kept))

  pub open_current_zone-Keeps :
      (d : Device D V H) → IsConsistent d.store → Keeps (open_current_zone d)
  unfolding open_current_zone open_step
  open_current_zone-Keeps d c =
      let index = (state_store_snapshot d.store).program.current_step_index in
      with_step-Keeps d index (open_step index)
        (λ step.
          let r = zone_service_open step.zone_id step.duration_ms d in
          record_running-Keeps r.0 index step r.1 (open-Keeps d step.zone_id step.duration_ms c))
        c
