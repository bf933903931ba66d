-- ===== src/ConfigurationManager/Calls.antt =====
-- The changes that the web interface can ask the manager for, and what they have in common.
use irrigation_controller.Prelude.{
  ℕ, ◌^◌, ◌<◌, ◌≤◌, ◌≡◌, refl, ◌⊎◌, inl, inr, Bool, false, Option, none, some, List, [], ◌∷◌, Text,
  arith, Bool-cases, Option-cases, get_elem?, length, leb, ltb,
}
use irrigation_controller.Result.{IrrigationResult, is_ok}
use irrigation_controller.Domain.{max_programs, max_program_steps, max_schedules}
use irrigation_controller.Configuration.{
  IrrigationConfiguration, IrrigationProgramStepConfiguration,
}
use irrigation_controller.ConfigurationManager.Fits.{Fits}
use irrigation_controller.ConfigurationManager.Room.{
  same-Fits, append-Fits, set-Fits, delete_at-Fits,
}
use irrigation_controller.ConfigurationManager.Replace.{
  System, Change, replace_with, configuration_manager_replace,
}
use irrigation_controller.ConfigurationManager.Edits.{
  with_candidate, configuration_manager_rename_zone, configuration_manager_create_program,
  configuration_manager_update_program, configuration_manager_delete_program,
  configuration_manager_create_schedule, configuration_manager_update_schedule,
  configuration_manager_delete_schedule, configuration_manager_set_schedule_enabled,
}
use irrigation_controller.ConfigurationManager.Candidates.{rename_in, is_referenced}

pub data ManagerCall : Type 0 where
  replace : Option IrrigationConfiguration → ManagerCall
  rename_zone : Option Text → Option Text → ManagerCall
  create_program : Option Text → Option (List IrrigationProgramStepConfiguration) → ManagerCall
  update_program : ℕ → Option Text → Option (List IrrigationProgramStepConfiguration) → ManagerCall
  delete_program : ℕ → ManagerCall
  create_schedule : Bool → ℕ → ℕ → ℕ → Option Text → ManagerCall
  update_schedule : ℕ → ℕ → ℕ → ℕ → Option Text → ManagerCall
  delete_schedule : ℕ → ManagerCall
  set_schedule_enabled : ℕ → Bool → ManagerCall

-- The counters are uint32_t values.
abbrev pub IsCounted : IrrigationConfiguration → Type 0
IsCounted c = (c.next_program_id < 2 ^ 32) × (c.next_schedule_id < 2 ^ 32)

abbrev pub IsCountedCall : ManagerCall → Type 0
IsCountedCall (ManagerCall.replace (some candidate)) = IsCounted candidate
IsCountedCall _ = Unit {0}

-- All calls but the replacement of the whole configuration.
abbrev pub IsEdit : ManagerCall → Type 0
IsEdit (ManagerCall.replace candidate) = ⊥
IsEdit _ = Unit {0}

-- What is known of the candidate that a call makes of the configuration.
abbrev pub IsCandidateOf : ManagerCall → IrrigationConfiguration → IrrigationConfiguration → Type 0
IsCandidateOf call old c =
    (IsCountedCall call → IsCounted old → IsCounted c)
    × (IsEdit call → length old.programs ≤ max_programs → Fits old.programs c.programs)

module _ {D V H S : Type 0} where
  unfoldable pub manager_call : ManagerCall → Change D V H S
  manager_call (ManagerCall.replace candidate) = configuration_manager_replace candidate
  manager_call (ManagerCall.rename_zone id name) = configuration_manager_rename_zone id name
  manager_call (ManagerCall.create_program name steps) =
      configuration_manager_create_program name steps
  manager_call (ManagerCall.update_program index name steps) =
      configuration_manager_update_program index name steps
  manager_call (ManagerCall.delete_program index) = configuration_manager_delete_program index
  manager_call (ManagerCall.create_schedule stale mask hour minute id) =
      configuration_manager_create_schedule stale mask hour minute id
  manager_call (ManagerCall.update_schedule index mask hour minute id) =
      configuration_manager_update_schedule index mask hour minute id
  manager_call (ManagerCall.delete_schedule index) = configuration_manager_delete_schedule index
  manager_call (ManagerCall.set_schedule_enabled index enabled) =
      configuration_manager_set_schedule_enabled index enabled

  -- The call has been refused before any replacement: at most the candidate has changed.
  abbrev pub IsRefused : System D V H S → System D V H S × IrrigationResult → Type 0
  IsRefused s r = (is_ok r.1 ≡ false) × (r.0 ≡ with_candidate r.0.manager.candidate s)

  -- The call is the replacement by a candidate.
  abbrev pub IsReplacement :
      ManagerCall → System D V H S → System D V H S × IrrigationResult → Type 0
  IsReplacement call s r =
      (c : IrrigationConfiguration) × (r ≡ replace_with c s)
      × IsCandidateOf call s.manager.configuration c

  pub manager_call_cases :
      (call : ManagerCall) (s : System D V H S)
      → IsRefused s (manager_call call s) ⊎ IsReplacement call s (manager_call call s)
  unfolding manager_call configuration_manager_replace configuration_manager_rename_zone
      configuration_manager_create_program configuration_manager_update_program
      configuration_manager_delete_program configuration_manager_create_schedule
      configuration_manager_update_schedule configuration_manager_delete_schedule
      configuration_manager_set_schedule_enabled
  manager_call_cases (ManagerCall.replace none) s = inl (refl, refl)
  manager_call_cases (ManagerCall.replace (some c)) s = inr (c, refl, (λ a b. a, λ e. absurd e))
  manager_call_cases (ManagerCall.rename_zone none name) s = inl (refl, refl)
  manager_call_cases (ManagerCall.rename_zone (some id) none) s = inl (refl, refl)
  manager_call_cases (ManagerCall.rename_zone (some id) (some name)) s =
      elim (Option-cases (rename_in s.manager.configuration.zones id name)) [
        | inl missing ↦ inl (rw (missing, configuration_manager_rename_zone) (refl, refl))
        | inr (zones, found) ↦ inr (
            rw (found, configuration_manager_rename_zone)
              (_, refl, (λ a b. b, λ e few. same-Fits s.manager.configuration.programs few)))
      ]
  manager_call_cases (ManagerCall.create_program none steps) s = inl (refl, refl)
  manager_call_cases (ManagerCall.create_program (some name) none) s = inl (refl, refl)
  manager_call_cases (ManagerCall.create_program (some name) (some steps)) s =
      elim (Bool-cases (ltb max_program_steps (length steps))) [
        | inl long ↦ inl (rw (long, configuration_manager_create_program) (refl, refl))
        | inr short ↦
            elim (Bool-cases (leb max_programs (length s.manager.configuration.programs))) [
              | inl full ↦ inl (rw (short, full, configuration_manager_create_program) (refl, refl))
              | inr free ↦ inr (
                  rw (short, free, configuration_manager_create_program)
                    (
                      _,
                      refl,
                      (
                        λ a b. omega arith,
                        λ e few. append-Fits s.manager.configuration.programs _ (ground arith),
                      ),
                    ))
            ]
      ]
  manager_call_cases (ManagerCall.update_program index none steps) s = inl (refl, refl)
  manager_call_cases (ManagerCall.update_program index (some name) none) s = inl (refl, refl)
  manager_call_cases (ManagerCall.update_program index (some name) (some steps)) s =
      elim (Bool-cases (ltb max_program_steps (length steps))) [
        | inl long ↦ inl (rw (long, configuration_manager_update_program) (refl, refl))
        | inr short ↦ elim (Option-cases (get_elem? s.manager.configuration.programs index)) [
          | inl missing ↦
              inl (rw (short, missing, configuration_manager_update_program) (refl, refl))
          | inr (program, found) ↦ inr (
              rw (short, found, configuration_manager_update_program)
                (
                  _,
                  refl,
                  (
                    λ a b. b,
                    λ e few.
                        set-Fits s.manager.configuration.programs index program _ found refl few,
                  ),
                ))
        ]
      ]
  manager_call_cases (ManagerCall.delete_program index) s =
      elim (Option-cases (get_elem? s.manager.configuration.programs index)) [
        | inl missing ↦ inl (rw (missing, configuration_manager_delete_program) (refl, refl))
        | inr (program, found) ↦
            elim (Bool-cases (is_referenced s.manager.configuration.schedules program.program_id)) [
              | inl needed ↦
                  inl (rw (found, needed, configuration_manager_delete_program) (refl, refl))
              | inr idle ↦ inr (
                  rw (found, idle, configuration_manager_delete_program)
                    (
                      _,
                      refl,
                      (
                        λ a b. b,
                        λ e few.
                            delete_at-Fits s.manager.configuration.programs index program found few,
                      ),
                    ))
            ]
      ]
  manager_call_cases (ManagerCall.create_schedule stale mask hour minute none) s = inl (refl, refl)
  manager_call_cases (ManagerCall.create_schedule stale mask hour minute (some id)) s =
      elim (Bool-cases (leb max_schedules (length s.manager.configuration.schedules))) [
        | inl full ↦ inl (rw (full, configuration_manager_create_schedule) (refl, refl))
        | inr free ↦ inr (
            rw (free, configuration_manager_create_schedule)
              (
                _,
                refl,
                (λ a b. omega arith, λ e few. same-Fits s.manager.configuration.programs few),
              ))
      ]
  manager_call_cases (ManagerCall.update_schedule index mask hour minute none) s = inl (refl, refl)
  manager_call_cases (ManagerCall.update_schedule index mask hour minute (some id)) s =
      elim (Option-cases (get_elem? s.manager.configuration.schedules index)) [
        | inl missing ↦ inl (rw (missing, configuration_manager_update_schedule) (refl, refl))
        | inr (schedule, found) ↦ inr (
            rw (found, configuration_manager_update_schedule)
              (_, refl, (λ a b. b, λ e few. same-Fits s.manager.configuration.programs few)))
      ]
  manager_call_cases (ManagerCall.delete_schedule index) s =
      elim (Bool-cases (leb (length s.manager.configuration.schedules) index)) [
        | inl beyond ↦ inl (rw (beyond, configuration_manager_delete_schedule) (refl, refl))
        | inr within ↦ inr (
            rw (within, configuration_manager_delete_schedule)
              (_, refl, (λ a b. b, λ e few. same-Fits s.manager.configuration.programs few)))
      ]
  manager_call_cases (ManagerCall.set_schedule_enabled index enabled) s =
      elim (Option-cases (get_elem? s.manager.configuration.schedules index)) [
        | inl missing ↦ inl (rw (missing, configuration_manager_set_schedule_enabled) (refl, refl))
        | inr (schedule, found) ↦ inr (
            rw (found, configuration_manager_set_schedule_enabled)
              (_, refl, (λ a b. b, λ e few. same-Fits s.manager.configuration.programs few)))
      ]

  -- The calls of the manager, one after another.
  unfoldable pub manager_calls : List ManagerCall → System D V H S → System D V H S
  unfolding manager_call
  manager_calls [] s = s
  manager_calls (call ∷ calls) s = manager_calls calls (manager_call call s).0
