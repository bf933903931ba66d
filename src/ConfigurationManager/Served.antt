-- ===== src/ConfigurationManager/Served.antt =====
-- What the manager hands out for the programs of its configuration.
use irrigation_controller.Prelude.{
  ℕ, ◌≡◌, sym, subst, inl, inr, some, List, [], ◌∷◌, All, get_elem?,
}
use irrigation_controller.Configuration.{IrrigationConfiguration, IrrigationProgramConfiguration}
use irrigation_controller.Repository.Reading.{validate-IsValid}
use irrigation_controller.ConfigurationManager.{ConfigurationManager}
use irrigation_controller.ConfigurationManager.Placing.{runtime_program}
use irrigation_controller.ConfigurationManager.Views.{configuration_manager_program_at}
use irrigation_controller.ConfigurationManager.Replace.{System, replace_with}
use irrigation_controller.ConfigurationManager.Edits.{with_candidate}
use irrigation_controller.ConfigurationManager.Calls.{
  ManagerCall, manager_call, manager_calls, manager_call_cases, IsEdit,
}
use irrigation_controller.ConfigurationManager.Rebuilt.{Agrees, program_at_lem}
use irrigation_controller.ConfigurationManager.Persisted.{IsValidFor}
use irrigation_controller.ConfigurationManager.Keeping.{
  IsAgreed, valid-separate, replace_candidate-IsAgreed,
}
use irrigation_controller.ConfigurationManager.Safety.{manager_calls-IsValid}

-- The configuration is valid for the board, and the runtime programs are those of it.
pub record IsSound {S : Type 0} (m : ConfigurationManager S) : Type 0 where
  pub valid : IsValidFor m m.configuration
  pub agrees : Agrees m.configuration.programs m.program_slots

module _ {S : Type 0} where
  pub sound-IsAgreed : (m : ConfigurationManager S) → IsSound m → IsAgreed m
  sound-IsAgreed m sound = record {
    agrees = sound.agrees;
    separate = valid-separate m m.configuration sound.valid;
  }

  -- The candidate plays no part.
  candidate-IsAgreed :
      (m : ConfigurationManager S) (c : IrrigationConfiguration)
      → IsAgreed m
      → IsAgreed (record m { candidate = c })
  candidate-IsAgreed m c agreed = record { agrees = agreed.agrees; separate = agreed.separate }

module _ {D V H S : Type 0} where
  edit-IsAgreed :
      (call : ManagerCall) (s : System D V H S)
      → IsEdit call
      → IsSound s.manager
      → IsAgreed (manager_call call s).0.manager
  unfolding replace_with
  edit-IsAgreed call s edit sound = elim (manager_call_cases call s) [
    | inl (refused, same) ↦
        subst (λ s'. IsAgreed s'.manager) (sym same) (candidate-IsAgreed s.manager _ agreed)
    | inr (c, e, (counted, fits)) ↦ rw e (
        replace_candidate-IsAgreed (with_candidate c s) (candidate-IsAgreed s.manager c agreed)
          (λ v.
            fits edit
              (validate-IsValid s.manager.configuration s.manager.board_zones
                sound.valid).program_count))
  ]
    where
      agreed : IsAgreed s.manager
      agreed = sound-IsAgreed s.manager sound

  edits-IsSound :
      (calls : List ManagerCall) (s : System D V H S)
      → All IsEdit calls
      → IsSound s.manager
      → IsSound (manager_calls calls s).manager
  unfolding manager_calls
  edits-IsSound [] s edits sound = sound
  edits-IsSound (call ∷ calls) s (edit, edits) sound =
      edits-IsSound calls (manager_call call s).0 edits (record {
        valid = manager_calls-IsValid (call ∷ []) s sound.valid;
        agrees = (edit-IsAgreed call s edit sound).agrees;
      })

  -- From a manager whose configuration is valid and whose runtime programs are those of it: after
  -- any edits of zones, programs and schedules, in any order and whatever their results, the program
  -- that the manager hands out at an index has the name and the steps of the configuration's
  -- program at that index.
  pub edits-program_at :
      (calls : List ManagerCall) (s : System D V H S) (index : ℕ)
      (p : IrrigationProgramConfiguration)
      → All IsEdit calls
      → IsSound s.manager
      → let m = (manager_calls calls s).manager in
        get_elem? m.configuration.programs index ≡ some p
        → configuration_manager_program_at m index ≡ some (runtime_program p)
  edits-program_at calls s index p edits sound found =
      program_at_lem (manager_calls calls s).manager index p
        (edits-IsSound calls s edits sound).agrees found
