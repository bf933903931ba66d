-- ===== src/ConfigurationManager/Keeping.antt =====
-- A change of the configuration keeps the runtime programs in agreement with it.
use irrigation_controller.Prelude.{
  ◌≡◌, refl, sym, ap, subst, inl, inr, Bool, false, some, [], arith, Bool-cases, if_split, is_null,
}
use irrigation_controller.Result.{IrrigationResult, is_ok}
use irrigation_controller.Configuration.{IrrigationConfiguration, irrigation_configuration_validate}
use irrigation_controller.Repository.Reading.{validate-IsValid}
use irrigation_controller.ConfigurationManager.{ConfigurationManager}
use irrigation_controller.ConfigurationManager.Views.{rebuild_runtime_views}
use irrigation_controller.ConfigurationManager.Replace.{
  System, configuration_manager_validate_candidate, configure_schedules, roll_back, persist, accept,
  programs_changed, replace_unscheduled, replace_scheduled, replace_candidate,
}
use irrigation_controller.ConfigurationManager.Agreement.{AreSeparate, valid-AreSeparate}
use irrigation_controller.ConfigurationManager.Rebuilt.{Agrees}
use irrigation_controller.ConfigurationManager.Fits.{Fits, rebuild_if-Agrees, programs_are_equal→eq}
use irrigation_controller.ConfigurationManager.Transaction.{persist-OnlyViews}
use irrigation_controller.ConfigurationManager.Persisted.{
  IsValidFor, rebuild-OnlyViews, OnlyViews-trans, is_ok→ok, OnlyViews, persist-manager,
  configure_schedules-OnlyViews,
}

module _ {S : Type 0} where
  -- The runtime programs are those of the configuration, whose ids differ.
  pub record IsAgreed (m : ConfigurationManager S) : Type 0 where
    pub agrees : Agrees m.configuration.programs m.program_slots
    pub separate : AreSeparate m.configuration.programs

  pub valid-separate :
      (m : ConfigurationManager S) (c : IrrigationConfiguration)
      → IsValidFor m c
      → AreSeparate c.programs
  valid-separate m c valid =
      valid-AreSeparate m.board_zones [] c.programs
        (validate-IsValid c m.board_zones valid).programs

  unchanged :
      (m : ConfigurationManager S)
      → programs_changed m ≡ false
      → m.configuration.programs ≡ m.candidate.programs
  unchanged m e = programs_are_equal→eq m.configuration.programs m.candidate.programs (ground arith)

  IsAgreed-after :
      (m m' : ConfigurationManager S)
      → OnlyViews m m'
      → AreSeparate m.configuration.programs
      → Agrees m.configuration.programs m'.program_slots
      → IsAgreed m'
  IsAgreed-after m m' views separate agrees =
      let same = ap (λ m. m.configuration.programs) views in
      record {
        agrees = subst (λ programs. Agrees programs m'.program_slots) same agrees;
        separate = subst AreSeparate same separate;
      }

module _ {D V H S : Type 0} where
  module _ (s : System D V H S) (agreed : IsAgreed s.manager)
      (valid : IsValidFor s.manager s.manager.candidate)
      (fits : Fits s.manager.configuration.programs s.manager.candidate.programs) where
    abbrev changed : Bool
    changed = programs_changed s.manager

    accepted-Agrees :
        (m : ConfigurationManager S)
        → m.program_slots ≡ s.manager.program_slots
        → Agrees s.manager.candidate.programs
            (rebuild_runtime_views changed s.manager.candidate m).program_slots
    accepted-Agrees m same =
        rebuild_if-Agrees m s.manager.candidate s.manager.configuration.programs changed
          (subst (Agrees s.manager.configuration.programs) (sym same) agreed.agrees)
          (unchanged s.manager) (valid-separate s.manager s.manager.candidate valid) fits.ahead

    abbrev configured : System D V H S × IrrigationResult
    configured = configure_schedules changed s.manager.candidate s

    configured-Agrees : Agrees s.manager.candidate.programs configured.0.manager.program_slots
    unfolding configure_schedules
    configured-Agrees = accepted-Agrees s.manager refl

    -- Back from the candidate's programs.
    roll_back-IsAgreed :
        (result : IrrigationResult) (s' : System D V H S)
        → OnlyViews s.manager s'.manager
        → Agrees s.manager.candidate.programs s'.manager.program_slots
        → IsAgreed (roll_back changed result s').0.manager
    unfolding roll_back configure_schedules
    roll_back-IsAgreed result s' views agrees =
        let same = ap (λ m. m.configuration) views in
        let back =
          rebuild_if-Agrees s'.manager s.manager.configuration s.manager.candidate.programs changed
            agrees (λ e. sym (unchanged s.manager e)) agreed.separate fits.back in
        IsAgreed-after s'.manager _ (rebuild-OnlyViews changed s'.manager.configuration s'.manager)
          (subst (λ c. AreSeparate c.programs) same agreed.separate)
          (subst (λ c. Agrees c.programs (rebuild_runtime_views changed c s'.manager).program_slots)
            same back)

    accept-IsAgreed :
        (m : ConfigurationManager S)
        → OnlyViews s.manager m
        → Agrees s.manager.candidate.programs m.program_slots
        → IsAgreed (accept m)
    accept-IsAgreed m views agrees =
        IsAgreed-after (accept s.manager) (accept m) (ap accept views)
          (valid-separate s.manager s.manager.candidate valid) agrees

    replace_unscheduled-IsAgreed : IsAgreed (replace_unscheduled s).0.manager
    unfolding replace_unscheduled
    replace_unscheduled-IsAgreed = elim (Bool-cases (is_ok (persist s).1)) [
      | inr lost ↦ rw (lost, replace_unscheduled) (subst IsAgreed (sym (persist-manager s)) agreed)
      | inl fine ↦
          rw (fine, replace_unscheduled)
            (subst (λ m. IsAgreed (rebuild_runtime_views changed m.candidate (accept m)))
              (sym (persist-manager s))
              (IsAgreed-after (accept s.manager) _
                (rebuild-OnlyViews changed s.manager.candidate (accept s.manager))
                (valid-separate s.manager s.manager.candidate valid)
                (accepted-Agrees (accept s.manager) refl)))
    ]

    replace_scheduled-IsAgreed : IsAgreed (replace_scheduled s).0.manager
    unfolding replace_scheduled
    replace_scheduled-IsAgreed = elim (Bool-cases (is_ok configured.1)) [
      | inr bad ↦
          rw (bad, replace_scheduled)
            (roll_back-IsAgreed configured.1 configured.0 views configured-Agrees)
      | inl good ↦ elim (Bool-cases (is_ok (persist configured.0).1)) [
        | inr lost ↦
            rw (good, lost, replace_scheduled)
              (roll_back-IsAgreed (persist configured.0).1 (persist configured.0).0 both stays)
        | inl fine ↦
            rw (good, fine, replace_scheduled)
              (accept-IsAgreed (persist configured.0).0.manager both stays)
      ]
    ]
      where
        views : OnlyViews s.manager configured.0.manager
        views = configure_schedules-OnlyViews changed s.manager.candidate s

        both : OnlyViews s.manager (persist configured.0).0.manager
        both =
            OnlyViews-trans s.manager configured.0.manager (persist configured.0).0.manager views
              (persist-OnlyViews configured.0)

        stays : Agrees s.manager.candidate.programs (persist configured.0).0.manager.program_slots
        stays =
            subst (λ m. Agrees s.manager.candidate.programs m.program_slots)
              (sym (persist-manager configured.0)) configured-Agrees

  -- The replacement by a candidate whose programs fit in the slots, whatever its result.
  pub replace_candidate-IsAgreed :
      (s : System D V H S)
      → IsAgreed s.manager
      → (IsValidFor s.manager s.manager.candidate
          → Fits s.manager.configuration.programs s.manager.candidate.programs)
      → IsAgreed (replace_candidate s).0.manager
  unfolding replace_candidate configuration_manager_validate_candidate
  replace_candidate-IsAgreed s agreed fits = elim (Bool-cases (is_ok valid)) [
    | inl good ↦
        rw (good, replace_candidate)
          (let valid' = is_ok→ok valid good in
            if_split (λ (r : System D V H S × IrrigationResult). IsAgreed r.0.manager)
              (is_null s.manager.scheduler_service) _ _
              (λ _. replace_unscheduled-IsAgreed s agreed valid' (fits valid'))
              (λ _. replace_scheduled-IsAgreed s agreed valid' (fits valid')))
    | inr bad ↦ rw (bad, replace_candidate) agreed
  ]
    where
      valid : IrrigationResult
      valid =
          irrigation_configuration_validate (some s.manager.candidate) (some s.manager.board_zones)
