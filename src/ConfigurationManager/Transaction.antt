-- ===== src/ConfigurationManager/Transaction.antt =====
-- A change of the configuration is made as a whole or not at all.
use irrigation_controller.Prelude.{
  ◌≡◌, refl, sym, ap, subst, ◌∙◌, ◌⊎◌, inl, inr, Bool, true, false, some, Bool-cases, if_split,
  is_null,
}
use irrigation_controller.Result.{IrrigationResult, internal_error, is_ok}
use irrigation_controller.Configuration.{IrrigationConfiguration, irrigation_configuration_validate}
use irrigation_controller.ConfigurationManager.Views.{rebuild_runtime_views}
use irrigation_controller.ConfigurationManager.Replace.{
  System, configuration_manager_validate_candidate, configure_schedules, roll_back, persist, accept,
  programs_changed, replace_unscheduled, replace_scheduled, replace_candidate, replace_with,
}
use irrigation_controller.ConfigurationManager.Edits.{with_candidate}
use irrigation_controller.ConfigurationManager.Calls.{ManagerCall, manager_call, manager_call_cases}
use irrigation_controller.ConfigurationManager.Persisted.{
  is_ok→ok, OnlyViews, OnlyViews-trans, IsValidFor, rebuild-OnlyViews, IsPersisted, IsAccepted,
  IsDropped, persist-manager, persist_cases, configure_schedules-OnlyViews,
}

module _ {D V H S : Type 0} where
  -- A roll-back does not turn a failure into a success.
  roll_back_lem :
      (changed : Bool) (result : IrrigationResult) (s : System D V H S)
      → is_ok result ≡ false
      → IsDropped s (roll_back changed result s)
  unfolding roll_back
  roll_back_lem changed result s bad = (
    if_split (λ (r : IrrigationResult). is_ok r ≡ false) _ result internal_error (λ _. bad)
        (λ _. refl),
    configure_schedules-OnlyViews changed s.manager.configuration s,
  )

  Outcome : System D V H S → System D V H S × IrrigationResult → Type 0
  Outcome s r = IsAccepted s r ⊎ IsDropped s r

  pub persist-OnlyViews : (s : System D V H S) → OnlyViews s.manager (persist s).0.manager
  persist-OnlyViews s = subst (OnlyViews s.manager) (sym (persist-manager s)) refl

  replace_unscheduled_lem :
      (s : System D V H S)
      → IsValidFor s.manager s.manager.candidate
      → Outcome s (replace_unscheduled s)
  unfolding replace_unscheduled Outcome
  replace_unscheduled_lem s good = elim (persist_cases s) [
    | inl (done, saved) ↦
        let changed = programs_changed s.manager in
        let views =
          subst
            (λ m.
              OnlyViews (accept s.manager) (rebuild_runtime_views changed m.candidate (accept m)))
            (sym (persist-manager s))
            (rebuild-OnlyViews changed s.manager.candidate (accept s.manager)) in
        rw (done, replace_unscheduled) (inl (refl, good, views, saved))
    | inr lost ↦ rw (lost, replace_unscheduled) (inr (lost, persist-OnlyViews s))
  ]

  configured-IsPersisted :
      (changed : Bool) (c : IrrigationConfiguration) (s : System D V H S) (storage : S)
      → IsPersisted (configure_schedules changed c s).0 storage
      → IsPersisted s storage
  unfolding configure_schedules
  configured-IsPersisted changed c s storage saved =
      subst (λ m. IsPersisted (record s { manager = m }) storage)
        (sym (rebuild-OnlyViews changed c s.manager)) saved

  IsDropped-after :
      (s s' : System D V H S) (changed : Bool) (result : IrrigationResult)
      → is_ok result ≡ false
      → OnlyViews s.manager s'.manager
      → IsDropped s (roll_back changed result s')
  IsDropped-after s s' changed result bad views =
      let (no_, later) = roll_back_lem changed result s' bad in
      (
        no_,
        OnlyViews-trans s.manager s'.manager (roll_back changed result s').0.manager views later,
      )

  replace_scheduled_lem :
      (s : System D V H S)
      → IsValidFor s.manager s.manager.candidate
      → Outcome s (replace_scheduled s)
  unfolding replace_scheduled Outcome
  replace_scheduled_lem s good = elim (Bool-cases (is_ok configured.1)) [
    | inr bad ↦
        rw (bad, replace_scheduled)
          (inr (IsDropped-after s configured.0 changed configured.1 bad views))
    | inl fine ↦ elim (persist_cases configured.0) [
      | inl (done, saved) ↦
          rw (fine, done, replace_scheduled)
            (inl (
              refl,
              good,
              ap accept both,
              configured-IsPersisted changed s.manager.candidate s _ saved,
            ))
      | inr lost ↦
          rw (fine, lost, replace_scheduled)
            (inr (
              IsDropped-after s (persist configured.0).0 changed (persist configured.0).1 lost
                both))
    ]
  ]
    where
      changed : Bool
      changed = programs_changed s.manager

      configured : System D V H S × IrrigationResult
      configured = configure_schedules changed s.manager.candidate s

      views : OnlyViews s.manager configured.0.manager
      views = configure_schedules-OnlyViews changed s.manager.candidate s

      both : OnlyViews s.manager (persist configured.0).0.manager
      both =
          OnlyViews-trans s.manager configured.0.manager (persist configured.0).0.manager views
            (persist-OnlyViews configured.0)

  -- A candidate is accepted or dropped.
  pub replace_candidate_cases :
      (s : System D V H S) → IsAccepted s (replace_candidate s) ⊎ IsDropped s (replace_candidate s)
  unfolding replace_candidate configuration_manager_validate_candidate Outcome
  replace_candidate_cases s = elim (Bool-cases (is_ok valid)) [
    | inl good ↦
        rw (good, replace_candidate)
          (if_split (Outcome s) (is_null s.manager.scheduler_service) _ _
            (λ _. replace_unscheduled_lem s (is_ok→ok valid good))
            (λ _. replace_scheduled_lem s (is_ok→ok valid good)))
    | inr bad ↦ rw (bad, replace_candidate) (inr (bad, refl))
  ]
    where
      valid : IrrigationResult
      valid =
          irrigation_configuration_validate (some s.manager.candidate) (some s.manager.board_zones)

  -- A call that returns OK has made its candidate the configuration, which is valid for the board;
  -- a call that returns anything else has left the configuration as it was.
  pub manager_call_lem :
      (call : ManagerCall) (s : System D V H S)
      → let (s', result) = manager_call call s in
        ((is_ok result ≡ true)
          × (s'.manager.configuration ≡ s'.manager.candidate)
          × IsValidFor s.manager s'.manager.configuration)
        ⊎ ((is_ok result ≡ false) × (s'.manager.configuration ≡ s.manager.configuration))
  unfolding replace_with
  manager_call_lem call s = elim (manager_call_cases call s) [
    | inl (refused, same) ↦ inr (refused, ap (λ s'. s'.manager.configuration) same)
    | inr (c, e, counted) ↦ rw e (elim (replace_candidate_cases (with_candidate c s)) [
      | inl (done, good, views, saved) ↦
          let as_is = ap (λ m. m.configuration) (sym views) in
          inl (
            done,
            as_is ∙ ap (λ m. m.candidate) views,
            subst (IsValidFor s.manager) (sym as_is) good,
          )
      | inr (failed, views) ↦ inr (failed, ap (λ m. m.configuration) (sym views))
    ])
  ]
