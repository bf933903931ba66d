-- ===== src/ConfigurationManager/Safety.antt =====
-- What the configuration manager keeps, and what it has stored, after its calls.
use irrigation_controller.Prelude.{
  ◌^◌, ◌<◌, ◌≤◌, ◌≡◌, sym, ap, subst, inl, inr, Bool, true, false, Option, none, some, List, [],
  ◌∷◌, arith, Pointer,
}
use irrigation_controller.Result.{IrrigationResult, is_ok}
use irrigation_controller.Domain.{Zone}
use irrigation_controller.Configuration.{IrrigationConfiguration, irrigation_configuration_validate}
use irrigation_controller.Repository.{ConfigurationRepositoryResult}
use irrigation_controller.Repository.Encode.{done}
use irrigation_controller.Repository.Slots.Saving.{IsHonest}
use irrigation_controller.Repository.Slots.Loading.{storage_of, load-save}
use irrigation_controller.Repository.Slots.{
  ConfigurationRepositoryStorage, Reader, Writer, Committer, configuration_repository_load,
  is_stored, is_valid, read_slot, next_generation, slot_a, slot_b,
}
use irrigation_controller.Repository.Slots.Storing.{configuration_repository_save}
use irrigation_controller.ConfigurationManager.{ConfigurationManager}
use irrigation_controller.ConfigurationManager.Replace.{System, replace_with}
use irrigation_controller.ConfigurationManager.Edits.{with_candidate}
use irrigation_controller.ConfigurationManager.Calls.{
  ManagerCall, manager_call, manager_calls, manager_call_cases, IsCounted, IsCountedCall,
}
use irrigation_controller.ConfigurationManager.Transaction.{
  replace_candidate_cases, manager_call_lem,
}
use irrigation_controller.ConfigurationManager.Persisted.{IsValidFor, IsPersistedBy, IsPersisted}

is_stored→ok :
    (result : ConfigurationRepositoryResult)
    → is_stored result ≡ true
    → result ≡ ConfigurationRepositoryResult.ok
is_stored→ok result good = ground arith

module _ {S : Type 0} where
  -- What the calls never change.
  abbrev pub settings :
      ConfigurationManager S
      → List Zone × Option (ConfigurationRepositoryStorage S) × Bool × Pointer
  settings m = (m.board_zones, m.repository, m.persistence_required, m.scheduler_service)

module _ {D V H S : Type 0} where
  manager_call-settings :
      (call : ManagerCall) (s : System D V H S)
      → settings (manager_call call s).0.manager ≡ settings s.manager
  unfolding replace_with
  manager_call-settings call s = elim (manager_call_cases call s) [
    | inl (refused, same) ↦ ap (λ s'. settings s'.manager) same
    | inr (c, e, counted) ↦ rw e (elim (replace_candidate_cases (with_candidate c s)) [
      | inl (fine, good, views, saved) ↦ ap settings (sym views)
      | inr (failed, views) ↦ ap settings (sym views)
    ])
  ]

  on_board :
      (call : ManagerCall) (s : System D V H S) (c : IrrigationConfiguration)
      → IsValidFor s.manager c
      → IsValidFor (manager_call call s).0.manager c
  on_board call s c =
      subst (λ board. irrigation_configuration_validate (some c) (some board) ≡ IrrigationResult.ok)
        (sym (ap (λ kept. kept.0) (manager_call-settings call s)))

  -- From a manager whose configuration is valid for its board, the configuration is valid for the
  -- board after any calls in any order, whatever their arguments and results.
  pub manager_calls-IsValid :
      (calls : List ManagerCall) (s : System D V H S)
      → IsValidFor s.manager s.manager.configuration
      → let m = (manager_calls calls s).manager in IsValidFor m m.configuration
  unfolding manager_calls
  manager_calls-IsValid [] s good = good
  manager_calls-IsValid (call ∷ calls) s good =
      manager_calls-IsValid calls (manager_call call s).0 (elim (manager_call_lem call s) [
        | inl (fine, taken, valid) ↦ on_board call s _ valid
        | inr (failed, same) ↦ on_board call s _ (subst (IsValidFor s.manager) (sym same) good)
      ])

  -- The save of the candidate has returned OK.
  saved_candidate :
      (s : System D V H S) (repository : ConfigurationRepositoryStorage S) (storage : S)
      → s.manager.repository ≡ some repository
      → IsPersisted s storage
      → configuration_repository_save repository s.storage
          (some s.manager.candidate)
          s.before
          (some s.manager.board_zones)
        ≡ (storage, ConfigurationRepositoryResult.ok)
  saved_candidate s repository storage given saved =
      let (fits, same) =
        subst
          (λ o.
            IsPersistedBy o s.manager.persistence_required s.manager.candidate s.manager.board_zones
              s.before s.storage storage)
          given saved in
      cc (is_stored→ok _ fits)

  not_required :
      (s : System D V H S) (storage : S)
      → s.manager.repository ≡ none
      → IsPersisted s storage
      → s.manager.persistence_required ≡ false
  not_required s storage missing saved =
      (subst
        (λ o.
          IsPersistedBy o s.manager.persistence_required s.manager.candidate s.manager.board_zones
            s.before s.storage storage)
        missing saved).0

  -- Where persistence is required and there is no repository, no call returns OK, and the
  -- configuration stays as it was.
  pub manager_call-disabled :
      (call : ManagerCall) (s : System D V H S)
      → s.manager.repository ≡ none
      → s.manager.persistence_required ≡ true
      → (is_ok (manager_call call s).1 ≡ false)
        × ((manager_call call s).0.manager.configuration ≡ s.manager.configuration)
  unfolding replace_with
  manager_call-disabled call s missing required = elim (manager_call_cases call s) [
    | inl (refused, same) ↦ (refused, ap (λ s'. s'.manager.configuration) same)
    | inr (c, e, counted) ↦ rw e (elim (replace_candidate_cases (with_candidate c s)) [
      | inl (fine, good, views, saved) ↦
          absurd (ground (arith, not_required (with_candidate c s) _ missing saved))
      | inr (failed, views) ↦ (failed, ap (λ m. m.configuration) (sym views))
    ])
  ]

  -- On an honest storage, with a repository over it, with generations of 32 bits of which that of
  -- slot B is not the larger where only slot A is valid, and with 32-bit counters: after a call that returns
  -- OK, a load gives the manager's configuration.
  pub manager_call-load :
      (call : ManagerCall) (s : System D V H S) (read : Reader S) (write : Writer S)
      (commit : Committer S)
      → IsHonest read write commit
      → s.manager.repository ≡ some (storage_of read write commit)
      → IsCounted s.manager.configuration
      → IsCountedCall call
      → let board = some s.manager.board_zones in
        let a = read_slot read s.storage slot_a board in
        let b = read_slot read s.storage slot_b board in
        a.generation < 2 ^ 32
        → b.generation < 2 ^ 32
        → (is_valid a.state ≡ true → is_valid b.state ≡ false → b.generation ≤ a.generation)
        → let (s', result) = manager_call call s in
          is_ok result ≡ true
          → configuration_repository_load (storage_of read write commit) s'.storage board
            ≡ done (s'.manager.configuration, next_generation a b)
  unfolding replace_with
  manager_call-load call s read write commit honest given small counts x y order good =
      elim (manager_call_cases call s) [
        | inl (refused, same) ↦ absurd (ground arith)
        | inr (c, e, counted) ↦ elim (replace_candidate_cases (with_candidate c s)) [
          | inl (fine, valid, views, saved) ↦ rw e (
              rw (← ap (λ m. m.configuration) views) (
                load-save read write commit s.storage c s.before s.manager.board_zones _ honest
                  valid (counted.0 counts small).0 (counted.0 counts small).1 x y order
                  (saved_candidate (with_candidate c s) _ _ given saved)))
          | inr (failed, views) ↦ absurd (ground arith)
        ]
      ]
