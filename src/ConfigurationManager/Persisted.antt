-- ===== src/ConfigurationManager/Persisted.antt =====
-- What a replacement can change, and the save of the candidate.
use irrigation_controller.Prelude.{
  ℕ, ◌≡◌, refl, ap, ◌∙◌, ◌⊎◌, inl, inr, Bool, true, false, Option, none, some, List, arith,
  Bool-cases, Option-cases, if_split,
}
use irrigation_controller.Result.{IrrigationResult, is_ok}
use irrigation_controller.Domain.{Zone}
use irrigation_controller.Configuration.{IrrigationConfiguration, irrigation_configuration_validate}
use irrigation_controller.Repository.Slots.{is_stored, ConfigurationRepositoryStorage}
use irrigation_controller.Repository.Slots.Storing.{configuration_repository_save}
use irrigation_controller.ConfigurationManager.{ConfigurationManager}
use irrigation_controller.ConfigurationManager.Views.{
  rebuild_programs, rebuild_schedules, rebuild_runtime_views,
}
use irrigation_controller.ConfigurationManager.Replace.{
  System, configure_schedules, persist, accept,
}

pub is_ok→ok : (result : IrrigationResult) → is_ok result ≡ true → result ≡ IrrigationResult.ok
is_ok→ok result good = ground arith

module _ {S : Type 0} where
  -- The runtime views of `m'`, and the other fields of `m`.
  abbrev with_views : ConfigurationManager S → ConfigurationManager S → ConfigurationManager S
  with_views m m' = record m {
    program_slots = m'.program_slots;
    schedule_slots = m'.schedule_slots;
    runtime_schedules = m'.runtime_schedules;
  }

  -- The runtime views are all that differs.
  abbrev pub OnlyViews : ConfigurationManager S → ConfigurationManager S → Type 0
  OnlyViews m m' = with_views m m' ≡ m'

  pub OnlyViews-trans :
      (m₁ m₂ m₃ : ConfigurationManager S) → OnlyViews m₁ m₂ → OnlyViews m₂ m₃ → OnlyViews m₁ m₃
  OnlyViews-trans m₁ m₂ m₃ e f = ap (λ m. with_views m m₃) e ∙ f

  -- A configuration is valid for the manager's board.
  abbrev pub IsValidFor : ConfigurationManager S → IrrigationConfiguration → Type 0
  IsValidFor m c =
      irrigation_configuration_validate (some c) (some m.board_zones) ≡ IrrigationResult.ok

  rebuild_programs-OnlyViews :
      (m : ConfigurationManager S) (c : IrrigationConfiguration)
      → OnlyViews m (rebuild_programs m c).0
  unfolding rebuild_programs
  rebuild_programs-OnlyViews m c =
      if_split (λ (r : ConfigurationManager S × Bool). OnlyViews m r.0) _ _ _ (λ _. refl)
        (λ _. refl)

  pub rebuild-OnlyViews :
      (changed : Bool) (c : IrrigationConfiguration) (m : ConfigurationManager S)
      → OnlyViews m (rebuild_runtime_views changed c m)
  unfolding rebuild_runtime_views rebuild_schedules
  rebuild-OnlyViews changed c m =
      if_split (OnlyViews m) changed _ _
        (λ _.
          if_split (OnlyViews m) (rebuild_programs m c).1 _ _
            (λ _. ap (λ m'. rebuild_schedules m' c) (rebuild_programs-OnlyViews m c))
            (λ _. rebuild_programs-OnlyViews m c))
        (λ _. refl)

  -- What has happened to the storage when a candidate has been kept.
  abbrev pub IsPersistedBy :
      Option (ConfigurationRepositoryStorage S)
      → Bool
      → IrrigationConfiguration
      → List Zone
      → ℕ
      → S
      → S
      → Type 0
  IsPersistedBy none required candidate board before storage storage' =
      (required ≡ false) × (storage' ≡ storage)
  IsPersistedBy (some repository) required candidate board before storage storage' =
      let r =
        configuration_repository_save repository storage (some candidate) before (some board) in
      (is_stored r.1 ≡ true) × (storage' ≡ r.0)

module _ {D V H S : Type 0} where
  abbrev pub IsPersisted : System D V H S → S → Type 0
  IsPersisted s storage =
      IsPersistedBy s.manager.repository s.manager.persistence_required s.manager.candidate
        s.manager.board_zones s.before s.storage storage

  abbrev pub IsAccepted : System D V H S → System D V H S × IrrigationResult → Type 0
  IsAccepted s r =
      (is_ok r.1 ≡ true)
      × IsValidFor s.manager s.manager.candidate
      × OnlyViews (accept s.manager) r.0.manager
      × IsPersisted s r.0.storage

  abbrev pub IsDropped : System D V H S → System D V H S × IrrigationResult → Type 0
  IsDropped s r = (is_ok r.1 ≡ false) × OnlyViews s.manager r.0.manager

  pub persist-manager : (s : System D V H S) → (persist s).0.manager ≡ s.manager
  unfolding persist
  persist-manager s = ground arith

  pub persist_cases :
      (s : System D V H S)
      → ((is_ok (persist s).1 ≡ true) × IsPersisted s (persist s).0.storage)
        ⊎ (is_ok (persist s).1 ≡ false)
  unfolding persist
  persist_cases s = elim (Option-cases s.manager.repository) [
    | inl missing ↦ elim (Bool-cases s.manager.persistence_required) [
      | inl required ↦ inr (rw (missing, required) refl)
      | inr optional ↦ inl (rw (missing, optional) (refl, (refl, refl)))
    ]
    | inr (repository, given) ↦
        let r =
          configuration_repository_save repository s.storage (some s.manager.candidate) s.before
            (some s.manager.board_zones) in
        elim (Bool-cases (is_stored r.1)) [
          | inl stored ↦ inl (rw (given, stored) (refl, (refl, refl)))
          | inr lost ↦ inr (rw (given, lost) refl)
        ]
  ]

  pub configure_schedules-OnlyViews :
      (changed : Bool) (c : IrrigationConfiguration) (s : System D V H S)
      → OnlyViews s.manager (configure_schedules changed c s).0.manager
  unfolding configure_schedules
  configure_schedules-OnlyViews changed c s = rebuild-OnlyViews changed c s.manager
