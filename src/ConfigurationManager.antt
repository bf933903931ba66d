-- ===== src/ConfigurationManager.antt =====
-- firmware/app/configuration/configuration_manager.c: the manager's state and the slots of its
-- runtime views.
-- The buffers of a slot (the names, the steps and their zones) are written together with the
-- program whose pointers lead to them, and are part of its value.
pub mod Views
pub mod Replace
pub mod Edits
pub mod Boot
pub mod Calls
pub mod Transaction
pub mod Safety
pub mod Slots
pub mod Counting
pub mod Agreement
pub mod Placement
pub mod Rebuilt
pub mod Fits
pub mod Keeping
pub mod Room
pub mod Served
pub mod Booted
pub mod Overflow
pub mod Loaded
pub mod Overfull
pub mod Numbered
pub mod Persisted
pub mod Defaults
pub mod Candidates
pub mod Placing
use irrigation_controller.Prelude.{
  ℕ, zero, suc, ◌+◌, ◌-◌, ◌/◌, ◌%◌, ◌==◌, Bool, true, false, not, ◌&&◌, if◌then◌else◌, Option, none,
  some, List, [], ◌∷◌, Text, text_eq, get_elem?, set, take, map, replicate, ltb, Pointer,
}
use irrigation_controller.Domain.{Zone, Program, ProgramStep}
use irrigation_controller.Configuration.{
  IrrigationConfiguration, IrrigationProgramConfiguration, IrrigationProgramStepConfiguration,
  IrrigationScheduleConfiguration, id_size,
}
use irrigation_controller.Device.{SchedulerEntry, ProgramPointer}
use irrigation_controller.Repository.Slots.{ConfigurationRepositoryStorage}

pub data ConfigurationManagerBootResult : Type 0 where
  loaded : ConfigurationManagerBootResult
  defaults_persisted : ConfigurationManagerBootResult
  defaults_corrupt : ConfigurationManagerBootResult
  defaults_incompatible : ConfigurationManagerBootResult
  defaults_storage_error : ConfigurationManagerBootResult

-- One place of `runtime_program_slots`, `runtime_program_ids` and `runtime_programs`, or of
-- `runtime_schedule_slots` and `runtime_schedule_ids`.
pub record RuntimeSlot (A : Type 0) : Type 0 where
  pub in_use : Bool
  pub id : Text
  pub content : A

-- `repository` is NULL at `none`, and `runtime_schedules` has its 16 places.
pub record ConfigurationManager (S : Type 0) : Type 0 where
  pub configuration : IrrigationConfiguration
  pub candidate : IrrigationConfiguration
  pub board_zones : List Zone
  pub repository : Option (ConfigurationRepositoryStorage S)
  pub persistence_required : Bool
  pub scheduler_service : Pointer
  pub program_slots : List (RuntimeSlot Program)
  pub schedule_slots : List (RuntimeSlot (Unit {0}))
  pub runtime_schedules : List SchedulerEntry

-- `snprintf(destination, size, "%s", source)`
abbrev pub copy_text : ℕ → Text → Text
copy_text destination_size source = take (destination_size - 1) source

unfoldable pub program_index_for_id : List IrrigationProgramConfiguration → Text → Option ℕ
program_index_for_id [] program_id = none
program_index_for_id (program ∷ programs) program_id =
    if text_eq program.program_id program_id
    then some 0
    else elim (program_index_for_id programs program_id) [ none ↦ none | some n ↦ some (suc n) ]

module _ {A : Type 0} where
  -- `program_slot_for_id` and `schedule_slot_for_id`
  unfoldable pub slot_for_id : List (RuntimeSlot A) → Text → Option ℕ
  slot_for_id [] id = none
  slot_for_id (slot ∷ slots) id =
      if slot.in_use && text_eq slot.id id
      then some 0
      else elim (slot_for_id slots id) [ none ↦ none | some n ↦ some (suc n) ]

  unfoldable pub unused_slot : List (RuntimeSlot A) → Option ℕ
  unused_slot [] = none
  unused_slot (slot ∷ slots) =
      if not slot.in_use
      then some 0
      else elim (unused_slot slots) [ none ↦ none | some n ↦ some (suc n) ]

  -- The slot of the id, or else one that is free.
  unfoldable pub claim_slot : List (RuntimeSlot A) → Text → Option ℕ
  unfolding slot_for_id unused_slot
  claim_slot slots id = elim (slot_for_id slots id) [
    | none ↦ unused_slot slots
    | some slot ↦ some slot
  ]

  -- The last loop over the slots: `runtime_program_slots[index] = program_slots_in_use[index]`.
  unfoldable pub keep_slots : List (RuntimeSlot A) → List Bool → List (RuntimeSlot A)
  keep_slots [] in_use = []
  keep_slots (slot ∷ slots) [] = slot ∷ slots
  keep_slots (slot ∷ slots) (used ∷ in_use) =
      record slot { in_use = used } ∷ keep_slots slots in_use

unfoldable pub steps_are_equal :
    List IrrigationProgramStepConfiguration → List IrrigationProgramStepConfiguration → Bool
steps_are_equal [] [] = true
steps_are_equal [] (b ∷ bs) = false
steps_are_equal (a ∷ as_) [] = false
steps_are_equal (a ∷ as_) (b ∷ bs) =
    text_eq a.zone_id b.zone_id && a.duration_ms == b.duration_ms && steps_are_equal as_ bs

-- `programs_are_equal`, on the programs of both sides.
unfoldable pub programs_are_equal :
    List IrrigationProgramConfiguration → List IrrigationProgramConfiguration → Bool
unfolding steps_are_equal
programs_are_equal [] [] = true
programs_are_equal [] (b ∷ bs) = false
programs_are_equal (a ∷ as_) [] = false
programs_are_equal (a ∷ as_) (b ∷ bs) =
    text_eq a.program_id b.program_id
    && text_eq a.display_name b.display_name
    && steps_are_equal a.steps b.steps
    && programs_are_equal as_ bs
