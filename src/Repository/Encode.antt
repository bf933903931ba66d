-- ===== src/Repository/Encode.antt =====
-- firmware/infrastructure/persistence/configuration_repository.c: `configuration_repository_encode`.
use irrigation_controller.Prelude.{
  ◌≡◌, refl, ◌⊎◌, inl, inr, ℕ, ◌+◌, ◌^◌, ◌-◌, ◌==◌, not, ◌||◌, if◌then◌else◌, Option, none, some,
  List, [], ◌∷◌, ◌++◌, length, ltb,
}
use irrigation_controller.Domain.{max_zones, max_programs, max_schedules}
use irrigation_controller.Configuration.{
  IrrigationZoneConfiguration, IrrigationProgramStepConfiguration, IrrigationProgramConfiguration,
  IrrigationScheduleConfiguration, IrrigationConfiguration, schema_version,
}
use irrigation_controller.Repository.{
  Bytes, ConfigurationRepositoryResult, invalid_configuration, incompatible, magic, max_blob_size,
  crc32, put_u16, put_u32, put_text,
}

-- A repository operation that writes its output arguments, or fails.
pub data Stored {ℓ} (A : Type ℓ) : Type ℓ where
  done : A → Stored A
  failed : ConfigurationRepositoryResult → Stored A

pub Stored-cases {ℓ} :
    {A : Type ℓ} (r : Stored A)
    → ((e : ConfigurationRepositoryResult) × (r ≡ failed e)) ⊎ ((a : A) × (r ≡ done a))
Stored-cases (failed e) = inl (e, refl)
Stored-cases (done a) = inr (a, refl)

-- One piece after another; `none` is the early return.
infixr 40 ◌<+>◌
abbrev pub ◌<+>◌ : Option Bytes → Option Bytes → Option Bytes
none <+> next = none
some bytes <+> none = none
some bytes <+> some more = some (bytes ++ more)

unfoldable pub encode_zones : List IrrigationZoneConfiguration → Option Bytes
unfolding put_text
encode_zones [] = some []
encode_zones (zone ∷ zones) =
    put_text zone.zone_id <+> put_text zone.display_name <+> encode_zones zones

unfoldable pub encode_steps : List IrrigationProgramStepConfiguration → Option Bytes
unfolding put_text
encode_steps [] = some []
encode_steps (step ∷ steps) =
    put_text step.zone_id <+> some (put_u32 step.duration_ms) <+> encode_steps steps

unfoldable pub encode_programs : List IrrigationProgramConfiguration → Option Bytes
unfolding put_text encode_steps
encode_programs [] = some []
encode_programs (program ∷ programs) =
    put_text program.program_id
    <+> put_text program.display_name
    <+> some (length program.steps ∷ [])
    <+> encode_steps program.steps
    <+> encode_programs programs

abbrev pub schedule_fields : IrrigationScheduleConfiguration → Bytes
schedule_fields schedule =
    (if schedule.enabled then 1 else 0)
    ∷ schedule.weekday_mask
    ∷ schedule.hour
    ∷ schedule.minute
    ∷ []

unfoldable pub encode_schedules : List IrrigationScheduleConfiguration → Option Bytes
unfolding put_text
encode_schedules [] = some []
encode_schedules (schedule ∷ schedules) =
    put_text schedule.schedule_id
    <+> some (schedule_fields schedule)
    <+> put_text schedule.program_id
    <+> encode_schedules schedules

-- The version, the three counts and the two numbers.
abbrev pub payload_start : IrrigationConfiguration → Bytes
payload_start configuration =
    put_u16 configuration.schema
    ++ (length configuration.zones
        ∷ length configuration.programs
        ∷ length configuration.schedules
        ∷ [])
    ++ put_u32 configuration.next_program_id
    ++ put_u32 configuration.next_schedule_id

unfoldable pub encode_payload : IrrigationConfiguration → Option Bytes
unfolding encode_zones encode_programs encode_schedules
encode_payload configuration =
    some (payload_start configuration)
    <+> encode_zones configuration.zones
    <+> encode_programs configuration.programs
    <+> encode_schedules configuration.schedules

abbrev pub header : ℕ → Bytes → Bytes
header generation payload =
    put_u32 magic
    ++ put_u16 schema_version
    ++ put_u32 generation
    ++ put_u16 (length payload)
    ++ put_u32 (crc32 payload)

-- `capacity` is the size of the buffer. The result is the blob.
unfoldable pub configuration_repository_encode :
    Option IrrigationConfiguration → ℕ → ℕ → Stored Bytes
unfolding encode_payload crc32
configuration_repository_encode none generation capacity = failed invalid_configuration
configuration_repository_encode (some configuration) generation capacity =
    if ltb capacity max_blob_size
      || ltb max_zones (length configuration.zones)
      || ltb max_programs (length configuration.programs)
      || ltb max_schedules (length configuration.schedules)
    then failed invalid_configuration
    else if not (configuration.schema == schema_version)
    then failed incompatible
    else elim (encode_payload configuration) [
      | none ↦ failed invalid_configuration
      | some payload ↦
          if ltb capacity (16 + length payload) || ltb (2 ^ 16 - 1) (length payload)
          then failed invalid_configuration
          else done (header generation payload ++ payload)
    ]
