-- ===== src/Repository/Writing.antt =====
-- The encoder's bytes for a valid configuration, part by part.
use irrigation_controller.Prelude.{
  ◌≡◌, refl, ap, ◌∙◌, true, some, List, [], ◌∷◌, ◌++◌, Text, arith, length, append_assoc,
}
use irrigation_controller.Domain.{Zone}
use irrigation_controller.Configuration.{
  IrrigationZoneConfiguration, IrrigationProgramStepConfiguration, IrrigationProgramConfiguration,
  IrrigationScheduleConfiguration, text_is_valid, id_size, zones_are_valid, steps_are_valid,
  programs_are_valid, schedules_are_valid,
}
use irrigation_controller.Repository.{Bytes, put_u32, put_text}
use irrigation_controller.Repository.Encode.{
  encode_zones, encode_steps, encode_programs, encode_schedules,
}
use irrigation_controller.Repository.Parts.{
  text_then, zones_then, steps_then, programs_then, schedules_then,
}

put_text_lem : (t : Text) → text_is_valid t id_size ≡ true → put_text t ≡ some (length t ∷ t)
unfolding put_text text_is_valid
put_text_lem t h = ground arith

text_then-append : (t : Text) (a b : Bytes) → text_then t a ++ b ≡ text_then t (a ++ b)
text_then-append t a b = ap (λ r. length t ∷ r) (append_assoc t a b)

pub zones_then-append :
    (zones : List IrrigationZoneConfiguration) (a b : Bytes)
    → zones_then zones a ++ b ≡ zones_then zones (a ++ b)
unfolding zones_then
zones_then-append [] a b = refl
zones_then-append (zone ∷ zones) a b =
    let next = zones_then zones a in
    text_then-append zone.zone_id (text_then zone.display_name next) b
    ∙ ap (text_then zone.zone_id) (
        text_then-append zone.display_name next b
        ∙ ap (text_then zone.display_name) (zones_then-append zones a b))

steps_then-append :
    (steps : List IrrigationProgramStepConfiguration) (a b : Bytes)
    → steps_then steps a ++ b ≡ steps_then steps (a ++ b)
unfolding steps_then
steps_then-append [] a b = refl
steps_then-append (step ∷ steps) a b =
    text_then-append step.zone_id (put_u32 step.duration_ms ++ steps_then steps a) b
    ∙ ap (λ r. text_then step.zone_id (put_u32 step.duration_ms ++ r)) (steps_then-append steps a b)

pub programs_then-append :
    (programs : List IrrigationProgramConfiguration) (a b : Bytes)
    → programs_then programs a ++ b ≡ programs_then programs (a ++ b)
unfolding programs_then
programs_then-append [] a b = refl
programs_then-append (program ∷ programs) a b =
    let next = programs_then programs a in
    let steps = length program.steps ∷ steps_then program.steps next in
    text_then-append program.program_id (text_then program.display_name steps) b
    ∙ ap (text_then program.program_id) (
        text_then-append program.display_name steps b
        ∙ ap (λ r. text_then program.display_name (length program.steps ∷ r))
            (steps_then-append program.steps next b
              ∙ ap (steps_then program.steps) (programs_then-append programs a b)))

pub encode_zones_lem :
    (board : List Zone) (before : List Text) (zones : List IrrigationZoneConfiguration)
    → zones_are_valid board before zones ≡ true
    → encode_zones zones ≡ some (zones_then zones [])
unfolding encode_zones zones_then zones_are_valid
encode_zones_lem board before [] h = refl
encode_zones_lem board before (zone ∷ zones) h =
    rw
      (
        put_text_lem zone.zone_id (ground arith),
        put_text_lem zone.display_name (ground arith),
        encode_zones_lem board (before ++ zone.zone_id ∷ []) zones (ground arith),
      )
      refl

encode_steps_lem :
    (board : List Zone) (steps : List IrrigationProgramStepConfiguration)
    → steps_are_valid board steps ≡ true
    → encode_steps steps ≡ some (steps_then steps [])
unfolding encode_steps steps_then steps_are_valid
encode_steps_lem board [] h = refl
encode_steps_lem board (step ∷ steps) h =
    rw (put_text_lem step.zone_id (ground arith), encode_steps_lem board steps (ground arith)) refl

pub encode_programs_lem :
    (board : List Zone) (before : List Text) (programs : List IrrigationProgramConfiguration)
    → programs_are_valid board before programs ≡ true
    → encode_programs programs ≡ some (programs_then programs [])
unfolding encode_programs programs_then programs_are_valid
encode_programs_lem board before [] h = refl
encode_programs_lem board before (program ∷ programs) h =
    rw
      (
        put_text_lem program.program_id (ground arith),
        put_text_lem program.display_name (ground arith),
        encode_steps_lem board program.steps (ground arith),
        encode_programs_lem board (before ++ program.program_id ∷ []) programs (ground arith),
        steps_then-append program.steps [] (programs_then programs []),
      )
      refl

pub encode_schedules_lem :
    (programs : List IrrigationProgramConfiguration) (before : List Text)
    (schedules : List IrrigationScheduleConfiguration)
    → schedules_are_valid programs before schedules ≡ true
    → encode_schedules schedules ≡ some (schedules_then schedules [])
unfolding encode_schedules schedules_then schedules_are_valid
encode_schedules_lem programs before [] h = refl
encode_schedules_lem programs before (schedule ∷ schedules) h =
    rw
      (
        put_text_lem schedule.schedule_id (ground arith),
        put_text_lem schedule.program_id (ground arith),
        encode_schedules_lem programs (before ++ schedule.schedule_id ∷ []) schedules
            (ground arith),
      )
      refl
