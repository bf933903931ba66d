-- ===== src/Repository/Parts.antt =====
-- Reading back what the encoder writes: texts, zones, programs and schedules.
use irrigation_controller.Prelude.{
  if◌then◌else◌, ℕ, zero, suc, ◌^◌, ◌<◌, ◌≡◌, refl, ap, true, some, List, [], ◌∷◌, ◌++◌, Text,
  arith, length, length-append, leb,
}
use irrigation_controller.Domain.{Zone, max_program_steps}
use irrigation_controller.Configuration.{
  IrrigationZoneConfiguration, IrrigationProgramStepConfiguration, IrrigationProgramConfiguration,
  IrrigationScheduleConfiguration, text_is_valid, characters_are_valid, id_size, zones_are_valid,
  steps_are_valid, programs_are_valid, schedules_are_valid, IrrigationConfiguration,
}
use irrigation_controller.Repository.{
  Bytes, byte_at, put_u16, put_u32, get_u16, get_u32, get_text, take, drop, c_string,
}
use irrigation_controller.Repository.Encode.{schedule_fields}
use irrigation_controller.Repository.Decode.{
  need, decode_zones, decode_steps, decode_step_count, decode_programs, decode_schedules,
}

take-append : (xs ys : Bytes) → take (length xs) (xs ++ ys) ≡ xs
take-append [] ys = refl
take-append (x ∷ xs) ys = ap (λ r. x ∷ r) (take-append xs ys)

drop-append : (xs ys : Bytes) → drop (length xs) (xs ++ ys) ≡ ys
drop-append [] ys = refl
drop-append (x ∷ xs) ys = drop-append xs ys

get_u16-put_u16 : (v : ℕ) (rest : Bytes) → v < 2 ^ 16 → get_u16 (put_u16 v ++ rest) ≡ (v, rest)
get_u16-put_u16 v rest h = ap (λ w. (w, rest)) (omega arith)

get_u32-put_u32 : (v : ℕ) (rest : Bytes) → v < 2 ^ 32 → get_u32 (put_u32 v ++ rest) ≡ (v, rest)
get_u32-put_u32 v rest h = ap (λ w. (w, rest)) (omega arith)

c_string_valid : (t : Text) → characters_are_valid t ≡ true → c_string t ≡ t
unfolding characters_are_valid c_string
c_string_valid [] h = refl
c_string_valid (zero ∷ t) h = ground arith
c_string_valid (suc c ∷ t) h = ap (λ r. suc c ∷ r) (c_string_valid t (ground arith))

pub get_text_lem :
    (t : Text) (rest : Bytes)
    → text_is_valid t id_size ≡ true
    → get_text (length t ∷ (t ++ rest)) ≡ some (t, rest)
unfolding get_text text_is_valid
get_text_lem t rest h =
    ground (arith, length-append t rest, take-append t rest, drop-append t rest, c_string_valid t)

-- The bytes of each part, with what follows them.
abbrev pub text_then : Text → Bytes → Bytes
text_then t rest = length t ∷ (t ++ rest)

unfoldable pub zones_then : List IrrigationZoneConfiguration → Bytes → Bytes
zones_then [] rest = rest
zones_then (zone ∷ zones) rest =
    text_then zone.zone_id (text_then zone.display_name (zones_then zones rest))

unfoldable pub steps_then : List IrrigationProgramStepConfiguration → Bytes → Bytes
steps_then [] rest = rest
steps_then (step ∷ steps) rest =
    text_then step.zone_id (put_u32 step.duration_ms ++ steps_then steps rest)

unfoldable pub programs_then : List IrrigationProgramConfiguration → Bytes → Bytes
unfolding steps_then
programs_then [] rest = rest
programs_then (program ∷ programs) rest = text_then program.program_id (
    text_then program.display_name
      (length program.steps ∷ steps_then program.steps (programs_then programs rest)))

unfoldable pub schedules_then : List IrrigationScheduleConfiguration → Bytes → Bytes
schedules_then [] rest = rest
schedules_then (schedule ∷ schedules) rest =
    text_then schedule.schedule_id
      (schedule_fields schedule ++ text_then schedule.program_id (schedules_then schedules rest))

abbrev pub lists_then : IrrigationConfiguration → Bytes
lists_then configuration =
    zones_then configuration.zones
      (programs_then configuration.programs (schedules_then configuration.schedules []))

pub decode_zones_lem :
    (board : List Zone) (before : List Text) (zones : List IrrigationZoneConfiguration)
    (rest : Bytes)
    → zones_are_valid board before zones ≡ true
    → decode_zones (length zones) (zones_then zones rest) ≡ some (zones, rest)
unfolding decode_zones zones_then zones_are_valid
decode_zones_lem board before [] rest h = refl
decode_zones_lem board before (zone ∷ zones) rest h =
    let next = zones_then zones rest in
    let id = get_text_lem zone.zone_id (text_then zone.display_name next) (ground arith) in
    let name = get_text_lem zone.display_name next (ground arith) in
    let others = decode_zones_lem board (before ++ zone.zone_id ∷ []) zones rest (ground arith) in
    ground (arith, id, name, others)

need_four :
    (a b c d : ℕ) (rest : Bytes) → need 4 (a ∷ b ∷ c ∷ d ∷ rest) ≡ some (tt, a ∷ b ∷ c ∷ d ∷ rest)
unfolding need
need_four a b c d rest = ground arith

need_one : (a : ℕ) (rest : Bytes) → need 1 (a ∷ rest) ≡ some (tt, a ∷ rest)
unfolding need
need_one a rest = ground arith

decode_steps_lem :
    (board : List Zone) (steps : List IrrigationProgramStepConfiguration) (rest : Bytes)
    → steps_are_valid board steps ≡ true
    → decode_steps (length steps) (steps_then steps rest) ≡ some (steps, rest)
unfolding decode_steps steps_then steps_are_valid
decode_steps_lem board [] rest h = refl
decode_steps_lem board (step ∷ steps) rest h =
    let next = steps_then steps rest in
    let id = get_text_lem step.zone_id (put_u32 step.duration_ms ++ next) (ground arith) in
    let duration = get_u32-put_u32 step.duration_ms next (ground arith) in
    let others = decode_steps_lem board steps rest (ground arith) in
    let there =
      need_four (byte_at step.duration_ms 0) (byte_at step.duration_ms 1)
        (byte_at step.duration_ms 2) (byte_at step.duration_ms 3) next in
    ground (arith, id, there, duration, others)

decode_step_count_lem :
    (n : ℕ) (rest : Bytes)
    → leb n max_program_steps ≡ true
    → decode_step_count (n ∷ rest) ≡ some (n, rest)
unfolding decode_step_count
decode_step_count_lem n rest h = ground arith

pub decode_programs_lem :
    (board : List Zone) (before : List Text) (programs : List IrrigationProgramConfiguration)
    (rest : Bytes)
    → programs_are_valid board before programs ≡ true
    → decode_programs (length programs) (programs_then programs rest) ≡ some (programs, rest)
unfolding decode_programs programs_then programs_are_valid
decode_programs_lem board before [] rest h = refl
decode_programs_lem board before (program ∷ programs) rest h =
    let next = programs_then programs rest in
    let steps = steps_then program.steps next in
    let id =
      get_text_lem program.program_id
        (text_then program.display_name (length program.steps ∷ steps)) (ground arith) in
    let name = get_text_lem program.display_name (length program.steps ∷ steps) (ground arith) in
    let there = need_one (length program.steps) steps in
    let own = decode_steps_lem board program.steps next (ground arith) in
    let others =
      decode_programs_lem board (before ++ program.program_id ∷ []) programs rest (ground arith) in
    let count = decode_step_count_lem (length program.steps) steps (ground arith) in
    ground (arith, id, name, there, count, own, others)

pub decode_schedules_lem :
    (programs : List IrrigationProgramConfiguration) (before : List Text)
    (schedules : List IrrigationScheduleConfiguration) (rest : Bytes)
    → schedules_are_valid programs before schedules ≡ true
    → decode_schedules (length schedules) (schedules_then schedules rest) ≡ some (schedules, rest)
unfolding decode_schedules schedules_then schedules_are_valid
decode_schedules_lem programs before [] rest h = refl
decode_schedules_lem programs before (schedule ∷ schedules) rest h =
    let next = schedules_then schedules rest in
    let after = text_then schedule.program_id next in
    let id = get_text_lem schedule.schedule_id (schedule_fields schedule ++ after) (ground arith) in
    let there =
      need_four (if schedule.enabled then 1 else 0) schedule.weekday_mask schedule.hour
        schedule.minute after in
    let program = get_text_lem schedule.program_id next (ground arith) in
    let others =
      decode_schedules_lem programs (before ++ schedule.schedule_id ∷ []) schedules rest
        (ground arith) in
    ground (arith, id, there, program, others)
