-- ===== src/Repository.antt =====
-- firmware/infrastructure/persistence/configuration_repository.c: the stored form of a
-- configuration. A blob is the list of its bytes.
pub mod Encode
pub mod Decode
pub mod Parts
pub mod Reading
pub mod Writing
pub mod Lengths
pub mod RoundTrip
pub mod Slots
use irrigation_controller.Prelude.{
  ℕ, zero, suc, ◌+◌, ◌*◌, ◌-◌, ◌/◌, ◌%◌, ◌^◌, ◌==◌, Bool, true, false, not, ◌&&◌, ◌||◌,
  if◌then◌else◌, Option, none, some, List, [], ◌∷◌, ◌++◌, Text, length, ltb, leb,
}
use irrigation_controller.Result.{IrrigationResult, is_ok}
use irrigation_controller.Domain.{Zone, max_zones, max_programs, max_program_steps, max_schedules}
use irrigation_controller.Configuration.{
  IrrigationZoneConfiguration, IrrigationProgramStepConfiguration, IrrigationProgramConfiguration,
  IrrigationScheduleConfiguration, IrrigationConfiguration, schema_version, id_size,
  irrigation_configuration_validate,
}

abbrev pub Bytes : Type 0
Bytes = List ℕ

pub data ConfigurationRepositoryResult : Type 0 where
  ok : ConfigurationRepositoryResult
  not_found : ConfigurationRepositoryResult
  corrupt : ConfigurationRepositoryResult
  incompatible : ConfigurationRepositoryResult
  invalid_configuration : ConfigurationRepositoryResult
  storage_error : ConfigurationRepositoryResult

abbrev pub magic : ℕ
magic = 1195787081

abbrev pub header_size : ℕ
header_size = 16

abbrev pub max_text_size : ℕ
max_text_size = id_size

abbrev pub max_payload_size : ℕ
max_payload_size =
    13
    + max_zones * (2 * max_text_size)
    + max_programs * (2 * max_text_size + 1 + max_program_steps * (max_text_size + 4))
    + max_schedules * (2 * max_text_size + 4)

abbrev pub max_blob_size : ℕ
max_blob_size = header_size + max_payload_size

-- `a ^ b` on the lowest `width` bits.
unfoldable pub xor : ℕ → ℕ → ℕ → ℕ
xor zero a b = 0
xor (suc width) a b = (if a % 2 == b % 2 then 0 else 1) + 2 * xor width (a / 2) (b / 2)

-- `count` rounds of the inner loop: `0xedb88320U & -(crc & 1U)` is the mask or 0.
unfoldable pub crc_bits : ℕ → ℕ → ℕ
unfolding xor
crc_bits zero crc = crc
crc_bits (suc count) crc =
    crc_bits count (if crc % 2 == 1 then xor 32 (crc / 2) 3988292384 else crc / 2)

unfoldable pub crc_loop : ℕ → Bytes → ℕ
unfolding crc_bits
crc_loop crc [] = crc
crc_loop crc (byte ∷ bytes) = crc_loop (crc_bits 8 (xor 32 crc byte)) bytes

-- `~crc` on uint32_t.
unfoldable pub crc32 : Bytes → ℕ
unfolding crc_loop
crc32 bytes = 2 ^ 32 - 1 - crc_loop (2 ^ 32 - 1) bytes

abbrev pub byte_at : ℕ → ℕ → ℕ
byte_at value index = (value / 2 ^ (8 * index)) % 2 ^ 8

abbrev pub put_u16 : ℕ → Bytes
put_u16 value = byte_at value 0 ∷ byte_at value 1 ∷ []

abbrev pub put_u32 : ℕ → Bytes
put_u32 value = byte_at value 0 ∷ byte_at value 1 ∷ byte_at value 2 ∷ byte_at value 3 ∷ []

-- `*cursor++`. The code never reads beyond the end, where the model has 0.
abbrev pub get_u8 : Bytes → ℕ × Bytes
get_u8 [] = (0, [])
get_u8 (b ∷ bytes) = (b, bytes)

abbrev pub get_u16 : Bytes → ℕ × Bytes
get_u16 bytes =
    let (b₀, rest₀) = get_u8 bytes in let (b₁, rest₁) = get_u8 rest₀ in (b₀ + 2 ^ 8 * b₁, rest₁)

abbrev pub get_u32 : Bytes → ℕ × Bytes
get_u32 bytes =
    let (low, rest₀) = get_u16 bytes in
    let (high, rest₁) = get_u16 rest₀ in (low + 2 ^ 16 * high, rest₁)

-- `none` is false.
unfoldable pub put_text : Text → Option Bytes
put_text text =
    if length text == 0 || leb max_text_size (length text) then none else some (length text ∷ text)

abbrev pub take : ℕ → Bytes → Bytes
take zero bytes = []
take (suc n) [] = []
take (suc n) (b ∷ bytes) = b ∷ take n bytes

abbrev pub drop : ℕ → Bytes → Bytes
drop zero bytes = bytes
drop (suc n) [] = []
drop (suc n) (b ∷ bytes) = drop n bytes

-- The string that starts at the first of the bytes: a NUL byte ends it.
unfoldable pub c_string : Bytes → Text
c_string [] = []
c_string (zero ∷ bytes) = []
c_string (suc c ∷ bytes) = suc c ∷ c_string bytes

-- The buffers have `max_text_size` places.
unfoldable pub get_text : Bytes → Option (Text × Bytes)
unfolding c_string
get_text [] = none
get_text (size ∷ rest) =
    if size == 0 || leb max_text_size size || ltb (length rest) size
    then none
    else some (c_string (take size rest), drop size rest)
