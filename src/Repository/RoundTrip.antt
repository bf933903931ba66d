-- ===== src/Repository/RoundTrip.antt =====
-- The encoder's result on a valid configuration, and what the decoder makes of it.
use irrigation_controller.Prelude.{
  ℕ, ◌+◌, ◌-◌, ◌^◌, ◌≤◌, ◌<◌, ◌≡◌, refl, ap, ◌∙◌, false, not, ◌||◌, Option, some, List, ◌++◌, arith,
  length, ltb, ◌==◌,
}
use irrigation_controller.Result.{ok}
use irrigation_controller.Domain.{Zone, max_zones, max_programs, max_schedules}
use irrigation_controller.Configuration.{
  IrrigationConfiguration, schema_version, irrigation_configuration_validate,
}
use irrigation_controller.Repository.{
  Bytes, magic, header_size, max_payload_size, max_blob_size, put_u16, put_u32, get_u16, get_u32,
  crc32,
}
use irrigation_controller.Repository.Encode.{header, configuration_repository_encode, done}
use irrigation_controller.Repository.Decode.{
  check_header, decode_payload, configuration_repository_decode,
}
use irrigation_controller.Repository.Reading.{
  IsValid, validate-IsValid, u16_lem, u32_lem, decode_payload_lem,
}
use irrigation_controller.Repository.Lengths.{
  payload_of, length-payload_of, encode_payload_lem, crc32_bound, blob_of,
}

encode_tests :
    (c : IrrigationConfiguration) (board : List Zone) (capacity : ℕ)
    → IsValid c board
    → max_blob_size ≤ capacity
    → (ltb capacity max_blob_size
          || ltb max_zones (length c.zones)
          || ltb max_programs (length c.programs)
          || ltb max_schedules (length c.schedules)
        ≡ false)
      × (not (c.schema == schema_version) ≡ false)
encode_tests c board capacity g room =
    (ground (arith, g.zone_count, g.program_count, g.schedule_count), ground (arith, g.schema))

size_tests :
    (capacity n : ℕ)
    → max_blob_size ≤ capacity
    → n ≤ max_payload_size
    → (ltb capacity (16 + n) || ltb (2 ^ 16 - 1) n) ≡ false
size_tests capacity n room small = ground arith

pub encode_lem :
    (c : IrrigationConfiguration) (board : List Zone) (generation capacity : ℕ)
    → irrigation_configuration_validate (some c) (some board) ≡ ok
    → max_blob_size ≤ capacity
    → configuration_repository_encode (some c) generation capacity ≡ done (blob_of generation c)
unfolding configuration_repository_encode
encode_lem c board generation capacity v room =
    let g = validate-IsValid c board v in
    let (counts, schema) = encode_tests c board capacity g room in
    rw
      (
        counts,
        schema,
        encode_payload_lem c board v,
        size_tests capacity (length (payload_of c)) room (length-payload_of c board v),
      )
      refl

header_tests :
    (size n crc : ℕ)
    → size ≡ header_size + n
    → n ≤ max_payload_size
    → (ltb size header_size ≡ false)
      × ((ltb max_payload_size n || not (size == header_size + n) || not (crc == crc)) ≡ false)
header_tests size n crc e small = (ground arith, ground arith)

check_header_lem :
    (payload : Bytes) (size generation before : ℕ) (board : Option (List Zone))
    → size ≡ header_size + length payload
    → length payload ≤ max_payload_size
    → check_header board before size magic schema_version generation
        (length payload)
        (crc32 payload)
        payload
      ≡ (generation, decode_payload board payload)
unfolding check_header
check_header_lem payload size generation before board e small =
    let (long, fits) = header_tests size (length payload) (crc32 payload) e small in
    rw (long, fits) refl

-- The header that the encoder writes passes every test of the decoder.
decode-header :
    (payload : Bytes) (generation before : ℕ) (board : Option (List Zone))
    → length payload ≤ max_payload_size
    → generation < 2 ^ 32
    → configuration_repository_decode (header generation payload ++ payload) before board
      ≡ (generation, decode_payload board payload)
unfolding configuration_repository_decode
decode-header payload generation before board small fits =
    ap
      (λ (w : ℕ × (ℕ × ℕ)).
        check_header board before size magic schema_version w.0 w.1.0 w.1.1 payload)
      (values (generation) (length payload) (crc32 payload) fits (omega (arith, small))
        (crc32_bound payload))
    ∙ check_header_lem payload size generation before board (omega arith) small
  where
    size : ℕ
    size = length (header generation payload ++ payload)

    values :
        (g n crc : ℕ)
        → g < 2 ^ 32
        → n < 2 ^ 16
        → crc < 2 ^ 32
        → ◌≡◌ {A = ℕ × (ℕ × ℕ)}
            ((get_u32 (put_u32 g)).0, ((get_u16 (put_u16 n)).0, (get_u32 (put_u32 crc)).0))
            (g, (n, crc))
    values g n crc x y z = rw (u32_lem g x, u16_lem n y, u32_lem crc z) refl

pub decode-blob :
    (c : IrrigationConfiguration) (board : List Zone) (generation before : ℕ)
    → irrigation_configuration_validate (some c) (some board) ≡ ok
    → c.next_program_id < 2 ^ 32
    → c.next_schedule_id < 2 ^ 32
    → generation < 2 ^ 32
    → configuration_repository_decode (blob_of generation c) before (some board)
      ≡ (generation, done c)
decode-blob c board generation before v p q fits =
    decode-header (payload_of c) generation before (some board) (length-payload_of c board v) fits
    ∙ ap (λ r. (generation, r)) (decode_payload_lem c board v p q)

-- Encoding and decoding: a configuration that the validation accepts for the board, whose two
-- counters are uint32_t values, is encoded at any generation of 32 bits into a buffer of at least
-- the maximal size, and decoding the blob gives back that generation and that configuration,
-- whatever the generation held before.
pub decode-encode :
    (c : IrrigationConfiguration) (board : List Zone) (generation capacity before : ℕ)
    → irrigation_configuration_validate (some c) (some board) ≡ ok
    → c.next_program_id < 2 ^ 32
    → c.next_schedule_id < 2 ^ 32
    → generation < 2 ^ 32
    → max_blob_size ≤ capacity
    → (blob : Bytes) × (configuration_repository_encode (some c) generation capacity ≡ done blob)
      × (configuration_repository_decode blob before (some board) ≡ (generation, done c))
decode-encode c board generation capacity before v p q fits room = (
  blob_of generation c,
  encode_lem c board generation capacity v room,
  decode-blob c board generation before v p q fits,
)
