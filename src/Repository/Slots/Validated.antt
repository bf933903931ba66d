-- ===== src/Repository/Slots/Validated.antt =====
-- What a load gives has been validated, whatever the storage holds.
use irrigation_controller.Prelude.{
  ℕ, ◌≡◌, inl, inr, true, Option, none, some, List, [], ◌∷◌, arith, Option-cases, if_split, subst,
  length,
}
use irrigation_controller.Result.{is_ok}
use irrigation_controller.Domain.{Zone}
use irrigation_controller.Configuration.{IrrigationConfiguration, irrigation_configuration_validate}
use irrigation_controller.Repository.{Bytes, ConfigurationRepositoryResult, get_u16, get_u32}
use irrigation_controller.Repository.Encode.{Stored, done, failed}
use irrigation_controller.Repository.Decode.{
  finish_decode, decode_counted, decode_payload, check_header, configuration_repository_decode,
}
use irrigation_controller.Repository.Slots.{
  ConfigurationRepositoryStorage, Slot, SlotState, slot_of, decoded_state, loaded, select, slot_a,
  slot_b, read_slot, configuration_repository_load,
}

abbrev IsOk : IrrigationConfiguration → Option (List Zone) → Type 0
IsOk c zones = is_ok (irrigation_configuration_validate (some c) zones) ≡ true

-- A decoded configuration is valid.
DecodedOk : Option (List Zone) → Stored IrrigationConfiguration → Type 0
DecodedOk zones (done c) = IsOk c zones
DecodedOk zones (failed result) = Unit {0}

done-Ok :
    (zones : Option (List Zone)) (c : IrrigationConfiguration)
    → IsOk c zones
    → DecodedOk zones (done c)
unfolding DecodedOk
done-Ok zones c good = good

failed-Ok :
    (zones : Option (List Zone)) (result : ConfigurationRepositoryResult)
    → DecodedOk zones (failed result)
unfolding DecodedOk
failed-Ok zones result = tt

finish_decode-Ok :
    (zones : Option (List Zone)) (o : Option (IrrigationConfiguration × Bytes))
    → DecodedOk zones (finish_decode zones o)
unfolding finish_decode
finish_decode-Ok zones none = failed-Ok zones _
finish_decode-Ok zones (some (configuration, byte ∷ rest)) = failed-Ok zones _
finish_decode-Ok zones (some (configuration, [])) =
    if_split (DecodedOk zones) _ _ _ (λ good. done-Ok zones configuration good)
      (λ bad. failed-Ok zones _)

decode_counted-Ok :
    (zones : Option (List Zone)) (size schema n p q i j : ℕ) (rest : Bytes)
    → DecodedOk zones (decode_counted zones size schema n p q i j rest)
unfolding decode_counted
decode_counted-Ok zones size schema n p q i j rest = grind (arith, failed-Ok, finish_decode-Ok)

check_header-Ok :
    (zones : Option (List Zone)) (before size m v g n crc : ℕ) (payload : Bytes)
    → DecodedOk zones (check_header zones before size m v g n crc payload).1
unfolding check_header decode_payload
check_header-Ok zones before size m v g n crc payload = grind (arith, failed-Ok, decode_counted-Ok)

decode-Ok :
    (zones : Option (List Zone)) (blob : Bytes) (before : ℕ)
    → DecodedOk zones (configuration_repository_decode blob before zones).1
unfolding configuration_repository_decode
decode-Ok zones blob before =
    let (found_magic, rest₀) = get_u32 blob in
    let (version, rest₁) = get_u16 rest₀ in
    let (found_generation, rest₂) = get_u32 rest₁ in
    let (payload_length, rest₃) = get_u16 rest₂ in
    let (stored_crc, payload) = get_u32 rest₃ in
    check_header-Ok zones before (length blob) found_magic version found_generation payload_length
      stored_crc payload

-- A slot that is valid holds a configuration that is.
abbrev SlotOk : Option (List Zone) → SlotState → Type 0
SlotOk zones (SlotState.valid c) = IsOk c zones
SlotOk zones _ = Unit {0}

decoded_state-Ok :
    (zones : Option (List Zone)) (r : Stored IrrigationConfiguration)
    → DecodedOk zones r
    → SlotOk zones (decoded_state r)
unfolding DecodedOk
decoded_state-Ok zones (done c) h = h
decoded_state-Ok zones (failed ConfigurationRepositoryResult.incompatible) h = tt
decoded_state-Ok zones (failed _) h = tt

slot_of-Ok :
    (zones : Option (List Zone)) (result : ConfigurationRepositoryResult) (bytes : Bytes)
    → SlotOk zones (slot_of zones result bytes).state
unfolding slot_of
slot_of-Ok zones ConfigurationRepositoryResult.not_found bytes = tt
slot_of-Ok zones ConfigurationRepositoryResult.ok bytes =
    decoded_state-Ok zones (configuration_repository_decode bytes 0 zones).1
      (decode-Ok zones bytes 0)
slot_of-Ok zones _ bytes = tt

-- A configuration that is loaded is valid.
LoadedOk : Option (List Zone) → Stored (IrrigationConfiguration × ℕ) → Type 0
LoadedOk zones (done (c, generation)) = IsOk c zones
LoadedOk zones (failed result) = Unit {0}

unloaded-Ok :
    (zones : Option (List Zone)) (result : ConfigurationRepositoryResult)
    → LoadedOk zones (failed result)
unfolding LoadedOk
unloaded-Ok zones result = tt

loaded-Ok :
    (zones : Option (List Zone)) (state : SlotState) (generation : ℕ)
    → SlotOk zones state
    → LoadedOk zones (loaded (record { state = state; generation = generation }))
unfolding LoadedOk
loaded-Ok zones (SlotState.valid c) generation h = h
loaded-Ok zones _ generation h = tt

select-Ok :
    (zones : Option (List Zone)) (a b : Slot)
    → SlotOk zones a.state
    → SlotOk zones b.state
    → LoadedOk zones (select a b)
unfolding select
select-Ok zones a b h k = grind (
  arith,
  unloaded-Ok,
  loaded-Ok zones a.state a.generation h,
  loaded-Ok zones b.state b.generation k,
)

module _ {S : Type 0} where
  load-Ok :
      (storage : ConfigurationRepositoryStorage S) (s : S) (zones : Option (List Zone))
      → LoadedOk zones (configuration_repository_load storage s zones)
  unfolding configuration_repository_load read_slot
  load-Ok storage s zones = elim (Option-cases storage.read) [
    | inl missing ↦ rw (missing, configuration_repository_load) (unloaded-Ok zones _)
    | inr (read, given) ↦
        rw (given, configuration_repository_load)
          (select-Ok zones (read_slot read s slot_a zones) (read_slot read s slot_b zones)
            (slot_of-Ok zones (read s slot_a).0 (read s slot_a).1)
            (slot_of-Ok zones (read s slot_b).0 (read s slot_b).1))
  ]

  -- A load that returns OK gives a configuration that is valid for the board, whatever the storage
  -- holds and answers.
  pub load-IsValid :
      (storage : ConfigurationRepositoryStorage S) (s : S) (zones : Option (List Zone))
      (c : IrrigationConfiguration) (generation : ℕ)
      → configuration_repository_load storage s zones ≡ done (c, generation)
      → is_ok (irrigation_configuration_validate (some c) zones) ≡ true
  unfolding LoadedOk
  load-IsValid storage s zones c generation e = subst (LoadedOk zones) e (load-Ok storage s zones)
