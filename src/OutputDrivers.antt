-- ===== src/OutputDrivers.antt =====
-- firmware/hal/outputs/virtual_output_driver.c: the output driver without hardware. The log is left
-- out, and so is the NULL test of `virtual_get_output`, whose argument is never NULL.
use irrigation_controller.Prelude.{
  ℕ, Bool, false, if◌then◌else◌, some, List, replicate, set, get_or, leb,
}
use irrigation_controller.Result.{IrrigationResult, ok, not_found}
use irrigation_controller.Domain.{local_output_count}
use irrigation_controller.Device.{OutputDriver}

-- `reported_outputs`
abbrev pub VirtualOutputs : Type 0
VirtualOutputs = List Bool

unfoldable pub virtual_initialize_safe_off : VirtualOutputs → VirtualOutputs × IrrigationResult
virtual_initialize_safe_off outputs = (replicate local_output_count false, ok)

unfoldable pub virtual_set_output : VirtualOutputs → ℕ → Bool → VirtualOutputs × IrrigationResult
virtual_set_output outputs output_index enabled =
    if leb local_output_count output_index
    then (outputs, not_found)
    else (set outputs output_index enabled, ok)

-- `*enabled` is not written where the result is not OK.
unfoldable pub virtual_get_output : VirtualOutputs → ℕ → IrrigationResult × Bool
virtual_get_output outputs output_index =
    if leb local_output_count output_index
    then (not_found, false)
    else (ok, get_or outputs output_index false)

-- `VIRTUAL_OUTPUT_DRIVER_VTABLE`
unfoldable pub virtual_output_driver : OutputDriver VirtualOutputs
unfolding virtual_initialize_safe_off virtual_set_output virtual_get_output
virtual_output_driver = record {
  initialize_safe_off = some virtual_initialize_safe_off;
  set_output = some virtual_set_output;
  get_output = some virtual_get_output;
}

-- The outputs and the driver of a virtual driver that is not NULL.
abbrev virtual_output_driver_init : VirtualOutputs × OutputDriver VirtualOutputs
virtual_output_driver_init = (replicate local_output_count false, virtual_output_driver)
