-- ===== src/StateStore/Program.antt =====
-- firmware/app/state/state_store.c: the operations on the program's state.
use irrigation_controller.Prelude.{ℕ, Bool, true, false, not, if◌then◌else◌}
use irrigation_controller.Result.{IrrigationResult, ok, invalid_state}
use irrigation_controller.StateStore.{StateStore, ProgramState}

abbrev pub is_startable : ProgramState → Bool
is_startable ProgramState.idle = true
is_startable ProgramState.completed = true
is_startable ProgramState.aborted = true
is_startable _ = false

abbrev pub is_waiting_or_running : ProgramState → Bool
is_waiting_or_running ProgramState.waiting_master = true
is_waiting_or_running ProgramState.running_zone = true
is_waiting_or_running _ = false

abbrev pub is_running_zone : ProgramState → Bool
is_running_zone ProgramState.running_zone = true
is_running_zone _ = false

abbrev pub is_terminal : ProgramState → Bool
is_terminal ProgramState.completed = true
is_terminal ProgramState.aborted = true
is_terminal ProgramState.fault = true
is_terminal _ = false

unfoldable pub state_store_start_program : StateStore → StateStore × IrrigationResult
state_store_start_program store =
    if not (is_startable store.program.state) then (store, invalid_state) else (
      record store {
        program = record {
          state = ProgramState.waiting_master;
          current_step_index = 0;
          step_started_at_ms = 0;
        };
      },
      ok,
    )

unfoldable pub state_store_set_program_running_zone :
    StateStore → ℕ → ℕ → StateStore × IrrigationResult
state_store_set_program_running_zone store step_index started_at_ms =
    if not (is_waiting_or_running store.program.state) then (store, invalid_state) else (
      record store {
        program = record {
          state = ProgramState.running_zone;
          current_step_index = step_index;
          step_started_at_ms = started_at_ms;
        };
      },
      ok,
    )

unfoldable pub state_store_set_program_waiting_post_delay :
    StateStore → ℕ → StateStore × IrrigationResult
state_store_set_program_waiting_post_delay store started_at_ms =
    let program = store.program in
    if not (is_running_zone program.state) then (store, invalid_state) else (
      record store {
        program = record program {
          state = ProgramState.waiting_post_program_delay;
          step_started_at_ms = started_at_ms;
        };
      },
      ok,
    )

unfoldable pub state_store_set_program_terminal :
    StateStore → ProgramState → StateStore × IrrigationResult
state_store_set_program_terminal store state =
    let program = store.program in
    if not (is_terminal state)
    then (store, invalid_state)
    else (record store { program = record program { state = state } }, ok)
