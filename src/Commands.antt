-- ===== src/Commands.antt =====
-- firmware/app/commands: the command, the command bus and the zone command handler.
pub mod Dispatch
use irrigation_controller.Prelude.{
  ℕ, ◌||◌, if◌then◌else◌, Option, none, some, Text, is_none, Pointer, is_null,
}
use irrigation_controller.Result.{IrrigationResult, rejected, not_supported}
use irrigation_controller.Device.{Op, return}
use irrigation_controller.ZoneService.{zone_service_open}
use irrigation_controller.ZoneService.Closing.{zone_service_close}

pub data CommandType : Type 0 where
  system_ready : CommandType
  open_zone : CommandType
  close_zone : CommandType

pub record Command : Type 0 where
  pub id : Option Text
  pub timestamp_ms : ℕ  -- uint64_t
  pub origin : Option Text
  pub type : CommandType
  pub version : ℕ  -- uint16_t
  pub zone_id : Option Text
  pub duration_ms : ℕ  -- uint32_t

-- A handler, with the command's pointer and the context.
abbrev pub CommandHandler : Type 0 → Type 0 → Type 0 → Type 0
CommandHandler D V H = Option Command → Pointer → Op D V H IrrigationResult

-- `none` is a NULL handler.
pub record CommandBus (D V H : Type 0) : Type 0 where
  pub handler : Option (CommandHandler D V H)
  pub context : Pointer

module _ {D V H : Type 0} where
  -- `none` is a NULL bus.
  unfoldable pub command_bus_init :
      Option (CommandBus D V H)
      → Option (CommandHandler D V H)
      → Pointer
      → Option (CommandBus D V H)
  command_bus_init none handler context = none
  command_bus_init (some bus) handler context =
      some (record { handler = handler; context = context })

  unfoldable pub command_bus_dispatch :
      Option (CommandBus D V H) → Option Command → Op D V H IrrigationResult
  command_bus_dispatch none command d = (d, rejected)
  command_bus_dispatch (some bus) none d = (d, rejected)
  command_bus_dispatch (some bus) (some command) d = elim bus.handler [
    | none ↦ (d, rejected)
    | some handler ↦ handler (some command) bus.context d
  ]

  -- The switch on the command's type.
  unfoldable pub zone_command : CommandType → Option Text → ℕ → Op D V H IrrigationResult
  zone_command CommandType.open_zone zone_id duration_ms = zone_service_open zone_id duration_ms
  zone_command CommandType.close_zone zone_id duration_ms = zone_service_close zone_id
  zone_command CommandType.system_ready zone_id duration_ms = return not_supported

  unfoldable pub zone_command_handler_dispatch : CommandHandler D V H
  unfolding zone_command
  zone_command_handler_dispatch none service d = (d, rejected)
  zone_command_handler_dispatch (some command) service d =
      if is_null service || is_none command.zone_id
      then (d, rejected)
      else zone_command command.type command.zone_id command.duration_ms d
