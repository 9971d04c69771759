-- ===== src/App/Handlers.antt =====
-- The handlers of the console program (src/app/Handlers.cpp): what they print and what they answer.
pub mod Reads
use cannect.Base.{ℕ, Bool, true, false, List, [], ◌∷◌, ◌++◌, length}
use cannect.Protocol.State.{
  TcHandler, TmHandler, Effect, transmit, telecommand_call, telemetry_call, unsolicited_call,
  time_sync_call, set_block_call, get_block_call, zeros,
}
use cannect.SetBlock.State as SetBlock
use cannect.GetBlock.State as GetBlock
use cannect.App.Text.{Text, codes}
use cannect.App.Printing.{dec, print_hex_bytes}

abbrev pub newline : Text
newline = 10 ∷ []

unfoldable pub print_fixed_frame : Text → ℕ → ℕ → List ℕ → Text
print_fixed_frame label from channel bytes =
    label
    ++ (codes " from node "
        ++ (dec from
            ++ (codes " ch="
                ++ (dec channel
                    ++ (codes " data=[ " ++ (print_hex_bytes bytes ++ (codes " ]" ++ newline)))))))

unfoldable pub print_block_frame : Text → ℕ → ℕ → List ℕ → Text
print_block_frame label from channel bytes =
    label
    ++ (codes " from node "
        ++ (dec from
            ++ (codes " ch="
                ++ (dec channel
                    ++ (codes " size="
                        ++ (dec (length bytes)
                            ++ (codes " data=[ "
                                ++ (print_hex_bytes bytes ++ (codes " ]" ++ newline)))))))))

abbrev pub on_telecommand : TcHandler
on_telecommand from channel bytes = true

-- The response is left as it was given: zeros.
abbrev pub on_telemetry : TmHandler
on_telemetry from channel = (true, zeros)

abbrev pub on_set_block : SetBlock.Handler
on_set_block from channel request = true

-- The response is left as it was given: empty.
abbrev pub on_get_block : GetBlock.Handler
on_get_block from channel = (true, [])

unfoldable pub print_time_sync : ℕ → List ℕ → Text
print_time_sync from bytes =
    codes "TIMESYNC from node "
    ++ (dec from ++ (codes " time=[ " ++ (print_hex_bytes bytes ++ (codes " ]" ++ newline))))

-- What the handler that an effect calls prints.
unfoldable pub printed : Effect → Text
unfolding print_fixed_frame print_block_frame print_time_sync
printed (transmit frame) = []
printed (telecommand_call from channel request) =
    print_fixed_frame (codes "TELECOMMAND") from channel request
printed (telemetry_call from channel) = print_fixed_frame (codes "TELEMETRY") from channel zeros
printed (unsolicited_call from channel bytes) =
    print_fixed_frame (codes "UNSOLICITED") from channel bytes
printed (time_sync_call from bytes) = print_time_sync from bytes
printed (set_block_call from channel request) =
    print_block_frame (codes "SETBLOCK") from channel request
printed (get_block_call from channel) = print_block_frame (codes "GETBLOCK") from channel []
