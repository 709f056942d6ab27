-- ===== src/Tests/Transport.antt =====
-- Connections of the two clients: a call that is answered, one that waits, and Close in between.
use mcp_module.Common.{none, refl, arith, ◌≡◌, ◌≢◌}
use mcp_module.Common.Int.{pos}
use mcp_module.Json.{float64, whole}
use mcp_module.Protocol.{Response}
use mcp_module.Protocol.Ids.{normalize_id, is_hashable}
use mcp_module.Client.Config.{Transport, stdio, http}
use mcp_module.Client.Transport.{
  Connection, crashed, closed_channel, new_connection, register, take, on_response, deliver,
  end_reading, find_pending,
}
use mcp_module.Client.Transport.Calls.{on_channel, wake, got, gave_up, channel_closed}
use mcp_module.Client.Transport.{close, leave, failed, holding}
use mcp_module.Common.{some, ◌⊎◌}
use mcp_module.Client.Transport.Steps.{
  Step, registers, takes, receives, delivers, Reach, start, later,
}
use mcp_module.Client.Transport.Closing.{stdio_reader_sound, http_close_race}
use mcp_module.Client.Transport.Pending.{IsTidy, Reach-IsTidy}
use mcp_module.Client.Transport.Waking.{end_reading-wakes}
use mcp_module.Tests.Sample.{go}

-- A reply to the first call, as it comes from the wire.
abbrev pub first : Response
first = record { jsonrpc = "2.0"; id = float64 (whole (pos 1)); result = none; error = none }

abbrev pub called : Connection
called = register new_connection

abbrev pub held : Connection
held = on_response go first called

abbrev pub sent : Connection
sent = deliver 1 first held

calling : (t : Transport) → Reach go t called
calling t = later start registers

answering : (t : Transport) → Reach go t (take 1 first sent)
unfolding register on_response deliver new_connection is_hashable normalize_id
answering t =
    later (later (later (calling t) (receives first refl)) (delivers 1 first refl))
      (takes 1 first refl refl)

stdio_reader_sound_example : (take 1 first sent).reader ≢ crashed closed_channel
stdio_reader_sound_example = stdio_reader_sound go (answering stdio)

http_close_race_example :
    ((on_response go first called).reader ≡ holding 1 first)
    × Step go http (on_response go first called) (close http (on_response go first called))
    × Step go http
        (close http (on_response go first called))
        (deliver 1 first (close http (on_response go first called)))
    × ((deliver 1 first (close http (on_response go first called))).reader ≡ crashed closed_channel)
    × Reach go http (deliver 1 first (close http (on_response go first called)))
unfolding register new_connection is_hashable normalize_id find_pending
http_close_race_example = http_close_race go first 1 (calling http) refl refl refl refl refl

end_reading-wakes_example :
    ((r : Response) × ((called.channel 1).buffer ≡ some r)
      × (wake stdio 1 on_channel (end_reading stdio called)
          ≡ some (take 1 r (end_reading stdio called), got 1 r)))
    ⊎ (((called.channel 1).buffer ≡ none)
        × (wake stdio 1 on_channel (end_reading stdio called)
            ≡ some (leave 1 failed (end_reading stdio called), gave_up 1 channel_closed)))
unfolding register new_connection
end_reading-wakes_example = end_reading-wakes go 1 (calling stdio) (omega arith) refl refl

Reach-IsTidy_example : IsTidy (take 1 first sent)
Reach-IsTidy_example = Reach-IsTidy go stdio (answering stdio)
