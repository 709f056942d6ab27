-- ===== src/Client/Sse.antt =====
-- pkg/client/http_client.go: readSSE, from the bytes of a stream to the events that it hands over.
-- bufio.Scanner is Go's: it cuts the stream into lines.
pub mod Frames
pub mod Streams
pub mod Subscribers
pub mod Events
pub mod Returns
pub mod Exchanges
use mcp_module.Common.{
  ℕ, ◌+◌, ◌*◌, Bool, true, false, Option, none, some, List, [], ◌∷◌, ◌++◌, length, codes,
  strip_prefix, ltb, leb, nat_eq, if◌then◌else◌,
}

-- bufio.MaxScanTokenSize: a longer line, its end included, ends the scan.
abbrev pub max_token : ℕ
max_token = 64 * 1024

-- The line without a carriage return at its end.
unfoldable pub drop_cr : List ℕ → List ℕ
drop_cr [] = []
drop_cr (c ∷ []) = if nat_eq c b'\r' then [] else c ∷ []
drop_cr (c ∷ d ∷ line) = c ∷ drop_cr (d ∷ line)

-- The lines of a stream that has ended; `start` is the line so far, and a last line without its end
-- counts if it is not empty.
unfoldable pub scan_lines : List ℕ → List ℕ → List (List ℕ)
unfolding drop_cr
scan_lines start [] = elim start [
  | [] ↦ []
  | c ∷ cs ↦ if ltb (length (c ∷ cs)) max_token then drop_cr (c ∷ cs) ∷ [] else []
]
scan_lines start (c ∷ text) = elim (nat_eq c b'\n') [
  | true ↦
      let rest = scan_lines [] text in
      if ltb (length start) max_token then drop_cr start ∷ rest else []
  | false ↦ scan_lines (start ++ c ∷ []) text
]

-- strings.Join(dataLines, "\n").
unfoldable pub join_lines : List (List ℕ) → List ℕ
join_lines [] = []
join_lines (l ∷ []) = l
join_lines (l ∷ ls) = l ++ b'\n' ∷ join_lines ls

-- What a line that is not empty says.
pub data Field : Type 0 where
  event_line data_line : List ℕ → Field
  ignored : Field

unfoldable pub data_field : Option (List ℕ) → Field
data_field none = ignored
data_field (some d) = data_line d

unfoldable pub event_field : List ℕ → Option (List ℕ) → Field
unfolding data_field
event_field line none = data_field (strip_prefix (codes "data: ") line)
event_field line (some t) = event_line t

unfoldable pub field_of : List ℕ → Field
unfolding event_field
field_of line = event_field line (strip_prefix (codes "event: ") line)

-- An event: its type and its data.
pub record SseEvent : Type 0 where
  pub event_type : List ℕ
  pub payload : List ℕ

-- The loop of readSSE over the lines, with `eventType` and `dataLines`. An empty line ends an event
-- that has data; without data it changes nothing.
unfoldable pub read_events : List (List ℕ) → List ℕ → List (List ℕ) → List SseEvent
unfolding join_lines field_of
read_events [] t d = []
read_events ([] ∷ lines) t [] = read_events lines t []
read_events ([] ∷ lines) t (x ∷ d) =
    record { event_type = t; payload = join_lines (x ∷ d) } ∷ read_events lines [] []
read_events ((c ∷ line) ∷ lines) t d = elim (field_of (c ∷ line)) [
  | event_line t' ↦ read_events lines t' d
  | data_line x ↦ read_events lines t (d ++ x ∷ [])
  | ignored ↦ read_events lines t d
]

-- The events of a stream, as readSSE hands them to handleSSEEvent.
unfoldable pub events_of : List ℕ → List SseEvent
unfolding scan_lines read_events
events_of text = read_events (scan_lines [] text) [] []
