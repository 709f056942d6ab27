-- ===== src/Client/Sse/Streams.antt =====
-- pkg/client readSSE on a stream that pkg/server's HTTPServer writes.
use mathlib.Core.List.{append-nil, append_assoc}
use mcp_module.Common.{
  ℕ, ◌+◌, ◌<◌, ◌≤◌, String, List, [], ◌∷◌, ◌++◌, length, codes, strip_prefix, strip_prefix-append,
  ◌≡◌, refl, sym, ap, ◌∙◌, arith,
}
use mcp_module.Server.Http.Message.{frame}
use mcp_module.Server.Http.Sse.{heartbeat, prologue, message_endpoint}
use mcp_module.Server.Http.Delivery.{Piece, message, ping, texts_of}
use mcp_module.Client.Sse.{
  max_token, scan_lines, event_line, data_line, ignored, data_field, event_field, field_of,
  SseEvent, join_lines, read_events, events_of,
}
use mcp_module.Client.Sse.Frames.{IsLine, scan_line, scan_too_long, All-append}

field_of-event : (t : List ℕ) → field_of (codes "event: " ++ t) ≡ event_line t
unfolding field_of event_field
field_of-event t = ap (event_field _) (strip_prefix-append (codes "event: ") t)

field_of-data : (d : List ℕ) → field_of (codes "data: " ++ d) ≡ data_line d
unfolding field_of event_field strip_prefix
field_of-data d = ap data_field (strip_prefix-append (codes "data: ") d)

field_of-heartbeat : field_of (codes ":heartbeat") ≡ ignored
unfolding field_of event_field strip_prefix data_field
field_of-heartbeat = refl

-- One line that can be sent as the data of an event, or as its type.
abbrev pub IsShort : List ℕ → Type 0
IsShort line = IsLine line × (length line + 7 < max_token)

abbrev event_text : List ℕ → List ℕ
event_text t = codes "event: " ++ t

abbrev data_text : List ℕ → List ℕ
data_text d = codes "data: " ++ d

event_text-IsLine : (t : List ℕ) → IsLine t → IsLine (event_text t)
event_text-IsLine t h = All-append _ (codes "event: ") t (omega arith) h

data_text-IsLine : (d : List ℕ) → IsLine d → IsLine (data_text d)
data_text-IsLine d h = All-append _ (codes "data: ") d (omega arith) h

module _ (t d rest : List ℕ) where
  frame_lines : frame t d ++ rest ≡ event_text t ++ b'\n' ∷ (data_text d ++ b'\n' ∷ b'\n' ∷ rest)
  frame_lines = simp append_assoc

  scan_frame :
      IsShort t
      → IsShort d
      → scan_lines [] (frame t d ++ rest) ≡ event_text t ∷ data_text d ∷ [] ∷ scan_lines [] rest
  scan_frame (ht, lt) (hd, ld) =
      ap (scan_lines []) frame_lines
      ∙ scan_line (event_text t) [] _ (event_text-IsLine t ht) tt (omega arith)
      ∙ ap (λ ls. event_text t ∷ ls)
          (scan_line (data_text d) [] _ (data_text-IsLine d hd) tt (omega arith)
            ∙ ap (λ ls. data_text d ∷ ls) (scan_line [] [] rest tt tt (omega arith)))

  read_frame :
      (lines : List (List ℕ)) (t0 : List ℕ)
      → read_events (event_text t ∷ data_text d ∷ [] ∷ lines) t0 []
        ≡ record { event_type = t; payload = d } ∷ read_events lines [] []
  unfolding read_events join_lines
  read_frame lines t0 = rw (field_of-event t, read_events) (rw (field_of-data d, read_events) refl)

  -- An event that is written as one frame is read as that event.
  pub frame_read :
      IsShort t
      → IsShort d
      → (t0 : List ℕ)
      → read_events (scan_lines [] (frame t d ++ rest)) t0 []
        ≡ record { event_type = t; payload = d } ∷ read_events (scan_lines [] rest) [] []
  frame_read ht hd t0 =
      ap (λ ls. read_events ls t0 []) (scan_frame ht hd) ∙ read_frame (scan_lines [] rest) t0

heartbeat_lines : (rest : List ℕ) → heartbeat ++ rest ≡ codes ":heartbeat" ++ b'\n' ∷ b'\n' ∷ rest
heartbeat_lines rest = simp append_assoc

scan_heartbeat :
    (rest : List ℕ)
    → scan_lines [] (heartbeat ++ rest) ≡ codes ":heartbeat" ∷ [] ∷ scan_lines [] rest
scan_heartbeat rest =
    ap (scan_lines []) (heartbeat_lines rest)
    ∙ scan_line (codes ":heartbeat") [] _ (omega arith) tt (omega arith)
    ∙ ap (λ ls. codes ":heartbeat" ∷ ls) (scan_line [] [] rest tt tt (omega arith))

read_heartbeat :
    (lines : List (List ℕ)) (t : List ℕ)
    → read_events (codes ":heartbeat" ∷ [] ∷ lines) t [] ≡ read_events lines t []
unfolding read_events
read_heartbeat lines t = rw (field_of-heartbeat, read_events) refl

long_frame :
    (line rest : List ℕ)
    → IsLine line
    → max_token ≤ length line + 6
    → read_events (scan_lines [] (frame (codes "message") line ++ rest)) [] [] ≡ []
unfolding read_events
long_frame line rest one long =
    ap (λ text. read_events (scan_lines [] text) [] []) (frame_lines (codes "message") line rest)
    ∙ ap (λ ls. read_events ls [] [])
        (scan_line (event_text (codes "message")) [] _ (omega arith) tt (omega arith)
          ∙ ap (λ ls. event_text (codes "message") ∷ ls)
              (scan_too_long (data_text line) [] _ (data_text-IsLine line one) (omega arith)))
    ∙ rw (field_of-event (codes "message"), read_events) refl

-- The events that the pieces of a stream stand for.
abbrev pub events_in : List Piece → List SseEvent
events_in [] = []
events_in (message line ∷ ps) =
    record { event_type = codes "message"; payload = line } ∷ events_in ps
events_in (ping ∷ ps) = events_in ps

abbrev pub AreShort : List Piece → Type 0
AreShort [] = Unit
AreShort (message line ∷ ps) = IsShort line × AreShort ps
AreShort (ping ∷ ps) = AreShort ps

scan_nothing : (t : List ℕ) → read_events (scan_lines [] []) t [] ≡ []
unfolding scan_lines read_events
scan_nothing t = refl

pub pieces_read :
    (ps : List Piece) (rest : List ℕ)
    → AreShort ps
    → read_events (scan_lines [] (texts_of ps ++ rest)) [] []
      ≡ events_in ps ++ read_events (scan_lines [] rest) [] []
pieces_read [] rest _ = refl
pieces_read (message line ∷ ps) rest (h, hs) =
    ap (λ text. read_events (scan_lines [] text) [] [])
      (append_assoc (frame (codes "message") line) (texts_of ps) rest)
    ∙ frame_read (codes "message") line (texts_of ps ++ rest) (omega arith, omega arith) h []
    ∙ ap (λ es. record { event_type = codes "message"; payload = line } ∷ es)
        (pieces_read ps rest hs)
pieces_read (ping ∷ ps) rest hs =
    ap (λ text. read_events (scan_lines [] text) [] []) (append_assoc heartbeat (texts_of ps) rest)
    ∙ ap (λ ls. read_events ls [] []) (scan_heartbeat (texts_of ps ++ rest))
    ∙ read_heartbeat (scan_lines [] (texts_of ps ++ rest)) []
    ∙ pieces_read ps rest hs

abbrev pub client_id_text : String → List ℕ
client_id_text id = codes "{\"clientId\":\"" ++ (codes id ++ codes "\"}")

-- The two events of the prologue, before what follows it.
abbrev pub greeted : String → List ℕ → List SseEvent → List SseEvent
greeted id host es =
    record { event_type = codes "connected"; payload = client_id_text id }
    ∷ record { event_type = codes "endpoint"; payload = message_endpoint host }
    ∷ es

pub events_of-prologue :
    (id : String) (host : List ℕ) (rest : List ℕ)
    → IsShort (client_id_text id)
    → IsShort (message_endpoint host)
    → events_of (prologue id host ++ rest)
      ≡ greeted id host (read_events (scan_lines [] rest) [] [])
unfolding events_of prologue
events_of-prologue id host rest hid hhost =
    ap (λ t. read_events (scan_lines [] t) [] [])
      (append_assoc (frame (codes "connected") (client_id_text id))
        (frame (codes "endpoint") (message_endpoint host)) rest)
    ∙ frame_read (codes "connected") (client_id_text id) _ (omega arith, omega arith) hid []
    ∙ ap (λ es. record { event_type = codes "connected"; payload = client_id_text id } ∷ es)
        (frame_read (codes "endpoint") (message_endpoint host) rest (omega arith, omega arith) hhost
          [])

-- A stream of pieces is read as the events that they stand for.
pub events_of-pieces :
    (id : String) (host : List ℕ) (ps : List Piece)
    → IsShort (client_id_text id)
    → IsShort (message_endpoint host)
    → AreShort ps
    → events_of (prologue id host ++ texts_of ps) ≡ greeted id host (events_in ps)
events_of-pieces id host ps hid hhost hs =
    ap (λ t. events_of (prologue id host ++ t)) (sym (append-nil (texts_of ps)))
    ∙ events_of-prologue id host (texts_of ps ++ []) hid hhost
    ∙ ap (greeted id host)
        (pieces_read ps [] hs ∙ ap (λ es. events_in ps ++ es) (scan_nothing []) ∙ append-nil _)

-- A response whose line, with its field name and without its end, has 64 KB or more, ends the
-- client's reading: the client reads the events before it, and nothing of it or of whatever comes after it;
-- where the lines before it are shorter and none of these texts holds a line break.
pub events_of-long :
    (id : String) (host : List ℕ) (ps : List Piece) (line rest : List ℕ)
    → IsShort (client_id_text id)
    → IsShort (message_endpoint host)
    → AreShort ps
    → IsLine line
    → max_token ≤ length line + 6
    → events_of (prologue id host ++ (texts_of ps ++ (frame (codes "message") line ++ rest)))
      ≡ greeted id host (events_in ps)
events_of-long id host ps line rest hid hhost hs one long =
    events_of-prologue id host _ hid hhost
    ∙ ap (greeted id host) (
        pieces_read ps (frame (codes "message") line ++ rest) hs
        ∙ ap (λ es. events_in ps ++ es) (long_frame line rest one long)
        ∙ append-nil _)
