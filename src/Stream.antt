-- ===== src/Stream.antt =====
-- The /ws/stream handler of src/main.py: `websocket_stream` with `_receive_stream_event`,
-- `_decode_websocket_audio`, `_stream_event`, `_resolve_final_result`, `_run_transcription`. One step of the handler is one
-- round of its `while` loop: a message received, and what is sent for it.
pub mod Grammar
pub mod Final
pub mod Errors
pub mod Infinite
mod Tests
use rtc_asr.Prelude.{
  ℕ, zero, suc, ◌+◌, ◌-◌, ◌%◌, Bool, true, false, not, Option, none, some, List, [], ◌∷◌, ◌++◌,
  length, ◌==◌, if◌then◌else◌, Result, ok, err, ◌>>=◌, ◌>>◌, raise_if,
}
use rtc_asr.Prelude.Int.{pos}
use rtc_asr.Text.{Text, Unicode, codes, text_eq, is_empty, strip, fold_case}
use rtc_asr.Json.{
  Float, finite, Value, null, boolean, integer, float, string, array, object, nil, Fields, get,
  get_or, is_empty_object,
}
use rtc_asr.Session.{
  StreamSession, StreamError, Transcript, client_error, value_error, number_error, asr_unavailable,
  unexpected, start_before_audio, start_before_stop, start_before_cancel, no_audio, finish_active,
  unsupported_event, not_json, not_object, no_payload, audio_not_bytes, audio_missing,
  audio_not_base64, append_audio, record_partial, partial_audio_bytes, last_partial_if_reusable,
}
use rtc_asr.Session.Create.{StreamConfig, create_stream_session}

-- What the handler calls and the program does not define: Unicode's case tables, and
-- `base64.b64decode(s, validate=True)`, which is nothing where that raises.
pub record Library : Type 0 where
  pub unicode : Unicode
  pub b64decode : Text → Option (List ℕ)

pub record Services : Type 0 where
  pub config : StreamConfig
  pub backend_name : Text
  pub model_name : Text

-- The backend as it answers during one step.
pub record Backend : Type 0 where
  pub transcribe : List ℕ → Option Text → ℕ → Result StreamError Transcript
  pub is_loaded : Bool

-- What `websocket.receive()` returns; a text comes with what `json.loads` makes of it, nothing
-- where that raises.
pub data Incoming : Type 0 where
  disconnect : Incoming
  binary : List ℕ → Incoming
  text : Option Value → Incoming
  neither : Incoming

pub data EventType : Type 0 where
  start audio stop cancel unknown : EventType

pub data Payload : Type 0 where
  audio_bytes : List ℕ → Payload
  fields : Fields → Payload

pub record StreamEvent : Type 0 where
  pub is_final : Bool
  pub stream_id : ℕ
  pub chunks_received : ℕ
  pub buffered_bytes : ℕ
  pub remaining_buffer_bytes : ℕ
  pub transcript : Transcript

pub record ReadyPayload : Type 0 where
  pub stream_id : ℕ
  pub backend : Text
  pub model : Text
  pub language : Option Text
  pub sample_rate : ℕ
  pub partial_interval_chunks : ℕ
  pub max_buffer_bytes : ℕ
  pub partial_window_seconds : Option Float
  pub max_buffer_seconds : Option Float

pub record CanceledPayload : Type 0 where
  pub stream_id : ℕ
  pub chunks_received : ℕ
  pub buffered_bytes : ℕ
  pub remaining_buffer_bytes : ℕ

pub data Sent : Type 0 where
  ready : ReadyPayload → Sent
  transcript_event : StreamEvent → Sent
  canceled : CanceledPayload → Sent
  error_event : StreamError → ℕ → Sent

-- The handler's variables, and the service's `preload_error` as it leaves it.
pub record Connection : Type 0 where
  pub session : Option StreamSession
  pub next_stream_id : ℕ
  pub preload_error : Option StreamError

pub data Fate : Type 0 where
  running disconnected : Fate
  closed : ℕ → Fate

pub record Outcome : Type 0 where
  pub connection : Connection
  pub sent : List Sent
  pub fate : Fate

module _ (lib : Library) where
  -- `str(payload.get("type", "")).strip().lower()`. Of a value that is no string, `str` makes no
  -- event's name.
  abbrev event_name : Value → Text
  event_name (string t) = fold_case lib.unicode.lower (strip t)
  event_name _ = []

  unfoldable pub event_type_of : Value → EventType
  event_type_of v =
      let name = event_name v in
      if text_eq name (codes "start")
      then start
      else if text_eq name (codes "audio")
      then audio
      else if text_eq name (codes "stop")
      then stop
      else if text_eq name (codes "cancel")
      then cancel
      else unknown

  unfoldable pub receive_stream_event :
      Incoming → Option StreamSession → Result StreamError (Payload × EventType)
  receive_stream_event (binary b) none = err (client_error start_before_audio 1003)
  receive_stream_event (binary b) (some s) = ok (audio_bytes b, audio)
  receive_stream_event (text none) s = err (client_error not_json 1003)
  receive_stream_event (text (some (object d))) s =
      ok (fields d, event_type_of (get_or "type" (string []) d))
  receive_stream_event (text (some v)) s = err (client_error not_object 1003)
  receive_stream_event _ s = err (client_error no_payload 1003)

-- Python's truth of a value.
abbrev pub truthy : Value → Bool
truthy null = false
truthy (boolean b) = b
truthy (integer (pos zero)) = false
truthy (integer z) = true
truthy (float (finite (pos zero) d)) = false
truthy (float f) = true
truthy (string t) = not (is_empty t)
truthy (array nil) = false
truthy (array xs) = true
truthy (object d) = not (is_empty_object d)

abbrev pub is_null : Value → Bool
is_null null = true
is_null _ = false

module _ (lib : Library) where
  abbrev pub decode_text : Value → Result StreamError (List ℕ)
  decode_text (string []) = err (client_error audio_missing 1003)
  decode_text (string (c ∷ t)) = elim (lib.b64decode (c ∷ t)) [
    | none ↦ err (client_error audio_not_base64 1003)
    | some b ↦ ok b
  ]
  decode_text _ = err (client_error audio_missing 1003)

  unfoldable pub decode_websocket_audio : Payload → Result StreamError (List ℕ)
  decode_websocket_audio (audio_bytes b) = ok b
  decode_websocket_audio (fields d) = do
    raise_if (not (is_null (get "audio_bytes" d))) (client_error audio_not_bytes 1003)
    decode_text (if truthy (get "audio_data" d) then get "audio_data" d else get "audio" d)

unfoldable pub stream_event : Bool → StreamSession → Transcript → Sent
stream_event is_final s t = transcript_event (record {
  is_final = is_final;
  stream_id = s.stream_id;
  chunks_received = s.chunks_received;
  buffered_bytes = length s.audio_buffer;
  remaining_buffer_bytes = s.max_buffer_bytes - length s.audio_buffer;
  transcript = t;
})

unfoldable pub ready_event : Services → StreamSession → Sent
ready_event services s = ready (record {
  stream_id = s.stream_id;
  backend = services.backend_name;
  model = services.model_name;
  language = s.language;
  sample_rate = s.sample_rate;
  partial_interval_chunks = s.partial_interval_chunks;
  max_buffer_bytes = s.max_buffer_bytes;
  partial_window_seconds = s.partial_window_seconds;
  max_buffer_seconds = s.max_buffer_seconds;
})

unfoldable pub canceled_event : StreamSession → Sent
canceled_event s = canceled (record {
  stream_id = s.stream_id;
  chunks_received = s.chunks_received;
  buffered_bytes = length s.audio_buffer;
  remaining_buffer_bytes = s.max_buffer_bytes - length s.audio_buffer;
})

-- `str(partial.get("text", "")).strip()` is not empty.
abbrev pub has_text : Transcript → Bool
has_text t = elim t.text [ none ↦ false | some x ↦ not (is_empty (strip x)) ]

-- A partial result stands for the final one where it covers the whole buffer.
unfoldable pub resolve_final_result : Backend → StreamSession → Result StreamError Transcript
resolve_final_result backend s = elim (last_partial_if_reusable s) [
  | some t ↦ ok t
  | none ↦ backend.transcribe s.audio_buffer s.language s.sample_rate
]

abbrev pub Handled : Type 0
Handled = Result StreamError (Connection × List Sent)

abbrev pub start_session : Services → Connection → Fields → Option StreamSession → Handled
start_session services c d (some s) = err (value_error finish_active)
start_session services c d none = do
  s ← create_stream_session d services.config c.next_stream_id
  ok (
    record c { session = some s; next_stream_id = c.next_stream_id + 1 },
    ready_event services s ∷ [],
  )

-- A start event is always a text: `receive_stream_event` gives binary frames as audio.
unfoldable pub handle_start : Services → Connection → Payload → Handled
handle_start services c (audio_bytes b) = err (client_error unsupported_event 1003)
handle_start services c (fields d) = start_session services c d c.session

abbrev pub send_partial : StreamSession → Transcript → List Sent
send_partial s t = if has_text t then stream_event false s t ∷ [] else []

-- After a chunk has been taken: a partial result when the count of chunks says so.
unfoldable pub emit_partial : Backend → Connection → StreamSession → Handled
emit_partial backend c s = do
  t ← backend.transcribe (partial_audio_bytes s) s.language s.sample_rate
  let s' = record_partial s t none none
  ok (record c { session = some s'; preload_error = none }, send_partial s' t)

unfoldable pub after_chunk : Backend → Connection → StreamSession → Handled
after_chunk backend c s =
    if s.chunks_received % s.partial_interval_chunks == 0
    then emit_partial backend c s
    else ok (record c { session = some s }, [])

abbrev pub take_audio : Library → Backend → Connection → Payload → Option StreamSession → Handled
take_audio lib backend c payload none = err (client_error start_before_audio 1003)
take_audio lib backend c payload (some s) = do
  chunk ← decode_websocket_audio lib payload
  s' ← append_audio s chunk
  after_chunk backend c s'

unfoldable pub handle_audio : Library → Backend → Connection → Payload → Handled
handle_audio lib backend c payload = take_audio lib backend c payload c.session

-- `preload_error` is reset by a transcription that succeeds, and not where a result is reused.
abbrev pub error_after : Option StreamError → Option Transcript → Option StreamError
error_after e (some reused) = e
error_after e none = none

abbrev pub finished : Connection → StreamSession → Connection
finished c s = record c {
  session = none;
  preload_error = error_after c.preload_error (last_partial_if_reusable s);
}

abbrev pub stop_session : Backend → Connection → Option StreamSession → Handled
stop_session backend c none = err (client_error start_before_stop 1003)
stop_session backend c (some s) = do
  raise_if (length s.audio_buffer == 0) (client_error no_audio 1003)
  t ← resolve_final_result backend s
  ok (finished c s, stream_event true s t ∷ [])

unfoldable pub handle_stop : Backend → Connection → Handled
handle_stop backend c = stop_session backend c c.session

abbrev pub cancel_session : Connection → Option StreamSession → Handled
cancel_session c none = err (client_error start_before_cancel 1003)
cancel_session c (some s) = ok (record c { session = none }, canceled_event s ∷ [])

unfoldable pub handle_cancel : Connection → Handled
handle_cancel c = cancel_session c c.session

unfoldable pub dispatch : Library → Services → Backend → Connection → Payload × EventType → Handled
dispatch lib services backend c (payload, start) = handle_start services c payload
dispatch lib services backend c (payload, audio) = handle_audio lib backend c payload
dispatch lib services backend c (payload, stop) = handle_stop backend c
dispatch lib services backend c (payload, cancel) = handle_cancel c
dispatch lib services backend c (payload, unknown) = err (client_error unsupported_event 1003)

-- `_record_lazy_load_failure`: only a backend that never loaded degrades the service.
abbrev pub lazy_load_failure : Backend → Connection → StreamError → Connection
lazy_load_failure backend c e = if backend.is_loaded then c else record c { preload_error = some e }

abbrev close_with : Connection → StreamError → ℕ → Outcome
close_with c e code = record { connection = c; sent = error_event e code ∷ []; fate = closed code }

-- The `except` clauses.
unfoldable pub on_error : Backend → Connection → StreamError → Outcome
on_error backend c asr_unavailable =
    close_with (record c { preload_error = some asr_unavailable }) asr_unavailable 1011
on_error backend c (client_error r code) = close_with c (client_error r code) code
on_error backend c (value_error r) = close_with c (value_error r) 1003
on_error backend c number_error = close_with c number_error 1003
on_error backend c unexpected = close_with (lazy_load_failure backend c unexpected) unexpected 1011

abbrev pub conclude : Backend → Connection → Handled → Outcome
conclude backend c (ok (c', events)) = record { connection = c'; sent = events; fate = running }
conclude backend c (err e) = on_error backend c e

unfoldable pub websocket_step : Library → Services → Backend → Connection → Incoming → Outcome
websocket_step lib services backend c disconnect = record {
  connection = c;
  sent = [];
  fate = disconnected;
}
websocket_step lib services backend c message =
    conclude backend c
      (do event ← receive_stream_event lib message c.session; dispatch lib services backend c event)

-- The connection before its first message.
abbrev pub accepted : Connection
accepted = record { session = none; next_stream_id = 1; preload_error = none }

abbrev pub and_then : Outcome → Outcome → Outcome
and_then a b = record { connection = b.connection; sent = a.sent ++ b.sent; fate = b.fate }

-- A connection's life: a step for each message, until one ends it.
unfoldable pub serve : Library → Services → Connection → List (Backend × Incoming) → Outcome
serve lib services c [] = record { connection = c; sent = []; fate = running }
serve lib services c ((backend, message) ∷ rest) =
    let outcome = websocket_step lib services backend c message in
    let later = serve lib services outcome.connection rest in
    elim outcome.fate [ running ↦ and_then outcome later | _ ↦ outcome ]
