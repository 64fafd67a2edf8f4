-- ===== src/Lib.antt =====
-- A verification library for the realtime speech recognition service of this repository: the
-- streaming core of src/main.py, the framing of src/protocols/local_stt_v1.py, and the send queue of
-- the client in pipecat-local-stt.
--
-- The program. A client opens a connection, starts a stream, sends chunks of PCM audio and reads
-- transcripts. `StreamSession` (src/main.py) is the state of one stream: the audio so far with its
-- limit, the last partial result and the counters that decide when to decode again. The handler of
-- /ws/stream (`websocket_stream`) runs one stream after the other on a websocket. The Local STT
-- protocol (/v1/stt/stream) decodes in a worker beside the handler, which share a `StreamRuntime`; its
-- second transport is a Unix socket, whose bytes are cut into frames by `RawUdsFrameDecoder`
-- (src/protocols/local_stt_v1.py). Its two handlers (`websocket_stream_v1`, `_raw_uds_stream_client`)
-- run one stream after the other, each with a worker and a sender of its own.
--
-- The files.
--   Prelude and its children: shared names, Boolean tests, lists over the native numbers, code that may
--   raise (`Result`, with the rules `Ensures` and `Fails` for `do` blocks), integers, and Python's
--   `round` with its bounds.
--   Text, Text/Words: strings as code points, `strip`, `split`, `join`, case folding.
--   Json: documents as `json.loads` gives them, floats by their exact value.
--   Wire: frame types, `encode_raw_uds_frame`, `decode_raw_uds_frame`. Wire/Decoder is the incremental
--   decoder; its children are about one frame at the front of the buffer (Front), the loop (Loop),
--   chunks (Stream) and the buffer's size (Bounds). Wire/RoundTrip is about the one-shot codec, Wire/Receive is `_receive_raw_uds_event`
--   of src/main.py up to the frame.
--   Session: `StreamSession` and its methods. Session/Create is `_create_stream_session` with its
--   validation, Session/CreateLocal is `_create_local_stt_stream_session` with the intervals of
--   `_parse_local_stt_start_message`, Session/Bounds is about sizes, Session/Stability about the stability counter.
--   Stream: the /ws/stream handler. `receive_stream_event` is `_receive_stream_event`, `handle_start`,
--   `handle_audio`, `handle_stop` and `handle_cancel` are the branches of the loop, `on_error` is the
--   `except` clauses, `websocket_step` one round of the loop, `serve` a connection's life. Grammar is
--   about the order of the events, Final about the transcript of a final event, Errors about close
--   codes, Infinite about one start event.
--   Runtime: one stream of the Local STT protocol, `StreamRuntime` with its decode worker
--   `_local_stt_asr_worker`. `woken` is a round of the worker's loop up to the next `await`, `after_partial`
--   and `after_final` are what follows a decode. Runtime/Schedule has the turns of the tasks: what the
--   handler does with a message, the worker's wakeups, decodes that come back, and the sender. Reader is a
--   client that reads one stream's events, Order is about what it reads, revisions and the final event, by
--   the invariant of Reading, which Rounds keeps;
--   Silence about canceling, Progress about wakeups and the worker's end, Pushes about the bytes that a
--   stateful decoder gets, Timing about the times in the messages.
--   Connection: the handlers `websocket_stream_v1` and `_raw_uds_stream_client` with their senders
--   `_send_queued_events` and `_send_queued_raw_uds_events`. In Connection/Steps `dispatch` is the branches on an event,
--   `received` the wait for an event or the worker, `proceed` the waits within a branch, `stop_runtime` and
--   `stopped` the two ends of `stop_runtime`, `step` a turn of a task, `serve` a connection under a
--   schedule. They are the handler of the WebSocket; with the `Transport` of the socket they have the last words
--   of its twin. Connection/RawUds is that twin as the source writes it, a function for each of its branches and waits.
--   Protocol is the automaton that a client may rely on; Refinement states that it accepts what is
--   sent, by the invariant of Tracking, which Events, Waits and Tasks keep; Readers is about readers alone.
--   Transports compares the two transports, Twins the two handlers, Closing is about the ends of a connection.
--   Config: src/config.py. The readers of variables are in Config, the names of transports in
--   Config/Transport, `AppConfig.from_env` in Config/Load. Readers is about what each reader returns and
--   blames, Validity about accepted configurations, Blame about refused ones.
--   Messages: the messages in frames of src/protocols/local_stt_v1.py. `encode_client_message` is
--   `encode_raw_uds_client_message`, `parse_client_frame` is `parse_raw_uds_client_frame`, and so on for the
--   server's side, both in Messages/Frames; `normalize_control` and `apply_envelope_type` are the `_raw_uds` helpers of those
--   names. Compact is about the dictionaries that are sent, RoundTrip and Server about the client's and the
--   server's frames, Wrapping about errors, Objects about dictionaries alone.
--   Validators has the field validators; `integer_field` and `seconds_field` are those of `StartMessage` in pydantic's order.
--   SendQueue: the client's side, `LocalStreamingSTTService` of
--   pipecat-local-stt/src/pipecat_local_stt/service.py as far as audio waits there: `_queue_audio_for_send`,
--   `_flush_aggregate_buffer`, `_enqueue_chunk` with its drop policies, `_clear_send_queue`, `_append_pre_roll`.
--   Bounds is about how much is queued and dropped, Audio about which audio is kept and in what order.
--
-- The model. The backend is a parameter, and may answer differently at every step; so are Unicode's
-- case tables and `base64.b64decode`. `json.loads` is not modelled: a text message comes with the
-- document that it makes of it. Exceptions are values of `StreamError`, with the message as a
-- `Reason`. An asynchronous handler is a function from one message to the events it sends, because
-- /ws/stream awaits nothing else between them. The tasks of a stream of the Local STT protocol take
-- turns in any order, which includes every order that the event loop can take; also those in which
-- audio comes after a finalize request, though the handlers read no message then. Floats are exact
-- rationals, infinities or NaN: where the source multiplies two doubles, the model rounds the exact
-- product once, and `math.ceil` of a quotient takes the double nearest to it. A session's sample rate is taken to be one that
-- a double is near (below about 2 ** 1024), where `_audio_bytes_to_duration_ms` does not raise. The loop of the decoder runs on fuel, one round more than there are bytes, and
-- every frame takes five bytes.
-- pydantic's models are a type with the calls that the code makes of them; `Laws` of Messages/Compact
-- states what the code relies on. The texts of errors are left out of Messages.
-- `int(text)` and `str(Path(text))` are parameters of the configuration.
-- A connection's own sends and the closing of a decoder are taken not to raise; its sender's may.
--
-- Not modelled: `services.preload_error` where the handlers of the Local STT protocol set it (/ws/stream's is in Stream),
-- the speech models and their adapters (src/model_loader.py), audio conversion, the
-- rest of the clients, the times that decodes take and the metadata that tells them, pydantic's
-- validation of whole messages, and the tools under scripts and examples.
pub mod Config
pub mod Connection
pub mod Json
pub mod Messages
pub mod Prelude
pub mod Runtime
pub mod SendQueue
pub mod Session
pub mod Stream
pub mod Text
pub mod Wire
