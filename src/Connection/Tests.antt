-- ===== src/Connection/Tests.antt =====
-- Runs of a connection under one schedule, and its theorems there.
use rtc_asr.Prelude.{
  ◌≡◌, refl, true, false, none, some, Option, List, [], ◌∷◌, ◌++◌, inl, All, ok, err,
}
use rtc_asr.Text.{Text, Unicode, codes, strip, lstrip, is_space}
use rtc_asr.Json.{end}
use rtc_asr.Session.{
  StreamSession, stateful, Transcript, append_audio, should_emit_partial,
  audio_bytes_to_duration_ms, record_partial, next_transcript_revision,
}
use rtc_asr.Session.Create.{StreamConfig}
use rtc_asr.Session.CreateLocal.{LocalSttStartConfig, create_local_stt_stream_session}
use rtc_asr.Runtime.{
  StreamRuntime, after_final, begin_final, after_partial, begin_partial, woken, transcript_event,
}
use rtc_asr.Runtime.Progress.{has_ended}
use rtc_asr.Runtime.Schedule.{cancel, decode_done, started}
use rtc_asr.Connection.{
  Connection, start, audio, finalize, cancel_stream, ping, close_connection, opened, sent,
  websocket, raw_uds, ended, receiving, disconnected, closed_messages,
}
use rtc_asr.Connection.Steps.{
  Step, handles, wakes, sends, send_fails, decodes, serve, step, dispatch, received,
}
use rtc_asr.Connection.Protocol.{View, following, gone, newcomer, accept_all}
use rtc_asr.Connection.Refinement.{serve-Shown, Shows, Delivers}
use rtc_asr.Connection.Transports.{payloads}
use rtc_asr.Connection.RawUds.{serve_client}
use rtc_asr.Connection.Twins.{same_messages}
use rtc_asr.Connection.Closing.{close_ends, stranded_stays, wound_down, IsStranded}

abbrev ascii : Unicode
ascii = record { lower = λ c. c ∷ []; casefold = λ c. c ∷ [] }

abbrev config : StreamConfig
config = record { stream_max_buffer_bytes = 100; sample_rate = 16000 }

abbrev payload : LocalSttStartConfig
payload = record {
  sample_rate = 16000;
  language = none;
  interim_results = true;
  partial_interval_chunks = 1;
  partial_interval_audio_ms = none;
  partial_window_seconds = none;
  max_buffer_seconds = none;
  finalize_on_stable_partial = false;
  stable_partial_cycles = 3;
  client_stream_id = none;
  client_metadata = end;
}

abbrev heard : Text → Transcript
heard t = record { text = some t; backend = none; model = none; language = none }

abbrev begins : Step
begins = handles (some (ok (start payload (ok true))))

-- A stream that is finalized, and a second one that is canceled.
abbrev talk : List Step
talk =
    begins
    ∷ handles (some (ok (audio (1 ∷ 2 ∷ []))))
    ∷ handles (some (ok finalize))
    ∷ wakes
    ∷ decodes (ok (some (heard (codes "one"))))
    ∷ sends
    ∷ handles none
    ∷ handles none
    ∷ begins
    ∷ handles (some (ok cancel_stream))
    ∷ sends
    ∷ handles none
    ∷ wakes
    ∷ handles none
    ∷ handles (some (ok close_connection))
    ∷ []

talk_run :
    accept_all (some (following newcomer)) (sent (serve ascii websocket config opened talk))
    ≡ some gone
unfolding serve step dispatch received woken begin_partial begin_final after_partial after_final
    decode_done cancel append_audio should_emit_partial record_partial next_transcript_revision
    audio_bytes_to_duration_ms create_local_stt_stream_session is_space strip lstrip
    transcript_event
talk_run = refl

talk-Delivers : All Delivers talk
talk-Delivers =
    (tt, (tt, (tt, (tt, (tt, (tt, (tt, (tt, (tt, (tt, (tt, (tt, (tt, (tt, (tt, tt)))))))))))))))

serve-Shown_example :
    (v : View) × (accept_all
        (some (following newcomer))
        (sent (serve ascii websocket config opened talk))
      ≡ some v)
    × Shows
        (serve ascii websocket config opened talk).handler
        (serve ascii websocket config opened talk).runtime
        (serve ascii websocket config opened talk).next_stream_id
        v
serve-Shown_example = serve-Shown ascii websocket config talk talk-Delivers

same_messages_example :
    sent (serve_client ascii config opened talk)
    ≡ payloads (sent (serve ascii websocket config opened talk))
same_messages_example = same_messages ascii config talk

-- A stream with a decode under way.
abbrev working : List Step
working = begins ∷ handles (some (ok (audio (1 ∷ 2 ∷ [])))) ∷ wakes ∷ []

abbrev session : StreamSession
session = record {
  stream_id = 1;
  language = none;
  sample_rate = 16000;
  max_buffer_bytes = 100;
  partial_interval_chunks = 1;
  partial_interval_audio_ms = none;
  partial_window_seconds = none;
  max_buffer_seconds = none;
  partial_window_bytes = none;
  interim_results = true;
  finalize_on_stable_partial = false;
  stable_partial_cycles = 3;
  client_stream_id = none;
  client_metadata = end;
  decoder_mode = stateful;
  audio_buffer = [];
  chunks_received = 0;
  last_partial_chunks_received = 0;
  last_partial_audio_received_ms = 0;
  last_partial_result = none;
  stable_partial_text = none;
  stable_partial_count = 0;
  transcript_revision = 0;
}

abbrev stream_of : Option StreamRuntime → StreamRuntime
stream_of none = started session true
stream_of (some r) = r

abbrev at_work : Connection
at_work = serve ascii websocket config opened working

at_work_receiving : at_work.handler ≡ receiving
unfolding serve step dispatch received woken begin_partial begin_final after_partial after_final
    decode_done cancel append_audio should_emit_partial record_partial next_transcript_revision
    audio_bytes_to_duration_ms create_local_stt_stream_session is_space strip lstrip
    transcript_event
at_work_receiving = refl

at_work_stream : at_work.runtime ≡ some (stream_of at_work.runtime)
unfolding serve step dispatch received woken begin_partial begin_final after_partial after_final
    decode_done cancel append_audio should_emit_partial record_partial next_transcript_revision
    audio_bytes_to_duration_ms create_local_stt_stream_session is_space strip lstrip
    transcript_event
at_work_stream = refl

at_work_working : has_ended (stream_of at_work.runtime).worker ≡ false
unfolding serve step dispatch received woken begin_partial begin_final after_partial after_final
    decode_done cancel append_audio should_emit_partial record_partial next_transcript_revision
    audio_bytes_to_duration_ms create_local_stt_stream_session is_space strip lstrip
    transcript_event
at_work_working = refl

close_ends_example :
    ((serve ascii websocket config at_work (
        handles (some (ok close_connection))
        ∷ wound_down (ok (some (heard (codes "one")))))).handler
      ≡ ended)
    × ((serve ascii websocket config at_work (
          handles (some (ok close_connection)) ∷ wound_down (ok (some (heard (codes "one")))))).past
        ≡ sent at_work ++ closed_messages websocket)
close_ends_example =
    close_ends ascii websocket config at_work (stream_of at_work.runtime)
      (ok (some (heard (codes "one")))) at_work_receiving at_work_stream at_work_working

-- The pong is lost, and the final transcript is still to be sent.
abbrev losing : List Step
losing =
    begins
    ∷ handles (some (ok (audio (1 ∷ 2 ∷ []))))
    ∷ handles (some (ok ping))
    ∷ handles (some (ok finalize))
    ∷ wakes
    ∷ decodes (ok (some (heard (codes "one"))))
    ∷ send_fails disconnected
    ∷ handles none
    ∷ []

abbrev stranded : Connection
stranded = serve ascii raw_uds config opened losing

stranded-IsStranded : IsStranded stranded (stream_of stranded.runtime) disconnected
unfolding serve step dispatch received woken begin_partial begin_final after_partial after_final
    decode_done cancel append_audio should_emit_partial record_partial next_transcript_revision
    audio_bytes_to_duration_ms create_local_stt_stream_session is_space strip lstrip
    transcript_event
stranded-IsStranded = record {
  waits = inl refl;
  has_stream = refl;
  idle = refl;
  dead = refl;
  unsent = refl;
}

stranded_stays_example :
    serve ascii raw_uds config stranded (handles (some (err disconnected)) ∷ sends ∷ wakes ∷ [])
    ≡ stranded
stranded_stays_example =
    stranded_stays ascii raw_uds config stranded (stream_of stranded.runtime) disconnected
      stranded-IsStranded (handles (some (err disconnected)) ∷ sends ∷ wakes ∷ [])
