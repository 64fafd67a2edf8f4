-- ===== src/Runtime/Tests.antt =====
-- Runs of a stream under one schedule, and its theorems there.
use rtc_asr.Prelude.{◌≡◌, refl, true, false, none, some, List, [], ◌∷◌, ◌++◌, All, ok}
use rtc_asr.Prelude.Rounding.{round_half_even}
use rtc_asr.Text.{Text, Unicode, codes, strip, lstrip, is_space, fold_case}
use rtc_asr.Text.Words.{words, split_from, join_words}
use rtc_asr.Json.{end}
use rtc_asr.Session.{
  StreamSession, Transcript, stateful, append_audio, should_emit_partial,
  audio_bytes_to_duration_ms, record_partial, record_transcript_stability, normalize_stability_text,
  next_transcript_revision, should_finalize_stable_partial,
}
use rtc_asr.Runtime.{after_final, begin_final, after_partial, begin_partial, woken}
use rtc_asr.Runtime.Schedule.{
  Turn, takes_audio, asks_final, cancels, wakes, sends, decodes, turn, run, started, decode_done,
}
use rtc_asr.Runtime.Order.{run-reads}
use rtc_asr.Runtime.Reader.{emitted, read_all, read}
use rtc_asr.Runtime.Progress.{run-Alert, Alert, is_missed, run-has_ended, has_ended}
use rtc_asr.Runtime.Silence.{transcripts-run_cancel, transcripts}
use rtc_asr.Runtime.Pushes.{run-IsFront, IsFront}
use rtc_asr.Runtime.Timing.{run-IsTimely, IsTimely}

abbrev ascii : Unicode
ascii = record { lower = λ c. c ∷ []; casefold = λ c. c ∷ [] }

abbrev session : StreamSession
session = record {
  stream_id = 1;
  language = none;
  sample_rate = 16000;
  max_buffer_bytes = 100;
  partial_interval_chunks = 1;
  partial_interval_audio_ms = none;
  partial_window_seconds = none;
  max_buffer_seconds = none;
  partial_window_bytes = none;
  interim_results = true;
  finalize_on_stable_partial = false;
  stable_partial_cycles = 3;
  client_stream_id = none;
  client_metadata = end;
  decoder_mode = stateful;
  audio_buffer = [];
  chunks_received = 0;
  last_partial_chunks_received = 0;
  last_partial_audio_received_ms = 0;
  last_partial_result = none;
  stable_partial_text = none;
  stable_partial_count = 0;
  transcript_revision = 0;
}

abbrev heard : Text → Transcript
heard t = record { text = some t; backend = none; model = none; language = none }

-- A chunk comes during the first decode, and the client asks for the end.
abbrev talk : List Turn
talk =
    takes_audio (1 ∷ 2 ∷ [])
    ∷ wakes
    ∷ takes_audio (3 ∷ 4 ∷ [])
    ∷ decodes (ok (some (heard (codes "one"))))
    ∷ asks_final
    ∷ []

abbrev ending : List Turn
ending = talk ++ wakes ∷ decodes (ok (some (heard (codes "one two")))) ∷ sends ∷ []

end_run : (run ascii (started session true) ending).pushed ≡ 1 ∷ 2 ∷ 3 ∷ 4 ∷ []
unfolding run turn woken begin_partial begin_final after_partial after_final decode_done
    append_audio should_emit_partial record_partial record_transcript_stability
    normalize_stability_text words split_from join_words is_space fold_case strip lstrip
    should_finalize_stable_partial next_transcript_revision audio_bytes_to_duration_ms
    round_half_even
end_run = refl

final_run : (run ascii (started session true) ending).final_emitted ≡ true
unfolding run turn woken begin_partial begin_final after_partial after_final decode_done
    append_audio should_emit_partial record_partial record_transcript_stability
    normalize_stability_text words split_from join_words is_space fold_case strip lstrip
    should_finalize_stable_partial next_transcript_revision audio_bytes_to_duration_ms
    round_half_even
final_run = refl

talk_going : (run ascii (started session true) ending).cancel_requested ≡ false
unfolding run turn woken begin_partial begin_final after_partial after_final decode_done
    append_audio should_emit_partial record_partial record_transcript_stability
    normalize_stability_text words split_from join_words is_space fold_case strip lstrip
    should_finalize_stable_partial next_transcript_revision audio_bytes_to_duration_ms
    round_half_even
talk_going = refl

talk_asked : (run ascii (started session true) talk).finalize_requested ≡ true
unfolding run turn woken begin_partial begin_final after_partial after_final decode_done
    append_audio should_emit_partial record_partial record_transcript_stability
    normalize_stability_text words split_from join_words is_space fold_case strip lstrip
    should_finalize_stable_partial next_transcript_revision audio_bytes_to_duration_ms
    round_half_even
talk_asked = refl

run-reads_example :
    read_all (some (read 1 0 false false)) (emitted (run ascii (started session true) ending))
    ≡ some (
        read 1
          (run ascii (started session true) ending).session.transcript_revision
          (run ascii (started session true) ending).final_emitted
          (run ascii (started session true) ending).cancel_requested)
run-reads_example = run-reads ascii session true ending refl

run-Alert_example :
    Alert
      (run ascii (started session true) talk).worker
      (is_missed (run ascii (started session true) talk))
run-Alert_example = run-Alert ascii session true talk

run-has_ended_example :
    has_ended
      (run ascii (run ascii (started session true) talk) (
        decodes (ok (some (heard (codes "a"))))
        ∷ wakes
        ∷ decodes (ok (some (heard (codes "b"))))
        ∷ [])).worker
    ≡ true
run-has_ended_example =
    run-has_ended ascii session true talk (heard (codes "a")) (heard (codes "b")) talk_asked

transcripts-run_cancel_example :
    transcripts (
      emitted (
        run ascii
          (turn ascii (run ascii (started session true) talk) cancels)
          (wakes ∷ sends ∷ [])))
    ≡ transcripts (emitted (run ascii (started session true) talk))
transcripts-run_cancel_example =
    transcripts-run_cancel ascii (run ascii (started session true) talk) (wakes ∷ sends ∷ [])

run-IsFront_example :
    IsFront
      (run ascii (started session true) ending).pushed
      (run ascii (started session true) ending).session.audio_buffer
run-IsFront_example = (run-IsFront ascii session true ending talk_going).0

run-IsTimely_example : All IsTimely (emitted (run ascii (started session true) ending))
run-IsTimely_example = run-IsTimely ascii session true ending
