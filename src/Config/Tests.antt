-- ===== src/Config/Tests.antt =====
-- Reading some environments, and the theorems there.
use rtc_asr.Prelude.{
  ℕ, ◌+◌, ◌*◌, ◌-◌, ◌≡◌, refl, ◌&&◌, true, false, Option, none, some, [], ◌∷◌, String, leb,
  if◌then◌else◌, ok, err, arith,
}
use rtc_asr.Prelude.Int.{ℤ, pos}
use rtc_asr.Text.{Text, codes, strip, lstrip, is_space, fold_case}
use rtc_asr.Text.Words.{words, split_from}
use rtc_asr.Json.{end}
use rtc_asr.Session.{StreamSession, rolling_window}
use rtc_asr.Session.Bounds.{IsNew}
use rtc_asr.Session.CreateLocal.{LocalSttStartConfig, create_local_stt_stream_session}
use text.Mathlib.Text.{◌==◌ as str_eq}
use rtc_asr.Config.{
  Environment, Python, not_tcp_port, env_flag, env_text, first_env, env_lower_text,
  default_asr_device, positive_int_env, positive_int_first_env, tcp_port_env, socket_path_env,
  cors_origins,
}
use rtc_asr.Config.Transport.{local_stt_socket_mode, normalize_local_stt_transport}
use rtc_asr.Config.Load.{defaults, from_env}
use rtc_asr.Config.Readers.{Blames}
use rtc_asr.Config.Validity.{IsValid, from_env-IsValid, from_env-IsNew, stream_config}
use rtc_asr.Config.Blame.{from_env-Blames}

-- Decimal digits, and ASCII letters.
abbrev digits : ℕ → Text → Option ℤ
digits n [] = some (pos n)
digits n (c ∷ s) =
    let rest = digits (n * 10 + (c - 48)) s in if leb 48 c && leb c 57 then rest else none

abbrev lower_letter : ℕ → Text
lower_letter c = (if leb 65 c && leb c 90 then c + 32 else c) ∷ []

abbrev py : Python
py = record {
  unicode = record { lower = lower_letter; casefold = lower_letter };
  parse_int = digits 0;
  str_path = λ p. p;
}

abbrev only : String → Text → Environment
only key value name = if str_eq name key then some value else none

abbrev empty : Environment
empty name = none

empty_run : from_env py empty ≡ ok defaults
unfolding from_env positive_int_env positive_int_first_env tcp_port_env socket_path_env env_flag
    local_stt_socket_mode cors_origins env_lower_text env_text first_env default_asr_device
    fold_case
empty_run = refl

transport_run : normalize_local_stt_transport py (codes " Unix-Domain Socket ") ≡ codes "uds_ws"
unfolding normalize_local_stt_transport words split_from is_space strip lstrip fold_case
transport_run = refl

moved : from_env py (only "PORT" (codes "9000")) ≡ ok (record defaults { port = 9000 })
unfolding from_env positive_int_env positive_int_first_env tcp_port_env socket_path_env env_flag
    local_stt_socket_mode cors_origins env_lower_text env_text first_env default_asr_device
    fold_case strip lstrip is_space
moved = refl

too_high : from_env py (only "PORT" (codes "70000")) ≡ err (not_tcp_port "PORT")
unfolding from_env positive_int_env positive_int_first_env tcp_port_env socket_path_env env_flag
    local_stt_socket_mode cors_origins env_lower_text env_text first_env default_asr_device
    fold_case strip lstrip is_space
too_high = refl

from_env-IsValid_example : IsValid py (record defaults { port = 9000 })
from_env-IsValid_example =
    from_env-IsValid py (only "PORT" (codes "9000")) (record defaults { port = 9000 }) moved

from_env-Blames_example : Blames (only "PORT" (codes "70000")) (not_tcp_port "PORT")
from_env-Blames_example =
    from_env-Blames py (only "PORT" (codes "70000")) (not_tcp_port "PORT") too_high

abbrev payload : LocalSttStartConfig
payload = record {
  sample_rate = 16000;
  language = none;
  interim_results = true;
  partial_interval_chunks = 1;
  partial_interval_audio_ms = none;
  partial_window_seconds = none;
  max_buffer_seconds = none;
  finalize_on_stable_partial = false;
  stable_partial_cycles = 3;
  client_stream_id = none;
  client_metadata = end;
}

abbrev fresh : StreamSession
fresh = record {
  stream_id = 1;
  language = none;
  sample_rate = 16000;
  max_buffer_bytes = 1048576;
  partial_interval_chunks = 1;
  partial_interval_audio_ms = none;
  partial_window_seconds = none;
  max_buffer_seconds = none;
  partial_window_bytes = none;
  interim_results = true;
  finalize_on_stable_partial = false;
  stable_partial_cycles = 3;
  client_stream_id = none;
  client_metadata = end;
  decoder_mode = rolling_window;
  audio_buffer = [];
  chunks_received = 0;
  last_partial_chunks_received = 0;
  last_partial_audio_received_ms = 0;
  last_partial_result = none;
  stable_partial_text = none;
  stable_partial_count = 0;
  transcript_revision = 0;
}

fresh_session :
    create_local_stt_stream_session payload (stream_config (record defaults { port = 9000 })) 1
    ≡ ok fresh
unfolding create_local_stt_stream_session
fresh_session = refl

from_env-IsNew_example : IsNew (stream_config (record defaults { port = 9000 })) 1 fresh
from_env-IsNew_example =
    from_env-IsNew py (only "PORT" (codes "9000")) (record defaults { port = 9000 }) payload 1 fresh
      moved (omega arith) (omega arith) fresh_session
