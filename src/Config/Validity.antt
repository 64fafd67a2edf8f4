-- ===== src/Config/Validity.antt =====
-- Every configuration that src/config.py accepts can be used.
use rtc_asr.Prelude.{ℕ, ◌≤◌, ◌<◌, ◌≡◌, refl, [], ◌∷◌, arith, ok, Ensures, Ensures-bind, Ensures-ok}
use rtc_asr.Text.{Text}
use rtc_asr.Session.{StreamSession}
use rtc_asr.Session.Create.{StreamConfig}
use rtc_asr.Session.Bounds.{IsNew}
use rtc_asr.Session.CreateLocal.{
  LocalSttStartConfig, create_local_stt_stream_session, create_local_stt_stream_session-IsNew,
}
use rtc_asr.Config.{
  Environment, Python, env_flag, positive_int_env, positive_int_first_env, tcp_port_env,
  socket_path_env,
}
use rtc_asr.Config.Transport.{local_stt_socket_mode}
use rtc_asr.Config.Load.{AppConfig, defaults, is_uds, from_env}
use rtc_asr.Config.Readers.{
  IsNonEmpty, positive_int_env-Ensures, positive_int_first_env-Ensures, tcp_port_env-Ensures,
  socket_path_env-Ensures, text_or-IsNonEmpty, first_env-IsNonEmpty, default_asr_device-IsNonEmpty,
}

-- A path that `Path` was given, and that was not empty.
abbrev pub IsPath : Python → Text → Type 0
IsPath py path = (given : Text) × (IsNonEmpty given) × (path ≡ py.str_path given)

pub record IsValid (py : Python) (c : AppConfig) : Type 0 where
  pub port_low : 0 < c.port
  pub port_high : c.port ≤ 65535
  pub uds_path : IsPath py c.local_stt_uds_path
  pub raw_uds_path : IsPath py c.local_stt_raw_uds_path
  pub stream_max_buffer_bytes : 0 < c.stream_max_buffer_bytes
  pub sample_rate : 0 < c.sample_rate
  pub local_stt_target_sample_rate : 0 < c.local_stt_target_sample_rate
  pub asr_qwen_max_new_tokens : 0 < c.asr_qwen_max_new_tokens
  pub asr_qwen_max_inference_batch_size : 0 < c.asr_qwen_max_inference_batch_size
  pub asr_voxtral_max_new_tokens : 0 < c.asr_voxtral_max_new_tokens
  pub asr_voxtral_transcription_delay_ms : 0 < c.asr_voxtral_transcription_delay_ms
  pub asr_model_size : IsNonEmpty c.asr_model_size
  pub asr_device : IsNonEmpty c.asr_device
  pub asr_compute_type : IsNonEmpty c.asr_compute_type
  pub asr_qwen_model : IsNonEmpty c.asr_qwen_model
  pub asr_qwen_dtype : IsNonEmpty c.asr_qwen_dtype
  pub asr_parakeet_model : IsNonEmpty c.asr_parakeet_model
  pub asr_parakeet_dtype : IsNonEmpty c.asr_parakeet_dtype
  pub asr_vosk_model_path : IsNonEmpty c.asr_vosk_model_path
  pub asr_voxtral_model : IsNonEmpty c.asr_voxtral_model
  pub asr_voxtral_mlx_model : IsNonEmpty c.asr_voxtral_mlx_model
  pub asr_voxtral_dtype : IsNonEmpty c.asr_voxtral_dtype

from_env-Ensures : (py : Python) (env : Environment) → Ensures (IsValid py) (from_env py env)
unfolding from_env
from_env-Ensures py env =
    Ensures-bind
      (positive_int_env py env "STREAM_MAX_BUFFER_BYTES" defaults.stream_max_buffer_bytes) _
      λ stream_max stream_max_read.
        Ensures-bind (local_stt_socket_mode py env defaults.local_stt_socket_mode) _
          λ mode mode_read.
            Ensures-bind
              (socket_path_env env "LOCAL_STT_UDS_PATH" defaults.local_stt_uds_path (is_uds mode)) _
              λ path path_read.
                Ensures-bind
                  (env_flag py env "LOCAL_STT_RAW_UDS_ENABLED" defaults.local_stt_raw_uds_enabled) _
                  λ raw_enabled raw_enabled_read.
                    Ensures-bind
                      (socket_path_env env "LOCAL_STT_RAW_UDS_PATH" defaults.local_stt_raw_uds_path
                        raw_enabled)
                      _
                      λ raw_path raw_path_read.
                        Ensures-bind (tcp_port_env py env "PORT" defaults.port) _ λ port port_read.
                          Ensures-bind
                            (positive_int_first_env py env
                              ("SAMPLE_RATE" ∷ "AUDIO_SAMPLE_RATE" ∷ []) defaults.sample_rate)
                            _
                            λ rate rate_read.
                              Ensures-bind
                                (env_flag py env "LOCAL_STT_ENABLE_PCM16_FAST_PATH"
                                  defaults.local_stt_enable_pcm16_fast_path)
                                _
                                λ fast_path fast_path_read.
                                  Ensures-bind
                                    (env_flag py env "LOCAL_STT_REQUIRE_TARGET_SAMPLE_RATE"
                                      defaults.local_stt_require_target_sample_rate)
                                    _
                                    λ require_rate require_rate_read.
                                      Ensures-bind
                                        (positive_int_env py env "LOCAL_STT_TARGET_SAMPLE_RATE"
                                          defaults.local_stt_target_sample_rate)
                                        _
                                        λ target_rate target_rate_read.
                                          Ensures-bind
                                            (env_flag py env "ASR_VAD_FILTER"
                                              defaults.asr_vad_filter)
                                            _
                                            λ vad vad_read.
                                              Ensures-bind
                                                (env_flag py env "ASR_PRELOAD_MODEL"
                                                  defaults.asr_preload_model)
                                                _
                                                λ preload preload_read.
                                                  Ensures-bind
                                                    (env_flag py env "ASR_FAIL_FAST"
                                                      defaults.asr_fail_fast)
                                                    _
                                                    λ fail_fast fail_fast_read.
                                                      Ensures-bind
                                                        (positive_int_env py env
                                                          "ASR_QWEN_MAX_NEW_TOKENS"
                                                          defaults.asr_qwen_max_new_tokens)
                                                        _
                                                        λ qwen_tokens qwen_tokens_read.
                                                          Ensures-bind
                                                            (positive_int_env py env
                                                            "ASR_QWEN_MAX_INFERENCE_BATCH_SIZE"
                                                            defaults.asr_qwen_max_inference_batch_size)
                                                            _
                                                            λ qwen_batch qwen_batch_read.
                                                            Ensures-bind
                                                            (positive_int_env py env
                                                            "ASR_VOXTRAL_MAX_NEW_TOKENS"
                                                            defaults.asr_voxtral_max_new_tokens)
                                                            _
                                                            λ voxtral_tokens voxtral_tokens_read.
                                                            Ensures-bind
                                                            (positive_int_env py env
                                                            "ASR_VOXTRAL_TRANSCRIPTION_DELAY_MS"
                                                            defaults.asr_voxtral_transcription_delay_ms)
                                                            _
                                                            λ voxtral_delay voxtral_delay_read.
                                                            Ensures-bind
                                                            (env_flag py env
                                                            "ASR_VOXTRAL_TRUST_REMOTE_CODE"
                                                            defaults.asr_voxtral_trust_remote_code)
                                                            _
                                                            λ voxtral_trust voxtral_trust_read.
                                                            Ensures-ok _ (record {
                                                            port_low =
                                                            ((tcp_port_env-Ensures py env "PORT"
                                                            defaults.port).at
                                                            port port_read).0;
                                                            port_high =
                                                            ((tcp_port_env-Ensures py env "PORT"
                                                            defaults.port).at
                                                            port port_read).1;
                                                            uds_path = (
                                                            path,
                                                            (socket_path_env-Ensures py env
                                                            "LOCAL_STT_UDS_PATH"
                                                            defaults.local_stt_uds_path
                                                            (is_uds mode) refl).at
                                                            path path_read,
                                                            refl,
                                                            );
                                                            raw_uds_path = (
                                                            raw_path,
                                                            (socket_path_env-Ensures py env
                                                            "LOCAL_STT_RAW_UDS_PATH"
                                                            defaults.local_stt_raw_uds_path
                                                            raw_enabled refl).at
                                                            raw_path raw_path_read,
                                                            refl,
                                                            );
                                                            stream_max_buffer_bytes =
                                                            (positive_int_env-Ensures py env
                                                            "STREAM_MAX_BUFFER_BYTES"
                                                            defaults.stream_max_buffer_bytes).at
                                                            stream_max stream_max_read;
                                                            sample_rate =
                                                            (positive_int_first_env-Ensures py env
                                                            ("SAMPLE_RATE" ∷ "AUDIO_SAMPLE_RATE"
                                                            ∷ [])
                                                            defaults.sample_rate (omega arith)).at
                                                            rate rate_read;
                                                            local_stt_target_sample_rate =
                                                            (positive_int_env-Ensures py env
                                                            "LOCAL_STT_TARGET_SAMPLE_RATE"
                                                            defaults.local_stt_target_sample_rate).at
                                                            target_rate target_rate_read;
                                                            asr_qwen_max_new_tokens =
                                                            (positive_int_env-Ensures py env
                                                            "ASR_QWEN_MAX_NEW_TOKENS"
                                                            defaults.asr_qwen_max_new_tokens).at
                                                            qwen_tokens qwen_tokens_read;
                                                            asr_qwen_max_inference_batch_size =
                                                            (positive_int_env-Ensures py env
                                                            "ASR_QWEN_MAX_INFERENCE_BATCH_SIZE"
                                                            defaults.asr_qwen_max_inference_batch_size).at
                                                            qwen_batch qwen_batch_read;
                                                            asr_voxtral_max_new_tokens =
                                                            (positive_int_env-Ensures py env
                                                            "ASR_VOXTRAL_MAX_NEW_TOKENS"
                                                            defaults.asr_voxtral_max_new_tokens).at
                                                            voxtral_tokens voxtral_tokens_read;
                                                            asr_voxtral_transcription_delay_ms =
                                                            (positive_int_env-Ensures py env
                                                            "ASR_VOXTRAL_TRANSCRIPTION_DELAY_MS"
                                                            defaults.asr_voxtral_transcription_delay_ms).at
                                                            voxtral_delay voxtral_delay_read;
                                                            asr_model_size =
                                                            first_env-IsNonEmpty py env
                                                            ("ASR_MODEL_SIZE" ∷ "MODEL_NAME" ∷ [])
                                                            defaults.asr_model_size refl;
                                                            asr_device =
                                                            default_asr_device-IsNonEmpty py env
                                                            defaults.asr_device refl;
                                                            asr_compute_type =
                                                            text_or-IsNonEmpty py env
                                                            "ASR_COMPUTE_TYPE"
                                                            defaults.asr_compute_type refl;
                                                            asr_qwen_model =
                                                            text_or-IsNonEmpty py env
                                                            "ASR_QWEN_MODEL" defaults.asr_qwen_model
                                                            refl;
                                                            asr_qwen_dtype =
                                                            text_or-IsNonEmpty py env
                                                            "ASR_QWEN_DTYPE" defaults.asr_qwen_dtype
                                                            refl;
                                                            asr_parakeet_model =
                                                            text_or-IsNonEmpty py env
                                                            "ASR_PARAKEET_MODEL"
                                                            defaults.asr_parakeet_model refl;
                                                            asr_parakeet_dtype =
                                                            text_or-IsNonEmpty py env
                                                            "ASR_PARAKEET_DTYPE"
                                                            defaults.asr_parakeet_dtype refl;
                                                            asr_vosk_model_path =
                                                            text_or-IsNonEmpty py env
                                                            "ASR_VOSK_MODEL_PATH"
                                                            defaults.asr_vosk_model_path refl;
                                                            asr_voxtral_model =
                                                            text_or-IsNonEmpty py env
                                                            "ASR_VOXTRAL_MODEL"
                                                            defaults.asr_voxtral_model refl;
                                                            asr_voxtral_mlx_model =
                                                            text_or-IsNonEmpty py env
                                                            "ASR_VOXTRAL_MLX_MODEL"
                                                            defaults.asr_voxtral_mlx_model refl;
                                                            asr_voxtral_dtype =
                                                            text_or-IsNonEmpty py env
                                                            "ASR_VOXTRAL_DTYPE"
                                                            defaults.asr_voxtral_dtype refl;
                                                            })

-- Whatever the environment, a configuration that is accepted has a TCP port from 1 to 65535, positive
-- sizes and rates, socket paths made of texts that are not empty, and model names that are not empty.
pub from_env-IsValid :
    (py : Python) (env : Environment) (c : AppConfig) → from_env py env ≡ ok c → IsValid py c
from_env-IsValid py env = (from_env-Ensures py env).at

-- What a stream reads of the configuration.
abbrev pub stream_config : AppConfig → StreamConfig
stream_config c = record {
  sample_rate = c.sample_rate;
  stream_max_buffer_bytes = c.stream_max_buffer_bytes;
}

-- Under every accepted configuration, a start of the Local STT protocol with a positive rate and interval
-- that gives a session gives a well-formed and empty one, within the configured limit.
pub from_env-IsNew :
    (py : Python) (env : Environment) (c : AppConfig) (payload : LocalSttStartConfig) (id : ℕ)
    (s : StreamSession)
    → from_env py env ≡ ok c
    → 0 < payload.sample_rate
    → 0 < payload.partial_interval_chunks
    → create_local_stt_stream_session payload (stream_config c) id ≡ ok s
    → IsNew (stream_config c) id s
from_env-IsNew py env c payload id s read =
    create_local_stt_stream_session-IsNew payload (stream_config c) id s
      (from_env-IsValid py env c read).stream_max_buffer_bytes
