-- ===== src/Config/Load.antt =====
-- `AppConfig.from_env` of src/config.py.
use rtc_asr.Prelude.{ℕ, ◌*◌, Bool, true, false, Option, none, List, [], ◌∷◌, Result, ok, ◌>>=◌}
use rtc_asr.Text.{Text, codes}
use rtc_asr.Config.{
  Environment, Python, ConfigError, cors_origins, env_flag, first_env, env_text, text_or,
  env_lower_text, default_asr_device, positive_int_env, positive_int_first_env, tcp_port_env,
  socket_path_env, or_else,
}
use rtc_asr.Config.Transport.{SocketMode, tcp, uds, local_stt_socket_mode}

pub record AppConfig : Type 0 where
  pub app_name : Text
  pub app_version : Text
  pub host : Text
  pub port : ℕ
  pub cors_origins : List Text
  pub sample_rate : ℕ
  pub stream_max_buffer_bytes : ℕ
  pub local_stt_enable_pcm16_fast_path : Bool
  pub local_stt_require_target_sample_rate : Bool
  pub local_stt_target_sample_rate : ℕ
  pub local_stt_socket_mode : SocketMode
  pub local_stt_uds_path : Text
  pub local_stt_raw_uds_enabled : Bool
  pub local_stt_raw_uds_path : Text
  pub asr_backend : Text
  pub asr_model_size : Text
  pub asr_device : Text
  pub asr_compute_type : Text
  pub asr_vad_filter : Bool
  pub asr_preload_model : Bool
  pub asr_fail_fast : Bool
  pub asr_qwen_model : Text
  pub asr_qwen_dtype : Text
  pub asr_qwen_device_map : Option Text
  pub asr_qwen_max_new_tokens : ℕ
  pub asr_qwen_max_inference_batch_size : ℕ
  pub asr_parakeet_model : Text
  pub asr_parakeet_dtype : Text
  pub asr_vosk_model_path : Text
  pub asr_voxtral_model : Text
  pub asr_voxtral_mlx_model : Text
  pub asr_voxtral_dtype : Text
  pub asr_voxtral_attn_implementation : Option Text
  pub asr_voxtral_max_new_tokens : ℕ
  pub asr_voxtral_transcription_delay_ms : ℕ
  pub asr_voxtral_trust_remote_code : Bool

abbrev pub defaults : AppConfig
defaults = record {
  app_name = codes "Realtime ASR Service";
  app_version = codes "0.1.0";
  host = codes "0.0.0.0";
  port = 8080;
  cors_origins = codes "*" ∷ [];
  sample_rate = 16000;
  stream_max_buffer_bytes = 1024 * 1024;
  local_stt_enable_pcm16_fast_path = true;
  local_stt_require_target_sample_rate = true;
  local_stt_target_sample_rate = 16000;
  local_stt_socket_mode = tcp;
  local_stt_uds_path = codes "/run/rtc-asr/stt.sock";
  local_stt_raw_uds_enabled = false;
  local_stt_raw_uds_path = codes "/run/rtc-asr/stt.raw.sock";
  asr_backend = codes "faster-whisper";
  asr_model_size = codes "base.en";
  asr_device = codes "cpu";
  asr_compute_type = codes "int8";
  asr_vad_filter = true;
  asr_preload_model = false;
  asr_fail_fast = false;
  asr_qwen_model = codes "Qwen/Qwen3-ASR-0.6B";
  asr_qwen_dtype = codes "auto";
  asr_qwen_device_map = none;
  asr_qwen_max_new_tokens = 256;
  asr_qwen_max_inference_batch_size = 1;
  asr_parakeet_model = codes "nvidia/parakeet-tdt-0.6b-v3";
  asr_parakeet_dtype = codes "auto";
  asr_vosk_model_path = codes "model";
  asr_voxtral_model = codes "mistralai/Voxtral-Mini-4B-Realtime-2602";
  asr_voxtral_mlx_model = codes "mlx-community/Voxtral-Mini-4B-Realtime-2602-4bit";
  asr_voxtral_dtype = codes "auto";
  asr_voxtral_attn_implementation = none;
  asr_voxtral_max_new_tokens = 128;
  asr_voxtral_transcription_delay_ms = 480;
  asr_voxtral_trust_remote_code = true;
}

abbrev pub is_uds : SocketMode → Bool
is_uds uds = true
is_uds tcp = false

unfoldable pub from_env : Python → Environment → Result ConfigError AppConfig
from_env py env = do
  stream_max ← positive_int_env py env "STREAM_MAX_BUFFER_BYTES" defaults.stream_max_buffer_bytes
  mode ← local_stt_socket_mode py env defaults.local_stt_socket_mode
  path ← socket_path_env env "LOCAL_STT_UDS_PATH" defaults.local_stt_uds_path (is_uds mode)
  raw_enabled ← env_flag py env "LOCAL_STT_RAW_UDS_ENABLED" defaults.local_stt_raw_uds_enabled
  raw_path ←
      socket_path_env env "LOCAL_STT_RAW_UDS_PATH" defaults.local_stt_raw_uds_path raw_enabled
  port ← tcp_port_env py env "PORT" defaults.port
  rate ←
      positive_int_first_env py env ("SAMPLE_RATE" ∷ "AUDIO_SAMPLE_RATE" ∷ []) defaults.sample_rate
  fast_path ←
      env_flag py env "LOCAL_STT_ENABLE_PCM16_FAST_PATH" defaults.local_stt_enable_pcm16_fast_path
  require_rate ←
      env_flag py env "LOCAL_STT_REQUIRE_TARGET_SAMPLE_RATE"
        defaults.local_stt_require_target_sample_rate
  target_rate ←
      positive_int_env py env "LOCAL_STT_TARGET_SAMPLE_RATE" defaults.local_stt_target_sample_rate
  vad ← env_flag py env "ASR_VAD_FILTER" defaults.asr_vad_filter
  preload ← env_flag py env "ASR_PRELOAD_MODEL" defaults.asr_preload_model
  fail_fast ← env_flag py env "ASR_FAIL_FAST" defaults.asr_fail_fast
  qwen_tokens ← positive_int_env py env "ASR_QWEN_MAX_NEW_TOKENS" defaults.asr_qwen_max_new_tokens
  qwen_batch ←
      positive_int_env py env "ASR_QWEN_MAX_INFERENCE_BATCH_SIZE"
        defaults.asr_qwen_max_inference_batch_size
  voxtral_tokens ←
      positive_int_env py env "ASR_VOXTRAL_MAX_NEW_TOKENS" defaults.asr_voxtral_max_new_tokens
  voxtral_delay ←
      positive_int_env py env "ASR_VOXTRAL_TRANSCRIPTION_DELAY_MS"
        defaults.asr_voxtral_transcription_delay_ms
  voxtral_trust ←
      env_flag py env "ASR_VOXTRAL_TRUST_REMOTE_CODE" defaults.asr_voxtral_trust_remote_code
  ok (record {
    app_name = or_else (env "APP_NAME") defaults.app_name;
    app_version = or_else (env "APP_VERSION") defaults.app_version;
    host = or_else (env "HOST") defaults.host;
    port = port;
    cors_origins = cors_origins (env "CORS_ORIGINS") defaults.cors_origins;
    sample_rate = rate;
    stream_max_buffer_bytes = stream_max;
    local_stt_enable_pcm16_fast_path = fast_path;
    local_stt_require_target_sample_rate = require_rate;
    local_stt_target_sample_rate = target_rate;
    local_stt_socket_mode = mode;
    local_stt_uds_path = py.str_path path;
    local_stt_raw_uds_enabled = raw_enabled;
    local_stt_raw_uds_path = py.str_path raw_path;
    asr_backend = env_lower_text py env "ASR_BACKEND" defaults.asr_backend;
    asr_model_size =
        or_else (first_env env ("ASR_MODEL_SIZE" ∷ "MODEL_NAME" ∷ [])) defaults.asr_model_size;
    asr_device = default_asr_device py env defaults.asr_device;
    asr_compute_type = text_or env "ASR_COMPUTE_TYPE" defaults.asr_compute_type;
    asr_vad_filter = vad;
    asr_preload_model = preload;
    asr_fail_fast = fail_fast;
    asr_qwen_model = text_or env "ASR_QWEN_MODEL" defaults.asr_qwen_model;
    asr_qwen_dtype = text_or env "ASR_QWEN_DTYPE" defaults.asr_qwen_dtype;
    asr_qwen_device_map = env_text env "ASR_QWEN_DEVICE_MAP" defaults.asr_qwen_device_map;
    asr_qwen_max_new_tokens = qwen_tokens;
    asr_qwen_max_inference_batch_size = qwen_batch;
    asr_parakeet_model = text_or env "ASR_PARAKEET_MODEL" defaults.asr_parakeet_model;
    asr_parakeet_dtype = text_or env "ASR_PARAKEET_DTYPE" defaults.asr_parakeet_dtype;
    asr_vosk_model_path = text_or env "ASR_VOSK_MODEL_PATH" defaults.asr_vosk_model_path;
    asr_voxtral_model = text_or env "ASR_VOXTRAL_MODEL" defaults.asr_voxtral_model;
    asr_voxtral_mlx_model = text_or env "ASR_VOXTRAL_MLX_MODEL" defaults.asr_voxtral_mlx_model;
    asr_voxtral_dtype = text_or env "ASR_VOXTRAL_DTYPE" defaults.asr_voxtral_dtype;
    asr_voxtral_attn_implementation =
        env_text env "ASR_VOXTRAL_ATTN_IMPLEMENTATION" defaults.asr_voxtral_attn_implementation;
    asr_voxtral_max_new_tokens = voxtral_tokens;
    asr_voxtral_transcription_delay_ms = voxtral_delay;
    asr_voxtral_trust_remote_code = voxtral_trust;
  })
