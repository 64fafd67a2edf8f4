-- ===== src/Config/Blame.antt =====
-- A configuration that src/config.py refuses is refused for a variable that is set.
use rtc_asr.Prelude.{◌≡◌, refl, [], ◌∷◌, arith, err, Fails, Fails-bind, Fails-ok}
use rtc_asr.Config.{
  Environment, Python, ConfigError, env_flag, positive_int_env, positive_int_first_env,
  tcp_port_env, socket_path_env,
}
use rtc_asr.Config.Transport.{local_stt_socket_mode}
use rtc_asr.Config.Load.{defaults, is_uds, from_env}
use rtc_asr.Config.Readers.{
  Blames, positive_int_env-Fails, positive_int_first_env-Fails, tcp_port_env-Fails, env_flag-Fails,
  socket_path_env-Fails, local_stt_socket_mode-Fails,
}

from_env-Fails : (py : Python) (env : Environment) → Fails (Blames env) (from_env py env)
unfolding from_env
from_env-Fails py env =
    Fails-bind (positive_int_env py env "STREAM_MAX_BUFFER_BYTES" defaults.stream_max_buffer_bytes)
      _
      (positive_int_env-Fails py env "STREAM_MAX_BUFFER_BYTES" defaults.stream_max_buffer_bytes
        (omega arith))
      λ stream_max _.
        Fails-bind (local_stt_socket_mode py env defaults.local_stt_socket_mode) _
          (local_stt_socket_mode-Fails py env defaults.local_stt_socket_mode)
          λ mode _.
            Fails-bind
              (socket_path_env env "LOCAL_STT_UDS_PATH" defaults.local_stt_uds_path (is_uds mode)) _
              (socket_path_env-Fails py env "LOCAL_STT_UDS_PATH" defaults.local_stt_uds_path
                (is_uds mode))
              λ path _.
                Fails-bind
                  (env_flag py env "LOCAL_STT_RAW_UDS_ENABLED" defaults.local_stt_raw_uds_enabled) _
                  (env_flag-Fails py env "LOCAL_STT_RAW_UDS_ENABLED"
                    defaults.local_stt_raw_uds_enabled)
                  λ raw_enabled _.
                    Fails-bind
                      (socket_path_env env "LOCAL_STT_RAW_UDS_PATH" defaults.local_stt_raw_uds_path
                        raw_enabled)
                      _
                      (socket_path_env-Fails py env "LOCAL_STT_RAW_UDS_PATH"
                        defaults.local_stt_raw_uds_path raw_enabled)
                      λ raw_path _.
                        Fails-bind (tcp_port_env py env "PORT" defaults.port) _
                          (tcp_port_env-Fails py env "PORT" defaults.port (omega arith) refl)
                          λ port _.
                            Fails-bind
                              (positive_int_first_env py env
                                ("SAMPLE_RATE" ∷ "AUDIO_SAMPLE_RATE" ∷ []) defaults.sample_rate)
                              _
                              (positive_int_first_env-Fails py env
                                ("SAMPLE_RATE" ∷ "AUDIO_SAMPLE_RATE" ∷ []) defaults.sample_rate)
                              λ rate _.
                                Fails-bind
                                  (env_flag py env "LOCAL_STT_ENABLE_PCM16_FAST_PATH"
                                    defaults.local_stt_enable_pcm16_fast_path)
                                  _
                                  (env_flag-Fails py env "LOCAL_STT_ENABLE_PCM16_FAST_PATH"
                                    defaults.local_stt_enable_pcm16_fast_path)
                                  λ fast_path _.
                                    Fails-bind
                                      (env_flag py env "LOCAL_STT_REQUIRE_TARGET_SAMPLE_RATE"
                                        defaults.local_stt_require_target_sample_rate)
                                      _
                                      (env_flag-Fails py env "LOCAL_STT_REQUIRE_TARGET_SAMPLE_RATE"
                                        defaults.local_stt_require_target_sample_rate)
                                      λ require_rate _.
                                        Fails-bind
                                          (positive_int_env py env "LOCAL_STT_TARGET_SAMPLE_RATE"
                                            defaults.local_stt_target_sample_rate)
                                          _
                                          (positive_int_env-Fails py env
                                            "LOCAL_STT_TARGET_SAMPLE_RATE"
                                            defaults.local_stt_target_sample_rate (omega arith))
                                          λ target_rate _.
                                            Fails-bind
                                              (env_flag py env "ASR_VAD_FILTER"
                                                defaults.asr_vad_filter)
                                              _
                                              (env_flag-Fails py env "ASR_VAD_FILTER"
                                                defaults.asr_vad_filter)
                                              λ vad _.
                                                Fails-bind
                                                  (env_flag py env "ASR_PRELOAD_MODEL"
                                                    defaults.asr_preload_model)
                                                  _
                                                  (env_flag-Fails py env "ASR_PRELOAD_MODEL"
                                                    defaults.asr_preload_model)
                                                  λ preload _.
                                                    Fails-bind
                                                      (env_flag py env "ASR_FAIL_FAST"
                                                        defaults.asr_fail_fast)
                                                      _
                                                      (env_flag-Fails py env "ASR_FAIL_FAST"
                                                        defaults.asr_fail_fast)
                                                      λ fail_fast _.
                                                        Fails-bind
                                                          (positive_int_env py env
                                                            "ASR_QWEN_MAX_NEW_TOKENS"
                                                            defaults.asr_qwen_max_new_tokens)
                                                          _
                                                          (positive_int_env-Fails py env
                                                            "ASR_QWEN_MAX_NEW_TOKENS"
                                                            defaults.asr_qwen_max_new_tokens
                                                            (omega arith))
                                                          λ qwen_tokens _.
                                                            Fails-bind
                                                            (positive_int_env py env
                                                            "ASR_QWEN_MAX_INFERENCE_BATCH_SIZE"
                                                            defaults.asr_qwen_max_inference_batch_size)
                                                            _
                                                            (positive_int_env-Fails py env
                                                            "ASR_QWEN_MAX_INFERENCE_BATCH_SIZE"
                                                            defaults.asr_qwen_max_inference_batch_size
                                                            (omega arith))
                                                            λ qwen_batch _.
                                                            Fails-bind
                                                            (positive_int_env py env
                                                            "ASR_VOXTRAL_MAX_NEW_TOKENS"
                                                            defaults.asr_voxtral_max_new_tokens)
                                                            _
                                                            (positive_int_env-Fails py env
                                                            "ASR_VOXTRAL_MAX_NEW_TOKENS"
                                                            defaults.asr_voxtral_max_new_tokens
                                                            (omega arith))
                                                            λ voxtral_tokens _.
                                                            Fails-bind
                                                            (positive_int_env py env
                                                            "ASR_VOXTRAL_TRANSCRIPTION_DELAY_MS"
                                                            defaults.asr_voxtral_transcription_delay_ms)
                                                            _
                                                            (positive_int_env-Fails py env
                                                            "ASR_VOXTRAL_TRANSCRIPTION_DELAY_MS"
                                                            defaults.asr_voxtral_transcription_delay_ms
                                                            (omega arith))
                                                            λ voxtral_delay _.
                                                            Fails-bind
                                                            (env_flag py env
                                                            "ASR_VOXTRAL_TRUST_REMOTE_CODE"
                                                            defaults.asr_voxtral_trust_remote_code)
                                                            _
                                                            (env_flag-Fails py env
                                                            "ASR_VOXTRAL_TRUST_REMOTE_CODE"
                                                            defaults.asr_voxtral_trust_remote_code)
                                                            λ voxtral_trust _. Fails-ok _

-- Whatever the environment, an error names a variable that is set there: the defaults alone never fail.
pub from_env-Blames :
    (py : Python) (env : Environment) (e : ConfigError) → from_env py env ≡ err e → Blames env e
from_env-Blames py env = (from_env-Fails py env).because
