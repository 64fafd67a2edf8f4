-- ===== src/Stream/Infinite.antt =====
-- A start event on /ws/stream whose `max_buffer_seconds` is the JSON number `Infinity`.
use rtc_asr.Prelude.{ℕ, ◌≡◌, refl, Option, none, some, [], ◌∷◌, ok, err, if◌then◌else◌, if_case}
use rtc_asr.Prelude.Int.{pos}
use rtc_asr.Text.{Text, codes}
use rtc_asr.Json.{infinity, null, integer, float, string, object, Fields, get, get_or}
use rtc_asr.Session.{unexpected, sample_rate_not_positive, interval_not_positive}
use rtc_asr.Session.Create.{
  StreamConfig, create_stream_session, coerce_positive_seconds, require_positive, text_or_null,
  seconds_to_buffer_bytes, seconds_to_samples,
}
use rtc_asr.Stream.{
  Library, Services, Backend, text, start, error_event, Connection, closed, handle_start, dispatch,
  on_error, websocket_step, receive_stream_event, event_type_of,
}

-- The fields of the start event apart from `max_buffer_seconds` are ones that the service takes.
pub record IsOtherwiseFine (config : StreamConfig) (d : Fields) : Type 0 where
  pub no_window : get "partial_window_seconds" d ≡ null
  pub rate : ℕ
  pub rate_taken :
      require_positive
        (get_or "sample_rate" (integer (pos config.sample_rate)) d)
        sample_rate_not_positive
      ≡ ok rate
  pub interval : ℕ
  pub interval_taken :
      require_positive (get_or "partial_interval_chunks" (integer (pos 1)) d) interval_not_positive
      ≡ ok interval
  pub language : Option Text
  pub language_taken : text_or_null (get_or "language" (string (codes "en")) d) ≡ ok language

create_infinite :
    (d : Fields) (config : StreamConfig) (id : ℕ)
    → IsOtherwiseFine config d
    → get "max_buffer_seconds" d ≡ float infinity
    → create_stream_session d config id ≡ err unexpected
unfolding create_stream_session coerce_positive_seconds seconds_to_buffer_bytes seconds_to_samples
create_infinite d config id fine infinite =
    rw (fine.no_window, infinite, fine.rate_taken, fine.interval_taken, fine.language_taken)

module _ (lib : Library) (services : Services) (backend : Backend) where
  -- A start event whose `max_buffer_seconds` is an infinity, without `partial_window_seconds` and with other fields
  -- that the service takes, is not refused as the client's error: the connection closes with 1011, and
  -- the service notes a preload error exactly while the backend has not loaded.
  pub websocket_step-infinite :
      (c : Connection) (d : Fields)
      → c.session ≡ none
      → event_type_of lib (get_or "type" (string []) d) ≡ start
      → IsOtherwiseFine services.config d
      → get "max_buffer_seconds" d ≡ float infinity
      → let after = websocket_step lib services backend c (text (some (object d))) in
        (after.fate ≡ closed 1011)
        × (after.sent ≡ error_event unexpected 1011 ∷ [])
        × (after.connection.preload_error
            ≡ (if backend.is_loaded then c.preload_error else some unexpected))
  unfolding websocket_step receive_stream_event dispatch handle_start on_error
  websocket_step-infinite c d inactive starts fine infinite =
      rw (starts, inactive, create_infinite d services.config c.next_stream_id fine infinite)
        (
          refl,
          refl,
          if_case
              (λ (a : Connection).
                a.preload_error ≡ (if backend.is_loaded then c.preload_error else some unexpected))
              backend.is_loaded (λ loaded. rw loaded refl) (λ unloaded. rw unloaded refl),
        )
