-- ===== src/Messages/Tests.antt =====
-- One library of messages, and the theorems for it: pings with a number as their id.
use rtc_asr.Prelude.{
  ℕ, suc, ◌≡◌, refl, ◌∙◌, ◌⊎◌, inl, inr, Bool, Bool-cases, true, false, Option, none, some, List,
  [], ◌∷◌, String, if◌then◌else◌, Result, ok, err,
}
use rtc_asr.Prelude.Int.{ℤ, pos}
use rtc_asr.Text.{Text, codes}
use rtc_asr.Json.{
  Value, null, Float, finite, float, integer, string, array, nil, object, Fields, end, field,
  lookup, get,
}
use rtc_asr.Wire.{RawUdsFrame, json_control, encode_raw_uds_frame, decode_raw_uds_frame, bytes}
use rtc_asr.Messages.{
  Failure, ping, Library, drop_if, dictionary, is_text, normalize_control, protocol, type_error,
}
use rtc_asr.Messages.Frames.{
  encode_client_message, encode_server_message, client_message, server_message, parse_client_frame,
  parse_server_frame, compact, is_bare, parse_client_message, parse_server_message,
  encode_json_frame, decode_json_payload,
}
use rtc_asr.Messages.Compact.{Laws, Carries}
use rtc_asr.Messages.Objects.{str_eq→eq, lookup_field}
use rtc_asr.Messages.RoundTrip
use rtc_asr.Messages.Server
use text.Mathlib.Text.{◌==◌ as str_eq}
use rtc_asr.Messages.RoundTrip.{parse-encode_client}
use rtc_asr.Messages.Server.{parse-encode_server}
use rtc_asr.Messages.Validators.{
  seconds_field, reject_boolean_numeric_field, require_finite_numeric_field,
  require_positive_numeric_field, seconds_field-IsDuration, IsDuration,
}
use rtc_asr.Messages.Wrapping.{parse_client_frame-IsMalformed, IsMalformed}

-- A ping without an id, or with one.
abbrev Ping : Type 0
Ping = Option Text

abbrev dumped : Ping → Fields
dumped none = field "type" (string (codes "ping")) end
dumped (some t) = field "type" (string (codes "ping")) (field "ping_id" (string t) end)

abbrev id_of : Value → Result String Ping
id_of null = ok none
id_of (string t) = ok (some t)
id_of v = err "invalid_string_field"

abbrev validated : Fields → Result String Ping
validated d =
    if is_text (get "type" d) "ping" then id_of (get "ping_id" d) else err "union_tag_invalid"

-- A code for the text that JSON would have.
abbrev written : Value → List ℕ
written (string t) = 2 ∷ t
written v = 1 ∷ []

abbrev read_back : List ℕ → Option Value
read_back [] = none
read_back (suc (suc b) ∷ t) = some (object (dumped (some t)))
read_back (b ∷ t) = some (object (dumped none))

abbrev pings : Library Ping
pings = record {
  kind = λ m. ping;
  dump = dumped;
  validate_client = validated;
  validate_server = validated;
  dumps = λ d. written (get "ping_id" d);
  loads = read_back;
}

typed : (m : Ping) → lookup "type" (dumped m) ≡ some (string (codes "ping"))
unfolding lookup
typed none = refl
typed (some t) = refl

fields_of :
    (m : Ping) (key : String)
    → (lookup key (dumped m) ≡ none)
      ⊎ (("type" ≡ key) ⊎ (("ping_id" ≡ key) ⊎ (("timestamp_ms" ≡ key) ⊎ ("metadata" ≡ key))))
unfolding lookup
fields_of none key = elim (Bool-cases (str_eq "type" key)) [
  | inl e ↦ inr (inl (str_eq→eq "type" key e))
  | inr e ↦ inl (lookup_field key "type" _ end false e)
]
fields_of (some t) key = elim (Bool-cases (str_eq "type" key)) [
  | inl e ↦ inr (inl (str_eq→eq "type" key e))
  | inr e ↦ elim (Bool-cases (str_eq "ping_id" key)) [
    | inl f ↦ inr (inr (inl (str_eq→eq "ping_id" key f)))
    | inr f ↦ inl (
        lookup_field key "type" _ (field "ping_id" (string t) end) false e
        ∙ lookup_field key "ping_id" (string t) end false f)
  ]
]

loaded :
    (m : Ping) (a b : Bool)
    → let d = drop_if b "finalize_on_stable_partial" (drop_if a "metadata" (dumped m)) in
      read_back (written (get "ping_id" d)) ≡ some (object d)
unfolding lookup
loaded none true true = refl
loaded none true false = refl
loaded none false true = refl
loaded none false false = refl
loaded (some t) true true = refl
loaded (some t) true false = refl
loaded (some t) false true = refl
loaded (some t) false false = refl

pings-Laws : Laws pings
pings-Laws = record {
  dumps_type = typed;
  dumps_audio = λ m e. cc;
  dumps_signal = λ m key e. fields_of m key;
  loads_nothing = refl;
  loads_back = loaded;
}

-- A ping with the id "7" as a frame.
abbrev seven_fields : Fields
seven_fields = dumped (some (codes "7"))

abbrev seven : List ℕ
seven = 5 ∷ 2 ∷ 0 ∷ 0 ∷ 0 ∷ 2 ∷ 55 ∷ []

seven_client : encode_client_message pings (dictionary seven_fields) ≡ ok seven
unfolding encode_client_message normalize_control parse_client_message is_bare compact
    encode_json_frame encode_raw_uds_frame lookup
seven_client = refl

seven_server : encode_server_message pings (dictionary seven_fields) ≡ ok seven
unfolding encode_server_message parse_server_message is_bare compact encode_json_frame
    encode_raw_uds_frame lookup
seven_server = refl

parse-encode_client_example :
    (m : Ping) × (f : RawUdsFrame) × (d : Fields) × (client_message pings (dictionary seven_fields)
      ≡ ok m)
    × (decode_raw_uds_frame (bytes seven) ≡ ok f)
    × Carries d (dumped m)
    × (parse_client_frame pings f ≡ RoundTrip.answered pings d)
parse-encode_client_example =
    parse-encode_client pings pings-Laws (dictionary seven_fields) seven seven_client

parse-encode_server_example :
    (m : Ping) × (f : RawUdsFrame) × (d : Fields) × (server_message pings (dictionary seven_fields)
      ≡ ok m)
    × (decode_raw_uds_frame (bytes seven) ≡ ok f)
    × Carries d (dumped m)
    × (parse_server_frame pings f ≡ Server.answered pings ping d)
parse-encode_server_example =
    parse-encode_server pings pings-Laws (dictionary seven_fields) seven seven_server

-- No JSON.
abbrev unreadable : RawUdsFrame
unreadable = record { frame_type = json_control; payload = [] }

abbrev unreadable_error : Failure
unreadable_error = protocol (record {
  code = "raw_uds_malformed_json_control";
  fatal = true;
  retryable = false;
  metadata = field "original_code" (string (codes "raw_uds_invalid_json")) end;
})

unreadable_run : parse_client_frame pings unreadable ≡ err unreadable_error
unfolding parse_client_frame decode_json_payload
unreadable_run = refl

parse_client_frame-IsMalformed_example : IsMalformed pings unreadable unreadable_error
parse_client_frame-IsMalformed_example =
    parse_client_frame-IsMalformed pings unreadable unreadable_error refl unreadable_run

-- A start event whose protocol is a list: Python cannot look it up in a set.
unhashable_run :
    normalize_control (field "type" (string (codes "start")) (field "protocol" (array nil) end))
    ≡ err type_error
unfolding normalize_control lookup
unhashable_run = refl

-- A buffer of two seconds, given as an integer.
abbrev whole : ℤ → Float
whole z = finite z 0

abbrev two_seconds : Value
two_seconds = float (finite (pos 2) 0)

two_seconds_run : seconds_field whole (integer (pos 2)) ≡ ok two_seconds
unfolding seconds_field reject_boolean_numeric_field require_finite_numeric_field
    require_positive_numeric_field
two_seconds_run = refl

seconds_field-IsDuration_example : IsDuration two_seconds
seconds_field-IsDuration_example =
    seconds_field-IsDuration whole (integer (pos 2)) two_seconds two_seconds_run
