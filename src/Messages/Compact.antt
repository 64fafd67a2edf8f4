-- ===== src/Messages/Compact.antt =====
-- The compact form of a message in src/protocols/local_stt_v1.py, and how the parsers read it.
use rtc_asr.Prelude.{
  ℕ, ◌≡◌, refl, sym, ap, ◌∙◌, Bool, true, false, not, ◌||◌, ◌&&◌, ◌⊎◌, inl, inr, Bool-cases, Option,
  none, some, List, [], ◌∷◌, String, if◌then◌else◌, arith, Result, ok, ◌>>=◌,
}
use text.Mathlib.Text.{◌==◌ as str_eq}
use rtc_asr.Text.{codes}
use rtc_asr.Json.{
  Value, null, string, object, Fields, end, field, lookup, get, get_or, has_key, insert,
}
use rtc_asr.Session.Stability.{text_eq_self}
use rtc_asr.Wire.{
  RawUdsFrameType, json_control, audio_pcm16, json_event, RawUdsFrame, member, bytes,
  encode_raw_uds_frame, decode_raw_uds_frame, Code,
}
use rtc_asr.Wire
use rtc_asr.Messages.{
  Failure, Kind, start, finalize, cancel, close, ping, ready, transcript, warning, error, pong,
  closed, kind_name, Library, is_text, normalize_control, apply_envelope_type, applied, drop_if,
  is_empty_value, is_false, is_signal, object_of,
}
use rtc_asr.Messages.Frames.{compact, is_bare, decode_json_payload, signal_payload, parse_signal}
use rtc_asr.Messages.Objects.{lookup-drop_if, drop_if_agrees, insert_same, str_eq→eq, lookup_field}

-- The fields of a ping or pong.
abbrev IsSignalField : String → Type 0
IsSignalField key =
    ("type" ≡ key) ⊎ (("ping_id" ≡ key) ⊎ (("timestamp_ms" ≡ key) ⊎ ("metadata" ≡ key)))

-- What the code relies on of pydantic and json: a message that has been validated is dumped with the type of
-- its class, a start message with its audio, a ping or pong with its own fields only; and json.loads
-- gives back the dictionary of a message that json.dumps has written, with or without two of its fields.
pub record Laws {M : Type 0} (lib : Library M) : Type 0 where
  pub dumps_type :
      (m : M) → lookup "type" (lib.dump m) ≡ some (string (codes (kind_name (lib.kind m))))
  pub dumps_audio : (m : M) → lib.kind m ≡ start → has_key "audio" (lib.dump m) ≡ true
  pub dumps_signal :
      (m : M) (key : String)
      → is_signal (lib.kind m) ≡ true
      → (lookup key (lib.dump m) ≡ none) ⊎ IsSignalField key
  pub loads_nothing : lib.loads [] ≡ none
  pub loads_back :
      (m : M) (a b : Bool)
      → let d = drop_if b "finalize_on_stable_partial" (drop_if a "metadata" (lib.dump m)) in
        lib.loads (lib.dumps d) ≡ some (object d)

-- A field that the compact form may leave out: empty metadata, or a false flag.
abbrev pub IsDefault : String → Fields → Type 0
IsDefault key full =
    (("metadata" ≡ key) × (is_empty_value (get_or "metadata" (object end) full) ≡ true))
    ⊎ (("finalize_on_stable_partial" ≡ key)
        × (is_false (get "finalize_on_stable_partial" full) ≡ true))

-- `d` has the fields of `full`, except defaults.
abbrev pub Carries : Fields → Fields → Type 0
Carries d full = (key : String) → (lookup key d ≡ lookup key full) ⊎ IsDefault key full

if_true {ℓ} : {A : Type ℓ} {b : Bool} (x y : A) → b ≡ true → (if b then x else y) ≡ x
if_true x y e = rw e refl

either_right : (a b : Bool) → b ≡ true → (a || b) ≡ true
either_right a b h = ground arith

unless_or : (a b : Bool) → a ≡ false → (not a || b) ≡ true
unless_or a b h = ground arith

abbrev pub carries_json : RawUdsFrameType → Bool
carries_json audio_pcm16 = false
carries_json t = true

abbrev type_in : Option Value → Value
type_in o = elim o [ none ↦ null | some v ↦ v ]

found_empty :
    (o : Option Value)
    → is_empty_value (type_in o) ≡ true
    → is_empty_value (elim o [ none ↦ object end | some v ↦ v ]) ≡ true
found_empty none e = refl
found_empty (some v) e = e

none_of : (o : Option Value) → elim o [ none ↦ false | some v ↦ true ] ≡ false → o ≡ none
none_of none e = refl
none_of (some v) e = cc

four : (a b c d : Bool) → (a && not b && not c && d) ≡ true → (b ≡ false) × (c ≡ false) × (d ≡ true)
four a b c d h = ground arith

module _ {M : Type 0} (lib : Library M) (laws : Laws lib) (m : M) where
  abbrev pub name : String
  name = kind_name (lib.kind m)

  -- What stands for a ping or pong frame without a payload.
  abbrev pub bare : Fields
  bare = field "type" (string (codes name)) end

  loads_compact : lib.loads (lib.dumps (compact lib m)) ≡ some (object (compact lib m))
  unfolding compact
  loads_compact =
      let d = lib.dump m in
      let e = drop_if (is_empty_value (get "metadata" d)) "metadata" d in
      laws.loads_back m (is_empty_value (get "metadata" d))
        (is_false (get "finalize_on_stable_partial" e))

  -- The compact form of a message has its fields, except defaults.
  pub compact-Carries : Carries (compact lib m) (lib.dump m)
  unfolding compact
  compact-Carries key =
      let d = lib.dump m in
      let e = drop_if (is_empty_value (get "metadata" d)) "metadata" d in
      elim (drop_if_agrees (is_false (get "finalize_on_stable_partial" e)) key
        "finalize_on_stable_partial" e) [
          | inl last ↦ elim (drop_if_agrees (is_empty_value (get "metadata" d)) key "metadata" d) [
            | inl first ↦ inl (last ∙ first)
            | inr (k, empty) ↦ inr (inl (k, found_empty (lookup "metadata" d) empty))
          ]
          | inr (k, off) ↦ inr (
              inr (
                k,
                ap (λ o. is_false (type_in o))
                      (sym (
                        lookup-drop_if (is_empty_value (get "metadata" d))
                          "finalize_on_stable_partial" "metadata" d refl))
                    ∙ off,
              ))
        ]

  lookup-compact :
      (key : String)
      → str_eq "metadata" key ≡ false
      → str_eq "finalize_on_stable_partial" key ≡ false
      → lookup key (compact lib m) ≡ lookup key (lib.dump m)
  unfolding compact
  lookup-compact key one two =
      let d = lib.dump m in
      let e = drop_if (is_empty_value (get "metadata" d)) "metadata" d in
      lookup-drop_if (is_false (get "finalize_on_stable_partial" e)) key
        "finalize_on_stable_partial" e two
      ∙ lookup-drop_if (is_empty_value (get "metadata" d)) key "metadata" d one

  pub signal_of : is_bare lib m ≡ true → is_signal (lib.kind m) ≡ true
  unfolding is_bare
  signal_of h = ground (arith, h)

  -- So has the empty frame, of a message with defaults alone.
  pub bare-Carries : is_bare lib m ≡ true → Carries bare (lib.dump m)
  unfolding is_bare lookup
  bare-Carries h key =
      let (no_id, no_time, no_metadata) =
        four (is_signal (lib.kind m)) (has_key "ping_id" (lib.dump m))
          (has_key "timestamp_ms" (lib.dump m))
          (is_empty_value (get_or "metadata" (object end) (lib.dump m))) h in
      elim (Bool-cases (str_eq "type" key)) [
        | inl typed ↦
            let k : "type" ≡ key = str_eq→eq "type" key typed in
            inl (
              ap (λ s. lookup s bare) (sym k)
              ∙ sym (laws.dumps_type m)
              ∙ ap (λ s. lookup s (lib.dump m)) k)
        | inr other ↦
            let gone : lookup key bare ≡ none =
              lookup_field key "type" (string (codes name)) end false other in
            elim (laws.dumps_signal m key (signal_of h)) [
              | inl absent ↦ inl (gone ∙ sym absent)
              | inr (inl k) ↦
                  let same : str_eq "type" key ≡ true = ap (λ s. str_eq "type" s) (sym k) in cc
              | inr (inr (inl k)) ↦ inl (
                  gone
                  ∙ sym (none_of (lookup "ping_id" (lib.dump m)) no_id)
                  ∙ ap (λ s. lookup s (lib.dump m)) k)
              | inr (inr (inr (inl k))) ↦ inl (
                  gone
                  ∙ sym (none_of (lookup "timestamp_ms" (lib.dump m)) no_time)
                  ∙ ap (λ s. lookup s (lib.dump m)) k)
              | inr (inr (inr (inr k))) ↦ inr (inl (k, no_metadata))
            ]
      ]

  compact-type : lookup "type" (compact lib m) ≡ some (string (codes name))
  compact-type = lookup-compact "type" refl refl ∙ laws.dumps_type m

  compact-audio : lib.kind m ≡ start → has_key "audio" (compact lib m) ≡ true
  compact-audio e =
      ap (λ (o : Option Value). elim o [ none ↦ false | some v ↦ true ])
        (lookup-compact "audio" refl refl)
      ∙ laws.dumps_audio m e

  type_is : get "type" (compact lib m) ≡ string (codes name)
  type_is = ap type_in compact-type

  other_kind :
      is_text (get "type" (compact lib m)) "start" ≡ false
      → (not (is_text (get "type" (compact lib m)) "start") || has_key "audio" (compact lib m))
        ≡ true
  other_kind = unless_or _ (has_key "audio" (compact lib m))

  -- The translation of flat start messages leaves a dumped message alone.
  untranslated :
      (k : Kind)
      → lib.kind m ≡ k
      → (not (is_text (get "type" (compact lib m)) "start") || has_key "audio" (compact lib m))
        ≡ true
  untranslated start e =
      either_right (not (is_text (get "type" (compact lib m)) "start")) _ (compact-audio e)
  untranslated finalize e = other_kind (rw (type_is, e) refl)
  untranslated cancel e = other_kind (rw (type_is, e) refl)
  untranslated close e = other_kind (rw (type_is, e) refl)
  untranslated ping e = other_kind (rw (type_is, e) refl)
  untranslated ready e = other_kind (rw (type_is, e) refl)
  untranslated transcript e = other_kind (rw (type_is, e) refl)
  untranslated warning e = other_kind (rw (type_is, e) refl)
  untranslated error e = other_kind (rw (type_is, e) refl)
  untranslated pong e = other_kind (rw (type_is, e) refl)
  untranslated closed e = other_kind (rw (type_is, e) refl)

  pub normal : normalize_control (compact lib m) ≡ ok (compact lib m)
  unfolding normalize_control
  normal = if_true (ok (compact lib m)) _ (untranslated (lib.kind m) refl)

  pub enveloped : apply_envelope_type (compact lib m) name ≡ ok (compact lib m)
  unfolding apply_envelope_type
  enveloped =
      ap (λ v. applied v (compact lib m) name) type_is
      ∙ if_true (ok (insert "type" (string (codes name)) (compact lib m))) _
          (text_eq_self (codes name))
      ∙ ap ok (insert_same "type" (string (codes name)) (compact lib m) compact-type)

  pub decoded :
      (t : RawUdsFrameType)
      → carries_json t ≡ true
      → decode_json_payload lib t (lib.dumps (compact lib m)) ≡ ok (compact lib m)
  unfolding decode_json_payload
  decoded audio_pcm16 e = cc
  decoded json_control e = ap object_of loads_compact
  decoded json_event e = ap object_of loads_compact
  decoded Wire.error e = ap object_of loads_compact
  decoded Wire.ping e = ap object_of loads_compact
  decoded Wire.pong e = ap object_of loads_compact

  not_nothing :
      (t : RawUdsFrameType) (p : List ℕ) (v : Value)
      → lib.loads p ≡ some v
      → signal_payload lib t p ≡ decode_json_payload lib t p
  not_nothing t [] v e = let never : none ≡ some v = sym laws.loads_nothing ∙ e in cc
  not_nothing t (b ∷ p) v e = refl

  -- A ping or pong frame with the message, and the empty frame.
  pub signal_read :
      (parse : Fields → Result Failure M) (t : RawUdsFrameType)
      → carries_json t ≡ true
      → parse_signal lib parse t (lib.dumps (compact lib m)) name ≡ parse (compact lib m)
  signal_read parse t e =
      ap (λ r. r >>= λ p. apply_envelope_type p name >>= parse)
        (not_nothing t (lib.dumps (compact lib m)) (object (compact lib m)) loads_compact
          ∙ decoded t e)
      ∙ ap (λ r. r >>= parse) enveloped

  pub bare_read :
      (parse : Fields → Result Failure M) (t : RawUdsFrameType)
      → parse_signal lib parse t [] name ≡ parse bare
  unfolding apply_envelope_type lookup insert
  bare_read parse t = refl
