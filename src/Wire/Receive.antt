-- ===== src/Wire/Receive.antt =====
-- Frames read from a socket one after the other: `_receive_raw_uds_event` of src/main.py up to the frame.
-- `readexactly` waits for its bytes, so that what counts is the bytes up to the end of the stream.
use rtc_asr.Prelude.{
  ℕ, ◌<◌, ◌≡◌, refl, sym, ap, ◌∙◌, inl, inr, true, false, Option, none, some, List, [], ◌∷◌, ◌++◌,
  length, take, drop, ltb, ◌==◌, if◌then◌else◌, arith, Result, ok, err, Bool-cases, lt→ltb,
  length-take,
}
use rtc_asr.Wire.{
  Code, unsupported_frame_type, payload_too_large, incomplete_frame, frame_length_mismatch,
  RawUdsFrameType, RawUdsFrame, type_of_value, bytes, unpack_header, header_bytes,
  max_payload_bytes, decode_raw_uds_frame,
}
use rtc_asr.Wire.Decoder.{Found, incomplete, frame, malformed, next_frame}
use rtc_asr.Wire.Decoder.Front.{declared, behind, next_frame-header}
use rtc_asr.Wire.RoundTrip.{decode-header, decoded}

-- The stream has ended between two frames, an error with its code, or a frame and the bytes behind it.
pub data Received : Type 0 where
  disconnected : Received
  failed : Code → Received
  received : RawUdsFrame → List ℕ → Received

-- `reader.readexactly(n)`, nothing where the stream ends before.
abbrev pub read_exactly : ℕ → List ℕ → Option (List ℕ × List ℕ)
read_exactly n input = if ltb (length input) n then none else some (take n input, drop n input)

abbrev pub decoded_as : List ℕ → Result Code RawUdsFrame → Received
decoded_as rest (ok f) = received f rest
decoded_as rest (err c) = failed c

abbrev pub with_payload : List ℕ → Option (List ℕ × List ℕ) → Received
with_payload header none = failed incomplete_frame
with_payload header (some (payload, rest)) =
    decoded_as rest (decode_raw_uds_frame (bytes (header ++ payload)))

abbrev pub with_type : List ℕ → List ℕ → Option RawUdsFrameType → ℕ → Received
with_type header rest none n = failed unsupported_frame_type
with_type header rest (some t) n =
    if ltb max_payload_bytes n
    then failed payload_too_large
    else with_payload header (read_exactly n rest)

abbrev pub unpacked : List ℕ → List ℕ → Option (ℕ × ℕ) → Received
unpacked header rest none = failed incomplete_frame
unpacked header rest (some (t, n)) = with_type header rest (type_of_value t) n

abbrev pub ended_early : List ℕ → Received
ended_early partial = if length partial == 0 then disconnected else failed incomplete_frame

abbrev pub with_header : List ℕ → Option (List ℕ × List ℕ) → Received
with_header input none = ended_early input
with_header input (some (header, rest)) = unpacked header rest (unpack_header header)

unfoldable pub receive_frame : List ℕ → Received
unfolding unpack_header
receive_frame input = with_header input (read_exactly header_bytes input)

-- What the incremental decoder finds at the front of the whole stream.
abbrev pub as_received : List ℕ → Found → Received
as_received input incomplete = ended_early input
as_received input (frame f rest) = received f rest
as_received input (malformed c) = failed c

receive-header :
    (t a b c d : ℕ) (r : List ℕ)
    → receive_frame (t ∷ a ∷ b ∷ c ∷ d ∷ r)
      ≡ with_type (t ∷ a ∷ b ∷ c ∷ d ∷ []) r (type_of_value t) (declared a b c d)
unfolding receive_frame
receive-header t a b c d r = ground arith

receive-short : (input : List ℕ) → length input < 5 → receive_frame input ≡ ended_early input
unfolding receive_frame
receive-short input h = rw (lt→ltb (length input) 5 h) refl

next-short : (input : List ℕ) → length input < 5 → next_frame input ≡ incomplete
unfolding next_frame
next-short input h = rw (lt→ltb (length input) 5 h) refl

whole_payload : (n : ℕ) (r : List ℕ) → ltb (length r) n ≡ false → (length (take n r) == n) ≡ true
whole_payload n r h = ground (arith, length-take n r)

decoded-taken :
    (o : Option RawUdsFrameType) (ty : RawUdsFrameType) (n : ℕ) (r : List ℕ)
    → o ≡ some ty
    → ltb max_payload_bytes n ≡ false
    → ltb (length r) n ≡ false
    → decoded o n (take n r) ≡ ok (record { frame_type = ty; payload = take n r })
decoded-taken none ty n r e small whole = cc
decoded-taken (some t) ty n r e small whole =
    let same : t ≡ ty = cc in
    ap
      (λ b.
        if b
        then err payload_too_large
        else if length (take n r) == n
        then ok (record { frame_type = t; payload = take n r })
        else err frame_length_mismatch)
      small
    ∙ ap
        (λ b.
          if b
          then ok (record { frame_type = t; payload = take n r })
          else err frame_length_mismatch)
        (whole_payload n r whole)
    ∙ ap (λ x. ok (record { frame_type = x; payload = take n r })) same

module _ (t a b c d : ℕ) (r : List ℕ) where
  abbrev size : ℕ
  size = declared a b c d

  abbrev header : List ℕ
  header = t ∷ a ∷ b ∷ c ∷ d ∷ []

  abbrev input : List ℕ
  input = t ∷ a ∷ b ∷ c ∷ d ∷ r

  -- The payload comes, or the stream ends inside it.
  payload_lem :
      (ty : RawUdsFrameType)
      → type_of_value t ≡ some ty
      → ltb max_payload_bytes size ≡ false
      → with_payload header (read_exactly size r)
        ≡ as_received input (
            if ltb (length r) size
            then incomplete
            else frame (record { frame_type = ty; payload = take size r }) (drop size r))
  payload_lem ty e small = elim (Bool-cases (ltb (length r) size)) [
    | inl short ↦ rw short (ground arith)
    | inr whole ↦ rw whole (
        ap (decoded_as (drop size r)) (
          decode-header t a b c d (take size r)
          ∙ decoded-taken (type_of_value t) ty size r e small whole))
  ]

  type_lem :
      (o : Option RawUdsFrameType)
      → type_of_value t ≡ o
      → with_type header r o size ≡ as_received input (behind o size r)
  type_lem none e = refl
  type_lem (some ty) e = elim (Bool-cases (ltb max_payload_bytes size)) [
    | inl large ↦ rw large refl
    | inr small ↦ rw small (payload_lem ty e small)
  ]

-- Reading one frame after the other from the socket and the incremental decoder are the same: on the bytes up
-- to the end of the stream, `receive_frame` gives the frame, the rest or the error that a round of the
-- decoder gives; where that finds no whole frame, the stream has ended, between two frames if there is
-- no byte left.
pub receive_frame-next_frame :
    (input : List ℕ) → receive_frame input ≡ as_received input (next_frame input)
receive_frame-next_frame (t ∷ a ∷ b ∷ c ∷ d ∷ r) =
    receive-header t a b c d r
    ∙ type_lem t a b c d r (type_of_value t) refl
    ∙ sym (ap (as_received (t ∷ a ∷ b ∷ c ∷ d ∷ r)) (next_frame-header t a b c d r))
receive_frame-next_frame input =
    receive-short input (omega arith)
    ∙ sym (ap (as_received input) (next-short input (omega arith)))
