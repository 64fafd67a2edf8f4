-- ===== src/Wire/Decoder.antt =====
-- `RawUdsFrameDecoder` of src/protocols/local_stt_v1.py. The buffer is the decoder's state; an error
-- clears it and drops the frames that the same call had already cut.
pub mod Bounds
pub mod Stream
pub mod Loop
pub mod Front
use rtc_asr.Prelude.{
  ℕ, zero, suc, ◌+◌, Option, none, some, List, [], ◌∷◌, ◌++◌, length, take, drop, ltb,
  if◌then◌else◌, Result, ok, err,
}
use rtc_asr.Wire.{
  RawUdsFrameType, Code, payload_too_large, incomplete_frame, RawUdsFrame, BytesArgument, integer,
  parse_frame_type, coerce_bytes_like, unpack_header, header_bytes, max_payload_bytes,
}

pub record RawUdsFrameDecoder : Type 0 where
  pub buffer : List ℕ

abbrev pub empty_decoder : RawUdsFrameDecoder
empty_decoder = record { buffer = [] }

-- What one round of the `while` loop finds at the front of the buffer.
pub data Found : Type 0 where
  incomplete : Found
  frame : RawUdsFrame → List ℕ → Found
  malformed : Code → Found

abbrev cut : List ℕ → RawUdsFrameType → ℕ → Found
cut buffer frame_type payload_length =
    if ltb max_payload_bytes payload_length
    then malformed payload_too_large
    else if ltb (length buffer) (header_bytes + payload_length)
    then incomplete
    else frame
        (record {
          frame_type = frame_type;
          payload = take payload_length (drop header_bytes buffer);
        })
        (drop (header_bytes + payload_length) buffer)

abbrev typed : List ℕ → Result Code RawUdsFrameType → ℕ → Found
typed buffer (err c) payload_length = malformed c
typed buffer (ok t) payload_length = cut buffer t payload_length

abbrev headed : List ℕ → Option (ℕ × ℕ) → Found
headed buffer none = incomplete
headed buffer (some (t, n)) = typed buffer (parse_frame_type (integer t)) n

unfoldable pub next_frame : List ℕ → Found
unfolding unpack_header parse_frame_type
next_frame buffer =
    if ltb (length buffer) header_bytes then incomplete else headed buffer (unpack_header buffer)

-- How the loop ends: with frames and what stays buffered, or by a raise. `stuck` is no Python
-- value: the fuel ran out.
pub data Outcome : Type 0 where
  done : List RawUdsFrame → List ℕ → Outcome
  failed : Code → Outcome
  stuck : Outcome

unfoldable pub feed_loop : ℕ → List ℕ → List RawUdsFrame → Outcome
feed_loop zero buffer frames = stuck
feed_loop (suc fuel) buffer frames = elim (next_frame buffer) [
  | incomplete ↦ done frames buffer
  | malformed c ↦ failed c
  | frame f rest ↦ feed_loop fuel rest (frames ++ f ∷ [])
]

-- Each frame takes five bytes at least, so one round more than there are bytes is enough.
abbrev pub drain : List ℕ → Outcome
drain buffer = feed_loop (suc (length buffer)) buffer []

abbrev settle : RawUdsFrameDecoder → Outcome → Result Code (List RawUdsFrame) × RawUdsFrameDecoder
settle d (done frames rest) = (ok frames, record { buffer = rest })
settle d (failed c) = (err c, empty_decoder)
settle d stuck = (ok [], d)

abbrev feed_chunk :
    RawUdsFrameDecoder → Result Code (List ℕ) → Result Code (List RawUdsFrame) × RawUdsFrameDecoder
feed_chunk d (err c) = (err c, d)
feed_chunk d (ok []) = (ok [], d)
feed_chunk d (ok (b ∷ chunk)) = settle d (drain (d.buffer ++ b ∷ chunk))

unfoldable pub feed :
    RawUdsFrameDecoder → BytesArgument → Result Code (List RawUdsFrame) × RawUdsFrameDecoder
unfolding coerce_bytes_like
feed d chunk = feed_chunk d (coerce_bytes_like chunk)

pub buffered_bytes : RawUdsFrameDecoder → ℕ
buffered_bytes d = length d.buffer

pub reset : RawUdsFrameDecoder → ℕ × RawUdsFrameDecoder
reset d = (length d.buffer, empty_decoder)

abbrev finish_buffer : List ℕ → Result Code (Unit {0}) × RawUdsFrameDecoder
finish_buffer [] = (ok tt, empty_decoder)
finish_buffer (b ∷ rest) = (err incomplete_frame, empty_decoder)

pub finish : RawUdsFrameDecoder → Result Code (Unit {0}) × RawUdsFrameDecoder
finish d = finish_buffer d.buffer
