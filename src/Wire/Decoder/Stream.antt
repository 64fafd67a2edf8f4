-- ===== src/Wire/Decoder/Stream.antt =====
-- What the incremental decoder promises: it does not matter how the socket cuts the byte stream.
use rtc_asr.Prelude.{
  ℕ, zero, suc, ◌<◌, ◌≡◌, ◌≢◌, refl, sym, ap, ◌⊎◌, inl, inr, List, [], ◌∷◌, ◌++◌, append_assoc,
  append-nil, length, arith, Result, ok, err, All,
}
use mathlib.Core.Path.{fun_ext}
use rtc_asr.Wire.{RawUdsFrame, Code, bytes, pack_header}
use rtc_asr.Wire.Decoder.{
  RawUdsFrameDecoder, empty_decoder, Outcome, done, failed, stuck, drain, feed, settle, feed_loop,
}
use rtc_asr.Wire.Decoder.Front.{next_frame-frame_shrinks, next_frame-short}
use rtc_asr.Wire.Decoder.Loop.{
  feed_loop-ne-stuck, prepend, feed_loop-append, feed_loop-append_failed, feed_loop-frame,
  loop_incomplete,
}
use rtc_asr.Wire.RoundTrip.{IsFrame, framed, next_frame-framed}

-- The two ways in which draining a buffer can end.
drain-cases :
    (buf : List ℕ)
    → ((fs : List RawUdsFrame) × (rest : List ℕ) × (drain buf ≡ done fs rest))
      ⊎ ((c : Code) × (drain buf ≡ failed c))
drain-cases buf = by_outcome (drain buf) refl
  where
    by_outcome :
        (o : Outcome)
        → drain buf ≡ o
        → ((fs : List RawUdsFrame) × (rest : List ℕ) × (drain buf ≡ done fs rest))
          ⊎ ((c : Code) × (drain buf ≡ failed c))
    by_outcome (done fs rest) e = inl (fs, rest, e)
    by_outcome (failed c) e = inr (c, e)
    by_outcome stuck e = absurd (feed_loop-ne-stuck (suc (length buf)) buf [] (omega arith) e)

pub feed-nil : (d : RawUdsFrameDecoder) → feed d (bytes []) ≡ (ok [], d)
unfolding feed pack_header
feed-nil d = refl

pub feed-cons :
    (d : RawUdsFrameDecoder) (b : ℕ) (bs : List ℕ)
    → feed d (bytes (b ∷ bs)) ≡ settle d (drain (d.buffer ++ b ∷ bs))
unfolding feed pack_header
feed-cons d b bs = refl

-- The frames of an earlier call, put before what a later call returns.
abbrev pub after :
    List RawUdsFrame
    → Result Code (List RawUdsFrame) × RawUdsFrameDecoder
    → Result Code (List RawUdsFrame) × RawUdsFrameDecoder
after fs (ok gs, d) = (ok (fs ++ gs), d)
after fs (err c, d) = (err c, d)

settle-prepend :
    (d e : RawUdsFrameDecoder) (fs : List RawUdsFrame) (o : Outcome)
    → o ≢ stuck
    → settle d (prepend fs o) ≡ after fs (settle e o)
settle-prepend d e fs (done gs r) h = refl
settle-prepend d e fs (failed c) h = refl
settle-prepend d e fs stuck h = absurd (h refl)

module _ (d : RawUdsFrameDecoder) (b : ℕ) (xs : List ℕ) where
  feed-append_done :
      (ys : List ℕ) (fs : List RawUdsFrame) (rest : List ℕ)
      → drain (d.buffer ++ b ∷ xs) ≡ done fs rest
      → feed d (bytes (b ∷ (xs ++ ys))) ≡ after fs (feed (record { buffer = rest }) (bytes ys))
  feed-append_done [] fs rest e =
      rw (append-nil xs, feed-cons d b xs, e, feed-nil (record { buffer = rest }), append-nil fs)
  feed-append_done (y ∷ ys) fs rest e =
      let e' : RawUdsFrameDecoder = record { buffer = rest } in
      rw
        (
          feed-cons d b (xs ++ y ∷ ys),
          feed-cons e' y ys,
          ← append_assoc d.buffer (b ∷ xs) (y ∷ ys),
          feed_loop-append (suc (length (d.buffer ++ b ∷ xs)))
              (suc (length ((d.buffer ++ b ∷ xs) ++ y ∷ ys))) (suc (length (rest ++ y ∷ ys)))
              (d.buffer ++ b ∷ xs) (y ∷ ys) rest fs (omega arith) (omega arith) (omega arith) e,
        )
        (settle-prepend d e' fs (drain (rest ++ y ∷ ys))
          (feed_loop-ne-stuck (suc (length (rest ++ y ∷ ys))) (rest ++ y ∷ ys) [] (omega arith)))

  feed-append_failed :
      (ys : List ℕ) (c : Code)
      → drain (d.buffer ++ b ∷ xs) ≡ failed c
      → feed d (bytes (b ∷ (xs ++ ys))) ≡ (err c, empty_decoder)
  feed-append_failed ys c e = rw (
    feed-cons d b (xs ++ ys),
    ← append_assoc d.buffer (b ∷ xs) ys,
    feed_loop-append_failed (suc (length (d.buffer ++ b ∷ xs)))
        (suc (length ((d.buffer ++ b ∷ xs) ++ ys))) (d.buffer ++ b ∷ xs) ys c (omega arith) e,
  )

-- A second chunk after a first one that was accepted, or that was refused.
abbrev pub and_then :
    Result Code (List RawUdsFrame) × RawUdsFrameDecoder
    → (RawUdsFrameDecoder → Result Code (List RawUdsFrame) × RawUdsFrameDecoder)
    → Result Code (List RawUdsFrame) × RawUdsFrameDecoder
and_then (ok fs, d) next = after fs (next d)
and_then (err c, d) next = (err c, d)

after-nil : (r : Result Code (List RawUdsFrame) × RawUdsFrameDecoder) → r ≡ after [] r
after-nil (ok fs, d) = refl
after-nil (err c, d) = refl

-- Feeding two chunks one after the other is feeding them as one: the frames, or the error, and the
-- bytes that stay buffered are the same. A first chunk that raises is where the one call raises too.
pub feed-append :
    (d : RawUdsFrameDecoder) (xs ys : List ℕ)
    → feed d (bytes (xs ++ ys)) ≡ and_then (feed d (bytes xs)) (λ e. feed e (bytes ys))
feed-append d [] ys = rw (feed-nil d) (after-nil (feed d (bytes ys)))
feed-append d (b ∷ xs) ys = elim (drain-cases (d.buffer ++ b ∷ xs)) [
  | inl (fs, rest, e) ↦ rw (feed-cons d b xs, e) (feed-append_done d b xs ys fs rest e)
  | inr (c, e) ↦ rw (feed-cons d b xs, e) (feed-append_failed d b xs ys c e)
]

-- Chunks read from a socket, one call each.
pub feed_all :
    RawUdsFrameDecoder → List (List ℕ) → Result Code (List RawUdsFrame) × RawUdsFrameDecoder
feed_all d [] = (ok [], d)
feed_all d (chunk ∷ chunks) = and_then (feed d (bytes chunk)) (λ e. feed_all e chunks)

unfoldable pub joined : List (List ℕ) → List ℕ
joined [] = []
joined (chunk ∷ chunks) = chunk ++ joined chunks

feed_all-joined :
    (d : RawUdsFrameDecoder) (chunks : List (List ℕ))
    → feed_all d chunks ≡ feed d (bytes (joined chunks))
unfolding feed_all joined
feed_all-joined d [] = sym (feed-nil d)
feed_all-joined d (chunk ∷ chunks) =
    rw (feed-append d chunk (joined chunks))
      (ap (and_then (feed d (bytes chunk))) (fun_ext (λ e. feed_all-joined e chunks)))

-- The bytes of a sequence of frames, one behind the other.
abbrev pub encoded : List RawUdsFrame → List ℕ
encoded [] = []
encoded (f ∷ fs) = framed f ++ encoded fs

drain-encoded :
    (n : ℕ) (fs : List RawUdsFrame)
    → All IsFrame fs
    → length (encoded fs) < n
    → feed_loop n (encoded fs) [] ≡ done fs []
drain-encoded zero fs h k = absurd (omega arith)
drain-encoded (suc n) [] h k = loop_incomplete n [] [] (next_frame-short [] (omega arith))
drain-encoded (suc n) (f ∷ fs) h k =
    let cut = next_frame-framed f (encoded fs) h.0 in
    let shrinks = next_frame-frame_shrinks (framed f ++ encoded fs) (encoded fs) f cut in
    rw (
      feed_loop-frame n (framed f ++ encoded fs) (encoded fs) f cut,
      drain-encoded n fs h.1 (omega arith),
    )

feed-encoded :
    (fs : List RawUdsFrame)
    → All IsFrame fs
    → feed empty_decoder (bytes (encoded fs)) ≡ (ok fs, empty_decoder)
unfolding feed pack_header
feed-encoded [] h = refl
feed-encoded (f ∷ fs) h =
    rw (drain-encoded (suc (length (encoded (f ∷ fs)))) (f ∷ fs) h (omega arith))

-- However a socket cuts the bytes of encoded frames into chunks, the decoder returns exactly those
-- frames, in order, and ends with an empty buffer.
pub feed_all-encoded :
    (fs : List RawUdsFrame) (chunks : List (List ℕ))
    → All IsFrame fs
    → joined chunks ≡ encoded fs
    → feed_all empty_decoder chunks ≡ (ok fs, empty_decoder)
feed_all-encoded fs chunks h e = rw (feed_all-joined empty_decoder chunks, e) (feed-encoded fs h)
