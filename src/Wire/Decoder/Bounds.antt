-- ===== src/Wire/Decoder/Bounds.antt =====
-- How much the decoder can hold, whatever is fed to it.
use rtc_asr.Prelude.{
  ℕ, zero, suc, ◌+◌, ◌<◌, ◌≡◌, refl, sym, ◌∙◌, inl, inr, List, [], ◌∷◌, ◌++◌, length, arith, err,
}
use rtc_asr.Wire.{
  RawUdsFrame, Code, BytesArgument, bytes, text, other, header_bytes, max_payload_bytes,
}
use rtc_asr.Wire.Decoder.{
  RawUdsFrameDecoder, empty_decoder, incomplete, next_frame, Outcome, done, failed, stuck, drain,
  feed, reset, finish, finish_buffer, settle, feed_loop, buffered_bytes,
}
use rtc_asr.Wire.Decoder.Front.{next_frame-incomplete_bound, next_frame-short}
use rtc_asr.Wire.Decoder.Loop.{Found-cases, loop_out, loop_incomplete, loop_malformed, loop_frame}

-- No complete frame, and no malformed header, waits in the buffer.
abbrev pub IsWaiting : RawUdsFrameDecoder → Type 0
IsWaiting d = next_frame d.buffer ≡ incomplete

feed_loop-rest :
    (n : ℕ) (buf rest : List ℕ) (fs gs : List RawUdsFrame)
    → feed_loop n buf fs ≡ done gs rest
    → next_frame rest ≡ incomplete
feed_loop-rest zero buf rest fs gs e = cc (loop_out buf fs)
feed_loop-rest (suc n) buf rest fs gs e = elim (Found-cases (next_frame buf)) [
  | inl w ↦ let same : buf ≡ rest = cc (loop_incomplete n buf fs w) in rw same at w
  | inr (inl (f, r, w)) ↦
      feed_loop-rest n r rest (fs ++ f ∷ []) gs (sym (loop_frame n buf fs f r w) ∙ e)
  | inr (inr (c, w)) ↦ cc (loop_malformed n buf fs c w)
]

settle-IsWaiting :
    (d : RawUdsFrameDecoder) (buf : List ℕ) (o : Outcome)
    → IsWaiting d
    → drain buf ≡ o
    → IsWaiting (settle d o).1
settle-IsWaiting d buf (done fs rest) h e = feed_loop-rest (suc (length buf)) buf rest [] fs e
settle-IsWaiting d buf (failed c) h e = next_frame-short [] (omega arith)
settle-IsWaiting d buf stuck h e = h

feed-IsWaiting :
    (d : RawUdsFrameDecoder) (chunk : BytesArgument) → IsWaiting d → IsWaiting (feed d chunk).1
unfolding feed
feed-IsWaiting d (bytes []) h = h
feed-IsWaiting d (bytes (b ∷ bs)) h =
    settle-IsWaiting d (d.buffer ++ b ∷ bs) (drain (d.buffer ++ b ∷ bs)) h refl
feed-IsWaiting d (text s) h = h
feed-IsWaiting d other h = h

-- What an owner of a decoder may call.
pub data Call : Type 0 where
  feeds : BytesArgument → Call
  resets finishes : Call

pub call : RawUdsFrameDecoder → Call → RawUdsFrameDecoder
call d (feeds chunk) = (feed d chunk).1
call d resets = (reset d).1
call d finishes = (finish d).1

pub run : RawUdsFrameDecoder → List Call → RawUdsFrameDecoder
run d [] = d
run d (c ∷ cs) = run (call d c) cs

finish-IsWaiting : (buf : List ℕ) → IsWaiting (finish_buffer buf).1
finish-IsWaiting [] = next_frame-short [] (omega arith)
finish-IsWaiting (b ∷ rest) = next_frame-short [] (omega arith)

call-IsWaiting : (d : RawUdsFrameDecoder) (c : Call) → IsWaiting d → IsWaiting (call d c)
unfolding call reset finish
call-IsWaiting d (feeds chunk) h = feed-IsWaiting d chunk h
call-IsWaiting d resets h = next_frame-short [] (omega arith)
call-IsWaiting d finishes h = finish-IsWaiting d.buffer

run-IsWaiting : (d : RawUdsFrameDecoder) (cs : List Call) → IsWaiting d → IsWaiting (run d cs)
unfolding run
run-IsWaiting d [] h = h
run-IsWaiting d (c ∷ cs) h = run-IsWaiting (call d c) cs (call-IsWaiting d c h)

-- After any calls, failed ones included, a decoder that started empty holds no complete frame, and
-- less than one header and one largest payload: 8 MiB and 5 bytes.
pub run-bound :
    (cs : List Call)
    → IsWaiting (run empty_decoder cs)
      × (buffered_bytes (run empty_decoder cs) < header_bytes + max_payload_bytes)
unfolding buffered_bytes
run-bound cs =
    let waits = run-IsWaiting empty_decoder cs (next_frame-short [] (omega arith)) in
    (waits, next_frame-incomplete_bound (run empty_decoder cs).buffer waits)

-- A chunk that raises leaves the buffer empty.
feed-err :
    (d : RawUdsFrameDecoder) (chunk : List ℕ) (c : Code)
    → (feed d (bytes chunk)).0 ≡ err c
    → (feed d (bytes chunk)).1 ≡ empty_decoder
unfolding feed
feed-err d [] c e = cc
feed-err d (b ∷ bs) c e = ground arith
