-- ===== src/Wire/Decoder/Loop.antt =====
-- The decoder's `while` loop: it ends, its fuel does not matter, and it may be cut anywhere.
use rtc_asr.Prelude.{
  ℕ, zero, suc, ◌<◌, ◌≡◌, ◌≢◌, refl, sym, ap, ◌∙◌, ◌⊎◌, inl, inr, List, [], ◌∷◌, ◌++◌, append_assoc,
  length, length-append, arith,
}
use rtc_asr.Wire.{RawUdsFrame, Code}
use rtc_asr.Wire.Decoder.{
  Found, incomplete, frame, malformed, next_frame, Outcome, done, failed, stuck, feed_loop,
}
use rtc_asr.Wire.Decoder.Front.{
  next_frame-append_frame, next_frame-append_malformed, next_frame-frame_shrinks,
}

pub Found-cases :
    (x : Found)
    → (x ≡ incomplete)
      ⊎ ((f : RawUdsFrame) × (rest : List ℕ) × (x ≡ frame f rest))
      ⊎ ((c : Code) × (x ≡ malformed c))
Found-cases incomplete = inl refl
Found-cases (frame f rest) = inr (inl (f, rest, refl))
Found-cases (malformed c) = inr (inr (c, refl))

pub loop_out : (buf : List ℕ) (fs : List RawUdsFrame) → feed_loop zero buf fs ≡ stuck
unfolding feed_loop
loop_out buf fs = refl

module _ (n : ℕ) (buf : List ℕ) (fs : List RawUdsFrame) where
  pub loop_incomplete : next_frame buf ≡ incomplete → feed_loop (suc n) buf fs ≡ done fs buf
  unfolding feed_loop
  loop_incomplete w = rw (w, feed_loop)

  pub loop_malformed :
      (c : Code) → next_frame buf ≡ malformed c → feed_loop (suc n) buf fs ≡ failed c
  unfolding feed_loop
  loop_malformed c w = rw (w, feed_loop)

  pub loop_frame :
      (f : RawUdsFrame) (rest : List ℕ)
      → next_frame buf ≡ frame f rest
      → feed_loop (suc n) buf fs ≡ feed_loop n rest (fs ++ f ∷ [])
  unfolding feed_loop
  loop_frame f rest w = rw (w, feed_loop)

-- With more rounds of fuel than bytes in the buffer the loop ends by itself.
pub feed_loop-ne-stuck :
    (n : ℕ) (buf : List ℕ) (fs : List RawUdsFrame) → length buf < n → feed_loop n buf fs ≢ stuck
feed_loop-ne-stuck zero buf fs h e = absurd (omega arith)
feed_loop-ne-stuck (suc n) buf fs h e = elim (Found-cases (next_frame buf)) [
  | inl w ↦ cc (loop_incomplete n buf fs w)
  | inr (inl (f, rest, w)) ↦
      let shrinks = next_frame-frame_shrinks buf rest f w in
      feed_loop-ne-stuck n rest (fs ++ f ∷ []) (omega arith)
        (sym (loop_frame n buf fs f rest w) ∙ e)
  | inr (inr (c, w)) ↦ cc (loop_malformed n buf fs c w)
]

pub feed_loop-fuel :
    (n m : ℕ) (buf : List ℕ) (fs : List RawUdsFrame)
    → length buf < n
    → length buf < m
    → feed_loop n buf fs ≡ feed_loop m buf fs
feed_loop-fuel zero m buf fs h k = absurd (omega arith)
feed_loop-fuel (suc n) zero buf fs h k = absurd (omega arith)
feed_loop-fuel (suc n) (suc m) buf fs h k = elim (Found-cases (next_frame buf)) [
  | inl w ↦ rw (loop_incomplete n buf fs w, loop_incomplete m buf fs w)
  | inr (inl (f, rest, w)) ↦
      let shrinks = next_frame-frame_shrinks buf rest f w in
      rw (loop_frame n buf fs f rest w, loop_frame m buf fs f rest w)
        (feed_loop-fuel n m rest (fs ++ f ∷ []) (omega arith) (omega arith))
  | inr (inr (c, w)) ↦ rw (loop_malformed n buf fs c w, loop_malformed m buf fs c w)
]

abbrev pub prepend : List RawUdsFrame → Outcome → Outcome
prepend fs (done gs rest) = done (fs ++ gs) rest
prepend fs (failed c) = failed c
prepend fs stuck = stuck

pub prepend-prepend :
    (fs gs : List RawUdsFrame) (o : Outcome) → prepend (fs ++ gs) o ≡ prepend fs (prepend gs o)
prepend-prepend fs gs (done hs rest) = ap (λ l. done l rest) (append_assoc fs gs hs)
prepend-prepend fs gs (failed c) = refl
prepend-prepend fs gs stuck = refl

feed_loop-prepend :
    (n : ℕ) (buf : List ℕ) (fs gs : List RawUdsFrame)
    → feed_loop n buf (fs ++ gs) ≡ prepend fs (feed_loop n buf gs)
unfolding feed_loop
feed_loop-prepend zero buf fs gs = refl
feed_loop-prepend (suc n) buf fs gs = elim (Found-cases (next_frame buf)) [
  | inl w ↦ rw (loop_incomplete n buf (fs ++ gs) w, loop_incomplete n buf gs w)
  | inr (inl (f, rest, w)) ↦
      rw
        (
          loop_frame n buf (fs ++ gs) f rest w,
          loop_frame n buf gs f rest w,
          append_assoc fs gs (f ∷ []),
        )
        (feed_loop-prepend n rest fs (gs ++ f ∷ []))
  | inr (inr (c, w)) ↦ rw (loop_malformed n buf (fs ++ gs) c w, loop_malformed n buf gs c w)
]

-- The first round of a run that starts with no frame.
pub feed_loop-frame :
    (n : ℕ) (buf rest : List ℕ) (f : RawUdsFrame)
    → next_frame buf ≡ frame f rest
    → feed_loop (suc n) buf [] ≡ prepend (f ∷ []) (feed_loop n rest [])
feed_loop-frame n buf rest f w = loop_frame n buf [] f rest w ∙ feed_loop-prepend n rest (f ∷ []) []

prepend-eq-done :
    (f : RawUdsFrame) (o : Outcome) (fs : List RawUdsFrame) (rest : List ℕ)
    → prepend (f ∷ []) o ≡ done fs rest
    → (gs : List RawUdsFrame) × (o ≡ done gs rest) × (fs ≡ f ∷ gs)
prepend-eq-done f (done gs r) fs rest h = (gs, cc, cc)
prepend-eq-done f (failed c) fs rest h = cc
prepend-eq-done f stuck fs rest h = cc

prepend-eq-failed :
    (f : RawUdsFrame) (o : Outcome) (c : Code) → prepend (f ∷ []) o ≡ failed c → o ≡ failed c
prepend-eq-failed f (done gs r) c h = cc
prepend-eq-failed f (failed d) c h = h
prepend-eq-failed f stuck c h = cc

prepend-nil : (o : Outcome) → o ≡ prepend [] o
prepend-nil (done gs r) = refl
prepend-nil (failed c) = refl
prepend-nil stuck = refl

resume :
    (m k : ℕ) (buf more rest : List ℕ) (fs : List RawUdsFrame)
    → length (buf ++ more) < m
    → length (rest ++ more) < k
    → done [] buf ≡ done fs rest
    → feed_loop m (buf ++ more) [] ≡ prepend fs (feed_loop k (rest ++ more) [])
resume m k buf more rest fs hm hk p =
    let same : buf ≡ rest = cc in
    let no_frames : fs ≡ [] = cc in
    rw (no_frames, ← prepend-nil (feed_loop k (rest ++ more) []), same)
      (feed_loop-fuel m k (rest ++ more) [] (rw same at hm) hk)

-- A loop that stopped for lack of bytes goes on where it stopped when more bytes come.
pub feed_loop-append :
    (n m k : ℕ) (buf more rest : List ℕ) (fs : List RawUdsFrame)
    → length buf < n
    → length (buf ++ more) < m
    → length (rest ++ more) < k
    → feed_loop n buf [] ≡ done fs rest
    → feed_loop m (buf ++ more) [] ≡ prepend fs (feed_loop k (rest ++ more) [])
feed_loop-append zero m k buf more rest fs h hm hk e = absurd (omega arith)
feed_loop-append (suc n) zero k buf more rest fs h hm hk e = absurd (omega arith)
feed_loop-append (suc n) (suc m) k buf more rest fs h hm hk e =
    elim (Found-cases (next_frame buf)) [
      | inl w ↦ resume (suc m) k buf more rest fs hm hk (sym (loop_incomplete n buf [] w) ∙ e)
      | inr (inl (f, r, w)) ↦
          let (gs, tail, all) =
            prepend-eq-done f (feed_loop n r []) fs rest (sym (feed_loop-frame n buf r f w) ∙ e) in
          let shrinks = next_frame-frame_shrinks buf r f w in
          rw
            (
              feed_loop-frame m (buf ++ more) (r ++ more) f
                  (next_frame-append_frame buf more r f w),
              all,
              feed_loop-append n m k r more rest gs (omega arith)
                  (omega (arith, length-append r more, length-append buf more)) hk tail,
            )
            (sym (prepend-prepend (f ∷ []) gs _))
      | inr (inr (c, w)) ↦ cc (loop_malformed n buf [] c w)
    ]

-- A malformed header is found however many bytes follow it.
pub feed_loop-append_failed :
    (n m : ℕ) (buf more : List ℕ) (c : Code)
    → length (buf ++ more) < m
    → feed_loop n buf [] ≡ failed c
    → feed_loop m (buf ++ more) [] ≡ failed c
feed_loop-append_failed zero m buf more c hm e = cc (loop_out buf [])
feed_loop-append_failed (suc n) zero buf more c hm e = absurd (omega arith)
feed_loop-append_failed (suc n) (suc m) buf more c hm e = elim (Found-cases (next_frame buf)) [
  | inl w ↦ cc (loop_incomplete n buf [] w)
  | inr (inl (f, r, w)) ↦
      let shrinks = next_frame-frame_shrinks buf r f w in
      rw (
        feed_loop-frame m (buf ++ more) (r ++ more) f (next_frame-append_frame buf more r f w),
        feed_loop-append_failed n m r more c
            (omega (arith, length-append r more, length-append buf more))
            (prepend-eq-failed f (feed_loop n r []) c (sym (feed_loop-frame n buf r f w) ∙ e)),
      )
  | inr (inr (d, w)) ↦
      loop_malformed m (buf ++ more) [] d (next_frame-append_malformed buf more d w)
      ∙ sym (loop_malformed n buf [] d w)
      ∙ e
]
