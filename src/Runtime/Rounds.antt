-- ===== src/Runtime/Rounds.antt =====
-- The order of one stream's transcripts in a round of `_local_stt_asr_worker` of src/main.py.
use rtc_asr.Prelude.{
  ℕ, ◌≡◌, refl, sym, ap, ◌∙◌, inr, Bool, true, false, ◌&&◌, ◌||◌, Option, none, some, List, [], ◌∷◌,
  ◌==◌, if_case,
}
use rtc_asr.Text.{Unicode, is_empty}
use rtc_asr.Session.{
  StreamSession, Transcript, record_partial, record_transcript_stability, note_text,
  normalize_stability_text, next_transcript_revision, should_finalize_stable_partial,
  partial_covers_full_buffer, same_text,
}
use rtc_asr.Runtime.Reader.{read}
use rtc_asr.Runtime.{
  StreamRuntime, Event, waiting, enqueue_transcript, use_partial, publish, keep_partial,
  after_partial, push_or_skip, begin_partial, woken, text_of, nothing_to_do, decode_over, unpushed,
  count_partial,
}
use rtc_asr.Runtime.Reading.{
  ReadsAs, IsOrdered, enqueue_transcript-IsReading, begin_final-IsOrdered, rearm-IsOrdered,
  nor_left, or_right, or_left, final_or_closed, any_over,
}

module _ (k : ℕ) (Q : List Event → Bool → Type 0) (stopped : Bool) where
  abbrev Reads : StreamRuntime → Type 0
  Reads = ReadsAs k Q stopped

  abbrev Ordered : StreamRuntime → Type 0
  Ordered = IsOrdered k Q stopped

  module _ (u : Unicode) where
    publish-IsOrdered :
        (r : StreamRuntime) (t : Transcript) (n : ℕ)
        → Ordered r
        → r.final_emitted ≡ false
        → r.cancel_requested ≡ false
        → r.worker ≡ waiting
        → Ordered (publish r t n)
    unfolding next_transcript_revision
    publish-IsOrdered r t n h fresh going waits =
        let is_final = should_finalize_stable_partial r.session in
        let m = (next_transcript_revision r.session).transcript_revision in
        let reads = enqueue_transcript-IsReading k Q stopped r t is_final n h.reads fresh going in
        if_case Ordered (is_empty (text_of t)) (λ _. rearm-IsOrdered k Q stopped r h)
          (λ _.
            if_case Ordered is_final
              (λ e. record {
                reads = record {
                  read_so_far = reads ∙ ap (λ b. some (read k m b r.cancel_requested)) e;
                  numbered = h.reads.numbered;
                  shut = inr refl;
                  kept = h.reads.kept;
                };
                placed = refl;
              })
              (λ e. rearm-IsOrdered k Q stopped (enqueue_transcript r t is_final n) (record {
                reads = record {
                  read_so_far =
                      reads ∙ ap (λ b. some (read k m b r.cancel_requested)) (e ∙ sym fresh);
                  numbered = h.reads.numbered;
                  shut = h.reads.shut;
                  kept = h.reads.kept;
                };
                placed = h.placed;
              })))

    note_text-stream_id :
        (s : StreamSession) (o : Option (List ℕ)) → (note_text s o).stream_id ≡ s.stream_id
    note_text-stream_id s none = refl
    note_text-stream_id s (some x) =
        if_case (λ (a : StreamSession). a.stream_id ≡ s.stream_id)
          (same_text s.stable_partial_text x) (λ _. refl) (λ _. refl)

    recorded-stream_id :
        (s : StreamSession) (t : Transcript) (c ms : Option ℕ)
        → (record_transcript_stability u (record_partial s t c ms) t).stream_id ≡ s.stream_id
    unfolding record_transcript_stability record_partial
    recorded-stream_id s t c ms =
        note_text-stream_id (record_partial s t c ms) (normalize_stability_text u t.text)

    note_text-revision :
        (s : StreamSession) (o : Option (List ℕ))
        → (note_text s o).transcript_revision ≡ s.transcript_revision
    note_text-revision s none = refl
    note_text-revision s (some x) =
        if_case (λ (a : StreamSession). a.transcript_revision ≡ s.transcript_revision)
          (same_text s.stable_partial_text x) (λ _. refl) (λ _. refl)

    recorded-revision :
        (s : StreamSession) (t : Transcript) (c ms : Option ℕ)
        → (record_transcript_stability u (record_partial s t c ms) t).transcript_revision
          ≡ s.transcript_revision
    unfolding record_transcript_stability record_partial
    recorded-revision s t c ms =
        note_text-revision (record_partial s t c ms) (normalize_stability_text u t.text)

    keep_partial-IsOrdered :
        (r : StreamRuntime) (t : Transcript) (c ms : ℕ)
        → Ordered r
        → Ordered (keep_partial r t c ms)
    unfolding record_partial
    keep_partial-IsOrdered r t c ms h =
        if_case Ordered ((c == r.session.chunks_received) && partial_covers_full_buffer r.session)
          (λ _. record { reads = h.reads; placed = h.placed }) (λ _. h)

    awake-IsOrdered : (r : StreamRuntime) → Ordered r → Ordered (record r { audio_updated = true })
    awake-IsOrdered r h = record { reads = h.reads; placed = h.placed }

    use_partial-IsOrdered :
        (r : StreamRuntime) (c ms n : ℕ) (o : Option Transcript)
        → Ordered r
        → r.final_emitted ≡ false
        → r.cancel_requested ≡ false
        → r.worker ≡ waiting
        → Ordered (use_partial u r c ms n o)
    use_partial-IsOrdered r c ms n none h fresh going waits =
        rearm-IsOrdered k Q stopped (count_partial r c ms)
          (record { reads = h.reads; placed = h.placed })
    use_partial-IsOrdered r c ms n (some t) h fresh going waits =
        let s = record_transcript_stability u (record_partial r.session t (some c) (some ms)) t in
        if_case Ordered r.finalize_requested
          (λ _. awake-IsOrdered (keep_partial r t c ms) (keep_partial-IsOrdered r t c ms h))
          (λ _.
            publish-IsOrdered (record r { session = s }) t n
              (record {
                reads = record {
                  read_so_far =
                      h.reads.read_so_far
                      ∙ ap (λ m. some (read k m r.final_emitted r.cancel_requested))
                          (sym (recorded-revision r.session t (some c) (some ms)));
                  numbered = recorded-stream_id r.session t (some c) (some ms) ∙ h.reads.numbered;
                  shut = h.reads.shut;
                  kept = h.reads.kept;
                };
                placed = h.placed;
              })
              fresh going waits)

    pub after_partial-IsOrdered :
        (r : StreamRuntime) (c ms n : ℕ) (o : Option Transcript)
        → Reads r
        → r.final_emitted ≡ false
        → Ordered (after_partial u r c ms n o)
    unfolding after_partial
    after_partial-IsOrdered r c ms n o h fresh =
        if_case Ordered (r.cancel_requested || (r.final_emitted || r.closed))
          (λ e. record {
            reads = h;
            placed = any_over r.cancel_requested r.final_emitted r.closed e;
          })
          (λ e.
            use_partial-IsOrdered (decode_over r) c ms n o (record { reads = h; placed = fresh })
              fresh (nor_left r.cancel_requested _ e) refl)

    push_or_skip-IsOrdered :
        (r : StreamRuntime) (bytes : List ℕ)
        → Reads r
        → r.final_emitted ≡ false
        → Ordered (push_or_skip u r bytes)
    push_or_skip-IsOrdered r [] h fresh =
        after_partial-IsOrdered (record r { dirty = false }) _ _ 0 none h fresh
    push_or_skip-IsOrdered r (b ∷ bytes) h fresh = record { reads = h; placed = fresh }

    pub woken-IsOrdered : (r : StreamRuntime) → Ordered r → r.worker ≡ waiting → Ordered (woken u r)
    unfolding woken begin_partial
    woken-IsOrdered r h waits =
        let fresh : r.final_emitted ≡ false = rw waits at h.placed in
        if_case Ordered r.cancel_requested
          (λ e. record {
            reads = h.reads;
            placed = or_right r.final_emitted _ (or_left r.cancel_requested r.closed e);
          })
          (λ _.
            if_case Ordered (r.final_emitted || r.closed)
              (λ e. record {
                reads = h.reads;
                placed = final_or_closed r.final_emitted r.cancel_requested r.closed e;
              })
              (λ _.
                if_case Ordered r.finalize_requested
                  (λ _. begin_final-IsOrdered k Q stopped r h.reads fresh)
                  (λ _.
                    if_case Ordered (nothing_to_do r)
                      (λ _. record { reads = h.reads; placed = h.placed })
                      (λ _.
                        if_case Ordered r.streaming_decoder
                          (λ _. push_or_skip-IsOrdered r (unpushed r) h.reads fresh)
                          (λ _. record { reads = h.reads; placed = fresh })))))
