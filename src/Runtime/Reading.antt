-- ===== src/Runtime/Reading.antt =====
-- The order of one stream's transcripts, src/main.py: the invariant, and the last decode.
use rtc_asr.Prelude.{
  ℕ, ◌+◌, ◌≡◌, refl, sym, ap, ◌∙◌, ◌⊎◌, inr, Bool, true, false, ◌||◌, Option, none, some, List,
  length, arith, if_case,
}
use rtc_asr.Session.{Transcript, next_transcript_revision, last_partial_if_reusable}
use rtc_asr.Runtime.Reader.{read, read_all, read-emit, read_next, emitted}
use rtc_asr.Runtime.{
  StreamRuntime, Event, transcript, Worker, waiting, in_partial, in_final, returned, raised,
  enqueue_transcript, transcript_event, after_final, reuse_or_decode, begin_final, rearm,
}

-- A worker at work has emitted no final transcript; one that has returned had a reason.
abbrev pub Placed : Worker → Bool → Bool → Type 0
Placed returned final over = (final || over) ≡ true
Placed (raised e) final over = Unit {0}
Placed w final over = final ≡ false

-- The stream with the number `k`; `stopped` where the handler may have closed it. `Q` is kept of what
-- has been sent and of the cancel request.
pub record IsReading (k : ℕ) (Q : List Event → Bool → Type 0) (stopped : Bool)
    (sent events : List Event) (id revision : ℕ) (final canceled closed : Bool) : Type 0 where
  pub read_so_far :
      read_all (some (read k 0 false false)) events ≡ some (read k revision final canceled)
  pub numbered : id ≡ k
  pub shut : (stopped ≡ true) ⊎ (closed ≡ final)
  pub kept : Q sent canceled

abbrev pub ReadsAs : ℕ → (List Event → Bool → Type 0) → Bool → StreamRuntime → Type 0
ReadsAs k Q stopped r =
    IsReading k Q stopped r.sent (emitted r) r.session.stream_id r.session.transcript_revision
      r.final_emitted r.cancel_requested r.closed

pub record IsOrdered (k : ℕ) (Q : List Event → Bool → Type 0) (stopped : Bool) (r : StreamRuntime)
    : Type 0 where
  pub reads : ReadsAs k Q stopped r
  pub placed : Placed r.worker r.final_emitted (r.cancel_requested || r.closed)

pub nor_left : (a b : Bool) → (a || b) ≡ false → a ≡ false
nor_left a b h = ground arith

pub or_right : (a b : Bool) → b ≡ true → (a || b) ≡ true
or_right a b h = ground arith

pub or_left : (a b : Bool) → a ≡ true → (a || b) ≡ true
or_left a b h = ground arith

pub final_or_closed : (f c d : Bool) → (f || d) ≡ true → (f || (c || d)) ≡ true
final_or_closed f c d h = ground arith

pub Placed-over :
    (w : Worker) (final over over' : Bool)
    → over' ≡ true
    → Placed w final over
    → Placed w final over'
Placed-over returned final over over' e h = or_right final over' e
Placed-over (raised x) final over over' e h = tt
Placed-over waiting final over over' e h = h
Placed-over (in_partial c ms bytes) final over over' e h = h
Placed-over (in_final n bytes) final over over' e h = h

pub any_over : (c f d : Bool) → (c || (f || d)) ≡ true → (f || (c || d)) ≡ true
any_over c f d h = ground arith

module _ (k : ℕ) (Q : List Event → Bool → Type 0) (stopped : Bool) where
  abbrev Reads : StreamRuntime → Type 0
  Reads = ReadsAs k Q stopped

  abbrev Ordered : StreamRuntime → Type 0
  Ordered = IsOrdered k Q stopped

  pub enqueue_transcript-IsReading :
      (r : StreamRuntime) (t : Transcript) (is_final : Bool) (n : ℕ)
      → Reads r
      → r.final_emitted ≡ false
      → r.cancel_requested ≡ false
      → read_all (some (read k 0 false false)) (emitted (enqueue_transcript r t is_final n))
        ≡ some (
            read k
              (next_transcript_revision r.session).transcript_revision
              is_final
              r.cancel_requested)
  unfolding next_transcript_revision transcript_event
  enqueue_transcript-IsReading r t is_final n h fresh going =
      let m = r.session.transcript_revision in
      let before : read_all (some (read k 0 false false)) (emitted r)
          ≡ some (read k m false false) =
        h.read_so_far
        ∙ ap (λ f. some (read k m f r.cancel_requested)) fresh
        ∙ ap (λ c. some (read k m false c)) going in
      read-emit k r.sent r.outgoing_events
        (transcript (transcript_event (next_transcript_revision r.session) t is_final n))
        (read k m false false) (read k (m + 1) is_final r.cancel_requested) before
        (read_next k m (transcript_event (next_transcript_revision r.session) t is_final n)
            h.numbered refl
          ∙ ap (λ c. some (read k (m + 1) is_final c)) (sym going))

  module _ (r : StreamRuntime) (h : Reads r) (fresh : r.final_emitted ≡ false) where
    pub after_final-IsOrdered : (n : ℕ) (t : Transcript) → Ordered (after_final r n t)
    unfolding after_final next_transcript_revision
    after_final-IsOrdered n t =
        if_case Ordered (r.cancel_requested || r.closed)
          (λ e. record { reads = h; placed = or_right r.final_emitted _ e })
          (λ e. record {
            reads = record {
              read_so_far = enqueue_transcript-IsReading r t true n h fresh (nor_left _ r.closed e);
              numbered = h.numbered;
              shut = inr refl;
              kept = h.kept;
            };
            placed = refl;
          })

    reuse_or_decode-IsOrdered : (o : Option Transcript) → Ordered (reuse_or_decode r o)
    reuse_or_decode-IsOrdered none = record { reads = h; placed = fresh }
    reuse_or_decode-IsOrdered (some t) = after_final-IsOrdered (length r.session.audio_buffer) t

    pub begin_final-IsOrdered : Ordered (begin_final r)
    unfolding begin_final
    begin_final-IsOrdered =
        if_case Ordered r.streaming_decoder (λ _. record { reads = h; placed = fresh })
          (λ _. reuse_or_decode-IsOrdered (last_partial_if_reusable r.session))

  pub rearm-IsOrdered : (r : StreamRuntime) → Ordered r → Ordered (rearm r)
  rearm-IsOrdered r h =
      if_case Ordered r.dirty (λ _. record { reads = h.reads; placed = h.placed }) (λ _. h)
