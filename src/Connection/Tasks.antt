-- ===== src/Connection/Tasks.antt =====
-- The invariant of a connection under the turns of the worker and of the sender in src/main.py.
use rtc_asr.Prelude.{
  ℕ, ◌≡◌, refl, sym, ap, ◌∙◌, inl, inr, Bool, true, false, Option, none, some, List, [], ◌∷◌, ◌++◌,
  Result,
}
use rtc_asr.Text.{Unicode}
use rtc_asr.Session.{StreamError, Transcript}
use rtc_asr.Runtime.{StreamRuntime, Event, Worker, returned, raised, waiting, in_partial, in_final}
use rtc_asr.Runtime.Schedule.{wake, decode_done, send_next}
use rtc_asr.Runtime.Reader.{read, read_all}
use rtc_asr.Runtime.Reading.{IsOrdered}
use rtc_asr.Runtime.Order.{Anything, send_next-IsOrdered}
use rtc_asr.Connection.{
  Failure, resume, client_close, failed, Handler, receiving, finalizing, flushing_final, flushing,
  stopping, ended, Connection,
}
use rtc_asr.Connection.Steps.{send_event}
use rtc_asr.Connection.Readers.{over_sends}
use rtc_asr.Connection.Tracking.{Canceled, IsTracked, Live, LiveOver, OverBy, Tracked}

-- What the worker does keeps what has been sent and the cancel request; the sender sends one event.
abbrev Keeps : StreamRuntime → StreamRuntime → Type 1
Keeps r next =
    (k : ℕ) (Q : List Event → Bool → Type 0) (b : Bool) → IsOrdered k Q b r → IsOrdered k Q b next

module _ (c : Connection) (r next : StreamRuntime) where
  next-Live :
      (Q P : List Event → Bool → Type 0) (b : Bool)
      → ((k : ℕ) → IsOrdered k Q b r → IsOrdered k P b next)
      → Live Q b c r
      → Live P b c next
  next-Live Q P b keeps (k, h) =
      (k, record { began = h.began; order = keeps k h.order; counted = h.counted; alive = h.alive })

  next-LiveOver :
      ((k : ℕ) → IsOrdered k (OverBy k) true r → IsOrdered k (OverBy k) true next)
      → LiveOver c r
      → LiveOver c next
  next-LiveOver keeps (k, h) =
      (k, record { began = h.began; order = keeps k h.order; counted = h.counted; alive = h.alive })

  next-Tracked :
      ((k : ℕ) (b : Bool) → IsOrdered k Anything b r → IsOrdered k Anything b next)
      → ((k : ℕ) → IsOrdered k Canceled false r → IsOrdered k Canceled false next)
      → ((k : ℕ) → IsOrdered k (OverBy k) true r → IsOrdered k (OverBy k) true next)
      → (r.worker ≡ returned → next.worker ≡ returned)
      → (handler : Handler) → Tracked c handler (some r)
      → Tracked c handler (some next)
  next-Tracked any canceled over stays receiving h =
      next-Live Anything Anything false (λ k. any k false) h
  next-Tracked any canceled over stays finalizing h =
      next-Live Anything Anything false (λ k. any k false) h
  next-Tracked any canceled over stays flushing_final h =
      (next-Live Anything Anything false (λ k. any k false) h.0, stays h.1)
  next-Tracked any canceled over stays flushing (inl h) =
      inl (next-Live Anything Anything false (λ k. any k false) h.0, stays h.1)
  next-Tracked any canceled over stays flushing (inr h) =
      inr (next-Live Canceled Canceled false canceled h)
  next-Tracked any canceled over stays (stopping resume) h = next-LiveOver over h
  next-Tracked any canceled over stays (stopping client_close) h =
      next-Live Anything Anything true (λ k. any k true) h
  next-Tracked any canceled over stays (stopping (failed e)) h =
      next-Live Anything Anything true (λ k. any k true) h
  next-Tracked any canceled over stays ended h = cc

  pub worked-Tracked :
      Keeps r next
      → (r.worker ≡ returned → next.worker ≡ returned)
      → (handler : Handler) → Tracked c handler (some r)
      → Tracked c handler (some next)
  worked-Tracked keeps =
      next-Tracked (λ k. keeps k Anything) (λ k. keeps k Canceled false)
        (λ k. keeps k (OverBy k) true)

sent-OverBy :
    (k : ℕ) (r : StreamRuntime) (queue : List Event)
    → r.outgoing_events ≡ queue
    → IsOrdered k (OverBy k) true r
    → OverBy k (send_next r queue).sent r.cancel_requested
sent-OverBy k r [] e h = h.reads.kept
sent-OverBy k r (x ∷ rest) e h =
    let (before, reads, over, numbered) = h.reads.kept in
    over_sends k r.sent rest x before
      (read k r.session.transcript_revision r.final_emitted r.cancel_requested) reads over
      (ap (λ q. read_all (some (read k 0 false false)) (r.sent ++ q)) (sym e) ∙ h.reads.read_so_far)

send_next-worker : (r : StreamRuntime) (queue : List Event) → (send_next r queue).worker ≡ r.worker
send_next-worker r [] = refl
send_next-worker r (x ∷ rest) = refl

pub alive-Tracked :
    (c : Connection) (handler : Handler) (r : StreamRuntime)
    → Tracked c handler (some r)
    → c.sender ≡ none
alive-Tracked c receiving r h = h.1.alive
alive-Tracked c finalizing r h = h.1.alive
alive-Tracked c flushing_final r h = h.0.1.alive
alive-Tracked c flushing r (inl h) = h.0.1.alive
alive-Tracked c flushing r (inr h) = h.1.alive
alive-Tracked c (stopping resume) r h = h.1.alive
alive-Tracked c (stopping client_close) r h = h.1.alive
alive-Tracked c (stopping (failed e)) r h = h.1.alive
alive-Tracked c ended r h = cc

module _ (u : Unicode) (c : Connection) (r : StreamRuntime) where
  pub wake-returned :
      (w : Worker) → w ≡ returned → r.worker ≡ returned → (wake u r w).worker ≡ returned
  wake-returned returned e h = h
  wake-returned (raised x) e h = h
  wake-returned waiting e h = cc
  wake-returned (in_partial a b bytes) e h = cc
  wake-returned (in_final a bytes) e h = cc

  pub decode_done-returned :
      (w : Worker) (result : Result StreamError (Option Transcript))
      → w ≡ returned
      → r.worker ≡ returned
      → (decode_done u r w result).worker ≡ returned
  unfolding decode_done
  decode_done-returned returned result e h = h
  decode_done-returned (raised x) result e h = cc
  decode_done-returned waiting result e h = cc
  decode_done-returned (in_partial a b bytes) result e h = cc
  decode_done-returned (in_final a bytes) result e h = cc

  pub sends-Tracked :
      (handler : Handler)
      → Tracked c handler (some r)
      → Tracked c handler (some (send_next r r.outgoing_events))
  sends-Tracked handler h =
      let queue = r.outgoing_events in
      next-Tracked c r (send_next r queue)
        (λ k b o. send_next-IsOrdered k Anything b u r queue refl tt o)
        (λ k o. send_next-IsOrdered k Canceled false u r queue refl o.reads.kept o)
        (λ k o.
          send_next-IsOrdered k (OverBy k) true u r queue refl (sent-OverBy k r queue refl o) o)
        (λ e. send_next-worker r queue ∙ e) handler h

  pub send_event-IsTracked :
      (o : Option Failure)
      → o ≡ none
      → Tracked c c.handler (some (send_next r r.outgoing_events))
      → IsTracked (send_event c r o r.outgoing_events)
  send_event-IsTracked none alive h = h
  send_event-IsTracked (some e) alive h = cc
