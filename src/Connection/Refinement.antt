-- ===== src/Connection/Refinement.antt =====
-- Both handlers of the Local STT protocol in src/main.py against the protocol's automaton, under every
-- schedule of their tasks.
use rtc_asr.Prelude.{
  ℕ, ◌+◌, ◌≡◌, refl, sym, ap, ◌∙◌, inl, inr, Bool, true, false, Option, none, some, List, [], ◌∷◌,
  ◌++◌, map, append-nil, Result, All,
}
use rtc_asr.Text.{Unicode}
use rtc_asr.Session.Create.{StreamConfig}
use rtc_asr.Runtime.{StreamRuntime, Event}
use rtc_asr.Runtime.Schedule.{wake, decode_done}
use rtc_asr.Runtime.Reader.{Reader, read}
use rtc_asr.Runtime.Order.{Anything, wake-IsOrdered, decode_done-IsOrdered}
use rtc_asr.Connection.{
  Failure, ClientEvent, event, Transport, resume, client_close, failed, Handler, receiving,
  finalizing, flushing_final, flushing, stopping, ended, Connection, sent, sent_of, opened,
}
use rtc_asr.Connection.Steps.{
  Step, handles, wakes, sends, send_fails, decodes, resumes, task_step, tasks, resume_wait, step,
  serve,
}
use rtc_asr.Connection.Protocol.{View, following, is_over, number, follow, accept_all, newcomer}
use rtc_asr.Connection.Readers.{sent_reader}
use rtc_asr.Connection.Tracking.{
  Canceled, IsLive, IsTracked, OverBy, Tracked, newcomer_view, sent-follow,
}
use rtc_asr.Connection.Events.{received-IsTracked}
use rtc_asr.Connection.Waits.{proceed-IsTracked}
use rtc_asr.Connection.Tasks.{
  alive-Tracked, decode_done-returned, send_event-IsTracked, sends-Tracked, wake-returned,
  worked-Tracked,
}

-- The sender's connection is there.
abbrev pub Delivers : Step → Type 0
Delivers (send_fails e) = true ≡ false
Delivers s = Unit {0}

module _ (u : Unicode) (t : Transport) (config : StreamConfig) where
  task_step-IsTracked :
      (c : Connection) (r : StreamRuntime) (s : Step)
      → Delivers s
      → c.runtime ≡ some r
      → IsTracked c
      → IsTracked (task_step u c r s)
  task_step-IsTracked c r wakes d some_r h =
      worked-Tracked c r (wake u r r.worker) (λ k Q b o. wake-IsOrdered k Q b u r r.worker o refl)
        (λ e. wake-returned u c r r.worker e e) c.handler (rw some_r at h)
  task_step-IsTracked c r (decodes result) d some_r h =
      worked-Tracked c r (decode_done u r r.worker result)
        (λ k Q b o. decode_done-IsOrdered k Q b u r r.worker result o refl)
        (λ e. decode_done-returned u c r r.worker result e e) c.handler (rw some_r at h)
  task_step-IsTracked c r sends d some_r h =
      let tracked : Tracked c c.handler (some r) = rw some_r at h in
      send_event-IsTracked u c r c.sender (alive-Tracked c c.handler r tracked)
        (sends-Tracked u c r c.handler tracked)
  task_step-IsTracked c r (send_fails e) d some_r h = cc
  task_step-IsTracked c r (handles came) d some_r h = h

  resume_wait-IsTracked :
      (c : Connection) (o : Option StreamRuntime) (handler : Handler)
      → c.runtime ≡ o
      → c.handler ≡ handler
      → IsTracked c
      → IsTracked (resume_wait t c o handler)
  resume_wait-IsTracked c none handler none_yet waits h = h
  resume_wait-IsTracked c (some r) handler some_r waits h =
      proceed-IsTracked u t c r some_r handler waits (rw (waits, some_r) at h)

  resumes-IsTracked :
      (c : Connection) (handler : Handler) (came : Option (Result Failure ClientEvent))
      → c.handler ≡ handler
      → IsTracked c
      → IsTracked (resumes t config c handler came)
  resumes-IsTracked c receiving came waits h = received-IsTracked u t c config came waits h
  resumes-IsTracked c handler came waits h = resume_wait-IsTracked c c.runtime handler refl waits h

  tasks-IsTracked :
      (c : Connection) (o : Option StreamRuntime) (s : Step)
      → Delivers s
      → c.runtime ≡ o
      → IsTracked c
      → IsTracked (tasks u c o s)
  tasks-IsTracked c none s d none_yet h = h
  tasks-IsTracked c (some r) s d some_r h = task_step-IsTracked c r s d some_r h

  step-IsTracked :
      (c : Connection) (s : Step) → Delivers s → IsTracked c → IsTracked (step u t config c s)
  unfolding step
  step-IsTracked c (handles came) d h = resumes-IsTracked c c.handler came refl h
  step-IsTracked c s d h = tasks-IsTracked c c.runtime s d refl h

  serve-IsTracked :
      (c : Connection) (steps : List Step)
      → All Delivers steps
      → IsTracked c
      → IsTracked (serve u t config c steps)
  unfolding serve
  serve-IsTracked c [] d h = h
  serve-IsTracked c (s ∷ steps) d h =
      serve-IsTracked (step u t config c s) steps d.1 (step-IsTracked c s d.0 h)

-- What a client has been shown, by where the handler waits: without a stream the last one is over; the
-- number of the next stream follows the last one's.
abbrev pub Shows : Handler → Option StreamRuntime → ℕ → View → Type 0
Shows receiving none next (following reader) = (is_over reader ≡ true) × (next ≡ number reader + 1)
Shows ended none next v = Unit {0}
Shows handler (some r) next (following reader) = next ≡ number reader + 1
Shows handler o next v = true ≡ false

abbrev Shown : Connection → Handler → Option StreamRuntime → Type 0
Shown c handler o =
    (v : View) × (accept_all newcomer_view (c.past ++ sent_of o) ≡ some v)
    × Shows handler o c.next_stream_id v

Live-shown :
    (k : ℕ) (Q : List Event → Bool → Type 0) (b : Bool) (c : Connection) (r : StreamRuntime)
    → IsLive k Q b c.past c.sender c.next_stream_id r
    → (reader : Reader) × (accept_all newcomer_view (c.past ++ map event r.sent)
        ≡ some (following reader))
      × (c.next_stream_id ≡ number reader + 1)
Live-shown k Q b c r h =
    let (reader, reads, numbered) =
      sent_reader k r.sent r.outgoing_events
        (read k r.session.transcript_revision r.final_emitted r.cancel_requested)
        h.order.reads.read_so_far in
    (reader, sent-follow k Q b c r h ∙ ap follow reads, h.counted ∙ ap (λ n. n + 1) (sym numbered))

Shown-following :
    (c : Connection) (handler : Handler) (r : StreamRuntime)
    → (reader : Reader) × (accept_all newcomer_view (c.past ++ map event r.sent)
        ≡ some (following reader))
      × (c.next_stream_id ≡ number reader + 1)
    → Shown c handler (some r)
Shown-following c receiving r (reader, reads, next) = (following reader, reads, next)
Shown-following c finalizing r (reader, reads, next) = (following reader, reads, next)
Shown-following c flushing_final r (reader, reads, next) = (following reader, reads, next)
Shown-following c flushing r (reader, reads, next) = (following reader, reads, next)
Shown-following c (stopping why) r (reader, reads, next) = (following reader, reads, next)
Shown-following c ended r (reader, reads, next) = (following reader, reads, next)

Tracked-Shown :
    (c : Connection) (handler : Handler) (o : Option StreamRuntime)
    → Tracked c handler o
    → Shown c handler o
Tracked-Shown c receiving none (reader, h) = (
  following reader,
  ap (accept_all newcomer_view) (append-nil c.past) ∙ h.accepted_past,
  (h.over, h.counted),
)
Tracked-Shown c receiving (some r) (k, h) =
    Shown-following c receiving r (Live-shown k Anything false c r h)
Tracked-Shown c finalizing (some r) (k, h) =
    Shown-following c finalizing r (Live-shown k Anything false c r h)
Tracked-Shown c flushing_final (some r) ((k, h), e) =
    Shown-following c flushing_final r (Live-shown k Anything false c r h)
Tracked-Shown c flushing (some r) (inl ((k, h), e)) =
    Shown-following c flushing r (Live-shown k Anything false c r h)
Tracked-Shown c flushing (some r) (inr (k, h)) =
    Shown-following c flushing r (Live-shown k Canceled false c r h)
Tracked-Shown c (stopping resume) (some r) (k, h) =
    Shown-following c (stopping resume) r (Live-shown k (OverBy k) true c r h)
Tracked-Shown c (stopping client_close) (some r) (k, h) =
    Shown-following c (stopping client_close) r (Live-shown k Anything true c r h)
Tracked-Shown c (stopping (failed e)) (some r) (k, h) =
    Shown-following c (stopping (failed e)) r (Live-shown k Anything true c r h)
Tracked-Shown c ended none (v, h) = (v, ap (accept_all newcomer_view) (append-nil c.past) ∙ h, tt)
Tracked-Shown c finalizing none h = cc
Tracked-Shown c flushing_final none h = cc
Tracked-Shown c flushing none h = cc
Tracked-Shown c (stopping resume) none h = cc
Tracked-Shown c (stopping client_close) none h = cc
Tracked-Shown c (stopping (failed e)) none h = cc
Tracked-Shown c ended (some r) h = cc

-- Both handlers refine the protocol's automaton: under every schedule in which the sender's connection
-- is there, whatever the client sends and the backend gives, the automaton accepts all that has been
-- sent. While the handler waits for an event without a stream the last stream is over, and the next one's
-- number follows the last one's.
pub serve-Shown :
    (u : Unicode) (t : Transport) (config : StreamConfig) (steps : List Step)
    → All Delivers steps
    → let c = serve u t config opened steps in
      (v : View) × (accept_all (some (following newcomer)) (sent c) ≡ some v)
      × Shows c.handler c.runtime c.next_stream_id v
serve-Shown u t config steps d =
    let c = serve u t config opened steps in
    let new : IsTracked opened =
      (newcomer, record { accepted_past = refl; over = refl; counted = refl; alive = refl }) in
    Tracked-Shown c c.handler c.runtime (serve-IsTracked u t config opened steps d new)
