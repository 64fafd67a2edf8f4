-- ===== src/Connection/Tracking.antt =====
-- The invariant of a connection's state against the protocol's automaton, for the handlers of src/main.py.
use rtc_asr.Prelude.{
  ℕ, ◌+◌, ◌≡◌, refl, ap, ◌∙◌, ◌⊎◌, Bool, true, false, ◌||◌, Option, none, some, List, [], ◌∷◌, ◌++◌,
  map, append-nil, arith,
}
use rtc_asr.Runtime.{StreamRuntime, Event, returned, close}
use rtc_asr.Runtime.Reader.{Reader, read, read_all}
use rtc_asr.Runtime.Reading.{IsOrdered}
use rtc_asr.Runtime.Order.{Anything, closed-IsOrdered, also-IsOrdered}
use rtc_asr.Connection.{
  Failure, Message, event, Transport, websocket, raw_uds, resume, client_close, failed, Handler,
  receiving, finalizing, flushing_final, flushing, stopping, ended, Connection, sent,
  error_messages, closed_messages, stopped, fail, disconnected, backend_unavailable,
  unexpected_error, protocol_error,
}
use rtc_asr.Connection.Steps.{is_nil}
use rtc_asr.Connection.Protocol.{
  View, following, told, gone, is_over, number, follow, accept_all, newcomer, accept_all-append,
  accept_all-event,
}
use rtc_asr.Connection.Readers.{sent_reader}

abbrev pub newcomer_view : Option View
newcomer_view = some (following newcomer)

-- What has been sent makes the stream over, whatever may come after.
abbrev pub OverBy : ℕ → List Event → Bool → Type 0
OverBy k es canceled =
    (reader : Reader) × (read_all (some (read k 0 false false)) es ≡ some reader)
    × (is_over reader ≡ true)
    × (number reader ≡ k)

abbrev pub Canceled : List Event → Bool → Type 0
Canceled es canceled = canceled ≡ true

pub record IsIdle (past : List Message) (sender : Option Failure) (next : ℕ) (reader : Reader)
    : Type 0 where
  pub accepted_past : accept_all newcomer_view past ≡ some (following reader)
  pub over : is_over reader ≡ true
  pub counted : next ≡ number reader + 1
  pub alive : sender ≡ none

pub record IsLive (k : ℕ) (Q : List Event → Bool → Type 0) (stopped : Bool) (past : List Message)
    (sender : Option Failure) (next : ℕ) (r : StreamRuntime) : Type 0 where
  pub began : accept_all newcomer_view past ≡ some (following (read k 0 false false))
  pub order : IsOrdered k Q stopped r
  pub counted : next ≡ k + 1
  pub alive : sender ≡ none

abbrev pub Idle : Connection → Type 0
Idle c = (reader : Reader) × IsIdle c.past c.sender c.next_stream_id reader

abbrev pub Live : (List Event → Bool → Type 0) → Bool → Connection → StreamRuntime → Type 0
Live Q stopped c r = (k : ℕ) × IsLive k Q stopped c.past c.sender c.next_stream_id r

-- The stream is over by what it has sent.
abbrev pub LiveOver : Connection → StreamRuntime → Type 0
LiveOver c r = (k : ℕ) × IsLive k (OverBy k) true c.past c.sender c.next_stream_id r

abbrev Accepted : List Message → Type 0
Accepted ms = (v : View) × (accept_all newcomer_view ms ≡ some v)

-- The invariant, by where the handler waits and whether there is a stream.
abbrev pub Tracked : Connection → Handler → Option StreamRuntime → Type 0
Tracked c receiving none = Idle c
Tracked c receiving (some r) = Live Anything false c r
Tracked c finalizing (some r) = Live Anything false c r
Tracked c flushing_final (some r) = Live Anything false c r × (r.worker ≡ returned)
Tracked c flushing (some r) =
    (Live Anything false c r × (r.worker ≡ returned)) ⊎ Live Canceled false c r
Tracked c (stopping resume) (some r) = LiveOver c r
Tracked c (stopping why) (some r) = Live Anything true c r
Tracked c ended none = Accepted c.past
Tracked c h o = true ≡ false

pub or_right : (a b : Bool) → b ≡ true → (a || b) ≡ true
or_right a b h = ground arith

pub nil_of : (es : List Event) → is_nil es ≡ true → es ≡ []
nil_of [] h = refl
nil_of (e ∷ es) h = cc

abbrev pub IsTracked : Connection → Type 0
IsTracked c = Tracked c c.handler c.runtime

module _ (k : ℕ) (Q : List Event → Bool → Type 0) (b : Bool) (c : Connection) (r : StreamRuntime)
    (h : IsLive k Q b c.past c.sender c.next_stream_id r) where
  -- What a live connection has sent is read as far as its stream's reader has come.
  pub sent-follow :
      accept_all newcomer_view (c.past ++ map event r.sent)
      ≡ follow (read_all (some (read k 0 false false)) r.sent)
  sent-follow =
      accept_all-append newcomer_view c.past (map event r.sent)
      ∙ ap (λ o. accept_all o (map event r.sent)) h.began
      ∙ accept_all-event (some (read k 0 false false)) r.sent

  pub sent-Accepted :
      (reader : Reader) × (accept_all newcomer_view (c.past ++ map event r.sent)
        ≡ some (following reader))
  sent-Accepted =
      let (reader, reads, numbered) =
        sent_reader k r.sent r.outgoing_events
          (read k r.session.transcript_revision r.final_emitted r.cancel_requested)
          h.order.reads.read_so_far in
      (reader, sent-follow ∙ ap follow reads)

  pub closed-Live : IsLive k Q true c.past c.sender c.next_stream_id (close r)
  closed-Live = record {
    began = h.began;
    order = closed-IsOrdered k Q b r h.order;
    counted = h.counted;
    alive = h.alive;
  }

-- The last words are accepted_past.
pub last-errors :
    (t : Transport) (e : Failure) (reader : Reader)
    → (v : View) × (accept_all (some (following reader)) (error_messages t e) ≡ some v)
last-errors t disconnected reader = (following reader, refl)
last-errors websocket backend_unavailable reader = (gone, refl)
last-errors websocket unexpected_error reader = (gone, refl)
last-errors websocket (protocol_error code) reader = (gone, refl)
last-errors raw_uds backend_unavailable reader = (told, refl)
last-errors raw_uds unexpected_error reader = (told, refl)
last-errors raw_uds (protocol_error code) reader = (told, refl)

pub last-closed :
    (t : Transport) (reader : Reader)
    → (v : View) × (accept_all (some (following reader)) (closed_messages t) ≡ some v)
last-closed websocket reader = (gone, refl)
last-closed raw_uds reader = (told, refl)

pub finish-Accepted :
    (ms tail : List Message) (reader : Reader)
    → accept_all newcomer_view ms ≡ some (following reader)
    → (v : View) × (accept_all (some (following reader)) tail ≡ some v)
    → Accepted (ms ++ tail)
finish-Accepted ms tail reader h (v, e) =
    (v, accept_all-append newcomer_view ms tail ∙ ap (λ o. accept_all o tail) h ∙ e)

-- The end of `stop_runtime` that ends the connection.
pub stopped-Ended :
    (t : Transport) (c : Connection) (reader : Reader) (e : Failure)
    → accept_all newcomer_view (sent c) ≡ some (following reader)
    → IsTracked (stopped t c (failed e))
stopped-Ended t c reader e h =
    finish-Accepted (sent c) (error_messages t e) reader h (last-errors t e reader)

pub stopped-Closed :
    (t : Transport) (c : Connection) (reader : Reader)
    → accept_all newcomer_view (sent c) ≡ some (following reader)
    → IsTracked (stopped t c client_close)
stopped-Closed t c reader h =
    finish-Accepted (sent c) (closed_messages t) reader h (last-closed t reader)

module _ (t : Transport) (c : Connection) where
  pub idle-reads :
      (reader : Reader)
      → accept_all newcomer_view c.past ≡ some (following reader)
      → accept_all newcomer_view (c.past ++ []) ≡ some (following reader)
  idle-reads reader h = ap (accept_all newcomer_view) (append-nil c.past) ∙ h

  pub fail-Idle : (e : Failure) → c.runtime ≡ none → Idle c → IsTracked (fail t c e)
  fail-Idle e none_yet (reader, h) = rw none_yet (
      finish-Accepted (c.past ++ []) (error_messages t e) reader (idle-reads reader h.accepted_past)
        (last-errors t e reader))

  pub fail-Live :
      (Q : List Event → Bool → Type 0) (b : Bool) (r : StreamRuntime) (e : Failure)
      → c.runtime ≡ some r
      → Live Q b c r
      → IsTracked (fail t c e)
  fail-Live Q b r e some_r (k, h) = rw some_r (
    k,
    record {
      began = h.began;
      order = also-IsOrdered (close r) tt (closed-IsOrdered k Q b r h.order);
      counted = h.counted;
      alive = h.alive;
    },
  )

  pub fail-any : (e : Failure) → c.handler ≡ receiving → IsTracked c → IsTracked (fail t c e)
  fail-any e waits h = go c.runtime refl
    where
      go : (o : Option StreamRuntime) → c.runtime ≡ o → IsTracked (fail t c e)
      go none none_yet = fail-Idle e none_yet (rw (waits, none_yet) at h)
      go (some r) some_r = fail-Live Anything false r e some_r (rw (waits, some_r) at h)
