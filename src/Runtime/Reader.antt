-- ===== src/Runtime/Reader.antt =====
-- A client that reads the events of one stream, as src/main.py sends them.
use rtc_asr.Prelude.{
  ℕ, ◌+◌, ◌≡◌, refl, sym, ap, ◌∙◌, Bool, true, false, ◌&&◌, Option, none, some, List, [], ◌∷◌, ◌++◌,
  append_assoc, ◌==◌, if◌then◌else◌, arith,
}
use rtc_asr.Runtime.{
  StreamRuntime, Event, transcript, cancel_warning, pong, TranscriptMessage, CancelWarning,
}

-- What the client knows of a stream: its number, the last revision, whether it was final, and
-- whether the stream was canceled.
pub data Reader : Type 0 where
  read : ℕ → ℕ → Bool → Bool → Reader

-- A transcript must be of the stream and have the next revision, and none may follow a final one or
-- the warning of a cancel.
abbrev pub read_one : Reader → Event → Option Reader
read_one (read id n false false) (transcript m) =
    if m.stream_id == id && m.revision == n + 1
    then some (read id (n + 1) m.is_final false)
    else none
read_one (read id n final canceled) (transcript m) = none
read_one (read id n final canceled) (cancel_warning w) =
    if w.stream_id == id then some (read id n final true) else none
read_one reader pong = some reader

abbrev pub read_all : Option Reader → List Event → Option Reader
read_all none events = none
read_all (some reader) [] = some reader
read_all (some reader) (e ∷ events) = read_all (read_one reader e) events

pub read_all-append :
    (o : Option Reader) (xs ys : List Event) → read_all o (xs ++ ys) ≡ read_all (read_all o xs) ys
read_all-append none xs ys = refl
read_all-append (some reader) [] ys = refl
read_all-append (some reader) (e ∷ xs) ys = read_all-append (read_one reader e) xs ys

-- All that the stream has sent or will send so far.
abbrev pub emitted : StreamRuntime → List Event
emitted r = r.sent ++ r.outgoing_events

-- One more event in the queue.
pub read-emit :
    (k : ℕ) (sent queue : List Event) (e : Event) (a b : Reader)
    → read_all (some (read k 0 false false)) (sent ++ queue) ≡ some a
    → read_one a e ≡ some b
    → read_all (some (read k 0 false false)) (sent ++ (queue ++ e ∷ [])) ≡ some b
read-emit k sent queue e a b h g =
    ap (read_all (some (read k 0 false false))) (sym (append_assoc sent queue (e ∷ [])))
    ∙ read_all-append (some (read k 0 false false)) (sent ++ queue) (e ∷ [])
    ∙ ap (λ o. read_all o (e ∷ [])) h
    ∙ ap (λ o. read_all o []) g

pub read_next :
    (id n : ℕ) (m : TranscriptMessage)
    → m.stream_id ≡ id
    → m.revision ≡ n + 1
    → read_one (read id n false false) (transcript m) ≡ some (read id (n + 1) m.is_final false)
read_next id n m i e = ground arith

pub read_warning :
    (id n : ℕ) (final canceled : Bool) (w : CancelWarning)
    → w.stream_id ≡ id
    → read_one (read id n final canceled) (cancel_warning w) ≡ some (read id n final true)
read_warning id n true true w i = ground arith
read_warning id n true false w i = ground arith
read_warning id n false true w i = ground arith
read_warning id n false false w i = ground arith

pub read_pong :
    (id n : ℕ) (final canceled : Bool)
    → read_one (read id n final canceled) pong ≡ some (read id n final canceled)
read_pong id n true true = refl
read_pong id n true false = refl
read_pong id n false true = refl
read_pong id n false false = refl
