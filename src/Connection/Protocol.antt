-- ===== src/Connection/Protocol.antt =====
-- What the Local STT protocol promises to a client, apart from how the handlers of src/main.py keep
-- it: an automaton that reads the messages of a connection.
use rtc_asr.Prelude.{
  ℕ, ◌+◌, ◌≡◌, refl, Bool, true, false, ◌&&◌, ◌||◌, Option, none, some, List, [], ◌∷◌, ◌++◌, map,
  ◌==◌, if◌then◌else◌,
}
use rtc_asr.Runtime.{Event}
use rtc_asr.Runtime.Reader.{Reader, read, read_one, read_all}
use rtc_asr.Connection.{Message, ready, event, closed, error, websocket_close}

-- A client that follows a stream, that has been told of the end, or that has seen the WebSocket close.
pub data View : Type 0 where
  following : Reader → View
  told gone : View

-- A stream is over with its final transcript or the warning of its cancel.
abbrev pub is_over : Reader → Bool
is_over (read id n final canceled) = final || canceled

abbrev pub number : Reader → ℕ
number (read id n final canceled) = id

abbrev pub follow : Option Reader → Option View
follow none = none
follow (some reader) = some (following reader)

-- Streams are numbered one after the other, and none starts before the last is over. The server's
-- last words are `closed` or an error, and the end of the WebSocket.
abbrev pub accept : View → Message → Option View
accept (following reader) (ready m) =
    if is_over reader && m.stream_id == number reader + 1
    then some (following (read m.stream_id 0 false false))
    else none
accept (following reader) (event e) = follow (read_one reader e)
accept (following reader) closed = some told
accept (following reader) (error code) = some told
accept told (websocket_close n) = some gone
accept _ _ = none

abbrev pub accept_all : Option View → List Message → Option View
accept_all none messages = none
accept_all (some v) [] = some v
accept_all (some v) (m ∷ messages) = accept_all (accept v m) messages

-- No stream yet: number 0 is over.
abbrev pub newcomer : Reader
newcomer = read 0 0 true false

pub accept_all-append :
    (o : Option View) (xs ys : List Message)
    → accept_all o (xs ++ ys) ≡ accept_all (accept_all o xs) ys
accept_all-append none xs ys = refl
accept_all-append (some v) [] ys = refl
accept_all-append (some v) (m ∷ xs) ys = accept_all-append (accept v m) xs ys

-- The events of a stream are read as its own reader reads them.
pub accept_all-event :
    (o : Option Reader) (es : List Event)
    → accept_all (follow o) (map event es) ≡ follow (read_all o es)
accept_all-event none es = refl
accept_all-event (some reader) [] = refl
accept_all-event (some reader) (e ∷ es) = accept_all-event (read_one reader e) es
