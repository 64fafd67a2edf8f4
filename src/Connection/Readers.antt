-- ===== src/Connection/Readers.antt =====
-- What a reader of the events of a stream keeps, event by event.
use rtc_asr.Prelude.{
  ℕ, ◌+◌, ◌≡◌, refl, sym, ap, ◌∙◌, inl, inr, true, false, ◌&&◌, Option, none, some, List, [], ◌∷◌,
  ◌++◌, ◌==◌, append_assoc, if_case, Option-cases,
}
use rtc_asr.Runtime.{Event, transcript, cancel_warning, pong}
use rtc_asr.Runtime.Reader.{Reader, read, read_one, read_all, read_all-append}
use rtc_asr.Connection.Protocol.{is_over, number}

abbrev Numbered : ℕ → Option Reader → Type 0
Numbered k none = Unit {0}
Numbered k (some b) = number b ≡ k

abbrev Over : Option Reader → Type 0
Over none = Unit {0}
Over (some b) = is_over b ≡ true

read_one-Numbered : (a : Reader) (e : Event) → Numbered (number a) (read_one a e)
read_one-Numbered (read id n false false) (transcript m) =
    if_case (Numbered id) (m.stream_id == id && m.revision == n + 1) (λ _. refl) (λ _. tt)
read_one-Numbered (read id n true c) (transcript m) = tt
read_one-Numbered (read id n false true) (transcript m) = tt
read_one-Numbered (read id n true c) (cancel_warning w) =
    if_case (Numbered id) (w.stream_id == id) (λ _. refl) (λ _. tt)
read_one-Numbered (read id n false true) (cancel_warning w) =
    if_case (Numbered id) (w.stream_id == id) (λ _. refl) (λ _. tt)
read_one-Numbered (read id n false false) (cancel_warning w) =
    if_case (Numbered id) (w.stream_id == id) (λ _. refl) (λ _. tt)
read_one-Numbered (read id n true c) pong = refl
read_one-Numbered (read id n false true) pong = refl
read_one-Numbered (read id n false false) pong = refl

read_one-Over : (a : Reader) (e : Event) → is_over a ≡ true → Over (read_one a e)
read_one-Over (read id n false false) e h = cc
read_one-Over (read id n true c) (transcript m) h = tt
read_one-Over (read id n false true) (transcript m) h = tt
read_one-Over (read id n true c) (cancel_warning w) h =
    if_case Over (w.stream_id == id) (λ _. refl) (λ _. tt)
read_one-Over (read id n false true) (cancel_warning w) h =
    if_case Over (w.stream_id == id) (λ _. refl) (λ _. tt)
read_one-Over (read id n true c) pong h = refl
read_one-Over (read id n false true) pong h = refl

read_all-Numbered :
    (k : ℕ) (o : Option Reader) (es : List Event) → Numbered k o → Numbered k (read_all o es)
read_all-Numbered k none es h = tt
read_all-Numbered k (some a) [] h = h
read_all-Numbered k (some a) (e ∷ es) h =
    read_all-Numbered k (read_one a e) es (rw (← h) (read_one-Numbered a e))

read_all-nil : (o : Option Reader) → read_all o [] ≡ o
read_all-nil none = refl
read_all-nil (some a) = refl

-- What is read to an end has a front that is read as well.
pub sent_reader :
    (k : ℕ) (sent queue : List Event) (last : Reader)
    → read_all (some (read k 0 false false)) (sent ++ queue) ≡ some last
    → (reader : Reader) × (read_all (some (read k 0 false false)) sent ≡ some reader)
      × (number reader ≡ k)
sent_reader k sent queue last h =
    let split = read_all-append (some (read k 0 false false)) sent queue in
    elim (Option-cases (read_all (some (read k 0 false false)) sent)) [
      | inl stuck ↦
          let never : none ≡ some last = ap (λ o. read_all o queue) (sym stuck) ∙ sym split ∙ h in
          cc
      | inr (reader, e) ↦
          let numbered : Numbered k (some reader) =
            rw e at (read_all-Numbered k (some (read k 0 false false)) sent refl) in
          (reader, e, numbered)
    ]

-- A stream that is over stays so when one more event of it has been sent.
pub over_sends :
    (k : ℕ) (sent queue : List Event) (e : Event) (before last : Reader)
    → read_all (some (read k 0 false false)) sent ≡ some before
    → is_over before ≡ true
    → read_all (some (read k 0 false false)) (sent ++ e ∷ queue) ≡ some last
    → (reader : Reader) × (read_all (some (read k 0 false false)) (sent ++ e ∷ []) ≡ some reader)
      × (is_over reader ≡ true)
      × (number reader ≡ k)
over_sends k sent queue e before last read_before over h =
    let one = read_all-append (some (read k 0 false false)) sent (e ∷ []) in
    let grouped = ap (read_all (some (read k 0 false false))) (append_assoc sent (e ∷ []) queue) in
    let (reader, reads, numbered) = sent_reader k (sent ++ e ∷ []) queue last (grouped ∙ h) in
    let same : read_one before e ≡ some reader =
      sym (read_all-nil (read_one before e))
      ∙ sym (ap (λ o. read_all o (e ∷ [])) read_before)
      ∙ sym one
      ∙ reads in
    let still : Over (some reader) = rw same at (read_one-Over before e over) in
    (reader, reads, still, numbered)
