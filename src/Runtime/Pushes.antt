-- ===== src/Runtime/Pushes.antt =====
-- What a stateful decoder is given: every byte of the buffer once, in order.
use rtc_asr.Prelude.{
  ℕ, ◌≡◌, refl, sym, ap, ◌∙◌, ◌⊎◌, inl, inr, Bool, true, false, ◌&&◌, ◌||◌, Option, none, some,
  List, [], ◌∷◌, ◌++◌, length, drop, append_assoc, append-nil, length-append, ◌==◌, if◌then◌else◌,
  arith, Result, ok, err, if_case,
}
use rtc_asr.Text.{Unicode, is_empty}
use rtc_asr.Session.{
  StreamSession, StreamError, Transcript, append_audio, record_partial, record_transcript_stability,
  note_text, same_text, normalize_stability_text, next_transcript_revision,
  should_finalize_stable_partial, last_partial_if_reusable, partial_covers_full_buffer,
}
use rtc_asr.Session.Bounds.{append_audio_lem}
use rtc_asr.Runtime.{
  StreamRuntime, Worker, waiting, in_partial, in_final, returned, raised, enqueue_transcript,
  after_final, reuse_or_decode, begin_final, use_partial, publish, after_partial, push_or_skip,
  begin_partial, woken, text_of, nothing_to_do, decode_over, unpushed, rearm, count_partial,
}
use rtc_asr.Runtime.Schedule.{
  Turn, takes_audio, asks_final, cancels, closes, pings, wakes, sends, decodes, take_chunk, cancel,
  wake, push_done, finalize_done, decode_done, send_next, turn, run, started,
}

abbrev pub IsFront : List ℕ → List ℕ → Type 0
IsFront xs buffer = (rest : List ℕ) × (xs ++ rest ≡ buffer)

-- The bytes that a running decode gives to the decoder.
abbrev pending : Worker → List ℕ
pending (in_partial c ms bytes) = bytes
pending (in_final n bytes) = bytes
pending w = []

abbrev given : Bool → List ℕ → Worker → List ℕ
given stateful pushed w = if stateful then pushed ++ pending w else pushed

record IsFed (r : StreamRuntime) : Type 0 where
  offset : r.streaming_decode_offset ≡ length r.pushed
  fed :
      (r.cancel_requested ≡ true)
      ⊎ IsFront (given r.streaming_decoder r.pushed r.worker) r.session.audio_buffer

drop-length : (xs ys : List ℕ) → drop (length xs) (xs ++ ys) ≡ ys
drop-length [] ys = refl
drop-length (x ∷ xs) ys = drop-length xs ys

-- What is given is the front of the buffer, so the rest of it comes next.
next-IsFront :
    (pushed buffer : List ℕ)
    → IsFront pushed buffer
    → IsFront (pushed ++ drop (length pushed) buffer) buffer
next-IsFront pushed buffer (rest, e) =
    ([], append-nil _ ∙ rw (← e) (ap (λ q. pushed ++ q) (drop-length pushed rest)))

-- What the turns keep apart from a running decode.
record IsBased (r : StreamRuntime) : Type 0 where
  offset : r.streaming_decode_offset ≡ length r.pushed
  front : (r.cancel_requested ≡ true) ⊎ IsFront r.pushed r.session.audio_buffer

pushed-IsFront :
    (s : Bool) (pushed more buffer : List ℕ)
    → IsFront (if s then pushed ++ more else pushed) buffer
    → IsFront pushed buffer
pushed-IsFront true pushed more buffer (rest, e) =
    (more ++ rest, sym (append_assoc pushed more rest) ∙ e)
pushed-IsFront false pushed more buffer h = h

idle-IsFront :
    (s : Bool) (pushed buffer : List ℕ)
    → IsFront pushed buffer
    → IsFront (if s then pushed ++ [] else pushed) buffer
idle-IsFront true pushed buffer (rest, e) = (rest, ap (λ q. q ++ rest) (append-nil pushed) ∙ e)
idle-IsFront false pushed buffer h = h

IsFed-IsBased : (r : StreamRuntime) → IsFed r → IsBased r
IsFed-IsBased r h = record {
  offset = h.offset;
  front = elim h.fed [
    | inl canceled ↦ inl canceled
    | inr front ↦ inr (
        pushed-IsFront r.streaming_decoder r.pushed (pending r.worker) r.session.audio_buffer front)
  ];
}

idle-IsFed : (r : StreamRuntime) → pending r.worker ≡ [] → IsBased r → IsFed r
idle-IsFed r e h = record {
  offset = h.offset;
  fed = elim h.front [
    | inl canceled ↦ inl canceled
    | inr front ↦
        inr (rw e (idle-IsFront r.streaming_decoder r.pushed r.session.audio_buffer front))
  ];
}

-- A stateful decoder starts on all the bytes that it has not been given.
unpushed-IsFront :
    (r : StreamRuntime)
    → IsBased r
    → (r.cancel_requested ≡ true) ⊎ IsFront (r.pushed ++ unpushed r) r.session.audio_buffer
unpushed-IsFront r h = elim h.front [
  | inl canceled ↦ inl canceled
  | inr front ↦ inr (rw h.offset (next-IsFront r.pushed r.session.audio_buffer front))
]

rearm-IsFed : (r : StreamRuntime) → IsFed r → IsFed (rearm r)
rearm-IsFed r h = if_case IsFed r.dirty (λ _. record { offset = h.offset; fed = h.fed }) (λ _. h)

after_final-IsFed :
    (r : StreamRuntime) (n : ℕ) (t : Transcript) → IsBased r → IsFed (after_final r n t)
unfolding after_final next_transcript_revision
after_final-IsFed r n t h =
    if_case IsFed (r.cancel_requested || r.closed)
      (λ _. idle-IsFed _ refl (record { offset = h.offset; front = h.front }))
      (λ _. idle-IsFed _ refl (record { offset = h.offset; front = h.front }))

begin_final-IsFed : (r : StreamRuntime) → IsBased r → IsFed (begin_final r)
unfolding begin_final
begin_final-IsFed r h =
    if_case IsFed r.streaming_decoder
      (λ s. record { offset = h.offset; fed = rw s (unpushed-IsFront r h) })
      (λ s. reused s (last_partial_if_reusable r.session))
  where
    reused : r.streaming_decoder ≡ false → (o : Option Transcript) → IsFed (reuse_or_decode r o)
    reused s none = record { offset = h.offset; fed = rw s h.front }
    reused s (some t) = after_final-IsFed r (length r.session.audio_buffer) t h

module _ (u : Unicode) where
  publish-IsFed :
      (r : StreamRuntime) (t : Transcript) (n : ℕ)
      → IsBased r
      → r.worker ≡ waiting
      → IsFed (publish r t n)
  unfolding next_transcript_revision
  publish-IsFed r t n h e =
      let is_final = should_finalize_stable_partial r.session in
      let idle : pending r.worker ≡ [] = rw e refl in
      if_case IsFed (is_empty (text_of t)) (λ _. rearm-IsFed r (idle-IsFed r idle h))
        (λ _.
          if_case IsFed is_final
            (λ _. idle-IsFed _ refl (record { offset = h.offset; front = h.front }))
            (λ _.
              rearm-IsFed (enqueue_transcript r t is_final n)
                (idle-IsFed _ idle (record { offset = h.offset; front = h.front }))))

  note_text-keeps :
      (s : StreamSession) (o : Option (List ℕ)) → (note_text s o).audio_buffer ≡ s.audio_buffer
  note_text-keeps s none = refl
  note_text-keeps s (some x) =
      if_case (λ (a : StreamSession). a.audio_buffer ≡ s.audio_buffer)
        (same_text s.stable_partial_text x) (λ _. refl) (λ _. refl)

  recorded-keeps :
      (s : StreamSession) (t : Transcript) (c ms : Option ℕ)
      → (record_transcript_stability u (record_partial s t c ms) t).audio_buffer ≡ s.audio_buffer
  unfolding record_transcript_stability record_partial
  recorded-keeps s t c ms =
      note_text-keeps (record_partial s t c ms) (normalize_stability_text u t.text)

  use_partial-IsFed :
      (r : StreamRuntime) (c ms n : ℕ) (o : Option Transcript)
      → IsBased r
      → r.worker ≡ waiting
      → IsFed (use_partial u r c ms n o)
  unfolding record_partial
  use_partial-IsFed r c ms n none h e =
      rearm-IsFed (count_partial r c ms)
        (idle-IsFed _ (rw e refl) (record { offset = h.offset; front = h.front }))
  use_partial-IsFed r c ms n (some t) h e =
      let s = record_transcript_stability u (record_partial r.session t (some c) (some ms)) t in
      let idle : pending r.worker ≡ [] = rw e refl in
      if_case IsFed r.finalize_requested
        (λ _.
          if_case (λ (a : StreamRuntime). IsFed (record a { audio_updated = true }))
            ((c == r.session.chunks_received) && partial_covers_full_buffer r.session)
            (λ _. idle-IsFed _ idle (record { offset = h.offset; front = h.front }))
            (λ _. idle-IsFed _ idle (record { offset = h.offset; front = h.front })))
        (λ _.
          publish-IsFed (record r { session = s }) t n
            (record {
              offset = h.offset;
              front = rw (recorded-keeps r.session t (some c) (some ms)) h.front;
            })
            e)

  after_partial-IsFed :
      (r : StreamRuntime) (c ms n : ℕ) (o : Option Transcript)
      → IsBased r
      → IsFed (after_partial u r c ms n o)
  unfolding after_partial
  after_partial-IsFed r c ms n o h =
      if_case IsFed (r.cancel_requested || (r.final_emitted || r.closed))
        (λ _. idle-IsFed _ refl (record { offset = h.offset; front = h.front }))
        (λ _.
          use_partial-IsFed (decode_over r) c ms n o (record { offset = h.offset; front = h.front })
            refl)

  push_or_skip-IsFed :
      (r : StreamRuntime) (bytes : List ℕ)
      → IsBased r
      → r.streaming_decoder ≡ true
      → (r.cancel_requested ≡ true) ⊎ IsFront (r.pushed ++ bytes) r.session.audio_buffer
      → IsFed (push_or_skip u r bytes)
  push_or_skip-IsFed r [] h s front =
      after_partial-IsFed (record r { dirty = false }) _ _ 0 none
        (record { offset = h.offset; front = h.front })
  push_or_skip-IsFed r (b ∷ bytes) h s front = record { offset = h.offset; fed = rw s front }

  woken-IsFed : (r : StreamRuntime) → IsFed r → IsFed (woken u r)
  unfolding woken begin_partial
  woken-IsFed r h =
      let based = IsFed-IsBased r h in
      let ended : IsFed (record r { worker = returned }) =
        idle-IsFed _ refl (record { offset = based.offset; front = based.front }) in
      if_case IsFed r.cancel_requested (λ _. ended)
        (λ _.
          if_case IsFed (r.final_emitted || r.closed) (λ _. ended)
            (λ _.
              if_case IsFed r.finalize_requested (λ _. begin_final-IsFed r based)
                (λ _.
                  if_case IsFed (nothing_to_do r) (λ _. record { offset = h.offset; fed = h.fed })
                    (λ _.
                      if_case IsFed r.streaming_decoder
                        (λ s. push_or_skip-IsFed r (unpushed r) based s (unpushed-IsFront r based))
                        (λ s. record { offset = h.offset; fed = rw s based.front })))))

  wake-IsFed : (r : StreamRuntime) (w : Worker) → IsFed r → IsFed (wake u r w)
  wake-IsFed r waiting h =
      if_case IsFed r.audio_updated
        (λ _.
          woken-IsFed (record r { audio_updated = false })
            (record { offset = h.offset; fed = h.fed }))
        (λ _. h)
  wake-IsFed r w h = h

  push_done-IsBased :
      (r : StreamRuntime) (w : Worker) → IsFed r → r.worker ≡ w → IsBased (push_done r (pending w))
  push_done-IsBased r w h e =
      let fed : (r.cancel_requested ≡ true)
          ⊎ IsFront (given r.streaming_decoder r.pushed w) r.session.audio_buffer =
        rw e at h.fed in
      if_case IsBased r.streaming_decoder
        (λ s. record {
          offset = omega (arith, h.offset, length-append r.pushed (pending w));
          front = rw s at fed;
        })
        (λ s. record { offset = h.offset; front = rw s at fed })

  decode_done-IsFed :
      (r : StreamRuntime) (w : Worker) (result : Result StreamError (Option Transcript))
      → IsFed r
      → r.worker ≡ w
      → IsFed (decode_done u r w result)
  unfolding decode_done
  decode_done-IsFed r (in_partial c ms bytes) (ok o) h e =
      after_partial-IsFed (push_done r bytes) c ms (length bytes) o
        (push_done-IsBased r (in_partial c ms bytes) h e)
  decode_done-IsFed r (in_partial c ms bytes) (err x) h e =
      let based = IsFed-IsBased r h in
      idle-IsFed _ refl (record { offset = based.offset; front = based.front })
  decode_done-IsFed r (in_final n bytes) (ok (some t)) h e =
      let based = push_done-IsBased r (in_final n bytes) h e in
      after_final-IsFed (finalize_done r bytes) n t
        (record { offset = based.offset; front = based.front })
  decode_done-IsFed r (in_final n bytes) (ok none) h e =
      let based = push_done-IsBased r (in_final n bytes) h e in
      if_case IsFed ((push_done r bytes).cancel_requested || (push_done r bytes).closed)
        (λ _. idle-IsFed _ refl (record { offset = based.offset; front = based.front }))
        (λ _. idle-IsFed _ refl (record { offset = based.offset; front = based.front }))
  decode_done-IsFed r (in_final n bytes) (err x) h e =
      let based = IsFed-IsBased r h in
      idle-IsFed _ refl (record { offset = based.offset; front = based.front })
  decode_done-IsFed r waiting result h e = h
  decode_done-IsFed r returned result h e = h
  decode_done-IsFed r (raised x) result h e = h

  longer-IsFront :
      {c : Bool} (xs buffer chunk : List ℕ)
      → (c ≡ true) ⊎ IsFront xs buffer
      → (c ≡ true) ⊎ IsFront xs (buffer ++ chunk)
  longer-IsFront xs buffer chunk (inl canceled) = inl canceled
  longer-IsFront xs buffer chunk (inr (rest, e)) =
      inr (rest ++ chunk, sym (append_assoc xs rest chunk) ∙ ap (λ q. q ++ chunk) e)

  take_chunk-IsFed :
      (r : StreamRuntime) (chunk : List ℕ)
      → IsFed r
      → IsFed (take_chunk r (append_audio r.session chunk))
  take_chunk-IsFed r chunk h = elim (append_audio_lem r.session chunk) [
    | inl (fits, taken) ↦
        rw taken
          (record { offset = h.offset; fed = longer-IsFront _ r.session.audio_buffer chunk h.fed })
    | inr (over, refused) ↦ rw refused (record { offset = h.offset; fed = h.fed })
  ]

  send_next-IsFed : (r : StreamRuntime) (queue : _) → IsFed r → IsFed (send_next r queue)
  send_next-IsFed r [] h = h
  send_next-IsFed r (x ∷ rest) h = record { offset = h.offset; fed = h.fed }

  turn-IsFed : (r : StreamRuntime) (t : Turn) → IsFed r → IsFed (turn u r t)
  unfolding turn cancel
  turn-IsFed r (takes_audio chunk) h = take_chunk-IsFed r chunk h
  turn-IsFed r asks_final h =
      if_case IsFed (length r.session.audio_buffer == 0)
        (λ _. record { offset = h.offset; fed = h.fed })
        (λ _. record { offset = h.offset; fed = h.fed })
  turn-IsFed r cancels h = record { offset = h.offset; fed = inl refl }
  turn-IsFed r closes h = record { offset = h.offset; fed = h.fed }
  turn-IsFed r pings h = record { offset = h.offset; fed = h.fed }
  turn-IsFed r wakes h = wake-IsFed r r.worker h
  turn-IsFed r sends h = send_next-IsFed r r.outgoing_events h
  turn-IsFed r (decodes result) h = decode_done-IsFed r r.worker result h refl

  run-IsFed : (r : StreamRuntime) (ts : List Turn) → IsFed r → IsFed (run u r ts)
  unfolding run
  run-IsFed r [] h = h
  run-IsFed r (t ∷ ts) h = run-IsFed (turn u r t) ts (turn-IsFed r t h)

  -- A stateful decoder gets the audio in order and each byte once: under every schedule of a new stream
  -- that has not been canceled, the bytes pushed so far, one push after the other, are the front of
  -- the buffer, and `streaming_decode_offset` is their number.
  pub run-IsFront :
      (s : StreamSession) (stateful : Bool) (ts : List Turn)
      → (run u (started s stateful) ts).cancel_requested ≡ false
      → let r = run u (started s stateful) ts in
        IsFront r.pushed r.session.audio_buffer × (r.streaming_decode_offset ≡ length r.pushed)
  run-IsFront s stateful ts going =
      let r = run u (started s stateful) ts in
      let new : IsFed (started s stateful) =
        idle-IsFed (started s stateful) refl
          (record { offset = refl; front = inr (s.audio_buffer, refl) }) in
      let based = IsFed-IsBased r (run-IsFed (started s stateful) ts new) in
      elim based.front [ inl canceled ↦ cc | inr front ↦ (front, based.offset) ]
