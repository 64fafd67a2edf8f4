-- ===== src/SendQueue/Bounds.antt =====
-- How much audio the send queue holds, and that none goes uncounted.
use rtc_asr.Prelude.Rounding.{round_half_even_bounds}
use rtc_asr.Prelude.{
  ℕ, ◌+◌, ◌*◌, ◌<◌, ◌≤◌, ◌≡◌, refl, ap, ◌⊎◌, inl, inr, true, not, ◌&&◌, List, [], ◌∷◌, ◌++◌, ltb,
  arith, if_case,
}
use rtc_asr.SendQueue.{
  AudioChunk, DropPolicy, drop_oldest, raise_full, block, QueueConfig, SendQueue, Enqueued,
  finished, queue_full, sleeps, put_chunk, drop_front, make_room, is_over, put_or_drop,
  is_empty_queue, enqueue_by, enqueue_chunk, record_oversized, record_dropped, round_3,
  clear_chunks, clear_send_queue,
}

abbrev pub total : List AudioChunk → ℕ
total [] = 0
total (c ∷ cs) = c.duration_ms + total cs

total-append : (xs ys : List AudioChunk) → total (xs ++ ys) ≡ total xs + total ys
total-append [] ys = omega arith
total-append (x ∷ xs) ys = omega (arith, total-append xs ys)

-- The counter is the audio in the queue.
abbrev pub IsCounted : SendQueue → Type 0
IsCounted q = q.queued_audio_ms ≡ total q.send_queue

-- Audio that was queued or dropped before, or has just come, is queued or dropped now, but for half a
-- microsecond for each time that audio was dropped, by which the rounded total may be off.
abbrev pub IsAccounted : QueueConfig → SendQueue → ℕ → SendQueue → Type 0
IsAccounted config q duration a =
    IsCounted a
    × (drops : ℕ) × (a.frames_dropped_total ≡ q.frames_dropped_total + drops)
    × (2 * (a.dropped_audio_ms_total + a.queued_audio_ms)
        ≤ 2 * (q.dropped_audio_ms_total + q.queued_audio_ms + duration)
          + drops * config.microsecond)
    × (2 * (q.dropped_audio_ms_total + q.queued_audio_ms + duration)
        ≤ 2 * (a.dropped_audio_ms_total + a.queued_audio_ms) + drops * config.microsecond)

-- What holds of the queue after any outcome.
abbrev pub After : (SendQueue → Type 0) → Enqueued → Type 0
After P (finished a) = P a
After P (queue_full a) = P a
After P sleeps = Unit {0}

more_drops : (m n unit : ℕ) → (m + n) * unit ≡ m * unit + n * unit
more_drops m n unit = grind arith

module _ (config : QueueConfig) (unit : 0 < config.microsecond) where
  -- The rounded total is within half a microsecond.
  round_3-near :
      (duration : ℕ)
      → (2 * round_3 config duration ≤ 2 * duration + config.microsecond)
        × (2 * duration ≤ 2 * round_3 config duration + config.microsecond)
  round_3-near duration = round_half_even_bounds duration config.microsecond unit

  unchanged : (q : SendQueue) → IsCounted q → IsAccounted config q 0 q
  unchanged q counted = (counted, 0, omega arith, omega arith, omega arith)

  -- The first chunk is dropped, and then what `a` tells.
  front-IsAccounted :
      (q a : SendQueue) (front : AudioChunk) (rest : List AudioChunk)
      → q.queued_audio_ms ≡ front.duration_ms + total rest
      → IsAccounted config (drop_front config q front rest) 0 a
      → IsAccounted config q 0 a
  front-IsAccounted q a front rest counted (kept, drops, frames, above, below) =
      let near = round_3-near (q.dropped_audio_ms_total + front.duration_ms) in
      let one = more_drops 1 drops config.microsecond in
      (
        kept,
        1 + drops,
        omega (arith, frames),
        omega (arith, counted, above, near.0, one),
        omega (arith, counted, below, near.1, one),
      )

  make_room-IsAccounted :
      (duration : ℕ) (q : SendQueue) (chunks : List AudioChunk)
      → q.send_queue ≡ chunks
      → IsCounted q
      → IsAccounted config q 0 (make_room config duration q chunks)
  unfolding make_room
  make_room-IsAccounted duration q [] e h = unchanged q h
  make_room-IsAccounted duration q (front ∷ rest) e h =
      let counted : q.queued_audio_ms ≡ front.duration_ms + total rest = rw e at h in
      let later =
        make_room-IsAccounted duration (drop_front config q front rest) rest refl (omega arith) in
      if_case (IsAccounted config q 0) (ltb config.max_send_queue_ms (q.queued_audio_ms + duration))
        (λ _.
          front-IsAccounted q (make_room config duration (drop_front config q front rest) rest)
            front rest counted later)
        (λ _. unchanged q h)

  put_chunk-IsAccounted :
      (q : SendQueue) (chunk : AudioChunk)
      → IsCounted q
      → IsAccounted config q chunk.duration_ms (put_chunk q chunk)
  put_chunk-IsAccounted q chunk h = (
    omega (arith, total-append q.send_queue (chunk ∷ [])),
    0,
    omega arith,
    omega arith,
    omega arith,
  )

  -- The chunk itself is dropped.
  drop-IsAccounted :
      (q : SendQueue) (chunk : AudioChunk)
      → IsCounted q
      → IsAccounted config q chunk.duration_ms (record_dropped config q chunk.duration_ms)
  drop-IsAccounted q chunk h =
      let near = round_3-near (q.dropped_audio_ms_total + chunk.duration_ms) in
      (h, 1, omega arith, omega (arith, near.0), omega (arith, near.1))

  put_or_drop-IsAccounted :
      (q : SendQueue) (chunk : AudioChunk)
      → IsCounted q
      → IsAccounted config q chunk.duration_ms (put_or_drop config q chunk)
  put_or_drop-IsAccounted q chunk h =
      if_case (IsAccounted config q chunk.duration_ms) (is_over config q chunk)
        (λ _. drop-IsAccounted q chunk h) (λ _. put_chunk-IsAccounted q chunk h)

  -- One after the other.
  both-IsAccounted :
      (q room a : SendQueue) (duration : ℕ)
      → IsAccounted config q 0 room
      → IsAccounted config room duration a
      → IsAccounted config q duration a
  both-IsAccounted q room a duration (_, made, made_frames, made_above, made_below)
        (kept, put, put_frames, above, below) =
      let sum = more_drops made put config.microsecond in
      (
        kept,
        made + put,
        omega (arith, made_frames, put_frames),
        omega (arith, made_above, above, sum),
        omega (arith, made_below, below, sum),
      )

  roomy-IsAccounted :
      (q : SendQueue) (chunk : AudioChunk)
      → IsCounted q
      → IsAccounted config q chunk.duration_ms
          (put_or_drop config (make_room config chunk.duration_ms q q.send_queue) chunk)
  roomy-IsAccounted q chunk h =
      let room = make_room config chunk.duration_ms q q.send_queue in
      let made = make_room-IsAccounted chunk.duration_ms q q.send_queue refl h in
      both-IsAccounted q room (put_or_drop config room chunk) chunk.duration_ms made
        (put_or_drop-IsAccounted room chunk made.0)

  enqueue_by-IsAccounted :
      (policy : DropPolicy) (q : SendQueue) (chunk : AudioChunk)
      → IsCounted q
      → After (IsAccounted config q chunk.duration_ms) (enqueue_by policy config q chunk)
  enqueue_by-IsAccounted drop_oldest q chunk h = roomy-IsAccounted q chunk h
  enqueue_by-IsAccounted raise_full q chunk h =
      if_case (After (IsAccounted config q chunk.duration_ms)) (is_over config q chunk)
        (λ _. drop-IsAccounted q chunk h) (λ _. roomy-IsAccounted q chunk h)
  enqueue_by-IsAccounted block q chunk h =
      if_case (After (IsAccounted config q chunk.duration_ms)) (not (is_over config q chunk))
        (λ _. put_chunk-IsAccounted q chunk h)
        (λ _.
          if_case (After (IsAccounted config q chunk.duration_ms))
            (is_empty_queue q.send_queue && ltb config.max_send_queue_ms chunk.duration_ms)
            (λ _. put_chunk-IsAccounted (record_oversized config q chunk.duration_ms) chunk h)
            (λ _. tt))

-- Under every policy, whether the chunk is queued, dropped or refused: the counter stays the
-- audio in the queue, and all audio that was queued or dropped before, with that of the chunk, is queued or
-- counted as dropped, up to half a microsecond for each time that audio was dropped.
pub enqueue_chunk-IsAccounted :
    (config : QueueConfig) (q : SendQueue) (chunk : AudioChunk)
    → 0 < config.microsecond
    → IsCounted q
    → After (IsAccounted config q chunk.duration_ms) (enqueue_chunk config q chunk)
unfolding enqueue_chunk
enqueue_chunk-IsAccounted config q chunk unit h =
    enqueue_by-IsAccounted config unit config.drop_policy q chunk h

-- The queue is within its limit; a blocking queue may hold one oversized chunk, alone.
abbrev pub IsWithin : QueueConfig → DropPolicy → AudioChunk → SendQueue → Type 0
IsWithin config block chunk a =
    (a.queued_audio_ms ≤ config.max_send_queue_ms) ⊎ (a.send_queue ≡ chunk ∷ [])
IsWithin config policy chunk a = a.queued_audio_ms ≤ config.max_send_queue_ms

make_room-smaller :
    (config : QueueConfig) (duration : ℕ) (q : SendQueue) (chunks : List AudioChunk)
    → (make_room config duration q chunks).queued_audio_ms ≤ q.queued_audio_ms
unfolding make_room
make_room-smaller config duration q [] = omega arith
make_room-smaller config duration q (front ∷ rest) =
    let later = make_room-smaller config duration (drop_front config q front rest) rest in
    if_case (λ (a : SendQueue). a.queued_audio_ms ≤ q.queued_audio_ms)
      (ltb config.max_send_queue_ms (q.queued_audio_ms + duration)) (λ _. omega (arith, later))
      (λ _. omega arith)

roomy_within :
    (config : QueueConfig) (q : SendQueue) (chunk : AudioChunk)
    → q.queued_audio_ms ≤ config.max_send_queue_ms
    → (put_or_drop config (make_room config chunk.duration_ms q q.send_queue) chunk).queued_audio_ms
      ≤ config.max_send_queue_ms
roomy_within config q chunk h =
    let room = make_room config chunk.duration_ms q q.send_queue in
    let smaller = make_room-smaller config chunk.duration_ms q q.send_queue in
    if_case (λ (a : SendQueue). a.queued_audio_ms ≤ config.max_send_queue_ms)
      (is_over config room chunk) (λ _. omega arith) (λ fits. ground arith)

lone :
    (config : QueueConfig) (q : SendQueue) (chunk : AudioChunk) (chunks : List AudioChunk)
    → q.send_queue ≡ chunks
    → (is_empty_queue chunks && ltb config.max_send_queue_ms chunk.duration_ms) ≡ true
    → q.send_queue ++ chunk ∷ [] ≡ chunk ∷ []
lone config q chunk [] e h = ap (λ cs. cs ++ chunk ∷ []) e
lone config q chunk (c ∷ cs) e h = cc

enqueue_by-IsWithin :
    (policy : DropPolicy) (config : QueueConfig) (q : SendQueue) (chunk : AudioChunk)
    → q.queued_audio_ms ≤ config.max_send_queue_ms
    → After (IsWithin config policy chunk) (enqueue_by policy config q chunk)
enqueue_by-IsWithin drop_oldest config q chunk h = roomy_within config q chunk h
enqueue_by-IsWithin raise_full config q chunk h =
    if_case (After (IsWithin config raise_full chunk)) (is_over config q chunk) (λ _. h)
      (λ _. roomy_within config q chunk h)
enqueue_by-IsWithin block config q chunk h =
    if_case (After (IsWithin config block chunk)) (not (is_over config q chunk))
      (λ fits. inl (ground arith))
      (λ _.
        if_case (After (IsWithin config block chunk))
          (is_empty_queue q.send_queue && ltb config.max_send_queue_ms chunk.duration_ms)
          (λ oversized. inr (lone config q chunk q.send_queue refl oversized)) (λ _. tt))

-- A queue within its limit stays within it, under every policy and whatever becomes of the chunk; only
-- a blocking queue may come to hold more, and then it holds the one new chunk.
pub enqueue_chunk-IsWithin :
    (config : QueueConfig) (q : SendQueue) (chunk : AudioChunk)
    → q.queued_audio_ms ≤ config.max_send_queue_ms
    → After (IsWithin config config.drop_policy chunk) (enqueue_chunk config q chunk)
unfolding enqueue_chunk
enqueue_chunk-IsWithin config q chunk h = enqueue_by-IsWithin config.drop_policy config q chunk h

clear_chunks_counts :
    (config : QueueConfig) (q : SendQueue) (chunks : List AudioChunk)
    → 0 < config.microsecond
    → q.send_queue ≡ chunks
    → IsCounted q
    → IsAccounted config q 0 (clear_chunks config q chunks)
      × ((clear_chunks config q chunks).send_queue ≡ [])
unfolding clear_chunks
clear_chunks_counts config q [] unit e h = (unchanged config unit q h, e)
clear_chunks_counts config q (front ∷ rest) unit e h =
    let counted : q.queued_audio_ms ≡ front.duration_ms + total rest = rw e at h in
    let later =
      clear_chunks_counts config (drop_front config q front rest) rest unit refl (omega arith) in
    (
      front-IsAccounted config unit q (clear_chunks config (drop_front config q front rest) rest)
          front rest counted later.0,
      later.1,
    )

-- Clearing a queue whose counter is its audio leaves it empty, and accounts for all the audio that it held.
clear_send_queue_lem :
    (config : QueueConfig) (q : SendQueue)
    → 0 < config.microsecond
    → IsCounted q
    → IsAccounted config q 0 (clear_send_queue config q)
      × ((clear_send_queue config q).send_queue ≡ [])
unfolding clear_send_queue
clear_send_queue_lem config q unit h = clear_chunks_counts config q q.send_queue unit refl h
