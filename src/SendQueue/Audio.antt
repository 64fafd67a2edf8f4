-- ===== src/SendQueue/Audio.antt =====
-- Which audio the send queue and the pre-roll keep, and in what order.
use rtc_asr.Prelude.{
  ℕ, ◌+◌, ◌-◌, ◌<◌, ◌≡◌, refl, sym, ap, ◌∙◌, ◌⊎◌, inl, inr, not, ◌&&◌, List, [], ◌∷◌, ◌++◌, length,
  min, take, take-append-drop, length-append, length-drop, ltb, arith, if_case, append_assoc, ◌==◌,
}
use rtc_asr.SendQueue.{
  AudioChunk, DropPolicy, drop_oldest, raise_full, block, QueueConfig, SendQueue, Enqueued,
  finished, queue_full, sleeps, drop_front, make_room, is_over, put_or_drop, is_empty_queue,
  enqueue_by, enqueue_chunk, append_pre_roll,
}

abbrev pub IsEnd {ℓ} : {A : Type ℓ} → List A → List A → Type ℓ
IsEnd {A} xs ys = (front : List A) × (front ++ xs ≡ ys)

make_room-IsEnd :
    (config : QueueConfig) (duration : ℕ) (q : SendQueue) (chunks : List AudioChunk)
    → q.send_queue ≡ chunks
    → IsEnd (make_room config duration q chunks).send_queue chunks
unfolding make_room
make_room-IsEnd config duration q [] e = ([], e)
make_room-IsEnd config duration q (c ∷ rest) e =
    let (front, later) = make_room-IsEnd config duration (drop_front config q c rest) rest refl in
    if_case (λ (a : SendQueue). IsEnd a.send_queue (c ∷ rest))
      (ltb config.max_send_queue_ms (q.queued_audio_ms + duration))
      (λ _. (c ∷ front, ap (λ cs. c ∷ cs) later)) (λ _. ([], e))

put_or_drop-IsEnd :
    (config : QueueConfig) (q room : SendQueue) (chunk : AudioChunk)
    → IsEnd room.send_queue q.send_queue
    → IsEnd (put_or_drop config room chunk).send_queue (q.send_queue ++ chunk ∷ [])
      ⊎ ((put_or_drop config room chunk).send_queue ≡ room.send_queue)
put_or_drop-IsEnd config q room chunk (front, e) =
    if_case
      (λ (a : SendQueue).
        IsEnd a.send_queue (q.send_queue ++ chunk ∷ []) ⊎ (a.send_queue ≡ room.send_queue))
      (is_over config room chunk) (λ _. inr refl)
      (λ _. inl (
        front,
        sym (append_assoc front room.send_queue (chunk ∷ [])) ∙ ap (λ cs. cs ++ chunk ∷ []) e,
      ))

-- The chunk comes last and older ones may be gone, or the chunk is dropped and what is left was there.
abbrev pub IsInOrder : SendQueue → AudioChunk → Enqueued → Type 0
IsInOrder q chunk (finished a) =
    IsEnd a.send_queue (q.send_queue ++ chunk ∷ []) ⊎ IsEnd a.send_queue q.send_queue
IsInOrder q chunk (queue_full a) = a.send_queue ≡ q.send_queue
IsInOrder q chunk sleeps = Unit {0}

roomy-IsInOrder :
    (config : QueueConfig) (q : SendQueue) (chunk : AudioChunk)
    → IsInOrder q chunk
        (finished (put_or_drop config (make_room config chunk.duration_ms q q.send_queue) chunk))
roomy-IsInOrder config q chunk =
    let room = make_room config chunk.duration_ms q q.send_queue in
    let (front, e) = make_room-IsEnd config chunk.duration_ms q q.send_queue refl in
    elim (put_or_drop-IsEnd config q room chunk (front, e)) [
      | inl put ↦ inl put
      | inr same ↦ inr (front, ap (λ cs. front ++ cs) same ∙ e)
    ]

enqueue_by-IsInOrder :
    (policy : DropPolicy) (config : QueueConfig) (q : SendQueue) (chunk : AudioChunk)
    → IsInOrder q chunk (enqueue_by policy config q chunk)
enqueue_by-IsInOrder drop_oldest config q chunk = roomy-IsInOrder config q chunk
enqueue_by-IsInOrder raise_full config q chunk =
    if_case (IsInOrder q chunk) (is_over config q chunk) (λ _. refl)
      (λ _. roomy-IsInOrder config q chunk)
enqueue_by-IsInOrder block config q chunk =
    if_case (IsInOrder q chunk) (not (is_over config q chunk)) (λ _. inl ([], refl))
      (λ _.
        if_case (IsInOrder q chunk)
          (is_empty_queue q.send_queue && ltb config.max_send_queue_ms chunk.duration_ms)
          (λ _. inl ([], refl)) (λ _. tt))

-- The queue keeps the order of the audio and loses the oldest first: after a chunk it is an end of
-- the old queue with the chunk behind it, or an end of the old queue where the chunk is dropped;
-- where `QueueFull` is raised it is the old queue.
pub enqueue_chunk-IsInOrder :
    (config : QueueConfig) (q : SendQueue) (chunk : AudioChunk)
    → IsInOrder q chunk (enqueue_chunk config q chunk)
unfolding enqueue_chunk
enqueue_chunk-IsInOrder config q chunk = enqueue_by-IsInOrder config.drop_policy config q chunk

-- The pre-roll is the newest audio: with a positive limit it is an end of the old pre-roll with the new audio
-- behind it, all of that while it fits and `pre_roll_bytes` bytes of it then.
pub append_pre_roll-IsEnd :
    (config : QueueConfig) (q : SendQueue) (audio : List ℕ)
    → 0 < config.pre_roll_bytes
    → IsEnd (append_pre_roll config q audio).pre_roll_buffer (q.pre_roll_buffer ++ audio)
      × (length (append_pre_roll config q audio).pre_roll_buffer
          ≡ min config.pre_roll_bytes (length q.pre_roll_buffer + length audio))
unfolding append_pre_roll
append_pre_roll-IsEnd config q audio positive =
    let all = q.pre_roll_buffer ++ audio in
    let extra = length all - config.pre_roll_bytes in
    if_case
      (λ (a : SendQueue).
        IsEnd a.pre_roll_buffer all
        × (length a.pre_roll_buffer
            ≡ min config.pre_roll_bytes (length q.pre_roll_buffer + length audio)))
      (config.pre_roll_bytes == 0) (λ none_kept. ground arith)
      (λ _. (
        (take extra all, take-append-drop extra all),
        omega (arith, length-drop extra all, length-append q.pre_roll_buffer audio),
      ))
