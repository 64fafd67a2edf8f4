-- ===== src/SendQueue.antt =====
-- The send queue of `LocalStreamingSTTService` in
-- pipecat-local-stt/src/pipecat_local_stt/service.py: audio on its way from the pipeline to the
-- server, with the aggregation in front of it, the pre-roll and the drop policies. Durations are exact
-- numbers of some fraction of a microsecond, of which the source keeps floats; the totals of the metrics are
-- rounded to microseconds after each addition, as in the source. Of the metrics, the
-- totals of dropped and oversized audio are modelled.
pub mod Bounds
pub mod Audio
mod Tests
use rtc_asr.Prelude.Rounding.{round_half_even}
use rtc_asr.Prelude.{
  ℕ, zero, suc, ◌+◌, ◌-◌, ◌*◌, Bool, true, false, not, ◌&&◌, Option, none, some, List, [], ◌∷◌,
  ◌++◌, length, drop, ltb, leb, ◌==◌, if◌then◌else◌,
}

pub record AudioChunk : Type 0 where
  pub data_bytes : List ℕ
  pub duration_ms : ℕ
  pub generation : ℕ

pub data DropPolicy : Type 0 where
  drop_oldest raise_full block : DropPolicy

-- The fields of `LocalSTTConfig` that the queue reads, the duration of one byte, and a microsecond.
pub record QueueConfig : Type 0 where
  pub drop_policy : DropPolicy
  pub max_send_queue_ms : ℕ
  pub aggregation_bytes : ℕ
  pub pre_roll_bytes : ℕ
  pub byte_duration : ℕ
  pub microsecond : ℕ

pub record SendQueue : Type 0 where
  pub send_queue : List AudioChunk
  pub queued_audio_ms : ℕ
  pub aggregate_buffer : List ℕ
  pub aggregate_duration_ms : ℕ
  pub pre_roll_buffer : List ℕ
  pub current_generation : ℕ
  pub frames_dropped_total : ℕ
  pub dropped_audio_ms_total : ℕ
  pub oversized_audio_chunks_total : ℕ
  pub oversized_audio_ms_total : ℕ

-- What `_enqueue_chunk` comes to: the chunk is queued or dropped, `QueueFull` is raised, or the caller
-- sleeps and tries again.
pub data Enqueued : Type 0 where
  finished : SendQueue → Enqueued
  queue_full : SendQueue → Enqueued
  sleeps : Enqueued

abbrev pub put_chunk : SendQueue → AudioChunk → SendQueue
put_chunk q chunk = record q {
  send_queue = q.send_queue ++ chunk ∷ [];
  queued_audio_ms = q.queued_audio_ms + chunk.duration_ms;
}

-- `round(duration, 3)`: to whole microseconds.
abbrev pub round_3 : QueueConfig → ℕ → ℕ
round_3 config duration = round_half_even duration config.microsecond * config.microsecond

abbrev pub record_dropped : QueueConfig → SendQueue → ℕ → SendQueue
record_dropped config q duration = record q {
  frames_dropped_total = q.frames_dropped_total + 1;
  dropped_audio_ms_total = round_3 config (q.dropped_audio_ms_total + duration);
}

abbrev pub record_oversized : QueueConfig → SendQueue → ℕ → SendQueue
record_oversized config q duration = record q {
  oversized_audio_chunks_total = q.oversized_audio_chunks_total + 1;
  oversized_audio_ms_total = round_3 config (q.oversized_audio_ms_total + duration);
}

-- The chunk at the front of the queue goes, and `rest` stays.
abbrev pub drop_front : QueueConfig → SendQueue → AudioChunk → List AudioChunk → SendQueue
drop_front config q dropped rest =
    record_dropped config
      (record q { send_queue = rest; queued_audio_ms = q.queued_audio_ms - dropped.duration_ms })
      dropped.duration_ms

-- The `while` loop that makes room, by the chunks of the queue.
unfoldable pub make_room : QueueConfig → ℕ → SendQueue → List AudioChunk → SendQueue
make_room config duration q [] = q
make_room config duration q (front ∷ rest) =
    let after = make_room config duration (drop_front config q front rest) rest in
    if ltb config.max_send_queue_ms (q.queued_audio_ms + duration) then after else q

abbrev pub is_over : QueueConfig → SendQueue → AudioChunk → Bool
is_over config q chunk = ltb config.max_send_queue_ms (q.queued_audio_ms + chunk.duration_ms)

abbrev pub put_or_drop : QueueConfig → SendQueue → AudioChunk → SendQueue
put_or_drop config q chunk =
    if is_over config q chunk then record_dropped config q chunk.duration_ms else put_chunk q chunk

abbrev pub is_empty_queue : List AudioChunk → Bool
is_empty_queue [] = true
is_empty_queue (c ∷ cs) = false

abbrev pub enqueue_blocking : QueueConfig → SendQueue → AudioChunk → Enqueued
enqueue_blocking config q chunk =
    if not (is_over config q chunk)
    then finished (put_chunk q chunk)
    else if is_empty_queue q.send_queue && ltb config.max_send_queue_ms chunk.duration_ms
    then finished (put_chunk (record_oversized config q chunk.duration_ms) chunk)
    else sleeps

abbrev pub enqueue_by : DropPolicy → QueueConfig → SendQueue → AudioChunk → Enqueued
enqueue_by block config q chunk = enqueue_blocking config q chunk
enqueue_by raise_full config q chunk =
    if is_over config q chunk
    then queue_full (record_dropped config q chunk.duration_ms)
    else finished (put_or_drop config (make_room config chunk.duration_ms q q.send_queue) chunk)
enqueue_by drop_oldest config q chunk =
    finished (put_or_drop config (make_room config chunk.duration_ms q q.send_queue) chunk)

unfoldable pub enqueue_chunk : QueueConfig → SendQueue → AudioChunk → Enqueued
enqueue_chunk config q chunk = enqueue_by config.drop_policy config q chunk

-- The audio gathered so far becomes a chunk.
abbrev pub aggregate_chunk : SendQueue → AudioChunk
aggregate_chunk q = record {
  data_bytes = q.aggregate_buffer;
  duration_ms = q.aggregate_duration_ms;
  generation = q.current_generation;
}

abbrev pub emptied : SendQueue → SendQueue
emptied q = record q { aggregate_buffer = []; aggregate_duration_ms = 0 }

abbrev flush_bytes : QueueConfig → SendQueue → List ℕ → Enqueued
flush_bytes config q [] = finished q
flush_bytes config q (b ∷ bytes) = enqueue_chunk config (emptied q) (aggregate_chunk q)

unfoldable pub flush_aggregate_buffer : QueueConfig → SendQueue → Enqueued
flush_aggregate_buffer config q = flush_bytes config q q.aggregate_buffer

unfoldable pub queue_audio_for_send : QueueConfig → SendQueue → List ℕ → Enqueued
unfolding flush_aggregate_buffer
queue_audio_for_send config q audio =
    let gathered = record q {
      aggregate_buffer = q.aggregate_buffer ++ audio;
      aggregate_duration_ms = q.aggregate_duration_ms + length audio * config.byte_duration;
    } in
    if leb config.aggregation_bytes (length gathered.aggregate_buffer)
    then flush_aggregate_buffer config gathered
    else finished gathered

-- What the send loop does with the chunk at the front.
unfoldable pub take_next : SendQueue → Option (AudioChunk × SendQueue)
take_next q = elim q.send_queue [
  | [] ↦ none
  | front ∷ rest ↦ some (
    front,
    record q { send_queue = rest; queued_audio_ms = q.queued_audio_ms - front.duration_ms },
  )
]

unfoldable pub clear_chunks : QueueConfig → SendQueue → List AudioChunk → SendQueue
clear_chunks config q [] = q
clear_chunks config q (front ∷ rest) = clear_chunks config (drop_front config q front rest) rest

unfoldable pub clear_send_queue : QueueConfig → SendQueue → SendQueue
clear_send_queue config q = clear_chunks config q q.send_queue

unfoldable pub append_pre_roll : QueueConfig → SendQueue → List ℕ → SendQueue
append_pre_roll config q audio = if config.pre_roll_bytes == 0 then q else record q {
  pre_roll_buffer =
      drop (length (q.pre_roll_buffer ++ audio) - config.pre_roll_bytes)
        (q.pre_roll_buffer ++ audio);
}
