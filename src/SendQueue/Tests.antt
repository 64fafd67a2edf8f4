-- ===== src/SendQueue/Tests.antt =====
-- Runs of the send queue, and its theorems at concrete inputs.
use rtc_asr.Prelude.Rounding.{round_half_even}
use rtc_asr.Prelude.{ℕ, ◌≡◌, refl, List, [], ◌∷◌, length, min, arith}
use rtc_asr.SendQueue.{
  AudioChunk, drop_oldest, QueueConfig, SendQueue, finished, enqueue_chunk, make_room,
  queue_audio_for_send, flush_aggregate_buffer, append_pre_roll,
}
use rtc_asr.SendQueue.Bounds.{
  enqueue_chunk-IsAccounted, enqueue_chunk-IsWithin, IsAccounted, IsWithin, After,
}
use rtc_asr.SendQueue.Audio.{enqueue_chunk-IsInOrder, IsInOrder, append_pre_roll-IsEnd}

-- Forty units of time at most, eight to a microsecond; chunks of two bytes, ten units a byte.
abbrev config : QueueConfig
config = record {
  drop_policy = drop_oldest;
  max_send_queue_ms = 40;
  aggregation_bytes = 2;
  pre_roll_bytes = 3;
  byte_duration = 10;
  microsecond = 8;
}

abbrev chunk_of : List ℕ → AudioChunk
chunk_of bytes = record { data_bytes = bytes; duration_ms = 20; generation = 1 }

abbrev queue_of : List AudioChunk → ℕ → SendQueue
queue_of chunks queued = record {
  send_queue = chunks;
  queued_audio_ms = queued;
  aggregate_buffer = [];
  aggregate_duration_ms = 0;
  pre_roll_buffer = 1 ∷ 2 ∷ [];
  current_generation = 1;
  frames_dropped_total = 0;
  dropped_audio_ms_total = 0;
  oversized_audio_chunks_total = 0;
  oversized_audio_ms_total = 0;
}

abbrev first_chunk : AudioChunk
first_chunk = chunk_of (1 ∷ 2 ∷ [])

abbrev second_chunk : AudioChunk
second_chunk = chunk_of (3 ∷ 4 ∷ [])

abbrev third_chunk : AudioChunk
third_chunk = chunk_of (5 ∷ 6 ∷ [])

abbrev full : SendQueue
full = queue_of (first_chunk ∷ second_chunk ∷ []) 40

-- The oldest chunk makes room for the new one; two and a half microseconds count as two.
drop_run :
    queue_audio_for_send config full (5 ∷ 6 ∷ [])
    ≡ finished (record full {
      send_queue = second_chunk ∷ third_chunk ∷ [];
      frames_dropped_total = 1;
      dropped_audio_ms_total = 16;
    })
unfolding queue_audio_for_send flush_aggregate_buffer enqueue_chunk make_room round_half_even
drop_run = refl

pre_roll_run : (append_pre_roll config full (3 ∷ 4 ∷ [])).pre_roll_buffer ≡ 2 ∷ 3 ∷ 4 ∷ []
unfolding append_pre_roll
pre_roll_run = refl

enqueue_chunk-IsAccounted_example :
    After (IsAccounted config full 20) (enqueue_chunk config full third_chunk)
enqueue_chunk-IsAccounted_example =
    enqueue_chunk-IsAccounted config full third_chunk (omega arith) (omega arith)

enqueue_chunk-IsWithin_example :
    After (IsWithin config drop_oldest third_chunk) (enqueue_chunk config full third_chunk)
enqueue_chunk-IsWithin_example = enqueue_chunk-IsWithin config full third_chunk (omega arith)

enqueue_chunk-IsInOrder_example : IsInOrder full third_chunk (enqueue_chunk config full third_chunk)
enqueue_chunk-IsInOrder_example = enqueue_chunk-IsInOrder config full third_chunk

append_pre_roll-IsEnd_example :
    length (append_pre_roll config full (3 ∷ 4 ∷ [])).pre_roll_buffer ≡ min 3 4
append_pre_roll-IsEnd_example = (append_pre_roll-IsEnd config full (3 ∷ 4 ∷ []) (omega arith)).1
