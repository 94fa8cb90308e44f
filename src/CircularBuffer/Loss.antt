-- ===== src/CircularBuffer/Loss.antt =====
-- When the buffer reports lost bytes.
use garbage_os.Base.{ℕ, ◌<◌, ◌≡◌, arith}
use garbage_os.CircularBuffer.{CircularBuffer, write_circular_buffer}
use garbage_os.CircularBuffer.Contents.{IsValid, next, next_cases}

-- `old_write_idx` is the index before `write_idx`, as every write leaves it.
abbrev pub Written : CircularBuffer → Type 0
Written b = (b.old_write_idx < b.buffer_size) × (next b.buffer_size b.old_write_idx ≡ b.write_idx)

-- On a valid buffer of more than two bytes whose last write has left `old_write_idx` just before
-- `write_idx`, a write leaves the flag of lost bytes as it is, also the write that empties a full buffer,
-- and the next write finds the same situation. A new buffer is not such a one.
pub write-data_lost :
    {b : CircularBuffer} (x : ℕ)
    → IsValid b
    → Written b
    → 2 < b.buffer_size
    → ((write_circular_buffer b x).data_lost ≡ b.data_lost) × Written (write_circular_buffer b x)
unfolding write_circular_buffer
write-data_lost {b} x v w big = ground (arith, next_cases b.buffer_size b.old_write_idx)
