-- ===== src/CircularBuffer.antt =====
-- kernel/util/circular_buffer.c: a byte ring without a count. The pointer `buffer` and the bytes
-- behind it are one field, a list of bytes.
pub mod Contents
pub mod Loss
mod Tests
use garbage_os.Base.{
  ℕ, ◌+◌, ◌-◌, ◌%◌, ◌^◌, Bool, true, false, ◌&&◌, ◌||◌, List, ◌==◌, ltb, if◌then◌else◌, not, get_or,
  set, add64, sub64, Outcome, ok, ◌>>=◌, ◌>>◌, kassert,
}

-- `struct CircularBuffer`
pub record CircularBuffer : Type 0 where
  pub buffer : List ℕ
  pub buffer_size : ℕ
  pub read_idx : ℕ
  pub old_write_idx : ℕ
  pub write_idx : ℕ
  pub data_lost : Bool

-- `storage` is what `kmalloc(size)` returned; `old_write_idx` is left as it is on the stack.
pub make_circular_buffer : (storage : List ℕ) (stack_garbage size : ℕ) → CircularBuffer
make_circular_buffer storage stack_garbage size = record {
  buffer = storage;
  buffer_size = size;
  read_idx = 0;
  old_write_idx = stack_garbage;
  write_idx = 0;
  data_lost = false;
}

unfoldable pub is_circular_buffer_empty : CircularBuffer → Bool
is_circular_buffer_empty b = b.read_idx == b.write_idx

-- A store outside the storage changes nothing in the model; `IsValid` rules it out.
pub write_circular_buffer : CircularBuffer → ℕ → CircularBuffer
write_circular_buffer b x = record b {
  data_lost =
      b.data_lost || ((sub64 b.old_write_idx 1 == b.read_idx) && (b.write_idx == b.read_idx));
  buffer = set b.buffer b.write_idx x;
  old_write_idx = b.write_idx;
  write_idx = add64 b.write_idx 1 % b.buffer_size;
}

pub read_circular_buffer : CircularBuffer → Outcome (ℕ × CircularBuffer)
unfolding is_circular_buffer_empty
read_circular_buffer b = do
  kassert (not (is_circular_buffer_empty b))
  ok (get_or b.buffer b.read_idx 0, record b { read_idx = add64 b.read_idx 1 % b.buffer_size })

-- Returns the flag and clears it.
pub has_circular_buffer_lost_data : CircularBuffer → Bool × CircularBuffer
has_circular_buffer_lost_data b = (b.data_lost, record b { data_lost = false })

pub circular_buffer_written_bytes : CircularBuffer → ℕ
circular_buffer_written_bytes b =
    if ltb b.read_idx b.write_idx
    then sub64 b.write_idx b.read_idx
    else add64 (sub64 b.buffer_size b.read_idx) b.write_idx
