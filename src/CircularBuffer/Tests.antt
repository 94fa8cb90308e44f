-- ===== src/CircularBuffer/Tests.antt =====
-- Runs of the byte ring, and its theorems at concrete buffers.
use garbage_os.Base.{◌+◌, ◌<◌, ◌≡◌, refl, true, false, [], ◌∷◌, ◌++◌, arith}
use garbage_os.CircularBuffer.{
  CircularBuffer, make_circular_buffer, write_circular_buffer, read_circular_buffer,
  has_circular_buffer_lost_data,
}
use garbage_os.CircularBuffer.Contents.{
  IsValid, contents, pending, ReadOf, make_circular_buffer-IsValid, contents-write, read-ReadOf,
}
use garbage_os.CircularBuffer.Loss.{Written, write-data_lost}

-- Bytes 8 and 9, of which the second stands at the front of the storage.
abbrev wrapped : CircularBuffer
wrapped = record {
  buffer = 9 ∷ 0 ∷ 0 ∷ 8 ∷ [];
  buffer_size = 4;
  read_idx = 3;
  old_write_idx = 0;
  write_idx = 1;
  data_lost = false;
}

wrapped-IsValid : IsValid wrapped
wrapped-IsValid = omega arith

contents-wrapped : contents wrapped ≡ 8 ∷ 9 ∷ []
contents-wrapped = refl

-- The flag is returned and cleared.
lost_flag_cleared :
    (has_circular_buffer_lost_data (record wrapped { data_lost = true })) ≡ (true, wrapped)
unfolding has_circular_buffer_lost_data
lost_flag_cleared = refl

make_circular_buffer-IsValid_example :
    IsValid (make_circular_buffer (0 ∷ 0 ∷ 0 ∷ []) 77 3)
    × (contents (make_circular_buffer (0 ∷ 0 ∷ 0 ∷ []) 77 3) ≡ [])
make_circular_buffer-IsValid_example =
    make_circular_buffer-IsValid (0 ∷ 0 ∷ 0 ∷ []) 77 3 refl (omega arith) (omega arith)

contents-write_example :
    (pending wrapped + 1 < 4 → contents (write_circular_buffer wrapped 5) ≡ (8 ∷ 9 ∷ []) ++ 5 ∷ [])
    × (pending wrapped + 1 ≡ 4 → contents (write_circular_buffer wrapped 5) ≡ [])
contents-write_example = contents-write 5 wrapped-IsValid

read-ReadOf_example : ReadOf (8 ∷ 9 ∷ []) (read_circular_buffer wrapped)
read-ReadOf_example = read-ReadOf wrapped-IsValid

write-data_lost_example :
    ((write_circular_buffer wrapped 5).data_lost ≡ false)
    × Written (write_circular_buffer wrapped 5)
write-data_lost_example = write-data_lost 5 wrapped-IsValid (omega arith, refl) (omega arith)
