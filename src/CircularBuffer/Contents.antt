-- ===== src/CircularBuffer/Contents.antt =====
-- What a valid buffer holds, oldest byte first, and what each operation does to that.
use mathlib.Core.Path.{ap₂}
use native.Mathlib.Decide.{ℕ_discrete, dec_lt}
use native.Mathlib.Nat.{mod-eq_of_lt, mod_self}
use garbage_os.Base.{
  ℕ, zero, suc, ◌+◌, ◌-◌, ◌%◌, ◌^◌, ◌<◌, ◌≡◌, refl, sym, ap, ◌∙◌, ◌⊎◌, inl, inr, ◌≢◌, List, [], ◌∷◌,
  ◌++◌, arith, length, get_or, set, length-set, get_or-set_self, get_or-set_ne, Outcome, ok, panic,
  failed_assert, leb, if◌then◌else◌, eq→==, ne→==_false,
}
use garbage_os.CircularBuffer.{
  CircularBuffer, write_circular_buffer, read_circular_buffer, is_circular_buffer_empty,
  circular_buffer_written_bytes, make_circular_buffer,
}

-- Both indices lie in the storage, and no index sum wraps.
pub record IsValid (b : CircularBuffer) : Type 0 where
  pub storage : length b.buffer ≡ b.buffer_size
  pub small : b.buffer_size < 2 ^ 63
  pub read_in : b.read_idx < b.buffer_size
  pub write_in : b.write_idx < b.buffer_size

-- The next index, going round at `size`.
abbrev pub next : (size i : ℕ) → ℕ
next size i = (i + 1) % 2 ^ 64 % size

pub next_cases :
    (size i : ℕ)
    → size < 2 ^ 63
    → i < size
    → ((suc i < size) × (next size i ≡ suc i)) ⊎ ((suc i ≡ size) × (next size i ≡ 0))
next_cases size i small h = elim (dec_lt (suc i) size) [
  | yes p ↦ inl (p, omega (arith, mod-eq_of_lt {n = (i + 1) % 2 ^ 64} {m = size} (omega arith)))
  | no p ↦
      let wrapped : (i + 1) % 2 ^ 64 ≡ size = omega arith in
      inr (omega arith, rw wrapped (mod_self size))
]

-- The `n` bytes that the indices from `r` on lead through.
abbrev pub window : (size : ℕ) → List ℕ → ℕ → ℕ → List ℕ
window size buf r zero = []
window size buf r (suc n) = get_or buf r 0 ∷ window size buf (next size r) n

pub length-window : (size : ℕ) (buf : List ℕ) (r n : ℕ) → length (window size buf r n) ≡ n
length-window size buf r zero = refl
length-window size buf r (suc n) = ap suc (length-window size buf (next size r) n)

-- How many bytes a reader starting at `r` meets before the index `w`.
abbrev pub distance : (size r w : ℕ) → ℕ
distance size r w = if leb r w then w - r else (size - r) + w

abbrev pub pending : CircularBuffer → ℕ
pending b = distance b.buffer_size b.read_idx b.write_idx

abbrev pub contents : CircularBuffer → List ℕ
contents b = window b.buffer_size b.buffer b.read_idx (pending b)

-- `w` is `n` places after `r`.
abbrev After : (size r n w : ℕ) → Type 0
After size r n w = (r + n ≡ w) ⊎ (r + n ≡ w + size)

After-next :
    (size r n w : ℕ)
    → size < 2 ^ 63
    → r < size
    → suc n < size
    → w < size
    → After size r (suc n) w
    → After size (next size r) n w × (r ≢ w)
After-next size r n w small hr hn hw e = ground (arith, next_cases size r)

After-distance : (size r w : ℕ) → r < size → w < size → After size r (distance size r w) w
After-distance size r w hr hw = ground arith

next-lt : (size r : ℕ) → size < 2 ^ 63 → r < size → next size r < size
next-lt size r small h = ground (arith, next_cases size r)

-- A byte stored just past a window extends it.
window-set :
    (buf : List ℕ) (size x n r w : ℕ)
    → length buf ≡ size
    → size < 2 ^ 63
    → r < size
    → w < size
    → n < size
    → After size r n w
    → window size (set buf w x) r (suc n) ≡ window size buf r n ++ x ∷ []
window-set buf size x zero r w hb small hr hw hn e =
    ap (λ y. y ∷ []) (rw same (get_or-set_self buf w x 0 (omega arith)))
  where
    same : r ≡ w
    same = ground arith
window-set buf size x (suc n) r w hb small hr hw hn e =
    let step = After-next size r n w small hr hn hw e in
    ap₂ ◌∷◌ (get_or-set_ne buf x 0 (λ q. step.1 (sym q))) (
      window-set buf size x n (next size r) w hb small (next-lt size r small hr) hw (omega arith)
        step.0)

distance-next :
    (size r w : ℕ)
    → size < 2 ^ 63
    → r < size
    → w < size
    → distance size r w + 1 < size
    → distance size r (next size w) ≡ suc (distance size r w)
distance-next size r w small hr hw h = ground (arith, next_cases size w)

distance-next_full :
    (size r w : ℕ)
    → size < 2 ^ 63
    → r < size
    → w < size
    → distance size r w + 1 ≡ size
    → distance size r (next size w) ≡ 0
distance-next_full size r w small hr hw h = ground (arith, next_cases size w)

distance-next_read :
    (size r w : ℕ)
    → size < 2 ^ 63
    → r < size
    → w < size
    → r ≢ w
    → distance size r w ≡ suc (distance size (next size r) w)
distance-next_read size r w small hr hw h = ground (arith, next_cases size r)

-- A new buffer over a storage of `size` bytes is valid and holds nothing.
pub make_circular_buffer-IsValid :
    (storage : List ℕ) (garbage size : ℕ)
    → length storage ≡ size
    → 0 < size
    → size < 2 ^ 63
    → IsValid (make_circular_buffer storage garbage size)
      × (contents (make_circular_buffer storage garbage size) ≡ [])
unfolding make_circular_buffer
make_circular_buffer-IsValid storage garbage size h pos small =
    (record { storage = h; small = small; read_in = pos; write_in = pos }, refl)

pub write-IsValid : {b : CircularBuffer} (x : ℕ) → IsValid b → IsValid (write_circular_buffer b x)
unfolding write_circular_buffer
write-IsValid {b} x v = record {
  storage = length-set b.buffer b.write_idx x ∙ v.storage;
  small = v.small;
  read_in = v.read_in;
  write_in = next-lt b.buffer_size b.write_idx v.small v.write_in;
}

-- A write into a valid buffer that has room for two more bytes appends the byte. A write into the
-- last free place empties the buffer: all of its bytes are lost.
pub contents-write :
    {b : CircularBuffer} (x : ℕ)
    → IsValid b
    → (pending b + 1 < b.buffer_size → contents (write_circular_buffer b x) ≡ contents b ++ x ∷ [])
      × (pending b + 1 ≡ b.buffer_size → contents (write_circular_buffer b x) ≡ [])
unfolding write_circular_buffer
contents-write {b} x v = (
  λ room.
      rw (distance-next b.buffer_size b.read_idx b.write_idx v.small v.read_in v.write_in room) (
        window-set b.buffer b.buffer_size x (pending b) b.read_idx b.write_idx v.storage v.small
          v.read_in v.write_in (omega arith)
          (After-distance b.buffer_size b.read_idx b.write_idx v.read_in v.write_in)),
  λ full.
      rw (distance-next_full b.buffer_size b.read_idx b.write_idx v.small v.read_in v.write_in full)
        refl,
)

-- What a read of a valid buffer gives, by what the buffer holds.
abbrev pub ReadOf : List ℕ → Outcome (ℕ × CircularBuffer) → Type 0
ReadOf [] r = r ≡ panic failed_assert
ReadOf (x ∷ xs) r = (b' : CircularBuffer) × (r ≡ ok (x, b')) × (contents b' ≡ xs) × IsValid b'

-- A read of a valid buffer returns the oldest byte and leaves the others, and panics exactly when
-- the buffer holds nothing. The buffer that it leaves is valid.
pub read-ReadOf : {b : CircularBuffer} → IsValid b → ReadOf (contents b) (read_circular_buffer b)
unfolding read_circular_buffer
read-ReadOf {b} v = elim (ℕ_discrete b.read_idx b.write_idx) [
  | yes e ↦
      rw (same_distance b.buffer_size b.read_idx b.write_idx e, eq→== b.read_idx b.write_idx e) refl
  | no ne ↦
      rw
        (
          distance-next_read b.buffer_size b.read_idx b.write_idx v.small v.read_in v.write_in ne,
          ne→==_false b.read_idx b.write_idx ne,
        )
        (
          _,
          refl,
          refl,
          record {
            storage = v.storage;
            small = v.small;
            read_in = next-lt b.buffer_size b.read_idx v.small v.read_in;
            write_in = v.write_in;
          },
        )
]
  where
    same_distance : (size r w : ℕ) → r ≡ w → distance size r w ≡ 0
    same_distance size r w e = ground arith

-- The byte count is that of the bytes held, except that an empty buffer counts as full.
written_bytes-pending :
    {b : CircularBuffer}
    → IsValid b
    → circular_buffer_written_bytes b
      ≡ (if is_circular_buffer_empty b then b.buffer_size else length (contents b))
unfolding circular_buffer_written_bytes is_circular_buffer_empty
written_bytes-pending {b} v =
    ground (arith, length-window b.buffer_size b.buffer b.read_idx (pending b))
