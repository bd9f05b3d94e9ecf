-- ===== src/Buffer/Valid.antt =====
-- The representation invariant of net/buffer/buffer.h, and the sizes that it gives.
use moony.Prelude.{ℕ, ◌-◌, ◌≤◌, ◌≡◌, arith, length, length-replicate}
use moony.Buffer.{
  Buffer, cheap_prepend, max_size, init, readable_bytes, writable_bytes, retrieve, retrieve_all,
}

pub record IsValid (b : Buffer) : Type 0 where
  pub prepend : cheap_prepend ≤ b.reader_idx
  pub ordered : b.reader_idx ≤ b.writer_idx
  pub inside : b.writer_idx ≤ length b.buffer
  pub small : length b.buffer ≤ max_size

-- On a valid buffer no subtraction of the size functions wraps.
pub readable_bytes_eq : (b : Buffer) → IsValid b → readable_bytes b ≡ b.writer_idx - b.reader_idx
unfolding readable_bytes
readable_bytes_eq b v = omega arith

pub writable_bytes_eq : (b : Buffer) → IsValid b → writable_bytes b ≡ length b.buffer - b.writer_idx
unfolding writable_bytes
writable_bytes_eq b v = omega arith

pub init-IsValid : (size : ℕ) → cheap_prepend ≤ size → size ≤ max_size → IsValid (init size)
unfolding init
init-IsValid size h k = record {
  prepend = omega arith;
  ordered = omega arith;
  inside = omega (arith, length-replicate {A = ℕ} size 0);
  small = omega (arith, length-replicate {A = ℕ} size 0);
}

pub retrieve_all-IsValid : (b : Buffer) → IsValid b → IsValid (retrieve_all b)
unfolding retrieve_all
retrieve_all-IsValid b v = omega arith

pub retrieve-IsValid : (b : Buffer) (len : ℕ) → IsValid b → IsValid (retrieve b len)
unfolding retrieve
retrieve-IsValid b len v = ground (arith, readable_bytes_eq b v)
