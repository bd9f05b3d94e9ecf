-- ===== src/Buffer/Content.antt =====
-- What the operations of net/buffer/buffer.h do to the readable bytes.
use moony.Prelude.{
  ℕ, ◌+◌, ◌-◌, ◌≤◌, ◌≡◌, sym, ap, ap₂, ◌∙◌, List, ◌++◌, ok, arith, length, take, drop, slice,
  splice, length-splice, take_of_length-le, slice-splice, drop-slice, drop_of_length-le, take-slice,
  ltb, le→leb, Bool-cases, ltb→lt, ltb_false→le, inl, inr, [],
}
use moony.Buffer.{
  Buffer, max_size, readable_bytes, retrieve, retrieve_as_string, retrieve_all_as_string,
  retrieve_all, writable_bytes, cheap_prepend, put, append,
}
use moony.Buffer.Valid.{IsValid, retrieve-IsValid, readable_bytes_eq}
use moony.Buffer.Room.{contents, length-contents, ensure_writeable_bytes-HasRoom}

module _ (b : Buffer) (v : IsValid b) where
  -- Writing at the write index, where there is room.
  module _ (chunk : List ℕ) (room : b.writer_idx + length chunk ≤ length b.buffer) where
    pub extended : Buffer
    extended = record b {
      buffer = splice b.buffer b.writer_idx chunk;
      writer_idx = b.writer_idx + length chunk;
    }

    pub put_lem : put b chunk ≡ ok extended
    unfolding put extended
    put_lem = ground arith

    pub contents-extended : contents extended ≡ contents b ++ chunk
    unfolding extended
    contents-extended =
        slice-splice b.buffer b.reader_idx b.writer_idx _ chunk (omega arith) room (omega arith)

    pub length-extended : length extended.buffer ≡ length b.buffer
    unfolding extended
    length-extended = length-splice b.buffer b.writer_idx chunk room

    pub extended-IsValid : IsValid extended
    unfolding extended
    extended-IsValid = record {
      prepend = omega arith;
      ordered = omega arith;
      inside = omega (arith, length-splice b.buffer b.writer_idx chunk room);
      small = omega (arith, length-splice b.buffer b.writer_idx chunk room);
    }

-- `append` to a valid buffer succeeds within the vector's largest size, keeps it valid, and adds the new
-- bytes behind the readable ones, whether it has room, moves the bytes or grows the vector. The
-- write index grows by no more than their number.
pub append-contents :
    (b : Buffer) (chunk : List ℕ)
    → IsValid b
    → b.writer_idx + length chunk ≤ max_size
    → (b' : Buffer) × (append b chunk ≡ ok b')
      × IsValid b'
      × (contents b' ≡ contents b ++ chunk)
      × (b'.writer_idx ≤ b.writer_idx + length chunk)
unfolding append
append-contents b chunk v fits =
    let (b', e, r) = ensure_writeable_bytes-HasRoom b v (length chunk) fits in
    (
      extended b' r.valid chunk r.room,
      rw e (put_lem b' r.valid chunk r.room),
      extended-IsValid b' r.valid chunk r.room,
      contents-extended b' r.valid chunk r.room ∙ ap (λ l. l ++ chunk) r.kept,
      unfold extended in omega (arith, r.lower),
    )

-- `retrieve` on a valid buffer drops the oldest bytes, or all of them if fewer are readable.
pub contents-retrieve :
    (b : Buffer) (len : ℕ) → IsValid b → contents (retrieve b len) ≡ drop len (contents b)
unfolding retrieve
contents-retrieve b len v = elim (Bool-cases (ltb len (readable_bytes b))) [
  | inl part ↦
      rw (part, drop-slice b.reader_idx len (b.writer_idx - b.reader_idx) b.buffer)
        (ap₂ (λ i n. slice i n b.buffer)
          (omega (arith, ltb→lt len (readable_bytes b) part, readable_bytes_eq b v))
          (omega (arith, ltb→lt len (readable_bytes b) part, readable_bytes_eq b v)))
  | inr whole ↦ rw whole (
      sym (
        drop_of_length-le len (contents b)
          (omega (arith, ltb_false→le len (readable_bytes b) whole, length-contents b v))))
]

pub writer_idx-retrieve-le :
    (b : Buffer) (len : ℕ) → IsValid b → (retrieve b len).writer_idx ≤ b.writer_idx
unfolding retrieve
writer_idx-retrieve-le b len v = ground arith

-- Then all of the vector but the prepend space can be written.
pub writable_bytes-retrieve_all :
    (b : Buffer) → IsValid b → writable_bytes (retrieve_all b) + cheap_prepend ≡ length b.buffer
unfolding writable_bytes retrieve_all
writable_bytes-retrieve_all b v = omega arith

-- `retrieve_as_string` on a valid buffer returns the oldest bytes, if so many are readable.
retrieve_as_string-retrieve :
    (b : Buffer) (len : ℕ)
    → IsValid b
    → len ≤ readable_bytes b
    → retrieve_as_string b len ≡ ok (take len (contents b), retrieve b len)
unfolding retrieve_as_string
retrieve_as_string-retrieve b len v h = rw (
  le→leb (b.reader_idx + len) (length b.buffer) (omega (arith, readable_bytes_eq b v)),
  take-slice b.reader_idx len (b.writer_idx - b.reader_idx) b.buffer
      (omega (arith, readable_bytes_eq b v)),
)

-- A `retrieve` of every readable byte.
retrieve-all : (b : Buffer) → retrieve b (readable_bytes b) ≡ retrieve_all b
unfolding retrieve
retrieve-all b = ground arith

-- `retrieve_as_string` on a valid buffer returns the oldest bytes and leaves a valid buffer with the
-- others, if so many are readable. The write index does not grow.
pub retrieve_as_string_lem :
    (b : Buffer) (len : ℕ)
    → IsValid b
    → len ≤ readable_bytes b
    → (b' : Buffer) × (retrieve_as_string b len ≡ ok (take len (contents b), b'))
      × IsValid b'
      × (contents b' ≡ drop len (contents b))
      × (b'.writer_idx ≤ b.writer_idx)
retrieve_as_string_lem b len v h = (
  retrieve b len,
  retrieve_as_string-retrieve b len v h,
  retrieve-IsValid b len v,
  contents-retrieve b len v,
  writer_idx-retrieve-le b len v,
)

-- `retrieve_all_as_string` returns every readable byte and leaves none: both indices are where the
-- constructor puts them, in the same vector.
pub retrieve_all_as_string_lem :
    (b : Buffer)
    → IsValid b
    → (b' : Buffer) × (retrieve_all_as_string b ≡ ok (contents b, b'))
      × IsValid b'
      × (contents b' ≡ [])
      × (b'.writer_idx ≤ b.writer_idx)
      × (b' ≡ retrieve_all b)
unfolding retrieve_all_as_string
retrieve_all_as_string_lem b v = (
  retrieve b (readable_bytes b),
  retrieve_as_string-retrieve b (readable_bytes b) v (omega arith)
      ∙ ap (λ l. ok (l, retrieve b (readable_bytes b)))
          (take_of_length-le (readable_bytes b) (contents b) short),
  retrieve-IsValid b (readable_bytes b) v,
  contents-retrieve b (readable_bytes b) v
      ∙ drop_of_length-le (readable_bytes b) (contents b) short,
  writer_idx-retrieve-le b (readable_bytes b) v,
  retrieve-all b,
)
  where
    short : length (contents b) ≤ readable_bytes b
    short = omega (arith, length-contents b v)
