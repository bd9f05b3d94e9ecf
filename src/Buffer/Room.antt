-- ===== src/Buffer/Room.antt =====
-- The readable bytes of a buffer of net/buffer/buffer.h, and how `ensure_writeable_bytes` makes room
-- behind them.
use moony.Prelude.{
  ℕ, ◌+◌, ◌-◌, ◌≤◌, ◌<◌, ◌≡◌, refl, sym, ap, ◌∙◌, List, ◌++◌, ok, arith, length, take, replicate,
  slice, splice, length-append, length-replicate, length-slice, length-splice, take_of_length-le,
  slice-splice, slice-append_of_le, ltb, Bool-cases, ltb→lt, ltb_false→le, inl, inr,
}
use moony.Buffer.{
  Buffer, cheap_prepend, max_size, readable_bytes, writable_bytes, prependable_bytes, grow, compact,
  make_space, ensure_writeable_bytes, add_size,
}
use moony.Buffer.Valid.{IsValid, readable_bytes_eq, writable_bytes_eq}

-- The bytes that a reader of the buffer has yet to see, oldest first.
abbrev pub contents : Buffer → List ℕ
contents b = slice b.reader_idx (b.writer_idx - b.reader_idx) b.buffer

pub length-contents : (b : Buffer) → IsValid b → length (contents b) ≡ readable_bytes b
length-contents b v =
    length-slice b.reader_idx (b.writer_idx - b.reader_idx) b.buffer (omega arith)
    ∙ sym (readable_bytes_eq b v)

-- The buffer `b'` holds what `b` holds, and has room for `len` more bytes behind it.
pub record HasRoom (b : Buffer) (len : ℕ) (b' : Buffer) : Type 0 where
  pub valid : IsValid b'
  pub kept : contents b' ≡ contents b
  pub room : b'.writer_idx + len ≤ length b'.buffer
  pub lower : b'.writer_idx ≤ b.writer_idx

module _ (b : Buffer) (v : IsValid b) where
  module _ (len : ℕ) (fits : b.writer_idx + len ≤ max_size) where
    grown : Buffer
    grown = record b {
      buffer =
          take (b.writer_idx + len) b.buffer ++ replicate (b.writer_idx + len - length b.buffer) 0;
    }

    grow_lem : grow b len ≡ ok grown
    unfolding grow grown
    grow_lem = ground arith

    grown-HasRoom : length b.buffer ≤ b.writer_idx + len → HasRoom b len grown
    unfolding grown
    grown-HasRoom h = rw (take_of_length-le (b.writer_idx + len) b.buffer h) (record {
      valid = record {
        prepend = v.prepend;
        ordered = v.ordered;
        inside = omega (arith, bigger);
        small = omega (arith, bigger);
      };
      kept = slice-append_of_le b.reader_idx (b.writer_idx - b.reader_idx) b.buffer _ (omega arith);
      room = omega (arith, bigger);
      lower = omega arith;
    })
      where
        zeros : List ℕ
        zeros = replicate (b.writer_idx + len - length b.buffer) 0

        bigger : length (b.buffer ++ zeros) ≡ b.writer_idx + len
        bigger = omega (
          arith,
          length-append b.buffer zeros,
          length-replicate {A = ℕ} (b.writer_idx + len - length b.buffer) 0,
        )

  moved : Buffer
  moved = record {
    buffer = splice b.buffer cheap_prepend (contents b);
    reader_idx = cheap_prepend;
    writer_idx = cheap_prepend + (b.writer_idx - b.reader_idx);
  }

  compact_lem : compact b ≡ ok moved
  unfolding compact moved
  compact_lem = ground (
    arith,
    length-slice b.reader_idx (b.writer_idx - b.reader_idx) b.buffer,
    readable_bytes_eq b v,
  )

  length-bytes : length (contents b) ≡ b.writer_idx - b.reader_idx
  length-bytes = length-slice b.reader_idx (b.writer_idx - b.reader_idx) b.buffer (omega arith)

  length-moved : length moved.buffer ≡ length b.buffer
  unfolding moved
  length-moved = length-splice b.buffer cheap_prepend (contents b) (omega (arith, length-bytes))

  contents-moved : contents moved ≡ contents b
  unfolding moved
  contents-moved =
      ap (λ n. slice cheap_prepend n (splice b.buffer cheap_prepend (contents b))) (omega arith)
      ∙ slice-splice b.buffer cheap_prepend cheap_prepend (b.writer_idx - b.reader_idx) (contents b)
          (omega arith) (omega (arith, length-bytes)) (omega (arith, length-bytes))

  moved-HasRoom :
      (len : ℕ)
      → b.writer_idx + cheap_prepend + len ≤ length b.buffer + b.reader_idx
      → HasRoom b len moved
  moved-HasRoom len h = record {
    valid =
        unfold moved in
        record {
          prepend = omega arith;
          ordered = omega arith;
          inside = omega (arith, length-moved);
          small = omega (arith, length-moved);
        };
    kept = contents-moved;
    room = unfold moved in omega (arith, length-moved);
    lower = unfold moved in omega arith;
  }

  make_space-HasRoom :
      (len : ℕ)
      → length b.buffer < b.writer_idx + len
      → b.writer_idx + len ≤ max_size
      → (b' : Buffer) × (make_space b len ≡ ok b') × HasRoom b len b'
  unfolding make_space prependable_bytes
  make_space-HasRoom len tight fits =
      elim (Bool-cases
        (ltb (add_size (writable_bytes b) b.reader_idx) (add_size len cheap_prepend))) [
          | inl low ↦
              (grown len fits, rw low (grow_lem len fits), grown-HasRoom len fits (omega arith))
          | inr enough ↦ (
            moved,
            rw enough compact_lem,
            moved-HasRoom len (
                omega (
                  arith,
                  ltb_false→le (add_size (writable_bytes b) b.reader_idx)
                      (add_size len cheap_prepend) enough,
                  writable_bytes_eq b v,
                )),
          )
        ]

  -- `ensure_writeable_bytes` succeeds and makes room, on each of its three branches.
  pub ensure_writeable_bytes-HasRoom :
      (len : ℕ)
      → b.writer_idx + len ≤ max_size
      → (b' : Buffer) × (ensure_writeable_bytes b len ≡ ok b') × HasRoom b len b'
  unfolding ensure_writeable_bytes
  ensure_writeable_bytes-HasRoom len fits = elim (Bool-cases (ltb (writable_bytes b) len)) [
    | inl short ↦ rw short (
        make_space-HasRoom len
          (omega (arith, writable_bytes_eq b v, ltb→lt (writable_bytes b) len short)) fits)
    | inr enough ↦ (
      b,
      rw enough,
      record {
        valid = v;
        kept = refl;
        room = omega (arith, writable_bytes_eq b v, ltb_false→le (writable_bytes b) len enough);
        lower = omega arith;
      },
    )
  ]
