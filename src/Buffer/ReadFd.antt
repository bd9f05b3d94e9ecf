-- ===== src/Buffer/ReadFd.antt =====
-- `buffer::read_fd` and `buffer::write_fd` of net/buffer/buffer.cc.
use moony.Prelude.{
  ℕ, ◌+◌, ◌^◌, ◌≤◌, ◌<◌, ◌≡◌, refl, List, ◌++◌, ok, stop, out_of_bounds, arith, length, take, drop,
  splice, length-take, length-drop, length-splice, take_of_length-le, le→leb, lt→leb_false,
}
use moony.Buffer.{
  Buffer, add_size, writable_bytes, offered, received, read_error, read_fd, ensure_writeable_bytes,
  put, append, Sent, write_fd,
}
use moony.Buffer.Valid.{IsValid, writable_bytes_eq, readable_bytes_eq}
use moony.Buffer.Room.{contents}
use moony.Buffer.Content.{extended, length-extended, put_lem, contents-extended, extended-IsValid}

-- Where the bytes fit the writable space of a valid buffer, `read_fd` appends them, the buffer
-- stays valid, and its vector keeps its size.
pub read_fd-contents :
    (b : Buffer) (chunk : List ℕ)
    → IsValid b
    → length chunk ≤ writable_bytes b
    → (b' : Buffer) × (read_fd b (received chunk) ≡ ok b')
      × IsValid b'
      × (contents b' ≡ contents b ++ chunk)
      × (length b'.buffer ≡ length b.buffer)
unfolding read_fd put
read_fd-contents b chunk v h = (
  extended b v chunk room,
  rw (take_of_length-le (writable_bytes b) chunk h) (ground (arith, put_lem b v chunk room)),
  extended-IsValid b v chunk room,
  contents-extended b v chunk room,
  length-extended b v chunk room,
)
  where
    room : b.writer_idx + length chunk ≤ length b.buffer
    room = omega (arith, writable_bytes_eq b v)

pub read_fd_error : (b : Buffer) (errno : ℕ) → read_fd b (read_error errno) ≡ ok b
unfolding read_fd
read_fd_error b errno = refl

-- An `append` to a buffer whose write index lies behind the end of its vector.
append-stray :
    (b : Buffer) (chunk : List ℕ)
    → length b.buffer < b.writer_idx
    → b.writer_idx + length chunk ≤ length b.buffer + 2 ^ 64
    → append b chunk ≡ stop out_of_bounds
unfolding append ensure_writeable_bytes put writable_bytes
append-stray b chunk past near = ground arith

-- Where a valid buffer receives more bytes than its writable space holds, and no more than it offers
-- room for, `read_fd` writes outside the vector, whatever the bytes: it adds the vector's size to the
-- write index, where the size alone was meant.
pub read_fd-overflow :
    (b : Buffer) (chunk : List ℕ)
    → IsValid b
    → writable_bytes b < length chunk
    → length chunk ≤ offered b
    → read_fd b (received chunk) ≡ stop out_of_bounds
unfolding read_fd offered
read_fd-overflow b chunk v h k =
    rw
      (
        le→leb (b.writer_idx + length first) (length b.buffer) (omega (arith, full)),
        lt→leb_false (length chunk) (writable_bytes b) h,
      )
      (append-stray stray (drop (writable_bytes b) chunk) past (
        ground (
          arith,
          length-splice b.buffer b.writer_idx first,
          full,
          length-drop (writable_bytes b) chunk,
          writable_bytes_eq b v,
        )))
  where
    first : List ℕ
    first = take (writable_bytes b) chunk

    full : b.writer_idx + length first ≡ length b.buffer
    full = omega (arith, length-take (writable_bytes b) chunk, writable_bytes_eq b v)

    bytes : List ℕ
    bytes = splice b.buffer b.writer_idx first

    stray : Buffer
    stray = record {
      buffer = bytes;
      reader_idx = b.reader_idx;
      writer_idx = add_size b.writer_idx (length bytes);
    }

    past : length bytes < add_size b.writer_idx (length bytes)
    past = omega (arith, length-splice b.buffer b.writer_idx first, full)

-- `write_fd` on a valid buffer offers exactly the readable bytes to the kernel and hands them and its
-- answer back.
pub write_fd_lem :
    (b : Buffer) (write : List ℕ → Sent)
    → IsValid b
    → write_fd b write ≡ ok (contents b, write (contents b))
unfolding write_fd
write_fd_lem b write v = ground (arith, readable_bytes_eq b v)
