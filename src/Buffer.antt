-- ===== src/Buffer.antt =====
-- net/buffer/buffer.h and net/buffer/buffer.cc: the byte buffer of a connection.
-- A `std::vector<char>` is the list of its bytes. An index is a `size_t`, with its wrap-around
-- written out; a copy or a read outside the vector stops with `out_of_bounds`, and a `resize` past
-- the vector's largest size with `length_error`. A failing allocation is not modelled.
pub mod Valid
pub mod Room
pub mod Content
pub mod Fifo
pub mod ReadFd
mod Tests
use moony.Prelude.{
  ℕ, ◌+◌, ◌-◌, ◌%◌, ◌^◌, if◌then◌else◌, ltb, leb, List, ◌++◌, Outcome, ok, stop, out_of_bounds,
  length_error, ◌>>=◌, length, take, drop, replicate, slice, splice,
}

-- `buffer_`, `reader_idx_`, `writer_idx_`.
pub record Buffer : Type 0 where
  pub buffer : List ℕ
  pub reader_idx : ℕ
  pub writer_idx : ℕ

-- `k_cheap_prepend_`
abbrev pub cheap_prepend : ℕ
cheap_prepend = 8

-- `k_initial_size_`
abbrev pub initial_size : ℕ
initial_size = 1024

-- `size_t` addition.
abbrev pub add_size : ℕ → ℕ → ℕ
add_size a b = (a + b) % 2 ^ 64

-- `size_t` subtraction.
abbrev pub sub_size : ℕ → ℕ → ℕ
sub_size a b = (a + 2 ^ 64 - b) % 2 ^ 64

-- `std::vector<char>::max_size()`.
abbrev pub max_size : ℕ
max_size = 2 ^ 63 - 1

-- The bytes at `begin() + i` up to `begin() + i + n`, read through a pointer.
read_at : List ℕ → ℕ → ℕ → Outcome (List ℕ)
read_at xs i n = if leb (i + n) (length xs) then ok (slice i n xs) else stop out_of_bounds

-- `std::copy` of `ys` to `begin() + i`.
write_at : List ℕ → ℕ → List ℕ → Outcome (List ℕ)
write_at xs i ys =
    if leb (i + length ys) (length xs) then ok (splice xs i ys) else stop out_of_bounds

-- `std::vector<char>::resize`: new elements are 0.
resize : List ℕ → ℕ → Outcome (List ℕ)
resize xs n =
    if leb n max_size then ok (take n xs ++ replicate (n - length xs) 0) else stop length_error

-- The constructor: a vector of `size` zeros, both indices behind the prepend space.
unfoldable pub init : ℕ → Buffer
init size = record {
  buffer = replicate size 0;
  reader_idx = cheap_prepend;
  writer_idx = cheap_prepend;
}

unfoldable pub readable_bytes : Buffer → ℕ
readable_bytes b = sub_size b.writer_idx b.reader_idx

unfoldable pub writable_bytes : Buffer → ℕ
writable_bytes b = sub_size (length b.buffer) b.writer_idx

pub prependable_bytes : Buffer → ℕ
prependable_bytes b = b.reader_idx

pub retrieve_all : Buffer → Buffer
retrieve_all b = record b { reader_idx = cheap_prepend; writer_idx = cheap_prepend }

pub retrieve : Buffer → ℕ → Buffer
unfolding retrieve_all
retrieve b len =
    if ltb len (readable_bytes b)
    then record b { reader_idx = add_size b.reader_idx len }
    else retrieve_all b

-- `std::string res(peek(), len)`, then `retrieve(len)`.
pub retrieve_as_string : Buffer → ℕ → Outcome (List ℕ × Buffer)
unfolding read_at
retrieve_as_string b len = do res ← read_at b.buffer b.reader_idx len; ok (res, retrieve b len)

pub retrieve_all_as_string : Buffer → Outcome (List ℕ × Buffer)
retrieve_all_as_string b = retrieve_as_string b (readable_bytes b)

-- The branch of `make_space` that grows the vector.
grow : Buffer → ℕ → Outcome Buffer
unfolding resize
grow b len = do
  bytes ← resize b.buffer (add_size b.writer_idx len)
  ok (record b { buffer = bytes })

-- The branch of `make_space` that moves the readable bytes to the front. The target does not lie
-- behind the source, so `std::copy` copies the bytes that stood there.
compact : Buffer → Outcome Buffer
unfolding read_at write_at readable_bytes
compact b = do
  moved ← read_at b.buffer b.reader_idx (readable_bytes b)
  bytes ← write_at b.buffer cheap_prepend moved
  ok (record {
    buffer = bytes;
    reader_idx = cheap_prepend;
    writer_idx = add_size cheap_prepend (readable_bytes b);
  })

pub make_space : Buffer → ℕ → Outcome Buffer
make_space b len =
    if ltb (add_size (writable_bytes b) (prependable_bytes b)) (add_size len cheap_prepend)
    then grow b len
    else compact b

pub ensure_writeable_bytes : Buffer → ℕ → Outcome Buffer
ensure_writeable_bytes b len = if ltb (writable_bytes b) len then make_space b len else ok b

-- `std::copy(data, data + len, begin_write())`, then the move of the write index.
pub put : Buffer → List ℕ → Outcome Buffer
unfolding write_at
put b chunk = do
  bytes ← write_at b.buffer b.writer_idx chunk
  ok (record b { buffer = bytes; writer_idx = add_size b.writer_idx (length chunk) })

pub append : Buffer → List ℕ → Outcome Buffer
append b chunk = do b' ← ensure_writeable_bytes b (length chunk); put b' chunk

-- What a call of `readv` or `read` comes to: the bytes that it delivers, or `errno`.
pub data Incoming : Type 0 where
  received : List ℕ → Incoming
  read_error : ℕ → Incoming

-- `sizeof(extrabuf)`
abbrev pub extra_size : ℕ
extra_size = 65536

-- The room that `read_fd` offers to `readv`, in one or two pieces.
unfoldable pub offered : Buffer → ℕ
offered b =
    if ltb (writable_bytes b) extra_size then writable_bytes b + extra_size else writable_bytes b

-- `readv` fills the writable bytes first and puts the rest in `extrabuf`. It delivers at most
-- 0x7ffff000 bytes, so that the conversion of its result to `int` loses nothing.
pub read_fd : Buffer → Incoming → Outcome Buffer
unfolding write_at
read_fd b (read_error errno) = ok b
read_fd b (received chunk) = do
  bytes ← write_at b.buffer b.writer_idx (take (writable_bytes b) chunk)
  let filled = record b { buffer = bytes }
  if leb (length chunk) (writable_bytes b)
      then ok (record filled { writer_idx = add_size b.writer_idx (length chunk) })
      else append (record filled { writer_idx = add_size b.writer_idx (length bytes) })
          (drop (writable_bytes b) chunk)

-- What a call of `write` comes to: how many of the bytes offered it takes, never more than those, or
-- `errno`.
pub data Sent : Type 0 where
  sent : ℕ → Sent
  write_error : ℕ → Sent

-- `write(fd, peek(), readable_bytes())`, where `write` is the kernel's answer to the bytes offered: those
-- bytes and the answer. `retrieve` is left to the caller.
pub write_fd : Buffer → (List ℕ → Sent) → Outcome (List ℕ × Sent)
unfolding read_at
write_fd b write = do
  offered_bytes ← read_at b.buffer b.reader_idx (readable_bytes b)
  ok (offered_bytes, write offered_bytes)
