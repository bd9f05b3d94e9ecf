-- ===== src/Buffer/Tests.antt =====
-- Runs of the buffer of net/buffer/buffer.h, and its theorems at concrete inputs.
use moony.Prelude.{◌≡◌, refl, List, [], ◌∷◌, ok, stop, out_of_bounds, arith}
use moony.Buffer.{
  Buffer, append, read_fd, received, compact, make_space, ensure_writeable_bytes, put,
  writable_bytes, prependable_bytes, offered,
}
use moony.Buffer.Valid.{IsValid}
use moony.Buffer.Fifo.{
  Request, appends, retrieves, retrieves_all, Serves, serve_refines, queue_replies,
}
use moony.Buffer.ReadFd.{read_fd-overflow}

-- Sixteen bytes of storage, with 5, 6, 7 readable at index 10 and three bytes of room behind.
abbrev partly_read : Buffer
partly_read = record {
  buffer = 0 ∷ 0 ∷ 0 ∷ 0 ∷ 0 ∷ 0 ∷ 0 ∷ 0 ∷ 3 ∷ 4 ∷ 5 ∷ 6 ∷ 7 ∷ 0 ∷ 0 ∷ 0 ∷ [];
  reader_idx = 10;
  writer_idx = 13;
}

partly_read-IsValid : IsValid partly_read
partly_read-IsValid = omega arith

-- Five bytes do not fit behind the write index, but do after the move to the front.
append_compacts :
    append partly_read (1 ∷ 2 ∷ 3 ∷ 4 ∷ 5 ∷ [])
    ≡ ok (record {
      buffer = 0 ∷ 0 ∷ 0 ∷ 0 ∷ 0 ∷ 0 ∷ 0 ∷ 0 ∷ 5 ∷ 6 ∷ 7 ∷ 1 ∷ 2 ∷ 3 ∷ 4 ∷ 5 ∷ [];
      reader_idx = 8;
      writer_idx = 16;
    })
unfolding append ensure_writeable_bytes make_space put compact writable_bytes prependable_bytes
append_compacts = refl

abbrev script : List Request
script = appends (1 ∷ 2 ∷ []) ∷ retrieves 4 ∷ appends (9 ∷ []) ∷ retrieves_all ∷ retrieves_all ∷ []

queue_replies_run : queue_replies (5 ∷ 6 ∷ 7 ∷ []) script ≡ (2 ∷ 9 ∷ []) ∷ [] ∷ []
unfolding queue_replies
queue_replies_run = refl

serve_refines_example : Serves partly_read (5 ∷ 6 ∷ 7 ∷ []) script
serve_refines_example =
    serve_refines script partly_read (5 ∷ 6 ∷ 7 ∷ []) partly_read-IsValid refl (omega arith)

-- Three bytes of room, and four bytes that arrive.
read_fd-overflow_example : read_fd partly_read (received (8 ∷ 9 ∷ 1 ∷ 2 ∷ [])) ≡ stop out_of_bounds
read_fd-overflow_example =
    read_fd-overflow partly_read (8 ∷ 9 ∷ 1 ∷ 2 ∷ []) partly_read-IsValid
      (unfold writable_bytes in omega arith) (unfold offered writable_bytes in omega arith)
