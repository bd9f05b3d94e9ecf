-- ===== src/Buffer/Fifo.antt =====
-- A client's calls of net/buffer/buffer.h in order, against a queue of bytes.
use moony.Prelude.{
  ℕ, ◌+◌, ◌≤◌, ◌≡◌, refl, List, [], ◌∷◌, ◌++◌, Outcome, ok, ◌>>=◌, arith, length, drop, ap, ◌∙◌,
}
use moony.Buffer.{Buffer, max_size, append, retrieve, retrieve_all_as_string}
use moony.Buffer.Valid.{IsValid, retrieve-IsValid}
use moony.Buffer.Room.{contents}
use moony.Buffer.Content.{
  append-contents, contents-retrieve, writer_idx-retrieve-le, retrieve_all_as_string_lem,
}

-- What a client can ask of a buffer.
pub data Request : Type 0 where
  appends : List ℕ → Request
  retrieves : ℕ → Request
  retrieves_all : Request

-- The strings that the requests return, and the buffer that they leave.
pub serve : Buffer → List Request → Outcome (List (List ℕ) × Buffer)
serve b [] = ok ([], b)
serve b (appends chunk ∷ rs) = append b chunk >>= λ b'. serve b' rs
serve b (retrieves len ∷ rs) = serve (retrieve b len) rs
serve b (retrieves_all ∷ rs) = retrieve_all_as_string b >>= λ (s, b').
    serve b' rs >>= λ (replies, last). ok (s ∷ replies, last)

-- The same over a queue, oldest byte first.
unfoldable pub queue_replies : List ℕ → List Request → List (List ℕ)
queue_replies q [] = []
queue_replies q (appends chunk ∷ rs) = queue_replies (q ++ chunk) rs
queue_replies q (retrieves len ∷ rs) = queue_replies (drop len q) rs
queue_replies q (retrieves_all ∷ rs) = q ∷ queue_replies [] rs

unfoldable pub queue_after : List ℕ → List Request → List ℕ
queue_after q [] = q
queue_after q (appends chunk ∷ rs) = queue_after (q ++ chunk) rs
queue_after q (retrieves len ∷ rs) = queue_after (drop len q) rs
queue_after q (retrieves_all ∷ rs) = queue_after [] rs

-- How many bytes the requests add.
abbrev pub volume : List Request → ℕ
volume [] = 0
volume (appends chunk ∷ rs) = length chunk + volume rs
volume (retrieves len ∷ rs) = volume rs
volume (retrieves_all ∷ rs) = volume rs

-- What `serve` comes to.
abbrev pub Serves : Buffer → List ℕ → List Request → Type 0
Serves b q rs =
    (last : Buffer) × (serve b rs ≡ ok (queue_replies q rs, last))
    × IsValid last
    × (contents last ≡ queue_after q rs)

-- A valid buffer answers any requests as the queue of its readable bytes does, never failing while
-- the write index and the bytes to come stay within the vector's largest size, and is left valid with
-- the bytes that the queue is left with.
pub serve_refines :
    (rs : List Request) (b : Buffer) (q : List ℕ)
    → IsValid b
    → contents b ≡ q
    → b.writer_idx + volume rs ≤ max_size
    → Serves b q rs
unfolding serve queue_replies queue_after
serve_refines [] b q v e fits = (b, refl, v, e)
serve_refines (appends chunk ∷ rs) b q v e fits =
    let (b', ran, v', held, low) = append-contents b chunk v (omega arith) in
    let (last, served, v'', c) =
      serve_refines rs b' (q ++ chunk) v' (held ∙ ap (λ l. l ++ chunk) e) (omega arith) in
    (last, ap (λ o. o >>= λ b''. serve b'' rs) ran ∙ served, v'', c)
serve_refines (retrieves len ∷ rs) b q v e fits =
    serve_refines rs (retrieve b len) (drop len q) (retrieve-IsValid b len v)
      (contents-retrieve b len v ∙ ap (drop len) e) (omega (arith, writer_idx-retrieve-le b len v))
serve_refines (retrieves_all ∷ rs) b q v e fits =
    let (b', ran, v', none_left, low, _) = retrieve_all_as_string_lem b v in
    let (last, served, v'', c) = serve_refines rs b' [] v' none_left (omega arith) in
    (last, rw (ran, served, e), v'', c)
