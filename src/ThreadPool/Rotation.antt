-- ===== src/ThreadPool/Rotation.antt =====
-- `get_next_loop` of net/event_loop_thread_pool/event_loop_thread_pool.cc goes round the loops.
use moony.Prelude.{
  true, ℕ, suc, zero, ◌+◌, ◌-◌, ◌≤◌, ◌<◌, ◌≡◌, refl, sym, ap, ◌∙◌, if◌then◌else◌, leb, List, [],
  ◌∷◌, ◌++◌, some, Outcome, ok, stop, ◌>>=◌, length, get_elem?, take, drop, slice, arith,
  take_of_length-le, length-drop, Bool-cases, inl, inr,
}
use moony.ThreadPool.{Pool, get_next_loop, pick, advance}

-- The results of that many calls in a row, and the pool after them.
unfoldable pub picks : ℕ → Pool → Outcome (List ℕ × Pool)
picks zero p = ok ([], p)
picks (suc k) p = get_next_loop p >>= λ (l, p'). picks k p' >>= λ (ls, p''). ok (l ∷ ls, p'')

-- `next_` is an index of a loop, where there are any.
abbrev pub IsValid : Pool → Type 0
IsValid p = p.next < length p.loops

pub drop-eq-cons :
    (i : ℕ) (xs : List ℕ)
    → i < length xs
    → (x : ℕ) × (get_elem? xs i ≡ some x) × (drop i xs ≡ x ∷ drop (suc i) xs)
drop-eq-cons i [] h = absurd (omega arith)
drop-eq-cons zero (x ∷ xs) h = (x, refl, refl)
drop-eq-cons (suc i) (x ∷ xs) h = drop-eq-cons i xs (omega arith)

pub get_next_loop_lem :
    (p : Pool) (x : ℕ) → get_elem? p.loops p.next ≡ some x → get_next_loop p ≡ ok (x, advance p)
unfolding get_next_loop
get_next_loop_lem p x e = go p.loops e
  where
    go : (ls : List ℕ) → get_elem? ls p.next ≡ some x → pick ls p ≡ ok (x, advance p)
    go [] q = cc
    go (l ∷ ls) q = rw (q, pick)

-- `next_` after the index has reached `j`.
abbrev wrapped : Pool → ℕ → ℕ
wrapped p j = if leb (length p.loops) j then 0 else j

advance_to : (p : Pool) (i : ℕ) → i ≡ wrapped p (p.next + 1) → advance p ≡ record p { next = i }
unfolding advance
advance_to p i e = rw e

-- Calls that do not go past the last loop.
picks_up :
    (k : ℕ) (p : Pool)
    → IsValid p
    → p.next + k ≤ length p.loops
    → picks k p ≡ ok (slice p.next k p.loops, record p { next = wrapped p (p.next + k) })
unfolding picks
picks_up zero p v h = ground arith
picks_up (suc k) p v h =
    let (x, e, d) = drop-eq-cons p.next p.loops v in
    elim (Bool-cases (leb (length p.loops) (p.next + 1))) [
      | inl last ↦
          rw
            (
              get_next_loop_lem p x e,
              advance_to p 0 (ground arith),
              picks_up k (record p { next = 0 }) (omega arith) (ground arith),
              d,
            )
            (ground (arith, last_round last))
      | inr more ↦
          rw
            (
              get_next_loop_lem p x e,
              advance_to p (p.next + 1) (ground arith),
              picks_up k (record p { next = p.next + 1 }) (ground arith) (omega arith),
              d,
            )
            (ground arith)
    ]
  where
    last_round : leb (length p.loops) (p.next + 1) ≡ true → k ≡ 0
    last_round l = ground arith

-- The results `ls` of earlier calls before those of `o`.
abbrev behind : List ℕ → Outcome (List ℕ × Pool) → Outcome (List ℕ × Pool)
behind ls (stop e) = stop e
behind ls (ok (ls', p)) = ok (ls ++ ls', p)

-- `m` more calls after those of `o`.
abbrev then_picks : ℕ → Outcome (List ℕ × Pool) → Outcome (List ℕ × Pool)
then_picks m (stop e) = stop e
then_picks m (ok (ls, p)) = behind ls (picks m p)

cons-behind :
    (l : ℕ) (ls : List ℕ) (o : Outcome (List ℕ × Pool))
    → behind (l ∷ []) (behind ls o) ≡ behind (l ∷ ls) o
cons-behind l ls (ok (ls', p)) = refl
cons-behind l ls (stop e) = refl

cons-then_picks :
    (l m : ℕ) (o : Outcome (List ℕ × Pool))
    → behind (l ∷ []) (then_picks m o) ≡ then_picks m (behind (l ∷ []) o)
cons-then_picks l m (stop e) = refl
cons-then_picks l m (ok (ls, p)) = cons-behind l ls (picks m p)

behind-nil : (o : Outcome (List ℕ × Pool)) → o ≡ behind [] o
behind-nil (ok (ls, p)) = refl
behind-nil (stop e) = refl

-- The rest of a row of calls after its first.
abbrev rest : ℕ → Outcome (ℕ × Pool) → Outcome (List ℕ × Pool)
rest k (stop e) = stop e
rest k (ok (l, q)) = behind (l ∷ []) (picks k q)

picks-suc : (k : ℕ) (p : Pool) → picks (suc k) p ≡ rest k (get_next_loop p)
unfolding picks
picks-suc k p = outer (get_next_loop p)
  where
    inner :
        (l : ℕ) (o : Outcome (List ℕ × Pool))
        → ◌>>=◌ {B = List ℕ × Pool} o (λ (ls, p''). ok (l ∷ ls, p'')) ≡ behind (l ∷ []) o
    inner l (ok (ls, p'')) = refl
    inner l (stop e) = refl

    outer :
        (o : Outcome (ℕ × Pool))
        → ◌>>=◌ {B = List ℕ × Pool} o
            (λ (l, p'). ◌>>=◌ {B = List ℕ × Pool} (picks k p') (λ (ls, p''). ok (l ∷ ls, p'')))
          ≡ rest k o
    outer (ok (l, q)) = inner l (picks k q)
    outer (stop e) = refl

picks-add : (k m n : ℕ) (p : Pool) → n ≡ k + m → picks n p ≡ then_picks m (picks k p)
picks-add zero m n p e = ap (λ j. picks j p) same ∙ none_before
  where
    same : n ≡ m
    same = omega arith

    none_before : picks m p ≡ then_picks m (picks 0 p)
    none_before = unfold picks in behind-nil (picks m p)
picks-add (suc k) m zero p e = absurd (omega arith)
picks-add (suc k) m (suc n) p e =
    picks-suc n p
    ∙ go (get_next_loop p) (λ q. picks-add k m n q (omega arith))
    ∙ ap (then_picks m) (sym (picks-suc k p))
  where
    go :
        (o : Outcome (ℕ × Pool))
        → ((q : Pool) → picks n q ≡ then_picks m (picks k q))
        → rest n o ≡ then_picks m (rest k o)
    go (ok (l, q)) ih = ap (behind (l ∷ [])) (ih q) ∙ cons-then_picks l m (picks k q)
    go (stop e') ih = refl

-- Where `next_` is the index of a loop, as many calls as there are loops return every loop once, from the one whose turn it is on and round
-- to the one before it, and leave the pool as it was.
pub picks_round :
    (p : Pool)
    → IsValid p
    → picks (length p.loops) p ≡ ok (drop p.next p.loops ++ take p.next p.loops, p)
picks_round p v =
    picks-add (length p.loops - p.next) p.next (length p.loops) p (omega arith)
    ∙ ap (then_picks p.next) (picks_up (length p.loops - p.next) p v (omega arith))
    ∙ rw
        (
          picks_up p.next (record p { next = wrapped p (p.next + (length p.loops - p.next)) })
              (ground arith) (ground arith),
          take_of_length-le (length p.loops - p.next) (drop p.next p.loops)
              (omega (arith, length-drop p.next p.loops)),
        )
        (ground arith)

-- Without threads every call returns the base loop and changes nothing.
pub get_next_loop-base : (p : Pool) → p.loops ≡ [] → get_next_loop p ≡ ok (p.base_loop, p)
unfolding get_next_loop
get_next_loop-base p e = ap (λ ls. pick ls p) e ∙ unfold pick in refl
