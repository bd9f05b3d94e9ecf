-- ===== src/TcpServer/Ordered.antt =====
-- The order of the jobs that net/tcp_server/tcp_server.cc leaves for the loops, as lists.
use moony.Prelude.{
  ◌≡◌, refl, sym, ap, ◌∙◌, Bool, true, false, not, ◌&&◌, ◌||◌, List, [], ◌∷◌, ◌++◌, arith,
  append_assoc,
}
use moony.Prelude.Text.{Text, text_beq}
use moony.TcpServer.{Job, established_job, destroyed_job, listen_job, remove_job}

-- Is it the `connection_established` of the connection of that name?
abbrev pub opens : Text → Job → Bool
opens k (established_job c) = text_beq c.name k
opens k (destroyed_job c) = false
opens k listen_job = false
opens k (remove_job c) = false

abbrev pub opened : Text → List Job → Bool
opened k [] = false
opened k (j ∷ js) = opens k j || opened k js

-- May the job come now, where `up` says whether the connection of that name was established?
abbrev pub allowed : Text → Bool → Job → Bool
allowed k up (destroyed_job c) = up || not (text_beq c.name k)
allowed k up (established_job c) = true
allowed k up listen_job = true
allowed k up (remove_job c) = true

-- Does no `connection_destroyed` of the connection of that name come before its `connection_established`?
abbrev pub ordered : Text → Bool → List Job → Bool
ordered k up [] = true
ordered k up (j ∷ js) = allowed k up j && ordered k (up || opens k j) js

pub opened-append : (k : Text) (xs ys : List Job) → opened k (xs ++ ys) ≡ opened k xs || opened k ys
opened-append k [] ys = refl
opened-append k (x ∷ xs) ys = ground (arith, opened-append k xs ys)

or_false : (b : Bool) → b || false ≡ b
or_false b = ground arith

or_assoc : (a b c : Bool) → (a || b) || c ≡ a || (b || c)
or_assoc a b c = ground arith

and_assoc : (a b c : Bool) → (a && b) && c ≡ a && (b && c)
and_assoc a b c = ground arith

ordered-append :
    (k : Text) (up : Bool) (xs ys : List Job)
    → ordered k up (xs ++ ys) ≡ ordered k up xs && ordered k (up || opened k xs) ys
ordered-append k up [] ys = rw (or_false up) refl
ordered-append k up (x ∷ xs) ys =
    ap (λ b. allowed k up x && b) (ordered-append k (up || opens k x) xs ys)
    ∙ rw (or_assoc up (opens k x) (opened k xs)) (sym (and_assoc (allowed k up x) _ _))

allowed_mono : (k : Text) (up : Bool) (j : Job) → allowed k up j ≡ true → allowed k true j ≡ true
allowed_mono k up (destroyed_job c) h = refl
allowed_mono k up (established_job c) h = refl
allowed_mono k up listen_job h = refl
allowed_mono k up (remove_job c) h = refl

ordered_mono :
    (k : Text) (up : Bool) (js : List Job) → ordered k up js ≡ true → ordered k true js ≡ true
ordered_mono k up [] h = refl
ordered_mono k up (j ∷ js) h =
    ground (arith, allowed_mono k up j, ordered_mono k (up || opens k j) js)

ordered_more :
    (k : Text) (up b : Bool) (js : List Job)
    → ordered k up js ≡ true
    → ordered k (up || b) js ≡ true
ordered_more k true b js h = h
ordered_more k false true js h = ordered_mono k false js h
ordered_more k false false js h = h

both : (a b : Bool) → a && b ≡ true → (a ≡ true) × (b ≡ true)
both a b h = ground arith

-- A job that runs at once comes before those that wait.
pub ordered_run :
    (k : Text) (xs : List Job) (j : Job) (ys : List Job)
    → ordered k false (xs ++ ys) ≡ true
    → allowed k (opened k xs) j ≡ true
    → ordered k false ((xs ++ j ∷ []) ++ ys) ≡ true
ordered_run k xs j ys h a =
    let (front, back) =
      both (ordered k false xs) (ordered k (opened k xs) ys)
        ((sym (ordered-append k false xs ys)) ∙ h) in
    rw (append_assoc xs (j ∷ []) ys, ordered-append k false xs (j ∷ ys), front, a)
      (ordered_more k (opened k xs) (opens k j) ys back)

-- A job that is queued comes behind them.
pub ordered_queue :
    (k : Text) (xs ys : List Job) (j : Job)
    → ordered k false (xs ++ ys) ≡ true
    → allowed k (opened k (xs ++ ys)) j ≡ true
    → ordered k false (xs ++ (ys ++ j ∷ [])) ≡ true
ordered_queue k xs ys j h a =
    rw (← append_assoc xs ys (j ∷ []), ordered-append k false (xs ++ ys) (j ∷ []), h, a) refl

-- The next job of a list in order is allowed.
pub ordered-allowed :
    (k : Text) (xs : List Job) (j : Job) (ys : List Job)
    → ordered k false (xs ++ (j ∷ ys)) ≡ true
    → allowed k (opened k xs) j ≡ true
ordered-allowed k xs j ys h = ground (arith, ordered-append k false xs (j ∷ ys))
