-- ===== src/Asl/Queues.antt =====
-- The active list of asl.c as a map from the address of a semaphore to the queue of the processes
-- blocked on it.
use kaya_os.Base.{
  ℕ, suc, ltb, ◌<◌, ◌≤◌, ◌≡◌, ◌≢◌, inl, inr, refl, ◌∙◌, List, [], ◌∷◌, ◌++◌, arith, ◌==◌, length,
  length-append, All, append-All, ◌∈◌, ◌∉◌, has-append, Bool-cases, if◌then◌else◌, ==-refl,
}
use kaya_os.Pcb.Access.{IsPcb}
use kaya_os.Pcb.Frame.{IsProcQ-IsPcb}
use kaya_os.Asl.{Asl, max_int}
use kaya_os.Asl.Chain.{Entry, next_of, Chain, IsSorted, waiting}
use kaya_os.Asl.Refill.{with_queue}
use kaya_os.Asl.Grow.{fresh}
use kaya_os.Asl.Leave.{left}
use kaya_os.Asl.Search.{Below}
use kaya_os.Asl.Head.{Beyond}

-- The processes blocked on the semaphore `k`.
abbrev pub queue_of : List Entry → ℕ → List ℕ
queue_of [] k = []
queue_of (e ∷ es) k = let rest = queue_of es k in if k == e.key then e.queue else rest

-- `qs` instead of the queue of the semaphore `k`
abbrev pub set_queue : (ℕ → List ℕ) → ℕ → List ℕ → ℕ → List ℕ
set_queue m k qs j = if j == k then qs else m j

-- Where the semaphore `k` is on a sorted list, or belongs.
pub data Place (k : ℕ) (es : List Entry) : Type 0 where
  held :
      (xs : List Entry) (e : Entry) (ys : List Entry)
      → es ≡ xs ++ e ∷ ys
      → e.key ≡ k
      → Below k xs
      → Place k es
  lacking : (xs ys : List Entry) → es ≡ xs ++ ys → Below k xs → Beyond k ys → Place k es

Place-cons : {k : ℕ} {es : List Entry} (x : Entry) → x.key < k → Place k es → Place k (x ∷ es)
Place-cons x l (held xs e ys s h b) = held (x ∷ xs) e ys (rw s) h (l, b)
Place-cons x l (lacking xs ys s b c) = lacking (x ∷ xs) ys (rw s) (l, b) c

pub place : (k : ℕ) (es : List Entry) → k < max_int → Place k es
place k [] u = lacking [] [] refl tt u
place k (e ∷ es) u =
    let later = place k es u in
    elim (Bool-cases (k == e.key)) [
      | inl h ↦ held [] e es refl (ground arith) tt
      | inr h ↦ elim (Bool-cases (ltb k e.key)) [
        | inl l ↦ lacking [] (e ∷ es) refl tt (ground arith)
        | inr l ↦ Place-cons e (ground arith) later
      ]
    ]

-- The queues of the semaphores before and behind are not that of `k`.
pub queue_of-Below :
    (k : ℕ) (xs ys : List Entry) → Below k xs → queue_of (xs ++ ys) k ≡ queue_of ys k
queue_of-Below k [] ys b = refl
queue_of-Below k (x ∷ xs) ys b = ground (arith, queue_of-Below k xs ys b.1, b.0)

pub queue_of-above : (k low : ℕ) (ys : List Entry) → k ≤ low → IsSorted low ys → queue_of ys k ≡ []
queue_of-above k low [] l s = refl
queue_of-above k low (y ∷ ys) l s =
    ground (arith, s.0, queue_of-above k y.key ys (omega (arith, s.0)) s.1)

pub IsSorted-rest :
    (low : ℕ) (xs ys : List Entry) → IsSorted low (xs ++ ys) → (l : ℕ) × IsSorted l ys
IsSorted-rest low [] ys s = (low, s)
IsSorted-rest low (x ∷ xs) ys s = IsSorted-rest x.key xs ys s.1

pub queue_of-Beyond :
    (k low : ℕ) (ys : List Entry) → Beyond k ys → IsSorted low ys → queue_of ys k ≡ []
queue_of-Beyond k low [] b s = refl
queue_of-Beyond k low (y ∷ ys) b s =
    ground (arith, b, queue_of-above k y.key ys (omega (arith, b)) s.1)

pub queue_of-held :
    (k : ℕ) (xs : List Entry) (e : Entry) (ys : List Entry)
    → Below k xs
    → e.key ≡ k
    → queue_of (xs ++ e ∷ ys) k ≡ e.queue
queue_of-held k xs e ys b h = ground (arith, queue_of-Below k xs (e ∷ ys) b)

-- Two lists with the same front, and the same queues behind it.
pub queue_of-front :
    (j : ℕ) (xs ys zs : List Entry)
    → queue_of ys j ≡ queue_of zs j
    → queue_of (xs ++ ys) j ≡ queue_of (xs ++ zs) j
queue_of-front j [] ys zs h = h
queue_of-front j (x ∷ xs) ys zs h = ground (arith, queue_of-front j xs ys zs h)

-- A process on no queue of the map is on no queue of the list.
pub waiting-out :
    (q low : ℕ) (es : List Entry) → IsSorted low es → ((k : ℕ) → q ∉ queue_of es k) → q ∉ waiting es
waiting-out q low [] s h = refl
waiting-out q low (e ∷ es) s h =
    let here : q ∉ e.queue = ground (arith, h e.key) in
    let rest = waiting-out q e.key es s.1 (λ k. ground (arith, h k, queue_of-above k e.key es)) in
    ground (arith, here, rest, has-append q e.queue (waiting es))

pub queue_of-waiting : (q k : ℕ) (es : List Entry) → q ∉ waiting es → q ∉ queue_of es k
queue_of-waiting q k [] h = refl
queue_of-waiting q k (e ∷ es) h =
    ground (arith, queue_of-waiting q k es, has-append q e.queue (waiting es))

longer : (qs ps : List ℕ) (n : ℕ) → qs ≢ [] → n ≤ length ps → suc n ≤ length (qs ++ ps)
longer [] ps n some l = absurd (some refl)
longer (q ∷ qs) ps n some l = omega (arith, length-append qs ps)

-- Every semaphore of the list has a process.
pub length-waiting :
    (es : List Entry) → All (λ e. e.queue ≢ []) es → length es ≤ length (waiting es)
length-waiting [] b = omega arith
length-waiting (e ∷ es) b = longer e.queue (waiting es) (length es) b.0 (length-waiting es b.1)

pub waiting-IsPcb :
    (a : Asl) (x : ℕ) (es : List Entry) (y : ℕ) → Chain a x es y → All IsPcb (waiting es)
waiting-IsPcb a x [] y c = tt
waiting-IsPcb a x (e ∷ es) y c =
    append-All IsPcb e.queue (waiting es) (every_mem e.queue (λ p m. IsProcQ-IsPcb p c.1.2 m))
      (waiting-IsPcb a (next_of a e.at) es y c.2)
  where
    every_mem : (qs : List ℕ) → ((p : ℕ) → p ∈ qs → IsPcb p) → All IsPcb qs
    every_mem [] h = tt
    every_mem (q ∷ qs) h = (h q (ground arith), every_mem qs (λ p m. h p (ground arith)))

-- The queues when that of `k` becomes `qs`.
module _ (m : ℕ → List ℕ) (k : ℕ) (xs : List Entry) (lo : Below k xs) where
  pub queues-with :
      (e : Entry) (ys : List Entry) (qs : List ℕ)
      → e.key ≡ k
      → ((j : ℕ) → queue_of (xs ++ e ∷ ys) j ≡ m j)
      → (j : ℕ) → queue_of (xs ++ with_queue e qs ∷ ys) j ≡ set_queue m k qs j
  queues-with e ys qs h old j = elim (Bool-cases (j == k)) [
    | inl s ↦
        let same : j ≡ k = ground arith in
        rw (same, ==-refl k) (queue_of-held k xs (with_queue e qs) ys lo h)
    | inr n ↦ rw n (queue_of-front j xs (with_queue e qs ∷ ys) (e ∷ ys) (ground (arith, h)) ∙ old j)
  ]

  pub queues-fresh :
      (f p : ℕ) (ys : List Entry)
      → ((j : ℕ) → queue_of (xs ++ ys) j ≡ m j)
      → (j : ℕ) → queue_of (xs ++ fresh f k p ∷ ys) j ≡ set_queue m k (p ∷ []) j
  queues-fresh f p ys old j = elim (Bool-cases (j == k)) [
    | inl s ↦
        let same : j ≡ k = ground arith in
        rw (same, ==-refl k) (queue_of-held k xs (fresh f k p) ys lo refl)
    | inr n ↦ rw n (queue_of-front j xs (fresh f k p ∷ ys) ys (ground arith) ∙ old j)
  ]

  pub queues-left :
      (e : Entry) (ys : List Entry) (qs : List ℕ)
      → e.key ≡ k
      → IsSorted 0 (xs ++ e ∷ ys)
      → ((j : ℕ) → queue_of (xs ++ e ∷ ys) j ≡ m j)
      → (j : ℕ) → queue_of (xs ++ (left e qs ++ ys)) j ≡ set_queue m k qs j
  queues-left e ys (q ∷ qs) h so old j = queues-with e ys (q ∷ qs) h old j
  queues-left e ys [] h so old j =
      let (l, s) = IsSorted-rest 0 xs (e ∷ ys) so in
      elim (Bool-cases (j == k)) [
        | inl s' ↦
            let same : j ≡ k = ground arith in
            rw (same, ==-refl k)
              (queue_of-Below k xs ys lo ∙ queue_of-above k e.key ys (omega (arith, h)) s.1)
        | inr n ↦ rw n (queue_of-front j xs ys (e ∷ ys) (ground (arith, h)) ∙ old j)
      ]
