-- ===== src/Asl/Apart.antt =====
-- No process of the active list of asl.c is blocked twice.
use kaya_os.Base.{
  ℕ, ◌≡◌, refl, ◌∙◌, false, List, [], ◌∷◌, arith, ◌==◌, has, ◌∈◌, ◌∉◌, All-mem, Bool-cases, inl,
  inr, IsDistinct, IsDistinct-parts,
}
use kaya_os.Pcb.Access.{IsPcb}
use kaya_os.Asl.{Asl}
use kaya_os.Asl.Chain.{Entry, waiting}
use kaya_os.Asl.Queues.{queue_of, set_queue, queue_of-waiting, waiting-IsPcb}
use kaya_os.Asl.Blocking.{IsBlocking, Unblocked}

waiting-mem : (p k : ℕ) (es : List Entry) → p ∈ queue_of es k → p ∈ waiting es
waiting-mem p k es i = elim (Bool-cases (has p (waiting es))) [
  | inl y ↦ y
  | inr n ↦ absurd (ground (arith, queue_of-waiting p k es n))
]

queue_of-apart :
    (p j k : ℕ) (es : List Entry)
    → IsDistinct (waiting es)
    → (k == j) ≡ false
    → p ∈ queue_of es j
    → p ∉ queue_of es k
queue_of-apart p j k [] d ne i = refl
queue_of-apart p j k (e ∷ es) d ne i =
    let (de, dr, apart) = IsDistinct-parts e.queue (waiting es) d in
    let rest = queue_of-apart p j k es dr ne in
    elim (Bool-cases (j == e.key)) [
      | inl y ↦ ground (arith, apart p, queue_of-waiting p k es)
      | inr n ↦ ground (arith, apart p, waiting-mem p j es, rest)
    ]

queue_of-IsDistinct :
    (k : ℕ) (es : List Entry) → IsDistinct (waiting es) → IsDistinct (queue_of es k)
queue_of-IsDistinct k [] d = tt
queue_of-IsDistinct k (e ∷ es) d =
    let (de, dr, apart) = IsDistinct-parts e.queue (waiting es) d in
    elim (Bool-cases (k == e.key)) [ inl y ↦ rw y de | inr n ↦ rw n (queue_of-IsDistinct k es dr) ]

-- A process that is on no queue of the map stays so when one queue becomes another without it.
pub Unblocked-set :
    (m : ℕ → List ℕ) (q k : ℕ) (qs : List ℕ)
    → Unblocked m q
    → q ∉ qs
    → Unblocked (set_queue m k qs) q
Unblocked-set m q k qs u o j = elim (Bool-cases (j == k)) [ inl y ↦ rw y o | inr n ↦ rw n (u j) ]

module _ {a : Asl} {m : ℕ → List ℕ} (b : IsBlocking a m) (k : ℕ) where
  pub blocked-IsPcb : (p : ℕ) → p ∈ m k → IsPcb p
  blocked-IsPcb p i =
      All-mem IsPcb p (waiting b.entries) (waiting-IsPcb a _ b.entries _ b.list.chain)
        (waiting-mem p k b.entries (rw (b.queues k) i))

  -- The first process of a queue that leaves it is blocked no more.
  pub Unblocked-first : (p : ℕ) (ps : List ℕ) → m k ≡ p ∷ ps → Unblocked (set_queue m k ps) p
  Unblocked-first p ps e j =
      let here : queue_of b.entries k ≡ p ∷ ps = b.queues k ∙ e in
      elim (Bool-cases (j == k)) [
        | inl y ↦
            let d : IsDistinct (p ∷ ps) =
              rw here at (queue_of-IsDistinct k b.entries b.list.blocked) in
            rw y d.0
        | inr n ↦
            rw (n, ← (b.queues j))
              (queue_of-apart p k j b.entries b.list.blocked n (rw here (ground arith)))
      ]

  -- A process on the queue of one semaphore is on that of no other.
  pub blocked_once : (p j : ℕ) → p ∈ m k → (j == k) ≡ false → p ∉ m j
  blocked_once p j i n =
      rw (← (b.queues j)) (queue_of-apart p k j b.entries b.list.blocked n (rw (b.queues k) i))

  pub queue-IsDistinct : IsDistinct (m k)
  queue-IsDistinct = rw (← (b.queues k)) (queue_of-IsDistinct k b.entries b.list.blocked)
