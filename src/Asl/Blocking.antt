-- ===== src/Asl/Blocking.antt =====
-- The calls of asl.c against the map from semaphores to queues that the active list stands for.
use kaya_os.Base.{
  ℕ, ◌+◌, ◌<◌, ◌≤◌, ◌≡◌, refl, sym, ◌∙◌, false, List, [], ◌∷◌, ◌++◌, arith, length, length-append,
  All, ◌∉◌, Bool, IsDistinct, Returns, Returns-mono, length-le_of_distinct,
}
use mathlib.Core.Path.{subst}
use kaya_os.Pcb.{null}
use kaya_os.Pcb.Access.{IsPcb}
use kaya_os.Pcb.Aim.{Moved}
use kaya_os.Asl.{Asl, max_int, insert_blocked}
use kaya_os.Asl.Chain.{Entry, IsAsl, waiting}
use kaya_os.Asl.Refill.{with_queue}
use kaya_os.Asl.Grow.{fresh}
use kaya_os.Asl.Insert.{insert_blocked-append}
use kaya_os.Asl.New.{insert_blocked-new}
use kaya_os.Asl.Queues.{
  queues-with, queues-fresh, queue_of, set_queue, Place, held, lacking, place, queue_of-Below,
  IsSorted-rest, queue_of-Beyond, queue_of-held, waiting-out, queue_of-waiting, length-waiting,
  waiting-IsPcb,
}

-- A well-formed active list with the queues `m`, by the address of the semaphore. Each of the
-- MAXPROC descriptors is on it or free.
pub record IsBlocking (a : Asl) (m : ℕ → List ℕ) : Type 0 where
  pub entries : List Entry
  pub frees : List ℕ
  pub list : IsAsl a entries frees
  pub total : length entries + length frees ≡ 20
  pub queues : (k : ℕ) → queue_of entries k ≡ m k

-- The process `p` is blocked on no semaphore.
abbrev pub Unblocked : (ℕ → List ℕ) → ℕ → Type 0
Unblocked m p = (k : ℕ) → p ∉ m k

-- An address that a semaphore can have: below MAXINT, and not that of the low dummy node.
abbrev pub IsAddress : ℕ → Type 0
IsAddress k = (0 < k) × (k < max_int)

module _ {a : Asl} {m : ℕ → List ℕ} (b : IsBlocking a m) where
  pub Unblocked-out : (p : ℕ) → Unblocked m p → p ∉ waiting b.entries
  Unblocked-out p u = waiting-out p 0 b.entries b.list.sorted (λ k. rw (b.queues k) (u k))

  waiting_valid : All IsPcb (waiting b.entries)
  waiting_valid = waiting-IsPcb a _ b.entries _ b.list.chain

  -- NULL names no blocked process.
  pub Unblocked-null : Unblocked m null
  Unblocked-null k =
      rw (← b.queues k) (queue_of-waiting null k b.entries (out (waiting b.entries) waiting_valid))
    where
      out : (qs : List ℕ) → All IsPcb qs → null ∉ qs
      out [] h = refl
      out (q ∷ qs) h = ground (arith, h.0, out qs h.1)

  -- With a process that is not blocked there is a free descriptor.
  frees_some : (p : ℕ) → IsPcb p → Unblocked m p → (f : ℕ) × (fs : List ℕ) × (b.frees ≡ f ∷ fs)
  frees_some p v u =
      let d : IsDistinct (p ∷ waiting b.entries) = (Unblocked-out p u, b.list.blocked) in
      let few =
        length-le_of_distinct 20 (p ∷ waiting b.entries) d
          (ranges (p ∷ waiting b.entries) (v, waiting_valid)) in
      some b.frees (omega (arith, few, length-waiting b.entries b.list.busy, b.total))
    where
      ranges : (qs : List ℕ) → All IsPcb qs → All (λ x. (0 < x) × (x ≤ 20)) qs
      ranges [] h = tt
      ranges (q ∷ qs) h = ((ground arith, ground arith), ranges qs h.1)

      some : (fs : List ℕ) → 0 < length fs → (f : ℕ) × (gs : List ℕ) × (fs ≡ f ∷ gs)
      some [] l = absurd (ground arith)
      some (f ∷ gs) l = (f, gs, refl)

-- What insertBlocked promises: the block `p` is behind the queue of `k`.
abbrev pub Enqueued : (ℕ → List ℕ) → (k p : ℕ) → Asl → Bool → Asl → Type 0
Enqueued m k p a r g =
    (r ≡ false) × IsBlocking g (set_queue m k (m k ++ p ∷ [])) × Moved (p ∷ m k) a.pcbs g.pcbs

module _ {a : Asl} {m : ℕ → List ℕ} (k p : ℕ) (b : IsBlocking a m) (n : IsAddress k) (v : IsPcb p)
    (u : Unblocked m p) where
  by_place : Place k b.entries → Returns (Enqueued m k p a) (insert_blocked k p a)
  by_place (held xs e ys s h lo) =
      let i : IsAsl a (xs ++ e ∷ ys) b.frees = rw s at b.list in
      let old : (j : ℕ) → queue_of (xs ++ e ∷ ys) j ≡ m j = rw s at b.queues in
      let here : m k ≡ e.queue = sym (old k) ∙ queue_of-held k xs e ys lo h in
      let out : p ∉ waiting (xs ++ e ∷ ys) = rw s at (Unblocked-out b p u) in
      let count : length (xs ++ e ∷ ys) + length b.frees ≡ 20 = rw s at b.total in
      subst (λ z. Returns (Enqueued m k p a) (insert_blocked z p a)) h
        (Returns-mono (insert_blocked-append xs e ys p i v out) λ r g (r0, i', mv). (
          r0,
          record {
            entries = xs ++ with_queue e (e.queue ++ p ∷ []) ∷ ys;
            frees = b.frees;
            list = i';
            total = omega (
              arith,
              count,
              length-append xs (e ∷ ys),
              length-append xs (with_queue e (e.queue ++ p ∷ []) ∷ ys),
            );
            queues = rw here (queues-with m k xs lo e ys (e.queue ++ p ∷ []) h old);
          },
          rw here mv,
        ))
  by_place (lacking xs ys s lo hi) =
      let (f, fs, fe) = frees_some b p v u in
      let i : IsAsl a (xs ++ ys) (f ∷ fs) = rw (s, fe) at b.list in
      let old : (j : ℕ) → queue_of (xs ++ ys) j ≡ m j = rw s at b.queues in
      let (l, so) = IsSorted-rest 0 xs ys i.sorted in
      let here : m k ≡ [] =
        sym (old k) ∙ (queue_of-Below k xs ys lo ∙ queue_of-Beyond k l ys hi so) in
      let out : p ∉ waiting (xs ++ ys) = rw s at (Unblocked-out b p u) in
      let count : length (xs ++ ys) + length (f ∷ fs) ≡ 20 = rw (s, fe) at b.total in
      Returns-mono (insert_blocked-new xs ys k p i n.0 (ground arith) lo hi v out)
        λ r g (r0, i', mv). (
          r0,
          record {
            entries = xs ++ fresh f k p ∷ ys;
            frees = fs;
            list = i';
            total = omega (arith, count, length-append xs ys, length-append xs (fresh f k p ∷ ys));
            queues = rw here (queues-fresh m k xs lo f p ys old);
          },
          rw here mv,
        )

  -- insertBlocked of a block that waits for nothing, for any semaphore with an address above 0 and
  -- below MAXINT, finds a descriptor, returns FALSE and puts the block behind the semaphore's queue;
  -- no other queue changes. Of the blocks, only queue links and semaphores of that block and of
  -- that queue change.
  pub insert_blocked-Enqueued : Returns (Enqueued m k p a) (insert_blocked k p a)
  insert_blocked-Enqueued = by_place (place k b.entries n.1)
