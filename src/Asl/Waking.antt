-- ===== src/Asl/Waking.antt =====
-- removeBlocked and outBlocked of asl.c against the map from semaphores to queues.
use kaya_os.Base.{
  ℕ, ◌+◌, ◌≡◌, sym, ◌∙◌, List, [], ◌∷◌, ◌++◌, arith, length, length-append, All-append, ◌∈◌,
  Returns, Returns-mono, ok, erase,
}
use mathlib.Core.Path.{subst}
use kaya_os.Pcb.{null}
use kaya_os.Pcb.Aim.{Moved}
use kaya_os.Asl.{Asl, remove_blocked, out_blocked}
use kaya_os.Asl.Chain.{Entry, IsAsl, IsSorted}
use kaya_os.Asl.Search.{Below}
use kaya_os.Asl.Head.{Beyond, remove_blocked-absent}
use kaya_os.Asl.Leave.{left, freed, remove_blocked-cons, out_blocked-mem}
use kaya_os.Asl.Queues.{
  queue_of, set_queue, Place, held, lacking, place, queue_of-Below, IsSorted-rest, queue_of-Beyond,
  queue_of-held, queues-left,
}
use kaya_os.Asl.Blocking.{IsBlocking, IsAddress}

-- The process `p` has left the queue of `k`, which is `qs` now.
abbrev pub Freed : (ℕ → List ℕ) → (k p : ℕ) → List ℕ → Asl → ℕ → Asl → Type 0
Freed m k p qs a r g =
    (r ≡ p)
    × IsBlocking g (set_queue m k qs)
    × Moved (m k) a.pcbs g.pcbs
    × ((g.pcbs.cell p).sem_add ≡ null)

length-left :
    (xs : List Entry) (e : Entry) (ys : List Entry) (qs fs : List ℕ)
    → length (xs ++ (left e qs ++ ys)) + length (freed e qs fs) ≡ length (xs ++ e ∷ ys) + length fs
length-left xs e ys [] fs = omega (arith, length-append xs (e ∷ ys), length-append xs ys)
length-left xs e ys (q ∷ qs) fs =
    omega (arith, length-append xs (e ∷ ys), length-append xs (left e (q ∷ qs) ++ ys))

module _ {a : Asl} {m : ℕ → List ℕ} (k : ℕ) (b : IsBlocking a m) (n : IsAddress k) where
  -- What the calls of Leave promise of the list, of the map.
  left-Freed :
      (xs : List Entry) (e : Entry) (ys : List Entry) (p : ℕ) (qs : List ℕ)
      → b.entries ≡ xs ++ e ∷ ys
      → e.key ≡ k
      → Below k xs
      → (r : ℕ) (g : Asl)
      → ((r ≡ p)
          × IsAsl g (xs ++ (left e qs ++ ys)) (freed e qs b.frees)
          × ((g.pcbs.cell p).sem_add ≡ null)
          × Moved e.queue a.pcbs g.pcbs)
      → Freed m k p qs a r g
  left-Freed xs e ys p qs s h lo r g (r0, i', t, mv) =
      let old : (j : ℕ) → queue_of (xs ++ e ∷ ys) j ≡ m j = rw s at b.queues in
      let here : m k ≡ e.queue = sym (old k) ∙ queue_of-held k xs e ys lo h in
      let so : IsSorted 0 (xs ++ e ∷ ys) = rw s at b.list.sorted in
      (
        r0,
        record {
          entries = xs ++ (left e qs ++ ys);
          frees = freed e qs b.frees;
          list = i';
          total = length-left xs e ys qs b.frees ∙ (rw s at b.total);
          queues = queues-left m k xs lo e ys qs h so old;
        },
        rw here mv,
        t,
      )

  -- the queue of a semaphore that is not on the list
  pub lacks : (xs ys : List Entry) → b.entries ≡ xs ++ ys → Below k xs → Beyond k ys → m k ≡ []
  lacks xs ys s lo hi =
      let old : (j : ℕ) → queue_of (xs ++ ys) j ≡ m j = rw s at b.queues in
      let so : IsSorted 0 (xs ++ ys) = rw s at b.list.sorted in
      let (l, so') = IsSorted-rest 0 xs ys so in
      sym (old k) ∙ (queue_of-Below k xs ys lo ∙ queue_of-Beyond k l ys hi so')

  -- and of one that is
  pub holds :
      (xs : List Entry) (e : Entry) (ys : List Entry)
      → b.entries ≡ xs ++ e ∷ ys
      → e.key ≡ k
      → Below k xs
      → m k ≡ e.queue
  holds xs e ys s h lo =
      let old : (j : ℕ) → queue_of (xs ++ e ∷ ys) j ≡ m j = rw s at b.queues in
      sym (old k) ∙ queue_of-held k xs e ys lo h

  -- removeBlocked of a semaphore with blocked processes takes the first off its queue and returns
  -- it, blocked no more; no other queue changes. Of the blocks, only queue links and semaphores of
  -- that queue change.
  pub remove_blocked-Freed :
      (p : ℕ) (ps : List ℕ) → m k ≡ p ∷ ps → Returns (Freed m k p ps a) (remove_blocked k a)
  remove_blocked-Freed p ps q = by_place (place k b.entries n.1)
    where
      by_place : Place k b.entries → Returns (Freed m k p ps a) (remove_blocked k a)
      by_place (held xs e ys s h lo) =
          let i : IsAsl a (xs ++ e ∷ ys) b.frees = rw s at b.list in
          subst (λ z. Returns (Freed m k p ps a) (remove_blocked z a)) h
            (Returns-mono (remove_blocked-cons xs e ys p ps i (sym (holds xs e ys s h lo) ∙ q))
              (left-Freed xs e ys p ps s h lo))
      by_place (lacking xs ys s lo hi) = absurd (ground (arith, lacks xs ys s lo hi, q))

  -- and without blocked processes it returns NULL and changes nothing
  pub remove_blocked-none : m k ≡ [] → remove_blocked k a ≡ ok null a
  remove_blocked-none q = by_place (place k b.entries n.1)
    where
      by_place : Place k b.entries → remove_blocked k a ≡ ok null a
      by_place (held xs e ys s h lo) =
          absurd
            ((All-append _ xs (e ∷ ys) (rw s at b.list.busy)).1.0 (sym (holds xs e ys s h lo) ∙ q))
      by_place (lacking xs ys s lo hi) =
          let i : IsAsl a (xs ++ ys) b.frees = rw s at b.list in
          remove_blocked-absent k xs ys i (ground arith) lo hi

  -- outBlocked of a process that is blocked takes it off the queue of its semaphore, wherever it
  -- stands there, and returns it, blocked no more; no other queue changes. Of the blocks, only queue
  -- links and semaphores of that queue change.
  pub out_blocked-Freed :
      (p : ℕ) → p ∈ m k → Returns (Freed m k p (erase p (m k)) a) (out_blocked p a)
  out_blocked-Freed p q = by_place (place k b.entries n.1)
    where
      by_place : Place k b.entries → Returns (Freed m k p (erase p (m k)) a) (out_blocked p a)
      by_place (held xs e ys s h lo) =
          let i : IsAsl a (xs ++ e ∷ ys) b.frees = rw s at b.list in
          let here = holds xs e ys s h lo in
          rw here (
            Returns-mono (out_blocked-mem xs e ys p i (rw here at q))
              (left-Freed xs e ys p (erase p e.queue) s h lo))
      by_place (lacking xs ys s lo hi) = absurd (ground (arith, lacks xs ys s lo hi, q))
