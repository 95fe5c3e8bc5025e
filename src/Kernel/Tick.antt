-- ===== src/Kernel/Tick.antt =====
-- The interrupt of the interval timer in phase2/interrupts.c.
use kaya_os.Base.{
  ℕ, zero, suc, ◌-◌, ◌<◌, ◌≤◌, ◌^◌, ◌≡◌, refl, sym, ap, ◌∙◌, false, List, [], ◌∷◌, arith, ◌==◌,
  length, Bool-cases, inl, inr, out_of_fuel, ◌>>◌, Returns, Returns-mono, returns, ==-refl, Leaves,
  Leaves-mono, Returns-Leaves, All, length-le_of_distinct, ◌∈◌, ProcState,
}
use mathlib.Core.Path.{subst}
use kaya_os.Pcb.Access.{IsPcb}
use kaya_os.Asl.Queues.{set_queue}
use kaya_os.Asl.Blocking.{IsAddress}
use kaya_os.Asl.First.{head_blocked-none, head_blocked-other}
use kaya_os.Asl.Waking.{remove_blocked-none}
use kaya_os.Kernel.{Kernel, total_sem, sem_address, update, set_word}
use kaya_os.Kernel.Nucleus.{Jobs, IsNucleus, same-IsNucleus, IsAlone}
use kaya_os.Kernel.Wake.{wake_up, wake_up-IsAlone}
use kaya_os.Kernel.Signal.{Signalled, counted-IsNucleus}
use kaya_os.Kernel.Interrupts.{wake_loop, interval, interval_timer, finish, interrupt_old_area}
use kaya_os.Asl.Apart.{blocked-IsPcb, queue-IsDistinct}
use kaya_os.Kernel.Saved.{Switched, Switched-before}
use kaya_os.Kernel.Preempt.{preempted, finish-Switched}
use kaya_os.Kernel.Clock.{wake_all, less, round-then}

set_queue-hit : (m : ℕ → List ℕ) (k : ℕ) (qs : List ℕ) → set_queue m k qs k ≡ qs
set_queue-hit m k qs = rw (==-refl k) refl

set_queue-above : (m : ℕ → List ℕ) (k l : ℕ) (qs : List ℕ) → k < l → set_queue m k qs l ≡ m l
set_queue-above m k l qs lt = let ne : (l == k) ≡ false = ground arith in rw ne refl

-- With none blocked on a semaphore with a larger address, the loop makes all processes that wait
-- for the clock ready, in their order, and ends after as many rounds.
pub wake_loop-Signalled :
    (k : ℕ) (qs : List ℕ) (f : ℕ) {s : Kernel} {j : Jobs}
    → IsNucleus s j
    → IsAddress k
    → ((l : ℕ) → k < l → j.queues l ≡ [])
    → j.queues k ≡ qs
    → length qs < f
    → Returns
        (λ _. Signalled s (wake_all k qs j) (less (length qs) s.soft_block_count))
        (wake_loop f k s)
unfolding wake_loop
wake_loop-Signalled k qs zero n ka above q fuel = absurd (omega arith)
wake_loop-Signalled k [] (suc f) {s} {j} n ka above q fuel =
    let none : (l : ℕ) → k ≤ l → j.queues l ≡ [] = λ l le. elim (Bool-cases (l == k)) [
      | inl y ↦ let same : l ≡ k = ground arith in rw same q
      | inr o ↦ above l (ground arith)
    ] in
    rw (head_blocked-none k n.blocking ka none) (returns (n, (λ x. refl), refl, refl, refl))
wake_loop-Signalled k (p ∷ ps) (suc f) {s} {j} n ka above q fuel =
    round-then k p ps f
      (λ r.
        Returns
          (λ _. Signalled s (wake_all k (p ∷ ps) j) (less (length (p ∷ ps)) s.soft_block_count)) r)
      n ka q
      λ g (n', same, soft, ar, pc).
        Returns-mono
          (wake_loop-Signalled k ps f n' ka
            (λ l lt. set_queue-above j.queues k l ps lt ∙ above l lt) (set_queue-hit j.queues k ps)
            (omega (arith, fuel)))
          λ u b (m, same', soft', ar', pc').
            (m, (λ x. same' x ∙ same x), soft' ∙ ap (less (length ps)) soft, ar' ∙ ar, pc' ∙ pc)

-- one round of a loop that does not end
endless-round :
    {s : Kernel} {j : Jobs} (f k l q : ℕ) (qs ps : List ℕ)
    → IsNucleus s j
    → IsAddress k
    → k < l
    → j.queues l ≡ q ∷ qs
    → j.queues k ≡ ps
    → ((g : Kernel) (i : Jobs)
        → IsNucleus g i
        → i.queues l ≡ q ∷ qs
        → wake_loop f k g ≡ out_of_fuel)
    → wake_loop (suc f) k s ≡ out_of_fuel
unfolding wake_loop
endless-round {s} {j} f k l q qs [] n ka lt some e next =
    let (p, ne, run) = head_blocked-other k n.blocking ka l q qs e lt some in
    let s' = record s { readings = suc s.readings } in
    rw (run, ne, remove_blocked-none k n.blocking ka e)
      (next s' j (same-IsNucleus s' refl refl refl refl n) some)
endless-round {s} {j} f k l q qs (p ∷ ps) n ka lt some e next =
    round-then k p ps f (λ r. r ≡ out_of_fuel) n ka e
      λ g (n', same, soft, ar, pc).
        next g (wake_up k p ps j) n' (set_queue-above j.queues k l ps lt ∙ some)

-- While a process is blocked on a semaphore with a larger address the loop does not end: whatever
-- number of rounds it is given, it has not returned after them.
pub wake_loop-endless :
    {s : Kernel} {j : Jobs} (f k l q : ℕ) (qs : List ℕ)
    → IsNucleus s j
    → IsAddress k
    → k < l
    → j.queues l ≡ q ∷ qs
    → wake_loop f k s ≡ out_of_fuel
unfolding wake_loop
wake_loop-endless zero k l q qs n ka lt some = refl
wake_loop-endless {s} {j} (suc f) k l q qs n ka lt some =
    endless-round f k l q qs (j.queues k) n ka lt some refl
      λ g i m e. wake_loop-endless f k l q qs m ka lt e

-- After a tick of the clock: those that waited for it are ready, and its count is 0.
abbrev pub ticked : ℕ → Jobs → Jobs
ticked k j =
    let woken = wake_all k (j.queues k) j in record woken { count = update woken.count k 0 }

wake_all-current : (k : ℕ) (qs : List ℕ) (j : Jobs) → (wake_all k qs j).current ≡ j.current
wake_all-current k [] j = refl
wake_all-current k (p ∷ ps) j = wake_all-current k ps (wake_up k p ps j)

wake_all-IsAlone :
    (k : ℕ) (qs : List ℕ) (j : Jobs) → j.queues k ≡ qs → IsAlone j → IsAlone (wake_all k qs j)
wake_all-IsAlone k [] j q al = al
wake_all-IsAlone k (p ∷ ps) j q al =
    wake_all-IsAlone k ps (wake_up k p ps j) (set_queue-hit j.queues k ps)
      (wake_up-IsAlone k p ps j q al)

-- At most MAXPROC processes wait for the clock.
queue-length : {s : Kernel} {j : Jobs} (k : ℕ) → IsNucleus s j → length (j.queues k) < 21
queue-length {s} {j} k n = omega (
  arith,
  length-le_of_distinct 20 (j.queues k) (queue-IsDistinct n.blocking k)
      (ranges (j.queues k) (λ p i. blocked-IsPcb n.blocking k p i)),
)
  where
    ranges : (qs : List ℕ) → ((p : ℕ) → p ∈ qs → IsPcb p) → All (λ x. (0 < x) × (x ≤ 20)) qs
    ranges [] h = tt
    ranges (q ∷ qs) h =
        let v = h q (ground arith) in
        ((ground arith, ground arith), ranges qs (λ p i. h p (ground arith)))

module _ {s : Kernel} {j : Jobs} (k : ℕ) (n : IsNucleus s j) (al : IsAlone j)
    (at : k ≡ sem_address s (total_sem - 1)) (ka : IsAddress k)
    (above : (l : ℕ) → k < l → j.queues l ≡ []) (small : s.process_count < 2 ^ 31)
    (small' : less (length (j.queues k)) s.soft_block_count < 2 ^ 31) where
  -- With a process running that is on no queue and the counts afterwards below 2^31, and if no
  -- process is blocked on a semaphore with a larger address than that of the clock, a tick
  -- makes all processes that wait for the clock ready, in their order, and sets its semaphore to 0;
  -- for each of them softBlockCount goes down by one, and processCount stays. The running process
  -- goes behind them, with its state in the old area saved, and the scheduler chooses.
  pub interval_timer-Switched :
      IsPcb j.current
      → Leaves
          (Switched s.asl.pcbs s.current
            (s.area interrupt_old_area)
            (preempted (ticked k j))
            s.process_count
            (less (length (j.queues k)) s.soft_block_count))
          (interval_timer s)
  unfolding interval_timer
  interval_timer-Switched v =
      let t = record s { interval_timer = interval } in
      let qs = j.queues k in
      rw (← at) (
        Returns-Leaves {k = λ _. set_word k 0 >> finish}
          (wake_loop-Signalled k qs 21 (same-IsNucleus t refl refl refl refl n) ka above refl
            (queue-length k n))
          λ u b (n', same, soft, ar, pc).
            let b' = record b { word = update b.word k 0 } in
            let m = counted-IsNucleus k (λ _. 0) n' in
            let al' = wake_all-IsAlone k qs j refl al in
            let same_current = wake_all-current k qs j in
            let v' : IsPcb (wake_all k qs j).current = rw same_current v in
            subst
              (λ (ar : ℕ → ProcState).
                Leaves
                  (Switched s.asl.pcbs s.current (ar interrupt_old_area) (preempted (ticked k j))
                    s.process_count (less (length qs) s.soft_block_count))
                  (finish b'))
              ar
              (Leaves-mono (finish-Switched {s = b'} m al' v' (rw pc small, rw soft small'))
                λ e' g' w.
                  Switched-before b' s.asl.pcbs s.current (b.area interrupt_old_area)
                    (n'.runs ∙ (same_current ∙ sym n.runs)) same (pc, soft) w))
