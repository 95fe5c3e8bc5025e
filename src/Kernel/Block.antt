-- ===== src/Kernel/Block.antt =====
-- The P operations of the nucleus: SYS4, SYS7 and SYS8 of phase2/exceptions.c.
use kaya_os.Base.{
  ◌==◌, ◌≤◌, ◌+◌, ◌*◌, if◌then◌else◌, List, [], ◌∷◌, inl, inr, refl, Leaves-mono, ℕ, ◌-◌, ◌<◌, ◌^◌,
  ◌%◌, ◌≡◌, sym, true, false, Bool, ◌++◌, arith, ◌∈◌, ◌∉◌, has-append, Bool-cases, Cmd, ◌>>◌,
  modify, ProcState, Returns, Returns-mono, returns, Leaves, Returns-Leaves, Run,
}
use mathlib.Core.Path.{subst}
use kaya_os.Base.Word.{add32, sub32, is_neg}
use kaya_os.Pcb.Access.{IsPcb}
use kaya_os.Pcb.Aim.{Moved-Kept, Moved-state}
use kaya_os.Pcb.Frame.{IsProcQ-frame}
use kaya_os.Asl.{Asl, insert_blocked}
use kaya_os.Asl.Queues.{set_queue}
use kaya_os.Asl.Blocking.{Unblocked, IsAddress, Enqueued, insert_blocked-Enqueued}
use kaya_os.Asl.Apart.{Unblocked-set}
use kaya_os.Kernel.{Kernel, total_sem, update, sem_address, on_asl, save_state}
use kaya_os.Kernel.Access.{on_asl-Returns}
use kaya_os.Kernel.Scheduler.{scheduler}
use kaya_os.Kernel.Nucleus.{
  Jobs, IsNucleus, recount-IsNucleus, next_up, scheduler-Scheduled, IsAlone, IsSmall,
}
use kaya_os.Kernel.Signal.{SameStates, counted-IsNucleus}
use kaya_os.Kernel.Saved.{saved-same, save_state-ok, saved-IsNucleus, Switched, switch}
use kaya_os.Kernel.Syscalls.{
  a1, a2, a3, decrement, device_index, sys_wait, sys_wait_io, sys_wait_for_clock,
}

-- The count of the semaphore `k` after a P operation.
abbrev pub counted : ℕ → Jobs → Jobs
counted k j = record j { count = update j.count k (sub32 (j.count k) 1) }

-- The running process waits behind the others that are blocked on `k`.
abbrev pub block : ℕ → Jobs → Jobs
block k j = record j { queues = set_queue j.queues k (j.queues k ++ j.current ∷ []) }

module _ {s : Kernel} {j : Jobs} (n : IsNucleus s j) (al : IsAlone j) (v : IsPcb j.current) (k : ℕ)
    (ka : IsAddress k) where
  out_of_queue : (q : ℕ) → q ∈ j.ready → q ∉ (j.current ∷ j.queues k)
  out_of_queue q i = ground (arith, n.apart q i k, al.0)

  blocked-IsNucleus :
      (r : Bool) (a : Asl)
      → Enqueued j.queues k j.current s.asl r a
      → IsNucleus (record s { asl = a }) (block k j)
  blocked-IsNucleus r a (r0, b, mv) = record {
    counts = n.counts;
    blocking = b;
    queue =
        IsProcQ-frame a.pcbs s.asl.pcbs s.ready j.ready
          (λ q i. (Moved-Kept mv q (out_of_queue q i)).0) n.queue;
    apart = λ q i.
        Unblocked-set j.queues q k (j.queues k ++ j.current ∷ []) (n.apart q i)
          (ground (arith, out_of_queue q i, has-append q (j.queues k) (j.current ∷ [])));
    runs = n.runs;
  }

  -- insertBlocked(mutex, currentProcess)
  pub block_current :
      Returns
        (λ _ g. (a : Asl) × (g ≡ record s { asl = a }) × IsNucleus g (block k j) × SameStates s g)
        (on_asl (insert_blocked k s.current) s)
  block_current =
      subst
        (λ (c : ℕ).
          Returns
            (λ _ g.
              (a : Asl) × (g ≡ record s { asl = a }) × IsNucleus g (block k j) × SameStates s g)
            (on_asl (insert_blocked k c) s))
        (sym n.runs)
        (Returns-mono
          (on_asl-Returns (insert_blocked k j.current) s
            (insert_blocked-Enqueued k j.current n.blocking ka v al.1))
          λ r g (a, e, q). (a, e, rw e (blocked-IsNucleus r a q), rw e (λ x. Moved-state q.2 x)))

-- the new count of processes that wait for a device, and the scheduler
abbrev go_on : (ℕ → ℕ) → Cmd Kernel (Unit {0})
go_on f = modify (λ s. record s { soft_block_count = f s.soft_block_count }) >> scheduler

module _ {s : Kernel} {j : Jobs} (n : IsNucleus s j) (al : IsAlone j) (v : IsPcb j.current) (k : ℕ)
    (ka : IsAddress k) (st : ProcState) (f : ℕ → ℕ) (small : s.process_count < 2 ^ 31)
    (small' : f s.soft_block_count < 2 ^ 31) where
  runs_valid : IsPcb s.current
  runs_valid = rw n.runs v

  -- The state is saved, and then the process is blocked,
  save_and_block :
      Leaves
        (Switched s.asl.pcbs s.current st (block k j) s.process_count (f s.soft_block_count))
        ((save_state st s.current >> (on_asl (insert_blocked k s.current) >> go_on f)) s)
  save_and_block = rw (save_state-ok st s.current s runs_valid) (
      Returns-Leaves {k = λ _. go_on f} (block_current (saved-IsNucleus st s.current n) al v k ka)
        λ r g (a, e, n', same). rw e (
          switch s.asl.pcbs s.current st (recount-IsNucleus (f s.soft_block_count) (rw e at n'))
            runs_valid refl (small, small') (refl, refl) (rw e at same)))

  -- or the other way round.
  block_and_save :
      Leaves
        (Switched s.asl.pcbs s.current st (block k j) s.process_count (f s.soft_block_count))
        ((on_asl (insert_blocked k s.current) >> (save_state st s.current >> go_on f)) s)
  block_and_save =
      Returns-Leaves {k = λ _. save_state st s.current >> go_on f} (block_current n al v k ka)
        λ r g (a, e, n', same).
          rw (e, save_state-ok st s.current (record s { asl = a }) runs_valid)
            (switch s.asl.pcbs s.current st
              (recount-IsNucleus (f s.soft_block_count) (saved-IsNucleus st s.current (rw e at n')))
              runs_valid refl (small, small') (refl, refl)
              (saved-same st a.pcbs s.asl.pcbs s.current (rw e at same)))

-- The semaphores of the devices in memory: eight for each line from 3 on, by the number of the
-- device, and eight more for the receivers of the terminals, which are the last line.
abbrev pub io_semaphore : Kernel → (line device : ℕ) → (reading : Bool) → ℕ
io_semaphore s line device reading =
    s.sem_base + 4 * (8 * (line - 3) + device + (if reading then 8 else 0))

-- What a P operation means, by whether the count becomes negative: the process waits and another
-- runs, with `soft` that wait for a device, or it goes on.
abbrev pub Waits : Bool → Kernel → ProcState → Jobs → (k soft : ℕ) → Run Kernel (Unit {0}) → Type 0
Waits true s st j k soft r =
    Leaves (Switched s.asl.pcbs s.current st (block k (counted k j)) s.process_count soft) r
Waits false s st j k soft r =
    Returns
      (λ _ g.
        IsNucleus g (counted k j)
        × SameStates s g
        × (g.area ≡ s.area)
        × (g.process_count ≡ s.process_count)
        × (g.soft_block_count ≡ s.soft_block_count))
      r

-- What SYS8 computes is the address of that semaphore.
io_address :
    (s : Kernel) (line device : ℕ) (reading : Bool)
    → (3 ≤ line) × (line ≤ 7) × (device < 8)
    → IsAddress (io_semaphore s line device reading)
    → sem_address s (device_index line device (if reading then 1 else 0)) % 2 ^ 32
      ≡ io_semaphore s line device reading
unfolding device_index
io_address s line device true b ka = omega (arith, b, ka)
io_address s line device false b ka = omega (arith, b, ka)

-- The process `p` is nowhere: it does not run, is not ready and waits for nothing.
abbrev pub Lost : ℕ → Jobs → Type 0
Lost p j = ((j.current == p) ≡ false) × (p ∉ j.ready) × Unblocked j.queues p

pub next_up-Lost : (j : Jobs) → IsPcb j.current → IsAlone j → Lost j.current (next_up j)
next_up-Lost j v al = by_ready j.ready refl
  where
    by_ready : (rs : List ℕ) → j.ready ≡ rs → Lost j.current (next_up j)
    by_ready [] e = rw e (ground arith, refl, al.1)
    by_ready (p ∷ ps) e = rw e (ground (arith, al.0), ground (arith, al.0), al.1)

-- What SYS7 comes to, by whether the count becomes negative.
abbrev pub ClockWaits : Bool → Kernel → ProcState → Jobs → ℕ → Run Kernel (Unit {0}) → Type 0
ClockWaits true s st j k r =
    Leaves
      (Switched s.asl.pcbs s.current st (block k (counted k j)) s.process_count
        (add32 s.soft_block_count 1))
      r
ClockWaits false s st j k r =
    Leaves (λ e g. IsNucleus g (next_up (counted k j)) × Lost j.current (next_up (counted k j))) r

module _ {s : Kernel} {j : Jobs} (st : ProcState) (n : IsNucleus s j) (al : IsAlone j)
    (v : IsPcb j.current) where
  counts-neg :
      (k : ℕ) (b : Bool) → is_neg (sub32 (j.count k) 1) ≡ b → is_neg (sub32 (s.word k) 1) ≡ b
  counts-neg k b e = subst (λ (w : ℕ → ℕ). is_neg (sub32 (w k) 1) ≡ b) (sym n.counts) e

  -- SYS4 does what a P operation means.
  pub sys_wait-Waits :
      IsAddress (st.reg a1)
      → IsSmall s
      → Waits
          (is_neg (sub32 (j.count (st.reg a1)) 1))
          s
          st
          j
          (st.reg a1)
          s.soft_block_count
          (sys_wait st s)
  unfolding sys_wait decrement
  sys_wait-Waits ka small =
      let k = st.reg a1 in
      let n1 = counted-IsNucleus k (λ w. sub32 w 1) n in
      elim (Bool-cases (is_neg (sub32 (j.count k) 1))) [
        | inl e ↦
            rw (e, counts-neg k true e) (save_and_block n1 al v k ka st (λ c. c) small.0 small.1)
        | inr e ↦ rw (e, counts-neg k false e) (returns (n1, (λ x. refl), refl, refl, refl))
      ]

  -- SYS8 for a device 0 .. 7 of a line 3 .. 7, with 0 or 1 in a3, of a process that runs and is on
  -- no queue, with the counts afterwards below 2^31, does what a P operation means on the semaphore
  -- of the device, sem[8 * (line - 3) + device], or with 1 in a3, which stands for the receiver of a
  -- terminal, on the one eight behind. If its count becomes negative the running process, with the
  -- state of the call saved, waits behind the others, softBlockCount goes up by one, and the
  -- scheduler chooses; otherwise the process goes on, and neither processCount nor softBlockCount
  -- changes.
  pub sys_wait_io-Waits :
      (line device : ℕ) (reading : Bool)
      → (3 ≤ line) × (line ≤ 7) × (device < 8)
      → st.reg a1 ≡ line
      → st.reg a2 ≡ device
      → st.reg a3 ≡ (if reading then 1 else 0)
      → IsAddress (io_semaphore s line device reading)
      → s.process_count < 2 ^ 31
      → add32 s.soft_block_count 1 < 2 ^ 31
      → Waits
          (is_neg (sub32 (j.count (io_semaphore s line device reading)) 1))
          s
          st
          j
          (io_semaphore s line device reading)
          (add32 s.soft_block_count 1)
          (sys_wait_io st s)
  unfolding sys_wait_io decrement
  sys_wait_io-Waits line device reading b r1 r2 r3 ka small small' =
      let k = io_semaphore s line device reading in
      let at = io_address s line device reading b ka in
      let n1 = counted-IsNucleus k (λ w. sub32 w 1) n in
      rw (r1, r2, r3, at)
        (elim (Bool-cases (is_neg (sub32 (j.count k) 1))) [
          | inl e ↦
              rw (e, counts-neg k true e)
                (save_and_block n1 al v k ka st (λ c. add32 c 1) small small')
          | inr e ↦ rw (e, counts-neg k false e) (returns (n1, (λ x. refl), refl, refl, refl))
        ])

  -- SYS7 puts the running process, with the state of the call saved, behind the others that wait for
  -- the clock if its count becomes negative, and the scheduler chooses; otherwise the process is
  -- lost: the scheduler chooses too, and the process neither runs nor is ready or blocked.
  pub sys_wait_for_clock-ClockWaits :
      (k : ℕ)
      → k ≡ sem_address s (total_sem - 1)
      → IsAddress k
      → s.process_count < 2 ^ 31
      → s.soft_block_count < 2 ^ 31
      → add32 s.soft_block_count 1 < 2 ^ 31
      → ClockWaits (is_neg (sub32 (j.count k) 1)) s st j k (sys_wait_for_clock st s)
  unfolding sys_wait_for_clock decrement
  sys_wait_for_clock-ClockWaits k at ka small same_small small' =
      let n1 = counted-IsNucleus k (λ w. sub32 w 1) n in
      elim (Bool-cases (is_neg (sub32 (j.count k) 1))) [
        | inl e ↦
            rw (← at, counts-neg k true e, e)
              (block_and_save n1 al v k ka st (λ c. add32 c 1) small small')
        | inr e ↦
            rw (← at, counts-neg k false e, e)
              (Leaves-mono (scheduler-Scheduled n1 (inr (rw n.runs v)) (small, same_small))
                λ e g d. (d.nucleus, next_up-Lost (counted k j) v al))
      ]
