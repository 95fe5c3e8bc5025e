-- ===== src/Kernel/Preempt.antt =====
-- finish of phase2/interrupts.c, and the whole of a device interrupt.
use kaya_os.Base.{
  ℕ, suc, ◌≡◌, refl, sym, true, [], ◌∷◌, ◌++◌, arith, ◌==◌, ◌∈◌, has-append, Bool-cases, inl, inr,
  Returns, Returns-mono, Leaves, Returns-Leaves,
}
use mathlib.Core.Path.{subst}
use kaya_os.Base.Word.{add32, sub32}
use kaya_os.Pcb.{null}
use kaya_os.Pcb.Access.{IsPcb, IsPcb-ne_null}
use kaya_os.Pcb.Aim.{Moved-state, Relinked-Moved}
use kaya_os.Asl.Blocking.{Unblocked}
use kaya_os.Asl.Frame.{IsBlocking-Moved}
use kaya_os.Kernel.{Kernel, make_ready}
use kaya_os.Kernel.Scheduler.{scheduler}
use kaya_os.Kernel.Interrupts.{finish, interrupt_old_area}
use kaya_os.Kernel.Nucleus.{
  Jobs, IsNucleus, same-IsNucleus, IsAlone, IsSmall, Scheduled, scheduler-Scheduled,
}
use kaya_os.Kernel.Wake.{make_ready-Inserted}
use kaya_os.Kernel.Saved.{save_state-ok, saved-IsNucleus, Switched, switch}
use kaya_os.Kernel.Signal.{SameStates}

-- The running process goes behind the ready ones.
abbrev pub preempted : Jobs → Jobs
preempted j = record j { ready = j.ready ++ j.current ∷ [] }

module _ {s : Kernel} {j : Jobs} (n : IsNucleus s j) (al : IsAlone j) (v : IsPcb j.current) where
  behind_ready :
      Returns
        (λ _ g.
          IsNucleus g (preempted j)
          × SameStates s g
          × (g.current ≡ s.current)
          × (g.process_count ≡ s.process_count)
          × (g.soft_block_count ≡ s.soft_block_count))
        (make_ready j.current s)
  behind_ready =
      Returns-mono (make_ready-Inserted {s = s} j.current n.queue v al.0) λ u g (t, h, e, ins).
        let unblocked : (q : ℕ) → q ∈ (j.current ∷ j.ready) → Unblocked j.queues q = λ q i.
          elim (Bool-cases (q == j.current)) [
            | inl y ↦ let same : q ≡ j.current = ground arith in rw same al.1
            | inr o ↦ n.apart q (ground arith)
          ] in
        let mv = Relinked-Moved ins.relinked in
        rw e (
          record {
            counts = n.counts;
            blocking = IsBlocking-Moved (j.current ∷ j.ready) h n.blocking unblocked mv;
            queue = ins.queue;
            apart = λ q i. unblocked q (ground (arith, has-append q j.ready (j.current ∷ [])));
            runs = n.runs;
          },
          (λ x. Moved-state mv x),
          refl,
          refl,
          refl,
        )

  -- insertProcQ(&readyQueue, currentProcess)
  pub ready_current :
      Returns
        (λ _ g.
          IsNucleus g (preempted j)
          × SameStates s g
          × (g.current ≡ s.current)
          × (g.process_count ≡ s.process_count)
          × (g.soft_block_count ≡ s.soft_block_count))
        (make_ready s.current s)
  ready_current =
      subst
        (λ (c : ℕ).
          Returns
            (λ _ g.
              IsNucleus g (preempted j)
              × SameStates s g
              × (g.current ≡ s.current)
              × (g.process_count ≡ s.process_count)
              × (g.soft_block_count ≡ s.soft_block_count))
            (make_ready c s))
        (sym n.runs) behind_ready

-- At the end of an interrupt the running process goes behind the ready ones, with the state in
-- the old area of the interrupt saved, and the scheduler chooses;
pub finish-Switched :
    {s : Kernel} {j : Jobs}
    → IsNucleus s j
    → IsAlone j
    → IsPcb j.current
    → IsSmall s
    → Leaves
        (Switched s.asl.pcbs s.current
          (s.area interrupt_old_area)
          (preempted j)
          s.process_count
          s.soft_block_count)
        (finish s)
unfolding finish
finish-Switched {s} {j} n al v small =
    let w : IsPcb s.current = rw n.runs v in
    let old = s.area interrupt_old_area in
    let t = record s {
      readings = suc s.readings;
      tod_started = add32 s.tod_started (sub32 (s.tod s.readings) s.tod_stopped);
    } in
    let n' = same-IsNucleus t refl refl refl refl n in
    rw (IsPcb-ne_null s.current w, save_state-ok old s.current t w)
      (Returns-Leaves {k = λ _. scheduler} (ready_current (saved-IsNucleus old s.current n') al v)
        λ r g (b, same, c, pc, sc).
          switch s.asl.pcbs s.current old b w c (rw pc small.0, rw sc small.1) (pc, sc) same)

-- and with no process running only the scheduler does.
pub finish-Scheduled :
    {s : Kernel} {j : Jobs}
    → IsNucleus s j
    → j.current ≡ null
    → IsSmall s
    → Leaves (Scheduled s j) (finish s)
unfolding finish
finish-Scheduled {s} n e small =
    let none : (s.current == null) ≡ true = ground (arith, n.runs) in
    rw none (scheduler-Scheduled n (inl none) small)
