-- ===== src/Kernel/Saved.antt =====
-- copyState into the block of a process, and the leave through the scheduler that follows: what
-- the nucleus stands for.
use kaya_os.Base.{
  ℕ, ◌≡◌, refl, sym, ap, ◌∙◌, false, [], arith, ◌==◌, ProcState, Exit, ok, Leaves, Leaves-mono, inl,
  inr, Bool-cases,
}
use mathlib.Core.Path.{subst}
use kaya_os.Pcb.{Pcb, Pcbs, put}
use kaya_os.Pcb.Access.{IsPcb, with, update-ok}
use kaya_os.Pcb.Aim.{Kept}
use kaya_os.Pcb.Frame.{IsProcQ-frame}
use kaya_os.Asl.Frame.{IsBlocking-frame}
use kaya_os.Kernel.{Kernel, copy_state, save_state}
use kaya_os.Kernel.Access.{with_pcbs}
use kaya_os.Kernel.Scheduler.{scheduler}
use kaya_os.Kernel.Nucleus.{
  Jobs, IsNucleus, IsAlone, IsSmall, leaving, next_up, scheduler-Scheduled,
}

abbrev pub saved_pcbs : ProcState → Pcbs → ℕ → Pcbs
saved_pcbs st h p = with h p (λ c. record c { state = copy_state st c.state })

abbrev pub saved : ProcState → Kernel → ℕ → Kernel
saved st s p = with_pcbs s (saved_pcbs st s.asl.pcbs p)

pub save_state-ok :
    (st : ProcState) (p : ℕ) (s : Kernel) → IsPcb p → save_state st p s ≡ ok tt (saved st s p)
unfolding save_state
save_state-ok st p s v = rw (update-ok p _ s.asl.pcbs v) refl

pub saved-hit :
    (st : ProcState) (h : Pcbs) (p : ℕ)
    → ((saved_pcbs st h p).cell p).state ≡ copy_state st (h.cell p).state
unfolding put
saved-hit st h p = ground arith

pub saved-miss :
    (st : ProcState) (h : Pcbs) (p q : ℕ) → (q == p) ≡ false → (saved_pcbs st h p).cell q ≡ h.cell q
unfolding put
saved-miss st h p q ne = ground arith

-- The states after the save depend on those before it alone.
pub saved-same :
    (st : ProcState) (g h : Pcbs) (p : ℕ)
    → ((q : ℕ) → (g.cell q).state ≡ (h.cell q).state)
    → (q : ℕ) → ((saved_pcbs st g p).cell q).state ≡ ((saved_pcbs st h p).cell q).state
saved-same st g h p same q = elim (Bool-cases (q == p)) [
  | inl y ↦
      let e : q ≡ p = ground arith in
      rw e (saved-hit st g p ∙ (ap (copy_state st) (same p) ∙ sym (saved-hit st h p)))
  | inr n ↦ rw (saved-miss st g p q n, saved-miss st h p q n) (same q)
]

saved-Kept : (st : ProcState) (h : Pcbs) (p q : ℕ) → Kept (saved_pcbs st h p) h q
unfolding put
saved-Kept st h p q = ground arith

pub saved-IsNucleus :
    {s : Kernel} {j : Jobs} (st : ProcState) (p : ℕ) → IsNucleus s j → IsNucleus (saved st s p) j
saved-IsNucleus {s} {j} st p n = record {
  counts = n.counts;
  blocking =
      IsBlocking-frame [] (saved_pcbs st s.asl.pcbs p) n.blocking
        (λ q i. absurd (ground (arith, i))) (λ q _. saved-Kept st s.asl.pcbs p q);
  queue =
      IsProcQ-frame (saved_pcbs st s.asl.pcbs p) s.asl.pcbs s.ready j.ready
        (λ q _. (saved-Kept st s.asl.pcbs p q).0) n.queue;
  apart = n.apart;
  runs = n.runs;
}

-- The process `c` of the blocks `h` has given up the processor: its state `st` is saved, the jobs are
-- `j` then, with `total` processes of which `soft` wait for a device, and the scheduler has chosen
-- among them.
pub record Switched (h : Pcbs) (c : ℕ) (st : ProcState) (j : Jobs) (total soft : ℕ) (e : Exit)
    (g : Kernel) : Type 0 where
  pub outcome : e ≡ leaving g j.ready
  pub nucleus : IsNucleus g (next_up j)
  pub alone : IsAlone (next_up j)
  pub own : (g.asl.pcbs.cell c).state ≡ copy_state st (h.cell c).state
  pub others : (q : ℕ) → (q == c) ≡ false → (g.asl.pcbs.cell q).state ≡ (h.cell q).state
  pub totals : (g.process_count ≡ total) × (g.soft_block_count ≡ soft)

-- What is promised from a later state `b` is promised from `h`.
pub Switched-before :
    {j : Jobs} {e : Exit} {g : Kernel} {total soft : ℕ} (b : Kernel) (h : Pcbs) (c : ℕ)
    (st : ProcState)
    → b.current ≡ c
    → ((q : ℕ) → (b.asl.pcbs.cell q).state ≡ (h.cell q).state)
    → (b.process_count ≡ total) × (b.soft_block_count ≡ soft)
    → Switched b.asl.pcbs b.current st j b.process_count b.soft_block_count e g
    → Switched h c st j total soft e g
Switched-before {j} {e} {g} b h c st r same pc w =
    let w' =
      subst (λ (x : ℕ). Switched b.asl.pcbs x st j b.process_count b.soft_block_count e g) r w in
    record {
      outcome = w'.outcome;
      nucleus = w'.nucleus;
      alone = w'.alone;
      own = w'.own ∙ ap (copy_state st) (same c);
      others = λ q ne. w'.others q ne ∙ same q;
      totals = (w'.totals.0 ∙ pc.0, w'.totals.1 ∙ pc.1);
    }

-- From a state `b`, in which the state of the caller is saved, through the scheduler.
pub switch :
    {b : Kernel} {j : Jobs} {total soft : ℕ} (h : Pcbs) (c : ℕ) (st : ProcState)
    → IsNucleus b j
    → IsPcb c
    → b.current ≡ c
    → IsSmall b
    → (b.process_count ≡ total) × (b.soft_block_count ≡ soft)
    → ((q : ℕ) → (b.asl.pcbs.cell q).state ≡ ((saved_pcbs st h c).cell q).state)
    → Leaves (Switched h c st j total soft) (scheduler b)
switch h c st n v r small pc same =
    Leaves-mono (scheduler-Scheduled n (inr (rw r v)) small) λ e g d. record {
      outcome = d.outcome;
      nucleus = d.nucleus;
      alone = d.alone;
      own = d.states c ∙ (same c ∙ saved-hit st h c);
      others = λ q ne. d.states q ∙ (same q ∙ ap Pcb.state (saved-miss st h c q ne));
      totals = (d.totals.0 ∙ pc.0, d.totals.1 ∙ pc.1);
    }
