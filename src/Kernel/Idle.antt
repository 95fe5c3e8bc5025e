-- ===== src/Kernel/Idle.antt =====
-- scheduler of phase2/scheduler.c when no job is ready.
use kaya_os.Base.{
  ℕ, zero, suc, ◌<◌, ◌^◌, ◌≡◌, refl, true, false, [], arith, ◌==◌, Exit, halt, panic, wait, Leaves,
  leaves, Returns-Leaves, Leaves-mono, ap, ◌∙◌,
}
use Prim.Native.Nat.{bit_or}
use kaya_os.Base.Word.{is_pos}
use kaya_os.Pcb.{null}
use kaya_os.Pcb.Queue.{IsProcQ}
use kaya_os.Pcb.Frame.{IsProcQ-frame}
use kaya_os.Pcb.Out.{remove_proc_q-nil}
use kaya_os.Pcb.Aim.{Kept}
use kaya_os.Kernel.{Kernel}
use kaya_os.Kernel.Scheduler.{interrupts_on, idle, scheduler}
use kaya_os.Kernel.Dispatch.{IsCurrent, Same, Billed, bill_current-Billed, choose}

-- How the machine goes on with no job ready, by the processes and those that wait for a device.
abbrev pub rest_of : (processes waiting : ℕ) → Exit
rest_of zero w = halt
rest_of (suc n) zero = panic
rest_of (suc n) (suc w) = wait

-- What the scheduler promises with no job ready.
pub record Idled (s : Kernel) (e : Exit) (g : Kernel) : Type 0 where
  pub outcome : e ≡ rest_of s.process_count s.soft_block_count
  pub nobody : g.current ≡ null
  pub enabled : e ≡ wait → g.status ≡ bit_or s.status interrupts_on
  pub ready : g.ready ≡ s.ready
  pub counts : (g.process_count ≡ s.process_count) × (g.soft_block_count ≡ s.soft_block_count)
  pub same : Same s g
  pub kept : (q : ℕ) → Kept g.asl.pcbs s.asl.pcbs q
  pub states : (q : ℕ) → (g.asl.pcbs.cell q).state ≡ (s.asl.pcbs.cell q).state

idle-run :
    (b : Kernel) (n w : ℕ)
    → b.process_count ≡ n
    → b.soft_block_count ≡ w
    → n < 2 ^ 31
    → w < 2 ^ 31
    → Leaves
        (λ e g.
          (e ≡ rest_of n w)
          × (g.current ≡ null)
          × (e ≡ wait → g.status ≡ bit_or b.status interrupts_on)
          × (g.asl ≡ b.asl)
          × (g.word ≡ b.word)
          × (g.ready ≡ b.ready)
          × (g.process_count ≡ b.process_count)
          × (g.soft_block_count ≡ b.soft_block_count))
        (idle b)
unfolding idle
idle-run b zero w en ew ln lw =
    let n0 : (b.process_count == 0) ≡ true = ground (arith, en) in
    rw n0 (leaves (refl, refl, (λ z. absurd (ground (arith, z))), refl, refl, refl, refl, refl))
idle-run b (suc n) zero en ew ln lw =
    let n0 : (b.process_count == 0) ≡ false = ground (arith, en) in
    let np : is_pos b.process_count ≡ true = ground (arith, en) in
    let w0 : (b.soft_block_count == 0) ≡ true = ground (arith, ew) in
    rw (n0, np, w0)
      (leaves (refl, refl, (λ z. absurd (ground (arith, z))), refl, refl, refl, refl, refl))
idle-run b (suc n) (suc w) en ew ln lw =
    let n0 : (b.process_count == 0) ≡ false = ground (arith, en) in
    let np : is_pos b.process_count ≡ true = ground (arith, en) in
    let w0 : (b.soft_block_count == 0) ≡ false = ground (arith, ew) in
    let wp : is_pos b.soft_block_count ≡ true = ground (arith, ew) in
    rw (n0, np, w0, wp) (leaves (refl, refl, (λ z. refl), refl, refl, refl, refl, refl))

choose-Idled :
    (s b : Kernel)
    → Billed s b
    → IsProcQ b.asl.pcbs b.ready []
    → s.process_count < 2 ^ 31
    → s.soft_block_count < 2 ^ 31
    → Leaves (Idled s) (choose b)
choose-Idled s b bd q ln lw = rw (remove_proc_q-nil q) (
    Leaves-mono
      (idle-run (record b { ready = b.ready }) s.process_count s.soft_block_count bd.counts.0
        bd.counts.1 ln lw)
      λ e g (o, c, w, a, m, r, pc, sc). record {
        outcome = o;
        nobody = c;
        enabled = λ z. w z ∙ ap (λ x. bit_or x interrupts_on) bd.status;
        ready = r ∙ bd.ready;
        counts = (pc ∙ bd.counts.0, sc ∙ bd.counts.1);
        same = record {
          descriptors = rw a bd.same.descriptors;
          words = m ∙ bd.same.words;
          frees = rw a bd.same.frees;
        };
        kept = λ q. rw a (bd.links q, bd.aims q);
        states = λ q. rw a (bd.states q);
      })

-- With no job ready the scheduler halts the machine when no process is left, panics when processes
-- are left but none waits for a device, and otherwise waits, with interrupts enabled.
pub scheduler-Idled :
    (s : Kernel)
    → IsCurrent s
    → IsProcQ s.asl.pcbs s.ready []
    → s.process_count < 2 ^ 31
    → s.soft_block_count < 2 ^ 31
    → Leaves (Idled s) (scheduler s)
unfolding scheduler
scheduler-Idled s c q ln lw = Returns-Leaves {k = λ _. choose} (bill_current-Billed s c) λ _ b bd.
    choose-Idled s b bd
      (rw bd.ready (IsProcQ-frame b.asl.pcbs s.asl.pcbs s.ready [] (λ q _. bd.links q) q)) ln lw
