-- ===== src/Kernel/Nucleus.antt =====
-- What the state of the nucleus stands for: the integers of memory, the queue of each semaphore,
-- the ready queue and the running process; and the scheduler against it.
use kaya_os.Base.{
  ℕ, ◌<◌, ◌^◌, ◌≡◌, refl, sym, ap, ◌∙◌, List, [], ◌∷◌, ◌++◌, arith, ◌∈◌, ◌∉◌, IsDistinct,
  IsDistinct-append, Exit, load_state, Leaves, Leaves-mono,
}
use mathlib.Core.Path.{subst}
use kaya_os.Pcb.{null, Pcbs}
use kaya_os.Pcb.Queue.{IsProcQ, empty, filled}
use kaya_os.Pcb.Frame.{IsProcQ-frame}
use kaya_os.Asl.{Asl}
use kaya_os.Asl.Blocking.{IsBlocking, Unblocked, Unblocked-null}
use kaya_os.Asl.Frame.{IsBlocking-frame}
use kaya_os.Kernel.{Kernel}
use kaya_os.Kernel.Scheduler.{scheduler}
use kaya_os.Kernel.Dispatch.{IsCurrent, Dispatched, scheduler-Dispatched}
use kaya_os.Kernel.Idle.{rest_of, Idled, scheduler-Idled}

pub record Jobs : Type 0 where
  pub count : ℕ → ℕ
  pub queues : ℕ → List ℕ
  pub ready : List ℕ
  pub current : ℕ

-- The state `s` stands for `j`: the queues are well-formed, and no ready process is blocked.
pub record IsNucleus (s : Kernel) (j : Jobs) : Type 0 where
  pub counts : s.word ≡ j.count
  pub blocking : IsBlocking s.asl j.queues
  pub queue : IsProcQ s.asl.pcbs s.ready j.ready
  pub apart : (q : ℕ) → q ∈ j.ready → Unblocked j.queues q
  pub runs : s.current ≡ j.current

-- What the state stands for depends on four parts of it,
pub same-IsNucleus :
    {s : Kernel} {j : Jobs} (g : Kernel)
    → g.word ≡ s.word
    → g.asl ≡ s.asl
    → g.ready ≡ s.ready
    → g.current ≡ s.current
    → IsNucleus s j
    → IsNucleus g j
same-IsNucleus {s} {j} g w a r c n = record {
  counts = w ∙ n.counts;
  blocking = subst (λ (x : Asl). IsBlocking x j.queues) (sym a) n.blocking;
  queue =
      subst (λ (t : ℕ). IsProcQ g.asl.pcbs t j.ready) (sym r)
        (subst (λ (x : Asl). IsProcQ x.pcbs s.ready j.ready) (sym a) n.queue);
  apart = n.apart;
  runs = c ∙ n.runs;
}

-- and not on the count of processes that wait for a device.
pub recount-IsNucleus :
    {s : Kernel} {j : Jobs} (c : ℕ)
    → IsNucleus s j
    → IsNucleus (record s { soft_block_count = c }) j
recount-IsNucleus {s} c n = same-IsNucleus (record s { soft_block_count = c }) refl refl refl refl n

-- The running process, if there is one, is neither ready nor blocked.
abbrev pub IsAlone : Jobs → Type 0
IsAlone j = (j.current ∉ j.ready) × Unblocked j.queues j.current

-- The first ready process runs next.
abbrev pub next_up : Jobs → Jobs
next_up j = elim j.ready [
  | [] ↦ record j { current = null }
  | p ∷ ps ↦ record j { current = p; ready = ps }
]

-- How the nucleus is left.
abbrev pub leaving : Kernel → List ℕ → Exit
leaving s [] = rest_of s.process_count s.soft_block_count
leaving s (p ∷ ps) = load_state (s.asl.pcbs.cell p).state

-- The counts of processes are far from the limit of an `int`.
abbrev pub IsSmall : Kernel → Type 0
IsSmall s = (s.process_count < 2 ^ 31) × (s.soft_block_count < 2 ^ 31)

-- The scheduler has chosen among the processes of `j`.
pub record Scheduled (s : Kernel) (j : Jobs) (e : Exit) (g : Kernel) : Type 0 where
  pub outcome : e ≡ leaving g j.ready
  pub nucleus : IsNucleus g (next_up j)
  pub alone : IsAlone (next_up j)
  pub states : (q : ℕ) → (g.asl.pcbs.cell q).state ≡ (s.asl.pcbs.cell q).state
  pub totals : (g.process_count ≡ s.process_count) × (g.soft_block_count ≡ s.soft_block_count)
  pub frees : g.asl.pcbs.free ≡ s.asl.pcbs.free

-- The first of a queue is on it once.
head_out : {h : Pcbs} {t p : ℕ} {ps : List ℕ} → IsProcQ h t (p ∷ ps) → p ∉ ps
head_out (empty e n) = absurd (ground (arith, n))
head_out {t = t} {p = p} {ps = ps} (filled front e r) =
    let d : IsDistinct (front ++ t ∷ []) =
      IsDistinct-append front (t ∷ []) r.distinct.1 (refl, tt)
        (λ a i. ground (arith, r.distinct.0)) in
    (rw (← e) at d).0

module _ {s : Kernel} {j : Jobs} (n : IsNucleus s j) where
  dispatched :
      (p : ℕ) (ps : List ℕ) (e : Exit) (g : Kernel)
      → j.ready ≡ p ∷ ps
      → Dispatched s p ps e g
      → Scheduled s j e g
  dispatched p ps e g r d =
      let unblocked : (q : ℕ) → q ∈ (p ∷ ps) → Unblocked j.queues q = λ q i. n.apart q (rw r i) in
      let same = IsBlocking-frame (p ∷ ps) g.asl.pcbs n.blocking unblocked d.kept in
      record {
        outcome = rw r (d.loaded ∙ ap load_state (sym (d.states p)));
        nucleus = rw r (record {
          counts = d.same.words ∙ n.counts;
          blocking = subst (λ a. IsBlocking a j.queues) (sym d.same.descriptors) same;
          queue = d.ready;
          apart = λ q i. unblocked q (ground arith);
          runs = d.running;
        });
        alone = rw r (head_out (rw r at n.queue), unblocked p (ground arith));
        states = d.states;
        totals = d.counts;
        frees = d.same.frees;
      }

  idled : (e : Exit) (g : Kernel) → j.ready ≡ [] → Idled s e g → Scheduled s j e g
  idled e g r d =
      let same =
        IsBlocking-frame [] g.asl.pcbs n.blocking (λ q i. absurd (ground (arith, i)))
          (λ q _. d.kept q) in
      record {
        outcome = rw (r, d.counts.0, d.counts.1) d.outcome;
        nucleus = rw r (record {
          counts = d.same.words ∙ n.counts;
          blocking = subst (λ a. IsBlocking a j.queues) (sym d.same.descriptors) same;
          queue = rw d.ready (
              IsProcQ-frame g.asl.pcbs s.asl.pcbs s.ready [] (λ q _. (d.kept q).0)
                (rw r at n.queue));
          apart = λ q i. n.apart q (rw r i);
          runs = d.nobody;
        });
        alone = rw r (refl, Unblocked-null n.blocking);
        states = d.states;
        totals = d.counts;
        frees = d.same.frees;
      }

  -- With the counts of processes below 2^31, the scheduler gives the processor to the first ready
  -- process, with its saved state, or halts, panics or waits as the counts say when there is none.
  -- The other ready processes and all that are blocked stay so in their order, the one that runs is
  -- neither ready nor blocked, and no saved state, no semaphore and not the head of the free list
  -- changes.
  pub scheduler-Scheduled : IsCurrent s → IsSmall s → Leaves (Scheduled s j) (scheduler s)
  scheduler-Scheduled c small = by_ready j.ready refl
    where
      by_ready : (rs : List ℕ) → j.ready ≡ rs → Leaves (Scheduled s j) (scheduler s)
      by_ready [] r =
          Leaves-mono (scheduler-Idled s c (rw r at n.queue) small.0 small.1) λ e g d. idled e g r d
      by_ready (p ∷ ps) r =
          Leaves-mono (scheduler-Dispatched s p ps c (rw r at n.queue))
            λ e g d. dispatched p ps e g r d
