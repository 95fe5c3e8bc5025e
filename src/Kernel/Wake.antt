-- ===== src/Kernel/Wake.antt =====
-- A blocked process that is made ready: what the nucleus stands for afterwards.
use kaya_os.Base.{
  ℕ, ◌≡◌, refl, sym, List, [], ◌∷◌, ◌++◌, arith, ◌==◌, ◌∈◌, ◌∉◌, has, has-append, Bool-cases, inl,
  inr, Returns, Returns-bind, returns, modify,
}
use mathlib.Core.Path.{subst}
use kaya_os.Pcb.{Pcbs, insert_proc_q}
use kaya_os.Pcb.Access.{IsPcb}
use kaya_os.Pcb.Aim.{Kept, Moved, Moved-Kept}
use kaya_os.Pcb.Queue.{IsProcQ, Inserted, insert_proc_q-append}
use kaya_os.Pcb.Frame.{IsProcQ-frame}
use kaya_os.Asl.{Asl}
use kaya_os.Asl.Queues.{set_queue}
use kaya_os.Asl.Blocking.{IsBlocking, Unblocked}
use kaya_os.Asl.Apart.{blocked-IsPcb, Unblocked-first, Unblocked-set}
use kaya_os.Asl.Frame.{IsBlocking-frame}
use kaya_os.Kernel.{Kernel, make_ready}
use kaya_os.Kernel.Access.{with_pcbs, on_pcb-Returns}
use kaya_os.Kernel.Nucleus.{Jobs, IsNucleus, IsAlone}

-- insertProcQ(&readyQueue, p)
pub make_ready-Inserted :
    {s : Kernel} {rs : List ℕ} (p : ℕ)
    → IsProcQ s.asl.pcbs s.ready rs
    → IsPcb p
    → p ∉ rs
    → Returns
        (λ _ g.
          (t : ℕ) × (h : Pcbs) × (g ≡ record (with_pcbs s h) { ready = t })
          × Inserted s.asl.pcbs p rs t h)
        (make_ready p s)
make_ready-Inserted {s} p q v o =
    Returns-bind {k = λ t. modify (λ s. record s { ready = t })}
      (on_pcb-Returns (insert_proc_q s.ready p) s (insert_proc_q-append p q v o))
      λ t g (h, e, ins). rw e (returns (t, h, refl, ins))

-- The process `p`, the first of the queue of `k`, is ready behind the others; `ps` stay blocked.
abbrev pub wake_up : ℕ → ℕ → List ℕ → Jobs → Jobs
wake_up k p ps j = record j { queues = set_queue j.queues k ps; ready = j.ready ++ p ∷ [] }

module _ {s : Kernel} {j : Jobs} (n : IsNucleus s j) (k p : ℕ) (ps : List ℕ)
    (q : j.queues k ≡ p ∷ ps) where
  pub p-IsPcb : IsPcb p
  p-IsPcb = blocked-IsPcb n.blocking k p (rw q (ground arith))

  -- It is not ready, and no ready process is on the queue.
  pub p-out : p ∉ j.ready
  p-out = elim (Bool-cases (has p j.ready)) [
    | inl y ↦ absurd (ground (arith, n.apart p y k, q))
    | inr o ↦ o
  ]

  -- The ready queue after the process has left the queue of the semaphore.
  pub ready-frame : (h : Pcbs) → Moved (j.queues k) s.asl.pcbs h → IsProcQ h s.ready j.ready
  ready-frame h mv =
      IsProcQ-frame h s.asl.pcbs s.ready j.ready (λ r i. (Moved-Kept mv r (n.apart r i k)).0)
        n.queue

  pub wake_up-IsNucleus :
      (a : Asl) (g : Kernel)
      → IsBlocking a (set_queue j.queues k ps)
      → g.word ≡ j.count
      → g.current ≡ j.current
      → g.asl ≡ record a { pcbs = g.asl.pcbs }
      → ((r : ℕ) → r ∉ (p ∷ j.ready) → Kept g.asl.pcbs a.pcbs r)
      → IsProcQ g.asl.pcbs g.ready (j.ready ++ p ∷ [])
      → IsNucleus g (wake_up k p ps j)
  wake_up-IsNucleus a g b w c d kept r =
      let first = Unblocked-first n.blocking k p ps q in
      let others : (x : ℕ) → x ∈ j.ready → Unblocked (set_queue j.queues k ps) x =
        λ x i. Unblocked-set j.queues x k ps (n.apart x i) (ground (arith, n.apart x i k, q)) in
      let moved : (x : ℕ) → x ∈ (p ∷ j.ready) → Unblocked (set_queue j.queues k ps) x = λ x i.
        elim (Bool-cases (x == p)) [
          | inl y ↦ let same : x ≡ p = ground arith in rw same first
          | inr z ↦ others x (ground arith)
        ] in
      record {
        counts = w;
        blocking =
            subst (λ z. IsBlocking z (set_queue j.queues k ps)) (sym d)
              (IsBlocking-frame (p ∷ j.ready) g.asl.pcbs b moved kept);
        queue = r;
        apart = λ x i. moved x (ground (arith, has-append x j.ready (p ∷ [])));
        runs = c;
      }

-- The running process stays alone.
pub wake_up-IsAlone :
    (k p : ℕ) (ps : List ℕ) (j : Jobs)
    → j.queues k ≡ p ∷ ps
    → IsAlone j
    → IsAlone (wake_up k p ps j)
wake_up-IsAlone k p ps j q (o, u) = (
  ground (arith, u k, q, has-append j.current j.ready (p ∷ [])),
  Unblocked-set j.queues j.current k ps u (ground (arith, u k, q)),
)
