-- ===== src/Kernel/Signal.antt =====
-- The V operations of the nucleus: SYS3 of phase2/exceptions.c and the one of a device in
-- phase2/interrupts.c.
use kaya_os.Base.{
  ℕ, ◌≡◌, refl, sym, ap, ◌∙◌, true, false, List, [], ◌∷◌, arith, ◌==◌, Bool-cases, inl, inr,
  if◌then◌else◌, pure, Cmd, ◌>>◌, ◌>>=◌, ProcState, Returns, Returns-mono, Returns-bind, returns,
}
use kaya_os.Base.Word.{add32, le_zero}
use mathlib.Core.Path.{subst}
use kaya_os.Pcb
use kaya_os.Pcb.{null, Pcbs, Pcb}
use kaya_os.Pcb.Access.{IsPcb-ne_null, update-ok}
use kaya_os.Pcb.Aim.{
  Kept, aimed, aimed-Kept, aimed-Moved, Kept-trans, Moved, Moved-trans, Moved-state, Relinked-Moved,
  Relinked-Kept,
}
use kaya_os.Asl.{Asl, remove_blocked}
use kaya_os.Asl.Blocking.{IsAddress}
use kaya_os.Asl.Waking.{Freed, remove_blocked-Freed, remove_blocked-none}
use kaya_os.Kernel.{Kernel, update, on_pcb, on_asl, make_ready}
use kaya_os.Kernel.Access.{on_asl-Returns}
use kaya_os.Kernel.Nucleus.{Jobs, IsNucleus, IsAlone}
use kaya_os.Kernel.Wake.{
  make_ready-Inserted, wake_up, p-IsPcb, p-out, ready-frame, wake_up-IsNucleus, wake_up-IsAlone,
}
use kaya_os.Kernel.Syscalls.{a1, increment, sys_signal}

-- The first process blocked on the semaphore `k` becomes ready, if there is one.
abbrev pub wake_first : ℕ → List ℕ → Jobs → Jobs
wake_first k [] j = j
wake_first k (p ∷ ps) j = wake_up k p ps j

-- What a V operation on the semaphore `k` means: the count goes up, and if it was negative the
-- process that has waited longest becomes ready.
abbrev pub signal : ℕ → Jobs → Jobs
signal k j =
    let v = add32 (j.count k) 1 in
    let counted = record j { count = update j.count k v } in
    if le_zero v then wake_first k (j.queues k) counted else counted

-- The saved states of all processes are what they were.
abbrev pub SameStates : Kernel → Kernel → Type 0
SameStates s g = (q : ℕ) → (g.asl.pcbs.cell q).state ≡ (s.asl.pcbs.cell q).state

-- After a V operation the state stands for `j`, `soft` processes wait for a device, and no saved
-- state, no processor state in memory and no number of processes has changed.
abbrev pub Signalled : Kernel → Jobs → ℕ → Kernel → Type 0
Signalled s j soft g =
    IsNucleus g j
    × SameStates s g
    × (g.soft_block_count ≡ soft)
    × (g.area ≡ s.area)
    × (g.process_count ≡ s.process_count)

-- the increment
pub counted-IsNucleus :
    {s : Kernel} {j : Jobs} (k : ℕ) (f : ℕ → ℕ)
    → IsNucleus s j
    → IsNucleus
        (record s { word = update s.word k (f (s.word k)) })
        (record j { count = update j.count k (f (j.count k)) })
counted-IsNucleus k f n = record {
  counts = ap (λ (w : ℕ → ℕ). update w k (f (w k))) n.counts;
  blocking = n.blocking;
  queue = n.queue;
  apart = n.apart;
  runs = n.runs;
}

-- the process `p`, off its queue, becomes ready
abbrev ready_end : ℕ → Cmd Kernel (Unit {0})
ready_end p = on_pcb (Pcb.update p (λ c. record c { sem_add = null })) >> make_ready p

-- The process `p`, the first of the queue of `k`, has left it, in the list `a`; since then only its
-- own block has changed, in the blocks `h1`.
module _ {s : Kernel} {j : Jobs} (n : IsNucleus s j) (k p : ℕ) (ps : List ℕ) (a : Asl)
    (q : j.queues k ≡ p ∷ ps) (fr : Freed j.queues k p ps s.asl p a) where
  pub joins :
      (h1 : Pcbs)
      → Moved (j.queues k) a.pcbs h1
      → ((x : ℕ) → (x == p) ≡ false → Kept h1 a.pcbs x)
      → Returns
          (λ _. Signalled s (wake_up k p ps j) s.soft_block_count)
          (make_ready p (record s { asl = record a { pcbs = h1 } }))
  joins h1 mv1 others =
      let mv = Moved-trans fr.2 mv1 in
      Returns-mono
        (make_ready-Inserted {s = record s { asl = record a { pcbs = h1 } }} p
          (ready-frame n k p ps q h1 mv) (p-IsPcb n k p ps q) (p-out n k p ps q))
        λ u g (t, h, e, ins). rw e (
          wake_up-IsNucleus n k p ps q a _ fr.1 n.counts n.runs refl
              (λ x o.
                Kept-trans h h1 a.pcbs x (Relinked-Kept ins.relinked x o) (others x (ground arith)))
              ins.queue,
          (λ x. Moved-state (Relinked-Moved ins.relinked) x ∙ Moved-state mv x),
          refl,
          refl,
          refl,
        )

  -- pcb_semAdd of the process is cleared before.
  pub joins_cleared :
      Returns
        (λ _. Signalled s (wake_up k p ps j) s.soft_block_count)
        (make_ready p (record s { asl = record a { pcbs = aimed a.pcbs p null } }))
  joins_cleared =
      joins (aimed a.pcbs p null) (aimed-Moved a.pcbs p null (rw q (ground arith)))
        (λ x ne. aimed-Kept a.pcbs p null x ne)

  pub ready_end-lem :
      Returns
        (λ _. Signalled s (wake_up k p ps j) s.soft_block_count)
        (ready_end p (record s { asl = a }))
  ready_end-lem =
      rw (update-ok p (λ c. record c { sem_add = null }) a.pcbs (p-IsPcb n k p ps q)) joins_cleared

pub signal-le :
    (k : ℕ) (j : Jobs)
    → le_zero (add32 (j.count k) 1) ≡ true
    → signal k j
      ≡ wake_first k (j.queues k) (record j { count = update j.count k (add32 (j.count k) 1) })
signal-le k j e = rw e refl

pub signal-gt :
    (k : ℕ) (j : Jobs)
    → le_zero (add32 (j.count k) 1) ≡ false
    → signal k j ≡ record j { count = update j.count k (add32 (j.count k) 1) }
signal-gt k j e = rw e refl

-- removeBlocked of the semaphore, and what follows
abbrev signal_end : ℕ → Cmd Kernel (Unit {0})
signal_end k = do p ← on_asl (remove_blocked k); if p == null then pure tt else ready_end p

signal_end-lem :
    {s : Kernel} {j : Jobs} (k : ℕ) (qs : List ℕ)
    → IsNucleus s j
    → IsAddress k
    → j.queues k ≡ qs
    → Returns (λ _. Signalled s (wake_first k qs j) s.soft_block_count) (signal_end k s)
signal_end-lem k [] n ka q =
    rw (remove_blocked-none k n.blocking ka q) (returns (n, (λ x. refl), refl, refl, refl))
signal_end-lem {s} {j} k (p ∷ ps) n ka q =
    Returns-bind {k = λ p. if p == null then pure tt else ready_end p}
      (on_asl-Returns (remove_blocked k) s (remove_blocked-Freed k n.blocking ka p ps q))
      λ r g (a, e, fr).
        let ne = IsPcb-ne_null p (p-IsPcb n k p ps q) in
        rw (e, fr.0, ne) (ready_end-lem n k p ps a q (refl, fr.1, fr.2, fr.3))

-- SYS3 does what a V operation means, and changes no saved state and no count of processes that
-- wait for a device.
pub sys_signal-IsNucleus :
    {s : Kernel} {j : Jobs} (st : ProcState)
    → IsNucleus s j
    → IsAddress (st.reg a1)
    → Returns (λ _. Signalled s (signal (st.reg a1) j) s.soft_block_count) (sys_signal st s)
unfolding sys_signal increment
sys_signal-IsNucleus {s} {j} st n ka =
    let k = st.reg a1 in
    let n1 = counted-IsNucleus k (λ w. add32 w 1) n in
    elim (Bool-cases (le_zero (add32 (j.count k) 1))) [
      | inl e ↦
          let le : le_zero (add32 (s.word k) 1) ≡ true =
            subst (λ (w : ℕ → ℕ). le_zero (add32 (w k) 1) ≡ true) (sym n.counts) e in
          rw (signal-le k j e, le) (signal_end-lem k (j.queues k) n1 ka refl)
      | inr e ↦
          let gt : le_zero (add32 (s.word k) 1) ≡ false =
            subst (λ (w : ℕ → ℕ). le_zero (add32 (w k) 1) ≡ false) (sym n.counts) e in
          rw (signal-gt k j e, gt) (returns (n1, (λ x. refl), refl, refl, refl))
    ]

wake_first-IsAlone :
    (k : ℕ) (qs : List ℕ) (j : Jobs) → j.queues k ≡ qs → IsAlone j → IsAlone (wake_first k qs j)
wake_first-IsAlone k [] j q al = al
wake_first-IsAlone k (p ∷ ps) j q al = wake_up-IsAlone k p ps j q al

-- The running process stays alone.
pub signal-IsAlone : (k : ℕ) (j : Jobs) → IsAlone j → IsAlone (signal k j)
signal-IsAlone k j al = elim (Bool-cases (le_zero (add32 (j.count k) 1))) [
  | inl e ↦ rw (signal-le k j e) (
      wake_first-IsAlone k (j.queues k)
        (record j { count = update j.count k (add32 (j.count k) 1) }) refl al)
  | inr e ↦ rw (signal-gt k j e) al
]

pub signal-current : (k : ℕ) (j : Jobs) → (signal k j).current ≡ j.current
signal-current k j = elim (Bool-cases (le_zero (add32 (j.count k) 1))) [
  | inl e ↦ rw (signal-le k j e) (first (j.queues k))
  | inr e ↦ rw (signal-gt k j e) refl
]
  where
    first :
        (qs : List ℕ)
        → (wake_first k qs (record j { count = update j.count k (add32 (j.count k) 1) })).current
          ≡ j.current
    first [] = refl
    first (p ∷ ps) = refl
