-- ===== src/Kernel/DeviceSignal.antt =====
-- The V operation of a device interrupt in phase2/interrupts.c.
use kaya_os.Base.{
  ℕ, ◌≡◌, refl, sym, true, false, List, [], ◌∷◌, ◌==◌, Bool-cases, inl, inr, if◌then◌else◌, pure,
  Cmd, ◌>>◌, ◌>>=◌, modify, Returns, Returns-bind, returns,
}
use mathlib.Core.Path.{subst}
use kaya_os.Base.Word.{add32, sub32, le_zero}
use kaya_os.Pcb
use kaya_os.Pcb.{null}
use kaya_os.Pcb.Access.{IsPcb-ne_null, update-ok}
use kaya_os.Asl.{remove_blocked}
use kaya_os.Asl.Blocking.{IsAddress}
use kaya_os.Asl.Waking.{remove_blocked-Freed, remove_blocked-none}
use kaya_os.Kernel.{Kernel, sem_address, on_pcb, on_asl, make_ready}
use kaya_os.Kernel.Access.{on_asl-Returns}
use kaya_os.Kernel.Nucleus.{Jobs, IsNucleus, recount-IsNucleus}
use kaya_os.Kernel.Wake.{p-IsPcb}
use kaya_os.Kernel.Signal.{
  wake_first, signal, signal-le, signal-gt, Signalled, counted-IsNucleus, joins_cleared,
}
use kaya_os.Kernel.Syscalls.{increment}
use kaya_os.Kernel.Interrupts.{signal_device}

abbrev pub soft_woken : List ℕ → ℕ → ℕ
soft_woken [] soft = soft
soft_woken (p ∷ ps) soft = sub32 soft 1

-- softBlockCount after the call: one less when a process becomes ready
abbrev pub soft_left : ℕ → Jobs → ℕ → ℕ
soft_left k j soft = if le_zero (add32 (j.count k) 1) then soft_woken (j.queues k) soft else soft

-- removeBlocked of the semaphore, and what follows
abbrev device_end : ℕ → Cmd Kernel (Unit {0})
device_end k = do
  p ← on_asl (remove_blocked k)
  if p == null then pure tt else do
    on_pcb (Pcb.update p (λ c. record c { sem_add = null }))
    modify (λ s. record s { soft_block_count = sub32 s.soft_block_count 1 })
    make_ready p

device_end-lem :
    {s : Kernel} {j : Jobs} (k : ℕ) (qs : List ℕ)
    → IsNucleus s j
    → IsAddress k
    → j.queues k ≡ qs
    → Returns
        (λ _. Signalled s (wake_first k qs j) (soft_woken qs s.soft_block_count))
        (device_end k s)
device_end-lem k [] n ka q =
    rw (remove_blocked-none k n.blocking ka q) (returns (n, (λ x. refl), refl, refl, refl))
device_end-lem {s} {j} k (p ∷ ps) n ka q =
    Returns-bind
      {k = λ p. if p == null then pure tt else do
        on_pcb (Pcb.update p (λ c. record c { sem_add = null }))
        modify (λ s. record s { soft_block_count = sub32 s.soft_block_count 1 })
        make_ready p}
      (on_asl-Returns (remove_blocked k) s (remove_blocked-Freed k n.blocking ka p ps q))
      λ r g (a, e, fr).
        let v = p-IsPcb n k p ps q in
        let n' = recount-IsNucleus (sub32 s.soft_block_count 1) n in
        rw (e, fr.0, IsPcb-ne_null p v, update-ok p (λ c. record c { sem_add = null }) a.pcbs v)
          (joins_cleared n' k p ps a q (refl, fr.1, fr.2, fr.3))

-- The V operation of a device interrupt does what a V operation means; when a process becomes
-- ready, one less waits for a device. No saved state changes.
pub signal_device-IsNucleus :
    {s : Kernel} {j : Jobs} (i : ℕ)
    → IsNucleus s j
    → IsAddress (sem_address s i)
    → Returns
        (λ _.
          Signalled s
            (signal (sem_address s i) j)
            (soft_left (sem_address s i) j s.soft_block_count))
        (signal_device i s)
unfolding signal_device increment
signal_device-IsNucleus {s} {j} i n ka =
    let k = sem_address s i in
    let n1 = counted-IsNucleus k (λ w. add32 w 1) n in
    elim (Bool-cases (le_zero (add32 (j.count k) 1))) [
      | inl e ↦
          let le : le_zero (add32 (s.word k) 1) ≡ true =
            subst (λ (w : ℕ → ℕ). le_zero (add32 (w k) 1) ≡ true) (sym n.counts) e in
          rw (signal-le k j e, le, e) (device_end-lem k (j.queues k) n1 ka refl)
      | inr e ↦
          let gt : le_zero (add32 (s.word k) 1) ≡ false =
            subst (λ (w : ℕ → ℕ). le_zero (add32 (w k) 1) ≡ false) (sym n.counts) e in
          rw (signal-gt k j e, gt, e) (returns (n1, (λ x. refl), refl, refl, refl))
    ]
