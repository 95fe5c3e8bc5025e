-- ===== src/Kernel/Clock.antt =====
-- The interval timer of phase2/interrupts.c: the loop that wakes the processes that wait for the
-- clock.
use kaya_os.Base.{
  ℕ, zero, suc, ◌≡◌, refl, ap, ◌∙◌, List, [], ◌∷◌, arith, ◌==◌, if◌then◌else◌, Run, Cmd, ◌>>◌,
  ◌>>=◌, modify, gets, Returns-then,
}
use kaya_os.Base.Word.{add32, sub32}
use kaya_os.Pcb
use kaya_os.Pcb.{null, Pcbs, Pcb, put}
use kaya_os.Pcb.Access.{IsPcb-ne_null, update-ok, with}
use kaya_os.Pcb.Aim.{Kept, Moved-refl}
use kaya_os.Pcb.Frame.{IsProcQ-frame}
use kaya_os.Asl.{remove_blocked}
use kaya_os.Asl.Blocking.{IsAddress}
use kaya_os.Asl.Frame.{IsBlocking-frame}
use kaya_os.Asl.First.{head_blocked-cons}
use kaya_os.Asl.Waking.{remove_blocked-Freed}
use kaya_os.Kernel.{Kernel, on_pcb, stck, make_ready}
use kaya_os.Kernel.Access.{with_pcbs, on_asl-Returns}
use kaya_os.Kernel.Nucleus.{Jobs, IsNucleus, same-IsNucleus, recount-IsNucleus}
use kaya_os.Kernel.Wake.{wake_up, p-IsPcb}
use kaya_os.Kernel.Signal.{Signalled, joins}
use kaya_os.Kernel.Interrupts.{wake_loop}

-- All of `qs`, the queue of `k`, become ready in their order.
abbrev pub wake_all : ℕ → List ℕ → Jobs → Jobs
wake_all k [] j = j
wake_all k (p ∷ ps) j = wake_all k ps (wake_up k p ps j)

-- `n` processes fewer wait for a device.
abbrev pub less : ℕ → ℕ → ℕ
less zero c = c
less (suc n) c = less n (sub32 c 1)

abbrev timed : Pcbs → ℕ → ℕ → Pcbs
timed h p t = with h p (λ c. record c { time = add32 c.time t })

timed-Kept :
    (h : Pcbs) (p t q : ℕ)
    → Kept (timed h p t) h q × (((timed h p t).cell q).state ≡ (h.cell q).state)
unfolding put
timed-Kept h p t q = ground arith

timed-IsNucleus :
    {s : Kernel} {j : Jobs} (p t : ℕ)
    → IsNucleus s j
    → IsNucleus (with_pcbs s (timed s.asl.pcbs p t)) j
timed-IsNucleus {s} {j} p t n =
    let h = timed s.asl.pcbs p t in
    record {
      counts = n.counts;
      blocking =
          IsBlocking-frame [] h n.blocking (λ q i. absurd (ground (arith, i)))
            (λ q _. (timed-Kept s.asl.pcbs p t q).0);
      queue =
          IsProcQ-frame h s.asl.pcbs s.ready j.ready (λ q _. (timed-Kept s.asl.pcbs p t q).0.0)
            n.queue;
      apart = n.apart;
      runs = n.runs;
    }

-- A round of the loop takes the first process off the queue and makes it ready.
pub round-then :
    {s : Kernel} {j : Jobs} (k : ℕ) (p : ℕ) (ps : List ℕ) (f : ℕ)
    (T : Run Kernel (Unit {0}) → Type 0)
    → IsNucleus s j
    → IsAddress k
    → j.queues k ≡ p ∷ ps
    → ((g : Kernel)
        → Signalled s (wake_up k p ps j) (sub32 s.soft_block_count 1) g
        → T (wake_loop f k g))
    → T (wake_loop (suc f) k s)
unfolding wake_loop
round-then {s} {j} k p ps f T n ka q next =
    let v = p-IsPcb n k p ps q in
    let ne = IsPcb-ne_null p v in
    let s' = record s { readings = suc s.readings } in
    let n' = same-IsNucleus s' refl refl refl refl n in
    let end_time = s.tod s.readings in
    rw (head_blocked-cons k n.blocking ka p ps q, ne)
      (Returns-then {k = λ p. stck >>= after f p} T
        (on_asl-Returns (remove_blocked k) s (remove_blocked-Freed k n.blocking ka p ps q))
        λ r g (a, e, fr).
          rw (e, fr.0, ne)
            (Returns-then {k = λ _. bill f p end_time} T
              (joins n' k p ps a q (refl, fr.1, fr.2, fr.3) a.pcbs (Moved-refl (j.queues k) a.pcbs)
                (λ x o. ((refl, refl), refl)))
              λ u b (m, same, soft, ar, pc).
                let t = sub32 end_time b.tod_stopped in
                rw (update-ok p (λ c. record c { time = add32 c.time t }) b.asl.pcbs v) (
                  next _ (
                    recount-IsNucleus (sub32 b.soft_block_count 1) (timed-IsNucleus p t m),
                    (λ x. (timed-Kept b.asl.pcbs p t x).1 ∙ same x),
                    ap (λ (c : ℕ). sub32 c 1) soft,
                    ar,
                    pc,
                  ))))
  where
    bill : ℕ → ℕ → ℕ → Cmd Kernel (Unit {0})
    bill f p end_time = do
      stopped ← gets Kernel.tod_stopped
      on_pcb (Pcb.update p (λ c. record c { time = add32 c.time (sub32 end_time stopped) }))
      modify (λ s. record s { soft_block_count = sub32 s.soft_block_count 1 })
      wake_loop f k

    after : ℕ → ℕ → ℕ → Cmd Kernel (Unit {0})
    after f p end_time = if p == null then wake_loop f k else do make_ready p; bill f p end_time
