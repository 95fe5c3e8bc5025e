-- ===== src/Support/Virtual.antt =====
-- VSEMVIRT and PSEMVIRT of phase3/vmIOsupport.c over the ring of phase3/avsl.c.
use kaya_os.Base.{
  ℕ, ◌≡◌, refl, ap, true, false, ◌==◌, List, ◌∷◌, All, All-mem, Cmd, Run, ok, exit, fault,
  out_of_fuel, Returns, returns, Returns-bind,
}
use mathlib.Core.Path.{subst}
use mathlib.Core.Option.{Option, none, some}
use kaya_os.Base.Word.{add32, sub32, is_neg, le_zero, minus_one}
use kaya_os.Avsl.{Avsl, v_insert_blocked, v_remove_blocked}
use kaya_os.Avsl.Ring.{IsAvsl}
use kaya_os.Avsl.Link.{Entered}
use kaya_os.Avsl.Enter.{v_insert_blocked-append}
use kaya_os.Avsl.Search.{Outcome, kept, taken, victim, victim-mem, v_remove_blocked-Outcome}
use kaya_os.Kernel.{update}
use kaya_os.Support.{Memory, Support, World, passeren, verhogen, private_sem, syscall, on_avsl}
use kaya_os.Support.Calls.{v_sem_virt, p_sem_virt}

pub on_avsl-Returns :
    {A : Type 0} {P : A → Avsl → Type 0} (m : Cmd Avsl A) (s : Support)
    → Returns P (m s.memory.avsl)
    → Returns
        (λ r g. (a : Avsl) × P r a × (g ≡ record s { memory = record s.memory { avsl = a } }))
        (on_avsl m s)
on_avsl-Returns {P} m s done = go (m s.memory.avsl) done
  where
    go :
        (r : Run Avsl _)
        → Returns P r
        → Returns
            (λ r g. (a : Avsl) × P r a × (g ≡ record s { memory = record s.memory { avsl = a } }))
            (on_avsl (λ _. r) s)
    go (ok b a) (returns p) = returns (a, p, refl)
    go (exit e a) p = elim p [ ]
    go fault p = elim p [ ]
    go out_of_fuel p = elim p [ ]

-- the semaphore at `sem` with the value `v`
abbrev valued : Support → (sem v : ℕ) → Support
valued s sem v = record s { memory = record s.memory { word = update s.memory.word sem v } }

-- What PSEMVIRT promises when the process has to wait: it is the last on the ring, for the
-- semaphore, which is counted down, and then waits on its private semaphore, while the others go
-- on from the memory `waiting`.
pub record Waits (w : World) (s : Support) (xs : List ℕ) (f : ℕ) (fs : List ℕ) (sem id : ℕ)
    (g : Support) : Type 0 where
  pub waiting : Memory
  pub entered : Entered s.memory.avsl xs f fs sem id true waiting.avsl
  pub words : waiting.word ≡ update s.memory.word sem (sub32 (s.memory.word sem) 1)
  pub trace : g.trace ≡ passeren (private_sem id) ∷ s.trace
  pub goes_on : g.memory ≡ w.others (passeren (private_sem id) ∷ s.trace) waiting

-- PSEMVIRT on a virtual semaphore whose count becomes negative, with a free node, puts the process
-- behind the others on the ring, for that semaphore, writes the count and no other word, and then
-- waits on the private semaphore of the process.
pub p_sem_virt-Waits :
    (w : World) (id sem f : ℕ) (xs fs : List ℕ) (s : Support)
    → IsAvsl s.memory.avsl xs (f ∷ fs)
    → is_neg (sub32 (s.memory.word sem) 1) ≡ true
    → Returns (λ _ g. Waits w s xs f fs sem id g) (p_sem_virt w id sem s)
unfolding p_sem_virt syscall
p_sem_virt-Waits w id sem f xs fs s is neg =
    let start = valued s sem (sub32 (s.memory.word sem) 1) in
    rw neg (
      Returns-bind
        (on_avsl-Returns (v_insert_blocked sem id) start
          (v_insert_blocked-append sem id f xs fs s.memory.avsl is))
        λ r g (a, e, same). returns (record {
          waiting = record start.memory { avsl = a };
          entered = subst (λ b. Entered s.memory.avsl xs f fs sem id b a) e.result e;
          words = refl;
          trace = ap (λ h. passeren (private_sem id) ∷ h.trace) same;
          goes_on = ap (λ h. w.others (passeren (private_sem id) ∷ h.trace) h.memory) same;
        }))

-- What VSEMVIRT promises when a process may be waiting: the semaphore is counted up, the process
-- that vRemoveBlocked gives is taken off the ring, and its private semaphore is released.
pub record Wakes (w : World) (s : Support) (xs fs : List ℕ) (sem : ℕ) (g : Support) : Type 0 where
  pub giving : ℕ
  pub waking : Memory
  pub outcome : Outcome s.memory.avsl xs fs giving waking.avsl (victim s.memory.avsl sem xs)
  pub words : waking.word ≡ update s.memory.word sem (add32 (s.memory.word sem) 1)
  pub trace : g.trace ≡ verhogen (private_sem giving) ∷ s.trace
  pub goes_on : g.memory ≡ w.others (verhogen (private_sem giving) ∷ s.trace) waking

-- The processes on the ring have IDs.
abbrev pub HasIds : Avsl → List ℕ → Type 0
HasIds a xs = All (λ q. ((a.cell q).asid == minus_one) ≡ false) xs

Outcome-id :
    (a g : Avsl) (xs fs : List ℕ) (r : ℕ) (o : Option ℕ)
    → Outcome a xs fs r g o
    → ((p : ℕ) → o ≡ some p → ((a.cell p).asid == minus_one) ≡ false)
    → (r == minus_one) ≡ false
Outcome-id a g xs fs r none (kept z e) ids = rw z refl
Outcome-id a g xs fs r (some p) (taken q d) ids = rw d.result (ids q refl)

-- VSEMVIRT on a virtual semaphore whose count does not become positive takes the process that
-- vRemoveBlocked gives off the ring, writes the count and no other word, and releases the private
-- semaphore of that process, that of the process 0 if there is none; it does not end the caller.
pub v_sem_virt-Wakes :
    (w : World) (id sem : ℕ) (xs fs : List ℕ) (s : Support)
    → IsAvsl s.memory.avsl xs fs
    → HasIds s.memory.avsl xs
    → le_zero (add32 (s.memory.word sem) 1) ≡ true
    → Returns (λ _ g. Wakes w s xs fs sem g) (v_sem_virt w id sem s)
unfolding v_sem_virt syscall
v_sem_virt-Wakes w id sem xs fs s is ids low =
    let start = valued s sem (add32 (s.memory.word sem) 1) in
    let a = s.memory.avsl in
    rw low (
      Returns-bind
        (on_avsl-Returns (v_remove_blocked sem) start (v_remove_blocked-Outcome a sem xs fs is))
        λ r g (b, o, same).
          let known : (r == minus_one) ≡ false = Outcome-id a b xs fs r (victim a sem xs) o λ p e.
            All-mem (λ q. ((a.cell q).asid == minus_one) ≡ false) p xs ids
              (victim-mem a sem xs p e) in
          rw known (
            returns (record {
              giving = r;
              waking = record start.memory { avsl = b };
              outcome = o;
              words = refl;
              trace = ap (λ h. verhogen (private_sem r) ∷ h.trace) same;
              goes_on = ap (λ h. w.others (verhogen (private_sem r) ∷ h.trace) h.memory) same;
            })))
