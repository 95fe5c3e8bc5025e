-- ===== src/Kernel/Registers.antt =====
-- What the nucleus of phase2 leaves of the device registers, whatever else becomes of a run.
use kaya_os.Base.{
  ℕ, ◌≡◌, ◌==◌, suc, ProcState, Bool-cases, inl, inr, ok, exit, fault, out_of_fuel, Run, Cmd,
  and_then, lift_run, ◌>>◌, if◌then◌else◌, pure, modify, Exit, Leaves, leaves,
}
use kaya_os.Base.Word.{sub32, add32, le_zero, is_pos}
use kaya_os.Pcb
use kaya_os.Pcb.{null, Pcb}
use kaya_os.Asl.{Asl, on_pcbs, remove_blocked}
use kaya_os.Kernel.{
  Kernel, Device, update, on_pcb, save_state, make_ready, load_processor, sem_address,
}
use kaya_os.Kernel.Scheduler.{quantum, bill_current, idle, dispatch, scheduler}
use kaya_os.Kernel.Dispatch.{choose, chosen}
use kaya_os.Kernel.Syscalls.{increment}
use kaya_os.Kernel.Interrupts.{finish, signal_device, interrupt_old_area}

-- If the run comes to an end, the device registers are `d` then.
pub data Leaving {A : Type 0} (d : ℕ → Device) : Run Kernel A → Type 0 where
  returned : {a : A} {g : Kernel} → g.device ≡ d → Leaving d (ok a g)
  left : {e : Exit} {g : Kernel} → g.device ≡ d → Leaving d (exit e g)
  faulted : Leaving d fault
  endless : Leaving d out_of_fuel

pub Leaving-bind :
    {A B : Type 0} {d : ℕ → Device} {r : Run Kernel A} {k : A → Cmd Kernel B}
    → Leaving d r
    → ((a : A) (g : Kernel) → g.device ≡ d → Leaving d (k a g))
    → Leaving d (and_then r k)
Leaving-bind (returned e) next = next _ _ e
Leaving-bind (left e) next = left e
Leaving-bind faulted next = faulted
Leaving-bind endless next = endless

-- With what is known of the same run.
pub Leaves-Leaving :
    {A : Type 0} {P : Exit → Kernel → Type 0} {d : ℕ → Device} {r : Run Kernel A}
    → Leaves P r
    → Leaving d r
    → Leaves (λ e g. P e g × (g.device ≡ d)) r
Leaves-Leaving (leaves p) (left e) = leaves (p, e)

lift_run-Leaving :
    {A : Type 0} {d : ℕ → Device} (s : Kernel) (r : Run Asl A)
    → s.device ≡ d
    → Leaving d (lift_run Kernel.asl (λ a s. record s { asl = a }) s r)
lift_run-Leaving s (ok a g) e = returned e
lift_run-Leaving s (exit x g) e = left e
lift_run-Leaving s fault e = faulted
lift_run-Leaving s out_of_fuel e = endless

-- the wake-up of signal_device, and its end
abbrev counts : ℕ → Cmd Kernel (Unit {0})
counts p = do modify (λ s. record s { soft_block_count = sub32 s.soft_block_count 1 }); make_ready p

abbrev wakes : ℕ → Cmd Kernel (Unit {0})
wakes p =
    if p == null
    then pure tt
    else do on_pcb (Pcb.update p (λ c. record c { sem_add = null })); counts p

module _ {d : ℕ → Device} where
  make_ready-Leaving : (p : ℕ) (s : Kernel) → s.device ≡ d → Leaving d (make_ready p s)
  make_ready-Leaving p s e =
      Leaving-bind {k = λ t. modify (λ s. record s { ready = t })} (lift_run-Leaving s _ e)
        λ t g e'. returned e'

  bill_current-Leaving : (s : Kernel) → s.device ≡ d → Leaving d (bill_current s)
  unfolding bill_current
  bill_current-Leaving s e = elim (Bool-cases (s.current == null)) [
    | inl y ↦ rw y (returned e)
    | inr n ↦
        let t = s.tod s.readings in
        rw n (lift_run-Leaving (record s { readings = suc s.readings; current_tod = t }) _ e)
  ]

  loads-Leaving :
      (c : Pcb) (g : Kernel) → g.device ≡ d → Leaving d (load_processor {A = Unit {0}} c.state g)
  unfolding load_processor
  loads-Leaving c g e = left e

  dispatch-Leaving : (p : ℕ) (s : Kernel) → s.device ≡ d → Leaving d (dispatch p s)
  unfolding dispatch
  dispatch-Leaving p s e =
      let t = record s {
        current = p;
        tod_started = s.tod s.readings;
        readings = suc s.readings;
        timer = quantum;
      } in
      Leaving-bind {k = λ c. load_processor (Pcb.state c)} (lift_run-Leaving t _ e)
        λ c g e'. loads-Leaving c g e'

  idle-Leaving : (s : Kernel) → s.device ≡ d → Leaving d (idle s)
  unfolding idle
  idle-Leaving s e = elim (Bool-cases (s.process_count == 0)) [
    | inl y ↦ rw y (left e)
    | inr n ↦ elim (Bool-cases (is_pos s.process_count)) [
      | inr m ↦ rw (n, m) (returned e)
      | inl m ↦ elim (Bool-cases (s.soft_block_count == 0)) [
        | inl z ↦ rw (n, m, z) (left e)
        | inr z ↦ elim (Bool-cases (is_pos s.soft_block_count)) [
          | inl w ↦ rw (n, m, z, w) (left e)
          | inr w ↦ rw (n, m, z, w) (returned e)
        ]
      ]
    ]
  ]

  scheduler-Leaving : (s : Kernel) → s.device ≡ d → Leaving d (scheduler s)
  unfolding scheduler
  scheduler-Leaving s e = Leaving-bind {k = λ _. choose} (bill_current-Leaving s e) λ _ b e'.
      Leaving-bind {k = chosen} (lift_run-Leaving b (on_pcbs (Pcb.remove_proc_q b.ready) b.asl) e')
        λ r g e''. elim (Bool-cases (r.0 == null)) [
          | inl y ↦ rw y (idle-Leaving (record g { ready = r.1 }) e'')
          | inr n ↦ rw n (dispatch-Leaving r.0 (record g { ready = r.1 }) e'')
        ]

  save_state-Leaving :
      (st : ProcState) (p : ℕ) (s : Kernel) → s.device ≡ d → Leaving d (save_state st p s)
  unfolding save_state
  save_state-Leaving st p s e = lift_run-Leaving s _ e

  pub finish-Leaving : (s : Kernel) → s.device ≡ d → Leaving d (finish s)
  unfolding finish
  finish-Leaving s e = elim (Bool-cases (s.current == null)) [
    | inl y ↦ rw y (scheduler-Leaving s e)
    | inr n ↦
        let t = record s {
          readings = suc s.readings;
          tod_started = add32 s.tod_started (sub32 (s.tod s.readings) s.tod_stopped);
        } in
        rw n (
          Leaving-bind {k = λ _. scheduler}
            (Leaving-bind {k = λ _. make_ready s.current}
              (save_state-Leaving (s.area interrupt_old_area) s.current t e)
              λ _ g e'. make_ready-Leaving s.current g e')
            λ _ g e'. scheduler-Leaving g e')
  ]

  pub signal_device-Leaving : (i : ℕ) (s : Kernel) → s.device ≡ d → Leaving d (signal_device i s)
  unfolding signal_device increment
  signal_device-Leaving i s e =
      let k = sem_address s i in
      let b = record s { word = update s.word k (add32 (s.word k) 1) } in
      elim (Bool-cases (le_zero (add32 (s.word k) 1))) [
        | inr n ↦ rw n (returned e)
        | inl y ↦ rw y (
            Leaving-bind {k = wakes} (lift_run-Leaving b (remove_blocked k s.asl) e) λ p g e'.
              elim (Bool-cases (p == null)) [
                | inl z ↦ rw z (returned e')
                | inr z ↦ rw z (
                    Leaving-bind {k = λ _. counts p} (lift_run-Leaving g _ e') λ _ h e''.
                      make_ready-Leaving p
                        (record h { soft_block_count = sub32 h.soft_block_count 1 }) e'')
              ])
      ]
