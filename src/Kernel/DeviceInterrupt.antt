-- ===== src/Kernel/DeviceInterrupt.antt =====
-- ioTrapHandler of phase2/interrupts.c for an interrupt of a device.
use kaya_os.Base.{
  ℕ, zero, suc, ◌≤◌, ProcState, ◌+◌, ◌-◌, ◌*◌, ◌<◌, ◌^◌, ◌≡◌, refl, sym, ◌∙◌, arith, ◌==◌,
  Bool-cases, inl, inr, if◌then◌else◌, Returns, returns, Leaves, Leaves-mono, Returns-Leaves, ◌>>◌,
  Returns-then, not, Bool, ◌&&◌,
}
use mathlib.Core.Path.{subst}
use Prim.Native.Nat.{bit_and}
use kaya_os.Pcb.{null}
use kaya_os.Pcb.Access.{IsPcb}
use kaya_os.Asl.Blocking.{IsAddress}
use kaya_os.Kernel.{Kernel, Device, update}
use kaya_os.Kernel.Interrupts.{
  finish, interrupt_old_area, acknowledge, signal_device, device_interrupt, is_on, io_trap_handler,
  terminal_line,
}
use kaya_os.Kernel.Devices.{get_device_number-first}
use kaya_os.Kernel.Block.{io_semaphore}
use kaya_os.Kernel.Registers.{
  Leaving, Leaving-bind, Leaves-Leaving, finish-Leaving, signal_device-Leaving,
}
use kaya_os.Kernel.Nucleus.{Jobs, IsNucleus, same-IsNucleus, IsAlone, leaving, next_up}
use kaya_os.Kernel.Saved.{Switched-before, Switched}
use kaya_os.Kernel.Signal.{SameStates, Signalled, signal, signal-IsAlone, signal-current}
use kaya_os.Kernel.DeviceSignal.{soft_left, signal_device-IsNucleus}
use kaya_os.Kernel.Preempt.{preempted, finish-Switched, finish-Scheduled}

-- The number that is taken for that of the device: 0 if the device 0 of the line has an interrupt
-- pending, and 8 otherwise.
abbrev pub taken : Kernel → ℕ → ℕ
taken s line = if bit_and (s.interrupt_dev (line - 3)) 1 == 1 then 0 else 8

-- The interrupt is one of the receiver of a terminal: the transmitter, in DATA0, is READY.
abbrev pub is_receiver : Kernel → ℕ → Bool
is_receiver s line = line == 7 && bit_and (s.device (8 * (line - 3) + taken s line)).data0 0xF == 1

-- The semaphore that the interrupt is taken to be for.
abbrev pub signalled_by : Kernel → ℕ → ℕ
signalled_by s line = io_semaphore s line (taken s line) (is_receiver s line)

-- its index
abbrev source_of : Kernel → ℕ → ℕ
source_of s line = 8 * (line - 3) + taken s line + (if is_receiver s line then 8 else 0)

-- The registers of that device get the acknowledgement, 1: for the transmitter of a terminal in the
-- command of the transmitter, DATA1, and else in the first command.
abbrev pub acknowledged : Kernel → ℕ → ℕ → Device
acknowledged s line =
    let i = 8 * (line - 3) + taken s line in
    let d = s.device i in
    update s.device i (
      if line == 7 && not (is_receiver s line)
      then record d { data1 = 1 }
      else record d { command = 1 })

-- The acknowledgement writes only to the device.
acknowledge-ok :
    (line : ℕ) (s : Kernel)
    → Returns
        (λ i g. (i ≡ source_of s line) × (g ≡ record s { device = acknowledged s line }))
        (acknowledge line (taken s line) s)
unfolding acknowledge
acknowledge-ok line s = elim (Bool-cases (line == terminal_line)) [
  | inl e ↦ elim (Bool-cases (bit_and (s.device (8 * (line - 3) + taken s line)).data0 0xF == 1)) [
    | inl r ↦ rw (e, r) (returns (refl, refl))
    | inr r ↦ rw (e, r) (returns (omega arith, refl))
  ]
  | inr e ↦ rw e (returns (omega arith, refl))
]

module _ {s : Kernel} {j : Jobs} (line : ℕ) (n : IsNucleus s j) (al : IsAlone j)
    (ka : IsAddress (signalled_by s line)) (small : s.process_count < 2 ^ 31)
    (small' : soft_left (signalled_by s line) j s.soft_block_count < 2 ^ 31) where
  abbrev key : ℕ
  key = signalled_by s line

  signalled :
      (d : ℕ → Device)
      → Returns
          (λ _. Signalled s (signal key j) (soft_left key j s.soft_block_count))
          (signal_device (source_of s line) (record s { device = d }))
  signalled d =
      signal_device-IsNucleus (source_of s line)
        (same-IsNucleus (record s { device = d }) refl refl refl refl n) ka

  -- An interrupt of a device performs the V operation on its semaphore. The running process goes
  -- behind the ready ones, the woken one among them, and the scheduler chooses.
  pub device_interrupt-Switched :
      IsPcb j.current
      → Leaves
          (Switched s.asl.pcbs s.current
            (s.area interrupt_old_area)
            (preempted (signal key j))
            s.process_count
            (soft_left key j s.soft_block_count))
          (device_interrupt line s)
  unfolding device_interrupt
  device_interrupt-Switched v = rw (get_device_number-first line s) (
      Returns-Leaves {k = λ i. signal_device i >> finish} (acknowledge-ok line s) λ i g (e, r).
        rw (e, r)
          (Returns-Leaves {k = λ _. finish} (signalled (acknowledged s line))
            λ u b (n', same, soft, ar, pc).
              let r' = n'.runs ∙ (signal-current key j ∙ sym n.runs) in
              let v' : IsPcb (signal key j).current = rw (signal-current key j) v in
              subst
                (λ (ar : ℕ → ProcState).
                  Leaves
                    (Switched s.asl.pcbs s.current (ar interrupt_old_area)
                      (preempted (signal key j)) s.process_count
                      (soft_left key j s.soft_block_count))
                    (finish b))
                ar
                (Leaves-mono
                  (finish-Switched n' (signal-IsAlone key j al) v' (rw pc small, rw soft small'))
                  λ e' g' w.
                    Switched-before b s.asl.pcbs s.current (b.area interrupt_old_area) r' same
                      (pc, soft) w)))

  -- With no process running, the woken one goes behind the ready ones, and the scheduler chooses.
  pub device_interrupt-Scheduled :
      j.current ≡ null
      → Leaves
          (λ e g.
            (e ≡ leaving g (signal key j).ready)
            × IsNucleus g (next_up (signal key j))
            × IsAlone (next_up (signal key j))
            × SameStates s g)
          (device_interrupt line s)
  unfolding device_interrupt
  device_interrupt-Scheduled v = rw (get_device_number-first line s) (
      Returns-Leaves {k = λ i. signal_device i >> finish} (acknowledge-ok line s) λ i g (e, r).
        rw (e, r)
          (Returns-Leaves {k = λ _. finish} (signalled (acknowledged s line))
            λ u b (n', same, soft, ar, pc).
              Leaves-mono
                (finish-Scheduled n' (signal-current key j ∙ v) (rw pc small, rw soft small'))
                λ e' g' w. (w.outcome, w.nucleus, w.alone, λ q. w.states q ∙ same q)))

-- Whatever else becomes of it, of the device registers only the acknowledgement is written.
device_interrupt-Leaving :
    (line : ℕ) (s : Kernel) → Leaving (acknowledged s line) (device_interrupt line s)
unfolding device_interrupt
device_interrupt-Leaving line s = rw (get_device_number-first line s) (
    Returns-then {k = λ i. signal_device i >> finish} (Leaving (acknowledged s line))
      (acknowledge-ok line s)
      λ i g (e, r). rw r (
        Leaving-bind {k = λ _. finish}
          (signal_device-Leaving i (record s { device = acknowledged s line }) refl)
          λ _ h e'. finish-Leaving h e'))

-- The first of the lines from `line` on that has an interrupt pending in the cause.
abbrev pub pending : ℕ → ℕ → ℕ → ℕ
pending zero line cause = line
pending (suc k) line cause =
    let next = pending k (line + 1) cause in if is_on cause (2 ^ (8 + line)) then line else next

-- The handler of interrupts, once it has read the clock, serves the first device line.
io_trap_handler-routes :
    (s : Kernel) (line : ℕ)
    → pending 8 0 (s.area interrupt_old_area).cause ≡ line
    → 3 ≤ line
    → line ≤ 7
    → io_trap_handler s
      ≡ device_interrupt line
          (record s { readings = suc s.readings; tod_stopped = s.tod s.readings })
unfolding io_trap_handler
io_trap_handler-routes s line e lo hi = ground arith

-- With a process running that is on no queue, the counts afterwards below 2^31, and an interrupt
-- whose first line is one of devices, the handler performs a V operation. If the device 0 of the
-- line has an interrupt pending it is on the semaphore of that device, for a terminal whose
-- transmitter is READY on that of its receiver. If not, and whichever other device has interrupted,
-- it is on the semaphore eight further on, that of the device 0 of the next line or, for the
-- terminals, of the receiver of the terminal 0, or eight more if the status of a transmitter that
-- is read there is READY. The acknowledgement is written to the registers of the device that is
-- taken, and to no others. The running process goes behind the ready ones, the woken one among
-- them, with its state in the old area saved, softBlockCount goes down by one if one is woken,
-- processCount stays, and the scheduler chooses.
pub io_trap_handler-Switched :
    {s : Kernel} {j : Jobs} (line : ℕ)
    → IsNucleus s j
    → IsAlone j
    → IsPcb j.current
    → pending 8 0 (s.area interrupt_old_area).cause ≡ line
    → 3 ≤ line
    → line ≤ 7
    → IsAddress (signalled_by s line)
    → s.process_count < 2 ^ 31
    → soft_left (signalled_by s line) j s.soft_block_count < 2 ^ 31
    → Leaves
        (λ e g.
          Switched s.asl.pcbs s.current
            (s.area interrupt_old_area)
            (preempted (signal (signalled_by s line) j))
            s.process_count
            (soft_left (signalled_by s line) j s.soft_block_count)
            e
            g
          × (g.device ≡ acknowledged s line))
        (io_trap_handler s)
io_trap_handler-Switched {s} line n al v e lo hi ka small small' =
    let t = record s { readings = suc s.readings; tod_stopped = s.tod s.readings } in
    rw (io_trap_handler-routes s line e lo hi) (
      Leaves-Leaving
        (device_interrupt-Switched line (same-IsNucleus t refl refl refl refl n) al ka small small'
          v)
        (device_interrupt-Leaving line t))

-- The same when no process runs: the woken one goes behind the ready ones, and the scheduler
-- chooses.
pub io_trap_handler-Scheduled :
    {s : Kernel} {j : Jobs} (line : ℕ)
    → IsNucleus s j
    → IsAlone j
    → j.current ≡ null
    → pending 8 0 (s.area interrupt_old_area).cause ≡ line
    → 3 ≤ line
    → line ≤ 7
    → IsAddress (signalled_by s line)
    → s.process_count < 2 ^ 31
    → soft_left (signalled_by s line) j s.soft_block_count < 2 ^ 31
    → Leaves
        (λ e g.
          (e ≡ leaving g (signal (signalled_by s line) j).ready)
          × IsNucleus g (next_up (signal (signalled_by s line) j))
          × IsAlone (next_up (signal (signalled_by s line) j))
          × SameStates s g)
        (io_trap_handler s)
io_trap_handler-Scheduled {s} line n al v e lo hi ka small small' =
    let t = record s { readings = suc s.readings; tod_stopped = s.tod s.readings } in
    rw (io_trap_handler-routes s line e lo hi) (
      device_interrupt-Scheduled line (same-IsNucleus t refl refl refl refl n) al ka small small' v)
