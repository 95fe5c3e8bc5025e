-- ===== src/Kernel.antt =====
-- The state of the nucleus (the globals of phase2/initial.c and what its modules reach through
-- fixed addresses), and the accesses to it. Its functions are in the modules below: Scheduler
-- (phase2/scheduler.c), Exceptions and Syscalls (phase2/exceptions.c), Interrupts
-- (phase2/interrupts.c) and Initial (phase2/initial.c).
pub mod Access
pub mod Copy
pub mod Devices
pub mod Registers
pub mod Dispatch
pub mod Scheduler
pub mod Syscalls
pub mod Exceptions
pub mod Interrupts
pub mod Idle
pub mod Nucleus
pub mod Wake
pub mod Saved
pub mod Block
pub mod Signal
pub mod DeviceSignal
pub mod Preempt
pub mod DeviceInterrupt
pub mod Clock
pub mod Tick
pub mod PassUp
pub mod Calls
pub mod Boot
pub mod Death
pub mod Birth
pub mod CallCreate
pub mod Initial
mod Tests
mod Busy
mod Scenarios
use kaya_os.Base.{
  ℕ, zero, suc, ◌+◌, ◌*◌, Bool, ltb, ◌==◌, if◌then◌else◌, ProcState, Exit, load_state, ok, exit,
  fault, Cmd, pure, ◌>>=◌, ◌>>◌, gets, modify, lift,
}
use kaya_os.Pcb
use kaya_os.Pcb.{null, Pcbs}
use kaya_os.Asl.{Asl, on_pcbs}

-- `device_t`. A terminal's transmitter has its status in `data0` and its command in `data1`.
pub record Device : Type 0 where
  pub status : ℕ
  pub command : ℕ
  pub data0 : ℕ
  pub data1 : ℕ

-- The integers of memory by address (`word`), the processor states in memory by address (`area`),
-- the address of sem[0], and the hardware: the time of day at each reading, the timers, the
-- status register, the device registers by number and the bitmaps of interrupting devices.
pub record Kernel : Type 0 where
  pub asl : Asl
  pub process_count : ℕ
  pub soft_block_count : ℕ
  pub current : ℕ
  pub ready : ℕ
  pub sem_base : ℕ
  pub word : ℕ → ℕ
  pub area : ℕ → ProcState
  pub tod : ℕ → ℕ
  pub readings : ℕ
  pub current_tod : ℕ
  pub tod_started : ℕ
  pub tod_stopped : ℕ
  pub timer : ℕ
  pub interval_timer : ℕ
  pub status : ℕ
  pub ramtop : ℕ
  pub device : ℕ → Device
  pub interrupt_dev : ℕ → ℕ

abbrev pub total_sem : ℕ
total_sem = 49

-- &(sem[i])
abbrev pub sem_address : Kernel → ℕ → ℕ
sem_address s i = s.sem_base + 4 * i

abbrev pub on_asl : {A : Type 0} → Cmd Asl A → Cmd Kernel A
on_asl = lift Kernel.asl (λ a s. record s { asl = a })

abbrev pub on_pcb : {A : Type 0} → Cmd Pcbs A → Cmd Kernel A
on_pcb m = on_asl (on_pcbs m)

abbrev pub update {ℓ} : {A : Type ℓ} → (ℕ → A) → ℕ → A → ℕ → A
update f p v q = if q == p then v else f q

abbrev pub set_word : ℕ → ℕ → Cmd Kernel (Unit {0})
set_word p v = modify (λ s. record s { word = update s.word p v })

-- A processor state through a pointer; NULL is no aligned address.
abbrev pub get_area : ℕ → Cmd Kernel ProcState
get_area p = λ s. if p == null then fault else ok (s.area p) s

abbrev pub set_area : ℕ → ProcState → Cmd Kernel (Unit {0})
set_area p st = λ s. if p == null then fault else ok tt (record s { area = update s.area p st })

abbrev pub set_reg : ProcState → ℕ → ℕ → ProcState
set_reg st i v = record st { reg = update st.reg i v }

-- STCK: the next reading of the clock.
abbrev pub stck : Cmd Kernel ℕ
stck = λ s. ok (s.tod s.readings) (record s { readings = suc s.readings })

-- insertProcQ(&readyQueue, p)
abbrev pub make_ready : ℕ → Cmd Kernel (Unit {0})
make_ready p = do
  q ← gets Kernel.ready
  t ← on_pcb (Pcb.insert_proc_q q p)
  modify (λ s. record s { ready = t })

abbrev pub state_reg_num : ℕ
state_reg_num = 31

-- The loop of copyState over the registers from `i` on.
unfoldable pub copy_loop : ℕ → ℕ → ProcState → ProcState → ProcState
copy_loop zero i old new = new
copy_loop (suc k) i old new = copy_loop k (i + 1) old (set_reg new i (old.reg i))

-- copyState: what `new` holds afterwards.
unfoldable pub copy_state : ProcState → ProcState → ProcState
copy_state old new =
    copy_loop state_reg_num 0 old
      (record new { cause = old.cause; asid = old.asid; status = old.status; pc = old.pc })

-- copyState(state, &(p -> pcb_state))
unfoldable pub save_state : ProcState → ℕ → Cmd Kernel (Unit {0})
save_state st p = on_pcb (Pcb.update p (λ c. record c { state = copy_state st c.state }))

-- putALoadInMeDaddy: LDST does not return.
unfoldable pub load_processor : {A : Type 0} → ProcState → Cmd Kernel A
load_processor st = λ s. exit (load_state st) s
