-- ===== src/Kernel/Interrupts.antt =====
-- phase2/interrupts.c.
use kaya_os.Base.{
  ℕ, zero, suc, ◌+◌, ◌-◌, ◌*◌, Bool, not, ◌==◌, if◌then◌else◌, fault, out_of_fuel, exit, panic, Cmd,
  pure, ◌>>=◌, ◌>>◌, gets, modify,
}
use Prim.Native.Nat.{bit_and}
use kaya_os.Base.Word.{add32, sub32, le_zero}
use kaya_os.Asl
use kaya_os.Pcb
use kaya_os.Pcb.{null}
use kaya_os.Kernel.{
  Kernel, Device, total_sem, sem_address, on_asl, on_pcb, set_word, get_area, stck, make_ready,
  save_state, update,
}
use kaya_os.Kernel.Scheduler.{scheduler}
use kaya_os.Kernel.Syscalls.{increment}

abbrev pub interrupt_old_area : ℕ
interrupt_old_area = 0x20000000

-- INTTIME
abbrev pub interval : ℕ
interval = 100000

-- Interrupt lines, and LINEZERO .. LINESEVEN.
abbrev pub terminal_line : ℕ
terminal_line = 7

abbrev pub is_on : ℕ → ℕ → Bool
is_on cause mask = bit_and cause mask == mask

unfoldable pub finish : Cmd Kernel (Unit {0})
finish = do
  c ← gets Kernel.current
  if c == null then pure tt else do
    end_time ← stck
    modify (λ s. record s { tod_started = add32 s.tod_started (sub32 end_time s.tod_stopped) })
    old ← get_area interrupt_old_area
    save_state old c
    make_ready c
  scheduler

-- The loop of getDeviceNumber. The statement `checkingDevice << 1;` has no effect, so that every
-- round tests the same bit.
unfoldable pub device_loop : ℕ → (device_num bit_map checking : ℕ) → ℕ
device_loop zero device_num bit_map checking = device_num
device_loop (suc k) device_num bit_map checking =
    let next = device_loop k (device_num + 1) bit_map checking in
    if is_on bit_map checking then device_num else next

unfoldable pub get_device_number : ℕ → Cmd Kernel ℕ
get_device_number line = do m ← gets Kernel.interrupt_dev; pure (device_loop 8 0 (m (line - 3)) 1)

-- while (headBlocked(semAdd) != NULL) ...: a process blocked on the clock is made ready and billed.
unfoldable pub wake_loop : ℕ → ℕ → Cmd Kernel (Unit {0})
wake_loop zero sem_add = λ _. out_of_fuel
wake_loop (suc k) sem_add = do
  h ← on_asl (Asl.head_blocked sem_add)
  if h == null then pure tt else do
    p ← on_asl (Asl.remove_blocked sem_add)
    end_time ← stck
    if p == null then wake_loop k sem_add else do
      make_ready p
      stopped ← gets Kernel.tod_stopped
      on_pcb (Pcb.update p (λ c. record c { time = add32 c.time (sub32 end_time stopped) }))
      modify (λ s. record s { soft_block_count = sub32 s.soft_block_count 1 })
      wake_loop k sem_add

-- Line 2, the interval timer. At most MAXPROC processes are blocked.
unfoldable pub interval_timer : Cmd Kernel (Unit {0})
interval_timer = do
  modify (λ s. record s { interval_timer = interval })
  mutex ← gets (λ s. sem_address s (total_sem - 1))
  wake_loop 21 mutex
  set_word mutex 0
  finish

abbrev pub set_device : ℕ → Device → Cmd Kernel (Unit {0})
set_device n d = modify (λ s. record s { device = update s.device n d })

-- Acknowledges the device and gives the index of its semaphore: a terminal whose transmitter is
-- ready has interrupted for its receiver.
unfoldable pub acknowledge : (line device_num : ℕ) → Cmd Kernel ℕ
acknowledge line device_num = do
  let i = 8 * (line - 3) + device_num
  devices ← gets Kernel.device
  let d = devices i
  if not (line == terminal_line)
      then (do set_device i (record d { command = 1 }); pure i)
      else if not (bit_and d.data0 0xF == 1)
      then (do set_device i (record d { data1 = 1 }); pure i)
      else do set_device i (record d { command = 1 }); pure (i + 8)

-- ++(*semAdd), and the first process blocked there is made ready.
unfoldable pub signal_device : ℕ → Cmd Kernel (Unit {0})
signal_device i = do
  mutex ← gets (λ s. sem_address s i)
  v ← increment mutex
  if not (le_zero v) then pure tt else do
    p ← on_asl (Asl.remove_blocked mutex)
    if p == null then pure tt else do
      on_pcb (Pcb.update p (λ c. record c { sem_add = null }))
      modify (λ s. record s { soft_block_count = sub32 s.soft_block_count 1 })
      make_ready p

unfoldable pub device_interrupt : ℕ → Cmd Kernel (Unit {0})
device_interrupt line = do
  n ← get_device_number line
  i ← acknowledge line n
  signal_device i
  finish

-- Behind `finish` the line number is uninitialised; the scheduler returns there only with a
-- negative count.
unfoldable pub io_trap_handler : Cmd Kernel (Unit {0})
io_trap_handler = do
  t ← stck
  modify (λ s. record s { tod_stopped = t })
  old ← get_area interrupt_old_area
  if is_on old.cause 0x100
      then exit panic
      else if is_on old.cause 0x200
      then (finish >> λ _. fault)
      else if is_on old.cause 0x400
      then (interval_timer >> λ _. fault)
      else if is_on old.cause 0x800
      then device_interrupt 3
      else if is_on old.cause 0x1000
      then device_interrupt 4
      else if is_on old.cause 0x2000
      then device_interrupt 5
      else if is_on old.cause 0x4000
      then device_interrupt 6
      else if is_on old.cause 0x8000
      then device_interrupt 7
      else exit panic
