-- ===== src/Kernel/Exceptions.antt =====
-- The exception handlers of phase2/exceptions.c: sysCallHandler, the two trap handlers, and
-- pullUpAndDie, which passes an exception up to the process or kills it.
use kaya_os.Base.{ℕ, ◌&&◌, leb, ◌==◌, if◌then◌else◌, ProcState, Cmd, pure, ◌>>=◌, ◌>>◌, gets}
use Prim.Native.Nat.{bit_and}
use kaya_os.Base.Word.{add32}
use kaya_os.Pcb
use kaya_os.Pcb.{null, old_state, new_state}
use kaya_os.Kernel.{Kernel, on_pcb, get_area, set_area, copy_state, load_processor}
use kaya_os.Kernel.Syscalls.{
  syscall_old_area, a0, sys_create, sys_terminate, sys_signal, sys_wait, sys_byol, sys_get_cpu_time,
  sys_wait_for_clock, sys_wait_io,
}

abbrev pub pgmtrap_old_area : ℕ
pgmtrap_old_area = 0x20000230

abbrev pub tlbmgmt_old_area : ℕ
tlbmgmt_old_area = 0x20000118

abbrev pub tlbtrap : ℕ
tlbtrap = 0

abbrev pub progtrap : ℕ
progtrap = 1

abbrev pub systrap : ℕ
systrap = 2

-- KUON and RI << 2
abbrev pub kuon : ℕ
kuon = 8

abbrev pub ri_cause : ℕ
ri_cause = 40

-- Where the hardware left the state of the exception; another type kills the process. (In the
-- source the location is then uninitialised, but sysSendToNorthKorea does not return.)
unfoldable pub old_area_of : ℕ → Cmd Kernel ℕ
old_area_of type =
    if type == tlbtrap
    then pure tlbmgmt_old_area
    else if type == progtrap
    then pure pgmtrap_old_area
    else if type == systrap
    then pure syscall_old_area
    else do sys_terminate; pure null

-- The call of debugC reads through the old-state pointer before the test.
unfoldable pub pull_up_and_die : ℕ → Cmd Kernel (Unit {0})
pull_up_and_die type = do
  c ← gets Kernel.current
  b ← on_pcb (Pcb.load c)
  let looking_at = b.states type new_state
  get_area (b.states type old_state)
  if looking_at == null then sys_terminate else pure tt
  location ← old_area_of type
  c' ← gets Kernel.current
  b' ← on_pcb (Pcb.load c')
  old ← get_area location
  target ← get_area (b'.states type old_state)
  set_area (b'.states type old_state) (copy_state old target)
  st ← get_area looking_at
  load_processor st

abbrev pub pbg_trap_handler : Cmd Kernel (Unit {0})
pbg_trap_handler = pull_up_and_die progtrap

abbrev pub tlb_trap_handler : Cmd Kernel (Unit {0})
tlb_trap_handler = pull_up_and_die tlbtrap

-- The switch on the number of the call.
unfoldable pub route : ℕ → ProcState → Cmd Kernel (Unit {0})
route call state =
    if call == 1
    then sys_create state
    else if call == 2
    then sys_terminate
    else if call == 3
    then sys_signal state
    else if call == 4
    then sys_wait state
    else if call == 5
    then sys_byol state
    else if call == 6
    then sys_get_cpu_time state
    else if call == 7
    then sys_wait_for_clock state
    else if call == 8
    then sys_wait_io state
    else pure tt

-- A call with a number of 1 .. 8 from user mode is turned into a program trap.
unfoldable pub check_mode : ProcState → Cmd Kernel (Unit {0})
check_mode state = if bit_and state.status kuon == 0 then pure tt else do
  old ← get_area pgmtrap_old_area
  set_area pgmtrap_old_area (record (copy_state state old) { cause = ri_cause })
  pbg_trap_handler

unfoldable pub sys_call_handler : Cmd Kernel (Unit {0})
sys_call_handler = do
  state ← get_area syscall_old_area
  let call = state.reg a0
  if leb 1 call && leb call 8 then check_mode state else pull_up_and_die systrap
  st ← get_area syscall_old_area
  set_area syscall_old_area (record st { pc = add32 st.pc 4 })
  now ← get_area syscall_old_area
  route call now
  next ← get_area syscall_old_area
  load_processor next
