-- ===== src/Support/Start.antt =====
-- phase3/initProc.c: `test`, which sets up the support level and starts the processes, and
-- `uProcInit`, which loads the program of a user process from its tape to the backing store.
use kaya_os.Base.{
  ℕ, zero, suc, ◌+◌, ◌-◌, ◌*◌, Bool, true, false, not, ◌&&◌, ◌==◌, if◌then◌else◌, ProcState,
  load_state, exit, out_of_fuel, Cmd, pure, ◌>>=◌, ◌>>◌,
}
use Prim.Native.Nat.{bit_or}
use kaya_os.Base.Word.{sub32, shl, minus_one}
use kaya_os.Adl
use kaya_os.Avsl
use kaya_os.Kernel.{update, total_sem}
use kaya_os.Support.{
  max_user_proc, kuseg_size, swap_size, page_size, PteEntry, PageTable, no_entry, Frame, os_table,
  seg3_table, user_table, mutex, master_sem, Memory, Support, World, passeren, verhogen, wait_io,
  create, specify, syscall, end_process, memory_of, change, on_adl, on_avsl, set_user, set_state,
  set_command, set_data0, get_current_asid, interrupts,
}
use kaya_os.Support.Pager.{read_block, write_block, ready, seek, transfer}

-- The addresses of the functions of phase 3, as the linker places them.
pub record Code : Type 0 where
  pub u_proc_init : ℕ
  pub vm_sys_handler : ℕ
  pub vm_mem_handler : ℕ
  pub vm_prgm_handler : ℕ
  pub delay_daemon : ℕ

-- (PTEMAGICNO << SHIFT_MAGIC) | n
abbrev pub table_header : ℕ → ℕ
table_header n = bit_or 0x2A000000 n

-- A loop over the entries of a page table from `i` on.
unfoldable pub fill : ℕ → ℕ → (ℕ → PteEntry) → PageTable → PageTable
fill zero i f t = t
fill (suc k) i f t = fill k (i + 1) f (record t { entry = update t.entry i (f i) })

-- ((base + i) << SHIFT_VPN) with the bits `flags`
abbrev pub os_entry : ℕ → PteEntry
os_entry i = record {
  entry_hi = shl (0x20000 + i) 12;
  entry_lo = bit_or (bit_or (bit_or (shl (0x20000 + i) 12) 0x400) 0x100) 0x200;
}

-- ALLOFF | GLOBAL | DIRTY
abbrev pub seg3_entry_of : ℕ → PteEntry
seg3_entry_of i = record {
  entry_hi = bit_or (shl (0xC0000 + i) 12) 0;
  entry_lo = bit_or 0x100 0x400;
}

abbrev pub user_entry_of : (id i : ℕ) → PteEntry
user_entry_of id i = record {
  entry_hi = bit_or (shl (0x80000 + i) 12) (shl id 6);
  entry_lo = 0x400;
}

-- The page table of the process: its last entry is the page of the stack.
unfoldable pub user_table_of : ℕ → PageTable → PageTable
user_table_of id t =
    let t' = fill kuseg_size 0 (user_entry_of id) (record t { header = table_header kuseg_size }) in
    record t' {
      entry =
          update t'.entry (kuseg_size - 1)
            (record (t'.entry (kuseg_size - 1)) { entry_hi = bit_or (shl 0xBFFFF 12) (shl id 6) });
    }

unfoldable pub clear_frames : ℕ → ℕ → (ℕ → Frame) → ℕ → Frame
clear_frames zero i frames = frames
clear_frames (suc k) i frames =
    clear_frames k (i + 1)
      (update frames i (record (frames i) { asid = minus_one; pte = no_entry }))

unfoldable pub open_mutexes : ℕ → ℕ → (ℕ → ℕ) → ℕ → ℕ
open_mutexes zero i sems = sems
open_mutexes (suc k) i sems = open_mutexes k (i + 1) (update sems i 1)

-- What `test` sets up before its loop over the processes. KSEGSIZE is 64.
unfoldable pub init_memory : Memory → Memory
init_memory m = record m {
  kuseg_os = fill 64 0 os_entry (record m.kuseg_os { header = table_header 64 });
  kuseg3 = fill kuseg_size 0 seg3_entry_of (record m.kuseg3 { header = table_header kuseg_size });
  frame = clear_frames swap_size 0 m.frame;
  swap = 1;
  mutex_array = open_mutexes total_sem 0 m.mutex_array;
  master = 0;
}

-- EXECTOP, and the stack of a process
abbrev pub exec_top : ℕ
exec_top = 0x20030000

abbrev pub user_stack : ℕ → ℕ
user_stack id = sub32 exec_top ((id - 1) * (2 * page_size))

-- ALLOFF | IEON | IMON | LTON
abbrev pub start_status : ℕ
start_status = 0x0800FF04

-- A state with sp and t9; the rest is what was on the stack.
abbrev pub start_state : ProcState → (asid sp pc status : ℕ) → ProcState
start_state st asid sp pc status = record st {
  asid = asid;
  pc = pc;
  status = status;
  reg = update (update st.reg 26 sp) 24 pc;
}

-- The body of the loop over the processes.
unfoldable pub start_user : World → Code → ProcState → ℕ → Cmd Support ProcState
start_user w code st id = do
  set_user id (λ u. record u { pte = user_table_of id u.pte })
  change (λ m. record m {
    seg_table =
        update m.seg_table id
          (record { kseg_os = os_table; kuseg2 = user_table id; kuseg3 = seg3_table });
  })
  let start = start_state st (shl id 6) (user_stack id) code.u_proc_init start_status
  set_user id (λ u. record u { sem_add = 0 })
  syscall w (create start)
  pure start

unfoldable pub start_users : World → Code → ℕ → (id : ℕ) → ProcState → Cmd Support (Unit {0})
start_users w code zero id st = pure tt
start_users w code (suc k) id st = do
  st' ← start_user w code st id
  start_users w code k (id + 1) st'

-- SYSCALL(PASSEREN, &masterSem), `k` times
unfoldable pub await_users : World → ℕ → Cmd Support (Unit {0})
await_users w zero = pure tt
await_users w (suc k) = syscall w (passeren master_sem) >> await_users w k

-- `test`, with what is on its stack in the two states. The ID of the daemon is not shifted.
unfoldable pub test : World → Code → (proc_state delay_state : ProcState) → Cmd Support (Unit {0})
test w code proc_state delay_state = do
  change init_memory
  start_users w code max_user_proc 1 proc_state
  on_adl Adl.init_adl
  on_avsl Avsl.init_avsl
  syscall w (
      create (
        start_state delay_state (max_user_proc + 2)
          (sub32 exec_top (max_user_proc * (2 * page_size))) code.delay_daemon start_status))
  await_users w max_user_proc
  end_process

-- ALLOFF | IMON | IEON | LTON | VMON
abbrev pub handler_status : ℕ
handler_status = 0x0A00FF04

-- The states of the handlers by trap type. The stack pointer of the program trap handler is
-- PROGTRAP, 1.
abbrev pub handler_state : Code → (id type : ℕ) → ProcState → ProcState
handler_state code id type st =
    if type == 2
    then start_state st (shl id 6) (user_stack id) code.vm_sys_handler handler_status
    else if type == 0
    then start_state st (shl id 6) (sub32 (user_stack id) page_size) code.vm_mem_handler
        handler_status
    else if type == 1
    then start_state st (shl id 6) 1 code.vm_prgm_handler handler_status
    else record st { asid = shl id 6; status = handler_status }

-- The loop over the trap types from `type` on, with SYS5 for each. NEW is 0.
unfoldable pub set_handlers : World → Code → ℕ → (id type : ℕ) → Cmd Support (Unit {0})
set_handlers w code zero id type = pure tt
set_handlers w code (suc k) id type = do
  set_state id type 0 (handler_state code id type)
  syscall w (specify type id)
  set_handlers w code k id (type + 1)

abbrev pub tape_dev : ℕ → ℕ
tape_dev id = 8 + (id - 1)

abbrev pub tape_line : ℕ
tape_line = 4

-- OSCODEEND + (asid - 1) * PAGESIZE
abbrev pub tape_buffer : ℕ → ℕ
tape_buffer id = 0x2001E000 + (id - 1) * page_size

-- A block from the tape to the buffer, and the status.
unfoldable pub read_tape : World → ℕ → Cmd Support ℕ
read_tape w id = do
  interrupts false
  set_data0 (tape_dev id) (tape_buffer id)
  set_command (tape_dev id) read_block
  status ← syscall w (wait_io tape_line (id - 1) 0)
  interrupts true
  pure status

-- The block from the buffer to the cylinder `block` of disk 0, in the sector of the process.
unfoldable pub store_block : World → (id block : ℕ) → Cmd Support (Unit {0})
store_block w id block = do
  syscall w (passeren (mutex 0))
  status ← seek w 0 block
  if status == ready
      then (transfer w 0 0 (id - 1) write_block (tape_buffer id) >>= λ _. pure tt)
      else pure tt
  syscall w (verhogen (mutex 0))
  pure tt

-- The loop of uProcInit, with the status of the tape and `finished`. The tape ends it, so that it
-- has fuel. TAPE_EOB is 2.
unfoldable pub load_loop :
    World → (fuel id status : ℕ) → Bool → (block : ℕ) → Cmd Support (Unit {0})
load_loop w zero id status finished block = λ _. out_of_fuel
load_loop w (suc k) id status finished block =
    if not (status == ready && not finished) then pure tt else do
      status' ← read_tape w id
      store_block w id block
      tape ← memory_of (λ m. m.device (tape_dev id))
      load_loop w k id status' (not (tape.data1 == 2)) (block + 1)

-- ALLOFF | IMON | IEON | VMON | KUON | LTON
abbrev pub user_status : ℕ
user_status = 0x0A00FF0C

-- uProcInit; `st` is what STST stores. SEG3 is the stack and uProcStart the start of the program.
unfoldable pub u_proc_init : World → Code → ℕ → ProcState → Cmd Support (Unit {0})
u_proc_init w code fuel st = do
  id ← get_current_asid
  set_handlers w code 3 id 0
  syscall w (passeren (mutex (tape_dev id)))
  load_loop w fuel id ready false 0
  syscall w (verhogen (mutex (tape_dev id)))
  exit (load_state (start_state st (shl id 6) 0xC0000000 0x800000B0 user_status))
