-- ===== src/Kernel/Initial.antt =====
-- phase2/initial.c: what `main` sets up before it calls the scheduler.
use kaya_os.Base.{ℕ, zero, suc, ◌+◌, ProcState, Cmd, pure, ◌>>=◌, ◌>>◌, gets, modify}
use kaya_os.Base.Word.{add32, sub32}
use kaya_os.Asl
use kaya_os.Pcb
use kaya_os.Pcb.{null, mk_empty_proc_q}
use kaya_os.Kernel.{
  Kernel, total_sem, sem_address, on_asl, on_pcb, set_word, get_area, set_area, set_reg, make_ready,
}
use kaya_os.Kernel.Scheduler.{scheduler}
use kaya_os.Kernel.Interrupts.{interval}

-- The registers sp and t9 in s_reg.
abbrev pub sp : ℕ
sp = 26

abbrev pub t9 : ℕ
t9 = 24

-- IEON | IMON | LTON
abbrev pub first_status : ℕ
first_status = 0x0800FF04

-- The addresses of the four handlers and of `test`, as the linker places them.
pub record Code : Type 0 where
  pub sys_call_handler : ℕ
  pub pbg_trap_handler : ℕ
  pub tlb_trap_handler : ℕ
  pub io_trap_handler : ℕ
  pub test : ℕ

abbrev pub syscall_new_area : ℕ
syscall_new_area = 0x200003D4

abbrev pub pbgtrap_new_area : ℕ
pbgtrap_new_area = 0x200002BC

abbrev pub tlbmgmt_new_area : ℕ
tlbmgmt_new_area = 0x200001A4

abbrev pub interrupt_new_area : ℕ
interrupt_new_area = 0x2000008C

-- One of the four new areas.
unfoldable pub set_new_area : (area handler : ℕ) → Cmd Kernel (Unit {0})
set_new_area area handler = do
  top ← gets Kernel.ramtop
  st ← get_area area
  set_area area (record (set_reg (set_reg st sp top) t9 handler) { pc = handler; status = 0 })

-- The loop over the device semaphores from `i` on.
unfoldable pub clear_semaphores : ℕ → ℕ → Cmd Kernel (Unit {0})
clear_semaphores zero i = pure tt
clear_semaphores (suc k) i = do
  a ← gets (λ s. sem_address s i)
  set_word a 0
  clear_semaphores k (i + 1)

unfoldable pub init_globals : Cmd Kernel (Unit {0})
init_globals = do
  modify (λ s. record s {
    ready = mk_empty_proc_q;
    current = null;
    process_count = 0;
    soft_block_count = 0;
  })
  clear_semaphores total_sem 0
  on_pcb Pcb.init_pcbs
  on_asl Asl.init_asl

-- The state in which the first process starts.
abbrev pub first_state : (ramtop test : ℕ) → ProcState → ProcState
first_state ramtop test st = record (set_reg (set_reg st sp (sub32 ramtop 4096)) t9 test) {
  pc = test;
  status = first_status;
}

unfoldable pub first_process : ℕ → Cmd Kernel (Unit {0})
first_process test = do
  p ← on_pcb Pcb.alloc_pcb
  modify (λ s. record s { current = p })
  top ← gets Kernel.ramtop
  on_pcb (Pcb.update p (λ c. record c { state = first_state top test c.state }))
  modify (λ s. record s { process_count = add32 s.process_count 1 })
  make_ready p
  modify (λ s. record s { current = null; interval_timer = interval })

unfoldable pub main : Code → Cmd Kernel (Unit {0})
main code = do
  set_new_area syscall_new_area code.sys_call_handler
  set_new_area pbgtrap_new_area code.pbg_trap_handler
  set_new_area tlbmgmt_new_area code.tlb_trap_handler
  set_new_area interrupt_new_area code.io_trap_handler
  init_globals
  first_process code.test
  scheduler
