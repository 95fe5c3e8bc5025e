-- ===== src/Kernel/Syscalls.antt =====
-- The eight system calls of phase2/exceptions.c. `state` is the caller's state in the old area.
use kaya_os.Base.{
  ℕ, zero, suc, ◌-◌, ◌*◌, ◌%◌, ◌^◌, not, ◌&&◌, leb, ◌==◌, if◌then◌else◌, out_of_fuel, ProcState,
  Cmd, pure, ◌>>=◌, ◌>>◌, gets, modify,
}
use kaya_os.Base.Word.{add32, sub32, is_neg, le_zero, minus_one}
use kaya_os.Asl
use kaya_os.Pcb
use kaya_os.Pcb.{null, old_state, new_state}
use kaya_os.Kernel.{
  Kernel, total_sem, sem_address, on_asl, on_pcb, set_word, get_area, set_area, set_reg, stck,
  make_ready, save_state, load_processor,
}
use kaya_os.Kernel.Scheduler.{scheduler}

abbrev pub syscall_old_area : ℕ
syscall_old_area = 0x20000348

-- The registers v0, a0 .. a3 in s_reg.
abbrev pub v0 : ℕ
v0 = 1

abbrev pub a0 : ℕ
a0 = 3

abbrev pub a1 : ℕ
a1 = 4

abbrev pub a2 : ℕ
a2 = 5

abbrev pub a3 : ℕ
a3 = 6

-- state -> s_v0 = ...
abbrev pub give : ℕ → Cmd Kernel (Unit {0})
give v = do st ← get_area syscall_old_area; set_area syscall_old_area (set_reg st v0 v)

unfoldable pub sys_create : ProcState → Cmd Kernel (Unit {0})
sys_create state = do
  p ← on_pcb Pcb.alloc_pcb
  if p == null then give minus_one else do
    modify (λ s. record s { process_count = add32 s.process_count 1 })
    c ← gets Kernel.current
    on_pcb (Pcb.insert_child c p)
    make_ready p
    st ← get_area (state.reg a1)
    save_state st p
    give 0

-- --(*mutex) and ++(*mutex), with the new value.
unfoldable pub decrement : ℕ → Cmd Kernel ℕ
decrement mutex = do
  w ← gets Kernel.word
  set_word mutex (sub32 (w mutex) 1)
  pure (sub32 (w mutex) 1)

unfoldable pub increment : ℕ → Cmd Kernel ℕ
increment mutex = do
  w ← gets Kernel.word
  set_word mutex (add32 (w mutex) 1)
  pure (add32 (w mutex) 1)

unfoldable pub sys_signal : ProcState → Cmd Kernel (Unit {0})
sys_signal state = do
  let mutex = state.reg a1
  v ← increment mutex
  if not (le_zero v) then pure tt else do
    p ← on_asl (Asl.remove_blocked mutex)
    if p == null
        then pure tt
        else do on_pcb (Pcb.update p (λ c. record c { sem_add = null })); make_ready p

unfoldable pub sys_wait : ProcState → Cmd Kernel (Unit {0})
sys_wait state = do
  let mutex = state.reg a1
  v ← decrement mutex
  if not (is_neg v) then pure tt else do
    c ← gets Kernel.current
    save_state state c
    on_asl (Asl.insert_blocked mutex c)
    scheduler

unfoldable pub sys_wait_for_clock : ProcState → Cmd Kernel (Unit {0})
sys_wait_for_clock state = do
  mutex ← gets (λ s. sem_address s (total_sem - 1))
  v ← decrement mutex
  if not (is_neg v) then scheduler else do
    c ← gets Kernel.current
    on_asl (Asl.insert_blocked mutex c)
    save_state state c
    modify (λ s. record s { soft_block_count = add32 s.soft_block_count 1 })
    scheduler

-- The index of the semaphore of a device, in 32-bit arithmetic.
unfoldable pub device_index : (line device is_write : ℕ) → ℕ
device_index line device is_write = add32 (add32 (sub32 line 3) is_write * 8 % 2 ^ 32) device

unfoldable pub sys_wait_io : ProcState → Cmd Kernel (Unit {0})
sys_wait_io state = do
  let i = device_index (state.reg a1) (state.reg a2) (state.reg a3)
  mutex ← gets (λ s. sem_address s i % 2 ^ 32)
  v ← decrement mutex
  if not (is_neg v) then pure tt else do
    c ← gets Kernel.current
    save_state state c
    on_asl (Asl.insert_blocked mutex c)
    modify (λ s. record s { soft_block_count = add32 s.soft_block_count 1 })
    scheduler

unfoldable pub sys_get_cpu_time : ProcState → Cmd Kernel (Unit {0})
sys_get_cpu_time state = do
  c ← gets Kernel.current
  save_state state c
  t ← stck
  modify (λ s. record s { current_tod = t })
  started ← gets Kernel.tod_started
  on_pcb (Pcb.update c (λ b. record b { time = add32 b.time (sub32 t started) }))
  on_pcb (Pcb.update c (λ b. record b { state = set_reg b.state v0 b.time }))
  t' ← stck
  modify (λ s. record s { tod_started = t' })
  b ← on_pcb (Pcb.load c)
  load_processor b.state

-- The last part of executeOrderSixtySix: `proc` has no children left.
unfoldable pub bury : ℕ → Cmd Kernel (Unit {0})
bury proc = do
  c ← gets Kernel.current
  if c == proc then (on_pcb (Pcb.out_child proc) >>= λ _. pure tt) else pure tt
  b ← on_pcb (Pcb.load proc)
  if b.sem_add == null
      then (do
        q ← gets Kernel.ready
        (_, t) ← on_pcb (Pcb.out_proc_q q proc)
        modify (λ s. record s { ready = t }))
      else do
        on_asl (Asl.out_blocked proc)
        first ← gets (λ s. sem_address s 0)
        last ← gets (λ s. sem_address s total_sem)
        if leb first b.sem_add && leb b.sem_add last
            then modify (λ s. record s { soft_block_count = sub32 s.soft_block_count 1 })
            else (do increment b.sem_add; pure tt)
  on_pcb (Pcb.free_pcb proc)
  modify (λ s. record s { process_count = sub32 s.process_count 1 })

-- executeOrderSixtySix and its loop over the children. Each call kills a process, and each round
-- of a loop takes a child off its list, so that the fuel counts at most two for each process.
unfoldable mutual
  pub execute_order_66 : ℕ → ℕ → Cmd Kernel (Unit {0})
  execute_order_66 zero proc = λ _. out_of_fuel
  execute_order_66 (suc k) proc = kill_children k proc >> bury proc

  pub kill_children : ℕ → ℕ → Cmd Kernel (Unit {0})
  kill_children zero proc = λ _. out_of_fuel
  kill_children (suc k) proc = do
    none ← on_pcb (Pcb.empty_child proc)
    if none
        then pure tt
        else do c ← on_pcb (Pcb.remove_child proc); execute_order_66 k c; kill_children k proc

-- 2 * MAXPROC + 2
abbrev pub kill_fuel : ℕ
kill_fuel = 42

unfoldable pub sys_terminate : Cmd Kernel (Unit {0})
sys_terminate = do c ← gets Kernel.current; execute_order_66 kill_fuel c; scheduler

-- pcb_states[type][column] = v
abbrev pub set_handler : (ℕ → ℕ → ℕ) → (type column v : ℕ) → ℕ → ℕ → ℕ
set_handler t type column v i j = if i == type && j == column then v else t i j

-- SYS5. The type is used as an index as it comes from the caller.
unfoldable pub sys_byol : ProcState → Cmd Kernel (Unit {0})
sys_byol state = do
  let type = state.reg a1
  c ← gets Kernel.current
  b ← on_pcb (Pcb.load c)
  if b.states type new_state == null then pure tt else sys_terminate
  on_pcb
      (Pcb.update c (λ d. record d { states = set_handler d.states type old_state (state.reg a2) }))
  on_pcb
      (Pcb.update c (λ d. record d { states = set_handler d.states type new_state (state.reg a3) }))
