-- ===== src/Support.antt =====
-- The support level of phase 3: the globals of phase3/initProc.c, and the primitives that
-- phase3/vmIOsupport.c and phase3/initProc.c use. Its functions are in the modules below.
--
-- What libumps and the nucleus do behind SYSCALL is a parameter, the World: it answers each call,
-- and it is free to change the memory and the devices while the call lasts, as the other processes
-- and the hardware do. Every call, write of a device command, write of the status register and
-- flush of the TLB is kept in a trace, the last one first.
pub mod Calls
pub mod Devices
pub mod Frames
pub mod Output
pub mod Pager
pub mod Reading
pub mod Start
pub mod Trace
pub mod Pool
pub mod Serve
pub mod Sleep
pub mod Virtual
pub mod Evict
pub mod Disks
pub mod Copy
pub mod Ending
pub mod Setup
pub mod Faults
pub mod Paging
pub mod Orders
pub mod Printing
pub mod Daemon
mod Tests
mod Scenarios
use kaya_os.Base.{
  ℕ, ◌+◌, ◌-◌, ◌*◌, zero, suc, Bool, true, false, ◌&&◌, ltb, leb, ◌==◌, if◌then◌else◌, List, [],
  ◌∷◌, ProcState, Exit, killed, panic, ok, exit, fault, Cmd, pure, ◌>>=◌, ◌>>◌, gets, modify, lift,
}
use Prim.Native.Nat.{bit_and, bit_or}
use kaya_os.Base.Word.{shr}
use kaya_os.Adl.{Adl}
use kaya_os.Avsl.{Avsl}
use kaya_os.Kernel.{Device, update}

-- MAXUSERPROC, KUSEGSIZE, SWAPSIZE and PAGESIZE of const.h
abbrev pub max_user_proc : ℕ
max_user_proc = 1

abbrev pub kuseg_size : ℕ
kuseg_size = 32

abbrev pub swap_size : ℕ
swap_size = 16

abbrev pub page_size : ℕ
page_size = 4096

-- `pteEntry_t`
pub record PteEntry : Type 0 where
  pub entry_hi : ℕ
  pub entry_lo : ℕ

-- `pte_t` and `pteOS_t`
pub record PageTable : Type 0 where
  pub header : ℕ
  pub entry : ℕ → PteEntry

-- A `pteEntry_t *`: NULL, an entry of kuSeg3, or an entry of the table of a process, by its ID.
pub data PtePtr : Type 0 where
  no_entry : PtePtr
  seg3_entry : (page : ℕ) → PtePtr
  user_entry : (id page : ℕ) → PtePtr

-- `swap_t`
pub record Frame : Type 0 where
  pub asid : ℕ
  pub page : ℕ
  pub seg : ℕ
  pub pte : PtePtr

-- `uProc_t`: the states by trap type and OLD or NEW, and the private semaphore.
pub record UProc : Type 0 where
  pub states : ℕ → ℕ → ProcState
  pub sem_add : ℕ
  pub pte : PageTable

-- `segTbl_t`: where its three pointers lead.
pub data Table : Type 0 where
  no_table os_table seg3_table : Table
  user_table : (id : ℕ) → Table

pub record SegTable : Type 0 where
  pub kseg_os : Table
  pub kuseg2 : Table
  pub kuseg3 : Table

-- The semaphores of phase 3, whose addresses the system calls take: `swap`, `masterSem`,
-- `mutexArray[i]`, and the private semaphore of a process.
pub data Sem : Type 0 where
  swap_sem master_sem : Sem
  mutex : (i : ℕ) → Sem
  private_sem : (id : ℕ) → Sem

-- SYSCALL by its number, and the other effects on the machine.
pub data Event : Type 0 where
  passeren verhogen : Sem → Event
  wait_io : (line dev is_read : ℕ) → Event
  create : ProcState → Event
  specify : (type id : ℕ) → Event
  wait_clock read_clock clear_tlb terminate : Event
  set_status : ℕ → Event
  command : (dev value data0 : ℕ) → Event
  transmit : (dev value : ℕ) → Event

-- What the processes share: the globals, the memory by address, the device registers, and the
-- delay list and the list of virtual semaphores. `user` is uProcs by the ID of the process, which
-- is its index and one, and `seg_table` the tables at SEGTBLSTART by the ID.
pub record Memory : Type 0 where
  pub user : ℕ → UProc
  pub kuseg_os : PageTable
  pub kuseg3 : PageTable
  pub seg_table : ℕ → SegTable
  pub frame : ℕ → Frame
  pub next_frame : ℕ
  pub swap : ℕ
  pub mutex_array : ℕ → ℕ
  pub master : ℕ
  pub word : ℕ → ℕ
  pub byte : ℕ → ℕ
  pub device : ℕ → Device
  pub ramtop : ℕ
  pub adl : Adl
  pub avsl : Avsl

-- A process at the support level: the memory, its status and ENTRYHI registers, and the trace.
pub record Support : Type 0 where
  pub memory : Memory
  pub status : ℕ
  pub entry_hi : ℕ
  pub trace : List Event

-- What a call returns, and what becomes of the memory meanwhile, by the trace so far.
pub record World : Type 0 where
  pub answer : List Event → ℕ
  pub others : List Event → Memory → Memory

-- SYSCALL of a call that returns.
unfoldable pub syscall : World → Event → Cmd Support ℕ
syscall w e s =
    let t = e ∷ s.trace in ok (w.answer t) (record s { memory = w.others t s.memory; trace = t })

-- SYSCALL(TERMINATE_PROCESS, 0, 0, 0)
unfoldable pub end_process : {A : Type 0} → Cmd Support A
end_process s = exit killed (record s { trace = terminate ∷ s.trace })

-- STCK
unfoldable pub stck : World → Cmd Support ℕ
stck w s = let t = read_clock ∷ s.trace in ok (w.answer t) (record s { trace = t })

abbrev pub log : Event → Cmd Support (Unit {0})
log e = modify (λ s. record s { trace = e ∷ s.trace })

abbrev pub tlbclr : Cmd Support (Unit {0})
tlbclr = log clear_tlb

abbrev pub memory_of : {A : Type 0} → (Memory → A) → Cmd Support A
memory_of f = gets (λ s. f s.memory)

abbrev pub change : (Memory → Memory) → Cmd Support (Unit {0})
change f = modify (λ s. record s { memory = f s.memory })

abbrev pub on_adl : {A : Type 0} → Cmd Adl A → Cmd Support A
on_adl = lift (λ s. s.memory.adl) (λ t s. record s { memory = record s.memory { adl = t } })

abbrev pub on_avsl : {A : Type 0} → Cmd Avsl A → Cmd Support A
on_avsl = lift (λ s. s.memory.avsl) (λ t s. record s { memory = record s.memory { avsl = t } })

-- uProcs[ID - 1]
abbrev pub is_user : ℕ → Bool
is_user id = ltb 0 id && leb id max_user_proc

unfoldable pub get_user : ℕ → Cmd Support UProc
get_user id s = if is_user id then ok (s.memory.user id) s else fault

unfoldable pub set_user : ℕ → (UProc → UProc) → Cmd Support (Unit {0})
set_user id f = λ s.
    if is_user id
    then ok tt (record s {
      memory = record s.memory { user = update s.memory.user id (f (s.memory.user id)) };
    })
    else fault

abbrev pub two : {A : Type 0} → (ℕ → ℕ → A) → ℕ → ℕ → A → ℕ → ℕ → A
two f i j v k l = if i == k && j == l then v else f k l

-- A write to the state uProcs[ID - 1].uProc_states[type][which].
abbrev pub set_state : (id type which : ℕ) → (ProcState → ProcState) → Cmd Support (Unit {0})
set_state id type which f =
    set_user id (λ u. record u { states = two u.states type which (f (u.states type which)) })

abbrev pub set_v0 : (id type which v : ℕ) → Cmd Support (Unit {0})
set_v0 id type which v = set_state id type which (λ st. record st { reg = update st.reg 1 v })

-- A write to a page table entry through a pointer.
abbrev pub set_entry : PageTable → ℕ → (PteEntry → PteEntry) → PageTable
set_entry t page f = record t { entry = update t.entry page (f (t.entry page)) }

unfoldable pub set_pte : PtePtr → (PteEntry → PteEntry) → Cmd Support (Unit {0})
set_pte no_entry f = λ _. fault
set_pte (seg3_entry page) f = change (λ m. record m { kuseg3 = set_entry m.kuseg3 page f })
set_pte (user_entry id page) f = set_user id (λ u. record u { pte = set_entry u.pte page f })

abbrev pub set_frame : ℕ → (Frame → Frame) → Cmd Support (Unit {0})
set_frame i f = change (λ m. record m { frame = update m.frame i (f (m.frame i)) })

-- d_command = value, and d_data0 = value
unfoldable pub set_command : (dev value : ℕ) → Cmd Support (Unit {0})
set_command dev value = do
  d ← memory_of (λ m. m.device dev)
  change (λ m. record m { device = update m.device dev (record d { command = value }) })
  log (command dev value d.data0)

unfoldable pub set_data0 : (dev value : ℕ) → Cmd Support (Unit {0})
set_data0 dev value =
    change
      (λ m. record m { device = update m.device dev (record (m.device dev) { data0 = value }) })

-- getCurrentASID
unfoldable pub get_current_asid : Cmd Support ℕ
get_current_asid = do e ← gets Support.entry_hi; pure (shr (bit_and e 0xFC0) 6)

-- Interrupts
unfoldable pub interrupts : Bool → Cmd Support (Unit {0})
interrupts on = do
  status ← gets Support.status
  let new = if on then bit_or status 1 else bit_and status 0xFFFFFFFE
  modify (λ s. record s { status = new; trace = set_status new ∷ s.trace })

-- The rounds of the loop of copy, a word each.
unfoldable pub copy_loop : ℕ → (from to : ℕ) → (ℕ → ℕ) → ℕ → ℕ
copy_loop zero from to word = word
copy_loop (suc k) from to word = copy_loop k (from + 4) (to + 4) (update word to (word from))

-- copy: PAGESIZE / WORDLEN words.
unfoldable pub copy : (from to : ℕ) → Cmd Support (Unit {0})
copy from to = change (λ m. record m { word = copy_loop 1024 from to m.word })
