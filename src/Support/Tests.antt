-- ===== src/Support/Tests.antt =====
-- The theorems about phase 3 at a small state.
use kaya_os.Base.{
  ℕ, ◌<◌, ◌≡◌, ◌≢◌, refl, Bool-cases, ==-sound, inl, inr, true, false, ◌==◌, if◌then◌else◌, List,
  [], ◌∷◌, arith, ok, Returns, Leaves, ◌>>◌,
}
use Prim.Native.Nat.{bit_and}
use kaya_os.Base.Word.{shr}
use kaya_os.Pcb.Tests.{blank_state}
use kaya_os.Support.{
  swap_size, max_user_proc, change, copy, seg3_entry, user_entry, PtePtr, PteEntry, PageTable,
  no_entry, no_table, Memory, Support, World, Event,
}
use kaya_os.Support.Devices.{disk_io, read_terminal, write_printer, write_terminal}
use kaya_os.Support.Frames.{spins, turned, spin_the_bottle-turn, user_table_of-page}
use kaya_os.Support.Pager.{
  valid_dirty, swap_address, segment_of, page_of, clamp_page, me_irl, vm_mem_handler,
}
use kaya_os.Support.Start.{user_table_of, Code, init_memory, start_users}
use kaya_os.Support.Trace.{IsPrivate}
use kaya_os.Support.Copy.{moved, copy-moved}
use kaya_os.Support.Pool.{pool, lo_of, IsEntry, is_valid, same_ptr, is_used, IsPool}
use kaya_os.Support.Paging.{IsAlone}
use kaya_os.Support.Faults.{Handled, vm_mem_handler-Handled}
use kaya_os.Support.Ending.{Ended, me_irl-Ended}
use kaya_os.Support.Disks.{DiskOutcome, disk_io-DiskOutcome}
use kaya_os.Support.Setup.{start_users-IsPool}
use kaya_os.Support.Printing.{
  PrinterOutput, TerminalOutput, write_printer-Output, write_terminal-Output,
}
use kaya_os.Support.Reading.{reads, IsTyping, IsLine, Heard, read_terminal-Heard}

abbrev blank_table : PageTable
blank_table = record { header = 0; entry = λ i. record { entry_hi = 0; entry_lo = 0 } }

-- "KAYA" is at the address 0x80000100, and the frame 15 was the last to be given out.
abbrev pub memory : Memory
memory = record {
  user = λ id. record { states = λ type which. blank_state; sem_add = 0; pte = blank_table };
  kuseg_os = blank_table;
  kuseg3 = blank_table;
  seg_table = λ id. record { kseg_os = no_table; kuseg2 = no_table; kuseg3 = no_table };
  frame = λ i. record { asid = 0xFFFFFFFF; page = 0; seg = 0; pte = no_entry };
  next_frame = 15;
  swap = 1;
  mutex_array = λ i. 1;
  master = 0;
  word = λ a. 0;
  byte = λ a.
      if a == 0x80000101
      then 0x41
      else if a == 0x80000102
      then 0x59
      else if a == 0x80000103
      then 0x41
      else 0x4B;
  device = λ i. record { status = 1; command = 0; data0 = 0; data1 = 0 };
  ramtop = 0x20100000;
  adl = record { cell = λ d. record { next = 0; wake_time = 0; asid = 0 }; free = 0; active = 0 };
  avsl = record {
    cell = λ v. record { next = 0; prev = 0; sem = 0; asid = 0 };
    head = 0;
    free = 0;
  };
}

abbrev pub support : Support
support = record { memory = memory; status = 0x8000007; entry_hi = 0x80000040; trace = [] }

-- Each call gives the same answer, and nothing else happens meanwhile.
abbrev pub constant : ℕ → World
constant answer = record { answer = λ t. answer; others = λ t m. m }

constant-IsPrivate : (answer : ℕ) → IsPrivate (constant answer)
constant-IsPrivate answer = record { bytes = λ t m a. refl; users = λ t m id. refl }

spin_the_bottle-turn_example :
    (spins 3 support ≡ ok 2 (turned support 2))
    × (2 < swap_size)
    × (0 < 3 → 3 < swap_size → ◌≢◌ {A = ℕ} 2 15)
spin_the_bottle-turn_example = spin_the_bottle-turn support 3 (omega arith)

-- The last page, which is the stack.
user_table_of-page_example :
    let e = (user_table_of 1 blank_table).entry 31 in
    (segment_of e.entry_hi ≡ 2)
    × (clamp_page (page_of e.entry_hi) ≡ 31)
    × (shr (bit_and e.entry_hi 0xFC0) 6 ≡ 1)
    × (e.entry_lo ≡ 0x400)
user_table_of-page_example = user_table_of-page 1 31 blank_table (omega arith) (omega arith)

write_printer-Output_example :
    Returns
      (λ _. PrinterOutput 1 support 0x80000100 4)
      (write_printer (constant 1) 0x80000100 4 1 support)
write_printer-Output_example =
    write_printer-Output (constant 1) 0x80000100 4 1 support (constant-IsPrivate 1) (λ t. refl) refl
      tt

write_terminal-Output_example :
    Returns
      (λ _. TerminalOutput 1 support 0x80000100 4)
      (write_terminal (constant 5) 0x80000100 4 1 support)
write_terminal-Output_example =
    write_terminal-Output (constant 5) 0x80000100 4 1 support (constant-IsPrivate 5) (λ t. refl)
      refl tt

-- Two times the letter A, and the end of the line.
abbrev keys : ℕ → ℕ
keys n = if n == 2 then 0x0A else 0x41

abbrev type_key : List Event → ℕ
type_key [] = 0
type_key (e ∷ t) = if reads 1 t == 2 then 0x0A05 else 0x4105

abbrev typing : World
typing = record { answer = type_key; others = λ t m. m }

typing-IsTyping : IsTyping typing 1 keys
typing-IsTyping t = elim (Bool-cases (reads 1 t == 2)) [
  | inl h ↦ rw h (refl, refl)
  | inr h ↦ rw h (refl, refl)
]

keys-IsLine : IsLine keys 0 2
keys-IsLine = record { ends = refl; before = λ i lt. ground arith }

read_terminal-Heard_example :
    Returns (λ _. Heard support keys 0x80000200 2 1) (read_terminal typing 3 0x80000200 1 support)
read_terminal-Heard_example =
    read_terminal-Heard typing keys 3 0x80000200 2 1 support
      (record { bytes = λ t m a. refl; users = λ t m id. refl }) typing-IsTyping keys-IsLine
      (omega arith) refl tt

constant-IsAlone : (answer : ℕ) → IsAlone (constant answer)
constant-IsAlone answer t m = refl

copy-moved_example :
    copy 0x2001E000 0x80001000 support
    ≡ ok tt (record support {
      memory = record memory { word = moved 1024 0x2001E000 0x80001000 memory.word };
    })
copy-moved_example = copy-moved 0x2001E000 0x80001000 support (inr (omega arith))

abbrev code : Code
code = record {
  u_proc_init = 0x20001000;
  vm_sys_handler = 0x20002000;
  vm_mem_handler = 0x20003000;
  vm_prgm_handler = 0x20004000;
  delay_daemon = 0x20005000;
}

start_users-IsPool_example :
    Returns
      (λ _ g.
        IsPool (pool g.memory) × ((i : ℕ) → i < swap_size → is_used (g.memory.frame i) ≡ false))
      ((change init_memory >> start_users (constant 0) code max_user_proc 1 blank_state) support)
start_users-IsPool_example =
    start_users-IsPool (constant 0) code blank_state support (constant-IsAlone 0)

-- The page 5 of the process 1 is in the frame 0, which is the next to be given out, and the process
-- misses the page 3.
abbrev loaded : PteEntry
loaded = record { entry_hi = 0x80005040; entry_lo = valid_dirty (swap_address 0x20100000 0) }

abbrev missing : Support
missing = record support {
  memory = record memory {
    user = λ id. record {
      states = λ type which. record blank_state { cause = 8; asid = 0x80003040 };
      sem_add = 0;
      pte = record {
        header = 0;
        entry = λ i. if i == 5 then loaded else record { entry_hi = 0; entry_lo = 0 };
      };
    };
    frame = λ i.
        if i == 0
        then record { asid = 1; page = 5; seg = 2; pte = user_entry 1 5 }
        else record { asid = 0xFFFFFFFF; page = 0; seg = 0; pte = no_entry };
  };
}

-- a frame in use is the frame 0
used-first : (i : ℕ) → is_used (missing.memory.frame i) ≡ true → i ≡ 0
used-first i u = elim (Bool-cases (i == 0)) [
  | inl h ↦ ==-sound i 0 h
  | inr h ↦ absurd (ground (arith, (rw h at u)))
]

missing-backed :
    (q : PtePtr)
    → IsEntry q
    → is_valid (lo_of (pool missing.memory) q) ≡ true
    → (i : ℕ) × (i < swap_size)
      × (is_used (missing.memory.frame i) ≡ true)
      × (same_ptr q (missing.memory.frame i).pte ≡ true)
missing-backed no_entry v valid = absurd v
missing-backed (seg3_entry i) v valid = absurd (ground (arith, valid))
missing-backed (user_entry id i) (u, lt) valid = elim (Bool-cases (i == 5)) [
  | inl h ↦ (0, omega arith, refl, ground (arith, u))
  | inr h ↦ absurd (ground (arith, (rw (h, lo_of) at valid)))
]

missing-IsPool : IsPool (pool missing.memory)
missing-IsPool = record {
  entries = λ i lt u. rw (used-first i u) (refl, omega arith);
  maps = λ i lt u. rw (used-first i u) refl;
  apart = λ i j li lj ne u u'. absurd (ground (arith, used-first i u, used-first j u'));
  backed = missing-backed;
}

vm_mem_handler-Handled_example : Leaves (Handled missing) (vm_mem_handler (constant 1) missing)
vm_mem_handler-Handled_example =
    vm_mem_handler-Handled (constant 1) missing (constant-IsAlone 1) (λ t. refl) missing-IsPool refl
      refl (λ i lt u. rw (used-first i u) refl)

me_irl-Ended_example : Leaves (Ended missing 1) (me_irl (constant 1) 1 missing)
me_irl-Ended_example = me_irl-Ended (constant 1) 1 missing (constant-IsAlone 1) missing-IsPool refl

-- A write to the disk 1 from the address 0x80001000.
disk_io-DiskOutcome_example :
    Leaves (DiskOutcome missing 0x80001000 1 1) (disk_io (constant 1) 0x80001000 1 20 4 1 missing)
disk_io-DiskOutcome_example =
    disk_io-DiskOutcome (constant 1) 0x80001000 1 20 4 1 missing (constant-IsAlone 1) missing-IsPool
      refl
