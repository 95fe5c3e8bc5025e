-- ===== src/Kernel/Busy.antt =====
-- A small state of the nucleus that the theorems about it are applied at.
use kaya_os.Base.{ℕ, ◌+◌, ◌*◌, ◌-◌, ◌^◌, refl, List, [], ◌∷◌, arith, ◌==◌, if◌then◌else◌}
use kaya_os.Pcb.{null, Pcb}
use kaya_os.Pcb.Tests.{blank, blank_state}
use kaya_os.Pcb.Queue.{IsProcQ, filled}
use kaya_os.Asl.{Semd, zero_node, max_node, max_int}
use kaya_os.Asl.Chain.{Entry, IsAsl}
use kaya_os.Asl.Blocking.{IsBlocking}
use kaya_os.Kernel.{Kernel}
use kaya_os.Kernel.Nucleus.{Jobs, IsNucleus, IsAlone}

-- The block 2 runs, 11 is free, 9 is ready, 3 waits for a device, and 5 and 7 wait for the clock.
abbrev pub blocks : ℕ → Pcb
blocks a =
    if a == 3
    then record blank { next = 3; prev = 3; sem_add = 8224 }
    else if a == 5
    then record blank { next = 7; prev = 7; sem_add = 8384 }
    else if a == 7
    then record blank { next = 5; prev = 5; sem_add = 8384 }
    else if a == 9
    then record blank { next = 9; prev = 9 }
    else if a == 2
    then record blank { child = null; parent = null; sem_add = null }
    else if a == 11
    then record blank { next = null }
    else blank

abbrev table : ℕ → Semd
table s =
    if s == zero_node
    then record { next = 1; sem_add = 0; proc_q = null }
    else if s == 1
    then record { next = 2; sem_add = 8224; proc_q = 3 }
    else if s == 2
    then record { next = max_node; sem_add = 8384; proc_q = 7 }
    else if s == 20
    then record { next = null; sem_add = null; proc_q = null }
    else if s == max_node
    then record { next = null; sem_add = max_int; proc_q = null }
    else record { next = s + 1; sem_add = null; proc_q = null }

-- The interrupt that is pending is of the device 0 of the line 4.
abbrev pub busy : Kernel
busy = record {
  asl = record {
    pcbs = record { cell = blocks; free = 11 };
    cell = table;
    free = 3;
    active = zero_node;
  };
  process_count = 5;
  soft_block_count = 3;
  current = 2;
  ready = 9;
  sem_base = 8192;
  word = λ a. if a == 8224 then 2 ^ 32 - 1 else if a == 8384 then 2 ^ 32 - 2 else 0;
  area = λ a. record blank_state { cause = 0x1000 };
  tod = λ n. 1000 + 10 * n;
  readings = 0;
  current_tod = 0;
  tod_started = 900;
  tod_stopped = 0;
  timer = 0;
  interval_timer = 0;
  status = 0;
  ramtop = 0x20010000;
  device = λ i. record { status = 0; command = 0; data0 = 0; data1 = 0 };
  interrupt_dev = λ line. if line == 1 then 1 else 0;
}

abbrev pub queues : ℕ → List ℕ
queues k = if k == 8224 then 3 ∷ [] else if k == 8384 then 5 ∷ 7 ∷ [] else []

abbrev pub jobs : Jobs
jobs = record { count = busy.word; queues = queues; ready = 9 ∷ []; current = 2 }

abbrev free_ones : List ℕ
free_ones = 3 ∷ 4 ∷ 5 ∷ 6 ∷ 7 ∷ 8 ∷ 9 ∷ 10 ∷ 11 ∷ 12 ∷ 13 ∷ 14 ∷ 15 ∷ 16 ∷ 17 ∷ 18 ∷ 19 ∷ 20 ∷ []

abbrev device_entry : Entry
device_entry = record { at = 1; key = 8224; queue = 3 ∷ [] }

abbrev clock_entry : Entry
clock_entry = record { at = 2; key = 8384; queue = 5 ∷ 7 ∷ [] }

three-IsProcQ : IsProcQ busy.asl.pcbs 3 (3 ∷ [])
three-IsProcQ = filled [] refl (ground arith)

five-IsProcQ : IsProcQ busy.asl.pcbs 7 (5 ∷ 7 ∷ [])
five-IsProcQ = filled (5 ∷ []) refl (ground arith)

pub nine-IsProcQ : IsProcQ busy.asl.pcbs 9 (9 ∷ [])
nine-IsProcQ = filled [] refl (ground arith)

busy-IsAsl : IsAsl busy.asl (device_entry ∷ clock_entry ∷ []) free_ones
busy-IsAsl = record {
  head = refl;
  chain =
      (refl, (ground arith, refl, three-IsProcQ), (refl, (ground arith, refl, five-IsProcQ), refl));
  top = (refl, refl);
  sorted = ground arith;
  stack = ground arith;
  nodes = ground arith;
  blocked = ground arith;
  busy = ground arith;
  told = ground arith;
}

pub busy-IsBlocking : IsBlocking busy.asl queues
busy-IsBlocking = record {
  entries = device_entry ∷ clock_entry ∷ [];
  frees = free_ones;
  list = busy-IsAsl;
  total = refl;
  queues = λ k. refl;
}

pub busy-IsNucleus : IsNucleus busy jobs
busy-IsNucleus = record {
  counts = refl;
  blocking = busy-IsBlocking;
  queue = nine-IsProcQ;
  apart = λ q i k. ground arith;
  runs = refl;
}

pub jobs-IsAlone : IsAlone jobs
jobs-IsAlone = (refl, λ k. ground arith)
