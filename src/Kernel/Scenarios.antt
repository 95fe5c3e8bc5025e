-- ===== src/Kernel/Scenarios.antt =====
-- The theorems about the nucleus as a whole at small states.
use kaya_os.Base.{
  ◌∈◌, inl, inr, true, false, ℕ, ◌≡◌, refl, [], ◌∷◌, arith, ◌==◌, if◌then◌else◌, Returns, Leaves,
  ProcState, out_of_fuel,
}
use kaya_os.Pcb.{null}
use kaya_os.Pcb.Tests.{blank_state}
use kaya_os.Asl.{insert_blocked, remove_blocked, out_blocked}
use kaya_os.Asl.Blocking.{Enqueued, insert_blocked-Enqueued}
use kaya_os.Asl.Waking.{Freed, remove_blocked-Freed, out_blocked-Freed}
use kaya_os.Kernel.{Kernel}
use kaya_os.Kernel.Scheduler.{scheduler}
use kaya_os.Kernel.Interrupts.{io_trap_handler, interval_timer, wake_loop}
use kaya_os.Kernel.Syscalls.{sys_wait_io, sys_wait_for_clock}
use kaya_os.Kernel.Exceptions.{sys_call_handler}
use kaya_os.Kernel.Nucleus.{IsNucleus, same-IsNucleus, Scheduled, scheduler-Scheduled}
use kaya_os.Kernel.Saved.{Switched}
use kaya_os.Kernel.Signal.{signal}
use kaya_os.Kernel.Block.{
  counted, block, sys_wait_io-Waits, ClockWaits, sys_wait_for_clock-ClockWaits,
}
use kaya_os.Kernel.Preempt.{preempted}
use kaya_os.Kernel.DeviceInterrupt.{acknowledged, io_trap_handler-Switched}
use kaya_os.Kernel.Tick.{ticked, interval_timer-Switched, wake_loop-endless}
use kaya_os.Kernel.Initial.{Code, main}
use kaya_os.Kernel.Boot.{Started, main-Started}
use kaya_os.Kernel.Calls.{GoesOn, signal_call-GoesOn, wait_call-CallWaits}
use kaya_os.Kernel.Death.{Died, terminate_call-Died}
use kaya_os.Kernel.CallCreate.{IsUnused, Creates, create_call-Creates}
use kaya_os.Pcb.FreeList.{IsFree}
use kaya_os.Pcb.Children.{HasChildren}
use kaya_os.Kernel.PassUp.{PassedUp, trapped, user_call-PassedUp}
use kaya_os.Kernel.Busy.{
  blocks, busy, queues, jobs, nine-IsProcQ, busy-IsBlocking, busy-IsNucleus, jobs-IsAlone,
}

insert_blocked-Enqueued_example :
    Returns (Enqueued queues 8300 2 busy.asl) (insert_blocked 8300 2 busy.asl)
insert_blocked-Enqueued_example =
    insert_blocked-Enqueued 8300 2 busy-IsBlocking (ground arith) refl (λ k. ground arith)

remove_blocked-Freed_example :
    Returns (Freed queues 8384 5 (7 ∷ []) busy.asl) (remove_blocked 8384 busy.asl)
remove_blocked-Freed_example =
    remove_blocked-Freed 8384 busy-IsBlocking (ground arith) 5 (7 ∷ []) refl

out_blocked-Freed_example : Returns (Freed queues 8384 7 (5 ∷ []) busy.asl) (out_blocked 7 busy.asl)
out_blocked-Freed_example = out_blocked-Freed 8384 busy-IsBlocking (ground arith) 7 refl

scheduler-Scheduled_example : Leaves (Scheduled busy jobs) (scheduler busy)
scheduler-Scheduled_example = scheduler-Scheduled busy-IsNucleus (inr refl) (ground arith)

-- Process 2 makes a call with the address 8384.
abbrev caller : ℕ → ProcState
caller call = record blank_state { reg = λ i. if i == 3 then call else if i == 4 then 8384 else 0 }

abbrev calling : ℕ → Kernel
calling call = record busy { area = λ a. caller call }

calling-IsNucleus : (call : ℕ) → IsNucleus (calling call) jobs
calling-IsNucleus call = same-IsNucleus (calling call) refl refl refl refl busy-IsNucleus

signal_call-GoesOn_example :
    Leaves (GoesOn (calling 3) (signal 8384 jobs)) (sys_call_handler (calling 3))
signal_call-GoesOn_example = signal_call-GoesOn (calling-IsNucleus 3) refl (ground arith) refl

wait_call-CallWaits_example :
    Leaves
      (Switched busy.asl.pcbs 2 (record (caller 4) { pc = 4 }) (block 8384 (counted 8384 jobs)) 5 3)
      (sys_call_handler (calling 4))
wait_call-CallWaits_example =
    wait_call-CallWaits (calling-IsNucleus 4) refl (ground arith) jobs-IsAlone refl (ground arith)
      refl

-- It waits for the device 2 of the line 7 to receive,
abbrev io_caller : ProcState
io_caller = record blank_state {
  reg = λ i. if i == 4 then 7 else if i == 5 then 2 else if i == 6 then 1 else 0;
}

sys_wait_io-Waits_example :
    Leaves
      (Switched busy.asl.pcbs 2 io_caller (block 8360 (counted 8360 jobs)) 5 4)
      (sys_wait_io io_caller busy)
sys_wait_io-Waits_example =
    sys_wait_io-Waits io_caller busy-IsNucleus jobs-IsAlone refl 7 2 true (ground arith) refl refl
      refl (ground arith) (ground arith) (ground arith)

-- or for the clock, whose count was set to 5 by others.
abbrev eager : Kernel
eager = record busy { word = λ a. 5 }

eager-IsNucleus : IsNucleus eager (record jobs { count = λ a. 5 })
eager-IsNucleus = record {
  counts = refl;
  blocking = busy-IsBlocking;
  queue = nine-IsProcQ;
  apart = busy-IsNucleus.apart;
  runs = refl;
}

sys_wait_for_clock-ClockWaits_example :
    ClockWaits false eager blank_state
      (record jobs { count = λ a. 5 })
      8384
      (sys_wait_for_clock blank_state eager)
sys_wait_for_clock-ClockWaits_example =
    sys_wait_for_clock-ClockWaits blank_state eager-IsNucleus jobs-IsAlone refl 8384 refl
      (ground arith) (ground arith) (ground arith) (ground arith)

io_trap_handler-Switched_example :
    Leaves
      (λ e g.
        Switched busy.asl.pcbs 2
          (record blank_state { cause = 0x1000 })
          (preempted (signal 8224 jobs))
          5
          2
          e
          g
        × (g.device ≡ acknowledged busy 4))
      (io_trap_handler busy)
io_trap_handler-Switched_example =
    io_trap_handler-Switched 4 busy-IsNucleus jobs-IsAlone refl refl (ground arith) (ground arith)
      (ground arith) (ground arith) (ground arith)

interval_timer-Switched_example :
    Leaves
      (Switched busy.asl.pcbs 2
        (record blank_state { cause = 0x1000 })
        (preempted (ticked 8384 jobs))
        5
        1)
      (interval_timer busy)
interval_timer-Switched_example =
    interval_timer-Switched 8384 busy-IsNucleus jobs-IsAlone refl (ground arith)
      (λ l lt. ground arith) (ground arith) (ground arith) refl

-- With the semaphores further down in memory 8224 is the clock's.
wake_loop-endless_example : wake_loop 100 8224 (record busy { sem_base = 8032 }) ≡ out_of_fuel
wake_loop-endless_example =
    wake_loop-endless 100 8224 8384 5 (7 ∷ [])
      (same-IsNucleus (record busy { sem_base = 8032 }) refl refl refl refl busy-IsNucleus)
      (ground arith) (ground arith) refl

-- The process 2 has named areas for program traps and makes a call in user mode.
abbrev handled : Kernel
handled = record busy {
  asl = record busy.asl {
    pcbs = record {
      cell = λ a. record (blocks a) { states = λ i j. if j == 0 then 0x3000 else 0x4000 };
      free = null;
    };
  };
  area = λ a. record (caller 3) { status = 8; pc = a };
}

user_call-PassedUp_example : Leaves (PassedUp (trapped handled) 1) (sys_call_handler handled)
user_call-PassedUp_example = user_call-PassedUp handled refl refl refl refl refl refl

-- The handlers and `test` somewhere in memory, which holds what it held before.
abbrev code : Code
code = record {
  sys_call_handler = 0x20008000;
  pbg_trap_handler = 0x20008100;
  tlb_trap_handler = 0x20008200;
  io_trap_handler = 0x20008300;
  test = 0x2000A000;
}

main-Started_example : Leaves (Started busy 0x2000A000) (main code busy)
main-Started_example = main-Started code busy

terminate_call-Died_example : Leaves (Died (calling 2) jobs) (sys_call_handler (calling 2))
terminate_call-Died_example =
    terminate_call-Died (calling-IsNucleus 2) jobs-IsAlone refl refl refl (inl refl) (ground arith)
      (ground arith) refl refl

two-HasChildren : HasChildren busy.asl.pcbs 2 []
two-HasChildren = record { parent = refl; distinct = ground arith; siblings = ground arith }

eleven-IsFree : IsFree busy.asl.pcbs (11 ∷ [])
eleven-IsFree = record { distinct = ground arith; stack = ground arith }

eleven-IsUnused : (q : ℕ) → q ∈ (11 ∷ []) → IsUnused (calling 1) jobs [] q
eleven-IsUnused q i = (ground arith, ground arith, λ k. ground arith)

create_call-Creates_example :
    Leaves (Creates (calling 1) jobs [] (11 ∷ [])) (sys_call_handler (calling 1))
create_call-Creates_example =
    create_call-Creates (calling-IsNucleus 1) two-HasChildren refl refl refl (11 ∷ []) eleven-IsFree
      eleven-IsUnused
