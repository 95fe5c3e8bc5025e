-- ===== src/Kernel/Tests.antt =====
-- The theorems about the nucleus at a small state.
use kaya_os.Base.{◌+◌, ◌*◌, ◌≡◌, refl, inr, [], ◌∷◌, arith, ok, Leaves, if◌then◌else◌, ◌==◌}
use kaya_os.Pcb.{null}
use kaya_os.Pcb.Queue.{empty}
use kaya_os.Pcb.Tests.{blank_state, heap, three-IsProcQ}
use kaya_os.Kernel.{Kernel}
use kaya_os.Kernel.Devices.{get_device_number-first}
use kaya_os.Kernel.Dispatch.{Dispatched, scheduler-Dispatched}
use kaya_os.Kernel.Idle.{Idled, scheduler-Idled}
use kaya_os.Kernel.Interrupts.{get_device_number}
use kaya_os.Kernel.Scheduler.{scheduler}

-- The block 2 runs, 3, 5 and 7 are ready, and the device 1 of the line 4 has an interrupt pending.
abbrev kernel : Kernel
kernel = record {
  asl = record {
    pcbs = heap;
    cell = λ s. record { next = null; sem_add = 0; proc_q = null };
    free = null;
    active = null;
  };
  process_count = 4;
  soft_block_count = 0;
  current = 2;
  ready = 7;
  sem_base = 0x2000;
  word = λ a. 0;
  area = λ a. blank_state;
  tod = λ n. 1000 + 10 * n;
  readings = 0;
  current_tod = 0;
  tod_started = 900;
  tod_stopped = 0;
  timer = 0;
  interval_timer = 0;
  status = 0;
  ramtop = 0x20010000;
  device = λ i. record { status = 0; command = 0; data0 = 0; data1 = 0 };
  interrupt_dev = λ line. if line == 1 then 2 else 0;
}

-- Nothing is ready, and two processes wait for devices.
abbrev waiting : Kernel
waiting = record kernel { ready = null; soft_block_count = 2 }

-- The device 1 of the line has interrupted, and the result is 8.
get_device_number-first_example : get_device_number 4 kernel ≡ ok 8 kernel
get_device_number-first_example = get_device_number-first 4 kernel

scheduler-Dispatched_example : Leaves (Dispatched kernel 3 (5 ∷ 7 ∷ [])) (scheduler kernel)
scheduler-Dispatched_example = scheduler-Dispatched kernel 3 (5 ∷ 7 ∷ []) (inr refl) three-IsProcQ

scheduler-Idled_example : Leaves (Idled waiting) (scheduler waiting)
scheduler-Idled_example =
    scheduler-Idled waiting (inr refl) (empty refl refl) (ground arith) (ground arith)
