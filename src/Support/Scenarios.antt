-- ===== src/Support/Scenarios.antt =====
-- The theorems about virtual semaphores and the delay daemon at a small state.
use kaya_os.Base.{◌+◌, ◌≡◌, refl, ◌==◌, if◌then◌else◌, [], ◌∷◌, arith, Returns}
use kaya_os.Pcb.{null}
use kaya_os.Adl.Delays.{start, emptied, init_adl-emptied}
use kaya_os.Avsl.{Avsl}
use kaya_os.Avsl.Ring.{IsAvsl}
use kaya_os.Support.{Support}
use kaya_os.Support.Calls.{p_sem_virt, v_sem_virt, Addresses, delay}
use kaya_os.Support.Virtual.{Waits, p_sem_virt-Waits, Wakes, v_sem_virt-Wakes}
use kaya_os.Support.Sleep.{releases, daemon_rounds, daemon_rounds-never, Lost, delay-Lost}
use kaya_os.Support.Tests.{memory, support, constant}

-- The process 3 waits on the semaphore at 0x80002000, whose count is -1, with the node 4, and the
-- nodes 7 and 9 are free.
abbrev one_waits : Avsl
one_waits = record {
  cell = λ v.
      if v == 4
      then record { next = 4; prev = 4; sem = 0x80002000; asid = 3 }
      else if v == 7
      then record { next = 9; prev = null; sem = null; asid = null }
      else record { next = null; prev = null; sem = null; asid = null };
  head = 4;
  free = 7;
}

one_waits-IsAvsl : IsAvsl one_waits (4 ∷ []) (7 ∷ 9 ∷ [])
one_waits-IsAvsl = record {
  ring = (refl, (refl, refl));
  free = ground arith;
  distinct = ground arith;
  valid = ground arith;
}

abbrev counted : Support
counted = record support {
  memory = record memory {
    avsl = one_waits;
    word = λ a. if a == 0x80002000 then 0xFFFFFFFF else 0;
  };
}

p_sem_virt-Waits_example :
    Returns
      (λ _ g. Waits (constant 0) counted (4 ∷ []) 7 (9 ∷ []) 0x80002000 1 g)
      (p_sem_virt (constant 0) 1 0x80002000 counted)
p_sem_virt-Waits_example =
    p_sem_virt-Waits (constant 0) 1 0x80002000 7 (4 ∷ []) (9 ∷ []) counted one_waits-IsAvsl refl

v_sem_virt-Wakes_example :
    Returns
      (λ _ g. Wakes (constant 0) counted (4 ∷ []) (7 ∷ 9 ∷ []) 0x80002000 g)
      (v_sem_virt (constant 0) 1 0x80002000 counted)
v_sem_virt-Wakes_example =
    v_sem_virt-Wakes (constant 0) 1 0x80002000 (4 ∷ []) (7 ∷ 9 ∷ []) counted one_waits-IsAvsl
      (refl, tt) refl

abbrev set_up : Support
set_up = record support { memory = record memory { adl = emptied memory.adl } }

daemon_rounds-never_example :
    Returns (λ _ g. releases g.trace ≡ 0) (daemon_rounds (constant 5000) 1 3 set_up)
daemon_rounds-never_example =
    daemon_rounds-never (constant 5000) 0 3 set_up (λ t m r. r)
      (start memory.adl (init_adl-emptied memory.adl))

-- The process 1 delays itself for five seconds, with the free nodes 7 and 9.
abbrev addresses : Addresses
addresses = record { private_address = λ id. 0x20010000 + id }

abbrev tired : Support
tired = record counted { memory = record counted.memory { adl = emptied memory.adl } }

delay-Lost_example :
    Returns
      (λ _ g. Lost (constant 0) tired (4 ∷ []) 7 (9 ∷ []) 0x20010001 1 g)
      (delay (constant 0) addresses 1 5 tired)
delay-Lost_example =
    delay-Lost (constant 0) addresses 1 5 7 (4 ∷ []) (9 ∷ []) tired
      (start memory.adl (init_adl-emptied memory.adl)) one_waits-IsAvsl refl
