-- ===== src/Asl/Tests.antt =====
-- The theorems about asl.c at a small state.
use kaya_os.Base.{ℕ, ◌≡◌, refl, [], ◌∷◌, arith, ◌==◌, if◌then◌else◌, ok, Returns}
use kaya_os.Pcb.{null, Pcb}
use kaya_os.Pcb.Queue.{IsProcQ, filled}
use kaya_os.Pcb.FreeList.{table as all_blocks}
use kaya_os.Pcb.Tests.{blank}
use kaya_os.Asl.{Semd, Asl, zero_node, max_node, max_int, init_asl, head_blocked}
use kaya_os.Asl.Chain.{Entry, IsAsl}
use kaya_os.Asl.Head.{head_blocked-from}
use kaya_os.Asl.Init.{init_asl-IsAsl}

-- The blocks 3, 5, 7 wait for the semaphore 100 and the block 2 for 200.
abbrev blocks : ℕ → Pcb
blocks a =
    if a == 3
    then record blank { next = 5; prev = 7; sem_add = 100 }
    else if a == 5
    then record blank { next = 7; prev = 3; sem_add = 100 }
    else if a == 7
    then record blank { next = 3; prev = 5; sem_add = 100 }
    else if a == 2
    then record blank { next = 2; prev = 2; sem_add = 200 }
    else blank

abbrev table : ℕ → Semd
table s =
    if s == zero_node
    then record { next = 3; sem_add = 0; proc_q = null }
    else if s == 3
    then record { next = 5; sem_add = 100; proc_q = 7 }
    else if s == 5
    then record { next = max_node; sem_add = 200; proc_q = 2 }
    else if s == 9
    then record { next = 4; sem_add = null; proc_q = null }
    else if s == 4
    then record { next = null; sem_add = null; proc_q = null }
    else record { next = null; sem_add = max_int; proc_q = null }

abbrev asl : Asl
asl = record {
  pcbs = record { cell = blocks; free = null };
  cell = table;
  free = 9;
  active = zero_node;
}

-- the same without free descriptors
abbrev full : Asl
full = record asl { free = null }

abbrev first : Entry
first = record { at = 3; key = 100; queue = 3 ∷ 5 ∷ 7 ∷ [] }

abbrev second : Entry
second = record { at = 5; key = 200; queue = 2 ∷ [] }

first-IsProcQ : IsProcQ asl.pcbs 7 (3 ∷ 5 ∷ 7 ∷ [])
first-IsProcQ = filled (3 ∷ 5 ∷ []) refl (ground arith)

second-IsProcQ : IsProcQ asl.pcbs 2 (2 ∷ [])
second-IsProcQ = filled [] refl (ground arith)

asl-IsAsl : IsAsl asl (first ∷ second ∷ []) (9 ∷ 4 ∷ [])
asl-IsAsl = record {
  head = refl;
  chain = (
    refl,
    (ground arith, refl, first-IsProcQ),
    (refl, (ground arith, refl, second-IsProcQ), refl),
  );
  top = (refl, refl);
  sorted = ground arith;
  stack = ground arith;
  nodes = ground arith;
  blocked = ground arith;
  busy = ground arith;
  told = ground arith;
}

full-IsAsl : IsAsl full (first ∷ second ∷ []) []
full-IsAsl = record {
  head = asl-IsAsl.head;
  chain = asl-IsAsl.chain;
  top = asl-IsAsl.top;
  sorted = asl-IsAsl.sorted;
  stack = refl;
  nodes = ground arith;
  blocked = asl-IsAsl.blocked;
  busy = asl-IsAsl.busy;
  told = asl-IsAsl.told;
}

-- Nothing is blocked on 150, and the result is the head of the queue of 200.
head_blocked-from_example : head_blocked 150 asl ≡ ok 2 asl
head_blocked-from_example =
    head_blocked-from 150 (first ∷ []) (second ∷ []) asl-IsAsl refl (ground arith) (ground arith)

init_asl-IsAsl_example :
    Returns (λ _ g. IsAsl g [] (all_blocks 20) × (g.pcbs ≡ full.pcbs)) (init_asl full)
init_asl-IsAsl_example = init_asl-IsAsl full
