-- ===== src/Pcb/Tests.antt =====
-- The theorems about pcb.c at small heaps.
use kaya_os.Base.{ℕ, ◌≡◌, refl, List, [], ◌∷◌, arith, ◌==◌, if◌then◌else◌, ok, Returns, ProcState}
use kaya_os.Pcb.{
  null, Pcb, Pcbs, put, load, update, insert_proc_q, unlink, out_tail, out_proc_q, insert_child,
  out_child,
}
use kaya_os.Pcb.Queue.{IsProcQ, filled, Inserted, insert_proc_q-append}
use kaya_os.Pcb.Remove.{Removed}
use kaya_os.Pcb.Out.{out_proc_q-mem}
use kaya_os.Pcb.Children.{HasChildren}
use kaya_os.Pcb.Adopt.{Adopted, insert_child-cons}
use kaya_os.Pcb.OutChild.{Orphaned, out_child-mem}

abbrev pub blank_state : ProcState
blank_state = record { asid = 0; cause = 0; status = 0; pc = 0; reg = λ i. 0 }

abbrev pub blank : Pcb
blank = record {
  next = 0;
  prev = 0;
  child = 0;
  parent = 0;
  prev_sib = 0;
  next_sib = 0;
  state = blank_state;
  sem_add = 0;
  time = 0;
  states = λ i j. 0;
}

-- The queue 3, 5, 7, with the children 3, 5, 7 of block 2, and the free blocks 9, 4.
abbrev cells : ℕ → Pcb
cells a =
    if a == 3
    then record blank { next = 5; prev = 7; parent = 2; prev_sib = null; next_sib = 5 }
    else if a == 5
    then record blank { next = 7; prev = 3; parent = 2; prev_sib = 3; next_sib = 7 }
    else if a == 7
    then record blank { next = 3; prev = 5; parent = 2; prev_sib = 5; next_sib = null }
    else if a == 2
    then record blank { child = 3; parent = null }
    else if a == 9
    then record blank { next = 4 }
    else if a == 4
    then record blank { next = null }
    else blank

abbrev pub heap : Pcbs
heap = record { cell = cells; free = 9 }

abbrev three : List ℕ
three = 3 ∷ 5 ∷ 7 ∷ []

pub three-IsProcQ : IsProcQ heap 7 three
three-IsProcQ = filled (3 ∷ 5 ∷ []) refl (ground arith)

three-HasChildren : HasChildren heap 2 three
three-HasChildren = ground arith

insert_proc_q-append_example : Returns (Inserted heap 2 three) (insert_proc_q 7 2 heap)
insert_proc_q-append_example = insert_proc_q-append 2 three-IsProcQ refl refl

out_proc_q-mem_example : Returns (Removed heap 5 three) (out_proc_q 7 5 heap)
out_proc_q-mem_example = out_proc_q-mem 5 three-IsProcQ refl

insert_child-cons_example : Returns (λ _. Adopted heap 2 9 three) (insert_child 2 9 heap)
insert_child-cons_example = insert_child-cons 9 three-HasChildren refl refl

out_child-mem_example : Returns (Orphaned heap 2 5 three) (out_child 5 heap)
out_child-mem_example = out_child-mem 5 three-HasChildren refl

-- The third block leaves the queue: the second becomes the tail.
out_tail_run : (r : ℕ × ℕ) × (g : Pcbs) × (out_proc_q 7 7 heap ≡ ok r g) × (r ≡ (7, 5))
unfolding out_proc_q out_tail unlink load update put
out_tail_run = ((7, 5), _, refl, refl)
