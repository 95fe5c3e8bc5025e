-- ===== src/Avsl/Tests.antt =====
-- The theorems about avsl.c at a small state.
use kaya_os.Base.{refl, if◌then◌else◌, ◌==◌, [], ◌∷◌, arith, Returns}
use kaya_os.Pcb.{null}
use kaya_os.Avsl.{Avsl, v_insert_blocked, v_remove_blocked}
use kaya_os.Avsl.Ring.{IsAvsl}
use kaya_os.Avsl.Link.{Entered}
use kaya_os.Avsl.Enter.{v_insert_blocked-append}
use kaya_os.Avsl.Search.{Outcome, victim, v_remove_blocked-Outcome}

-- The ring 4, 6, 2 of the processes 1, 3 and 5, the first two on the semaphore 0x80002000 and the
-- third on 0x80003000; the nodes 7 and 9 are free.
abbrev three : Avsl
three = record {
  cell = λ v.
      if v == 4
      then record { next = 6; prev = 2; sem = 0x80002000; asid = 1 }
      else if v == 6
      then record { next = 2; prev = 4; sem = 0x80002000; asid = 3 }
      else if v == 2
      then record { next = 4; prev = 6; sem = 0x80003000; asid = 5 }
      else if v == 7
      then record { next = 9; prev = null; sem = null; asid = null }
      else record { next = null; prev = null; sem = null; asid = null };
  head = 4;
  free = 7;
}

three-IsAvsl : IsAvsl three (4 ∷ 6 ∷ 2 ∷ []) (7 ∷ 9 ∷ [])
three-IsAvsl = record {
  ring = (refl, ground arith);
  free = ground arith;
  distinct = ground arith;
  valid = ground arith;
}

v_insert_blocked-append_example :
    Returns
      (Entered three (4 ∷ 6 ∷ 2 ∷ []) 7 (9 ∷ []) 0x80003000 2)
      (v_insert_blocked 0x80003000 2 three)
v_insert_blocked-append_example =
    v_insert_blocked-append 0x80003000 2 7 (4 ∷ 6 ∷ 2 ∷ []) (9 ∷ []) three three-IsAvsl

v_remove_blocked-Outcome_example :
    Returns
      (λ r g.
        Outcome three (4 ∷ 6 ∷ 2 ∷ []) (7 ∷ 9 ∷ []) r g (victim three 0x80003000 (4 ∷ 6 ∷ 2 ∷ [])))
      (v_remove_blocked 0x80003000 three)
v_remove_blocked-Outcome_example =
    v_remove_blocked-Outcome three 0x80003000 (4 ∷ 6 ∷ 2 ∷ []) (7 ∷ 9 ∷ []) three-IsAvsl
