-- ===== src/Support/Faults.antt =====
-- vmMemHandler of phase3/vmIOsupport.c, the handler of page faults.
use kaya_os.Base.{
  ℕ, ◌≡◌, refl, ap, ◌∙◌, Bool, true, false, not, ◌&&◌, ◌||◌, ◌==◌, leb, if◌then◌else◌, Bool-cases,
  inl, inr, ◌∷◌, arith, ProcState, Exit, load_state, Leaves, leaves, Returns-Leaves, Returns-both,
}
use Prim.Native.Nat.{bit_and}
use kaya_os.Base.Word.{shr}
use kaya_os.Support.{
  PtePtr, no_entry, seg3_entry, user_entry, Support, World, swap_sem, passeren, verhogen, syscall,
  get_user, is_user, get_current_asid,
}
use kaya_os.Support.Pager.{vm_mem_handler}
use kaya_os.Support.Pool.{Pool, pool, put_lo, is_used, IsPool, IsAbsent}
use kaya_os.Support.Evict.{entry_for, evicted, turn, serve}
use kaya_os.Support.Serve.{Served, serve-Served}
use kaya_os.Support.Paging.{IsAlone, page_in-serve}
use kaya_os.Support.Trace.{held}
use kaya_os.Support.Orders.{orders, IsReady, Fetched, page_in-Fetched}
use mathlib.Core.Path.{subst}

-- The ID in ENTRYHI, and the old state of a TLB exception of the process.
abbrev pub current_id : Support → ℕ
current_id s = shr (bit_and s.entry_hi 0xFC0) 6

abbrev pub fault_state : Support → ProcState
fault_state s = (s.memory.user (current_id s)).states 0 1

-- The segment that is missing, the two highest bits of ENTRYHI, and the page, the 18 bits behind
-- them, or 31 for a page that is none of a segment.
abbrev pub fault_segment : Support → ℕ
fault_segment s = shr (bit_and (fault_state s).asid 0xC0000000) 30

abbrev pub fault_page : Support → ℕ
fault_page s =
    let p = shr (bit_and (fault_state s).asid 0x3FFFF000) 12 in if leb 32 p then 31 else p

-- The cause is TLBL or TLBS.
abbrev pub is_page_fault : Support → Bool
is_page_fault s =
    let cause = shr (bit_and (fault_state s).cause 0x7C) 2 in (cause == 2) || (cause == 3)

put_lo-states :
    (p : Pool) (q : PtePtr) (f : ℕ → ℕ) (id : ℕ)
    → ((put_lo p q f).user id).states ≡ (p.user id).states
unfolding put_lo
put_lo-states p no_entry f id = refl
put_lo-states p (seg3_entry i) f id = refl
put_lo-states p (user_entry b i) f id = elim (Bool-cases (id == b)) [
  | inl h ↦ let same : id ≡ b = ground arith in rw (h, same) refl
  | inr h ↦ rw h refl
]

evicted-states : (p : Pool) (i id : ℕ) → ((evicted p i).user id).states ≡ (p.user id).states
evicted-states p i id = elim (Bool-cases (is_used (p.frame i))) [
  | inl h ↦ rw h (put_lo-states p (p.frame i).pte (λ lo. bit_and lo 0) id)
  | inr h ↦ rw h refl
]

serve-states :
    (p : Pool) (k seg page id : ℕ) → ((serve p k seg page).user id).states ≡ (p.user id).states
serve-states p k seg page id =
    put_lo-states _ _ _ id ∙ evicted-states (record p { next = turn p }) (turn p) id

-- What the handler promises: the process goes on with the state of its fault, the missing page
-- has been served and fetched from the disk, and the semaphore of the pool is free.
pub record Handled (s : Support) (e : Exit) (g : Support) : Type 0 where
  pub resumes : e ≡ load_state (fault_state s)
  pub served :
      Served (pool s.memory) (current_id s) (fault_segment s) (fault_page s) (pool g.memory)
  pub released : held swap_sem g.trace ≡ false
  pub fetched :
      Fetched (pool s.memory) (current_id s) (fault_page s) (orders 0 s.trace) (orders 0 g.trace)

-- With no other process working on the pool, the missing page in no frame, and disk 0 READY
-- whenever it is waited for, the handler of a page fault returns to the state of the fault. The
-- commands that it gives to disk 0 are: if the next frame in turn is in use, a seek to the cylinder
-- of the page in it and WRITEBLK of the sector of its process from the frame; then a seek to the
-- cylinder of the missing page and READBLK of the sector of the process of the fault into the
-- frame. The swap table has the missing page in that frame then, its entry maps to the frame, and
-- the other frames are as they were. The pool is sound again: each page in a frame maps to it, no
-- page is in two frames, and each valid entry is that of a page in a frame. The semaphore of the
-- pool is free.
pub vm_mem_handler-Handled :
    (w : World) (s : Support)
    → IsAlone w
    → IsReady w
    → IsPool (pool s.memory)
    → is_user (current_id s) ≡ true
    → is_page_fault s ≡ true
    → IsAbsent (pool s.memory) (entry_for (current_id s) (fault_segment s) (fault_page s))
    → Leaves (Handled s) (vm_mem_handler w s)
unfolding vm_mem_handler get_current_asid get_user syscall
vm_mem_handler-Handled w s alone r sound u fault_ absent =
    let id = current_id s in
    let cause = shr (bit_and (fault_state s).cause 0x7C) 2 in
    let goes_on : (not (cause == 2) && not (cause == 3)) ≡ false = ground (arith, fault_) in
    let t = passeren swap_sem ∷ s.trace in
    let start = record s { memory = w.others t s.memory; trace = t } in
    let same : pool start.memory ≡ pool s.memory = alone t s.memory in
    rw (u, goes_on)
      (Returns-Leaves
        (Returns-both
          (page_in-serve w id (fault_segment s) (fault_page s) start alone (rw same sound) u)
          (page_in-Fetched w id (fault_segment s) (fault_page s) start r (rw same sound) u))
        λ x g (e, m).
          let end_ : pool (w.others _ g.memory)
              ≡ serve (pool s.memory) id (fault_segment s) (fault_page s) =
            alone (verhogen swap_sem ∷ g.trace) g.memory
            ∙ e
            ∙ ap (λ p. serve p id (fault_segment s) (fault_page s)) same in
          rw u (
            leaves (record {
              resumes =
                  ap (λ p. load_state ((p.user id).states 0 1)) end_
                  ∙ ap (λ f. load_state (f 0 1))
                      (serve-states (pool s.memory) id (fault_segment s) (fault_page s) id);
              served = rw end_ (
                  serve-Served (pool s.memory) id (fault_segment s) (fault_page s) sound u
                    (ground arith) absent);
              released = refl;
              fetched =
                  subst
                    (λ (p : Pool).
                      Fetched p id (fault_page s) (orders 0 s.trace) (orders 0 g.trace))
                    same m;
            })))
