-- ===== src/Support/Setup.antt =====
-- What `test` of phase3/initProc.c leaves for the pager.
use kaya_os.Base.{
  ℕ, zero, suc, ◌+◌, ◌<◌, ◌≡◌, refl, ap, ◌∙◌, false, ◌&&◌, leb, ltb, if◌then◌else◌, arith,
  ProcState, ◌>>◌, Returns, returns,
}
use kaya_os.Base.Word.{minus_one}
use kaya_os.Kernel.{update}
use kaya_os.Support.{
  kuseg_size, swap_size, max_user_proc, PtePtr, no_entry, seg3_entry, user_entry, Frame, UProc,
  Memory, Support, World, syscall, set_user, change,
}
use kaya_os.Support.Start.{
  Code, seg3_entry_of, user_table_of, clear_frames, init_memory, start_user, start_users,
  table_header,
}
use kaya_os.Support.Frames.{fill-entry, user_table_of-lo}
use kaya_os.Support.Pool.{Pool, pool, lo_of, IsEntry, is_used, is_valid, IsPool}
use kaya_os.Support.Paging.{IsAlone}

clear_frames-asid :
    (k i j : ℕ) (f : ℕ → Frame)
    → (clear_frames k i f j).asid ≡ (if leb i j && ltb j (i + k) then minus_one else (f j).asid)
unfolding clear_frames
clear_frames-asid zero i j f = ground arith
clear_frames-asid (suc k) i j f = ground (
  arith,
  clear_frames-asid k (i + 1) j (update f i (record (f i) { asid = minus_one; pte = no_entry })),
)

-- No frame is in use, and no entry is valid.
record IsEmpty (p : Pool) : Type 0 where
  unused : (i : ℕ) → i < swap_size → is_used (p.frame i) ≡ false
  invalid : (q : PtePtr) → IsEntry q → is_valid (lo_of p q) ≡ false

IsEmpty-IsPool : (p : Pool) → IsEmpty p → IsPool p
IsEmpty-IsPool p e = record {
  entries = λ i lt u. absurd (ground (arith, e.unused i lt, u));
  maps = λ i lt u. absurd (ground (arith, e.unused i lt, u));
  apart = λ i j li lj ne u u'. absurd (ground (arith, e.unused i li, u));
  backed = λ q v valid. absurd (ground (arith, e.invalid q v, valid));
}

-- the pool behind the setup of the only process
abbrev first_users : Memory → ℕ → UProc
first_users m =
    let u = update m.user 1 (record (m.user 1) { pte = user_table_of 1 (m.user 1).pte }) in
    update u 1 (record (u 1) { sem_add = 0 })

abbrev first_pool : Memory → Pool
first_pool m = record (pool (init_memory m)) { user = first_users m }

first_pool-invalid :
    (m : Memory) (q : PtePtr) → IsEntry q → is_valid (lo_of (first_pool m) q) ≡ false
unfolding init_memory
first_pool-invalid m no_entry v = absurd v
first_pool-invalid m (seg3_entry i) v =
    let at =
      fill-entry kuseg_size 0 seg3_entry_of (record m.kuseg3 { header = table_header kuseg_size })
        i in
    let lo : ((init_memory m).kuseg3.entry i).entry_lo ≡ 0x500 = ground (arith, at) in
    ground (arith, lo)
first_pool-invalid m (user_entry id i) (u, lt) =
    let first : id ≡ 1 = ground (arith, u) in
    rw (first, user_table_of-lo 1 i (m.user 1).pte lt) refl

first_pool-IsEmpty : (m : Memory) → IsEmpty (first_pool m)
unfolding init_memory
first_pool-IsEmpty m = record {
  unused = λ i lt. ground (arith, clear_frames-asid swap_size 0 i m.frame);
  invalid = first_pool-invalid m;
}

-- Whatever the memory holds, the setup of `test` and its loop over the processes leave a sound
-- pool without a frame in use, if no other process works on the pool during the calls.
pub start_users-IsPool :
    (w : World) (code : Code) (st : ProcState) (s : Support)
    → IsAlone w
    → Returns
        (λ _ g.
          IsPool (pool g.memory) × ((i : ℕ) → i < swap_size → is_used (g.memory.frame i) ≡ false))
        ((change init_memory >> start_users w code max_user_proc 1 st) s)
unfolding start_users start_user set_user syscall init_memory
start_users-IsPool w code st s alone =
    let e = first_pool-IsEmpty s.memory in
    let same = alone _ _ in
    returns (
      rw same (IsEmpty-IsPool (first_pool s.memory) e),
      λ i lt. ap (λ p. is_used (p.frame i)) same ∙ e.unused i lt,
    )
