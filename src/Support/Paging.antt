-- ===== src/Support/Paging.antt =====
-- The runs of the pager of phase3/vmIOsupport.c on the swap pool.
use kaya_os.Base.{
  ℕ, ◌≡◌, refl, ap, ◌∙◌, true, ◌==◌, ==-refl, Bool-cases, inl, inr, if◌then◌else◌, List, arith, Cmd,
  pure, ◌>>=◌, Returns, returns, Returns-bind, Returns-mono,
}
use Prim.Native.Nat.{bit_and}
use kaya_os.Base.Word.{minus_one, sub32}
use kaya_os.Kernel.{update}
use kaya_os.Support.{
  PtePtr, no_entry, seg3_entry, user_entry, Frame, Memory, Support, World, Event, syscall,
  interrupts, set_pte, set_command, set_data0, set_user, is_user, memory_of,
}
use kaya_os.Support.Pager.{
  ready, seek, transfer, is_transfer, read_write_backing, spin_the_bottle, swap_address, evict,
  install, page_in, read_block, write_block,
}
use kaya_os.Support.Pool.{Pool, pool, IsEntry, put_lo, mapped, is_used, IsPool, set_lo}
use kaya_os.Support.Evict.{entry_for, evicted, placed, turn, serve}

-- No other process works on the pool during the calls.
abbrev pub IsAlone : World → Type 0
IsAlone w = (t : List Event) (m : Memory) → pool (w.others t m) ≡ pool m

-- A run that leaves the pool as `p`.
abbrev pub Pooled : {A : Type 0} → Pool → A → Support → Type 0
Pooled p = λ _ g. pool g.memory ≡ p

seek-Pooled :
    (w : World) (disk cylinder : ℕ) (s : Support)
    → IsAlone w
    → Returns (Pooled (pool s.memory)) (seek w disk cylinder s)
unfolding seek interrupts set_command syscall
seek-Pooled w disk cylinder s alone = returns (alone _ _)

transfer-Pooled :
    (w : World) (disk head sector direction address : ℕ) (s : Support)
    → IsAlone w
    → Returns (Pooled (pool s.memory)) (transfer w disk head sector direction address s)
unfolding transfer interrupts set_command set_data0 syscall
transfer-Pooled w disk head sector direction address s alone = returns (alone _ _)

transferred-Pooled :
    (w : World) (disk head sector direction address : ℕ) (s : Support)
    → IsAlone w
    → Returns
        (Pooled (pool s.memory))
        ((transfer w disk head sector direction address >>= λ _. pure tt) s)
transferred-Pooled w disk head sector direction address s alone =
    Returns-bind (transfer-Pooled w disk head sector direction address s alone) λ x r e. returns e

pub read_write_backing-Pooled :
    (w : World) (cylinder sector head direction address : ℕ) (s : Support)
    → IsAlone w
    → is_transfer direction ≡ true
    → Returns
        (Pooled (pool s.memory))
        (read_write_backing w cylinder sector head direction address s)
unfolding read_write_backing syscall
read_write_backing-Pooled w cylinder sector head direction address s alone t = rw t (
    Returns-bind (seek-Pooled w 0 cylinder _ alone) λ status g e.
      elim (Bool-cases (status == ready)) [
        | inl h ↦ rw h (
            Returns-bind (transferred-Pooled w 0 head (sub32 sector 1) direction address g alone)
              λ x r e'. returns (alone _ _ ∙ e' ∙ e ∙ alone _ _))
        | inr h ↦ rw h (returns (alone _ _ ∙ e ∙ alone _ _))
      ])

pub set_pte-Pooled :
    (q : PtePtr) (f : ℕ → ℕ) (s : Support)
    → IsEntry q
    → Returns (Pooled (put_lo (pool s.memory) q f)) (set_pte q (set_lo f) s)
unfolding set_pte set_user put_lo
set_pte-Pooled no_entry f s v = absurd v
set_pte-Pooled (seg3_entry i) f s v = returns refl
set_pte-Pooled (user_entry id i) f s v = rw v.0 (returns refl)

evict-Pooled :
    (w : World) (i address : ℕ) (s : Support)
    → IsAlone w
    → IsEntry (s.memory.frame i).pte
    → Returns
        (Pooled (put_lo (pool s.memory) (s.memory.frame i).pte (λ lo. bit_and lo 0)))
        (evict w i address s)
unfolding evict interrupts
evict-Pooled w i address s alone v =
    Returns-bind (set_pte-Pooled (s.memory.frame i).pte (λ lo. bit_and lo 0) _ v) λ x g e.
      Returns-mono (read_write_backing-Pooled w _ _ 0 write_block address _ alone refl)
        λ y h e'. e' ∙ e

-- two writes of the same frame
two_writes-at :
    (f : ℕ → Frame) (i : ℕ) (x : Frame) (q : PtePtr) (j : ℕ)
    → update (update f i x) i (record (update f i x i) { pte = q }) j
      ≡ update f i (record x { pte = q }) j
two_writes-at f i x q j = elim (Bool-cases (j == i)) [
  | inl h ↦ rw (h, ==-refl i) refl
  | inr h ↦ rw h refl
]

two_writes :
    (f : ℕ → Frame) (i : ℕ) (x : Frame) (q : PtePtr)
    → update (update f i x) i (record (update f i x i) { pte = q })
      ≡ update f i (record x { pte = q })
two_writes f i x q = λ t j. two_writes-at f i x q j t

-- the pool `p` with the frames `f`
abbrev with_frames : Pool → (ℕ → Frame) → Pool
with_frames p f = record p { frame = f }

install-Pooled :
    (i address id seg page : ℕ) (s : Support)
    → is_user id ≡ true
    → Returns
        (Pooled (placed (pool s.memory) i address id seg page (entry_for id seg page)))
        (install i address id seg page s)
unfolding install interrupts set_pte set_user put_lo
install-Pooled i address id seg page s u =
    let m = s.memory in
    let old = record (m.frame i) { asid = id; seg = seg; page = page } in
    elim (Bool-cases (seg == 3)) [
      | inl h ↦
          let q = seg3_entry page in
          rw h (
            returns (
              ap (with_frames (put_lo (pool m) q (λ lo. mapped q address)))
                (two_writes m.frame i old q)))
      | inr h ↦
          let q = user_entry id page in
          rw (h, u)
            (returns (
              ap (with_frames (put_lo (pool m) q (λ lo. mapped q address)))
                (two_writes m.frame i old q)))
    ]

-- the part of page_in from the choice of the frame up to the end of the eviction
abbrev pub make_room : World → ℕ → ℕ → Cmd Support (Unit {0})
make_room w i address = do
  f ← memory_of (λ m. m.frame i)
  if f.asid == minus_one then pure tt else evict w i address

pub make_room-Pooled :
    (w : World) (i address : ℕ) (s : Support)
    → IsAlone w
    → (is_used (s.memory.frame i) ≡ true → IsEntry (s.memory.frame i).pte)
    → Returns (Pooled (evicted (pool s.memory) i)) (make_room w i address s)
make_room-Pooled w i address s alone v = elim (Bool-cases ((s.memory.frame i).asid == minus_one)) [
  | inl h ↦ rw h (returns refl)
  | inr h ↦ rw h (evict-Pooled w i address s alone (v (ground (arith, h))))
]

pub page_in-serve :
    (w : World) (id seg page : ℕ) (s : Support)
    → IsAlone w
    → IsPool (pool s.memory)
    → is_user id ≡ true
    → Returns (Pooled (serve (pool s.memory) id seg page)) (page_in w id seg page s)
unfolding page_in spin_the_bottle
page_in-serve w id seg page s alone sound u =
    let i = turn (pool s.memory) in
    let a = swap_address s.memory.ramtop i in
    let start = record s { memory = record s.memory { next_frame = i } } in
    Returns-bind (make_room-Pooled w i a start alone (sound.entries i (omega arith))) λ x g e.
      Returns-bind (read_write_backing-Pooled w page id 0 read_block a g alone refl) λ y h e'.
        Returns-mono (install-Pooled i a id seg page h u)
          λ z r e''. e'' ∙ ap (λ p. placed p i a id seg page (entry_for id seg page)) (e' ∙ e)
