-- ===== src/Support/Orders.antt =====
-- What the pager of phase3/vmIOsupport.c has the disk 0 do.
use kaya_os.Base.{
  ℕ, ◌≡◌, refl, ap, ◌∙◌, ◌*◌, Bool, true, false, ◌==◌, Bool-cases, inl, inr, if◌then◌else◌, List,
  [], ◌∷◌, arith, Cmd, pure, ◌>>=◌, ◌>>◌, Returns, returns, Returns-bind, Returns-mono,
}
use mathlib.Core.Path.{subst}
use Prim.Native.Nat.{bit_and, bit_or}
use kaya_os.Base.Word.{minus_one, sub32, add32, shl}
use kaya_os.Support.{
  PtePtr, no_entry, seg3_entry, user_entry, Support, World, Event, syscall, command, wait_io,
  interrupts, set_pte, set_command, set_data0, set_user, is_user, Frame,
}
use kaya_os.Support.Pager.{
  ready, seek, transfer, is_transfer, read_write_backing, spin_the_bottle, swap_address, evict,
  install, page_in, read_block, write_block,
}
use kaya_os.Support.Pool.{Pool, pool, IsEntry, is_used, set_lo, IsPool}
use kaya_os.Support.Evict.{turn}
use kaya_os.Support.Paging.{make_room}
use kaya_os.Support.Trace.{is_command_of}

-- The commands given to a device, the last one first.
abbrev pub orders : ℕ → List Event → List Event
orders dev [] = []
orders dev (e ∷ t) = if is_command_of dev e then e ∷ orders dev t else orders dev t

-- The disk 0 reports READY whenever it is waited for.
abbrev pub IsReady : World → Type 0
IsReady w = (t : List Event) → w.answer (wait_io 3 0 0 ∷ t) ≡ 1

-- Behind the commands `before` come a seek to the cylinder (2 in the low byte) and a transfer
-- between the sector under the head 0 and `address`, by READBLK (3) or WRITEBLK (4).
abbrev pub Moves : (cylinder sector direction address : ℕ) → (before after : List Event) → Type 0
Moves cylinder sector direction address before after =
    (x : ℕ) × (after
      ≡ command 0 (bit_or (bit_or 0 (shl sector 8)) direction) address
        ∷ command 0 (bit_or (shl cylinder 8) 2) x
        ∷ before)

seek-orders :
    (w : World) (cylinder : ℕ) (s : Support)
    → IsReady w
    → Returns
        (λ status g.
          (status ≡ ready)
          × ((x : ℕ) × (orders 0 g.trace
                ≡ command 0 (bit_or (shl cylinder 8) 2) x ∷ orders 0 s.trace)))
        (seek w 0 cylinder s)
unfolding seek interrupts set_command syscall
seek-orders w cylinder s r = returns (r _, (_, refl))

transfer-orders :
    (w : World) (sector direction address : ℕ) (s : Support)
    → Returns
        (λ _ g.
          orders 0 g.trace
          ≡ command 0 (bit_or (bit_or 0 (shl sector 8)) direction) address ∷ orders 0 s.trace)
        ((transfer w 0 0 sector direction address >>= λ _. pure tt) s)
unfolding transfer interrupts set_command set_data0 syscall
transfer-orders w sector direction address s = returns refl

read_write_backing-Moves :
    (w : World) (cylinder sector direction address : ℕ) (s : Support)
    → IsReady w
    → is_transfer direction ≡ true
    → Returns
        (λ _ g.
          Moves cylinder (sub32 sector 1) direction address (orders 0 s.trace) (orders 0 g.trace))
        (read_write_backing w cylinder sector 0 direction address s)
unfolding read_write_backing syscall
read_write_backing-Moves w cylinder sector direction address s r t = rw t (
    Returns-bind (seek-orders w cylinder _ r) λ status g (e, (x, o)). rw e (
      Returns-bind (transfer-orders w (sub32 sector 1) direction address g) λ _ h o'. returns (
        x,
        o'
            ∙ ap (λ l. command 0 (bit_or (bit_or 0 (shl (sub32 sector 1) 8)) direction) address ∷ l)
                o,
      )))

-- What the disk does for the missing page of the process `id`: if the frame `f` is in use (`true`)
-- its page is written to its place, the cylinder of the page and the sector of the process, and
-- then the missing page is read to the address of the frame from its own.
abbrev pub Fetches : Bool → Frame → (id page address : ℕ) → (before after : List Event) → Type 0
Fetches true f id page a before after =
    (mid : List Event) × Moves f.page (sub32 f.asid 1) 4 a before mid
    × Moves page (sub32 id 1) 3 a mid after
Fetches false f id page a before after = Moves page (sub32 id 1) 3 a before after

set_pte-keeps :
    (q : PtePtr) (f : ℕ → ℕ) (s : Support)
    → IsEntry q
    → Returns
        (λ _ g. (g.trace ≡ s.trace) × (g.memory.frame ≡ s.memory.frame))
        (set_pte q (set_lo f) s)
unfolding set_pte set_user
set_pte-keeps no_entry f s v = absurd v
set_pte-keeps (seg3_entry i) f s v = returns (refl, refl)
set_pte-keeps (user_entry id i) f s v = rw v.0 (returns (refl, refl))

-- the change of the commands that a run makes, from another list that is the same
Moves-from :
    (cylinder sector direction address : ℕ) {before before' after : List Event}
    → before ≡ before'
    → Moves cylinder sector direction address before after
    → Moves cylinder sector direction address before' after
Moves-from c n d a {after = after} e m = subst (λ (b : List Event). Moves c n d a b after) e m

evict-Moves :
    (w : World) (i address : ℕ) (s : Support)
    → IsReady w
    → IsEntry (s.memory.frame i).pte
    → Returns
        (λ _ g.
          Moves
            (s.memory.frame i).page
            (sub32 (s.memory.frame i).asid 1)
            4
            address
            (orders 0 s.trace)
            (orders 0 g.trace))
        (evict w i address s)
unfolding evict interrupts
evict-Moves w i address s r v =
    Returns-bind (set_pte-keeps (s.memory.frame i).pte (λ lo. bit_and lo 0) _ v) λ x g (e, f).
      rw f (
        Returns-mono (read_write_backing-Moves w _ _ write_block address _ r refl)
          λ y h m. Moves-from _ _ _ _ (ap (orders 0) e) m)

install-orders :
    (i address id seg page : ℕ) (s : Support)
    → is_user id ≡ true
    → Returns (λ _ g. orders 0 g.trace ≡ orders 0 s.trace) (install i address id seg page s)
unfolding install interrupts set_pte set_user
install-orders i address id seg page s u = elim (Bool-cases (seg == 3)) [
  | inl h ↦ rw h (returns refl)
  | inr h ↦ rw (h, u) (returns refl)
]

-- The read, and the new owner of the frame.
abbrev read_in : World → (i address id seg page : ℕ) → Cmd Support (Unit {0})
read_in w i address id seg page = do
  read_write_backing w page id 0 read_block address
  install i address id seg page

read_in-Moves :
    (w : World) (i address id seg page : ℕ) (s : Support)
    → IsReady w
    → is_user id ≡ true
    → Returns
        (λ _ g. Moves page (sub32 id 1) 3 address (orders 0 s.trace) (orders 0 g.trace))
        (read_in w i address id seg page s)
read_in-Moves w i address id seg page s r u =
    Returns-bind (read_write_backing-Moves w page id read_block address s r refl)
      λ x g (y, m). Returns-mono (install-orders i address id seg page g u) λ z h e. (y, e ∙ m)

-- From the eviction on, by whether the frame is in use.
fetch :
    (w : World) (i address id seg page : ℕ) (s : Support) (b : Bool)
    → is_used (s.memory.frame i) ≡ b
    → IsReady w
    → is_user id ≡ true
    → (is_used (s.memory.frame i) ≡ true → IsEntry (s.memory.frame i).pte)
    → Returns
        (λ _ g. Fetches b (s.memory.frame i) id page address (orders 0 s.trace) (orders 0 g.trace))
        ((make_room w i address >> read_in w i address id seg page) s)
fetch w i address id seg page s true e r u v =
    let used : ((s.memory.frame i).asid == minus_one) ≡ false = ground (arith, e) in
    rw used (
      Returns-bind (evict-Moves w i address s r (v e)) λ x g m.
        Returns-mono (read_in-Moves w i address id seg page g r u)
          λ y h m'. (orders 0 g.trace, m, m'))
fetch w i address id seg page s false e r u v =
    let free : ((s.memory.frame i).asid == minus_one) ≡ true = ground (arith, e) in
    rw free (read_in-Moves w i address id seg page s r u)

-- The address of a frame: the pool of 16 frames and three more end where the memory does.
abbrev pub frame_address : (ramtop i : ℕ) → ℕ
frame_address ramtop i = add32 (sub32 ramtop (19 * 4096)) (i * 4096)

-- The same for the next frame in turn of the pool.
abbrev pub Fetched : Pool → (id page : ℕ) → (before after : List Event) → Type 0
Fetched p id page before after =
    let f = p.frame (turn p) in
    Fetches (is_used f) f id page (frame_address p.ramtop (turn p)) before after

-- The part of the handler between P and V of the pool.
pub page_in-Fetched :
    (w : World) (id seg page : ℕ) (s : Support)
    → IsReady w
    → IsPool (pool s.memory)
    → is_user id ≡ true
    → Returns
        (λ _ g. Fetched (pool s.memory) id page (orders 0 s.trace) (orders 0 g.trace))
        (page_in w id seg page s)
unfolding page_in spin_the_bottle
page_in-Fetched w id seg page s r sound u =
    let i = turn (pool s.memory) in
    let start = record s { memory = record s.memory { next_frame = i } } in
    fetch w i (swap_address s.memory.ramtop i) id seg page start (is_used (s.memory.frame i)) refl r
      u (sound.entries i (omega arith))
