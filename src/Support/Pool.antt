-- ===== src/Support/Pool.antt =====
-- The swap pool and the page tables of phase 3: what a frame holds, and the invariant between both.
use kaya_os.Base.{
  ℕ, zero, suc, ◌/◌, ◌%◌, ◌≤◌, ◌<◌, ◌≡◌, refl, Bool, true, false, not, ◌&&◌, ◌==◌, arith,
}
use Prim.Native.Nat.{bit_and, bit_or, min, max, digits, bit_and-bitwise, bit_or-bitwise}
use kaya_os.Base.Word.{minus_one}
use kaya_os.Kernel.{update}
use kaya_os.Support.{
  kuseg_size, swap_size, PteEntry, PageTable, PtePtr, no_entry, seg3_entry, user_entry, Frame,
  UProc, Memory, is_user, set_entry,
}
use kaya_os.Support.Pager.{swap_address, valid_dirty, valid_dirty_global}

-- The part of the memory that the pager works on.
pub record Pool : Type 0 where
  pub frame : ℕ → Frame
  pub user : ℕ → UProc
  pub kuseg3 : PageTable
  pub next : ℕ
  pub ramtop : ℕ

abbrev pub pool : Memory → Pool
pool m = record {
  frame = m.frame;
  user = m.user;
  kuseg3 = m.kuseg3;
  next = m.next_frame;
  ramtop = m.ramtop;
}

abbrev pub same_ptr : PtePtr → PtePtr → Bool
same_ptr no_entry no_entry = true
same_ptr (seg3_entry i) (seg3_entry j) = i == j
same_ptr (user_entry a i) (user_entry b j) = (a == b) && (i == j)
same_ptr _ _ = false

-- The pointer leads to an entry of a page table.
abbrev pub IsEntry : PtePtr → Type 0
IsEntry no_entry = ⊥
IsEntry (seg3_entry i) = i < kuseg_size
IsEntry (user_entry id i) = (is_user id ≡ true) × (i < kuseg_size)

-- entryLO through a pointer, and a write of it
abbrev pub lo_of : Pool → PtePtr → ℕ
lo_of p no_entry = 0
lo_of p (seg3_entry i) = (p.kuseg3.entry i).entry_lo
lo_of p (user_entry id i) = ((p.user id).pte.entry i).entry_lo

abbrev pub set_lo : (ℕ → ℕ) → PteEntry → PteEntry
set_lo f e = record e { entry_lo = f e.entry_lo }

unfoldable pub put_lo : Pool → PtePtr → (ℕ → ℕ) → Pool
put_lo p no_entry f = p
put_lo p (seg3_entry i) f = record p { kuseg3 = set_entry p.kuseg3 i (set_lo f) }
put_lo p (user_entry id i) f = record p {
  user = update p.user id (record (p.user id) { pte = set_entry (p.user id).pte i (set_lo f) });
}

pub lo-hit :
    (p : Pool) (q : PtePtr) (f : ℕ → ℕ) → IsEntry q → lo_of (put_lo p q f) q ≡ f (lo_of p q)
unfolding put_lo
lo-hit p no_entry f v = absurd v
lo-hit p (seg3_entry i) f v = ground arith
lo-hit p (user_entry id i) f v = ground arith

pub lo-miss :
    (p : Pool) (q r : PtePtr) (f : ℕ → ℕ)
    → same_ptr r q ≡ false
    → lo_of (put_lo p q f) r ≡ lo_of p r
unfolding put_lo
lo-miss p no_entry r f ne = refl
lo-miss p (seg3_entry i) no_entry f ne = refl
lo-miss p (seg3_entry i) (seg3_entry j) f ne = ground arith
lo-miss p (seg3_entry i) (user_entry b j) f ne = refl
lo-miss p (user_entry a i) no_entry f ne = refl
lo-miss p (user_entry a i) (seg3_entry j) f ne = refl
lo-miss p (user_entry a i) (user_entry b j) f ne = ground arith

pub put_lo-frame : (p : Pool) (q : PtePtr) (f : ℕ → ℕ) → (put_lo p q f).frame ≡ p.frame
unfolding put_lo
put_lo-frame p no_entry f = refl
put_lo-frame p (seg3_entry i) f = refl
put_lo-frame p (user_entry id i) f = refl

pub put_lo-ramtop : (p : Pool) (q : PtePtr) (f : ℕ → ℕ) → (put_lo p q f).ramtop ≡ p.ramtop
unfolding put_lo
put_lo-ramtop p no_entry f = refl
put_lo-ramtop p (seg3_entry i) f = refl
put_lo-ramtop p (user_entry id i) f = refl

abbrev pub is_used : Frame → Bool
is_used f = not (f.asid == minus_one)

-- The bit VALID of an entryLO.
abbrev pub is_valid : ℕ → Bool
is_valid lo = lo / 0x200 % 2 == 1

-- The entryLO of a page that is in the frame at `a`.
abbrev pub mapped : PtePtr → ℕ → ℕ
mapped (seg3_entry i) a = valid_dirty_global a
mapped q a = valid_dirty a

-- The page of each frame in use maps to that frame, no page is in two frames, and each valid entry
-- belongs to a page that is in a frame.
pub record IsPool (p : Pool) : Type 0 where
  pub entries : (i : ℕ) → i < swap_size → is_used (p.frame i) ≡ true → IsEntry (p.frame i).pte
  pub maps :
      (i : ℕ)
      → i < swap_size
      → is_used (p.frame i) ≡ true
      → lo_of p (p.frame i).pte ≡ mapped (p.frame i).pte (swap_address p.ramtop i)
  pub apart :
      (i j : ℕ)
      → i < swap_size
      → j < swap_size
      → (i == j) ≡ false
      → is_used (p.frame i) ≡ true
      → is_used (p.frame j) ≡ true
      → same_ptr (p.frame i).pte (p.frame j).pte ≡ false
  pub backed :
      (q : PtePtr)
      → IsEntry q
      → is_valid (lo_of p q) ≡ true
      → (i : ℕ) × (i < swap_size)
        × (is_used (p.frame i) ≡ true)
        × (same_ptr q (p.frame i).pte ≡ true)

-- The entry is that of no page in a frame.
abbrev pub IsAbsent : Pool → PtePtr → Type 0
IsAbsent p q =
    (i : ℕ) → i < swap_size → is_used (p.frame i) ≡ true → same_ptr (p.frame i).pte q ≡ false

and_digits-zero : (n a : ℕ) → digits (λ b. 0) min n a 0 ≡ 0
and_digits-zero zero a = refl
and_digits-zero (suc n) zero = refl
and_digits-zero (suc n) (suc a) = omega (arith, and_digits-zero n (suc a / 2))

pub bit_and-zero : (a : ℕ) → bit_and a 0 ≡ 0
bit_and-zero a = omega (arith, bit_and-bitwise a 0, and_digits-zero a a)

or_digits-zero : (n a : ℕ) → a ≤ n → digits (λ b. b) max n a 0 ≡ a
or_digits-zero zero a le = omega arith
or_digits-zero (suc n) zero le = refl
or_digits-zero (suc n) (suc a) le = omega (arith, or_digits-zero n (suc a / 2) (omega arith))

pub bit_or-zero : (a : ℕ) → bit_or a 0 ≡ a
bit_or-zero a = omega (arith, bit_or-bitwise a 0, or_digits-zero a a (omega arith))
