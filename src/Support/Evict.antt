-- ===== src/Support/Evict.antt =====
-- What page_in does to the swap pool and the page tables, as functions of both.
use kaya_os.Base.{
  ℕ, ◌+◌, ◌%◌, ◌≡◌, refl, ap, ◌∙◌, true, false, ◌==◌, ==-refl, ==-sound, and-parts, Bool-cases, inl,
  inr, if◌then◌else◌, arith,
}
use Prim.Native.Nat.{bit_and}
use kaya_os.Kernel.{update}
use kaya_os.Support.{swap_size, PtePtr, no_entry, seg3_entry, user_entry}
use kaya_os.Support.Pager.{swap_address}
use kaya_os.Support.Pool.{
  Pool, same_ptr, IsEntry, lo_of, put_lo, lo-hit, lo-miss, put_lo-frame, put_lo-ramtop, is_used,
  mapped, bit_and-zero,
}

-- The entry for a page: kuSeg3 for segment 3, the table of the process otherwise.
abbrev pub entry_for : (id seg page : ℕ) → PtePtr
entry_for id seg page = if seg == 3 then seg3_entry page else user_entry id page

-- The page that is in the frame `i` is gone.
abbrev pub evicted : Pool → ℕ → Pool
evicted p i = if is_used (p.frame i) then put_lo p (p.frame i).pte (λ lo. bit_and lo 0) else p

-- The frame `i` is the page of the entry `q`.
abbrev pub framed : Pool → (i id seg page : ℕ) → PtePtr → Pool
framed p i id seg page q = record p {
  frame = update p.frame i (record { asid = id; page = page; seg = seg; pte = q });
}

abbrev pub placed : Pool → (i address id seg page : ℕ) → PtePtr → Pool
placed p i address id seg page q = put_lo (framed p i id seg page q) q (λ lo. mapped q address)

abbrev pub turn : Pool → ℕ
turn p = (p.next + 1) % swap_size

abbrev pub serve : Pool → (id seg page : ℕ) → Pool
serve p id seg page =
    let i = turn p in
    placed (evicted (record p { next = i }) i) i (swap_address p.ramtop i) id seg page
      (entry_for id seg page)

pub same_ptr_sound : (q r : PtePtr) → same_ptr q r ≡ true → q ≡ r
same_ptr_sound no_entry no_entry e = refl
same_ptr_sound no_entry (seg3_entry j) e = absurd (ground (arith, e))
same_ptr_sound no_entry (user_entry b j) e = absurd (ground (arith, e))
same_ptr_sound (seg3_entry i) no_entry e = absurd (ground (arith, e))
same_ptr_sound (seg3_entry i) (seg3_entry j) e = ap seg3_entry (==-sound i j e)
same_ptr_sound (seg3_entry i) (user_entry b j) e = absurd (ground (arith, e))
same_ptr_sound (user_entry a i) no_entry e = absurd (ground (arith, e))
same_ptr_sound (user_entry a i) (seg3_entry j) e = absurd (ground (arith, e))
same_ptr_sound (user_entry a i) (user_entry b j) e =
    let (x, y) = and-parts (a == b) (i == j) e in rw (==-sound a b x, ==-sound i j y) refl

same_ptr_refl : (q : PtePtr) → same_ptr q q ≡ true
same_ptr_refl no_entry = refl
same_ptr_refl (seg3_entry i) = ==-refl i
same_ptr_refl (user_entry a i) = rw (==-refl a, ==-refl i) refl

pub same_ptr_swapped : (q r : PtePtr) → same_ptr q r ≡ false → same_ptr r q ≡ false
same_ptr_swapped q r e = elim (Bool-cases (same_ptr r q)) [
  | inl h ↦
      let e' : same_ptr q q ≡ false = (rw (same_ptr_sound r q h) at e) in
      absurd (ground (arith, e', same_ptr_refl q))
  | inr h ↦ h
]

pub lo_of-framed :
    (p : Pool) (i id seg page : ℕ) (q r : PtePtr) → lo_of (framed p i id seg page q) r ≡ lo_of p r
lo_of-framed p i id seg page q no_entry = refl
lo_of-framed p i id seg page q (seg3_entry j) = refl
lo_of-framed p i id seg page q (user_entry b j) = refl

pub evicted-frame : (p : Pool) (i : ℕ) → (evicted p i).frame ≡ p.frame
evicted-frame p i = elim (Bool-cases (is_used (p.frame i))) [
  | inl h ↦ rw h (put_lo-frame p (p.frame i).pte (λ lo. bit_and lo 0))
  | inr h ↦ rw h refl
]

pub evicted-ramtop : (p : Pool) (i : ℕ) → (evicted p i).ramtop ≡ p.ramtop
evicted-ramtop p i = elim (Bool-cases (is_used (p.frame i))) [
  | inl h ↦ rw h (put_lo-ramtop p (p.frame i).pte (λ lo. bit_and lo 0))
  | inr h ↦ rw h refl
]

-- an entry that is not that of the page in the frame
pub evicted-other :
    (p : Pool) (i : ℕ) (q : PtePtr)
    → (is_used (p.frame i) ≡ true → same_ptr q (p.frame i).pte ≡ false)
    → lo_of (evicted p i) q ≡ lo_of p q
evicted-other p i q ne = elim (Bool-cases (is_used (p.frame i))) [
  | inl h ↦ rw h (lo-miss p (p.frame i).pte q (λ lo. bit_and lo 0) (ne h))
  | inr h ↦ rw h refl
]

-- the entry of the page in the frame
pub evicted-same :
    (p : Pool) (i : ℕ)
    → IsEntry (p.frame i).pte
    → is_used (p.frame i) ≡ true
    → lo_of (evicted p i) (p.frame i).pte ≡ 0
evicted-same p i v h =
    rw h (lo-hit p (p.frame i).pte (λ lo. bit_and lo 0) v ∙ bit_and-zero (lo_of p (p.frame i).pte))
