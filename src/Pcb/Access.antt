-- ===== src/Pcb/Access.antt =====
-- Reads and writes through a pointer to a block.
use kaya_os.Base.{ℕ, ◌≡◌, refl, true, false, arith, ◌==◌, ==-refl, ok, Returns, returns}
use kaya_os.Pcb.{null, is_pcb, Pcb, Pcbs, put, load, update}

abbrev pub IsPcb : ℕ → Type 0
IsPcb p = is_pcb p ≡ true

abbrev pub with : Pcbs → ℕ → (Pcb → Pcb) → Pcbs
with h p f = put h p (f (h.cell p))

pub load-ok : (p : ℕ) (h : Pcbs) → IsPcb p → load p h ≡ ok (h.cell p) h
unfolding load
load-ok p h v = ground arith

pub update-ok : (p : ℕ) (f : Pcb → Pcb) (h : Pcbs) → IsPcb p → update p f h ≡ ok tt (with h p f)
unfolding update
update-ok p f h v = ground arith

-- NULL names no block.
pub IsPcb-ne_null : (p : ℕ) → IsPcb p → (p == null) ≡ false
IsPcb-ne_null p v = ground arith

-- `g` is `h` but for the block `p`, which is `c`, and for the head of the free list.
pub record At (p : ℕ) (c : Pcb) (h : Pcbs) (g : Pcbs) : Type 0 where
  pub here : g.cell p ≡ c
  pub outside : (a : ℕ) → (a == p) ≡ false → g.cell a ≡ h.cell a

-- A write to a block known to be `c`.
pub update-At :
    {p : ℕ} {c : Pcb} {h g : Pcbs} (f : Pcb → Pcb)
    → IsPcb p
    → At p c h g
    → Returns (λ _ g'. At p (f c) h g' × (g'.free ≡ g.free)) (update p f g)
unfolding put
update-At {p} {g} f v a = rw (update-ok p f g v) (
    returns
      (record { here = rw (==-refl p, a.here); outside = λ b ne. rw ne (a.outside b ne) }, refl))
