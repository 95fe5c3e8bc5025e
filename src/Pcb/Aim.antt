-- ===== src/Pcb/Aim.antt =====
-- The semaphore a block waits for, which asl.c keeps in pcb_semAdd.
use kaya_os.Base.{ℕ, ◌≡◌, refl, ap, ◌∙◌, false, List, arith, ◌==◌, ◌∈◌, ◌∉◌}
use kaya_os.Pcb.{null, Pcb, Pcbs, put}
use kaya_os.Pcb.Access.{with}
use kaya_os.Pcb.Links.{Relinked, rest}
use kaya_os.Pcb.Frame.{SameLinks}

-- The queue links and the semaphore of the process `q` are what they were.
abbrev pub Kept : Pcbs → Pcbs → ℕ → Type 0
Kept g h q = SameLinks g h q × ((g.cell q).sem_add ≡ (h.cell q).sem_add)

-- p -> pcb_semAdd = k;
abbrev pub aimed : Pcbs → ℕ → ℕ → Pcbs
aimed h p k = with h p (λ c. record c { sem_add = k })

pub aimed-Kept : (h : Pcbs) (p k q : ℕ) → (q == p) ≡ false → Kept (aimed h p k) h q
unfolding put
aimed-Kept h p k q ne = ground arith

pub aimed-SameLinks : (h : Pcbs) (p k q : ℕ) → SameLinks (aimed h p k) h q
unfolding put
aimed-SameLinks h p k q = ground arith

pub aimed-hit : (h : Pcbs) (p k : ℕ) → ((aimed h p k).cell p).sem_add ≡ k
unfolding put
aimed-hit h p k = ground arith

-- Relinking leaves the semaphore of each block, and the links outside.
pub Relinked-sem_add :
    {ps : List ℕ} {h g : Pcbs} → Relinked ps h g → (q : ℕ) → (g.cell q).sem_add ≡ (h.cell q).sem_add
unfolding rest
Relinked-sem_add r q = ap Pcb.sem_add (r.others q)

pub Relinked-Kept : {ps : List ℕ} {h g : Pcbs} → Relinked ps h g → (q : ℕ) → q ∉ ps → Kept g h q
Relinked-Kept r q o =
    let same = r.outside q o in ((ap Pcb.next same, ap Pcb.prev same), ap Pcb.sem_add same)

pub Kept-trans : (f g h : Pcbs) (q : ℕ) → Kept f g q → Kept g h q → Kept f h q
Kept-trans f g h q k l = ((k.0.0 ∙ l.0.0, k.0.1 ∙ l.0.1), k.1 ∙ l.1)

-- A block without its queue links and its semaphore.
unfoldable pub core : Pcb → Pcb
core c = record c { next = null; prev = null; sem_add = null }

-- `g` differs from `h` at most in the queue links and the semaphores of the blocks `xs`.
pub record Moved (xs : List ℕ) (h g : Pcbs) : Type 0 where
  pub outside : (a : ℕ) → a ∉ xs → g.cell a ≡ h.cell a
  pub others : (a : ℕ) → core (g.cell a) ≡ core (h.cell a)
  pub same_free : g.free ≡ h.free

pub Relinked-Moved : {xs : List ℕ} {h g : Pcbs} → Relinked xs h g → Moved xs h g
unfolding core rest
Relinked-Moved r = record {
  outside = r.outside;
  others = λ a. ap core (r.others a);
  same_free = r.same_free;
}

pub Moved-refl : (xs : List ℕ) (h : Pcbs) → Moved xs h h
Moved-refl xs h = record { outside = λ a o. refl; others = λ a. refl; same_free = refl }

pub aimed-Moved : {xs : List ℕ} (h : Pcbs) (p k : ℕ) → p ∈ xs → Moved xs h (aimed h p k)
unfolding core put
aimed-Moved h p k i = record {
  outside = λ a o. ground arith;
  others = λ a. ground arith;
  same_free = refl;
}

pub Moved-trans : {xs : List ℕ} {f g h : Pcbs} → Moved xs f g → Moved xs g h → Moved xs f h
Moved-trans m n = record {
  outside = λ a o. n.outside a o ∙ m.outside a o;
  others = λ a. n.others a ∙ m.others a;
  same_free = n.same_free ∙ m.same_free;
}

-- What is not moved is kept.
pub Moved-Kept : {xs : List ℕ} {h g : Pcbs} → Moved xs h g → (q : ℕ) → q ∉ xs → Kept g h q
Moved-Kept m q o =
    let same = m.outside q o in ((ap Pcb.next same, ap Pcb.prev same), ap Pcb.sem_add same)

pub Moved-state :
    {xs : List ℕ} {h g : Pcbs} → Moved xs h g → (q : ℕ) → (g.cell q).state ≡ (h.cell q).state
unfolding core
Moved-state m q = ap Pcb.state (m.others q)
