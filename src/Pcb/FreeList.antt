-- ===== src/Pcb/FreeList.antt =====
-- The free list of pcb.c, a stack through `pcb_next`: initPcbs, freePcb and allocPcb.
use kaya_os.Base.{
  ℕ, zero, suc, ◌+◌, ◌<◌, ◌≡◌, refl, ap, false, List, [], ◌∷◌, arith, ◌==◌, ◌∈◌, ◌∉◌, IsDistinct,
  ok, Returns, returns, Returns-bind, Returns-mono,
}
use mathlib.Core.Path.{subst}
use native.Mathlib.Numerals.{add-one}
use kaya_os.Pcb.{
  null, max_proc, sections, old_state, new_state, Pcb, Pcbs, put, update, free_pcb, init_loop,
  init_pcbs, clear_states, alloc_pcb,
}
use kaya_os.Pcb.Access.{IsPcb, load-ok, At, update-At, IsPcb-ne_null}
use kaya_os.Pcb.Links.{next_of, with_next}

-- From `p` the `next` pointers lead through the blocks `fs` to NULL.
abbrev pub Stack : Pcbs → ℕ → List ℕ → Type 0
Stack h p [] = p ≡ null
Stack h p (f ∷ fs) = (p ≡ f) × IsPcb f × Stack h (next_of h f) fs

-- `fs` are the free blocks, the next one to be given out first.
pub record IsFree (h : Pcbs) (fs : List ℕ) : Type 0 where
  pub distinct : IsDistinct fs
  pub stack : Stack h h.free fs

pub Stack-frame :
    (g h : Pcbs) (p : ℕ) (fs : List ℕ)
    → ((q : ℕ) → q ∈ fs → next_of g q ≡ next_of h q)
    → Stack h p fs
    → Stack g p fs
Stack-frame g h p [] same s = s
Stack-frame g h p (f ∷ fs) same s = (
  s.0,
  s.1,
  ground (arith, same f, Stack-frame g h (next_of h f) fs (λ q i. same q (ground arith)) s.2),
)

-- freePcb makes the block the next one to be given out, and writes only its `next`.
pub free_pcb-cons :
    {h : Pcbs} {fs : List ℕ} (p : ℕ)
    → IsFree h fs
    → IsPcb p
    → p ∉ fs
    → Returns
        (λ _ g. IsFree g (p ∷ fs) × ((a : ℕ) → g.cell a ≡ (with_next h p h.free).cell a))
        (free_pcb p h)
unfolding free_pcb update put
free_pcb-cons {h} {fs} p is v out =
    let g : Pcbs = record (with_next h p h.free) { free = p } in
    let run : free_pcb p h ≡ ok tt g = ground arith in
    rw run (
      returns (
        record {
          distinct = (out, is.distinct);
          stack =
              (refl, v, ground (arith, Stack-frame g h h.free fs (λ q i. ground arith) is.stack));
        },
        λ a. refl,
      ))

-- A freed block: what allocPcb makes of it.
pub record IsClean (c : Pcb) : Type 0 where
  pub off_queue : (c.next ≡ null) × (c.prev ≡ null)
  pub no_child : c.child ≡ null
  pub no_sibling : (c.prev_sib ≡ null) × (c.next_sib ≡ null)
  pub not_blocked : c.sem_add ≡ null
  pub no_handler :
      (i : ℕ) → i < sections → (c.states i old_state ≡ null) × (c.states i new_state ≡ null)

-- What allocPcb promises when there is a free block.
pub record Allocated (h : Pcbs) (p : ℕ) (fs : List ℕ) (r : ℕ) (g : Pcbs) : Type 0 where
  pub result : r ≡ p
  pub free : IsFree g fs
  pub clean : IsClean (g.cell p)
  pub kept :
      ((g.cell p).parent ≡ (h.cell p).parent)
      × ((g.cell p).state ≡ (h.cell p).state)
      × ((g.cell p).time ≡ (h.cell p).time)
  pub outside : (a : ℕ) → (a == p) ≡ false → g.cell a ≡ h.cell a

-- the seven writes of allocPcb
abbrev cleaned : Pcb → Pcb
cleaned c = record c {
  next = null;
  prev = null;
  child = null;
  prev_sib = null;
  next_sib = null;
  sem_add = null;
  states = clear_states sections 0 c.states;
}

cleaned-IsClean : (c : Pcb) → IsClean (cleaned c)
unfolding clear_states
cleaned-IsClean c = record {
  off_queue = (refl, refl);
  no_child = refl;
  no_sibling = (refl, refl);
  not_blocked = refl;
  no_handler = λ i lt. (ground arith, ground arith);
}

abbrev Wiped : ℕ → Pcbs → ℕ → Pcbs → Type 0
Wiped p h r g = (r ≡ p) × At p (cleaned (h.cell p)) h g × (g.free ≡ next_of h p)

alloc_pcb-Wiped : (h : Pcbs) → IsPcb h.free → Returns (Wiped h.free h) (alloc_pcb h)
unfolding alloc_pcb
alloc_pcb-Wiped h v =
    let p = h.free in
    let h' : Pcbs = record h { free = next_of h p } in
    let start : At p (h.cell p) h h' = record { here = refl; outside = λ a ne. refl } in
    rw (IsPcb-ne_null p v, load-ok p h v)
      (Returns-bind (update-At _ v start) λ _ _ (w₁, f₁).
        Returns-bind (update-At _ v w₁) λ _ _ (w₂, f₂).
          Returns-bind (update-At _ v w₂) λ _ _ (w₃, f₃).
            Returns-bind (update-At _ v w₃) λ _ _ (w₄, f₄).
              Returns-bind (update-At _ v w₄) λ _ _ (w₅, f₅).
                Returns-bind (update-At _ v w₅) λ _ _ (w₆, f₆).
                  Returns-bind (update-At _ v w₆) λ _ _ (w₇, f₇). returns (refl, w₇, cc))

Wiped-Allocated :
    {h : Pcbs} {p : ℕ} {fs : List ℕ}
    → IsFree h (p ∷ fs)
    → (r : ℕ) (g : Pcbs) → Wiped p h r g
    → Allocated h p fs r g
Wiped-Allocated {h} {p} {fs} is r g (e, w, f) = record {
  result = e;
  free = record {
    distinct = is.distinct.1;
    stack = rw f (
        Stack-frame g h (next_of h p) fs
          (λ q i. ap Pcb.next (w.outside q (ground (arith, is.distinct.0)))) is.stack.2);
  };
  clean = rw w.here (cleaned-IsClean (h.cell p));
  kept = rw w.here (refl, refl, refl);
  outside = w.outside;
}

-- allocPcb gives out the first free block, cleared, and touches no other block; it leaves the
-- parent pointer, the processor state and the time of the block as they were.
pub alloc_pcb-cons :
    {h : Pcbs} {p : ℕ} {fs : List ℕ} → IsFree h (p ∷ fs) → Returns (Allocated h p fs) (alloc_pcb h)
alloc_pcb-cons {h} {p} is =
    Returns-mono
      (subst (λ q. Returns (Wiped q h) (alloc_pcb h)) is.stack.0
        (alloc_pcb-Wiped h (rw is.stack.0 is.stack.1)))
      (Wiped-Allocated is)

-- allocPcb with no free block returns NULL and changes nothing.
pub alloc_pcb-nil : {h : Pcbs} → IsFree h [] → alloc_pcb h ≡ ok null h
unfolding alloc_pcb
alloc_pcb-nil is = ground (arith, is.stack)

-- &array[0] .. &array[n - 1], the last one first.
abbrev pub table : ℕ → List ℕ
table zero = []
table (suc n) = (n + 1) ∷ table n

pub table-out : (n a : ℕ) → n < a → a ∉ table n
table-out zero a lt = refl
table-out (suc n) a lt = ground (arith, table-out n a)

init_loop-IsFree :
    (k it : ℕ) {h : Pcbs}
    → it + k ≡ max_proc
    → IsFree h (table it)
    → Returns (λ _ g. IsFree g (table max_proc)) (init_loop k it h)
unfolding init_loop
init_loop-IsFree zero it e is = let all : it ≡ max_proc = omega arith in returns (rw all at is)
init_loop-IsFree (suc k) it e is =
    Returns-bind (free_pcb-cons (it + 1) is (ground arith) (table-out it (it + 1) (omega arith)))
      λ _ g (done, _). init_loop-IsFree k (it + 1) (omega arith) (rw (add-one it) done)

-- initPcbs puts all MAXPROC blocks on the free list, whatever was there.
pub init_pcbs-IsFree : (h : Pcbs) → Returns (λ _ g. IsFree g (table max_proc)) (init_pcbs h)
unfolding init_pcbs
init_pcbs-IsFree h = init_loop-IsFree max_proc 0 refl (record { distinct = tt; stack = refl })
