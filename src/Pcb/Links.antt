-- ===== src/Pcb/Links.antt =====
-- Runs of blocks linked both ways, as the queues of pcb.c are, and what a write does to them.
use kaya_os.Base.{ℕ, ◌≡◌, refl, List, [], ◌∷◌, ◌++◌, arith, ◌∈◌, ◌∉◌, IsDistinct}
use kaya_os.Base.Joined
use kaya_os.Base.Joined.{cut, Joined-cut, Joined, Joined-frame, Joined-append, Joined-parts}
use kaya_os.Pcb.{null, Pcb, Pcbs, put}

abbrev pub next_of : Pcbs → ℕ → ℕ
next_of h p = (h.cell p).next

abbrev pub prev_of : Pcbs → ℕ → ℕ
prev_of h p = (h.cell p).prev

abbrev pub with_next : Pcbs → ℕ → ℕ → Pcbs
with_next h p q = put h p (record (h.cell p) { next = q })

abbrev pub with_prev : Pcbs → ℕ → ℕ → Pcbs
with_prev h p q = put h p (record (h.cell p) { prev = q })

-- From `a` the `next` pointers lead through `xs` to `b`, and the `prev` pointers back.
abbrev pub Links : Pcbs → ℕ → List ℕ → ℕ → Type 0
Links h = Joined (next_of h) (prev_of h)

pub Links-frame :
    (g h : Pcbs) (a : ℕ) (xs : List ℕ) (b : ℕ)
    → ((q : ℕ) → q ∈ (a ∷ xs) → next_of g q ≡ next_of h q)
    → ((q : ℕ) → q ∈ (xs ++ b ∷ []) → prev_of g q ≡ prev_of h q)
    → Links h a xs b
    → Links g a xs b
Links-frame g h = Joined-frame (next_of h) (prev_of h) (next_of g) (prev_of g)

pub Links-append :
    (h : Pcbs) (a : ℕ) (xs : List ℕ) (m : ℕ) (ys : List ℕ) (b : ℕ)
    → Links h a xs m
    → Links h m ys b
    → Links h a (xs ++ m ∷ ys) b
Links-append h = Joined-append (next_of h) (prev_of h)

pub Links-parts :
    (h : Pcbs) (a : ℕ) (xs : List ℕ) (m : ℕ) (ys : List ℕ) (b : ℕ)
    → Links h a (xs ++ m ∷ ys) b
    → Links h a xs m × Links h m ys b
Links-parts h = Joined-parts (next_of h) (prev_of h)

-- The ends of a run: the block after `a`, and the block before `b`.
pub next-mem :
    (h : Pcbs) (a : ℕ) (xs : List ℕ) (b : ℕ) → Links h a xs b → next_of h a ∈ (xs ++ b ∷ [])
next-mem h = Joined.next-mem (next_of h) (prev_of h)

pub prev-mem : (h : Pcbs) (a : ℕ) (xs : List ℕ) (b : ℕ) → Links h a xs b → prev_of h b ∈ (a ∷ xs)
prev-mem h = Joined.prev-mem (next_of h) (prev_of h)

-- A write to the links that leaves the state `g`: what stays of `h`.
unfoldable pub rest : Pcb → Pcb
rest c = record c { next = null; prev = null }

-- `g` differs from `h` at most in the queue links of the blocks `xs`.
pub record Relinked (xs : List ℕ) (h g : Pcbs) : Type 0 where
  pub outside : (a : ℕ) → a ∉ xs → g.cell a ≡ h.cell a
  pub others : (a : ℕ) → rest (g.cell a) ≡ rest (h.cell a)
  pub same_free : g.free ≡ h.free

pub Relinked-refl : (xs : List ℕ) (h : Pcbs) → Relinked xs h h
Relinked-refl xs h = record { outside = λ a o. refl; others = λ a. refl; same_free = refl }

pub Relinked-next :
    {xs : List ℕ} {h g : Pcbs} (p q : ℕ)
    → p ∈ xs
    → Relinked xs h g
    → Relinked xs h (with_next g p q)
unfolding put rest
Relinked-next p q i r = record {
  outside = λ a o. ground (arith, r.outside a);
  others = λ a. ground (arith, r.others a, r.others p);
  same_free = r.same_free;
}

pub Relinked-prev :
    {xs : List ℕ} {h g : Pcbs} (p q : ℕ)
    → p ∈ xs
    → Relinked xs h g
    → Relinked xs h (with_prev g p q)
unfolding put rest
Relinked-prev p q i r = record {
  outside = λ a o. ground (arith, r.outside a);
  others = λ a. ground (arith, r.others a, r.others p);
  same_free = r.same_free;
}

-- p -> prev -> next = p -> next;  p -> next -> prev = p -> prev;
abbrev pub unlinked : Pcbs → ℕ → Pcbs
unlinked h p = with_prev (with_next h (prev_of h p) (next_of h p)) (next_of h p) (prev_of h p)

-- Taking `p` out of a run closes the run behind it.
pub Links-unlinked :
    (h : Pcbs) (a : ℕ) (xs : List ℕ) (p : ℕ) (ys : List ℕ) (b : ℕ)
    → IsDistinct (xs ++ p ∷ ys)
    → a ∉ (xs ++ p ∷ ys)
    → b ∉ (xs ++ p ∷ ys)
    → Links h a xs p
    → Links h p ys b
    → Links (unlinked h p) a (xs ++ ys) b
unfolding put
Links-unlinked h a xs p ys b d na nb l r =
    Joined-frame (cut (next_of h) (prev_of h p) (next_of h p))
      (cut (prev_of h) (next_of h p) (prev_of h p)) (next_of (unlinked h p))
      (prev_of (unlinked h p)) a (xs ++ ys) b (λ q i. ground arith) (λ q i. ground arith)
      (Joined-cut (next_of h) (prev_of h) a xs p ys b d na nb l r)
