-- ===== src/Pcb/Detach.antt =====
-- The list of a parent's children when outChild has joined the neighbours of one of them.
use kaya_os.Base.{
  ℕ, ◌≡◌, false, List, [], ◌∷◌, ◌++◌, arith, ◌==◌, All, has-append, ◌∈◌, ◌∉◌, IsDistinct,
}
use kaya_os.Pcb.{Pcbs}
use kaya_os.Pcb.Access.{IsPcb, IsPcb-ne_null}
use kaya_os.Pcb.Out.{head_or_null}
use kaya_os.Pcb.Children.{parent_of, prev_sib_of, next_sib_of, Siblings, Siblings-frame}
use kaya_os.Pcb.Orphan.{Detached}

-- the block before the end of `xs`, or `before`
abbrev pub last_or : ℕ → List ℕ → ℕ
last_or before [] = before
last_or before (x ∷ xs) = last_or x xs

pub last_or-mem : (b : ℕ) (xs : List ℕ) → last_or b xs ∈ (b ∷ xs)
last_or-mem b [] = ground arith
last_or-mem b (x ∷ xs) = ground (arith, last_or-mem x xs)

-- What the list says of its block `c`, which stands between `xs` and `ys`.
pub record Place (h : Pcbs) (prnt before c : ℕ) (xs ys : List ℕ) : Type 0 where
  pub valid : IsPcb c
  pub parent : parent_of h c ≡ prnt
  pub prev : prev_sib_of h c ≡ last_or before xs
  pub front : All IsPcb xs
  pub back : Siblings h prnt c (next_sib_of h c) ys

pub place :
    (h : Pcbs) (prnt before x : ℕ) (xs : List ℕ) (c : ℕ) (ys : List ℕ)
    → Siblings h prnt before x (xs ++ c ∷ ys)
    → Place h prnt before c xs ys
place h prnt b x [] c ys s = record {
  valid = s.1;
  parent = s.2;
  prev = s.3;
  front = tt;
  back = s.4;
}
place h prnt b x (y ∷ xs) c ys s =
    let p = place h prnt y (next_sib_of h y) xs c ys s.4 in
    record {
      valid = p.valid;
      parent = p.parent;
      prev = p.prev;
      front = (s.1, p.front);
      back = p.back;
    }

-- the head of what is left when the block behind `xs` goes, with `n` behind it
abbrev pub start : List ℕ → ℕ → ℕ → ℕ
start [] x n = n
start (_ ∷ _) x n = x

pub Siblings-head :
    (h : Pcbs) (prnt before x : ℕ) (ys : List ℕ) → Siblings h prnt before x ys → x ≡ head_or_null ys
Siblings-head h prnt b x [] s = s
Siblings-head h prnt b x (y ∷ ys) s = s.0

pub head-mem : (a : ℕ) (ys : List ℕ) → a ∉ ys → IsPcb a → (a == head_or_null ys) ≡ false
head-mem a [] o v = IsPcb-ne_null a v
head-mem a (y ∷ ys) o v = ground arith

module _ {h g : Pcbs} (prnt c : ℕ) (d : Detached h c g) where
  -- behind `c`
  Detached-back :
      (b : ℕ) (ys : List ℕ)
      → prev_sib_of h c ≡ b
      → c ∉ ys
      → b ∉ ys
      → IsDistinct ys
      → Siblings h prnt c (next_sib_of h c) ys
      → Siblings g prnt b (next_sib_of h c) ys
  Detached-back b [] e oc ob dy s = s
  Detached-back b (y ∷ ys) e oc ob dy s =
      let n : next_sib_of g y ≡ next_sib_of h y = ground (arith, d.nexts y s.1) in
      let spared = λ (q : ℕ) (i : q ∈ ys) (w : IsPcb q). spares q i w in
      (
        s.0,
        s.1,
        ground (arith, d.parents y, s.2),
        ground (arith, d.prevs y s.1, s.0, e),
        rw n (Siblings-frame g h prnt y (next_sib_of h y) ys spared s.4),
      )
    where
      spares :
          (q : ℕ)
          → q ∈ ys
          → IsPcb q
          → (parent_of g q ≡ parent_of h q)
            × (prev_sib_of g q ≡ prev_sib_of h q)
            × (next_sib_of g q ≡ next_sib_of h q)
      spares q i w = (
        ground (arith, d.parents q),
        ground (arith, d.prevs q w, s.0, dy.0),
        ground (arith, d.nexts q w, e),
      )

  Detached-next :
      (y : ℕ) (xs ys : List ℕ)
      → IsPcb y
      → y ∉ xs
      → Place h prnt y c xs ys
      → next_sib_of g y ≡ start xs (next_sib_of h y) (next_sib_of h c)
  Detached-next y [] ys v o p = ground (arith, d.nexts y v, p.prev)
  Detached-next y (x ∷ xs) ys v o p = ground (arith, d.nexts y v, p.prev, last_or-mem x xs)

  pub Detached-Siblings :
      (b x : ℕ) (xs ys : List ℕ)
      → IsDistinct (xs ++ c ∷ ys)
      → b ∉ (xs ++ c ∷ ys)
      → Siblings h prnt b x (xs ++ c ∷ ys)
      → Siblings g prnt b (start xs x (next_sib_of h c)) (xs ++ ys)
  Detached-Siblings b x [] ys dis out s = Detached-back b ys s.3 dis.0 (ground arith) dis.1 s.4
  Detached-Siblings b x (y ∷ xs) ys dis out s =
      let p = place h prnt y (next_sib_of h y) xs c ys s.4 in
      let o : y ∉ xs = ground (arith, dis.0, has-append y xs (c ∷ ys)) in
      let ne-c : (y == c) ≡ false = ground (arith, dis.0, has-append y xs (c ∷ ys)) in
      let oy : y ∉ ys = ground (arith, dis.0, has-append y xs (c ∷ ys)) in
      let n = Siblings-head h prnt c (next_sib_of h c) ys p.back in
      (
        s.0,
        s.1,
        ground (arith, d.parents y, s.2),
        ground (arith, d.prevs y s.1, s.3, n, head-mem y ys oy s.1),
        rw (Detached-next y xs ys s.1 o p)
            (Detached-Siblings y (next_sib_of h y) xs ys dis.1 dis.0 s.4),
      )
