-- ===== src/Pcb/OutChild.antt =====
-- outChild and removeChild of pcb.c against the list of the parent's children.
use kaya_os.Base.{
  ℕ, ◌≡◌, refl, ◌∙◌, ==-refl, true, false, List, [], ◌∷◌, ◌++◌, arith, ◌==◌, if◌then◌else◌, Run,
  pure, not, ◌&&◌, All, has-append, ◌∈◌, ◌∉◌, IsDistinct-drop, erase, erase-middle, split, ok,
  Returns, Returns-mono, ◌⊎◌, inl, inr,
}
use kaya_os.Pcb.{
  null, Pcbs, load, out_only, out_first, out_middle, out_last, out_child, remove_child,
}
use kaya_os.Pcb.Access.{IsPcb, load-ok, IsPcb-ne_null}
use kaya_os.Pcb.Children.{
  child_of, parent_of, prev_sib_of, next_sib_of, Siblings, HasChildren, SameButTree,
}
use kaya_os.Pcb.Orphan.{
  Detached, out_only-Detached, out_first-Detached, out_middle-Detached, out_last-Detached,
}
use kaya_os.Pcb.Detach.{last_or, Place, place, start, Siblings-head, head-mem, Detached-Siblings}

-- What outChild promises for a child of `prnt`: it is returned and leaves the list, the others
-- stay in order, and its parent pointer is NULL. Only tree links change, and only those of
-- `prnt` and of the children.
pub record Orphaned (h : Pcbs) (prnt c : ℕ) (cs : List ℕ) (r : ℕ) (g : Pcbs) : Type 0 where
  pub result : r ≡ c
  pub children : HasChildren g prnt (erase c cs)
  pub parentless : parent_of g c ≡ null
  pub others : SameButTree h g
  pub outside : (a : ℕ) → IsPcb a → a ∉ (prnt ∷ cs) → g.cell a ≡ h.cell a

last_or-IsPcb : (x : ℕ) (xs : List ℕ) → IsPcb x → All IsPcb xs → IsPcb (last_or x xs)
last_or-IsPcb x [] v a = v
last_or-IsPcb x (y ∷ xs) v a = last_or-IsPcb y xs a.0 a.1

-- outChild at the choice of the branch, once it has read `child` and its parent.
abbrev chosen : Pcbs → ℕ → Run Pcbs ℕ
chosen h c =
    (let d = h.cell c in
        let first = c == child_of h (parent_of h c) in
        if d.next_sib == null && d.prev_sib == null && first
        then out_only c d
        else if first
        then out_first c d
        else if not (d.next_sib == null) && not (d.prev_sib == null)
        then out_middle c d
        else if d.next_sib == null && not (d.prev_sib == null)
        then out_last c d
        else pure null)
      h

module _ {h : Pcbs} (prnt c : ℕ) (xs ys : List ℕ) (hc : HasChildren h prnt (xs ++ c ∷ ys)) where
  placed : Place h prnt null c xs ys
  placed = place h prnt null (child_of h prnt) xs c ys hc.siblings

  parent-IsPcb : IsPcb (parent_of h c)
  parent-IsPcb = rw placed.parent hc.parent

  out_child-chosen : out_child c h ≡ chosen h c
  unfolding out_child
  out_child-chosen = rw (
    IsPcb-ne_null c placed.valid,
    load-ok c h placed.valid,
    IsPcb-ne_null (parent_of h c) parent-IsPcb,
    load-ok (parent_of h c) h parent-IsPcb,
  )

abbrev Takes : Pcbs → ℕ → ℕ → Pcbs → Type 0
Takes h c r g = (r ≡ c) × Detached h c g

-- Each branch runs at one kind of place: alone, first, between two, last.
out_child-Takes :
    {h : Pcbs} (prnt c : ℕ) (xs ys : List ℕ)
    → HasChildren h prnt (xs ++ c ∷ ys)
    → Returns (Takes h c) (chosen h c)
out_child-Takes {h} prnt c [] [] hc =
    let p = placed prnt c [] [] hc in
    let first : (c == child_of h (parent_of h c)) ≡ true =
      ground (arith, p.parent, hc.siblings.0) in
    let n : (next_sib_of h c == null) ≡ true = ground (arith, p.back) in
    let m : (prev_sib_of h c == null) ≡ true = ground (arith, p.prev) in
    rw (first, n, m) (out_only-Detached h c p.valid (parent-IsPcb prnt c [] [] hc) p.back p.prev)
out_child-Takes {h} prnt c [] (y ∷ ys) hc =
    let p = placed prnt c [] (y ∷ ys) hc in
    let first : (c == child_of h (parent_of h c)) ≡ true =
      ground (arith, p.parent, hc.siblings.0) in
    let vn : IsPcb (next_sib_of h c) = rw p.back.0 p.back.1 in
    rw (first, IsPcb-ne_null (next_sib_of h c) vn)
      (out_first-Detached h c p.valid (parent-IsPcb prnt c [] (y ∷ ys) hc) vn p.prev)
out_child-Takes {h} prnt c (x ∷ xs) (y ∷ ys) hc =
    let p = placed prnt c (x ∷ xs) (y ∷ ys) hc in
    let ne : (c == x) ≡ false = ground (arith, hc.distinct.0, has-append x xs (c ∷ y ∷ ys)) in
    let first : (c == child_of h (parent_of h c)) ≡ false =
      ground (arith, p.parent, hc.siblings.0) in
    let vn : IsPcb (next_sib_of h c) = rw p.back.0 p.back.1 in
    let vm : IsPcb (prev_sib_of h c) = rw p.prev (last_or-IsPcb x xs p.front.0 p.front.1) in
    rw (first, IsPcb-ne_null (next_sib_of h c) vn, IsPcb-ne_null (prev_sib_of h c) vm)
      (out_middle-Detached h c p.valid (parent-IsPcb prnt c (x ∷ xs) (y ∷ ys) hc) vn vm)
out_child-Takes {h} prnt c (x ∷ xs) [] hc =
    let p = placed prnt c (x ∷ xs) [] hc in
    let ne : (c == x) ≡ false = ground (arith, hc.distinct.0, has-append x xs (c ∷ [])) in
    let first : (c == child_of h (parent_of h c)) ≡ false =
      ground (arith, p.parent, hc.siblings.0) in
    let n : (next_sib_of h c == null) ≡ true = ground (arith, p.back) in
    let vm : IsPcb (prev_sib_of h c) = rw p.prev (last_or-IsPcb x xs p.front.0 p.front.1) in
    rw (first, n, IsPcb-ne_null (prev_sib_of h c) vm)
      (out_last-Detached h c p.valid (parent-IsPcb prnt c (x ∷ xs) [] hc) p.back vm)

Siblings-valid : (h : Pcbs) (prnt b x : ℕ) (cs : List ℕ) → Siblings h prnt b x cs → All IsPcb cs
Siblings-valid h prnt b x [] s = tt
Siblings-valid h prnt b x (c ∷ cs) s = (s.1, Siblings-valid h prnt c (next_sib_of h c) cs s.4)

not-mem-null : (cs : List ℕ) → All IsPcb cs → null ∉ cs
not-mem-null [] v = refl
not-mem-null (c ∷ cs) v = ground (arith, not-mem-null cs v.1)

last-ne : (a b : ℕ) (xs : List ℕ) → (a == b) ≡ false → a ∉ xs → (a == last_or b xs) ≡ false
last-ne a b [] n o = n
last-ne a b (x ∷ xs) n o = last-ne a x xs (ground arith) (ground arith)

Detached-head :
    {h g : Pcbs} (prnt c : ℕ) (xs ys : List ℕ)
    → Place h prnt null c xs ys
    → Detached h c g
    → child_of g prnt ≡ start xs (child_of h prnt) (next_sib_of h c)
Detached-head prnt c [] ys p d = ground (arith, d.heads prnt, p.parent, p.prev)
Detached-head prnt c (x ∷ xs) ys p d = ground (
  arith,
  d.heads prnt,
  p.parent,
  p.prev,
  IsPcb-ne_null (last_or x xs) (last_or-IsPcb x xs p.front.0 p.front.1),
)

Takes-Orphaned :
    {h : Pcbs} (prnt c : ℕ) (xs ys : List ℕ)
    → HasChildren h prnt (xs ++ c ∷ ys)
    → c ∉ xs
    → (r : ℕ) (g : Pcbs) → Takes h c r g
    → Orphaned h prnt c (xs ++ c ∷ ys) r g
Takes-Orphaned {h} prnt c xs ys hc out r g (e, d) = record {
  result = e;
  children = rw (erase-middle c xs ys out) (record {
    parent = hc.parent;
    distinct = IsDistinct-drop xs c ys hc.distinct;
    siblings =
        rw (Detached-head prnt c xs ys (placed prnt c xs ys hc) d)
          (Detached-Siblings prnt c d null (child_of h prnt) xs ys hc.distinct none hc.siblings);
  });
  parentless = d.parents c ∙ rw (==-refl c);
  others = d.others;
  outside = λ a v o.
      d.outside a (ground (arith, has-append a xs (c ∷ ys))) (ground (arith, p.parent))
        (rw p.prev
          (last-ne a null xs (IsPcb-ne_null a v) (ground (arith, has-append a xs (c ∷ ys)))))
        (rw (Siblings-head h prnt c (next_sib_of h c) ys p.back)
          (head-mem a ys (ground (arith, has-append a xs (c ∷ ys))) v));
}
  where
    p : Place h prnt null c xs ys
    p = placed prnt c xs ys hc

    none : null ∉ (xs ++ c ∷ ys)
    none = not-mem-null _ (Siblings-valid h prnt null (child_of h prnt) _ hc.siblings)

-- outChild of a child of `prnt` takes it out of the list, on each of its four branches.
pub out_child-mem :
    {h : Pcbs} {prnt : ℕ} {cs : List ℕ} (c : ℕ)
    → HasChildren h prnt cs
    → c ∈ cs
    → Returns (Orphaned h prnt c cs) (out_child c h)
out_child-mem {h} {prnt} {cs} c hc i =
    let s = split c cs i in
    let hc' : HasChildren h prnt (s.before ++ c ∷ s.after) = rw (← s.parts) hc in
    rw (s.parts, out_child-chosen prnt c s.before s.after hc')
      (Returns-mono (out_child-Takes prnt c s.before s.after hc')
        (Takes-Orphaned prnt c s.before s.after hc' s.first))

-- outChild of NULL, or of a block with no parent, returns NULL and changes nothing.
pub out_child-none :
    {h : Pcbs} (c : ℕ) → (c ≡ null) ⊎ (IsPcb c × (parent_of h c ≡ null)) → out_child c h ≡ ok null h
unfolding out_child load
out_child-none c (inl e) = ground arith
out_child-none c (inr (v, e)) = ground arith

-- removeChild of a block without children returns NULL and changes nothing.
pub remove_child-nil :
    {h : Pcbs} {prnt : ℕ} → HasChildren h prnt [] → remove_child prnt h ≡ ok null h
unfolding remove_child
remove_child-nil {h} {prnt} hc =
    rw (load-ok prnt h hc.parent) (out_child-none (child_of h prnt) (inl hc.siblings))

-- removeChild takes the first child out of the list.
pub remove_child-cons :
    {h : Pcbs} {prnt c : ℕ} {cs : List ℕ}
    → HasChildren h prnt (c ∷ cs)
    → Returns (Orphaned h prnt c (c ∷ cs)) (remove_child prnt h)
unfolding remove_child
remove_child-cons {h} {prnt} {c} hc =
    rw (load-ok prnt h hc.parent, hc.siblings.0) (out_child-mem c hc (ground arith))
