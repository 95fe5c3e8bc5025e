-- ===== src/Pcb/Adopt.antt =====
-- insertChild of pcb.c against the list of the parent's children.
use kaya_os.Base.{
  ℕ, ◌≡◌, refl, ◌∙◌, ==-refl, false, List, [], ◌∷◌, arith, ◌==◌, if◌then◌else◌, ◌∈◌, ◌∉◌, ok,
  Returns, returns,
}
use kaya_os.Pcb.{null, Pcbs, put, update, empty_child, first_child, another_child, insert_child}
use kaya_os.Pcb.Access.{IsPcb, with, load-ok, update-ok, IsPcb-ne_null}
use kaya_os.Pcb.Children.{
  child_of, parent_of, prev_sib_of, next_sib_of, Siblings, HasChildren, Siblings-frame, tree,
  SameButTree,
}

-- the heaps that the two branches of insertChild leave
abbrev first_linked : Pcbs → ℕ → ℕ → Pcbs
first_linked h prnt p =
    with
      (with (with (with h prnt (λ c. record c { child = p })) p (λ c. record c { parent = prnt })) p
        (λ c. record c { next_sib = null }))
      p (λ c. record c { prev_sib = null })

first_child-run :
    (h : Pcbs) (prnt p : ℕ)
    → IsPcb prnt
    → IsPcb p
    → first_child prnt p h ≡ ok tt (first_linked h prnt p)
unfolding first_child update
first_child-run h prnt p vp v = ground arith

-- the five writes of the other branch
abbrev another_linked : Pcbs → (prnt p : ℕ) → Pcbs
another_linked h prnt p =
    let h₁ = with h (child_of h prnt) (λ c. record c { prev_sib = p }) in
    let x = child_of h₁ prnt in
    with
      (with (with (with h₁ p (λ c. record c { next_sib = x })) p (λ c. record c { parent = prnt }))
        prnt (λ c. record c { child = p }))
      p (λ c. record c { prev_sib = null })

another_child-run :
    (h : Pcbs) (prnt p : ℕ)
    → IsPcb prnt
    → IsPcb p
    → IsPcb (child_of h prnt)
    → another_child prnt p h ≡ ok tt (another_linked h prnt p)
unfolding another_child
another_child-run h prnt p vp v vx = rw (
  load-ok prnt h vp,
  update-ok (child_of h prnt) _ h vx,
  load-ok prnt _ vp,
  update-ok p _ _ v,
  update-ok p _ _ v,
  update-ok prnt _ _ vp,
  update-ok p _ _ v,
)

another-links :
    (h : Pcbs) (prnt p q : ℕ)
    → (p == child_of h prnt) ≡ false
    → let g = another_linked h prnt p in
      let x = child_of h prnt in
      (child_of g q ≡ (if q == prnt then p else child_of h q))
      × (parent_of g q ≡ (if q == p then prnt else parent_of h q))
      × (next_sib_of g q ≡ (if q == p then x else next_sib_of h q))
      × (prev_sib_of g q ≡ (if q == p then null else if q == x then p else prev_sib_of h q))
      × (tree (g.cell q) ≡ tree (h.cell q))
unfolding put tree
another-links h prnt p q ne = (ground arith, ground arith, ground arith, ground arith, ground arith)

another-outside :
    (h : Pcbs) (prnt p a : ℕ)
    → (a == prnt) ≡ false
    → (a == p) ≡ false
    → (a == child_of h prnt) ≡ false
    → (another_linked h prnt p).cell a ≡ h.cell a
unfolding put
another-outside h prnt p a n₁ n₂ n₃ = rw (n₁, n₂, n₃)

-- What insertChild promises: `p` is the first child of `prnt`, before the others. Only tree links
-- change, and only those of `prnt`, of `p` and of the children.
pub record Adopted (h : Pcbs) (prnt p : ℕ) (cs : List ℕ) (g : Pcbs) : Type 0 where
  pub children : HasChildren g prnt (p ∷ cs)
  pub others : SameButTree h g
  pub outside : (a : ℕ) → a ∉ (prnt ∷ p ∷ cs) → g.cell a ≡ h.cell a

first-Adopted :
    {h : Pcbs} (prnt p : ℕ)
    → HasChildren h prnt []
    → IsPcb p
    → Returns (λ _. Adopted h prnt p []) (insert_child prnt p h)
unfolding insert_child empty_child put tree
first-Adopted {h} prnt p hc v =
    let run : insert_child prnt p h ≡ ok tt (first_linked h prnt p) =
      rw (load-ok prnt h hc.parent, hc.siblings, first_child-run h prnt p hc.parent v) in
    rw run (
      returns (record {
        children = record {
          parent = hc.parent;
          distinct = (refl, tt);
          siblings = (ground arith, v, ground arith, ground arith, ground arith);
        };
        others = (λ a. ground arith, refl);
        outside = λ a o. ground arith;
      }))

module _ {h : Pcbs} (prnt p c : ℕ) (cs : List ℕ) (hc : HasChildren h prnt (c ∷ cs)) (v : IsPcb p)
    (out : p ∉ (c ∷ cs)) where
  abbrev grown : Pcbs
  grown = another_linked h prnt p

  head-IsPcb : IsPcb (child_of h prnt)
  head-IsPcb = rw hc.siblings.0 hc.siblings.1

  head-ne : (p == child_of h prnt) ≡ false
  head-ne = ground (arith, hc.siblings.0)

  grown-spares :
      (q : ℕ)
      → q ∈ cs
      → IsPcb q
      → (parent_of grown q ≡ parent_of h q)
        × (prev_sib_of grown q ≡ prev_sib_of h q)
        × (next_sib_of grown q ≡ next_sib_of h q)
  grown-spares q i w =
      let ne : (q == p) ≡ false = ground arith in
      let ne-c : (q == child_of h prnt) ≡ false = ground (arith, hc.siblings.0, hc.distinct.0) in
      let (_, a, b, d, _) = another-links h prnt p q head-ne in
      (a ∙ rw ne, d ∙ rw (ne, ne-c), b ∙ rw ne)

  grown-Siblings : Siblings grown prnt null (child_of grown prnt) (p ∷ c ∷ cs)
  grown-Siblings =
      let (k, _, _, _, _) = another-links h prnt p prnt head-ne in
      let (_, a, b, d, _) = another-links h prnt p p head-ne in
      let (_, a', b', d', _) = another-links h prnt p c head-ne in
      let ne : (c == p) ≡ false = ground arith in
      let n : next_sib_of grown c ≡ next_sib_of h c = b' ∙ rw ne in
      let rest = Siblings-frame grown h prnt c (next_sib_of h c) cs grown-spares hc.siblings.4 in
      (
        k ∙ rw (==-refl prnt),
        v,
        a ∙ rw (==-refl p),
        d ∙ rw (==-refl p),
        (
          b ∙ rw (==-refl p) hc.siblings.0,
          hc.siblings.1,
          a' ∙ rw ne hc.siblings.2,
          d' ∙ rw (ne, hc.siblings.0, ==-refl c),
          rw n rest,
        ),
      )

  another-Adopted : Returns (λ _. Adopted h prnt p (c ∷ cs)) (insert_child prnt p h)
  unfolding insert_child empty_child put
  another-Adopted =
      let run : insert_child prnt p h ≡ ok tt grown = rw (
        load-ok prnt h hc.parent,
        IsPcb-ne_null (child_of h prnt) head-IsPcb,
        another_child-run h prnt p hc.parent v head-IsPcb,
      ) in
      rw run (
        returns (record {
          children = record {
            parent = hc.parent;
            distinct = (out, hc.distinct);
            siblings = grown-Siblings;
          };
          others = (λ a. let (_, _, _, _, e) = another-links h prnt p a head-ne in e, refl);
          outside = λ a o.
              another-outside h prnt p a (ground arith) (ground arith)
                (ground (arith, hc.siblings.0));
        }))

-- insertChild makes a block that is no child of `prnt` its first child, before the others.
pub insert_child-cons :
    {h : Pcbs} {prnt : ℕ} {cs : List ℕ} (p : ℕ)
    → HasChildren h prnt cs
    → IsPcb p
    → p ∉ cs
    → Returns (λ _. Adopted h prnt p cs) (insert_child prnt p h)
insert_child-cons {prnt} {cs = []} p hc v out = first-Adopted prnt p hc v
insert_child-cons {prnt} {cs = c ∷ cs} p hc v out = another-Adopted prnt p c cs hc v out
