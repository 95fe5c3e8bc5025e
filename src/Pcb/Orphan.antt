-- ===== src/Pcb/Orphan.antt =====
-- outChild and removeChild of pcb.c against the child list of the parent.
use kaya_os.Base.{ℕ, ◌≡◌, refl, false, arith, ◌==◌, if◌then◌else◌, Returns, returns}
use kaya_os.Pcb.{null, Pcb, Pcbs, put, out_only, out_first, out_middle, out_last}
use kaya_os.Pcb.Access.{IsPcb, with, load-ok, update-ok, IsPcb-ne_null}
use kaya_os.Pcb.Children.{child_of, parent_of, prev_sib_of, next_sib_of, tree, SameButTree}

-- `g` is `h` with the block `c` taken out of its parent's list: its neighbours are joined.
pub record Detached (h : Pcbs) (c : ℕ) (g : Pcbs) : Type 0 where
  pub parents : (q : ℕ) → parent_of g q ≡ (if q == c then null else parent_of h q)
  pub nexts :
      (q : ℕ)
      → IsPcb q
      → next_sib_of g q ≡ (if q == prev_sib_of h c then next_sib_of h c else next_sib_of h q)
  pub prevs :
      (q : ℕ)
      → IsPcb q
      → prev_sib_of g q ≡ (if q == next_sib_of h c then prev_sib_of h c else prev_sib_of h q)
  pub heads :
      (q : ℕ)
      → child_of g q ≡ (
          if q == parent_of h c
          then (if prev_sib_of h c == null then next_sib_of h c else child_of h q)
          else child_of h q)
  pub others : SameButTree h g
  pub outside :
      (a : ℕ)
      → (a == c) ≡ false
      → (a == parent_of h c) ≡ false
      → (a == prev_sib_of h c) ≡ false
      → (a == next_sib_of h c) ≡ false
      → g.cell a ≡ h.cell a

module _ (h : Pcbs) (c : ℕ) (v : IsPcb c) (vp : IsPcb (parent_of h c)) where
  abbrev orphan : Pcb → Pcb
  orphan d = record d { parent = null }

  pub out_only-Detached :
      next_sib_of h c ≡ null
      → prev_sib_of h c ≡ null
      → Returns (λ r g. (r ≡ c) × Detached h c g) (out_only c (h.cell c) h)
  unfolding out_only put tree
  out_only-Detached n m =
      rw (update-ok (parent_of h c) _ h vp, update-ok c _ _ v)
        (returns (
          refl,
          record {
            parents = λ q. ground arith;
            nexts = λ q w. ground arith;
            prevs = λ q w. ground arith;
            heads = λ q. ground arith;
            others = (λ a. ground arith, refl);
            outside = λ a n₁ n₂ n₃ n₄. ground arith;
          },
        ))

  pub out_first-Detached :
      IsPcb (next_sib_of h c)
      → prev_sib_of h c ≡ null
      → Returns (λ r g. (r ≡ c) × Detached h c g) (out_first c (h.cell c) h)
  unfolding out_first put tree
  out_first-Detached vn m =
      let h₁ = with h (next_sib_of h c) (λ d. record d { prev_sib = null }) in
      let same : parent_of h₁ c ≡ parent_of h c = ground arith in
      let w : IsPcb (parent_of h₁ c) = rw same vp in
      rw
        (
          update-ok (next_sib_of h c) _ h vn,
          load-ok c h₁ v,
          update-ok (parent_of h₁ c) _ _ w,
          update-ok c _ _ v,
        )
        (returns (
          refl,
          record {
            parents = λ q. ground arith;
            nexts = λ q w. ground arith;
            prevs = λ q w. ground arith;
            heads = λ q. ground arith;
            others = (λ a. ground arith, refl);
            outside = λ a n₁ n₂ n₃ n₄. ground arith;
          },
        ))

  pub out_middle-Detached :
      IsPcb (next_sib_of h c)
      → IsPcb (prev_sib_of h c)
      → Returns (λ r g. (r ≡ c) × Detached h c g) (out_middle c (h.cell c) h)
  unfolding out_middle put tree
  out_middle-Detached vn vm =
      let h₁ = with h (prev_sib_of h c) (λ d. record d { next_sib = next_sib_of h c }) in
      let same : next_sib_of h₁ c ≡ next_sib_of h c = ground arith in
      let w : IsPcb (next_sib_of h₁ c) = rw same vn in
      rw
        (
          update-ok (prev_sib_of h c) _ h vm,
          load-ok c h₁ v,
          update-ok (next_sib_of h₁ c) _ _ w,
          update-ok c _ _ v,
        )
        (returns (
          refl,
          record {
            parents = λ q. ground arith;
            nexts = λ q w. ground arith;
            prevs = λ q w. ground arith;
            heads = λ q. ground (arith, IsPcb-ne_null (prev_sib_of h c) vm);
            others = (λ a. ground arith, refl);
            outside = λ a n₁ n₂ n₃ n₄. ground arith;
          },
        ))

  pub out_last-Detached :
      next_sib_of h c ≡ null
      → IsPcb (prev_sib_of h c)
      → Returns (λ r g. (r ≡ c) × Detached h c g) (out_last c (h.cell c) h)
  unfolding out_last put tree
  out_last-Detached n vm =
      rw (update-ok (prev_sib_of h c) _ h vm, update-ok c _ _ v)
        (returns (
          refl,
          record {
            parents = λ q. ground arith;
            nexts = λ q w. ground arith;
            prevs = λ q w. ground arith;
            heads = λ q. ground (arith, IsPcb-ne_null (prev_sib_of h c) vm);
            others = (λ a. ground arith, refl);
            outside = λ a n₁ n₂ n₃ n₄. ground arith;
          },
        ))
