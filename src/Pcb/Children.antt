-- ===== src/Pcb/Children.antt =====
-- The child lists of pcb.c: what `pcb_child` of a block stands for.
use kaya_os.Base.{ℕ, ◌≡◌, List, [], ◌∷◌, arith, ◌∈◌, IsDistinct}
use kaya_os.Pcb.{null, Pcb, Pcbs}
use kaya_os.Pcb.Access.{IsPcb}

-- The four links of the process tree.
abbrev pub child_of : Pcbs → ℕ → ℕ
child_of h p = (h.cell p).child

abbrev pub parent_of : Pcbs → ℕ → ℕ
parent_of h p = (h.cell p).parent

abbrev pub prev_sib_of : Pcbs → ℕ → ℕ
prev_sib_of h p = (h.cell p).prev_sib

abbrev pub next_sib_of : Pcbs → ℕ → ℕ
next_sib_of h p = (h.cell p).next_sib

-- From `x` the sibling pointers lead through the children `cs` of `prnt` to NULL; `before` stands
-- before the first.
abbrev pub Siblings : Pcbs → (prnt before x : ℕ) → List ℕ → Type 0
Siblings h prnt before x [] = x ≡ null
Siblings h prnt before x (c ∷ cs) =
    (x ≡ c)
    × IsPcb c
    × (parent_of h c ≡ prnt)
    × (prev_sib_of h c ≡ before)
    × Siblings h prnt c (next_sib_of h c) cs

-- `cs` are the children of `prnt`, the one inserted last first.
pub record HasChildren (h : Pcbs) (prnt : ℕ) (cs : List ℕ) : Type 0 where
  pub parent : IsPcb prnt
  pub distinct : IsDistinct cs
  pub siblings : Siblings h prnt null (child_of h prnt) cs

-- A change that spares the parent and sibling pointers of `cs`.
pub Siblings-frame :
    (g h : Pcbs) (prnt before x : ℕ) (cs : List ℕ)
    → ((q : ℕ)
        → q ∈ cs
        → IsPcb q
        → (parent_of g q ≡ parent_of h q)
          × (prev_sib_of g q ≡ prev_sib_of h q)
          × (next_sib_of g q ≡ next_sib_of h q))
    → Siblings h prnt before x cs
    → Siblings g prnt before x cs
Siblings-frame g h prnt before x [] same s = s
Siblings-frame g h prnt before x (c ∷ cs) same s =
    let (p, v, n) = same c (ground arith) s.1 in
    (
      s.0,
      s.1,
      rw p s.2,
      rw v s.3,
      rw n (Siblings-frame g h prnt c (next_sib_of h c) cs (λ q i. same q (ground arith)) s.4),
    )

-- A tree with the queue links, the blocking data and the rest of the blocks as they were.
unfoldable pub tree : Pcb → Pcb
tree c = record c { child = null; parent = null; prev_sib = null; next_sib = null }

abbrev pub SameButTree : Pcbs → Pcbs → Type 0
SameButTree h g = ((a : ℕ) → tree (g.cell a) ≡ tree (h.cell a)) × (g.free ≡ h.free)
