-- ===== src/Avsl/Ring.antt =====
-- The ring of user processes of phase3/avsl.c and the list of free nodes, as the lists of nodes that
-- a state stands for.
use kaya_os.Base.{
  ℕ, ◌≡◌, refl, true, false, ◌==◌, ==-refl, ==-sound, Bool-cases, inl, inr, List, [], ◌∷◌, ◌++◌,
  arith, All, ◌∈◌, ◌∉◌, IsDistinct, ok, Returns, returns,
}
use kaya_os.Base.Joined.{Joined}
use kaya_os.Pcb.{null}
use kaya_os.Avsl.{VSem, Avsl, is_v_sem, put, load, update}

abbrev pub IsNode : ℕ → Type 0
IsNode v = is_v_sem v ≡ true

abbrev pub with : Avsl → ℕ → (VSem → VSem) → Avsl
with a v f = put a v (f (a.cell v))

pub load-ok : (v : ℕ) (a : Avsl) → IsNode v → load v a ≡ ok (a.cell v) a
unfolding load
load-ok v a e = rw e refl

pub update-ok : (v : ℕ) (f : VSem → VSem) (a : Avsl) → IsNode v → update v f a ≡ ok tt (with a v f)
unfolding update
update-ok v f a e = rw e refl

pub IsNode-ne_null : (v : ℕ) → IsNode v → (v == null) ≡ false
IsNode-ne_null v e = ground arith

abbrev pub next_of : Avsl → ℕ → ℕ
next_of a v = (a.cell v).next

abbrev pub prev_of : Avsl → ℕ → ℕ
prev_of a v = (a.cell v).prev

-- `xs` are the nodes of the ring, the head first.
abbrev pub IsRing : Avsl → List ℕ → Type 0
IsRing a [] = a.head ≡ null
IsRing a (x ∷ xs) = (a.head ≡ x) × Joined (next_of a) (prev_of a) x xs x

-- From `p` the `next` pointers lead through `fs` to NULL.
abbrev pub Stack : (ℕ → ℕ) → ℕ → List ℕ → Type 0
Stack n p [] = p ≡ null
Stack n p (f ∷ fs) = (p ≡ f) × Stack n (n f) fs

pub Stack-frame :
    (n n' : ℕ → ℕ) (p : ℕ) (fs : List ℕ)
    → ((q : ℕ) → q ∈ fs → n' q ≡ n q)
    → Stack n p fs
    → Stack n' p fs
Stack-frame n n' p [] same s = s
Stack-frame n n' p (f ∷ fs) same s =
    (s.0, rw (same f (ground arith)) (Stack-frame n n' (n f) fs (λ q i. same q (ground arith)) s.1))

-- The state stands for the ring `xs` and the free nodes `fs`, the next one to be given out first.
pub record IsAvsl (a : Avsl) (xs fs : List ℕ) : Type 0 where
  pub ring : IsRing a xs
  pub free : Stack (next_of a) a.free fs
  pub distinct : IsDistinct (xs ++ fs)
  pub valid : All IsNode (xs ++ fs)

-- `g` is `a` but for the node `p`, which is `c`.
pub record At (p : ℕ) (c : VSem) (a g : Avsl) : Type 0 where
  pub here : g.cell p ≡ c
  pub outside : (q : ℕ) → (q == p) ≡ false → g.cell q ≡ a.cell q

-- A write to a node known to be `c`.
pub update-At :
    {p : ℕ} {c : VSem} {a g : Avsl} (f : VSem → VSem)
    → IsNode p
    → At p c a g
    → Returns (λ _ g'. At p (f c) a g' × (g'.free ≡ g.free) × (g'.head ≡ g.head)) (update p f g)
unfolding put
update-At {p} {c} {a} {g} f v at = rw (update-ok p f g v) (
    returns (
      record { here = rw (==-refl p, at.here); outside = λ b ne. rw ne (at.outside b ne) },
      refl,
      refl,
    ))

abbrev pub with_next : Avsl → ℕ → ℕ → Avsl
with_next a p q = with a p (λ c. record c { next = q })

abbrev pub with_prev : Avsl → ℕ → ℕ → Avsl
with_prev a p q = with a p (λ c. record c { prev = q })

pub not_member : (q p : ℕ) (fs : List ℕ) → q ∈ fs → p ∉ fs → (q == p) ≡ false
not_member q p fs i o = elim (Bool-cases (q == p)) [
  | inl h ↦ let same : q ≡ p = ==-sound q p h in absurd (ground (arith, o, (rw same at i)))
  | inr h ↦ h
]
