-- ===== src/Avsl/Leave.antt =====
-- A node leaves the ring of phase3/avsl.c for the list of free nodes.
use kaya_os.Base.{
  ℕ, ◌≡◌, refl, ap, ◌∙◌, Bool-cases, inl, inr, false, ◌==◌, ==-sound, List, [], ◌∷◌, ◌++◌, arith,
  append_assoc, All, All-append, All-mem, append-All, All-drop, ◌∈◌, ◌∉◌, has-append, IsDistinct,
  IsDistinct-parts, IsDistinct-middle, IsDistinct-move, erase, erase-middle, ok, Returns, returns,
}
use mathlib.Core.Path.{subst, sym}
use kaya_os.Base.Joined.{Joined, Joined-frame, Joined-parts, Joined-cut, next-mem, prev-mem, cut}
use kaya_os.Pcb.{null}
use kaya_os.Avsl.{Avsl, put, free_v_sem, unlink}
use kaya_os.Avsl.Ring.{
  IsNode, load-ok, update-ok, next_of, prev_of, Stack, Stack-frame, IsAvsl, not_member, with_next,
  with_prev,
}

-- the node in front of the free nodes
abbrev pub freed : Avsl → ℕ → Avsl
freed a p = record (with_next a p a.free) { free = p }

pub free_v_sem-ok : (p : ℕ) (a : Avsl) → IsNode p → free_v_sem p a ≡ ok tt (freed a p)
unfolding free_v_sem put
free_v_sem-ok p a v = elim (Bool-cases (a.free == null)) [
  | inl h ↦
      let same : a.free ≡ null = ==-sound a.free null h in
      rw (h, update-ok p _ (record a { free = p }) v)
        (ap (λ n. ok tt (record (with_next a p n) { free = p })) (sym same))
  | inr h ↦ rw (h, update-ok p _ a v) refl
]

-- p -> v_prev -> v_next = p -> v_next;  p -> v_next -> v_prev = p -> v_prev;
abbrev closed : Avsl → ℕ → Avsl
closed a p = with_prev (with_next a (prev_of a p) (next_of a p)) (next_of a p) (prev_of a p)

second_read :
    (a : Avsl) (p q n : ℕ)
    → (q == p) ≡ false
    → (next_of (with_next a q n) p ≡ next_of a p) × (prev_of (with_next a q n) p ≡ prev_of a p)
unfolding put
second_read a p q n ne = (ground arith, ground arith)

unlink-ok :
    (p : ℕ) (a : Avsl)
    → IsNode p
    → IsNode (next_of a p)
    → IsNode (prev_of a p)
    → (prev_of a p == p) ≡ false
    → unlink p a ≡ ok (a.cell p).asid (freed (closed a p) p)
unfolding unlink
unlink-ok p a v vn vp ne =
    let (n, b) = second_read a p (prev_of a p) (next_of a p) ne in
    rw
      (
        load-ok p a v,
        update-ok (prev_of a p) _ a vp,
        load-ok p _ v,
        n,
        b,
        update-ok (next_of a p) _ _ vn,
        free_v_sem-ok p _ v,
      )
      refl

abbrev pub left : Avsl → ℕ → Avsl
left a p = freed (closed a p) p

left-next :
    (a : Avsl) (p q : ℕ)
    → (q == p) ≡ false
    → next_of (left a p) q ≡ cut (next_of a) (prev_of a p) (next_of a p) q
unfolding put
left-next a p q ne = ground (arith, ne)

left-free : (a : Avsl) (p : ℕ) → next_of (left a p) p ≡ a.free
unfolding put
left-free a p = ground arith

left-prev :
    (a : Avsl) (p q : ℕ) → prev_of (left a p) q ≡ cut (prev_of a) (next_of a p) (prev_of a p) q
unfolding put
left-prev a p q = ground arith

left-head : (a : Avsl) (p : ℕ) → (left a p).head ≡ a.head
unfolding put
left-head a p = refl

-- Semaphores and processes are as they were.
abbrev pub IsSame : Avsl → Avsl → Type 0
IsSame a g = (q : ℕ) → ((g.cell q).sem ≡ (a.cell q).sem) × ((g.cell q).asid ≡ (a.cell q).asid)

left-IsSame : (a : Avsl) (p : ℕ) → IsSame a (left a p)
unfolding put
left-IsSame a p q = (ground arith, ground arith)

-- What vRemoveBlocked promises when the node `p` leaves: its process is returned, and the node is
-- free.
pub record Departed (a : Avsl) (xs fs : List ℕ) (p : ℕ) (r : ℕ) (g : Avsl) : Type 0 where
  pub result : r ≡ (a.cell p).asid
  pub state : IsAvsl g (erase p xs) (p ∷ fs)
  pub labels : IsSame a g

-- the node `p` in the ring, behind its head `x`
module _ (a : Avsl) (x : ℕ) (xs : List ℕ) (p : ℕ) (ys fs : List ℕ)
    (s : IsAvsl a (x ∷ (xs ++ p ∷ ys)) fs) where
  abbrev inner : List ℕ
  inner = xs ++ p ∷ ys

  apart : IsDistinct (x ∷ inner) × IsDistinct fs × ((q : ℕ) → q ∈ (x ∷ inner) → q ∉ fs)
  apart = IsDistinct-parts (x ∷ inner) fs s.distinct

  valid : All IsNode (x ∷ inner) × All IsNode fs
  valid = All-append IsNode (x ∷ inner) fs s.valid

  joined : Joined (next_of a) (prev_of a) x xs p × Joined (next_of a) (prev_of a) p ys x
  joined = Joined-parts (next_of a) (prev_of a) x xs p ys x s.ring.1

  p-mem : p ∈ inner
  p-mem = ground (arith, has-append p xs (p ∷ ys))

  x-ne : (x == p) ≡ false
  x-ne = ground (arith, apart.0.0, has-append x xs (p ∷ ys))

  prev-ring : prev_of a p ∈ (x ∷ inner)
  prev-ring = ground (
    arith,
    prev-mem (next_of a) (prev_of a) x xs p joined.0,
    has-append (prev_of a p) xs (p ∷ ys),
  )

  next-ring : next_of a p ∈ (x ∷ inner)
  next-ring = ground (
    arith,
    next-mem (next_of a) (prev_of a) p ys x joined.1,
    has-append (next_of a p) xs (p ∷ ys),
    has-append (next_of a p) ys (x ∷ []),
  )

  p-once : p ∉ (xs ++ ys)
  p-once = IsDistinct-middle xs p ys apart.0.1

  prev-ne : (prev_of a p == p) ≡ false
  prev-ne =
      not_member (prev_of a p) p (x ∷ xs) (prev-mem (next_of a) (prev_of a) x xs p joined.0)
        (ground (arith, x-ne, p-once, has-append p xs ys))

  unlink-run : unlink p a ≡ ok (a.cell p).asid (left a p)
  unlink-run =
      unlink-ok p a (All-mem IsNode p inner valid.0.1 p-mem)
        (All-mem IsNode (next_of a p) (x ∷ inner) valid.0 next-ring)
        (All-mem IsNode (prev_of a p) (x ∷ inner) valid.0 prev-ring) prev-ne

  left-Joined : Joined (next_of (left a p)) (prev_of (left a p)) x (xs ++ ys) x
  left-Joined =
      Joined-frame (cut (next_of a) (prev_of a p) (next_of a p))
        (cut (prev_of a) (next_of a p) (prev_of a p)) (next_of (left a p)) (prev_of (left a p)) x
        (xs ++ ys) x
        (λ q i. left-next a p q (not_member q p (x ∷ (xs ++ ys)) i (ground (arith, x-ne, p-once))))
        (λ q i. left-prev a p q)
        (Joined-cut (next_of a) (prev_of a) x xs p ys x apart.0.1 apart.0.0 apart.0.0 joined.0
          joined.1)

  left-Stack : Stack (next_of (left a p)) a.free fs
  left-Stack =
      Stack-frame (next_of a) (next_of (left a p)) a.free fs
        (λ q i.
          let np : (q == p) ≡ false = not_member q p fs i (apart.2 p (ground (arith, p-mem))) in
          let nv : (q == prev_of a p) ≡ false =
            not_member q (prev_of a p) fs i (apart.2 (prev_of a p) prev-ring) in
          left-next a p q np ∙ rw nv refl)
        s.free

  left-IsDistinct : IsDistinct ((x ∷ (xs ++ ys)) ++ p ∷ fs)
  left-IsDistinct = subst IsDistinct (sym (append_assoc (x ∷ xs) ys (p ∷ fs))) (
      IsDistinct-move (x ∷ xs) p ys fs
        (subst IsDistinct (append_assoc (x ∷ xs) (p ∷ ys) fs) s.distinct))

  left-IsAvsl : IsAvsl (left a p) (x ∷ (xs ++ ys)) (p ∷ fs)
  left-IsAvsl = record {
    ring = (left-head a p ∙ s.ring.0, left-Joined);
    free = (refl, subst (λ y. Stack (next_of (left a p)) y fs) (sym (left-free a p)) left-Stack);
    distinct = left-IsDistinct;
    valid =
        append-All IsNode (x ∷ (xs ++ ys)) (p ∷ fs) (All-drop IsNode (x ∷ xs) p ys valid.0)
          (All-mem IsNode p inner valid.0.1 p-mem, valid.1);
  }

  pub unlink-Departed : Returns (Departed a (x ∷ inner) fs p) (unlink p a)
  unlink-Departed =
      let gone : erase p (x ∷ inner) ≡ x ∷ (xs ++ ys) =
        erase-middle p (x ∷ xs) ys (ground (arith, x-ne, p-once, has-append p xs ys)) in
      rw unlink-run (
        returns (record {
          result = refl;
          state = subst (λ zs. IsAvsl (left a p) zs (p ∷ fs)) (sym gone) left-IsAvsl;
          labels = left-IsSame a p;
        }))
