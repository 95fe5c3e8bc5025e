-- ===== src/Avsl/Search.antt =====
-- vRemoveBlocked of phase3/avsl.c.
use kaya_os.Base.{
  ℕ, zero, suc, ◌+◌, ◌≤◌, ◌<◌, ◌≡◌, refl, ap, Bool, Bool-cases, inl, inr, true, false, ◌==◌,
  ==-refl, if◌then◌else◌, List, [], ◌∷◌, arith, length, length-le_of_distinct, All, All-append,
  split, Returns-mono, ◌∈◌, ◌∉◌, IsDistinct, IsDistinct-parts, erase, erase-middle, ok, Cmd, pure,
  ◌>>=◌, Returns, returns,
}
use mathlib.Core.Path.{subst, sym}
use mathlib.Core.Option.{Option, none, some}
use kaya_os.Base.Joined.{Joined}
use kaya_os.Pcb.{null, max_proc}
use kaya_os.Avsl.{Avsl, put, load, search_loop, unlink, remove_single, v_remove_blocked}
use kaya_os.Avsl.Ring.{
  IsNode, load-ok, update-ok, IsNode-ne_null, next_of, prev_of, Stack, Stack-frame, IsAvsl,
  not_member, with_next, with_prev,
}
use kaya_os.Avsl.Leave.{freed, free_v_sem-ok, IsSame, Departed, unlink-Departed}

-- The node has the semaphore.
abbrev pub is_for : Avsl → (sem p : ℕ) → Bool
is_for a sem p = (a.cell p).sem == sem

-- The first node with the semaphore.
abbrev pub first_for : Avsl → ℕ → List ℕ → Option ℕ
first_for a sem [] = none
first_for a sem (x ∷ xs) = let rest = first_for a sem xs in if is_for a sem x then some x else rest

-- The node that vRemoveBlocked takes from the ring: with the semaphore at the head of a ring of
-- several it is the node behind the head, whatever its semaphore.
abbrev pub victim : Avsl → ℕ → List ℕ → Option ℕ
victim a sem [] = none
victim a sem (x ∷ []) = if is_for a sem x then some x else none
victim a sem (x ∷ y ∷ ys) = if is_for a sem x then some y else first_for a sem (y ∷ ys)

-- The flag and the node with which the loop ends.
abbrev pub found : Option ℕ → ℕ → Bool × ℕ
found none x = (false, x)
found (some p) x = (true, p)

search-first :
    (k : ℕ) (a : Avsl) (c : ℕ) (xs : List ℕ) (x sem : ℕ)
    → Joined (next_of a) (prev_of a) c xs x
    → All IsNode xs
    → x ∉ xs
    → length xs < k
    → search_loop k x sem false (next_of a c) a ≡ ok (found (first_for a sem xs) x) a
unfolding search_loop load
search-first zero a c xs x sem j v o fuel = absurd (omega (arith, fuel))
search-first (suc k) a c [] x sem j v o fuel = rw (j.0, ==-refl x) refl
search-first (suc zero) a c (y ∷ ys) x sem j v o fuel = absurd (omega (arith, fuel))
search-first (suc (suc k)) a c (y ∷ ys) x sem j v o fuel =
    let ne : (y == x) ≡ false = ground (arith, o) in
    elim (Bool-cases (is_for a sem y)) [
      | inl h ↦ rw (j.0, ne, v.0, h) refl
      | inr h ↦
          rw (j.0, ne, v.0, h)
            (search-first (suc k) a y ys x sem j.2 v.1 (ground (arith, o)) (omega (arith, fuel)))
    ]

pub first_for-mem :
    (a : Avsl) (sem : ℕ) (xs : List ℕ) (p : ℕ) → first_for a sem xs ≡ some p → p ∈ xs
first_for-mem a sem [] p e = absurd (ground (arith, ap (λ o. (found o 0).0) e))
first_for-mem a sem (x ∷ xs) p e = elim (Bool-cases (is_for a sem x)) [
  | inl h ↦ let same : x ≡ p = ap (λ o. (found o 0).1) (rw h at e) in rw (same, ==-refl p) refl
  | inr h ↦ ground (arith, first_for-mem a sem xs p (rw h at e))
]

pub victim-mem : (a : Avsl) (sem : ℕ) (xs : List ℕ) (p : ℕ) → victim a sem xs ≡ some p → p ∈ xs
victim-mem a sem [] p e = first_for-mem a sem [] p e
victim-mem a sem (x ∷ []) p e = first_for-mem a sem (x ∷ []) p e
victim-mem a sem (x ∷ y ∷ ys) p e = elim (Bool-cases (is_for a sem x)) [
  | inl h ↦
      let same : y ≡ p = ap (λ o. (found o 0).1) (rw h at e) in rw (same, ==-refl p) (ground arith)
  | inr h ↦ ground (arith, first_for-mem a sem (y ∷ ys) p (rw h at e))
]

All-IsNode : (xs : List ℕ) → All IsNode xs → All (λ x. (0 < x) × (x ≤ suc max_proc)) xs
All-IsNode [] h = tt
All-IsNode (x ∷ xs) h = ((ground (arith, h.0), ground (arith, h.0)), All-IsNode xs h.1)

-- A ring has at most MAXPROC + 1 nodes, so the loop has rounds enough.
ring-length :
    (x : ℕ) (xs : List ℕ) → IsDistinct (x ∷ xs) → All IsNode (x ∷ xs) → length xs < max_proc + 3
ring-length x xs d v =
    omega (arith, length-le_of_distinct (suc max_proc) (x ∷ xs) d (All-IsNode (x ∷ xs) v))

-- the head is the only node of the ring, and leaves it
abbrev emptied : Avsl → ℕ → Avsl
emptied a x = record (freed (with_prev (with_next a x null) x null) x) { head = null }

emptied-IsAvsl :
    (a : Avsl) (x : ℕ) (fs : List ℕ) → IsAvsl a (x ∷ []) fs → IsAvsl (emptied a x) [] (x ∷ fs)
unfolding put
emptied-IsAvsl a x fs s = record {
  ring = refl;
  free = (
    refl,
    subst (λ y. Stack (next_of (emptied a x)) y fs) (ground arith)
        (Stack-frame (next_of a) (next_of (emptied a x)) a.free fs
          (λ q i.
            let ne : (q == x) ≡ false = not_member q x fs i s.distinct.0 in ground (arith, ne))
          s.free),
  );
  distinct = s.distinct;
  valid = s.valid;
}

emptied-IsSame : (a : Avsl) (x : ℕ) → IsSame a (emptied a x)
unfolding put
emptied-IsSame a x q = (ground arith, ground arith)

remove_single-ok :
    (a : Avsl) (x sem : ℕ)
    → IsNode x
    → is_for a sem x ≡ true
    → remove_single x (a.cell x) sem a ≡ ok (a.cell x).asid (emptied a x)
unfolding remove_single
remove_single-ok a x sem v h =
    rw (h, update-ok x _ a v, update-ok x _ _ v, free_v_sem-ok x _ v) refl

remove_single-other :
    (a : Avsl) (x sem : ℕ) → is_for a sem x ≡ false → remove_single x (a.cell x) sem a ≡ ok 0 a
unfolding remove_single
remove_single-other a x sem h = rw h refl

search-known : (k x sem c : ℕ) (a : Avsl) → search_loop (suc k) x sem true c a ≡ ok (true, c) a
unfolding search_loop
search-known k x sem c a = refl

-- What vRemoveBlocked promises for the node that it is to take, or for none.
pub data Outcome (a : Avsl) (xs fs : List ℕ) (r : ℕ) (g : Avsl) : Option ℕ → Type 0 where
  kept : r ≡ 0 → g ≡ a → Outcome a xs fs r g none
  taken : (p : ℕ) → Departed a xs fs p r g → Outcome a xs fs r g (some p)

-- from the search on
abbrev take : Bool × ℕ → Cmd Avsl ℕ
take (f, current) = if f then unlink current else pure 0

take-Outcome :
    (a : Avsl) (sem x y : ℕ) (ys fs : List ℕ) (o : Option ℕ)
    → IsAvsl a (x ∷ y ∷ ys) fs
    → first_for a sem (y ∷ ys) ≡ o
    → Returns (λ r g. Outcome a (x ∷ y ∷ ys) fs r g o) (take (found o x) a)
take-Outcome a sem x y ys fs none s e = returns (kept refl refl)
take-Outcome a sem x y ys fs (some p) s e =
    let m = split p (y ∷ ys) (first_for-mem a sem (y ∷ ys) p e) in
    let s' = subst (λ zs. IsAvsl a (x ∷ zs) fs) m.parts s in
    Returns-mono
      (subst (λ zs. Returns (Departed a (x ∷ zs) fs p) (unlink p a)) (sym m.parts)
        (unlink-Departed a x m.before p m.after fs s'))
      λ r g d. taken p d

-- vRemoveBlocked behind its read of vSem_h
abbrev from_head : (sem head : ℕ) → Cmd Avsl ℕ
from_head sem head = if head == null then pure 0 else do
  h ← load head
  if h.next == head
      then remove_single head h sem
      else do r ← search_loop (max_proc + 3) head sem (h.sem == sem) h.next; take r

from_head-Outcome :
    (a : Avsl) (sem x : ℕ) (xs fs : List ℕ)
    → IsAvsl a (x ∷ xs) fs
    → Returns (λ r g. Outcome a (x ∷ xs) fs r g (victim a sem (x ∷ xs))) (from_head sem x a)
from_head-Outcome a sem x [] fs s =
    let alone : (next_of a x == x) ≡ true = ground (arith, s.ring.1.0) in
    elim (Bool-cases (is_for a sem x)) [
      | inl h ↦
          let only : erase x (x ∷ []) ≡ [] = erase-middle x [] [] refl in
          let state =
            subst (λ zs. IsAvsl (emptied a x) zs (x ∷ fs)) (sym only) (emptied-IsAvsl a x fs s) in
          rw
            (
              h,
              IsNode-ne_null x s.valid.0,
              load-ok x a s.valid.0,
              alone,
              remove_single-ok a x sem s.valid.0 h,
            )
            (returns
              (taken x (record { result = refl; state = state; labels = emptied-IsSame a x })))
      | inr h ↦
          rw
            (
              h,
              IsNode-ne_null x s.valid.0,
              load-ok x a s.valid.0,
              alone,
              remove_single-other a x sem h,
            )
            (returns (kept refl refl))
    ]
from_head-Outcome a sem x (y ∷ ys) fs s =
    let (d, df, apart) = IsDistinct-parts (x ∷ y ∷ ys) fs s.distinct in
    let (v, vf) = All-append IsNode (x ∷ y ∷ ys) fs s.valid in
    let several : (next_of a x == x) ≡ false = ground (arith, s.ring.1.0, d.0) in
    elim (Bool-cases (is_for a sem x)) [
      | inl h ↦
          rw
            (
              IsNode-ne_null x v.0,
              load-ok x a v.0,
              several,
              h,
              search-known (max_proc + 2) x sem (next_of a x) a,
            )
            (subst (λ p. Returns (λ r g. Outcome a (x ∷ y ∷ ys) fs r g (some y)) (unlink p a))
              (sym s.ring.1.0) (Returns-mono (unlink-Departed a x [] y ys fs s) λ r g t. taken y t))
      | inr h ↦
          rw
            (
              IsNode-ne_null x v.0,
              load-ok x a v.0,
              several,
              h,
              search-first (max_proc + 3) a x (y ∷ ys) x sem s.ring.1 v.1 d.0
                  (ring-length x (y ∷ ys) d v),
            )
            (take-Outcome a sem x y ys fs (first_for a sem (y ∷ ys)) s refl)
    ]

-- vRemoveBlocked takes the node of the first process with the semaphore from the ring and returns
-- the process, and the node is the next to be given out; without one it returns FALSE and changes
-- nothing. If the head has the semaphore and is not alone, the node behind it is taken instead.
pub v_remove_blocked-Outcome :
    (a : Avsl) (sem : ℕ) (xs fs : List ℕ)
    → IsAvsl a xs fs
    → Returns (λ r g. Outcome a xs fs r g (victim a sem xs)) (v_remove_blocked sem a)
unfolding v_remove_blocked
v_remove_blocked-Outcome a sem [] fs s =
    let none_ : (a.head == null) ≡ true = ground (arith, s.ring) in
    rw none_ (returns (kept refl refl))
v_remove_blocked-Outcome a sem (x ∷ xs) fs s =
    subst
      (λ h. Returns (λ r g. Outcome a (x ∷ xs) fs r g (victim a sem (x ∷ xs))) (from_head sem h a))
      (sym s.ring.0) (from_head-Outcome a sem x xs fs s)
