-- ===== src/Base/Joined.antt =====
-- Runs of addresses that two functions link both ways.
use Prim.Native.Nat.{ℕ}
use mathlib.Core.Path.{◌≡◌}
use mathlib.Core.List.{List, [], ◌∷◌, ◌++◌}
use native.Mathlib.Omega.{arith}
use kaya_os.Base.Tests.{◌==◌, if◌then◌else◌}
use kaya_os.Base.Lists.{◌∈◌, ◌∉◌, IsDistinct, has-append}

-- From `a` the pointers `n` lead through `xs` to `b`, and the pointers `v` back.
abbrev pub Joined : (n v : ℕ → ℕ) → ℕ → List ℕ → ℕ → Type 0
Joined n v a [] b = (n a ≡ b) × (v b ≡ a)
Joined n v a (x ∷ xs) b = (n a ≡ x) × (v x ≡ a) × Joined n v x xs b

pub Joined-frame :
    (n v n' v' : ℕ → ℕ) (a : ℕ) (xs : List ℕ) (b : ℕ)
    → ((q : ℕ) → q ∈ (a ∷ xs) → n' q ≡ n q)
    → ((q : ℕ) → q ∈ (xs ++ b ∷ []) → v' q ≡ v q)
    → Joined n v a xs b
    → Joined n' v' a xs b
Joined-frame n v n' v' a [] b en ev l = (ground (arith, en a), ground (arith, ev b))
Joined-frame n v n' v' a (x ∷ xs) b en ev l = (
  ground (arith, en a),
  ground (arith, ev x),
  Joined-frame n v n' v' x xs b (λ q i. en q (ground arith)) (λ q i. ev q (ground arith)) l.2,
)

pub Joined-append :
    (n v : ℕ → ℕ) (a : ℕ) (xs : List ℕ) (m : ℕ) (ys : List ℕ) (b : ℕ)
    → Joined n v a xs m
    → Joined n v m ys b
    → Joined n v a (xs ++ m ∷ ys) b
Joined-append n v a [] m ys b l r = (l.0, l.1, r)
Joined-append n v a (x ∷ xs) m ys b l r = (l.0, l.1, Joined-append n v x xs m ys b l.2 r)

pub Joined-parts :
    (n v : ℕ → ℕ) (a : ℕ) (xs : List ℕ) (m : ℕ) (ys : List ℕ) (b : ℕ)
    → Joined n v a (xs ++ m ∷ ys) b
    → Joined n v a xs m × Joined n v m ys b
Joined-parts n v a [] m ys b l = ((l.0, l.1), l.2)
Joined-parts n v a (x ∷ xs) m ys b l =
    let (left, right) = Joined-parts n v x xs m ys b l.2 in ((l.0, l.1, left), right)

-- The ends of a run: the address after `a`, and the address before `b`.
pub next-mem :
    (n v : ℕ → ℕ) (a : ℕ) (xs : List ℕ) (b : ℕ) → Joined n v a xs b → n a ∈ (xs ++ b ∷ [])
next-mem n v a [] b l = ground arith
next-mem n v a (x ∷ xs) b l = ground arith

pub prev-mem : (n v : ℕ → ℕ) (a : ℕ) (xs : List ℕ) (b : ℕ) → Joined n v a xs b → v b ∈ (a ∷ xs)
prev-mem n v a [] b l = ground arith
prev-mem n v a (x ∷ xs) b l = ground (arith, prev-mem n v x xs b)

-- Taking `p` out: n (v p) := n p, v (n p) := v p.
abbrev pub cut : (f : ℕ → ℕ) → (at new : ℕ) → ℕ → ℕ
cut f at new q = if q == at then new else f q

-- Taking `p` out of a run closes the run behind it.
pub Joined-cut :
    (n v : ℕ → ℕ) (a : ℕ) (xs : List ℕ) (p : ℕ) (ys : List ℕ) (b : ℕ)
    → IsDistinct (xs ++ p ∷ ys)
    → a ∉ (xs ++ p ∷ ys)
    → b ∉ (xs ++ p ∷ ys)
    → Joined n v a xs p
    → Joined n v p ys b
    → Joined (cut n (v p) (n p)) (cut v (n p) (v p)) a (xs ++ ys) b
Joined-cut n v a [] p [] b d na nb l r = (ground arith, ground arith)
Joined-cut n v a [] p (y ∷ ys) b d na nb l r = (
  ground arith,
  ground arith,
  Joined-frame n v (cut n (v p) (n p)) (cut v (n p) (v p)) y ys b (λ q i. ground arith)
      (λ q i. ground (arith, has-append q ys (b ∷ []))) r.2,
)
Joined-cut n v a (x ∷ xs) p ys b d na nb l r = (
  ground (arith, prev-mem n v x xs p l.2, has-append a xs (p ∷ ys)),
  ground (arith, next-mem n v p ys b r, has-append x xs (p ∷ ys), has-append x ys (b ∷ [])),
  Joined-cut n v x xs p ys b d.1 d.0 (ground arith) l.2 r,
)

-- A new address goes in before `b`.
abbrev pub next_with : (n v : ℕ → ℕ) → (new b : ℕ) → ℕ → ℕ
next_with n v new b = cut (cut n new b) (v b) new

abbrev pub prev_with : (v : ℕ → ℕ) → (new b : ℕ) → ℕ → ℕ
prev_with v new b = cut (cut v new (v b)) b new

pub Joined-snoc :
    (n v : ℕ → ℕ) (a : ℕ) (xs : List ℕ) (new b : ℕ)
    → IsDistinct xs
    → a ∉ xs
    → b ∉ xs
    → new ∉ (b ∷ a ∷ xs)
    → Joined n v a xs b
    → Joined (next_with n v new b) (prev_with v new b) a (xs ++ new ∷ []) b
Joined-snoc n v a [] new b d na nb o l = (ground arith, ground arith, (ground arith, ground arith))
Joined-snoc n v a (x ∷ xs) new b d na nb o l = (
  ground (arith, prev-mem n v x xs b l.2),
  ground arith,
  Joined-snoc n v x xs new b d.1 d.0 (ground arith) (ground arith) l.2,
)
