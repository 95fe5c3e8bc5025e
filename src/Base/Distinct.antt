-- ===== src/Base/Distinct.antt =====
-- Lists of distinct addresses: dropping one, and how long they can be.
use Prim.Native.Nat.{ℕ, zero, suc, ◌≤◌, ◌<◌}
use mathlib.Core.Path.{◌≡◌, refl}
use mathlib.Core.Logic.{◌⊎◌, inl, inr}
use mathlib.Core.List.{List, [], ◌∷◌, ◌++◌}
use native.Mathlib.Omega.{arith}
use mathlib.Core.Bool.{true, false}
use kaya_os.Base.Tests.{◌==◌, Bool-cases}
use kaya_os.Base.Lists.{
  has, ◌∈◌, IsDistinct-parts, IsDistinct-append, length, All, ◌∉◌, IsDistinct, has-append, erase,
}

pub IsDistinct-drop :
    (xs : List ℕ) (p : ℕ) (ys : List ℕ) → IsDistinct (xs ++ p ∷ ys) → IsDistinct (xs ++ ys)
IsDistinct-drop [] p ys d = d.1
IsDistinct-drop (x ∷ xs) p ys d =
    (ground (arith, has-append x xs (p ∷ ys), has-append x xs ys), IsDistinct-drop xs p ys d.1)

pub All-drop {κ} :
    (P : ℕ → Type κ) (xs : List ℕ) (p : ℕ) (ys : List ℕ) → All P (xs ++ p ∷ ys) → All P (xs ++ ys)
All-drop P [] p ys h = h.1
All-drop P (x ∷ xs) p ys h = (h.0, All-drop P xs p ys h.1)

pub IsDistinct-middle :
    (xs : List ℕ) (p : ℕ) (ys : List ℕ) → IsDistinct (xs ++ p ∷ ys) → p ∉ (xs ++ ys)
IsDistinct-middle [] p ys d = d.0
IsDistinct-middle (x ∷ xs) p ys d =
    ground (arith, has-append x xs (p ∷ ys), IsDistinct-middle xs p ys d.1)

pub has-erase : (a b : ℕ) (xs : List ℕ) → a ∉ xs → a ∉ erase b xs
has-erase a b [] out = refl
has-erase a b (x ∷ xs) out = ground (arith, has-erase a b xs)

erase-hit : (a x : ℕ) (xs : List ℕ) → (a == x) ≡ true → erase a (x ∷ xs) ≡ xs
erase-hit a x xs e = ground arith

erase-miss : (a x : ℕ) (xs : List ℕ) → (a == x) ≡ false → erase a (x ∷ xs) ≡ x ∷ erase a xs
erase-miss a x xs e = ground arith

pub IsDistinct-erase : (a : ℕ) (xs : List ℕ) → IsDistinct xs → IsDistinct (erase a xs)
IsDistinct-erase a [] d = tt
IsDistinct-erase a (x ∷ xs) d = elim (Bool-cases (a == x)) [
  | inl e ↦ rw (erase-hit a x xs e) d.1
  | inr e ↦ rw (erase-miss a x xs e) (has-erase x a xs d.0, IsDistinct-erase a xs d.1)
]

length-erase : (a : ℕ) (xs : List ℕ) → length xs ≤ suc (length (erase a xs))
length-erase a [] = omega arith
length-erase a (x ∷ xs) = ground (arith, length-erase a xs)

-- A distinct list over 1 .. suc n has at most one `suc n`.
erase-below :
    (n : ℕ) (xs : List ℕ)
    → IsDistinct xs
    → All (λ x. (0 < x) × (x ≤ suc n)) xs
    → All (λ x. (0 < x) × (x ≤ n)) (erase (suc n) xs)
erase-below n [] d h = tt
erase-below n (x ∷ xs) d h = elim (Bool-cases (suc n == x)) [
  | inl e ↦ rw (erase-hit (suc n) x xs e) (below n xs h.1 (ground arith))
  | inr e ↦ rw (erase-miss (suc n) x xs e) ((ground arith, ground arith), erase-below n xs d.1 h.1)
]
  where
    below :
        (m : ℕ) (ys : List ℕ)
        → All (λ x. (0 < x) × (x ≤ suc m)) ys
        → suc m ∉ ys
        → All (λ x. (0 < x) × (x ≤ m)) ys
    below m [] k o = tt
    below m (y ∷ ys) k o = ((ground arith, ground arith), below m ys k.1 (ground arith))

-- The pigeonhole principle: a distinct list over 1 .. n is no longer than n.
pub length-le_of_distinct :
    (n : ℕ) (xs : List ℕ) → IsDistinct xs → All (λ x. (0 < x) × (x ≤ n)) xs → length xs ≤ n
length-le_of_distinct zero [] d h = omega arith
length-le_of_distinct zero (x ∷ xs) d h = absurd (omega arith)
length-le_of_distinct (suc n) xs d h = omega (
  arith,
  length-erase (suc n) xs,
  length-le_of_distinct n (erase (suc n) xs) (IsDistinct-erase (suc n) xs d) (erase-below n xs d h),
)

-- A list is empty or ends with an element.
pub snoc_cases : (xs : List ℕ) → (xs ≡ []) ⊎ ((front : List ℕ) × (m : ℕ) × (xs ≡ front ++ m ∷ []))
snoc_cases [] = inl refl
snoc_cases (x ∷ xs) = elim (snoc_cases xs) [
  | inl e ↦ inr ([], x, rw e)
  | inr (front, m, e) ↦ inr (x ∷ front, m, rw e)
]

-- A new element goes behind the queue in the middle, and all stay distinct.
pub IsDistinct-insert :
    (xs ps : List ℕ) (p : ℕ) (ys : List ℕ)
    → IsDistinct (xs ++ (ps ++ ys))
    → p ∉ (xs ++ (ps ++ ys))
    → IsDistinct (xs ++ ((ps ++ p ∷ []) ++ ys))
IsDistinct-insert [] [] p ys d o = (o, d)
IsDistinct-insert [] (x ∷ ps) p ys d o = (
  ground (arith, has-append x ps ys, has-append x (ps ++ p ∷ []) ys, has-append x ps (p ∷ [])),
  IsDistinct-insert [] ps p ys d.1 (ground arith),
)
IsDistinct-insert (x ∷ xs) ps p ys d o = (
  ground (
    arith,
    has-append x xs (ps ++ ys),
    has-append x ps ys,
    has-append x xs ((ps ++ p ∷ []) ++ ys),
    has-append x (ps ++ p ∷ []) ys,
    has-append x ps (p ∷ []),
  ),
  IsDistinct-insert xs ps p ys d.1 (ground arith),
)

-- A list in the middle has nothing of the others.
pub IsDistinct-between :
    (xs ps ys : List ℕ) (q : ℕ) → IsDistinct (xs ++ (ps ++ ys)) → q ∈ (xs ++ ys) → q ∉ ps
IsDistinct-between xs ps ys q d i =
    let (dx, dr, apart) = IsDistinct-parts xs (ps ++ ys) d in
    let (dp, dy, apart') = IsDistinct-parts ps ys dr in
    ground (arith, apart q, apart' q, has-append q xs ys, has-append q ps ys)

pub IsDistinct-outer : (xs ps ys : List ℕ) → IsDistinct (xs ++ (ps ++ ys)) → IsDistinct (xs ++ ys)
IsDistinct-outer xs [] ys d = d
IsDistinct-outer xs (p ∷ ps) ys d = IsDistinct-outer xs ps ys (IsDistinct-drop xs p (ps ++ ys) d)

pub IsDistinct-move :
    (xs : List ℕ) (p : ℕ) (ys zs : List ℕ)
    → IsDistinct (xs ++ p ∷ (ys ++ zs))
    → IsDistinct (xs ++ (ys ++ p ∷ zs))
IsDistinct-move [] p [] zs d = d
IsDistinct-move [] p (y ∷ ys) zs d = (
  ground (arith, has-append y ys zs, has-append y ys (p ∷ zs)),
  IsDistinct-move [] p ys zs (ground arith, d.1.1),
)
IsDistinct-move (x ∷ xs) p ys zs d = (
  ground (
    arith,
    has-append x xs (p ∷ (ys ++ zs)),
    has-append x ys zs,
    has-append x xs (ys ++ p ∷ zs),
    has-append x ys (p ∷ zs),
  ),
  IsDistinct-move xs p ys zs d.1,
)

-- What an erased element leaves behind.
pub erase-out : (p : ℕ) (ps : List ℕ) → IsDistinct ps → p ∉ erase p ps
erase-out p [] d = refl
erase-out p (x ∷ ps) d = ground (arith, erase-out p ps d.1)

pub All-erase {κ} : (P : ℕ → Type κ) (p : ℕ) (ps : List ℕ) → All P ps → All P (erase p ps)
All-erase P p [] h = tt
All-erase P p (x ∷ ps) h = elim (Bool-cases (p == x)) [
  | inl e ↦ rw (erase-hit p x ps e) h.1
  | inr e ↦ rw (erase-miss p x ps e) (h.0, All-erase P p ps h.1)
]

pub IsDistinct-erase_between :
    (xs : List ℕ) (p : ℕ) (ps ys : List ℕ)
    → IsDistinct (xs ++ (ps ++ ys))
    → IsDistinct (xs ++ (erase p ps ++ ys))
IsDistinct-erase_between [] p ps ys d =
    let (dp, dy, apart) = IsDistinct-parts ps ys d in
    IsDistinct-append (erase p ps) ys (IsDistinct-erase p ps dp) dy (λ a i.
      elim (Bool-cases (has a ps)) [
        | inl h ↦ apart a h
        | inr h ↦ absurd (ground (arith, has-erase a p ps h))
      ])
IsDistinct-erase_between (x ∷ xs) p ps ys d = (
  ground (
    arith,
    has-append x xs (ps ++ ys),
    has-append x ps ys,
    has-erase x p ps,
    has-append x xs (erase p ps ++ ys),
    has-append x (erase p ps) ys,
  ),
  IsDistinct-erase_between xs p ps ys d.1,
)

pub IsDistinct-gather :
    (xs ys : List ℕ) (p : ℕ) (zs : List ℕ)
    → IsDistinct (xs ++ (ys ++ p ∷ zs))
    → IsDistinct (xs ++ p ∷ (ys ++ zs))
IsDistinct-gather [] [] p zs d = d
IsDistinct-gather [] (y ∷ ys) p zs d =
    let (out, rest) = IsDistinct-gather [] ys p zs d.1 in
    (
      ground (arith, has-append y ys (p ∷ zs)),
      (ground (arith, has-append y ys (p ∷ zs), has-append y ys zs), rest),
    )
IsDistinct-gather (x ∷ xs) ys p zs d = (
  ground (
    arith,
    has-append x xs (ys ++ p ∷ zs),
    has-append x ys (p ∷ zs),
    has-append x xs (p ∷ (ys ++ zs)),
    has-append x ys zs,
  ),
  IsDistinct-gather xs ys p zs d.1,
)
