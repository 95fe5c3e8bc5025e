-- ===== src/Base/Lists.antt =====
-- Lists of addresses: length, Boolean membership, and lists of distinct addresses.
use Prim.Native.Nat.{ℕ, suc, ◌+◌}
use mathlib.Core.Path.{◌≡◌, refl}
use mathlib.Core.Bool.{Bool, true, false, ◌||◌}
use mathlib.Core.List.{List, [], ◌∷◌, ◌++◌}
use native.Mathlib.Omega.{arith}
use mathlib.Core.Logic.{inl, inr}
use kaya_os.Base.Tests.{◌==◌, Bool-cases}

module _ {ℓ} {A : Type ℓ} where
  abbrev pub length : List A → ℕ
  length [] = 0
  length (x ∷ xs) = suc (length xs)

  pub length-append : (xs ys : List A) → length (xs ++ ys) ≡ length xs + length ys
  length-append [] ys = omega arith
  length-append (x ∷ xs) ys = omega (arith, length-append xs ys)

  abbrev pub All {κ} : (A → Type κ) → List A → Type κ
  All P [] = Unit
  All P (x ∷ xs) = P x × All P xs

  pub All-append {κ} : (P : A → Type κ) (xs ys : List A) → All P (xs ++ ys) → All P xs × All P ys
  All-append P [] ys h = (tt, h)
  All-append P (x ∷ xs) ys h = let (l, r) = All-append P xs ys h.1 in ((h.0, l), r)

  pub append-All {κ} : (P : A → Type κ) (xs ys : List A) → All P xs → All P ys → All P (xs ++ ys)
  append-All P [] ys hx hy = hy
  append-All P (x ∷ xs) ys hx hy = (hx.0, append-All P xs ys hx.1 hy)

abbrev pub has : ℕ → List ℕ → Bool
has a [] = false
has a (x ∷ xs) = (a == x) || has a xs

infix 40 ◌∈◌ ◌∉◌
abbrev pub ◌∈◌ : ℕ → List ℕ → Type 0
a ∈ xs = has a xs ≡ true

abbrev pub ◌∉◌ : ℕ → List ℕ → Type 0
a ∉ xs = has a xs ≡ false

abbrev pub IsDistinct : List ℕ → Type 0
IsDistinct [] = Unit
IsDistinct (x ∷ xs) = (x ∉ xs) × IsDistinct xs

pub has-append : (a : ℕ) (xs ys : List ℕ) → has a (xs ++ ys) ≡ (has a xs || has a ys)
has-append a [] ys = refl
has-append a (x ∷ xs) ys = ground (arith, has-append a xs ys)

pub All-mem : (P : ℕ → Type 0) (a : ℕ) (xs : List ℕ) → All P xs → a ∈ xs → P a
All-mem P a [] h i = absurd (ground arith)
All-mem P a (x ∷ xs) h i = elim (Bool-cases (a == x)) [
  | inl e ↦ let same : a ≡ x = ground arith in rw same h.0
  | inr ne ↦ All-mem P a xs h.1 (ground arith)
]

-- A list without its first `a`.
abbrev pub erase : ℕ → List ℕ → List ℕ
erase a [] = []
erase a (x ∷ xs) = let rest = erase a xs in elim (a == x) [ true ↦ xs | false ↦ x ∷ rest ]

pub erase-not_mem : (a : ℕ) (xs : List ℕ) → a ∉ xs → erase a xs ≡ xs
erase-not_mem a [] out = refl
erase-not_mem a (x ∷ xs) out = ground (arith, erase-not_mem a xs)

pub erase-middle : (a : ℕ) (xs ys : List ℕ) → a ∉ xs → erase a (xs ++ a ∷ ys) ≡ xs ++ ys
erase-middle a [] ys out = ground arith
erase-middle a (x ∷ xs) ys out = ground (arith, erase-middle a xs ys)

-- Two distinct lists with nothing in common make one.
pub IsDistinct-append :
    (xs ys : List ℕ)
    → IsDistinct xs
    → IsDistinct ys
    → ((a : ℕ) → a ∈ xs → a ∉ ys)
    → IsDistinct (xs ++ ys)
IsDistinct-append [] ys dx dy apart = dy
IsDistinct-append (x ∷ xs) ys dx dy apart = (
  ground (arith, has-append x xs ys, apart x),
  IsDistinct-append xs ys dx.1 dy (λ a i. ground (arith, apart a)),
)

pub IsDistinct-parts :
    (xs ys : List ℕ)
    → IsDistinct (xs ++ ys)
    → IsDistinct xs × IsDistinct ys × ((a : ℕ) → a ∈ xs → a ∉ ys)
IsDistinct-parts [] ys d = (tt, d, λ a i. ground arith)
IsDistinct-parts (x ∷ xs) ys d =
    let (dx, dy, apart) = IsDistinct-parts xs ys d.1 in
    (
      (ground (arith, has-append x xs ys), dx),
      dy,
      λ a i. ground (arith, has-append x xs ys, apart a),
    )

-- Where `a` stands in a list that has it, first occurrence.
pub record Split (a : ℕ) (xs : List ℕ) : Type 0 where
  pub before : List ℕ
  pub after : List ℕ
  pub parts : xs ≡ before ++ a ∷ after
  pub first : a ∉ before

Split-cons : (a x : ℕ) {xs : List ℕ} → (a == x) ≡ false → Split a xs → Split a (x ∷ xs)
Split-cons a x ne s = record {
  before = x ∷ s.before;
  after = s.after;
  parts = ground (arith, s.parts);
  first = ground (arith, s.first);
}

pub split : (a : ℕ) (xs : List ℕ) → a ∈ xs → Split a xs
split a [] i = absurd (ground arith)
split a (x ∷ xs) i = elim (Bool-cases (a == x)) [
  | inl e ↦ record { before = []; after = xs; parts = ground arith; first = refl }
  | inr ne ↦ Split-cons a x ne (split a xs (ground arith))
]
