-- ===== src/Asl/Search.antt =====
-- searchASL of asl.c: it stops at the last node below the address that it looks for.
use kaya_os.Base.{
  ℕ, zero, suc, ◌≤◌, ◌<◌, ◌≡◌, refl, ap, sym, ◌∙◌, true, false, List, [], ◌∷◌, ◌++◌, arith, ◌==◌,
  ltb, length, length-append, All, IsDistinct-parts, ok, length-le_of_distinct,
}
use mathlib.Core.Path.{subst}
use kaya_os.Pcb.{null}
use kaya_os.Asl.{Asl, zero_node, max_node, max_int, search_loop, search_asl}
use kaya_os.Asl.Access.{load-ok}
use kaya_os.Asl.Chain.{
  Entry, IsSemd, IsPlain, next_of, Chain, IsAsl, ats, Chain-IsPlain, length-ats,
}

-- the last descriptor of `xs`, or the node before them
abbrev pub last_at : ℕ → List Entry → ℕ
last_at n [] = n
last_at n (e ∷ xs) = last_at e.at xs

-- No key of `ys` is below `k`: it is enough to look at the first.
abbrev pub FromOn : ℕ → List Entry → Type 0
FromOn k [] = k ≤ max_int
FromOn k (e ∷ ys) = k ≤ e.key

abbrev pub Below : ℕ → List Entry → Type 0
Below k xs = All (λ e. e.key < k) xs

pub last_at-IsSemd :
    (a : Asl) (n x : ℕ) (xs : List Entry) (y : ℕ)
    → IsSemd n
    → Chain a x xs y
    → IsSemd (last_at n xs)
last_at-IsSemd a n x [] y v c = v
last_at-IsSemd a n x (e ∷ xs) y v c =
    last_at-IsSemd a e.at (next_of a e.at) xs y (ground (arith, c.1.0)) c.2

search_loop-last :
    (k : ℕ) (a : Asl) (n s : ℕ) (xs ys : List Entry)
    → IsSemd n
    → (a.cell max_node).sem_add ≡ max_int
    → Chain a (next_of a n) (xs ++ ys) max_node
    → Below s xs
    → FromOn s ys
    → length xs < k
    → search_loop k n s a ≡ ok (last_at n xs) a
unfolding search_loop
search_loop-last zero a n s xs ys v top c lo hi fuel = absurd (omega arith)
search_loop-last (suc k) a n s [] [] v top c lo hi fuel =
    let stop : ltb (a.cell (next_of a n)).sem_add s ≡ false = rw (c, top) (ground arith) in
    rw (load-ok n a v, load-ok (next_of a n) a (rw c refl), stop)
search_loop-last (suc k) a n s [] (e ∷ ys) v top c lo hi fuel =
    let w : IsSemd (next_of a n) = ground (arith, c.0, c.1.0) in
    let stop : ltb (a.cell (next_of a n)).sem_add s ≡ false = rw (c.0, c.1.1) (ground arith) in
    rw (load-ok n a v, load-ok (next_of a n) a w, stop)
search_loop-last (suc k) a n s (e ∷ xs) ys v top c lo hi fuel =
    let w : IsSemd e.at = ground (arith, c.1.0) in
    let w' : IsSemd (next_of a n) = rw c.0 w in
    let go : ltb (a.cell (next_of a n)).sem_add s ≡ true = rw (c.0, c.1.1) (ground (arith, lo.0)) in
    rw (load-ok n a v, load-ok (next_of a n) a w', go, c.0)
      (search_loop-last k a e.at s xs ys w top c.2 lo.1 hi (omega arith))

All-IsPlain : (xs : List ℕ) → All IsPlain xs → All (λ x. (0 < x) × (x ≤ 20)) xs
All-IsPlain [] h = tt
All-IsPlain (x ∷ xs) h = (h.0, All-IsPlain xs h.1)

length-le : {a : Asl} {es : List Entry} {fs : List ℕ} → IsAsl a es fs → length es ≤ 20
length-le {a} {es} {fs} i = omega (
  arith,
  length-ats es,
  length-le_of_distinct 20 (ats es) (IsDistinct-parts (ats es) fs i.nodes).0
      (All-IsPlain (ats es) (Chain-IsPlain a _ es max_node i.chain)),
)

-- searchASL returns the last node whose address is below the one looked for, and writes nothing.
pub search_asl-last :
    {a : Asl} {fs : List ℕ} (s : ℕ) (xs ys : List Entry)
    → IsAsl a (xs ++ ys) fs
    → (s == null) ≡ false
    → Below s xs
    → FromOn s ys
    → search_asl s a ≡ ok (last_at zero_node xs) a
unfolding search_asl
search_asl-last {a} s xs ys i n lo hi =
    let chain = subst (λ z. Chain a (next_of a z) (xs ++ ys) max_node) (sym i.head) i.chain in
    let valid : IsSemd a.active = ground (arith, i.head) in
    let fuel : length xs < suc max_node = omega (arith, length-le i, length-append xs ys) in
    rw n (
      search_loop-last (suc max_node) a a.active s xs ys valid i.top.0 chain lo hi fuel
      ∙ ap (λ z. ok (last_at z xs) a) i.head)
