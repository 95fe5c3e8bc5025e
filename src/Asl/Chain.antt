-- ===== src/Asl/Chain.antt =====
-- What the active list of asl.c stands for: the semaphores with blocked processes, by address.
use kaya_os.Base.{
  ℕ, ◌≤◌, ◌<◌, ◌≡◌, ◌≢◌, refl, ap, true, List, [], ◌∷◌, ◌++◌, arith, length, All, ◌∈◌, IsDistinct,
  has-append,
}
use kaya_os.Pcb.{null}
use kaya_os.Pcb.Queue.{IsProcQ}
use kaya_os.Pcb.Frame.{SameLinks, IsProcQ-frame}
use kaya_os.Asl.{Semd, Asl, is_semd, zero_node, max_node, max_int}

-- One active semaphore: its descriptor, its address, and the processes blocked on it in order.
pub record Entry : Type 0 where
  pub at : ℕ
  pub key : ℕ
  pub queue : List ℕ

abbrev pub IsSemd : ℕ → Type 0
IsSemd s = is_semd s ≡ true

-- An entry of the table that is no dummy node.
abbrev pub IsPlain : ℕ → Type 0
IsPlain s = (0 < s) × (s ≤ 20)

abbrev pub next_of : Asl → ℕ → ℕ
next_of a s = (a.cell s).next

-- The descriptor of `e` holds its address and its queue.
abbrev pub Holds : Asl → Entry → Type 0
Holds a e =
    IsPlain e.at × ((a.cell e.at).sem_add ≡ e.key) × IsProcQ a.pcbs (a.cell e.at).proc_q e.queue

-- From `x` the descriptors of `es` lead to `y`.
abbrev pub Chain : Asl → ℕ → List Entry → ℕ → Type 0
Chain a x [] y = x ≡ y
Chain a x (e ∷ es) y = (x ≡ e.at) × Holds a e × Chain a (next_of a e.at) es y

abbrev pub ats : List Entry → List ℕ
ats [] = []
ats (e ∷ es) = e.at ∷ ats es

-- All blocked processes.
abbrev pub waiting : List Entry → List ℕ
waiting [] = []
waiting (e ∷ es) = e.queue ++ waiting es

-- The addresses go up from `low` and stay below MAXINT.
abbrev pub IsSorted : ℕ → List Entry → Type 0
IsSorted low [] = low < max_int
IsSorted low (e ∷ es) = (low < e.key) × IsSorted e.key es

-- From `p` the free descriptors lead to NULL.
abbrev pub Stack : Asl → ℕ → List ℕ → Type 0
Stack a p [] = p ≡ null
Stack a p (f ∷ fs) = (p ≡ f) × IsPlain f × Stack a (next_of a f) fs

-- The well-formed states: `es` are the active semaphores by address, `fs` the free descriptors.
pub record IsAsl (a : Asl) (es : List Entry) (fs : List ℕ) : Type 0 where
  pub head : a.active ≡ zero_node
  pub chain : Chain a (next_of a zero_node) es max_node
  pub top : ((a.cell max_node).sem_add ≡ max_int) × ((a.cell max_node).proc_q ≡ null)
  pub sorted : IsSorted 0 es
  pub stack : Stack a a.free fs
  pub nodes : IsDistinct (ats es ++ fs)
  pub blocked : IsDistinct (waiting es)
  pub busy : All (λ e. e.queue ≢ []) es
  pub told : All (λ e. All (λ p. (a.pcbs.cell p).sem_add ≡ e.key) e.queue) es

pub ats-append : (xs ys : List Entry) → ats (xs ++ ys) ≡ ats xs ++ ats ys
ats-append [] ys = refl
ats-append (x ∷ xs) ys = rw (ats-append xs ys)

pub Chain-append :
    (a : Asl) (x : ℕ) (xs : List Entry) (m : ℕ) (ys : List Entry) (y : ℕ)
    → Chain a x xs m
    → Chain a m ys y
    → Chain a x (xs ++ ys) y
Chain-append a x [] m ys y l r = rw l r
Chain-append a x (e ∷ xs) m ys y l r = (l.0, l.1, Chain-append a (next_of a e.at) xs m ys y l.2 r)

-- The pointer that leads on to `ys`.
pub Chain-parts :
    (a : Asl) (x : ℕ) (xs ys : List Entry) (y : ℕ)
    → Chain a x (xs ++ ys) y
    → (m : ℕ) × Chain a x xs m × Chain a m ys y
Chain-parts a x [] ys y c = (x, refl, c)
Chain-parts a x (e ∷ xs) ys y c =
    let (m, l, r) = Chain-parts a (next_of a e.at) xs ys y c.2 in (m, (c.0, c.1, l), r)

-- A chain survives a change that spares its descriptors and the queue links of its processes.
pub Chain-frame :
    (g a : Asl) (x : ℕ) (es : List Entry) (y : ℕ)
    → ((s : ℕ) → s ∈ ats es → g.cell s ≡ a.cell s)
    → ((q : ℕ) → q ∈ waiting es → SameLinks g.pcbs a.pcbs q)
    → Chain a x es y
    → Chain g x es y
Chain-frame g a x [] y sc sp c = c
Chain-frame g a x (e ∷ es) y sc sp (here, (plain, key, queue), rest) =
    let same = sc e.at (ground arith) in
    let next : next_of g e.at ≡ next_of a e.at = ap Semd.next same in
    (
      here,
      (
        plain,
        rw same key,
        rw same (
            IsProcQ-frame g.pcbs a.pcbs _ e.queue
              (λ q i. sp q (ground (arith, has-append q e.queue (waiting es)))) queue),
      ),
      rw next (
          Chain-frame g a (next_of a e.at) es y (λ s i. sc s (ground arith))
            (λ q i. sp q (ground (arith, has-append q e.queue (waiting es)))) rest),
    )

pub Stack-frame :
    (g a : Asl) (p : ℕ) (fs : List ℕ)
    → ((s : ℕ) → s ∈ fs → next_of g s ≡ next_of a s)
    → Stack a p fs
    → Stack g p fs
Stack-frame g a p [] same s = s
Stack-frame g a p (f ∷ fs) same s = (
  s.0,
  s.1,
  rw (same f (ground arith)) (Stack-frame g a (next_of a f) fs (λ q i. same q (ground arith)) s.2),
)

pub Chain-IsPlain :
    (a : Asl) (x : ℕ) (es : List Entry) (y : ℕ) → Chain a x es y → All IsPlain (ats es)
Chain-IsPlain a x [] y c = tt
Chain-IsPlain a x (e ∷ es) y c = (c.1.0, Chain-IsPlain a (next_of a e.at) es y c.2)

pub length-ats : (es : List Entry) → length (ats es) ≡ length es
length-ats [] = refl
length-ats (e ∷ es) = ground (arith, length-ats es)
