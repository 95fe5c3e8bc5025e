-- ===== src/Asl/Splice.antt =====
-- The active list of asl.c when a descriptor leaves it or comes in: one `s_next` before it changes.
use kaya_os.Base.{
  Bool-cases, inl, inr, ℕ, ◌<◌, ◌≡◌, ◌≢◌, refl, ap, ◌∙◌, false, List, [], ◌∷◌, ◌++◌, append_assoc,
  arith, ◌==◌, All, All-append, append-All, ◌∈◌, ◌∉◌, has-append, IsDistinct, IsDistinct-move,
  IsDistinct-outer, IsDistinct-parts,
}
use kaya_os.Pcb.Aim.{Kept}
use kaya_os.Pcb.Frame.{SameLinks, IsProcQ-frame}
use kaya_os.Asl.{Semd, Asl, zero_node, max_node}
use kaya_os.Asl.Chain.{
  Entry, IsPlain, next_of, Chain, Chain-parts, Chain-frame, Chain-IsPlain, Stack, Stack-frame,
  IsAsl, IsSorted, ats, ats-append, waiting,
}
use kaya_os.Asl.Search.{last_at}
use kaya_os.Asl.Refill.{Told, Told-frame, waiting-append, nodes-middle}

-- The semaphore and the queue of a descriptor are what they were.
abbrev pub SameBody : Asl → Asl → ℕ → Type 0
SameBody g a s = ((g.cell s).sem_add ≡ (a.cell s).sem_add) × ((g.cell s).proc_q ≡ (a.cell s).proc_q)

pub last_at-mem : (n : ℕ) (xs : List Entry) → last_at n xs ∈ (n ∷ ats xs)
last_at-mem n [] = ground arith
last_at-mem n (e ∷ xs) = ground (arith, last_at-mem e.at xs)

-- Behind the last descriptor of `xs` the chain may go on another way.
pub Chain-splice :
    (g a : Asl) (n : ℕ) (xs ws : List Entry) (m y : ℕ)
    → IsDistinct (n ∷ ats xs)
    → ((s : ℕ) → s ∈ (n ∷ ats xs) → (s == last_at n xs) ≡ false → next_of g s ≡ next_of a s)
    → ((s : ℕ) → s ∈ ats xs → SameBody g a s)
    → ((q : ℕ) → q ∈ waiting xs → SameLinks g.pcbs a.pcbs q)
    → Chain a (next_of a n) xs m
    → Chain g (next_of g (last_at n xs)) ws y
    → Chain g (next_of g n) (xs ++ ws) y
Chain-splice g a n [] ws m y d nx body links c r = r
Chain-splice g a n (e ∷ xs) ws m y d nx body links (here, (plain, key, queue), rest) r =
    let same = body e.at (ground arith) in
    let q' =
      IsProcQ-frame g.pcbs a.pcbs _ e.queue
        (λ q i. links q (ground (arith, has-append q e.queue (waiting xs)))) queue in
    (
      nx n (ground arith) (ground (arith, last_at-mem e.at xs)) ∙ here,
      (plain, same.0 ∙ key, rw same.1 q'),
      Chain-splice g a e.at xs ws m y d.1 (λ s i. nx s (ground arith))
          (λ s i. body s (ground arith))
          (λ q i. links q (ground (arith, has-append q e.queue (waiting xs)))) rest r,
    )

pub IsSorted-drop :
    (low : ℕ) (xs : List Entry) (e : Entry) (ys : List Entry)
    → IsSorted low (xs ++ e ∷ ys)
    → IsSorted low (xs ++ ys)
IsSorted-drop low [] e [] s = omega (arith, s.0, s.1)
IsSorted-drop low [] e (y ∷ ys) s = (omega (arith, s.0, s.1.0), s.1.1)
IsSorted-drop low (x ∷ xs) e ys s = (s.0, IsSorted-drop x.key xs e ys s.1)

-- `g` is `a` without the descriptor of `e`, which is the first free one.
pub record Dropped (a g : Asl) (xs : List Entry) (e : Entry) (ys : List Entry) : Type 0 where
  pub new_free : g.free ≡ e.at
  pub same_active : g.active ≡ a.active
  pub cells :
      (s : ℕ) → (s == e.at) ≡ false → (s == last_at zero_node xs) ≡ false → g.cell s ≡ a.cell s
  pub new_next : next_of g (last_at zero_node xs) ≡ next_of a e.at
  pub body : SameBody g a (last_at zero_node xs)
  pub stacked : next_of g e.at ≡ a.free
  pub kept : (q : ℕ) → q ∈ (waiting xs ++ waiting ys) → Kept g.pcbs a.pcbs q

pub plain-out : (k : ℕ) (ss : List ℕ) → All IsPlain ss → 20 < k → k ∉ ss
plain-out k [] h b = refl
plain-out k (s ∷ ss) h b = ground (arith, h.0, plain-out k ss h.1 b)

pub Stack-IsPlain : (a : Asl) (p : ℕ) (fs : List ℕ) → Stack a p fs → All IsPlain fs
Stack-IsPlain a p [] s = tt
Stack-IsPlain a p (f ∷ fs) s = (s.1, Stack-IsPlain a (next_of a f) fs s.2)

-- Descriptors apart from those of `xs` are not the one before.
pub apart-last :
    (xs : List Entry) (ss : List ℕ)
    → All IsPlain ss
    → IsDistinct (ats xs ++ ss)
    → (s : ℕ) → s ∈ ss
    → (s == last_at zero_node xs) ≡ false
apart-last xs ss h d s i =
    let (dx, ds, apart) = IsDistinct-parts (ats xs) ss d in
    let out = plain-out zero_node ss h (omega arith) in
    let m = last_at-mem zero_node xs in ground (arith, apart s)

module _ {a g : Asl} {fs : List ℕ} (xs : List Entry) (e : Entry) (ys : List Entry)
    (i : IsAsl a (xs ++ e ∷ ys) fs) (r : Dropped a g xs e ys) where
  old : (m : ℕ) × Chain a (next_of a zero_node) xs m × Chain a m (e ∷ ys) max_node
  old = Chain-parts a _ xs (e ∷ ys) max_node i.chain

  nodes : IsDistinct (ats xs ++ e.at ∷ (ats ys ++ fs))
  nodes = nodes-middle xs e ys i

  front-IsPlain : All IsPlain (ats xs)
  front-IsPlain = Chain-IsPlain a _ xs _ old.1

  rest-IsPlain : All IsPlain (e.at ∷ (ats ys ++ fs))
  rest-IsPlain = (
    old.2.1.0,
    append-All IsPlain (ats ys) fs (Chain-IsPlain a _ ys _ old.2.2)
        (Stack-IsPlain a a.free fs i.stack),
  )

  away : (s : ℕ) → s ∈ (ats ys ++ fs) → g.cell s ≡ a.cell s
  away s m =
      let (dx, dr, apart) = IsDistinct-parts (ats xs) (e.at ∷ (ats ys ++ fs)) nodes in
      r.cells s (ground arith) (apart-last xs _ rest-IsPlain nodes s (ground arith))

  top : g.cell max_node ≡ a.cell max_node
  top =
      let out = plain-out max_node (ats xs) front-IsPlain (omega arith) in
      let m = last_at-mem zero_node xs in
      r.cells max_node (ground (arith, rest-IsPlain.0)) (ground arith)

  front :
      (s : ℕ) → s ∈ (zero_node ∷ ats xs) → (s == last_at zero_node xs) ≡ false → g.cell s ≡ a.cell s
  front s m ne =
      let (dx, dr, apart) = IsDistinct-parts (ats xs) (e.at ∷ (ats ys ++ fs)) nodes in
      r.cells s (ground (arith, apart s, rest-IsPlain.0)) ne

  same_body : (s : ℕ) → s ∈ ats xs → SameBody g a s
  same_body s m = elim (Bool-cases (s == last_at zero_node xs)) [
    | inl h ↦ let same : s ≡ last_at zero_node xs = ground arith in rw same r.body
    | inr h ↦ let same = front s (ground arith) h in (ap Semd.sem_add same, ap Semd.proc_q same)
  ]

  front-Kept : (q : ℕ) → q ∈ waiting xs → Kept g.pcbs a.pcbs q
  front-Kept q m = r.kept q (ground (arith, has-append q (waiting xs) (waiting ys)))

  rest-Kept : (q : ℕ) → q ∈ waiting ys → Kept g.pcbs a.pcbs q
  rest-Kept q m = r.kept q (ground (arith, has-append q (waiting xs) (waiting ys)))

  chain : Chain g (next_of g zero_node) (xs ++ ys) max_node
  chain =
      let tail =
        Chain-frame g a _ ys max_node (λ s m. away s (ground (arith, has-append s (ats ys) fs)))
          (λ q m. (rest-Kept q m).0) old.2.2 in
      let dx = (IsDistinct-parts (ats xs) _ nodes).0 in
      Chain-splice g a zero_node xs ys _ max_node
        (plain-out zero_node (ats xs) front-IsPlain (omega arith), dx)
        (λ s m ne. ap Semd.next (front s m ne)) same_body (λ q m. (front-Kept q m).0) old.1
        (rw r.new_next tail)

  -- The list stays well-formed without the descriptor, which is free from then on.
  pub Dropped-IsAsl : IsAsl g (xs ++ ys) (e.at ∷ fs)
  Dropped-IsAsl =
      let (tx, (te, ty)) = All-append _ xs (e ∷ ys) i.told in
      let (bx, (be, by)) = All-append _ xs (e ∷ ys) i.busy in
      let told : Told g.pcbs (xs ++ ys) =
        append-All (λ e. All (λ p. (g.pcbs.cell p).sem_add ≡ e.key) e.queue) xs ys
          (Told-frame g.pcbs a.pcbs xs (λ q m. (front-Kept q m).1) tx)
          (Told-frame g.pcbs a.pcbs ys (λ q m. (rest-Kept q m).1) ty) in
      let free' =
        Stack-frame g a a.free fs
          (λ s m. ap Semd.next (away s (ground (arith, has-append s (ats ys) fs)))) i.stack in
      let blocked : IsDistinct (waiting xs ++ (e.queue ++ waiting ys)) =
        rw (waiting-append xs (e ∷ ys)) at i.blocked in
      record {
        head = r.same_active ∙ i.head;
        chain = chain;
        top = (ap Semd.sem_add top ∙ i.top.0, ap Semd.proc_q top ∙ i.top.1);
        sorted = IsSorted-drop 0 xs e ys i.sorted;
        stack = (r.new_free, rest-IsPlain.0, rw r.stacked free');
        nodes =
            rw (ats-append xs ys, append_assoc) (IsDistinct-move (ats xs) e.at (ats ys) fs nodes);
        blocked =
            rw (waiting-append xs ys) (IsDistinct-outer (waiting xs) e.queue (waiting ys) blocked);
        busy = append-All (λ e. e.queue ≢ []) xs ys bx by;
        told = told;
      }
