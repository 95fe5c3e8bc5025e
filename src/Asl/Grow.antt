-- ===== src/Asl/Grow.antt =====
-- The active list of asl.c with one more semaphore.
use kaya_os.Base.{
  Bool-cases, inl, inr, ℕ, ◌<◌, ◌≡◌, ◌≢◌, ap, ◌∙◌, false, List, [], ◌∷◌, ◌++◌, append_assoc, arith,
  ◌==◌, All, All-append, append-All, ◌∈◌, ◌∉◌, has-append, IsDistinct, IsDistinct-parts,
  IsDistinct-gather, IsDistinct-insert,
}
use kaya_os.Pcb.Queue.{IsProcQ}
use kaya_os.Pcb.Aim.{Kept}
use kaya_os.Asl.{Semd, Asl, zero_node, max_node}
use kaya_os.Asl.Chain.{
  Entry, IsPlain, next_of, Chain, Chain-parts, Chain-frame, Chain-IsPlain, Stack-frame, IsAsl,
  IsSorted, ats, ats-append, waiting,
}
use kaya_os.Asl.Search.{last_at, Below}
use kaya_os.Asl.Head.{Beyond, last_at-Chain}
use kaya_os.Asl.Refill.{Told, Told-frame, waiting-append}
use kaya_os.Asl.Splice.{SameBody, last_at-mem, Chain-splice, plain-out, Stack-IsPlain, apart-last}

-- the semaphore `s`, on which only `p` is blocked, in the descriptor `f`
abbrev pub fresh : (f s p : ℕ) → Entry
fresh f s p = record { at = f; key = s; queue = p ∷ [] }

IsSorted-insert :
    (low f s p : ℕ) (xs ys : List Entry)
    → low < s
    → IsSorted low (xs ++ ys)
    → Below s xs
    → Beyond s ys
    → IsSorted low (xs ++ fresh f s p ∷ ys)
IsSorted-insert low f s p [] [] l so lo hi = (l, hi)
IsSorted-insert low f s p [] (y ∷ ys) l so lo hi = (l, (hi, so.1))
IsSorted-insert low f s p (x ∷ xs) ys l so lo hi =
    (so.0, IsSorted-insert x.key f s p xs ys lo.0 so.1 lo.1 hi)

-- `g` is `a` with the first free descriptor `f` on the active list, for `s`, with `p` on its queue.
pub record Grown (a g : Asl) (xs ys : List Entry) (f s p : ℕ) : Type 0 where
  pub new_free : g.free ≡ next_of a f
  pub same_active : g.active ≡ a.active
  pub cells : (x : ℕ) → (x == f) ≡ false → (x == last_at zero_node xs) ≡ false → g.cell x ≡ a.cell x
  pub new_next : next_of g (last_at zero_node xs) ≡ f
  pub body : SameBody g a (last_at zero_node xs)
  pub onward : next_of g f ≡ next_of a (last_at zero_node xs)
  pub key : (g.cell f).sem_add ≡ s
  pub queue : IsProcQ g.pcbs (g.cell f).proc_q (p ∷ [])
  pub kept : (q : ℕ) → q ∈ (waiting xs ++ waiting ys) → Kept g.pcbs a.pcbs q
  pub told : (g.pcbs.cell p).sem_add ≡ s

module _ {a g : Asl} {fs : List ℕ} (xs ys : List Entry) (f s p : ℕ)
    (i : IsAsl a (xs ++ ys) (f ∷ fs)) (r : Grown a g xs ys f s p) where
  old : (m : ℕ) × Chain a (next_of a zero_node) xs m × Chain a m ys max_node
  old = Chain-parts a _ xs ys max_node i.chain

  link : Chain a (next_of a (last_at zero_node xs)) ys max_node
  link = last_at-Chain a zero_node xs ys max_node i.chain

  nodes : IsDistinct (ats xs ++ (ats ys ++ f ∷ fs))
  nodes = rw (ats-append xs ys, append_assoc) at i.nodes

  front-IsPlain : All IsPlain (ats xs)
  front-IsPlain = Chain-IsPlain a _ xs _ old.1

  rest-IsPlain : All IsPlain (ats ys ++ f ∷ fs)
  rest-IsPlain =
      append-All IsPlain (ats ys) (f ∷ fs) (Chain-IsPlain a _ ys _ old.2)
        (Stack-IsPlain a a.free (f ∷ fs) i.stack)

  f-IsPlain : IsPlain f
  f-IsPlain = i.stack.1

  away : (x : ℕ) → x ∈ (ats ys ++ fs) → g.cell x ≡ a.cell x
  away x m =
      let (dx, dr, apart) = IsDistinct-parts (ats xs) _ nodes in
      let (dy, df, apart') = IsDistinct-parts (ats ys) (f ∷ fs) dr in
      let in_rest : x ∈ (ats ys ++ f ∷ fs) =
        ground (arith, has-append x (ats ys) fs, has-append x (ats ys) (f ∷ fs)) in
      let ne : (x == f) ≡ false = ground (arith, has-append x (ats ys) fs, apart' x) in
      r.cells x ne (apart-last xs _ rest-IsPlain nodes x in_rest)

  top : g.cell max_node ≡ a.cell max_node
  top =
      let out = plain-out max_node (ats xs) front-IsPlain (omega arith) in
      let m = last_at-mem zero_node xs in
      r.cells max_node (ground (arith, f-IsPlain)) (ground arith)

  front :
      (x : ℕ) → x ∈ (zero_node ∷ ats xs) → (x == last_at zero_node xs) ≡ false → g.cell x ≡ a.cell x
  front x m ne =
      let (dx, dr, apart) = IsDistinct-parts (ats xs) _ nodes in
      r.cells x (ground (arith, apart x, f-IsPlain, has-append f (ats ys) (f ∷ fs))) ne

  same_body : (x : ℕ) → x ∈ ats xs → SameBody g a x
  same_body x m = elim (Bool-cases (x == last_at zero_node xs)) [
    | inl h ↦ let same : x ≡ last_at zero_node xs = ground arith in rw same r.body
    | inr h ↦ let same = front x (ground arith) h in (ap Semd.sem_add same, ap Semd.proc_q same)
  ]

  front-Kept : (q : ℕ) → q ∈ waiting xs → Kept g.pcbs a.pcbs q
  front-Kept q m = r.kept q (ground (arith, has-append q (waiting xs) (waiting ys)))

  rest-Kept : (q : ℕ) → q ∈ waiting ys → Kept g.pcbs a.pcbs q
  rest-Kept q m = r.kept q (ground (arith, has-append q (waiting xs) (waiting ys)))

  chain : Chain g (next_of g zero_node) (xs ++ fresh f s p ∷ ys) max_node
  chain =
      let dx = (IsDistinct-parts (ats xs) _ nodes).0 in
      let tail =
        Chain-frame g a _ ys max_node (λ x m. away x (ground (arith, has-append x (ats ys) fs)))
          (λ q m. (rest-Kept q m).0) link in
      Chain-splice g a zero_node xs (fresh f s p ∷ ys) _ max_node
        (plain-out zero_node (ats xs) front-IsPlain (omega arith), dx)
        (λ x m ne. ap Semd.next (front x m ne)) same_body (λ q m. (front-Kept q m).0) old.1
        (r.new_next, (f-IsPlain, r.key, r.queue), rw r.onward tail)

  -- The list stays well-formed with the new semaphore in its place.
  pub Grown-IsAsl :
      0 < s
      → Below s xs
      → Beyond s ys
      → p ∉ (waiting xs ++ waiting ys)
      → IsAsl g (xs ++ fresh f s p ∷ ys) fs
  Grown-IsAsl low lo hi out =
      let (tx, ty) = All-append _ xs ys i.told in
      let (bx, by) = All-append _ xs ys i.busy in
      let told : Told g.pcbs (xs ++ fresh f s p ∷ ys) =
        append-All (λ e. All (λ p. (g.pcbs.cell p).sem_add ≡ e.key) e.queue) xs (fresh f s p ∷ ys)
          (Told-frame g.pcbs a.pcbs xs (λ q m. (front-Kept q m).1) tx)
          ((r.told, tt), Told-frame g.pcbs a.pcbs ys (λ q m. (rest-Kept q m).1) ty) in
      let free' =
        Stack-frame g a _ fs
          (λ x m. ap Semd.next (away x (ground (arith, has-append x (ats ys) fs)))) i.stack.2 in
      let blocked : IsDistinct (waiting xs ++ waiting ys) =
        rw (waiting-append xs ys) at i.blocked in
      record {
        head = r.same_active ∙ i.head;
        chain = chain;
        top = (ap Semd.sem_add top ∙ i.top.0, ap Semd.proc_q top ∙ i.top.1);
        sorted = IsSorted-insert 0 f s p xs ys low i.sorted lo hi;
        stack = rw r.new_free free';
        nodes =
            rw (ats-append xs (fresh f s p ∷ ys), append_assoc)
              (IsDistinct-gather (ats xs) (ats ys) f fs nodes);
        blocked =
            rw (waiting-append xs (fresh f s p ∷ ys))
              (IsDistinct-insert (waiting xs) [] p (waiting ys) blocked out);
        busy = append-All (λ e. e.queue ≢ []) xs (fresh f s p ∷ ys) bx (λ z. ground (arith, z), by);
        told = told;
      }
