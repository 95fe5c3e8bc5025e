-- ===== src/Avsl/Link.antt =====
-- The new node of vInsertBlocked of phase3/avsl.c, and its place at the end of the ring.
use kaya_os.Base.{
  ℕ, ◌≡◌, refl, ap, ◌∙◌, Bool-cases, inl, inr, Bool, true, false, ◌==◌, if◌then◌else◌, List, [],
  ◌∷◌, ◌++◌, arith, ◌∉◌, IsDistinct, ok, Returns, returns, Returns-bind,
}
use kaya_os.Base.Joined.{Joined, Joined-frame, Joined-snoc, next_with, prev_with}
use kaya_os.Pcb.{null}
use kaya_os.Avsl.{VSem, Avsl, put, alloc_v_sem, link_last}
use kaya_os.Avsl.Ring.{
  IsNode, load-ok, update-ok, IsNode-ne_null, next_of, prev_of, Stack, Stack-frame, IsAvsl, At,
  update-At, with_next, with_prev, not_member,
}

-- `g` is `a` with the first free node taken and set to `c`.
abbrev pub Taken : ℕ → VSem → Avsl → Avsl → Type 0
Taken f c a g = At f c a g × (g.free ≡ next_of a f) × (g.head ≡ a.head)

abbrev pub node_of : (sem id : ℕ) → VSem
node_of sem id = record { next = null; prev = null; sem = sem; asid = id }

or_null : (n : ℕ) → (if n == null then null else n) ≡ n
or_null n = ground arith

pub alloc_v_sem-Taken :
    (a : Avsl)
    → IsNode a.free
    → Returns (λ r g. (r ≡ a.free) × Taken a.free (node_of null null) a g) (alloc_v_sem a)
unfolding alloc_v_sem
alloc_v_sem-Taken a v =
    let f = a.free in
    let a' : Avsl = record a { free = next_of a f } in
    let start : At f (a.cell f) a a' = record { here = refl; outside = λ q ne. refl } in
    rw (IsNode-ne_null f v, load-ok f a v, or_null (next_of a f))
      (Returns-bind (update-At _ v start) λ _ _ (w₁, f₁, h₁).
        Returns-bind (update-At _ v w₁) λ _ _ (w₂, f₂, h₂).
          Returns-bind (update-At _ v w₂) λ _ _ (w₃, f₃, h₃).
            Returns-bind (update-At _ v w₃)
              λ _ _ (w₄, f₄, h₄). returns (refl, (w₄, f₄ ∙ f₃ ∙ f₂ ∙ f₁, h₄ ∙ h₃ ∙ h₂ ∙ h₁)))

-- the state that link_last leaves
abbrev pub linked : Avsl → (h new : ℕ) → Avsl
linked g h new =
    with_prev (with_prev (with_next (with_next g new h) (prev_of g h) new) new (prev_of g h)) h new

-- what link_last reads between its writes
prev-with_next : (g : Avsl) (p v q : ℕ) → prev_of (with_next g p v) q ≡ prev_of g q
unfolding put
prev-with_next g p v q = ground arith

pub link_last-ok :
    (g : Avsl) (h new : ℕ)
    → IsNode h
    → IsNode new
    → IsNode (prev_of g h)
    → link_last h new g ≡ ok tt (linked g h new)
unfolding link_last
link_last-ok g h new vh vn vp =
    let first = prev-with_next g new h h in
    let second = prev-with_next (with_next g new h) (prev_of g h) new h ∙ first in
    rw
      (
        update-ok new _ g vn,
        load-ok h _ vh,
        first,
        update-ok (prev_of g h) _ _ vp,
        load-ok h _ vh,
        second,
        update-ok new _ _ vn,
        update-ok h _ _ vh,
      )
      refl

linked-next :
    (g : Avsl) (h new q : ℕ)
    → next_of (linked g h new) q ≡ next_with (next_of g) (prev_of g) new h q
unfolding put
linked-next g h new q = ground arith

pub linked-head : (g : Avsl) (h new : ℕ) → (linked g h new).head ≡ g.head
unfolding put
linked-head g h new = refl

pub linked-free : (g : Avsl) (h new : ℕ) → (linked g h new).free ≡ g.free
unfolding put
linked-free g h new = refl

linked-prev :
    (g : Avsl) (h new q : ℕ)
    → (h == new) ≡ false
    → prev_of (linked g h new) q ≡ prev_with (prev_of g) new h q
unfolding put
linked-prev g h new q ne = ground arith

-- The node `f` with the semaphore and the process, and those of the other nodes as they were.
pub record Labelled (f sem id : ℕ) (a g : Avsl) : Type 0 where
  pub key : (g.cell f).sem ≡ sem
  pub process : (g.cell f).asid ≡ id
  pub others :
      (q : ℕ)
      → (q == f) ≡ false
      → ((g.cell q).sem ≡ (a.cell q).sem) × ((g.cell q).asid ≡ (a.cell q).asid)

-- What vInsertBlocked promises with a free node: the process is the last of the ring.
pub record Entered (a : Avsl) (xs : List ℕ) (f : ℕ) (fs : List ℕ) (sem id : ℕ) (r : Bool) (g : Avsl)
    : Type 0 where
  pub result : r ≡ true
  pub state : IsAvsl g (xs ++ f ∷ []) fs
  pub label : Labelled f sem id a g

pub linked-label :
    (f x sem id : ℕ) (a g : Avsl)
    → (x == f) ≡ false
    → (prev_of g x == f) ≡ false
    → At f (node_of sem id) a g
    → Labelled f sem id a (linked g x f)
unfolding put
linked-label f x sem id a g ne np at = record {
  key = ground (arith, ap VSem.sem at.here);
  process = ground (arith, ap VSem.asid at.here);
  others = λ q nq. (
    ground (arith, ap VSem.sem (at.outside q nq)),
    ground (arith, ap VSem.asid (at.outside q nq)),
  );
}

next_with-same :
    (n v n' v' : ℕ → ℕ) (f x q : ℕ)
    → v' x ≡ v x
    → ((q == f) ≡ false → n' q ≡ n q)
    → next_with n' v' f x q ≡ next_with n v f x q
next_with-same n v n' v' f x q ev en =
    rw ev (elim (Bool-cases (q == f)) [ inl h ↦ rw h refl | inr h ↦ rw (h, en h) refl ])

prev_with-same :
    (v v' : ℕ → ℕ) (f x q : ℕ)
    → v' x ≡ v x
    → ((q == f) ≡ false → v' q ≡ v q)
    → prev_with v' f x q ≡ prev_with v f x q
prev_with-same v v' f x q ev en =
    rw ev (elim (Bool-cases (q == f)) [ inl h ↦ rw h refl | inr h ↦ rw (h, en h) refl ])

pub linked-Joined :
    (f x sem id : ℕ) (xs : List ℕ) (a g : Avsl)
    → Joined (next_of a) (prev_of a) x xs x
    → IsDistinct (x ∷ xs)
    → f ∉ (x ∷ xs)
    → At f (node_of sem id) a g
    → Joined (next_of (linked g x f)) (prev_of (linked g x f)) x (xs ++ f ∷ []) x
linked-Joined f x sem id xs a g r d out at =
    let ne : (x == f) ≡ false = ground (arith, out) in
    let pv : prev_of g x ≡ prev_of a x = ap VSem.prev (at.outside x ne) in
    Joined-frame (next_with (next_of a) (prev_of a) f x) (prev_with (prev_of a) f x)
      (next_of (linked g x f)) (prev_of (linked g x f)) x (xs ++ f ∷ []) x
      (λ q i.
        linked-next g x f q
        ∙ next_with-same (next_of a) (prev_of a) (next_of g) (prev_of g) f x q pv
            (λ nq. ap VSem.next (at.outside q nq)))
      (λ q i.
        linked-prev g x f q ne
        ∙ prev_with-same (prev_of a) (prev_of g) f x q pv (λ nq. ap VSem.prev (at.outside q nq)))
      (Joined-snoc (next_of a) (prev_of a) x xs f x d.1 d.0 d.0 (ground (arith, out)) r)

-- the writes of link_last leave the free nodes alone
pub linked-Stack :
    (f x sem id : ℕ) (fs : List ℕ) (a g : Avsl)
    → x ∉ fs
    → f ∉ fs
    → prev_of g x ∉ fs
    → At f (node_of sem id) a g
    → Stack (next_of a) (next_of a f) fs
    → Stack (next_of (linked g x f)) (next_of a f) fs
linked-Stack f x sem id fs a g nx nf np at s =
    Stack-frame (next_of a) (next_of (linked g x f)) (next_of a f) fs
      (λ q i.
        let nq : (q == f) ≡ false = not_member q f fs i nf in
        let nv : (q == prev_of g x) ≡ false = not_member q (prev_of g x) fs i np in
        linked-next g x f q ∙ rw (nv, nq) (ap VSem.next (at.outside q nq)))
      s
