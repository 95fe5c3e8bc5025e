-- ===== src/Avsl/Enter.antt =====
-- vInsertBlocked of phase3/avsl.c.
use kaya_os.Base.{
  ℕ, ◌≡◌, refl, ap, ◌∙◌, Bool, true, false, ◌==◌, if◌then◌else◌, List, [], ◌∷◌, ◌++◌, arith,
  append_assoc, All, All-append, All-mem, ◌∈◌, ◌∉◌, has-append, IsDistinct, IsDistinct-parts, ok,
  Cmd, pure, gets, modify, ◌>>=◌, ◌>>◌, Returns, returns, Returns-bind,
}
use mathlib.Core.Path.{subst, sym}
use kaya_os.Base.Joined.{prev-mem}
use kaya_os.Pcb.{null}
use kaya_os.Avsl.{VSem, Avsl, set_next, set_prev, alloc_v_sem, link_last, v_insert_blocked}
use kaya_os.Avsl.Ring.{
  IsNode, IsNode-ne_null, next_of, prev_of, Stack, Stack-frame, IsAvsl, At, update-At, not_member,
}
use kaya_os.Avsl.Link.{
  Entered, Taken, alloc_v_sem-Taken, link_last-ok, linked, linked-Joined, linked-Stack, linked-free,
  linked-head, linked-label, node_of,
}

-- the rest of vInsertBlocked, behind the writes to the new node
abbrev join : ℕ → Cmd Avsl Bool
join new = do
  h ← gets Avsl.head
  if h == null
      then (do modify (λ a. record a { head = new }); set_next new new; set_prev new new; pure true)
      else do link_last h new; pure true

-- the ring was empty
join-first :
    (f sem id : ℕ) (fs : List ℕ) (a g : Avsl)
    → IsAvsl a [] (f ∷ fs)
    → Taken f (node_of sem id) a g
    → Returns (Entered a [] f fs sem id) (join f g)
join-first f sem id fs a g s (at, fr, hd) =
    let empty : g.head ≡ null = hd ∙ s.ring in
    let g' : Avsl = record g { head = f } in
    let start : At f (node_of sem id) a g' = record { here = at.here; outside = at.outside } in
    rw empty (
      Returns-bind (update-At _ s.valid.0 start) λ _ _ (w₁, f₁, h₁).
        Returns-bind (update-At _ s.valid.0 w₁) λ _ h (w₂, f₂, h₂). returns (record {
          result = refl;
          state = record {
            ring = (h₂ ∙ h₁, (ap VSem.next w₂.here, ap VSem.prev w₂.here));
            free = rw (f₂ ∙ f₁ ∙ fr) (
                Stack-frame (next_of a) (next_of h) (next_of a f) fs
                  (λ q i. ap VSem.next (w₂.outside q (not_member q f fs i s.distinct.0))) s.free.1);
            distinct = s.distinct;
            valid = s.valid;
          };
          label = record {
            key = ap VSem.sem w₂.here;
            process = ap VSem.asid w₂.here;
            others = λ q ne. (ap VSem.sem (w₂.outside q ne), ap VSem.asid (w₂.outside q ne));
          };
        }))

join-run :
    (f : ℕ) (g : Avsl)
    → IsNode g.head
    → IsNode f
    → IsNode (prev_of g g.head)
    → join f g ≡ ok true (linked g g.head f)
join-run f g vh vf vp = rw (IsNode-ne_null g.head vh, link_last-ok g g.head f vh vf vp) refl

-- behind the last of the ring
join-last :
    (f x sem id : ℕ) (xs fs : List ℕ) (a g : Avsl)
    → IsAvsl a (x ∷ xs) (f ∷ fs)
    → Taken f (node_of sem id) a g
    → Returns (Entered a (x ∷ xs) f fs sem id) (join f g)
join-last f x sem id xs fs a g s (at, fr, hd) =
    let (dx, df, apart) = IsDistinct-parts (x ∷ xs) (f ∷ fs) s.distinct in
    let (vx, vf) = All-append IsNode (x ∷ xs) (f ∷ fs) s.valid in
    let out : f ∉ (x ∷ xs) = ground (arith, has-append f (x ∷ xs) (f ∷ fs), apart f) in
    let ne : (x == f) ≡ false = ground (arith, out) in
    let head : g.head ≡ x = hd ∙ s.ring.0 in
    let pm : prev_of a x ∈ (x ∷ xs) = prev-mem (next_of a) (prev_of a) x xs x s.ring.1 in
    let pv : prev_of g x ≡ prev_of a x = ap VSem.prev (at.outside x ne) in
    let vp : IsNode (prev_of g x) = rw pv (All-mem IsNode (prev_of a x) (x ∷ xs) vx pm) in
    let vh : IsNode g.head = rw head vx.0 in
    let vp' : IsNode (prev_of g g.head) = subst (λ y. IsNode (prev_of g y)) (sym head) vp in
    let run : join f g ≡ ok true (linked g x f) =
      subst (λ y. join f g ≡ ok true (linked g y f)) head (join-run f g vh vf.0 vp') in
    let outside : prev_of g x ∉ (f ∷ fs) =
      subst (λ y. y ∉ (f ∷ fs)) (sym pv) (apart (prev_of a x) pm) in
    let assoc = append_assoc (x ∷ xs) (f ∷ []) fs in
    rw run (
      returns (record {
        result = refl;
        state = record {
          ring = (linked-head g x f ∙ head, linked-Joined f x sem id xs a g s.ring.1 dx out at);
          free =
              subst (λ y. Stack (next_of (linked g x f)) y fs) (sym (linked-free g x f ∙ fr))
                (linked-Stack f x sem id fs a g (ground (arith, apart x)) df.0
                  (ground (arith, outside)) at s.free.1);
          distinct = subst IsDistinct (sym assoc) s.distinct;
          valid = subst (All IsNode) (sym assoc) s.valid;
        };
        label = linked-label f x sem id a g ne (ground (arith, outside)) at;
      }))

join-Entered :
    (f sem id : ℕ) (xs fs : List ℕ) (a g : Avsl)
    → IsAvsl a xs (f ∷ fs)
    → Taken f (node_of sem id) a g
    → Returns (Entered a xs f fs sem id) (join f g)
join-Entered f sem id [] fs a g s t = join-first f sem id fs a g s t
join-Entered f sem id (x ∷ xs) fs a g s t = join-last f x sem id xs fs a g s t

first_free : (xs : List ℕ) (f : ℕ) (fs : List ℕ) (a : Avsl) → IsAvsl a xs (f ∷ fs) → a.free ≡ f
first_free xs f fs a s = s.free.0

free-IsNode : (xs : List ℕ) (f : ℕ) (fs : List ℕ) → All IsNode (xs ++ f ∷ fs) → IsNode f
free-IsNode xs f fs v = (All-append IsNode xs (f ∷ fs) v).1.0

-- vInsertBlocked with a free node returns TRUE and puts the process behind the others on the ring,
-- in the first free node, with the semaphore; the free nodes behind that one stay free in their
-- order, and every other node keeps its semaphore and its process.
pub v_insert_blocked-append :
    (sem id f : ℕ) (xs fs : List ℕ) (a : Avsl)
    → IsAvsl a xs (f ∷ fs)
    → Returns (Entered a xs f fs sem id) (v_insert_blocked sem id a)
unfolding v_insert_blocked
v_insert_blocked-append sem id f xs fs a s =
    let vf : IsNode f = free-IsNode xs f fs s.valid in
    let va : IsNode a.free = subst IsNode (sym (first_free xs f fs a s)) vf in
    let got : Returns (λ r g. (r ≡ f) × Taken f (node_of null null) a g) (alloc_v_sem a) =
      subst (λ y. Returns (λ r g. (r ≡ y) × Taken y (node_of null null) a g) (alloc_v_sem a))
        (first_free xs f fs a s) (alloc_v_sem-Taken a va) in
    Returns-bind got λ r g (e, (at, fr, hd)).
      rw (e, IsNode-ne_null f vf)
        (Returns-bind (update-At _ vf at) λ _ _ (w₁, f₁, h₁).
          Returns-bind (update-At _ vf w₁)
            λ _ _ (w₂, f₂, h₂). join-Entered f sem id xs fs a _ s (w₂, f₂ ∙ f₁ ∙ fr, h₂ ∙ h₁ ∙ hd))

-- vInsertBlocked without a free node returns FALSE and changes nothing.
pub v_insert_blocked-full :
    (sem id : ℕ) (xs : List ℕ) (a : Avsl) → IsAvsl a xs [] → v_insert_blocked sem id a ≡ ok false a
unfolding v_insert_blocked alloc_v_sem
v_insert_blocked-full sem id xs a s = rw s.free refl
