-- ===== src/Asl/Drop.antt =====
-- removeBlocked and outBlocked of asl.c after the dequeue: an empty queue gives its descriptor back.
use kaya_os.Base.{ℕ, ◌≡◌, refl, ap, ◌∙◌, true, false, List, [], ◌∷◌, ◌++◌, arith, ◌==◌, ◌∈◌, ok}
use kaya_os.Pcb.{null, Pcbs}
use kaya_os.Pcb.Access.{IsPcb-ne_null}
use kaya_os.Pcb.Queue.{IsProcQ, empty, filled}
use kaya_os.Pcb.Aim.{Kept}
use kaya_os.Asl.{Semd, Asl, zero_node, put, free_semd, drop_if_empty}
use kaya_os.Asl.Access.{load-ok, update-ok, with}
use kaya_os.Asl.Chain.{Entry, IsSemd, next_of, waiting}
use kaya_os.Asl.Search.{last_at}
use kaya_os.Asl.Refill.{refilled-hit, refilled-miss, refilled}
use kaya_os.Asl.Splice.{Dropped}

-- the tail pointer of a queue with blocks
pub IsProcQ-ne_null :
    {h : Pcbs} {tp q : ℕ} {qs : List ℕ} → IsProcQ h tp (q ∷ qs) → (tp == null) ≡ false
IsProcQ-ne_null (empty e n) = absurd (ground (arith, n))
IsProcQ-ne_null {tp = tp} (filled front e r) = IsPcb-ne_null tp r.valid.0

pub IsProcQ-null : {h : Pcbs} {tp : ℕ} → IsProcQ h tp [] → tp ≡ null
IsProcQ-null (empty e n) = e
IsProcQ-null (filled [] e r) = absurd (ground (arith, e))
IsProcQ-null (filled (x ∷ xs) e r) = absurd (ground (arith, e))

abbrev unchained : Asl → ℕ → ℕ → Asl
unchained b prev s =
    let b1 = with b prev (λ d. record d { next = next_of b s }) in
    record (with b1 s (λ d. record d { next = b1.free })) { free = s }

-- the descriptor `s`, behind `prev`, off the active list and on the free list
abbrev pub dropped : Asl → ℕ → ℕ → Asl
dropped b prev s = with (unchained b prev s) s (λ d. record d { sem_add = null })

pub drop_if_empty-nil :
    (b : Asl) (prev s : ℕ)
    → IsSemd prev
    → IsSemd s
    → next_of b prev ≡ s
    → ((b.cell s).proc_q == null) ≡ true
    → drop_if_empty prev b ≡ ok tt (dropped b prev s)
unfolding drop_if_empty free_semd
drop_if_empty-nil b prev s v w n e =
    rw (load-ok prev b v, n, load-ok s b w, e, update-ok prev _ b v, update-ok s _ _ w)
      (update-ok s (λ d. record d { sem_add = null }) (unchained b prev s) w)

pub drop_if_empty-cons :
    (b : Asl) (prev s : ℕ)
    → IsSemd prev
    → IsSemd s
    → next_of b prev ≡ s
    → ((b.cell s).proc_q == null) ≡ false
    → drop_if_empty prev b ≡ ok tt b
unfolding drop_if_empty
drop_if_empty-cons b prev s v w n e = rw (load-ok prev b v, n, load-ok s b w, e)

dropped-prev :
    (b : Asl) (prev s : ℕ)
    → (prev == s) ≡ false
    → (dropped b prev s).cell prev ≡ record (b.cell prev) { next = next_of b s }
unfolding put
dropped-prev b prev s ne = ground arith

dropped-hit : (b : Asl) (prev s : ℕ) → (s == prev) ≡ false → next_of (dropped b prev s) s ≡ b.free
unfolding put
dropped-hit b prev s ne = ground arith

dropped-miss :
    (b : Asl) (prev s x : ℕ)
    → (x == s) ≡ false
    → (x == prev) ≡ false
    → (dropped b prev s).cell x ≡ b.cell x
unfolding put
dropped-miss b prev s x ne ne' = ground arith

module _ (a : Asl) (h : Pcbs) (xs : List Entry) (e : Entry) (ys : List Entry) (t : ℕ) where
  -- The descriptor that the chain loses is behind the one that is left.
  pub dropped-Dropped :
      (last_at zero_node xs == e.at) ≡ false
      → ((q : ℕ) → q ∈ (waiting xs ++ waiting ys) → Kept h a.pcbs q)
      → Dropped a (dropped (refilled a h e.at t) (last_at zero_node xs) e.at) xs e ys
  unfolding put
  dropped-Dropped ne kept =
      let prev = last_at zero_node xs in
      let b = refilled a h e.at t in
      let ne' : (e.at == prev) ≡ false = ground arith in
      let old = refilled-miss a h e.at t prev ne in
      let new = dropped-prev b prev e.at ne in
      record {
        new_free = refl;
        same_active = refl;
        cells = λ s o o'. dropped-miss b prev e.at s o o' ∙ refilled-miss a h e.at t s o;
        new_next = ap Semd.next new ∙ ap Semd.next (refilled-hit a h e.at t);
        body = (ap Semd.sem_add new ∙ ap Semd.sem_add old, ap Semd.proc_q new ∙ ap Semd.proc_q old);
        stacked = dropped-hit b prev e.at ne';
        kept = kept;
      }
