-- ===== src/Asl/First.antt =====
-- headBlocked of asl.c against the map from semaphores to queues.
use kaya_os.Base.{
  ℕ, ◌<◌, ◌≤◌, ◌≡◌, ◌≢◌, refl, sym, ◌∙◌, false, List, [], ◌∷◌, ◌++◌, arith, ◌==◌, All-append, ok,
}
use kaya_os.Pcb.{null}
use kaya_os.Pcb.Access.{IsPcb-ne_null}
use kaya_os.Pcb.Out.{head_or_null}
use kaya_os.Asl.{Asl, head_blocked}
use kaya_os.Asl.Chain.{Entry, IsAsl}
use kaya_os.Asl.Search.{Below}
use kaya_os.Asl.Head.{Beyond-FromOn, head_blocked-from}
use kaya_os.Asl.Queues.{queue_of, Place, held, lacking, place, queue_of-Below, queue_of-held}
use kaya_os.Asl.Blocking.{IsBlocking, IsAddress}
use kaya_os.Asl.Waking.{holds, lacks}
use kaya_os.Asl.Apart.{blocked-IsPcb}

Below-up : (k l : ℕ) (xs : List Entry) → k ≤ l → Below k xs → Below l xs
Below-up k l [] le b = tt
Below-up k l (x ∷ xs) le b = (omega (arith, b.0), Below-up k l xs le b.1)

-- The queue of the first semaphore behind `xs`.
key-queue :
    (xs : List Entry) (e : Entry) (ys : List Entry) (k : ℕ)
    → Below k xs
    → k < e.key
    → queue_of (xs ++ e ∷ ys) e.key ≡ e.queue
key-queue xs e ys k lo l =
    queue_of-held e.key xs e ys (Below-up k e.key xs (omega (arith, l)) lo) refl

module _ {a : Asl} {m : ℕ → List ℕ} (k : ℕ) (b : IsBlocking a m) (n : IsAddress k) where
  -- With processes blocked on the semaphore it returns the first.
  pub head_blocked-cons : (p : ℕ) (ps : List ℕ) → m k ≡ p ∷ ps → head_blocked k a ≡ ok p a
  head_blocked-cons p ps q = by_place (place k b.entries n.1)
    where
      by_place : Place k b.entries → head_blocked k a ≡ ok p a
      by_place (held xs e ys s h lo) =
          let i : IsAsl a (xs ++ e ∷ ys) b.frees = rw s at b.list in
          let here : p ∷ ps ≡ e.queue = sym q ∙ holds k b n xs e ys s h lo in
          head_blocked-from k xs (e ∷ ys) i (ground arith) lo (ground (arith, h)) ∙ rw (← here) refl
      by_place (lacking xs ys s lo hi) = absurd (ground (arith, lacks k b n xs ys s lo hi, q))

  -- With none blocked there or on a semaphore with a larger address it returns NULL.
  pub head_blocked-none : ((l : ℕ) → k ≤ l → m l ≡ []) → head_blocked k a ≡ ok null a
  head_blocked-none above = by_place (place k b.entries n.1)
    where
      by_place : Place k b.entries → head_blocked k a ≡ ok null a
      by_place (held xs e ys s h lo) =
          let i : IsAsl a (xs ++ e ∷ ys) b.frees = rw s at b.list in
          let none : e.queue ≡ [] = sym (holds k b n xs e ys s h lo) ∙ above k (omega arith) in
          absurd ((All-append (λ e. e.queue ≢ []) xs (e ∷ ys) i.busy).1.0 none)
      by_place (lacking xs [] s lo hi) =
          let i : IsAsl a (xs ++ []) b.frees = rw s at b.list in
          head_blocked-from k xs [] i (ground arith) lo (Beyond-FromOn k [] hi)
      by_place (lacking xs (e ∷ ys) s lo hi) =
          let i : IsAsl a (xs ++ e ∷ ys) b.frees = rw s at b.list in
          let old : (j : ℕ) → queue_of (xs ++ e ∷ ys) j ≡ m j = rw s at b.queues in
          let none : e.queue ≡ [] =
            sym (key-queue xs e ys k lo hi) ∙ (old e.key ∙ above e.key (omega (arith, hi))) in
          absurd ((All-append (λ e. e.queue ≢ []) xs (e ∷ ys) i.busy).1.0 none)

  -- If nothing is blocked on the semaphore, but a process on one with a larger address, it is not
  -- NULL.
  pub head_blocked-other :
      (l q : ℕ) (qs : List ℕ)
      → m k ≡ []
      → k < l
      → m l ≡ q ∷ qs
      → (p : ℕ) × ((p == null) ≡ false) × (head_blocked k a ≡ ok p a)
  head_blocked-other l q qs none lt some = by_place (place k b.entries n.1)
    where
      by_place : Place k b.entries → (p : ℕ) × ((p == null) ≡ false) × (head_blocked k a ≡ ok p a)
      by_place (held xs e ys s h lo) =
          let i : IsAsl a (xs ++ e ∷ ys) b.frees = rw s at b.list in
          let old : (j : ℕ) → queue_of (xs ++ e ∷ ys) j ≡ m j = rw s at b.queues in
          let here : e.queue ≡ [] = sym (queue_of-held k xs e ys lo h) ∙ (old k ∙ none) in
          absurd ((All-append (λ e. e.queue ≢ []) xs (e ∷ ys) i.busy).1.0 here)
      by_place (lacking xs [] s lo hi) =
          let old : (j : ℕ) → queue_of (xs ++ []) j ≡ m j = rw s at b.queues in
          let here : m l ≡ [] =
            sym (old l) ∙ queue_of-Below l xs [] (Below-up k l xs (omega (arith, lt)) lo) in
          absurd (ground (arith, here, some))
      by_place (lacking xs (e ∷ ys) s lo hi) =
          let i : IsAsl a (xs ++ e ∷ ys) b.frees = rw s at b.list in
          let old : (j : ℕ) → queue_of (xs ++ e ∷ ys) j ≡ m j = rw s at b.queues in
          let at_key : m e.key ≡ e.queue = sym (old e.key) ∙ key-queue xs e ys k lo hi in
          let busy = (All-append (λ e. e.queue ≢ []) xs (e ∷ ys) i.busy).1.0 in
          (
            head_or_null e.queue,
            (not_null e.key e.queue at_key busy),
            head_blocked-from k xs (e ∷ ys) i (ground arith) lo (Beyond-FromOn k (e ∷ ys) hi),
          )
        where
          not_null : (j : ℕ) (ps : List ℕ) → m j ≡ ps → ps ≢ [] → (head_or_null ps == null) ≡ false
          not_null j [] e ne = absurd (ne refl)
          not_null j (p ∷ ps) e ne = IsPcb-ne_null p (blocked-IsPcb b j p (rw e (ground arith)))
