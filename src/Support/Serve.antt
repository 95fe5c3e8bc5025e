-- ===== src/Support/Serve.antt =====
-- page_in keeps the invariant of the swap pool and the page tables.
use kaya_os.Base.{
  ℕ, ◌<◌, ◌≡◌, refl, ap, ◌∙◌, true, false, ◌==◌, ==-refl, ==-sound, Bool-cases, inl, inr, arith,
}
use Prim.Native.Nat.{bit_and}
use kaya_os.Base.Word.{minus_one}
use kaya_os.Support.{swap_size, PtePtr, no_entry, seg3_entry, user_entry, is_user}
use kaya_os.Support.Pager.{swap_address}
use kaya_os.Support.Pool.{
  Pool, same_ptr, IsEntry, lo_of, put_lo, lo-hit, lo-miss, put_lo-frame, put_lo-ramtop, is_used,
  is_valid, mapped, IsPool, IsAbsent,
}
use kaya_os.Support.Evict.{
  entry_for, evicted, evicted-frame, evicted-other, evicted-ramtop, evicted-same, framed,
  lo_of-framed, placed, same_ptr_sound, same_ptr_swapped, serve, turn,
}

-- A page comes into the frame `i` of a sound pool.
module _ (p : Pool) (i address id seg page : ℕ) (q : PtePtr) where
  abbrev after : Pool
  after = placed (evicted p i) i address id seg page q

  frame-at : after.frame i ≡ record { asid = id; page = page; seg = seg; pte = q }
  frame-at =
      ap (λ f. f i) (put_lo-frame (framed (evicted p i) i id seg page q) q (λ lo. mapped q address))
      ∙ rw (==-refl i) refl

  frame-other : (j : ℕ) → (j == i) ≡ false → after.frame j ≡ p.frame j
  frame-other j ne =
      ap (λ f. f j) (put_lo-frame (framed (evicted p i) i id seg page q) q (λ lo. mapped q address))
      ∙ rw ne (ap (λ f. f j) (evicted-frame p i))

  after-ramtop : after.ramtop ≡ p.ramtop
  after-ramtop =
      put_lo-ramtop (framed (evicted p i) i id seg page q) q (λ lo. mapped q address)
      ∙ evicted-ramtop p i

  pub placed-hit : IsEntry q → lo_of after q ≡ mapped q address
  placed-hit v = lo-hit (framed (evicted p i) i id seg page q) q (λ lo. mapped q address) v

  after-evicted : (r : PtePtr) → same_ptr r q ≡ false → lo_of after r ≡ lo_of (evicted p i) r
  after-evicted r ne =
      lo-miss (framed (evicted p i) i id seg page q) q r (λ lo. mapped q address) ne
      ∙ lo_of-framed (evicted p i) i id seg page q r

  lo-other :
      (r : PtePtr)
      → same_ptr r q ≡ false
      → (is_used (p.frame i) ≡ true → same_ptr r (p.frame i).pte ≡ false)
      → lo_of after r ≡ lo_of p r
  lo-other r ne old = after-evicted r ne ∙ evicted-other p i r old

  -- the pool is sound, and the page of `q` is in no frame
  module _ (sound : IsPool p) (lt : i < swap_size) (v : IsEntry q) (absent : IsAbsent p q) where
    -- a frame that is in use after and is not the frame `i` was in use before
    before :
        (j : ℕ) → (j == i) ≡ false → is_used (after.frame j) ≡ true → is_used (p.frame j) ≡ true
    before j ne u = rw (frame-other j ne) at u

    placed-entries :
        (j : ℕ) → j < swap_size → is_used (after.frame j) ≡ true → IsEntry (after.frame j).pte
    placed-entries j lj u = elim (Bool-cases (j == i)) [
      | inl h ↦ rw (==-sound j i h, frame-at) v
      | inr h ↦ rw (frame-other j h) (sound.entries j lj (before j h u))
    ]

    placed-maps :
        (address ≡ swap_address p.ramtop i)
        → (j : ℕ) → j < swap_size
        → is_used (after.frame j) ≡ true
        → lo_of after (after.frame j).pte ≡ mapped (after.frame j).pte (swap_address after.ramtop j)
    placed-maps ea j lj u = elim (Bool-cases (j == i)) [
      | inl h ↦ rw (==-sound j i h, frame-at, after-ramtop, ← ea) (placed-hit v)
      | inr h ↦
          let uj = before j h u in
          rw (frame-other j h, after-ramtop)
            (lo-other (p.frame j).pte (absent j lj uj) (λ ui. sound.apart j i lj lt h uj ui)
              ∙ sound.maps j lj uj)
    ]

    placed-apart :
        (j k : ℕ)
        → j < swap_size
        → k < swap_size
        → (j == k) ≡ false
        → is_used (after.frame j) ≡ true
        → is_used (after.frame k) ≡ true
        → same_ptr (after.frame j).pte (after.frame k).pte ≡ false
    placed-apart j k lj lk ne uj uk = elim (Bool-cases (j == i)) [
      | inl hj ↦
          let nk : (k == i) ≡ false = ground arith in
          rw (==-sound j i hj, frame-at, frame-other k nk)
            (same_ptr_swapped (p.frame k).pte q (absent k lk (before k nk uk)))
      | inr hj ↦ elim (Bool-cases (k == i)) [
        | inl hk ↦ rw (==-sound k i hk, frame-at, frame-other j hj) (absent j lj (before j hj uj))
        | inr hk ↦
            rw (frame-other j hj, frame-other k hk)
              (sound.apart j k lj lk ne (before j hj uj) (before k hk uk))
      ]
    ]

    -- the frame in use that backs a valid entry
    abbrev Backs : Pool → PtePtr → Type 0
    Backs p' r =
        (j : ℕ) × (j < swap_size)
        × (is_used (p'.frame j) ≡ true)
        × (same_ptr r (p'.frame j).pte ≡ true)

    kept-backed :
        (r : PtePtr)
        → IsEntry r
        → same_ptr r q ≡ false
        → (is_used (p.frame i) ≡ true → same_ptr r (p.frame i).pte ≡ false)
        → is_valid (lo_of after r) ≡ true
        → Backs after r
    kept-backed r vr ne old valid =
        let (j, lj, uj, same) = sound.backed r vr (rw (lo-other r ne old) at valid) in
        let nj : (j == i) ≡ false = elim (Bool-cases (j == i)) [
          | inl h ↦
              let at_i : j ≡ i = ==-sound j i h in
              absurd (ground (arith, old (rw at_i at uj), (rw at_i at same)))
          | inr h ↦ h
        ] in
        (j, lj, rw (frame-other j nj) uj, rw (frame-other j nj) same)

    placed-backed :
        (id == minus_one) ≡ false
        → (r : PtePtr) → IsEntry r
        → is_valid (lo_of after r) ≡ true
        → Backs after r
    placed-backed user r vr valid = elim (Bool-cases (same_ptr r q)) [
      | inl h ↦ (i, lt, rw (frame-at, user) refl, rw frame-at h)
      | inr h ↦
          kept-backed r vr h
            (λ u. elim (Bool-cases (same_ptr r (p.frame i).pte)) [
              | inl same ↦
                  let gone : lo_of after r ≡ 0 =
                    after-evicted r h
                    ∙ rw (same_ptr_sound r (p.frame i).pte same)
                        (evicted-same p i (sound.entries i lt u) u) in
                  absurd (ground (arith, (rw gone at valid)))
              | inr other ↦ other
            ])
            valid
    ]

    pub placed-IsPool : address ≡ swap_address p.ramtop i → (id == minus_one) ≡ false → IsPool after
    placed-IsPool ea user = record {
      entries = placed-entries;
      maps = placed-maps ea;
      apart = placed-apart;
      backed = placed-backed user;
    }

lo_of-next : (p : Pool) (n : ℕ) (q : PtePtr) → lo_of (record p { next = n }) q ≡ lo_of p q
lo_of-next p n no_entry = refl
lo_of-next p n (seg3_entry i) = refl
lo_of-next p n (user_entry id i) = refl

next-IsPool : (p : Pool) (n : ℕ) → IsPool p → IsPool (record p { next = n })
next-IsPool p n sound = record {
  entries = λ i. sound.entries i;
  maps = λ i lt u. lo_of-next p n (p.frame i).pte ∙ sound.maps i lt u;
  apart = λ i j. sound.apart i j;
  backed = λ q v valid. sound.backed q v (rw (lo_of-next p n q) at valid);
}

-- What serving a missing page promises.
pub record Served (p : Pool) (id seg page : ℕ) (p' : Pool) : Type 0 where
  pub sound : IsPool p'
  pub turns : p'.next ≡ turn p
  pub holds :
      p'.frame (turn p) ≡ record { asid = id; page = page; seg = seg; pte = entry_for id seg page }
  pub others : (j : ℕ) → (j == turn p) ≡ false → p'.frame j ≡ p.frame j
  pub mapped_to :
      lo_of p' (entry_for id seg page)
      ≡ mapped (entry_for id seg page) (swap_address p.ramtop (turn p))

put_lo-next : (p : Pool) (q : PtePtr) (f : ℕ → ℕ) → (put_lo p q f).next ≡ p.next
unfolding put_lo
put_lo-next p no_entry f = refl
put_lo-next p (seg3_entry i) f = refl
put_lo-next p (user_entry id i) f = refl

evicted-next : (p : Pool) (i : ℕ) → (evicted p i).next ≡ p.next
evicted-next p i = elim (Bool-cases (is_used (p.frame i))) [
  | inl h ↦ rw h (put_lo-next p (p.frame i).pte (λ lo. bit_and lo 0))
  | inr h ↦ rw h refl
]

pub entry_for-IsEntry :
    (id seg page : ℕ) → is_user id ≡ true → page < 32 → IsEntry (entry_for id seg page)
entry_for-IsEntry id seg page u lt = elim (Bool-cases (seg == 3)) [
  | inl h ↦ rw h lt
  | inr h ↦ rw h (u, lt)
]

pub serve-Served :
    (p : Pool) (id seg page : ℕ)
    → IsPool p
    → is_user id ≡ true
    → page < 32
    → IsAbsent p (entry_for id seg page)
    → Served p id seg page (serve p id seg page)
serve-Served p id seg page sound u lt absent =
    let q = entry_for id seg page in
    let i = turn p in
    let a = swap_address p.ramtop i in
    let start = record p { next = i } in
    let v = entry_for-IsEntry id seg page u lt in
    record {
      sound =
          placed-IsPool start i a id seg page q (next-IsPool p i sound) (omega arith) v absent refl
            (ground (arith, u));
      turns =
          put_lo-next (framed (evicted start i) i id seg page q) q (λ lo. mapped q a)
          ∙ evicted-next start i;
      holds = frame-at start i a id seg page q;
      others = λ j ne. frame-other start i a id seg page q j ne;
      mapped_to = placed-hit start i a id seg page q v;
    }
