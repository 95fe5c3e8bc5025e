-- ===== src/Adl/Trip.antt =====
-- One process through the list of adl.c: insertDelay, headDelayTime, removeDelay.
use kaya_os.Base.{
  ℕ, ◌≡◌, refl, ap, ◌∙◌, true, false, arith, ◌==◌, if◌then◌else◌, Bool-cases, Bool, inl, inr, ok,
  pure, Returns, returns, Returns-bind, Returns-mono,
}
use kaya_os.Pcb.{null}
use kaya_os.Adl.{
  Delay, Adl, is_delay, put, load, update, free_delayd, head_delay_time, alloc_delayd, insert_delay,
  remove_delay,
}

abbrev with : Adl → ℕ → (Delay → Delay) → Adl
with a d f = put a d (f (a.cell d))

load-ok : (d : ℕ) (a : Adl) → is_delay d ≡ true → load d a ≡ ok (a.cell d) a
unfolding load
load-ok d a v = ground arith

update-ok :
    (d : ℕ) (f : Delay → Delay) (a : Adl) → is_delay d ≡ true → update d f a ≡ ok tt (with a d f)
unfolding update
update-ok d f a v = ground arith

-- the state after insertDelay of the first process, in the node `f`
abbrev pub only : Adl → (f wake id : ℕ) → Adl
only a f wake id =
    let b1 =
      with (record a { free = if (a.cell f).next == null then null else (a.cell f).next }) f
        (λ d. record d { next = null }) in
    let b2 = with b1 f (λ d. record d { wake_time = wake }) in
    let b3 = with b2 f (λ d. record d { asid = id }) in
    with (record b3 { active = f }) f (λ d. record d { next = null })

only-hit :
    (a : Adl) (f wake id : ℕ)
    → (only a f wake id).cell f ≡ record { next = null; wake_time = wake; asid = id }
unfolding put
only-hit a f wake id = ground arith

abbrev taken : Adl → ℕ → Adl
taken a f =
    with (record a { free = if (a.cell f).next == null then null else (a.cell f).next }) f
      (λ d. record d { next = null })

alloc_delayd-ok : (a : Adl) → is_delay a.free ≡ true → alloc_delayd a ≡ ok a.free (taken a a.free)
unfolding alloc_delayd
alloc_delayd-ok a v =
    let n : (a.free == null) ≡ false = ground arith in
    rw (n, load-ok a.free a v, update-ok a.free _ _ v)

active-with : (a : Adl) (d : ℕ) (f : Delay → Delay) → (with a d f).active ≡ a.active
unfolding put
active-with a d f = refl

insert_delay-only :
    (a : Adl) (wake id : ℕ)
    → is_delay a.free ≡ true
    → (a.active == null) ≡ true
    → insert_delay wake id a ≡ ok true (only a a.free wake id)
unfolding insert_delay
insert_delay-only a wake id v e =
    let f = a.free in
    let n : (f == null) ≡ false = ground arith in
    let b2 = with (taken a f) f (λ d. record d { wake_time = wake }) in
    let b3 = with b2 f (λ d. record d { asid = id }) in
    let none : (b3.active == null) ≡ true =
      rw
        (
          active-with b2 f (λ d. record d { asid = id }),
          active-with (taken a f) f (λ d. record d { wake_time = wake }),
          active-with
              (record a { free = if (a.cell f).next == null then null else (a.cell f).next }) f
              (λ d. record d { next = null }),
        )
        e in
    rw (alloc_delayd-ok a v, n, update-ok f _ (taken a f) v, update-ok f _ b2 v, none)
      (rw (update-ok f _ (record b3 { active = f }) v) refl)

only-active : (a : Adl) (f wake id : ℕ) → (only a f wake id).active ≡ f
unfolding put
only-active a f wake id = refl

head_delay_time-active :
    (g : Adl) (f : ℕ)
    → is_delay f ≡ true
    → g.active ≡ f
    → head_delay_time g ≡ ok (g.cell f).wake_time g
unfolding head_delay_time load
head_delay_time-active g f v e = ground arith

free_delayd-active :
    (f : ℕ) (b : Adl) → is_delay f ≡ true → Returns (λ _ g. g.active ≡ b.active) (free_delayd f b)
unfolding free_delayd
free_delayd-active f b v = elim (Bool-cases (b.free == null)) [
  | inl h ↦ rw h (returns refl)
  | inr h ↦ rw (h, update-ok f _ b v) (returns (active-with b f (λ d. record d { next = b.free })))
]

remove_delay-active :
    (g : Adl)
    → is_delay g.active ≡ true
    → Returns
        (λ r g'. (r ≡ (g.cell g.active).asid) × (g'.active ≡ (g.cell g.active).next))
        (remove_delay g)
unfolding remove_delay
remove_delay-active g v =
    let f = g.active in
    let n : (f == null) ≡ false = ground arith in
    let b = record g { active = (g.cell f).next } in
    rw (n, load-ok f g v, update-ok f _ b v)
      (Returns-bind {k = λ _. pure (g.cell f).asid}
        (free_delayd-active f (with b f (λ d. record d { next = null })) v)
        λ _ h same. returns (refl, same ∙ active-with b f (λ d. record d { next = null })))

-- What insertDelay promises on an empty list.
pub record Delayed (wake id : ℕ) (r : Bool) (g : Adl) : Type 0 where
  pub result : r ≡ true
  pub time : head_delay_time g ≡ ok wake g
  pub back : Returns (λ x g'. (x ≡ id) × (g'.active ≡ null)) (remove_delay g)

-- With a free node and no delayed process, insertDelay returns TRUE, headDelayTime then gives the
-- wake-up time, and removeDelay gives the process back and leaves no delayed process.
pub insert_delay-remove_delay :
    (a : Adl) (wake id : ℕ)
    → is_delay a.free ≡ true
    → (a.active == null) ≡ true
    → Returns (Delayed wake id) (insert_delay wake id a)
insert_delay-remove_delay a wake id v e =
    let g = only a a.free wake id in
    let hit = only-hit a a.free wake id in
    let act = only-active a a.free wake id in
    let cell : g.cell g.active ≡ record { next = null; wake_time = wake; asid = id } =
      ap g.cell act ∙ hit in
    rw (insert_delay-only a wake id v e) (
      returns (record {
        result = refl;
        time = head_delay_time-active g a.free v act ∙ ap (λ d. ok (Delay.wake_time d) g) hit;
        back =
            Returns-mono (remove_delay-active g (rw act v))
              λ x g' (r, n). (r ∙ ap Delay.asid cell, n ∙ ap Delay.next cell);
      }))
