-- ===== src/Asl/Access.antt =====
-- Reads and writes through a pointer to a descriptor, and calls of pcb.c.
use kaya_os.Base.{
  ℕ, ◌≡◌, refl, true, arith, Run, ok, exit, fault, out_of_fuel, Cmd, lift, Returns, returns,
}
use kaya_os.Pcb.{Pcbs}
use kaya_os.Asl.{Semd, Asl, is_semd, put, load, update, on_pcbs}

abbrev pub with : Asl → ℕ → (Semd → Semd) → Asl
with a s f = put a s (f (a.cell s))

abbrev pub with_pcbs : Asl → Pcbs → Asl
with_pcbs a t = record a { pcbs = t }

pub load-ok : (s : ℕ) (a : Asl) → is_semd s ≡ true → load s a ≡ ok (a.cell s) a
unfolding load
load-ok s a v = ground arith

pub update-ok :
    (s : ℕ) (f : Semd → Semd) (a : Asl) → is_semd s ≡ true → update s f a ≡ ok tt (with a s f)
unfolding update
update-ok s f a v = ground arith

-- What a function of pcb.c promises of the blocks, of the whole state.
pub on_pcbs-Returns :
    {A : Type 0} {P : A → Pcbs → Type 0} (m : Cmd Pcbs A) (a : Asl)
    → Returns P (m a.pcbs)
    → Returns (λ r g. (t : Pcbs) × (g ≡ with_pcbs a t) × P r t) (on_pcbs m a)
on_pcbs-Returns {P} m a done = go (m a.pcbs) done
  where
    go :
        (r : Run Pcbs _)
        → Returns P r
        → Returns
            (λ r g. (t : Pcbs) × (g ≡ with_pcbs a t) × P r t)
            (lift Asl.pcbs (λ t a. record a { pcbs = t }) (λ _. r) a)
    go (ok b t) (returns p) = returns (t, refl, p)
    go (exit e t) p = elim p [ ]
    go fault p = elim p [ ]
    go out_of_fuel p = elim p [ ]
