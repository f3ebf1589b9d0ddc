-- ===== src/Prelude/Rows.antt =====
-- Laws of `rows`, the ascending list of the places that satisfy a test.
use Prim.Native.Nat.{ℕ, zero, suc, ◌+◌, ◌≤◌, ◌<◌}
use mathlib.Core.Path.{◌≡◌, refl, ap}
use mathlib.Core.Logic.{inl, inr}
use mathlib.Core.Bool.{Bool, false}
use mathlib.Core.List.{[], ◌∷◌, ◌++◌}
use native.Mathlib.Omega.{arith}
use blazerules.Prelude.Tests.{Bool-cases}
use blazerules.Prelude.Lists.{rows}

rows_split :
    (base n m : ℕ) (e : ℕ) (p : ℕ → Bool)
    → e ≡ base + n
    → rows base (n + m) p ≡ rows base n p ++ rows e m p
rows_split base zero m e p h =
    let e₁ : e ≡ base = omega arith in let e₂ : zero + m ≡ m = omega arith in rw (e₁, e₂)
rows_split base (suc n) m e p h =
    let e₂ : suc n + m ≡ suc (n + m) = omega arith in
    let ih = rows_split (suc base) n m e p (omega arith) in
    rw e₂ (elim (Bool-cases (p base)) [ inl t ↦ rw t (ap (◌∷◌ base) ih) | inr f ↦ rw f ih ])

pub rows_ext :
    (base n : ℕ) (p q : ℕ → Bool)
    → ((i : ℕ) → base ≤ i → i < base + n → p i ≡ q i)
    → rows base n p ≡ rows base n q
rows_ext base zero p q h = refl
rows_ext base (suc n) p q h =
    let ih = rows_ext (suc base) n p q (λ i l u. h i (omega arith) (omega arith)) in
    let e = h base (omega arith) (omega arith) in
    elim (Bool-cases (q base)) [ inl t ↦ rw (e, t) (ap (◌∷◌ base) ih) | inr f ↦ rw (e, f) ih ]

pub rows_none :
    (base n : ℕ) (p : ℕ → Bool) → ((i : ℕ) → base ≤ i → p i ≡ false) → rows base n p ≡ []
rows_none base zero p h = refl
rows_none base (suc n) p h =
    rw (h base (omega arith)) (rows_none (suc base) n p (λ i l. h i (omega arith)))

pub rows_append :
    (base n m : ℕ) (p : ℕ → Bool) → rows base (n + m) p ≡ rows base n p ++ rows (base + n) m p
rows_append base n m p = rows_split base n m (base + n) p refl
