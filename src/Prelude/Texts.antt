-- ===== src/Prelude/Texts.antt =====
-- Texts as lists of character codes, and hash maps keyed by texts as association lists.
use Prim.Native.Nat.{ℕ}
use mathlib.Core.Path.{◌≡◌, refl, ap, ◌∙◌}
use mathlib.Core.Logic.{inl, inr}
use mathlib.Core.Bool.{Bool, true, false, ◌&&◌}
use mathlib.Core.List.{List, [], ◌∷◌, ◌++◌}
use mathlib.Core.Option.{Option, none, some}
use native.Mathlib.Omega.{arith}
use blazerules.Prelude.Tests.{◌==◌, if◌then◌else◌, Bool-cases}

abbrev pub Text : Type 0
Text = List ℕ

abbrev pub text_eq : Text → Text → Bool
text_eq [] [] = true
text_eq (c ∷ s) (d ∷ t) = c == d && text_eq s t
text_eq _ _ = false

pub text_eq_refl : (s : Text) → text_eq s s ≡ true
text_eq_refl [] = refl
text_eq_refl (c ∷ s) = ground (arith, text_eq_refl s)

pub text_eq→≡ : (s t : Text) → text_eq s t ≡ true → s ≡ t
text_eq→≡ [] [] h = refl
text_eq→≡ [] (d ∷ t) h = ground arith
text_eq→≡ (c ∷ s) [] h = ground arith
text_eq→≡ (c ∷ s) (d ∷ t) h =
    let head : c ≡ d = ground (arith, h) in
    let tail : s ≡ t = text_eq→≡ s t (ground (arith, h)) in
    ap (λ x. x ∷ s) head ∙ ap (λ x. d ∷ x) tail

module _ {ℓ} {V : Type ℓ} where
  abbrev pub find : Text → List (Text × V) → Option V
  find k [] = none
  find k ((j, v) ∷ m) = let rest = find k m in if text_eq j k then some v else rest

  -- `emplace`: a key that is there keeps its value.
  abbrev pub emplace : Text → V → List (Text × V) → List (Text × V)
  emplace k v m = elim (find k m) [ none ↦ m ++ (k, v) ∷ [] | some w ↦ m ]

  pub find-append_some :
      (k : Text) (m n : List (Text × V)) (v : V) → find k m ≡ some v → find k (m ++ n) ≡ some v
  find-append_some k [] n v h = ground arith
  find-append_some k ((j, w) ∷ m) n v h = elim (Bool-cases (text_eq j k)) [
    | inl t ↦ rw t (ground (arith, t, h))
    | inr f ↦ rw f (find-append_some k m n v (ground (arith, f, h)))
  ]

  pub find-append_none :
      (k : Text) (m n : List (Text × V)) → find k m ≡ none → find k (m ++ n) ≡ find k n
  find-append_none k [] n h = refl
  find-append_none k ((j, w) ∷ m) n h = elim (Bool-cases (text_eq j k)) [
    | inl t ↦ absurd (ground (arith, t, h))
    | inr f ↦ rw f (find-append_none k m n (ground (arith, f, h)))
  ]

  pub find-one : (k : Text) (v : V) → find k ((k, v) ∷ []) ≡ some v
  find-one k v = rw (text_eq_refl k) refl
