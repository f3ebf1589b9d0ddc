-- ===== src/Window/Sums.antt =====
-- Sums over the buckets of a counter, for arithmetic without rounding.
use blazerules.Prelude.{
  ℕ, ◌≡◌, refl, sym, ap, ◌∙◌, inl, inr, Bool, true, false, not, [], ◌∷◌, ◌++◌, ◌==◌, ◌&&◌,
  if◌then◌else◌, some, arith, Bool-cases, if_both, option_both,
}
use blazerules.Window.{
  WindowFn, Amounts, Buckets, EntityCounter, is_additive_fn, find, adjust, combine_fn, add_extra,
  add_bucket,
}

-- The laws of addition that hold where nothing is rounded.
pub record IsExact {A : Type 0} (amounts : Amounts A) : Type 0 where
  pub add_zero : (a : A) → amounts.add a amounts.zero ≡ a
  pub add_comm : (a b : A) → amounts.add a b ≡ amounts.add b a
  pub add_assoc : (a b c : A) → amounts.add (amounts.add a b) c ≡ amounts.add a (amounts.add b c)
  pub sub-add : (a b : A) → amounts.sub (amounts.add a b) b ≡ a

module _ {A : Type 0} (amounts : Amounts A) where
  -- An amount that counts if its second satisfies a test.
  abbrev pub part : Bool → A → A
  part b v = if b then v else amounts.zero

  abbrev pub sum_of : (ℕ → Bool) → Buckets A → A
  sum_of p [] = amounts.zero
  sum_of p ((s, v) ∷ rest) = amounts.add (part (p s) v) (sum_of p rest)

  abbrev pub bucket_sum : (ℕ → Bool) → EntityCounter A → A
  bucket_sum p ec =
      amounts.add (part (ec.has_inline_bucket && p ec.inline_bucket_second) ec.inline_bucket_value)
        (sum_of p ec.extra_buckets)

  module _ (exact : IsExact amounts) where
    abbrev add : A → A → A
    add = amounts.add

    pub zero-add : (a : A) → add amounts.zero a ≡ a
    zero-add a = exact.add_comm amounts.zero a ∙ exact.add_zero a

    pub add_swap : (a b c : A) → add (add a b) c ≡ add (add a c) b
    add_swap a b c =
        exact.add_assoc a b c ∙ ap (add a) (exact.add_comm b c) ∙ sym (exact.add_assoc a c b)

    part-add : (b : Bool) (v d : A) → part b (add v d) ≡ add (part b v) (part b d)
    part-add true v d = refl
    part-add false v d = sym (exact.add_zero amounts.zero)

    pub sum_of-append :
        (p : ℕ → Bool) (xs ys : Buckets A) → sum_of p (xs ++ ys) ≡ add (sum_of p xs) (sum_of p ys)
    sum_of-append p [] ys = sym (zero-add (sum_of p ys))
    sum_of-append p ((s, v) ∷ xs) ys =
        ap (add (part (p s) v)) (sum_of-append p xs ys)
        ∙ sym (exact.add_assoc (part (p s) v) (sum_of p xs) (sum_of p ys))

    sum_of-adjust :
        (p : ℕ → Bool) (xs : Buckets A) (second : ℕ) (old d : A)
        → find xs second ≡ some old
        → sum_of p (adjust xs second (λ v. add v d)) ≡ add (sum_of p xs) (part (p second) d)
    unfolding find adjust
    sum_of-adjust p [] second old d h = absurd (ground arith)
    sum_of-adjust p ((s, v) ∷ xs) second old d h = elim (Bool-cases (s == second)) [
      | inl here ↦
          let e : s ≡ second = ground arith in
          rw here (
            ap (λ a. add a (sum_of p xs)) (part-add (p s) v d)
            ∙ add_swap (part (p s) v) (part (p s) d) (sum_of p xs)
            ∙ ap (λ (k : ℕ). add (add (part (p s) v) (sum_of p xs)) (part (p k) d)) e)
      | inr there ↦ rw there (
          ap (add (part (p s) v)) (sum_of-adjust p xs second old d (ground (arith, h)))
          ∙ sym (exact.add_assoc (part (p s) v) (sum_of p xs) (part (p second) d)))
    ]

    combine_fn-add :
        (fn : WindowFn) (acc v : A)
        → is_additive_fn fn ≡ true
        → combine_fn amounts fn acc v ≡ add acc v
    unfolding combine_fn is_additive_fn
    combine_fn-add WindowFn.count acc v h = refl
    combine_fn-add WindowFn.sum acc v h = refl
    combine_fn-add WindowFn.avg acc v h = refl
    combine_fn-add WindowFn.ratio acc v h = refl
    combine_fn-add WindowFn.least acc v h = absurd (ground arith)
    combine_fn-add WindowFn.greatest acc v h = absurd (ground arith)

    -- An amount that is added to its bucket is added to the sums that its second counts in.
    pub bucket_sum-add_bucket :
        (p : ℕ → Bool) (ec : EntityCounter A) (second : ℕ) (d c : A) (fn : WindowFn)
        → is_additive_fn fn ≡ true
        → bucket_sum p (add_bucket amounts ec second d c fn)
          ≡ add (bucket_sum p ec) (part (p second) d)
    unfolding add_bucket add_extra
    bucket_sum-add_bucket p ec second d c fn h =
        let goal : EntityCounter A → Type 0 =
          λ r. bucket_sum p r ≡ add (bucket_sum p ec) (part (p second) d) in
        let inline =
          part (ec.has_inline_bucket && p ec.inline_bucket_second) ec.inline_bucket_value in
        if_both goal (not ec.has_inline_bucket) _ _
          (λ none_yet.
            let f : ec.has_inline_bucket ≡ false = ground arith in
            let empty : inline ≡ amounts.zero = rw f refl in
            exact.add_comm (part (p second) d) (sum_of p ec.extra_buckets)
            ∙ ap (λ a. add a (part (p second) d))
                (sym (zero-add (sum_of p ec.extra_buckets))
                  ∙ ap (λ a. add a (sum_of p ec.extra_buckets)) (sym empty)))
          λ one.
            if_both goal (ec.inline_bucket_second == second) _ _
              (λ same.
                let e : ec.inline_bucket_second ≡ second = ground arith in
                let t : ec.has_inline_bucket ≡ true = ground arith in
                let counts = ec.has_inline_bucket && p ec.inline_bucket_second in
                let same_part : part counts d ≡ part (p second) d = rw (t, e) refl in
                ap (λ a. add a (sum_of p ec.extra_buckets))
                  (ap (part counts) (combine_fn-add fn ec.inline_bucket_value d h)
                    ∙ part-add counts ec.inline_bucket_value d)
                ∙ add_swap inline (part counts d) (sum_of p ec.extra_buckets)
                ∙ ap (add (add inline (sum_of p ec.extra_buckets))) same_part)
              λ other.
                option_both goal (find ec.extra_buckets second) _ _
                  (λ e.
                    ap (add inline) (
                      sum_of-append p ec.extra_buckets ((second, d) ∷ [])
                      ∙ ap (add (sum_of p ec.extra_buckets)) (exact.add_zero (part (p second) d)))
                    ∙ sym (exact.add_assoc inline (sum_of p ec.extra_buckets) (part (p second) d)))
                  λ old e.
                    ap (add inline) (
                      ap (λ f. sum_of p (adjust ec.extra_buckets second f))
                        (λ i v. combine_fn-add fn v d h i)
                      ∙ sum_of-adjust p ec.extra_buckets second old d e)
                    ∙ sym (exact.add_assoc inline (sum_of p ec.extra_buckets) (part (p second) d))
