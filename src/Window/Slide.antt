-- ===== src/Window/Slide.antt =====
-- What `advance_and_zero` drops leaves the running total as it leaves the buckets.
use mathlib.Core.List.{append-nil, append_assoc}
use blazerules.Prelude.{
  ℕ, ◌≡◌, refl, sym, ap, ◌∙◌, inl, inr, Bool, true, false, not, [], ◌∷◌, ◌++◌, ◌&&◌, if◌then◌else◌,
  arith, Bool-cases, if_both,
}
use blazerules.Window.{
  Amounts, Buckets, EntityCounter, expired, drop_inline, drop_extra, drop_extras, slide,
}
use blazerules.Window.Sums.{IsExact, part, sum_of, bucket_sum, add_swap, zero-add}

-- The buckets that have not expired.
abbrev pub alive : ℕ → ℕ → ℕ → Bool
alive now duration second = not (expired now duration second)

abbrev pub survivors : {A : Type 0} → ℕ → ℕ → Buckets A → Buckets A
survivors now duration [] = []
survivors now duration ((s, v) ∷ rest) =
    let later = survivors now duration rest in
    if expired now duration s then later else (s, v) ∷ later

module _ {A : Type 0} (amounts : Amounts A) (exact : IsExact amounts) where
  abbrev add : A → A → A
  add = amounts.add

  abbrev all : ℕ → Bool
  all second = true

  sum_of-survivors :
      (now duration : ℕ) (p : ℕ → Bool) (xs : Buckets A)
      → sum_of amounts p (survivors now duration xs)
        ≡ sum_of amounts (λ s. p s && alive now duration s) xs
  sum_of-survivors now duration p [] = refl
  sum_of-survivors now duration p ((s, v) ∷ xs) =
      let ih = sum_of-survivors now duration p xs in
      let later = survivors now duration xs in
      let right = sum_of amounts (λ s. p s && alive now duration s) xs in
      let head : Bool → A = λ b. add (part amounts b v) right in
      let counted : Bool → A = λ b. head (p s && not b) in
      let listed : Bool → A = λ b. sum_of amounts p (if b then later else (s, v) ∷ later) in
      elim (Bool-cases (expired now duration s)) [
        | inl t ↦
            let gone : (p s && not true) ≡ false = ground arith in
            ap listed t
            ∙ ih
            ∙ sym (zero-add amounts exact right)
            ∙ ap head (sym gone)
            ∙ ap counted (sym t)
        | inr f ↦
            let kept : (p s && not false) ≡ p s = ground arith in
            ap listed f
            ∙ ap (add (part amounts (p s) v)) ih
            ∙ ap head (sym kept)
            ∙ ap counted (sym f)
      ]

  take_out : (y v s : A) → amounts.sub (add y (add v s)) v ≡ add y s
  take_out y v s =
      ap (λ a. amounts.sub a v) (sym (exact.add_assoc y v s) ∙ add_swap amounts exact y v s)
      ∙ exact.sub-add (add y s) v

  -- The loop leaves the fields of the inline bucket alone and keeps the survivors.
  abbrev Kept : Buckets A → EntityCounter A → EntityCounter A → Type 0
  Kept xs ec ec' =
      (ec'.extra_buckets ≡ xs)
      × (ec'.has_inline_bucket ≡ ec.has_inline_bucket)
      × (ec'.inline_bucket_second ≡ ec.inline_bucket_second)
      × (ec'.inline_bucket_value ≡ ec.inline_bucket_value)
      × (ec'.initialized ≡ ec.initialized)

  module _ (now duration : ℕ) (kept : Buckets A) (s : ℕ) (v : A) (rest : Buckets A)
      (ec : EntityCounter A) where
    next : Bool → EntityCounter A
    next gone =
        drop_extras amounts now duration true (if gone then kept else kept ++ (s, v) ∷ []) rest
          (if gone then drop_extra amounts s v true ec else ec)

    drop_gone :
        expired now duration s ≡ true
        → drop_extras amounts now duration true kept ((s, v) ∷ rest) ec
          ≡ drop_extras amounts now duration true kept rest (drop_extra amounts s v true ec)
    unfolding drop_extras next
    drop_gone t = ap next t

    drop_kept :
        expired now duration s ≡ false
        → drop_extras amounts now duration true kept ((s, v) ∷ rest) ec
          ≡ drop_extras amounts now duration true (kept ++ (s, v) ∷ []) rest ec
    unfolding drop_extras next
    drop_kept f = ap next f

  drop_extras-Kept :
      (now duration : ℕ) (kept rest : Buckets A) (ec : EntityCounter A)
      → Kept
          (kept ++ survivors now duration rest)
          ec
          (drop_extras amounts now duration true kept rest ec)
  unfolding drop_extras drop_extra
  drop_extras-Kept now duration kept [] ec = (sym (append-nil kept), refl, refl, refl, refl)
  drop_extras-Kept now duration kept ((s, v) ∷ rest) ec =
      elim (Bool-cases (expired now duration s)) [
        | inl t ↦
            rw (drop_gone now duration kept s v rest ec t, t)
              (drop_extras-Kept now duration kept rest (drop_extra amounts s v true ec))
        | inr f ↦
            let (extra, has, second, value, init) =
              drop_extras-Kept now duration (kept ++ (s, v) ∷ []) rest ec in
            rw (drop_kept now duration kept s v rest ec f, f)
              (
                extra ∙ append_assoc kept ((s, v) ∷ []) (survivors now duration rest),
                has,
                second,
                value,
                init,
              )
      ]

  drop_extras-total :
      (now duration : ℕ) (kept rest : Buckets A) (ec : EntityCounter A) (y : A)
      → ec.running_total ≡ add y (sum_of amounts all rest)
      → (drop_extras amounts now duration true kept rest ec).running_total
        ≡ add y (sum_of amounts all (survivors now duration rest))
  unfolding drop_extras drop_extra
  drop_extras-total now duration kept [] ec y h = h
  drop_extras-total now duration kept ((s, v) ∷ rest) ec y h =
      elim (Bool-cases (expired now duration s)) [
        | inl t ↦
            rw (drop_gone now duration kept s v rest ec t, t)
              (drop_extras-total now duration kept rest (drop_extra amounts s v true ec) y
                (ap (λ a. amounts.sub a v) h ∙ take_out y v (sum_of amounts all rest)))
        | inr f ↦
            rw (drop_kept now duration kept s v rest ec f, f)
              (drop_extras-total now duration (kept ++ (s, v) ∷ []) rest ec (add y v)
                  (h ∙ sym (exact.add_assoc y v (sum_of amounts all rest)))
                ∙ exact.add_assoc y v (sum_of amounts all (survivors now duration rest)))
      ]

  abbrev inline_part : (ℕ → Bool) → EntityCounter A → A
  inline_part p ec =
      part amounts (ec.has_inline_bucket && p ec.inline_bucket_second) ec.inline_bucket_value

  drop_inline-part :
      (now duration : ℕ) (p : ℕ → Bool) (ec : EntityCounter A)
      → inline_part p (drop_inline amounts now duration true ec)
        ≡ inline_part (λ s. p s && alive now duration s) ec
  unfolding drop_inline
  drop_inline-part now duration p ec =
      if_both (λ r. inline_part p r ≡ inline_part (λ s. p s && alive now duration s) ec)
        (ec.has_inline_bucket && expired now duration ec.inline_bucket_second) _ _
        (λ t.
          let gone : (ec.has_inline_bucket
                && (p ec.inline_bucket_second
                    && not (expired now duration ec.inline_bucket_second)))
              ≡ false =
            ground (arith, t) in
          sym (ap (λ b. part amounts b ec.inline_bucket_value) gone))
        λ f.
          let same : (ec.has_inline_bucket
                && (p ec.inline_bucket_second
                    && not (expired now duration ec.inline_bucket_second)))
              ≡ (ec.has_inline_bucket && p ec.inline_bucket_second) =
            ground (arith, f) in
          sym (ap (λ b. part amounts b ec.inline_bucket_value) same)

  drop_inline-extra :
      (now duration : ℕ) (ec : EntityCounter A)
      → (drop_inline amounts now duration true ec).extra_buckets ≡ ec.extra_buckets
  unfolding drop_inline
  drop_inline-extra now duration ec =
      if_both (λ (r : EntityCounter A). r.extra_buckets ≡ ec.extra_buckets)
        (ec.has_inline_bucket && expired now duration ec.inline_bucket_second) _ _ (λ t. refl)
        λ f. refl

  drop_inline-total :
      (now duration : ℕ) (ec : EntityCounter A)
      → ec.running_total ≡ bucket_sum amounts all ec
      → (drop_inline amounts now duration true ec).running_total
        ≡ bucket_sum amounts all (drop_inline amounts now duration true ec)
  unfolding drop_inline
  drop_inline-total now duration ec h =
      if_both (λ r. r.running_total ≡ bucket_sum amounts all r)
        (ec.has_inline_bucket && expired now duration ec.inline_bucket_second) _ _
        (λ t.
          let there : (ec.has_inline_bucket && true) ≡ true = ground (arith, t) in
          ap (λ a. amounts.sub a ec.inline_bucket_value)
            (h
              ∙ ap
                  (λ b.
                    add (part amounts b ec.inline_bucket_value)
                      (sum_of amounts all ec.extra_buckets))
                  there
              ∙ exact.add_comm ec.inline_bucket_value (sum_of amounts all ec.extra_buckets))
          ∙ exact.sub-add (sum_of amounts all ec.extra_buckets) ec.inline_bucket_value
          ∙ sym (zero-add amounts exact (sum_of amounts all ec.extra_buckets)))
        λ f. h

  slide-fields :
      (now duration : ℕ) (p : ℕ → Bool) (ec : EntityCounter A)
      → bucket_sum amounts p (slide amounts now duration true ec)
        ≡ add
            (inline_part p (drop_inline amounts now duration true ec))
            (sum_of amounts p (survivors now duration ec.extra_buckets))
  unfolding slide
  slide-fields now duration p ec =
      let ec₁ = drop_inline amounts now duration true ec in
      let (extra, has, second, value, init) =
        drop_extras-Kept now duration [] ec₁.extra_buckets ec₁ in
      rw (extra, has, second, value, drop_inline-extra now duration ec) refl

  -- The buckets after the slide are those that have not expired.
  pub slide-bucket_sum :
      (now duration : ℕ) (p : ℕ → Bool) (ec : EntityCounter A)
      → bucket_sum amounts p (slide amounts now duration true ec)
        ≡ bucket_sum amounts (λ s. p s && alive now duration s) ec
  slide-bucket_sum now duration p ec =
      slide-fields now duration p ec
      ∙ ap (λ a. add a (sum_of amounts p (survivors now duration ec.extra_buckets)))
          (drop_inline-part now duration p ec)
      ∙ ap (add (inline_part (λ s. p s && alive now duration s) ec))
          (sum_of-survivors now duration p ec.extra_buckets)

  -- If the total was that of the buckets, it still is.
  pub slide-total :
      (now duration : ℕ) (ec : EntityCounter A)
      → ec.running_total ≡ bucket_sum amounts all ec
      → (slide amounts now duration true ec).running_total
        ≡ bucket_sum amounts all (slide amounts now duration true ec)
  unfolding slide
  slide-total now duration ec h =
      let ec₁ = drop_inline amounts now duration true ec in
      drop_extras-total now duration [] ec₁.extra_buckets ec₁ (inline_part all ec₁)
        (drop_inline-total now duration ec h)
      ∙ ap (λ xs. add (inline_part all ec₁) (sum_of amounts all (survivors now duration xs)))
          (drop_inline-extra now duration ec)
      ∙ sym (slide-fields now duration all ec)

  pub slide-initialized :
      (now duration : ℕ) (ec : EntityCounter A)
      → (slide amounts now duration true ec).initialized ≡ ec.initialized
  unfolding slide drop_inline
  slide-initialized now duration ec =
      let ec₁ = drop_inline amounts now duration true ec in
      let (extra, has, second, value, init) =
        drop_extras-Kept now duration [] ec₁.extra_buckets ec₁ in
      init
      ∙ if_both (λ (r : EntityCounter A). r.initialized ≡ ec.initialized)
          (ec.has_inline_bucket && expired now duration ec.inline_bucket_second) _ _ (λ t. refl)
          λ f. refl
