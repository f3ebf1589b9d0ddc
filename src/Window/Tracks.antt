-- ===== src/Window/Tracks.antt =====
-- What the buckets of a counter know of the amounts that were recorded, and how the clock moves it.
use blazerules.Prelude.{
  ℕ, ◌+◌, ◌≤◌, ◌≡◌, refl, sym, ap, ◌∙◌, Bool, true, false, not, [], ◌∷◌, leb, All, arith, if_both,
}
use blazerules.Window.{
  Amounts, Buckets, EntityCounter, expired, restart, slide, advance_and_zero, clear_buckets,
}
use blazerules.Window.Sums.{IsExact, part, sum_of, bucket_sum, zero-add}
use blazerules.Window.Slide.{alive, slide-bucket_sum, slide-total, slide-initialized}

module _ {A : Type 0} (amounts : Amounts A) where
  abbrev pub all : ℕ → Bool
  all second = true

  -- What a counter knows of what was recorded.
  pub record Tracks (duration : ℕ) (log : Buckets A) (ec : EntityCounter A) : Type 0 where
    pub running : ec.initialized ≡ true
    pub total : ec.running_total ≡ bucket_sum amounts all ec
    pub current :
        bucket_sum amounts all ec ≡ bucket_sum amounts (alive ec.last_write_second duration) ec
    pub sums :
        (now : ℕ)
        → ec.last_write_second ≤ now
        → bucket_sum amounts (alive now duration) ec ≡ sum_of amounts (alive now duration) log
    pub bound : All (λ e. e.0 ≤ ec.last_write_second) log

  pub bucket_sum-ext :
      (p q : ℕ → Bool) (ec : EntityCounter A)
      → ((s : ℕ) → p s ≡ q s)
      → bucket_sum amounts p ec ≡ bucket_sum amounts q ec
  bucket_sum-ext p q ec h = ap (λ f. bucket_sum amounts f ec) (λ i s. h s i)

  pub All-later :
      (log : Buckets A) (a b : ℕ)
      → a ≤ b
      → All (λ (e : ℕ × A). e.0 ≤ a) log
      → All (λ (e : ℕ × A). e.0 ≤ b) log
  All-later [] a b h k = tt
  All-later (e ∷ log) a b h k = let k' = k.0 in (omega arith, All-later log a b h k.1)

  module _ (exact : IsExact amounts) where
    pub none_alive :
        (now duration last : ℕ) (log : Buckets A)
        → last + duration ≤ now
        → All (λ e. e.0 ≤ last) log
        → sum_of amounts (alive now duration) log ≡ amounts.zero
    unfolding expired
    none_alive now duration last [] h k = refl
    none_alive now duration last ((s, v) ∷ log) h k =
        let k' : s ≤ last = k.0 in
        let gone : not (leb (s + duration) now) ≡ false = ground arith in
        ap (λ b. amounts.add (part amounts b v) (sum_of amounts (alive now duration) log)) gone
        ∙ zero-add amounts exact _
        ∙ none_alive now duration last log h k.1

    pub restart-Tracks :
        (now duration : ℕ) (log : Buckets A) (ec : EntityCounter A)
        → ((now' : ℕ) → now ≤ now' → sum_of amounts (alive now' duration) log ≡ amounts.zero)
        → All (λ e. e.0 ≤ now) log
        → Tracks duration log (restart amounts now duration ec)
    unfolding restart clear_buckets
    restart-Tracks now duration log ec h k = record {
      running = refl;
      total = sym (exact.add_zero amounts.zero);
      current = refl;
      sums = λ now' l. exact.add_zero amounts.zero ∙ sym (h now' l);
      bound = k;
    }

    pub slide-Tracks :
        (now duration : ℕ) (log : Buckets A) (ec : EntityCounter A)
        → ec.last_write_second ≤ now
        → Tracks duration log ec
        → Tracks duration log (slide amounts now duration true ec)
    unfolding slide expired
    slide-Tracks now duration log ec h t =
        let after = slide-bucket_sum amounts exact now duration in
        record {
          running = slide-initialized amounts exact now duration ec ∙ t.running;
          total = slide-total amounts exact now duration ec t.total;
          current =
              after all ec
              ∙ sym (after (alive now duration) ec ∙ bucket_sum-ext _ _ ec (λ s. ground arith));
          sums = λ now' l.
              after (alive now' duration) ec
              ∙ bucket_sum-ext _ (alive now' duration) ec (λ s. ground arith)
              ∙ t.sums now' (omega arith);
          bound = All-later log ec.last_write_second now h t.bound;
        }

    pub advance_and_zero-Tracks :
        (now duration : ℕ) (log : Buckets A) (ec : EntityCounter A)
        → ec.last_write_second ≤ now
        → Tracks duration log ec
        → Tracks duration log (advance_and_zero amounts ec now duration true)
          × ((advance_and_zero amounts ec now duration true).last_write_second ≡ now)
    unfolding advance_and_zero
    advance_and_zero-Tracks now duration log ec h t =
        let goal : EntityCounter A → Type 0 =
          λ r. Tracks duration log r × (r.last_write_second ≡ now) in
        if_both goal (not ec.initialized) _ _ (λ n. absurd (ground (arith, t.running)))
          λ i.
            if_both goal (leb now ec.last_write_second) _ _ (λ same. (t, ground arith))
              λ later.
                if_both goal (leb (ec.last_write_second + duration) now) _ _
                  (λ over. (
                    restart-Tracks now duration log ec
                        (λ now' l.
                          none_alive now' duration ec.last_write_second log (ground arith) t.bound)
                        (All-later log ec.last_write_second now h t.bound),
                    unfold restart in refl,
                  ))
                  λ inside. (slide-Tracks now duration log ec h t, unfold slide in refl)
