-- ===== src/Window/Log.antt =====
-- The running total of a counter is the sum of the recorded amounts that are inside the window.
use mathlib.Core.List.{append-nil, append_assoc}
use blazerules.Prelude.{
  ℕ, ◌≤◌, ◌<◌, ◌≡◌, refl, sym, ap, ◌∙◌, Bool, true, not, List, [], ◌∷◌, ◌++◌, ◌==◌, if◌then◌else◌,
  All, arith, if_both, option_both,
}
use blazerules.Window.{
  WindowFn, Amounts, Buckets, EntityCounter, is_additive_fn, find, expired, add_bucket, add_extra,
  restart, advance_and_zero, fresh_counter, update_counter,
}
use blazerules.Window.Sums.{IsExact, part, sum_of, bucket_sum, sum_of-append, bucket_sum-add_bucket}
use blazerules.Window.Tracks.{Tracks, all, All-later, restart-Tracks, advance_and_zero-Tracks}
use blazerules.Window.Slide.{alive}

-- A batch touches the entity at a second, with an amount and a count.
abbrev pub Event : Type 0 → Type 0
Event A = ℕ × A × A

abbrev pub recorded : {A : Type 0} → List (Event A) → Buckets A
recorded [] = []
recorded ((t, d, c) ∷ es) = (t, d) ∷ recorded es

-- The seconds do not go back.
abbrev pub Chronological : {A : Type 0} → ℕ → List (Event A) → Type 0
Chronological last [] = Unit {0}
Chronological last ((t, d, c) ∷ es) = (last ≤ t) × Chronological t es

-- The second of the last event, or the one that the counter had.
abbrev pub latest : {A : Type 0} → ℕ → List (Event A) → ℕ
latest last [] = last
latest last ((t, d, c) ∷ es) = latest t es

module _ {A : Type 0} (amounts : Amounts A) where
  abbrev pub run : WindowFn → ℕ → List (Event A) → EntityCounter A → EntityCounter A
  run fn duration [] ec = ec
  run fn duration ((t, d, c) ∷ es) ec =
      run fn duration es (update_counter amounts fn duration t d c ec)

  module _ (exact : IsExact amounts) where
    update-total :
        (fn : WindowFn) (now : ℕ) (d c : A) (ec : EntityCounter A)
        → (add_bucket amounts ec now d c fn).running_total ≡ ec.running_total
    unfolding add_bucket add_extra
    update-total fn now d c ec =
        let goal : EntityCounter A → Type 0 = λ r. r.running_total ≡ ec.running_total in
        if_both goal (not ec.has_inline_bucket) _ _ (λ n. refl)
          λ y.
            if_both goal (ec.inline_bucket_second == now) _ _ (λ s. refl)
              λ o. option_both goal (find ec.extra_buckets now) _ _ (λ e. refl) λ a e. refl

    update-last :
        (fn : WindowFn) (now : ℕ) (d c : A) (ec : EntityCounter A)
        → (add_bucket amounts ec now d c fn).last_write_second ≡ ec.last_write_second
    unfolding add_bucket add_extra
    update-last fn now d c ec =
        let goal : EntityCounter A → Type 0 = λ r. r.last_write_second ≡ ec.last_write_second in
        if_both goal (not ec.has_inline_bucket) _ _ (λ n. refl)
          λ y.
            if_both goal (ec.inline_bucket_second == now) _ _ (λ s. refl)
              λ o. option_both goal (find ec.extra_buckets now) _ _ (λ e. refl) λ a e. refl

    update-initialized :
        (fn : WindowFn) (now : ℕ) (d c : A) (ec : EntityCounter A)
        → (add_bucket amounts ec now d c fn).initialized ≡ ec.initialized
    unfolding add_bucket add_extra
    update-initialized fn now d c ec =
        let goal : EntityCounter A → Type 0 = λ r. r.initialized ≡ ec.initialized in
        if_both goal (not ec.has_inline_bucket) _ _ (λ n. refl)
          λ y.
            if_both goal (ec.inline_bucket_second == now) _ _ (λ s. refl)
              λ o. option_both goal (find ec.extra_buckets now) _ _ (λ e. refl) λ a e. refl

    All-snoc :
        (log : Buckets A) (last t : ℕ) (d : A)
        → t ≤ last
        → All (λ (e : ℕ × A). e.0 ≤ last) log
        → All (λ (e : ℕ × A). e.0 ≤ last) (log ++ (t, d) ∷ [])
    All-snoc [] last t d h k = (h, tt)
    All-snoc (e ∷ log) last t d h k = (k.0, All-snoc log last t d h k.1)

    -- The amount of an event joins a counter that stands at the event's second.
    abbrev credit : WindowFn → ℕ → A → A → EntityCounter A → EntityCounter A
    credit fn now d c ec =
        let ec₁ = add_bucket amounts ec now d c fn in
        record ec₁ {
          running_total = amounts.add ec₁.running_total d;
          running_count = amounts.add ec₁.running_count c;
        }

    credit-Tracks :
        (fn : WindowFn) (duration now : ℕ) (d c : A) (log : Buckets A) (ec : EntityCounter A)
        → is_additive_fn fn ≡ true
        → 0 < duration
        → ec.last_write_second ≡ now
        → Tracks amounts duration log ec
        → Tracks amounts duration (log ++ (now, d) ∷ []) (credit fn now d c ec)
    credit-Tracks fn duration now d c log ec hf hd e t =
        let ec₁ = add_bucket amounts ec now d c fn in
        let summed : (p : ℕ → Bool)
            → bucket_sum amounts p ec₁
              ≡ amounts.add (bucket_sum amounts p ec) (part amounts (p now) d) =
          λ p. bucket_sum-add_bucket amounts exact p ec now d c fn hf in
        let last = update-last fn now d c ec in
        let here : alive ec.last_write_second duration now ≡ true =
          unfold expired in ground arith in
        record {
          running = update-initialized fn now d c ec ∙ t.running;
          total =
              ap (λ a. amounts.add a d) (update-total fn now d c ec ∙ t.total)
              ∙ sym (summed (all amounts));
          current =
              summed (all amounts)
              ∙ ap (λ a. amounts.add a d) t.current
              ∙ ap
                  (λ b.
                    amounts.add (bucket_sum amounts (alive ec.last_write_second duration) ec)
                      (part amounts b d))
                  (sym here)
              ∙ sym (summed (alive ec.last_write_second duration))
              ∙ ap (λ (k : ℕ). bucket_sum amounts (alive k duration) ec₁) (sym last);
          sums = λ now' l.
              summed (alive now' duration)
              ∙ ap (λ a. amounts.add a (part amounts (alive now' duration now) d))
                  (t.sums now' (omega (arith, last, l)))
              ∙ sym (
                  sum_of-append amounts exact (alive now' duration) log ((now, d) ∷ [])
                  ∙ ap (amounts.add (sum_of amounts (alive now' duration) log))
                      (exact.add_zero (part amounts (alive now' duration now) d)));
          bound = All-snoc log ec₁.last_write_second now d (omega (arith, last, e)) (
              All-later amounts log ec.last_write_second ec₁.last_write_second (omega (arith, last))
                t.bound);
        }

    update-credit :
        (fn : WindowFn) (duration now : ℕ) (d c : A) (ec : EntityCounter A)
        → is_additive_fn fn ≡ true
        → update_counter amounts fn duration now d c ec
          ≡ credit fn now d c (advance_and_zero amounts ec now duration true)
    unfolding update_counter
    update-credit fn duration now d c ec h =
        let step : Bool → EntityCounter A = λ b.
          let ec₁ = add_bucket amounts (advance_and_zero amounts ec now duration b) now d c fn in
          if b
          then record ec₁ {
            running_total = amounts.add ec₁.running_total d;
            running_count = amounts.add ec₁.running_count c;
          }
          else ec₁ in
        ap step h

    run-Tracks :
        (fn : WindowFn) (duration : ℕ) (es : List (Event A)) (log : Buckets A)
        (ec : EntityCounter A)
        → is_additive_fn fn ≡ true
        → 0 < duration
        → Chronological ec.last_write_second es
        → Tracks amounts duration log ec
        → Tracks amounts duration (log ++ recorded es) (run fn duration es ec)
          × ((run fn duration es ec).last_write_second ≡ latest ec.last_write_second es)
    run-Tracks fn duration [] log ec hf hd h t = (rw (append-nil log) t, refl)
    run-Tracks fn duration ((now, d, c) ∷ es) log ec hf hd h t =
        let (advanced, at_now) = advance_and_zero-Tracks amounts exact now duration log ec h.0 t in
        let ec₁ = credit fn now d c (advance_and_zero amounts ec now duration true) in
        let credited = credit-Tracks fn duration now d c log _ hf hd at_now advanced in
        let last : ec₁.last_write_second ≡ now =
          update-last fn now d c (advance_and_zero amounts ec now duration true) ∙ at_now in
        let (tracks, end) =
          run-Tracks fn duration es (log ++ (now, d) ∷ []) ec₁ hf hd (rw last h.1) credited in
        let same = update-credit fn duration now d c ec hf in
        (
          rw (same, sym (append_assoc log ((now, d) ∷ []) (recorded es))) tracks,
          ap (λ r. (run fn duration es r).last_write_second) same
              ∙ end
              ∙ ap (λ (k : ℕ). latest k es) last,
        )

    -- The first event of an entity.
    first-Tracks :
        (fn : WindowFn) (duration now : ℕ) (d c : A)
        → is_additive_fn fn ≡ true
        → 0 < duration
        → Tracks amounts duration
            ((now, d) ∷ [])
            (update_counter amounts fn duration now d c (fresh_counter amounts))
          × ((update_counter amounts fn duration now d c (fresh_counter amounts)).last_write_second
              ≡ now)
    unfolding advance_and_zero fresh_counter
    first-Tracks fn duration now d c hf hd =
        let ec = restart amounts now duration (fresh_counter amounts) in
        let started =
          restart-Tracks amounts exact now duration [] (fresh_counter amounts) (λ now' l. refl)
            tt in
        let at_now : ec.last_write_second ≡ now = unfold restart in refl in
        rw (update-credit fn duration now d c (fresh_counter amounts) hf) (
          credit-Tracks fn duration now d c [] ec hf hd at_now started,
          update-last fn now d c ec ∙ at_now,
        )

    -- With arithmetic that rounds nothing, a positive duration and a function that is not MIN or
    -- MAX: after one or more updates of a fresh counter, in chronological order, the running total
    -- that a query finds at the second of the last update or later is the sum of exactly the
    -- amounts recorded after `now - duration`.
    pub running_total-sum_of :
        (fn : WindowFn) (duration now t : ℕ) (d c : A) (es : List (Event A))
        → is_additive_fn fn ≡ true
        → 0 < duration
        → Chronological t es
        → latest t es ≤ now
        → (advance_and_zero amounts
            (run fn duration ((t, d, c) ∷ es) (fresh_counter amounts))
            now
            duration
            true).running_total
          ≡ sum_of amounts (alive now duration) ((t, d) ∷ recorded es)
    running_total-sum_of fn duration now t d c es hf hd h l =
        let (first, at_t) = first-Tracks fn duration t d c hf hd in
        let (tracks, end) =
          run-Tracks fn duration es ((t, d) ∷ [])
            (update_counter amounts fn duration t d c (fresh_counter amounts)) hf hd (rw at_t h)
            first in
        let last = end ∙ ap (λ (k : ℕ). latest k es) at_t in
        let final_ec : EntityCounter A =
          advance_and_zero amounts (run fn duration ((t, d, c) ∷ es) (fresh_counter amounts)) now
            duration true in
        let (final, at_now) =
          advance_and_zero-Tracks amounts exact now duration ((t, d) ∷ recorded es)
            (run fn duration ((t, d, c) ∷ es) (fresh_counter amounts)) (omega (arith, last))
            tracks in
        final.total
        ∙ final.current
        ∙ ap (λ (k : ℕ). bucket_sum amounts (alive k duration) final_ec) at_now
        ∙ final.sums now (omega (arith, at_now))
