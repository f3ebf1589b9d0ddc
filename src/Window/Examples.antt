-- ===== src/Window/Examples.antt =====
-- A counter of whole amounts over ten seconds.
use blazerules.Prelude.{ℕ, ◌+◌, ◌-◌, ◌/◌, ◌≡◌, refl, true, List, [], ◌∷◌, ltb, arith}
use blazerules.Window.{WindowFn, Amounts, advance_and_zero, fresh_counter, is_additive_fn}
use blazerules.Window.Sums.{IsExact, sum_of}
use blazerules.Window.Slide.{alive}
use blazerules.Window.Log.{Event, recorded, run, running_total-sum_of}

abbrev whole : Amounts ℕ
whole = record {
  zero = 0;
  add = λ a b. a + b;
  sub = λ a b. a - b;
  div = λ a b. a / b;
  less = λ a b. ltb a b;
}

whole-IsExact : IsExact whole
whole-IsExact = record {
  add_zero = λ a. omega arith;
  add_comm = λ a b. omega arith;
  add_assoc = λ a b c. omega arith;
  sub-add = λ a b. omega arith;
}

abbrev later : List (Event ℕ)
later = (103, 7, 1) ∷ (109, 2, 1) ∷ (112, 4, 1) ∷ []

running_total-sum_of_example :
    (advance_and_zero whole
      (run whole WindowFn.sum 10 ((100, 5, 1) ∷ later) (fresh_counter whole))
      114
      10
      true).running_total
    ≡ sum_of whole (alive 114 10) ((100, 5) ∷ recorded later)
running_total-sum_of_example =
    running_total-sum_of whole whole-IsExact WindowFn.sum 10 114 100 5 1 later
      (unfold is_additive_fn in refl) (omega arith) (omega arith, (omega arith, (omega arith, tt)))
      (omega arith)
