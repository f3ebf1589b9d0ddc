-- ===== src/Reduce/Winner.antt =====
-- Who wins a row: the rules that match it, in order, and the state after all of them.
use blazerules.Prelude.{
  ℕ, ◌≡◌, refl, sym, ◌∙◌, ◌⊎◌, inl, inr, true, false, List, [], ◌∷◌, ◌++◌, some, All, Bool-cases,
}
use blazerules.Reduce.{Floats, RuleReduce, RowState, wins, update_row}
use blazerules.Reduce.Order.{Key, beats, beats_trans, beats_weak}

-- What a rule is ranked by, and what a row has as the best so far.
abbrev pub rule_key : {F : Type 0} → RuleReduce F → Key
rule_key rr = record { rank = rr.action_rank; severity = rr.severity_rank; priority = rr.priority }

abbrev pub row_key : {F : Type 0} → RowState F → Key
row_key st = record {
  rank = st.best_action;
  severity = st.best_severity;
  priority = st.best_priority;
}

-- The rules that match a row, each with its index, in the order of the rule set.
abbrev pub Matches : Type 0 → Type 0
Matches F = List (ℕ × RuleReduce F)

-- Rule `r` is one of the matches; it beats every match before it, and none after it beats it.
pub data IsFirstBest {F : Type 0} : Matches F → ℕ → RuleReduce F → Type 0 where
  won :
      (before after : Matches F) {r : ℕ} {rr : RuleReduce F}
      → All (λ m. beats (rule_key rr) (rule_key m.1) ≡ true) before
      → All (λ m. beats (rule_key m.1) (rule_key rr) ≡ false) after
      → IsFirstBest (before ++ (r, rr) ∷ after) r rr

-- No match beats what the row began with, which it then keeps, or the first best match wins it.
abbrev pub Outcome : {F : Type 0} → Matches F → RowState F → RowState F → Type 0
Outcome {F} ms st final =
    ((final.winning_idx ≡ st.winning_idx)
      × (final.decision_code ≡ st.decision_code)
      × (row_key final ≡ row_key st)
      × All (λ m. beats (rule_key m.1) (row_key st) ≡ false) ms)
    ⊎ ((r : ℕ) × (rr : RuleReduce F) × (final.winning_idx ≡ some r)
        × (final.decision_code ≡ rr.action_code)
        × (row_key final ≡ rule_key rr)
        × (beats (rule_key rr) (row_key st) ≡ true)
        × IsFirstBest ms r rr)

abbrev pub update_rows : {F : Type 0} → Floats F → Matches F → RowState F → RowState F
update_rows floats [] st = st
update_rows floats ((r, rr) ∷ ms) st = update_rows floats ms (update_row floats r rr st)

module _ {F : Type 0} where
  wins-beats : (rr : RuleReduce F) (st : RowState F) → wins rr st ≡ beats (rule_key rr) (row_key st)
  unfolding wins beats
  wins-beats rr st = refl

  skip :
      (m : ℕ × RuleReduce F) (ms : Matches F) (r : ℕ) (rr : RuleReduce F)
      → beats (rule_key rr) (rule_key m.1) ≡ true
      → IsFirstBest ms r rr
      → IsFirstBest (m ∷ ms) r rr
  skip m ms r rr h (won before after ahead behind) = won (m ∷ before) after (h, ahead) behind

  update_win :
      (floats : Floats F) (r : ℕ) (rr : RuleReduce F) (st : RowState F)
      → wins rr st ≡ true
      → let st' = update_row floats r rr st in
        (st'.winning_idx ≡ some r)
        × (st'.decision_code ≡ rr.action_code)
        × (row_key st' ≡ rule_key rr)
  unfolding update_row
  update_win floats r rr st t = rw t (refl, refl, refl)

  update_keep :
      (floats : Floats F) (r : ℕ) (rr : RuleReduce F) (st : RowState F)
      → wins rr st ≡ false
      → let st' = update_row floats r rr st in
        (st'.winning_idx ≡ st.winning_idx)
        × (st'.decision_code ≡ st.decision_code)
        × (row_key st' ≡ row_key st)
  unfolding update_row
  update_keep floats r rr st f = rw f (refl, refl, refl)

  -- After all matches of a row, in order, the row has the decision of the first of the best.
  pub update_rows-Outcome :
      (floats : Floats F) (ms : Matches F) (st : RowState F)
      → Outcome ms st (update_rows floats ms st)
  update_rows-Outcome floats [] st = inl (refl, refl, refl, tt)
  update_rows-Outcome floats ((r, rr) ∷ ms) st =
      let later = update_rows-Outcome floats ms (update_row floats r rr st) in
      elim (Bool-cases (wins rr st)) [
        | inl t ↦
            let h : beats (rule_key rr) (row_key st) ≡ true = sym (wins-beats rr st) ∙ t in
            let (wi, wc, wk) = update_win floats r rr st t in
            elim later [
              | inl (i, c, k, rest) ↦
                  inr (r, rr, i ∙ wi, c ∙ wc, k ∙ wk, h, won [] ms tt (rw wk at rest))
              | inr (r', rr', i, c, k, b, first) ↦
                  let b' : beats (rule_key rr') (rule_key rr) ≡ true = rw wk at b in
                  inr (r', rr', i, c, k, beats_trans _ _ _ b' h, skip (r, rr) ms r' rr' b' first)
            ]
        | inr f ↦
            let h : beats (rule_key rr) (row_key st) ≡ false = sym (wins-beats rr st) ∙ f in
            let (wi, wc, wk) = update_keep floats r rr st f in
            elim later [
              | inl (i, c, k, rest) ↦ inl (i ∙ wi, c ∙ wc, k ∙ wk, (h, rw wk at rest))
              | inr (r', rr', i, c, k, b, first) ↦
                  let b' : beats (rule_key rr') (row_key st) ≡ true = rw wk at b in
                  inr (r', rr', i, c, k, b', skip (r, rr) ms r' rr' (beats_weak _ _ _ b' h) first)
            ]
      ]
