-- ===== src/Reduce.antt =====
-- The reduction of the rules' masks to one decision per row: `RuleReduce`, the rank tables and
-- the row loop of `evaluate_rules` in src/core/orchestrator.cpp, for one morsel of `m` rows from
-- row `r0`. The arithmetic of `double` is the parameter `Floats`.
pub mod Order
pub mod Rows
pub mod Winner
pub mod Morsel
pub mod Examples
use Prim.Native.Nat.{bit_and}
use blazerules.Prelude.{
  ℕ, zero, suc, ◌+◌, ◌-◌, ◌*◌, Bool, true, false, List, [], ◌∷◌, ◌==◌, leb, ◌&&◌, ◌||◌,
  if◌then◌else◌, Option, none, some, get_elem?, set, not, ℤ, pos, negsuc, gtb, eqb,
}
use blazerules.Bitmask.{Mask, ctz32}

-- What the code does with a `double`.
pub record Floats (F : Type 0) : Type 0 where
  pub zero : F
  pub of_nat : ℕ → F
  pub add : F → F → F
  pub greater : F → F → Bool
  pub equal : F → F → Bool

pub data ActionType : Type 0 where
  block review flag score approve : ActionType

pub data RuleSeverity : Type 0 where
  critical high medium low : RuleSeverity

unfoldable pub action_rank : ActionType → ℕ
action_rank block = 4
action_rank review = 3
action_rank flag = 2
action_rank score = 1
action_rank approve = 0

unfoldable pub severity_rank : RuleSeverity → ℕ
severity_rank critical = 3
severity_rank high = 2
severity_rank medium = 1
severity_rank low = 0

-- What the reduction reads of a compiled rule.
pub record Rule (F : Type 0) : Type 0 where
  pub action : ActionType
  pub rank : ℤ
  pub code : ℤ
  pub severity : RuleSeverity
  pub priority : ℤ
  pub weight : F
  pub score_cap : F
  pub shadow : Bool

pub record RuleReduce (F : Type 0) : Type 0 where
  pub action_rank : ℤ
  pub action_code : ℤ
  pub severity_rank : ℤ
  pub priority : ℤ
  pub contribution : F
  pub score_cap : F
  pub shadow : Bool

-- The entries of `scores`, `best_action`, `decision_codes`, `best_severity`, `best_priority` and
-- `winning_idx` for one row.
pub record RowState (F : Type 0) : Type 0 where
  pub score : F
  pub best_action : ℤ
  pub decision_code : ℤ
  pub best_severity : ℤ
  pub best_priority : ℤ
  pub winning_idx : Option ℕ

abbrev is_approve : ActionType → Bool
is_approve approve = true
is_approve _ = false

module _ {F : Type 0} (floats : Floats F) where
  unfoldable pub rule_reduce : Rule F → RuleReduce F
  unfolding action_rank severity_rank
  rule_reduce rule = record {
    action_rank = if gtb rule.rank (pos 0) then rule.rank else pos (action_rank rule.action);
    action_code = rule.code;
    severity_rank = pos (severity_rank rule.severity);
    priority = rule.priority;
    contribution =
        if floats.equal rule.weight floats.zero && not (is_approve rule.action)
        then floats.of_nat ((severity_rank rule.severity + 1) * 10)
        else rule.weight;
    score_cap = rule.score_cap;
    shadow = rule.shadow;
  }

  -- A row before the first rule; `2 ^ 31` is one below the magnitude of the least `int`.
  unfoldable pub initial_row : ℤ → ℤ → RowState F
  initial_row default_rank default_code = record {
    score = floats.zero;
    best_action = default_rank;
    decision_code = default_code;
    best_severity = negsuc 0;
    best_priority = negsuc 2147483647;
    winning_idx = none;
  }

  unfoldable pub add_score : RuleReduce F → F → F
  add_score rr s =
      let sum = floats.add s rr.contribution in
      if floats.greater rr.score_cap floats.zero && floats.greater sum rr.score_cap
      then rr.score_cap
      else sum

unfoldable pub wins : {F : Type 0} → RuleReduce F → RowState F → Bool
wins rr st =
    gtb rr.action_rank st.best_action
    || ((eqb rr.action_rank st.best_action && gtb rr.severity_rank st.best_severity)
        || (eqb rr.action_rank st.best_action
            && eqb rr.severity_rank st.best_severity
            && gtb rr.priority st.best_priority))

module _ {F : Type 0} (floats : Floats F) where
  -- One rule that matches a row.
  unfoldable pub update_row : ℕ → RuleReduce F → RowState F → RowState F
  unfolding add_score wins
  update_row r rr st =
      if wins rr st
      then record {
        score = add_score floats rr st.score;
        best_action = rr.action_rank;
        decision_code = rr.action_code;
        best_severity = rr.severity_rank;
        best_priority = rr.priority;
        winning_idx = some r;
      }
      else record st { score = add_score floats rr st.score }

  -- An access by index; `none` never happens for a row of the batch.
  abbrev pub modify : ℕ → (RowState F → RowState F) → List (RowState F) → List (RowState F)
  modify i f rows = elim (get_elem? rows i) [ none ↦ rows | some st ↦ set rows i (f st) ]

  -- `while (byte != 0)`, left at the first row that the morsel does not have. A byte has at most
  -- eight bits, which is the fuel.
  unfoldable pub reduce_byte :
      ℕ → ℕ → ℕ → ℕ → RuleReduce F → ℕ → ℕ → List (RowState F) → List (RowState F)
  unfolding update_row
  reduce_byte zero r0 m r rr base byte rows = rows
  reduce_byte (suc fuel) r0 m r rr base byte rows =
      let j = base + ctz32 byte in
      let next =
        reduce_byte fuel r0 m r rr base (bit_and byte (byte - 1))
          (modify (r0 + j) (update_row r rr) rows) in
      if byte == 0 then rows else if leb m j then rows else next

  -- The bytes of a rule's mask from byte `b` on.
  unfoldable pub reduce_bytes :
      ℕ → ℕ → ℕ → RuleReduce F → ℕ → Mask → List (RowState F) → List (RowState F)
  unfolding reduce_byte
  reduce_bytes r0 m r rr b [] rows = rows
  reduce_bytes r0 m r rr b (byte ∷ rest) rows =
      reduce_bytes r0 m r rr (b + 1) rest (reduce_byte 8 r0 m r rr (b * 8) byte rows)

  -- The rules from rule `r` on, each with its final mask.
  unfoldable pub reduce_rules :
      ℕ → ℕ → ℕ → List (RuleReduce F × Mask) → List (RowState F) → List (RowState F)
  unfolding reduce_bytes
  reduce_rules r0 m r [] rows = rows
  reduce_rules r0 m r ((rr, mask) ∷ rest) rows =
      reduce_rules r0 m (suc r) rest
        (if rr.shadow then rows else reduce_bytes r0 m r rr 0 mask rows)
