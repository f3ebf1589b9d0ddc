-- ===== src/Spec.antt =====
-- What a condition of include/blazerules/rule_spec.h has beside its kind and its operator, for the
-- kinds that compare one field. A number is of any type.
use blazerules.Prelude.{List, Text}

-- A field that a kind of condition does not have is zero or empty.
pub record Operands (D : Type 0) : Type 0 where
  pub field : Text
  pub threshold : D
  pub lower : D
  pub upper : D
  pub values : List Text
