-- ===== src/Sql/Depth.antt =====
-- The guard of the depth: `NOT` in a row.
use blazerules.Prelude.{ℕ, zero, suc, ◌≤◌, ◌≡◌, refl, ◌∷◌, arith}
use blazerules.Sql.{Doubles, too_deep, err, upper, to_upper}
use blazerules.Sql.Parser.{
  is_keyword, not_body, or_body, parse_and, parse_chain, descend, parse_from, parse, max_depth,
}
use blazerules.Sql.Words.{render, at, advance-at, advance-start, bind_ok, bind_err}
use blazerules.Sql.Keys.{Keys, not_key}
use blazerules.Sql.Reads.{Words, Operand}

module _ {D : Type 0} (doubles : Doubles D) (keys : Keys doubles) where
  abbrev pub nots : ℕ → Words doubles → Words doubles
  nots zero ws = ws
  nots (suc n) ws = not_key keys ∷ nots n ws

  nots-descend :
      (left n : ℕ) (ws : Words doubles)
      → left ≤ n
      → (descend doubles left).0 (at doubles (nots n ws)) ≡ err too_deep
  unfolding descend not_body is_keyword upper to_upper
  nots-descend zero n ws h = refl
  nots-descend (suc left) zero ws h = absurd (omega arith)
  nots-descend (suc left) (suc n) ws h =
      bind_ok _ (advance-at doubles (not_key keys) (nots n ws))
        (bind_err _ (nots-descend left n ws (omega arith)))

  or_body-fails :
      (p : Operand doubles) (ws : Words doubles)
      → p (at doubles ws) ≡ err too_deep
      → or_body doubles p (at doubles ws) ≡ err too_deep
  unfolding or_body parse_and parse_chain
  or_body-fails p ws h = bind_err _ (bind_err _ h)

  nots-or :
      (left n : ℕ) (ws : Words doubles)
      → left ≤ suc n
      → (descend doubles left).1 (at doubles (nots n ws)) ≡ err too_deep
  unfolding descend
  nots-or zero n ws h = refl
  nots-or (suc left) n ws h =
      or_body-fails (descend doubles left).0 (nots n ws) (nots-descend left n ws (omega arith))

  parse_from-fails :
      (p : Operand doubles) (ws : Words doubles)
      → p (at doubles ws) ≡ err too_deep
      → parse_from doubles p (render doubles ws) ≡ err too_deep
  unfolding parse_from
  parse_from-fails p ws h = bind_err _ (bind_ok _ (advance-start doubles ws) h)

  -- A text that starts with `kMaxDepth - 1` or more `NOT`s fails with the error of the depth guard,
  -- whatever words follow.
  pub parse-nots :
      (n : ℕ) (ws : Words doubles)
      → max_depth ≤ suc n
      → parse doubles (render doubles (nots n ws)) ≡ err too_deep
  unfolding parse
  parse-nots n ws h =
      parse_from-fails (descend doubles max_depth).1 (nots n ws) (nots-or max_depth n ws h)
