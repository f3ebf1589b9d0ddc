-- ===== src/Sql/RoundTrip.antt =====
-- The texts of queries parse back.
use blazerules.Prelude.{ℕ, zero, suc, ◌≤◌, ◌≡◌, refl, ◌∙◌, [], ◌∷◌, arith}
use blazerules.Spec.{Operands}
use blazerules.Compile.{Condition, conjunction, disjunction, negation}
use blazerules.Sql.{Doubles, ok, upper, to_upper}
use blazerules.Sql.Parser.{
  is_keyword, parse_comparison, parse_and, or_body, descend, parse_from, parse, max_depth, word_or,
  word_and,
}
use blazerules.Sql.Words.{render, at, advance-start, bind_ok}
use blazerules.Sql.Keys.{
  Keys, Field, field_word, literal_word, number_word, quoted_word, comparator_word, is_key,
  null_key, in_key, between_key, like_key, or_key, and_key, not_key, open_word, close_word,
}
use blazerules.Sql.Print.{
  Query, null_test, member, between, like, compare, same_text, all_of, any_of, none_of, Queries,
  one, more, print, print_more, more_values, negated, equality, condition, depth, depth_more,
}
use blazerules.Sql.Leaves.{
  null_test-parses, between-parses, like-parses, compare-parses, same_text-parses,
}
use blazerules.Sql.Members.{member-parses}
use blazerules.Sql.Reads.{
  Words, Operand, Stops, ReadsAt, field-not_body, group-not_body, not-not_body, chain-one,
}
use blazerules.Sql.Chains.{Groups, AllGroups, chain-Groups}

module _ {D : Type 0} (doubles : Doubles D) (keys : Keys doubles) where
  abbrev parse_or : ℕ → Operand doubles
  parse_or d = (descend doubles d).1

  abbrev parse_not : ℕ → Operand doubles
  parse_not d = (descend doubles d).0

  -- What neither loop takes.
  abbrev Final : Words doubles → Type 0
  Final k = Stops doubles word_and k × Stops doubles word_or k

  -- Where both loops stop at once.
  single-reads :
      (d : ℕ) (c : Condition (Operands D)) (ws k : Words doubles)
      → ReadsAt doubles (parse_not d) ws c k
      → Final k
      → ReadsAt doubles (parse_or (suc d)) ws c k
  unfolding descend or_body parse_and
  single-reads d c ws k h (no_and, no_or) =
      chain-one doubles keys word_or disjunction (parse_and doubles (parse_not d)) c ws k
        (chain-one doubles keys word_and conjunction (parse_not d) c ws k h no_and) no_or

  comparison-reads :
      (d : ℕ) (f : Field doubles) (c : Condition (Operands D)) (ws k : Words doubles)
      → parse_comparison doubles (at doubles (field_word doubles f ∷ ws)) ≡ ok (c, at doubles k)
      → Final k
      → ReadsAt doubles (parse_or (suc (suc d))) (field_word doubles f ∷ ws) c k
  unfolding descend
  comparison-reads d f c ws k h final =
      single-reads (suc d) c (field_word doubles f ∷ ws) k
        (field-not_body doubles keys (parse_not d) (parse_or d) f ws ∙ h) final

  -- A parser of expressions reads a query.
  abbrev Reads : ℕ → Query doubles → Type 0
  Reads d q =
      (k : Words doubles)
      → Final k
      → ReadsAt doubles (parse_or d) (print doubles keys q k) (condition doubles q) k

  group-Reads :
      (d : ℕ) (q : Query doubles)
      → Reads d q
      → (Fine : Words doubles → Type 0) → Groups doubles keys (parse_not (suc d)) Fine q
  unfolding descend is_keyword
  group-Reads d q h Fine k fine =
      group-not_body doubles keys (parse_not d) (parse_or d) (condition doubles q)
        (print doubles keys q (close_word keys ∷ k)) k (h (close_word keys ∷ k) (refl, refl))

  abbrev group : Query doubles → Words doubles → Words doubles
  group q k = open_word keys ∷ print doubles keys q (close_word keys ∷ k)

  all_of-Reads :
      (d : ℕ) (p : Query doubles) (qs : Queries doubles)
      → Reads d p
      → AllGroups doubles keys (parse_not (suc d)) (λ _. Unit) qs
      → Reads (suc (suc d)) (all_of p qs)
  unfolding descend or_body parse_and print condition is_keyword upper to_upper
  all_of-Reads d p qs h hs k (no_and, no_or) =
      chain-one doubles keys word_or disjunction (parse_and doubles (parse_not (suc d)))
        (condition doubles (all_of p qs))
        (open_word keys
          ∷ print doubles keys p (close_word keys ∷ print_more doubles keys (and_key keys) qs k))
        k
        (chain-Groups doubles keys word_and (and_key keys) (parse_not (suc d)) (λ _. Unit)
          (λ ws. refl) (λ ws. tt) conjunction p qs k (group-Reads d p h (λ _. Unit)) hs tt no_and)
        no_or

  group-single :
      (d : ℕ) (q : Query doubles)
      → Reads d q
      → Groups doubles keys (parse_and doubles (parse_not (suc d))) (Stops doubles word_and) q
  unfolding parse_and
  group-single d q h k no_and =
      chain-one doubles keys word_and conjunction (parse_not (suc d)) (condition doubles q)
        (group q k) k (group-Reads d q h (λ _. Unit) k tt) no_and

  any_of-Reads :
      (d : ℕ) (p : Query doubles) (qs : Queries doubles)
      → Reads d p
      → AllGroups doubles keys (parse_and doubles (parse_not (suc d))) (Stops doubles word_and) qs
      → Reads (suc (suc d)) (any_of p qs)
  unfolding descend or_body print condition is_keyword upper to_upper
  any_of-Reads d p qs h hs k (no_and, no_or) =
      chain-Groups doubles keys word_or (or_key keys) (parse_and doubles (parse_not (suc d)))
        (Stops doubles word_and) (λ ws. refl) (λ ws. refl) disjunction p qs k (group-single d p h)
        hs no_and no_or

  none_of-Reads : (d : ℕ) (q : Query doubles) → Reads d q → Reads (suc (suc (suc d))) (none_of q)
  unfolding descend print condition
  none_of-Reads d q h k final =
      single-reads (suc (suc d)) (negation (condition doubles q)) (not_key keys ∷ group q k) k
        (not-not_body doubles keys (parse_not (suc d)) (parse_or (suc d)) (condition doubles q)
          (group q k) k (group-Reads d q h (λ _. Unit) k tt))
        final

  depth_lem : (q : Query doubles) → 2 ≤ depth doubles q
  unfolding depth
  depth_lem (null_test f neg) = omega arith
  depth_lem (member f neg v vs) = omega arith
  depth_lem (between f lo hi) = omega arith
  depth_lem (like f q) = omega arith
  depth_lem (compare f o n) = omega arith
  depth_lem (same_text f same q) = omega arith
  depth_lem (all_of p qs) = omega arith
  depth_lem (any_of p qs) = omega arith
  depth_lem (none_of q) = omega arith

  mutual
    unfolding depth print condition

    query-Reads : (q : Query doubles) (d : ℕ) → depth doubles q ≤ d → Reads d q
    query-Reads q zero h k final = (let two = depth_lem q in absurd (omega arith))
    query-Reads q (suc zero) h k final = (let two = depth_lem q in absurd (omega arith))
    query-Reads (null_test f neg) (suc (suc d)) h k final =
        comparison-reads d f _
          (is_key keys ∷ negated doubles keys neg (not_key keys) (null_key keys ∷ k)) k
          (null_test-parses doubles keys f neg k) final
    query-Reads (member f neg v vs) (suc (suc d)) h k final =
        comparison-reads d f _
          (negated doubles keys neg (not_key keys)
            (in_key keys ∷ open_word keys ∷ literal_word doubles v ∷ more_values doubles keys vs k))
          k (member-parses doubles keys f neg v vs k) final
    query-Reads (between f lo hi) (suc (suc d)) h k final =
        comparison-reads d f _
          (between_key keys ∷ number_word doubles lo ∷ and_key keys ∷ number_word doubles hi ∷ k) k
          (between-parses doubles keys f lo hi k) final
    query-Reads (like f q) (suc (suc d)) h k final =
        comparison-reads d f _ (like_key keys ∷ quoted_word doubles q ∷ k) k
          (like-parses doubles keys f q k) final
    query-Reads (compare f o n) (suc (suc d)) h k final =
        comparison-reads d f _ (comparator_word doubles o ∷ number_word doubles n ∷ k) k
          (compare-parses doubles keys f o n k) final
    query-Reads (same_text f same q) (suc (suc d)) h k final =
        comparison-reads d f _ (comparator_word doubles (equality same) ∷ quoted_word doubles q ∷ k)
          k (same_text-parses doubles keys f same q k) final
    query-Reads (all_of p qs) (suc (suc d)) h k final =
        all_of-Reads d p qs (query-Reads p d (omega arith)) (nots-read qs d (omega arith)) k final
    query-Reads (any_of p qs) (suc (suc d)) h k final =
        any_of-Reads d p qs (query-Reads p d (omega arith)) (ands-read qs d (omega arith)) k final
    query-Reads (none_of q) (suc (suc zero)) h k final = absurd (omega arith)
    query-Reads (none_of q) (suc (suc (suc d))) h k final =
        none_of-Reads d q (query-Reads q d (omega arith)) k final

    nots-read :
        (qs : Queries doubles) (d : ℕ)
        → depth_more doubles qs ≤ d
        → AllGroups doubles keys (parse_not (suc d)) (λ _. Unit) qs
    nots-read (one q) d h = group-Reads d q (query-Reads q d h) (λ _. Unit)
    nots-read (more q qs) d h =
        (group-Reads d q (query-Reads q d (omega arith)) (λ _. Unit), nots-read qs d (omega arith))

    ands-read :
        (qs : Queries doubles) (d : ℕ)
        → depth_more doubles qs ≤ d
        → AllGroups doubles keys (parse_and doubles (parse_not (suc d))) (Stops doubles word_and) qs
    ands-read (one q) d h = group-single d q (query-Reads q d h)
    ands-read (more q qs) d h =
        (group-single d q (query-Reads q d (omega arith)), ands-read qs d (omega arith))

  parse_from-reads :
      (p : Operand doubles) (c : Condition (Operands D)) (ws : Words doubles)
      → ReadsAt doubles p ws c []
      → parse_from doubles p (render doubles ws) ≡ ok c
  unfolding parse_from
  parse_from-reads p c ws h = bind_ok _ (bind_ok _ (advance-start doubles ws) h) refl

  pub parse-print :
      (q : Query doubles)
      → depth doubles q ≤ max_depth
      → parse doubles (render doubles (print doubles keys q [])) ≡ ok (condition doubles q)
  unfolding parse is_keyword
  parse-print q h =
      parse_from-reads (parse_or max_depth) (condition doubles q) (print doubles keys q [])
        (query-Reads q max_depth h [] (refl, refl))
