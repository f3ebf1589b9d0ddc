-- ===== src/Sql/Chains.antt =====
-- The loops of `parse_or` and `parse_and` over the groups of a query.
use blazerules.Prelude.{
  ℕ, zero, suc, ◌<◌, ◌≤◌, ◌≡◌, refl, ap, Bool, true, false, List, [], ◌∷◌, length, length-append,
  Text, arith,
}
use blazerules.Spec.{Operands}
use blazerules.Compile.{Condition, Conditions, nil, cons}
use blazerules.Sql.{Doubles, ok}
use blazerules.Sql.Parser.{is_keyword, read_more, parse_chain, join}
use blazerules.Sql.Words.{Word, render, at, advance-at, bind_ok, take_yes}
use blazerules.Sql.Keys.{
  Keys, Literal, field_word, literal_word, number_word, quoted_word, not_key, is_key, null_key,
  in_key, between_key, like_key, and_key, or_key, open_word, close_word, comma_word,
  comparator_word,
}
use blazerules.Sql.Print.{
  Query, null_test, member, between, like, compare, same_text, all_of, any_of, none_of, Queries,
  one, more, print, print_more, more_values, negated, equality, condition, conditions,
}
use blazerules.Sql.Reads.{Words, Operand, Stops, ReadsAt, read_more-Stops}

module _ {D : Type 0} {doubles : Doubles D} where
  -- How many queries follow the first.
  abbrev count : Queries doubles → ℕ
  count (one q) = 1
  count (more q qs) = suc (count qs)

module _ {D : Type 0} (doubles : Doubles D) (keys : Keys doubles) where
  abbrev size : Words doubles → ℕ
  size ws = length (render doubles ws)

  size-word : (w : Word doubles) (ws : Words doubles) → size ws < size (w ∷ ws)
  size-word w ws = let h = length-append w.raw (render doubles ws) in omega arith

  -- Words that end with `k`.
  data Ends (k : Words doubles) : Words doubles → Type 0 where
    same : Ends k k
    later : {ws : Words doubles} → (w : Word doubles) → Ends k ws → Ends k (w ∷ ws)

  size-Ends : (k ws : Words doubles) → Ends k ws → size k ≤ size ws
  size-Ends k _ same = omega arith
  size-Ends k _ (later {ws} w e) =
      let rest = size-Ends k ws e in let more = size-word w ws in omega arith

  Ends-join : (j k ws : Words doubles) → Ends j k → Ends k ws → Ends j ws
  Ends-join j k _ e same = e
  Ends-join j k _ e (later {ws} w f) = later w (Ends-join j k ws e f)

  negated-Ends :
      (neg : Bool) (w : Word doubles) (k ws : Words doubles)
      → Ends k ws
      → Ends k (negated doubles keys neg w ws)
  negated-Ends true w k ws e = later w e
  negated-Ends false w k ws e = e

  more_values-Ends :
      (vs : List (Literal doubles)) (k : Words doubles) → Ends k (more_values doubles keys vs k)
  more_values-Ends [] k = later (close_word keys) same
  more_values-Ends (v ∷ vs) k =
      later (comma_word keys) (later (literal_word doubles v) (more_values-Ends vs k))

  mutual
    unfolding print print_more

    print-Ends : (q : Query doubles) (k : Words doubles) → Ends k (print doubles keys q k)
    print-Ends (null_test f neg) k =
        later (field_word doubles f)
          (later (is_key keys) (negated-Ends neg (not_key keys) k _ (later (null_key keys) same)))
    print-Ends (member f neg v vs) k = later (field_word doubles f) (
        negated-Ends neg (not_key keys) k _ (
          later (in_key keys)
            (later (open_word keys) (later (literal_word doubles v) (more_values-Ends vs k)))))
    print-Ends (between f lo hi) k = later (field_word doubles f) (
        later (between_key keys) (
          later (number_word doubles lo)
            (later (and_key keys) (later (number_word doubles hi) same))))
    print-Ends (like f q) k =
        later (field_word doubles f) (later (like_key keys) (later (quoted_word doubles q) same))
    print-Ends (compare f o n) k =
        later (field_word doubles f)
          (later (comparator_word doubles o) (later (number_word doubles n) same))
    print-Ends (same_text f b q) k =
        later (field_word doubles f)
          (later (comparator_word doubles (equality b)) (later (quoted_word doubles q) same))
    print-Ends (all_of p qs) k = later (open_word keys) (
        Ends-join k _ _ (later (close_word keys) (print_more-Ends (and_key keys) qs k))
          (print-Ends p _))
    print-Ends (any_of p qs) k = later (open_word keys) (
        Ends-join k _ _ (later (close_word keys) (print_more-Ends (or_key keys) qs k))
          (print-Ends p _))
    print-Ends (none_of q) k =
        later (not_key keys)
          (later (open_word keys) (Ends-join k _ _ (later (close_word keys) same) (print-Ends q _)))

    print_more-Ends :
        (w : Word doubles) (qs : Queries doubles) (k : Words doubles)
        → Ends k (print_more doubles keys w qs k)
    print_more-Ends w (one q) k =
        later w
          (later (open_word keys) (Ends-join k _ _ (later (close_word keys) same) (print-Ends q _)))
    print_more-Ends w (more q qs) k = later w (
        later (open_word keys)
          (Ends-join k _ _ (later (close_word keys) (print_more-Ends w qs k)) (print-Ends q _)))

  -- A group takes words.
  size-group :
      (w : Word doubles) (q : Query doubles) (k : Words doubles)
      → size k < size (w ∷ open_word keys ∷ print doubles keys q (close_word keys ∷ k))
  size-group w q k =
      let after = size-word (close_word keys) k in
      let inner = size-Ends (close_word keys ∷ k) _ (print-Ends q (close_word keys ∷ k)) in
      let opened = size-word (open_word keys) (print doubles keys q (close_word keys ∷ k)) in
      let outer = size-word w (open_word keys ∷ print doubles keys q (close_word keys ∷ k)) in
      omega arith

  size-print_more :
      (w : Word doubles) (qs : Queries doubles) (k : Words doubles)
      → count qs ≤ size (print_more doubles keys w qs k)
  unfolding print_more
  size-print_more w (one q) k = let h = size-group w q k in omega arith
  size-print_more w (more q qs) k =
      let rest = size-print_more w qs k in
      let h = size-group w q (print_more doubles keys w qs k) in omega arith

  -- A parser reads each query in parentheses, when what follows is fine.
  abbrev pub Groups : Operand doubles → (Words doubles → Type 0) → Query doubles → Type 0
  Groups operand Fine q =
      (k : Words doubles)
      → Fine k
      → ReadsAt doubles operand (open_word keys ∷ print doubles keys q (close_word keys ∷ k))
          (condition doubles q) k

  abbrev pub AllGroups : Operand doubles → (Words doubles → Type 0) → Queries doubles → Type 0
  AllGroups operand Fine (one q) = Groups operand Fine q
  AllGroups operand Fine (more q qs) = Groups operand Fine q × AllGroups operand Fine qs

  -- What follows a group and is not the end starts with the keyword.
  print_more-Fine :
      (w : Word doubles) (Fine : Words doubles → Type 0)
      → ((ws : Words doubles) → Fine (w ∷ ws))
      → (qs : Queries doubles) (k : Words doubles) → Fine (print_more doubles keys w qs k)
  unfolding print_more
  print_more-Fine w Fine fine (one q) k = fine _
  print_more-Fine w Fine fine (more q qs) k = fine _

  join-conditions :
      (build : Conditions (Operands D) → Condition (Operands D)) (c : Condition (Operands D))
      (qs : Queries doubles)
      → join doubles build c (conditions doubles qs) ≡ build (cons c (conditions doubles qs))
  unfolding conditions
  join-conditions build c (one q) = refl
  join-conditions build c (more q qs) = refl

  module _ (word : Text) (w : Word doubles) (operand : Operand doubles)
      (Fine : Words doubles → Type 0)
      (is_word : (ws : Words doubles) → is_keyword word (at doubles (w ∷ ws)) ≡ true)
      (fine : (ws : Words doubles) → Fine (w ∷ ws)) where
    read_more-group :
        (q : Query doubles) (fuel : ℕ) (k : Words doubles) (cs : Conditions (Operands D))
        (k' : Words doubles)
        → ReadsAt doubles operand
            (open_word keys ∷ print doubles keys q (close_word keys ∷ k))
            (condition doubles q)
            k
        → read_more doubles word operand fuel (at doubles k) ≡ ok (cs, at doubles k')
        → read_more doubles word operand
            (suc fuel)
            (at doubles (w ∷ open_word keys ∷ print doubles keys q (close_word keys ∷ k)))
          ≡ ok (cons (condition doubles q) cs, at doubles k')
    unfolding read_more
    read_more-group q fuel k cs k' h rest =
        take_yes _ _ _ (is_word (open_word keys ∷ print doubles keys q (close_word keys ∷ k))) (
          bind_ok _
            (advance-at doubles w (open_word keys ∷ print doubles keys q (close_word keys ∷ k)))
            (bind_ok _ h (bind_ok _ rest refl)))

    pub read_more-Groups :
        (qs : Queries doubles) (fuel : ℕ) (k : Words doubles)
        → count qs ≤ fuel
        → AllGroups operand Fine qs
        → Fine k
        → Stops doubles word k
        → read_more doubles word operand fuel (at doubles (print_more doubles keys w qs k))
          ≡ ok (conditions doubles qs, at doubles k)
    unfolding print_more conditions
    read_more-Groups (one q) zero k enough hs f s = absurd (omega arith)
    read_more-Groups (more q qs) zero k enough hs f s = absurd (omega arith)
    read_more-Groups (one q) (suc fuel) k enough h f s =
        read_more-group q fuel k nil k (h k f) (read_more-Stops doubles keys word operand fuel k s)
    read_more-Groups (more q qs) (suc fuel) k enough (h, hs) f s =
        let next = print_more doubles keys w qs k in
        read_more-group q fuel next (conditions doubles qs) k
          (h next (print_more-Fine w Fine fine qs k))
          (read_more-Groups qs fuel k (omega arith) hs f s)

    fuel-print_more :
        (qs : Queries doubles) (k : Words doubles)
        → count qs ≤ suc (length (at doubles (print_more doubles keys w qs k)).rest)
    unfolding print_more
    fuel-print_more (one q) k = omega arith
    fuel-print_more (more q qs) k =
        let rest = size-print_more w qs k in
        let after = size-word (close_word keys) (print_more doubles keys w qs k) in
        let inner =
          size-Ends (close_word keys ∷ print_more doubles keys w qs k) _
            (print-Ends q (close_word keys ∷ print_more doubles keys w qs k)) in
        let opened =
          size-word (open_word keys)
            (print doubles keys q (close_word keys ∷ print_more doubles keys w qs k)) in
        omega arith

    pub chain-Groups :
        (build : Conditions (Operands D) → Condition (Operands D)) (p : Query doubles)
        (qs : Queries doubles) (k : Words doubles)
        → Groups operand Fine p
        → AllGroups operand Fine qs
        → Fine k
        → Stops doubles word k
        → ReadsAt doubles
            (parse_chain doubles word build operand)
            (open_word keys
              ∷ print doubles keys p (close_word keys ∷ print_more doubles keys w qs k))
            (build (cons (condition doubles p) (conditions doubles qs)))
            k
    unfolding parse_chain
    chain-Groups build p qs k h hs f s =
        let next = print_more doubles keys w qs k in
        bind_ok _ (h next (print_more-Fine w Fine fine qs k)) (
          bind_ok _
            (read_more-Groups qs (suc (length (at doubles next).rest)) k (fuel-print_more qs k) hs f
              s)
            (ap (λ c. ok (c, at doubles k)) (join-conditions build (condition doubles p) qs)))
