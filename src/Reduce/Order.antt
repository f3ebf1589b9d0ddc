-- ===== src/Reduce/Order.antt =====
-- The lexicographic order on action rank, severity and priority that decides which rule wins.
use blazerules.Prelude.{
  ◌≡◌, refl, sym, ◌∙◌, inl, inr, Bool, true, false, ◌&&◌, ◌||◌, arith, Bool-cases, ℤ, gtb, eqb,
  gtb_irrefl, eqb_refl, eqb→≡, gtb_total, gtb_trans,
}

pub record Key : Type 0 where
  pub rank : ℤ
  pub severity : ℤ
  pub priority : ℤ

unfoldable pub beats : Key → Key → Bool
beats a b =
    gtb a.rank b.rank
    || ((eqb a.rank b.rank && gtb a.severity b.severity)
        || (eqb a.rank b.rank && eqb a.severity b.severity && gtb a.priority b.priority))

-- The order on one component, then on the rest.
abbrev lex : ℤ → ℤ → Bool → Bool
lex a b rest = gtb a b || (eqb a b && rest)

lex_greater : (a b : ℤ) (x : Bool) → gtb a b ≡ true → lex a b x ≡ true
lex_greater a b x h = ground arith

lex_equal : (a b : ℤ) (x : Bool) → eqb a b ≡ true → x ≡ true → lex a b x ≡ true
lex_equal a b x h k = ground arith

lex_trans :
    (a b c : ℤ) (x y z : Bool)
    → (x ≡ true → y ≡ true → z ≡ true)
    → lex a b x ≡ true
    → lex b c y ≡ true
    → lex a c z ≡ true
lex_trans a b c x y z h k l = elim (Bool-cases (gtb a b)) [
  | inl g ↦ elim (Bool-cases (gtb b c)) [
    | inl g' ↦ lex_greater a c z (gtb_trans a b c g g')
    | inr f' ↦ let e' : b ≡ c = eqb→≡ b c (ground arith) in lex_greater a c z (rw e' at g)
  ]
  | inr f ↦
      let e : a ≡ b = eqb→≡ a b (ground arith) in
      elim (Bool-cases (gtb b c)) [
        | inl g' ↦ lex_greater a c z (rw (sym e) at g')
        | inr f' ↦
            let e' : b ≡ c = eqb→≡ b c (ground arith) in
            lex_equal a c z (rw (e, e') (eqb_refl c)) (h (ground arith) (ground arith))
      ]
]

lex_total :
    (a b : ℤ) (x y : Bool)
    → lex a b x ≡ false
    → lex b a y ≡ false
    → (a ≡ b) × (x ≡ false) × (y ≡ false)
lex_total a b x y h k =
    let e : eqb a b ≡ true = gtb_total a b (ground arith) (ground arith) in
    let e' : a ≡ b = eqb→≡ a b e in
    (e', ground arith, let r : eqb b a ≡ true = rw e' (eqb_refl b) in ground arith)

-- The test as the code writes it is the nested one.
beats_nested :
    (a b : Key)
    → beats a b ≡ lex a.rank b.rank (lex a.severity b.severity (gtb a.priority b.priority))
unfolding beats
beats_nested a b = ground arith

pub beats_irrefl : (a : Key) → beats a a ≡ false
beats_irrefl a =
    beats_nested a a
    ∙ rw (gtb_irrefl a.rank, gtb_irrefl a.severity, gtb_irrefl a.priority) (ground arith)

pub beats_trans : (a b c : Key) → beats a b ≡ true → beats b c ≡ true → beats a c ≡ true
beats_trans a b c h k =
    beats_nested a c
    ∙ lex_trans a.rank b.rank c.rank _ _ _
        (λ h' k'.
          lex_trans a.severity b.severity c.severity _ _ _
            (gtb_trans a.priority b.priority c.priority) h' k')
        (sym (beats_nested a b) ∙ h) (sym (beats_nested b c) ∙ k)

abbrev key : ℤ → ℤ → ℤ → Key
key x y z = record { rank = x; severity = y; priority = z }

key_ext : {x y z x' y' z' : ℤ} → x ≡ x' → y ≡ y' → z ≡ z' → key x y z ≡ key x' y' z'
key_ext e e' e'' = rw (e, e', e'') refl

-- Keys of which neither beats the other are the same key.
pub beats_total : (a b : Key) → beats a b ≡ false → beats b a ≡ false → a ≡ b
beats_total a b h k =
    let (e, h', k') =
      lex_total a.rank b.rank _ _ (sym (beats_nested a b) ∙ h) (sym (beats_nested b a) ∙ k) in
    let (e', h'', k'') = lex_total a.severity b.severity _ _ h' k' in
    let e'' : a.priority ≡ b.priority = eqb→≡ _ _ (gtb_total a.priority b.priority h'' k'') in
    key_ext e e' e''

-- A key that beats one that `k` does not beat also beats `k`.
pub beats_weak : (n k best : Key) → beats n best ≡ true → beats k best ≡ false → beats n k ≡ true
beats_weak n k best h f = elim (Bool-cases (beats n k)) [
  | inl t ↦ t
  | inr g ↦ elim (Bool-cases (beats k n)) [
    | inl t ↦ absurd (ground (arith, beats_trans k n best t h))
    | inr g' ↦ let e : n ≡ k = beats_total n k g g' in absurd (ground (arith, rw e at h))
  ]
]
