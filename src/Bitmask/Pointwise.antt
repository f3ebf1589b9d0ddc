-- ===== src/Bitmask/Pointwise.antt =====
-- The mask operations, row by row.
use Prim.Native.Nat.{bit_or}
use native.Mathlib.Nat.{pow-suc}
use blazerules.Prelude.{
  ℕ, zero, suc, ◌+◌, ◌*◌, ◌/◌, ◌%◌, ◌^◌, ◌<◌, ◌≡◌, refl, ap, ◌∙◌, [], ◌∷◌, arith, bit_or_step,
  bit_or-lt,
}
use blazerules.Bitmask.{Mask, IsBytes, word32, word64, store, or_into}

-- `|` of two words, split at bit `k`.
bit_or_join :
    (k lo hi lo' hi' : ℕ)
    → lo < 2 ^ k
    → lo' < 2 ^ k
    → bit_or (lo + 2 ^ k * hi) (lo' + 2 ^ k * hi') ≡ bit_or lo lo' + 2 ^ k * bit_or hi hi'
bit_or_join zero lo hi lo' hi' h h' =
    let e : lo ≡ 0 = omega arith in
    let e' : lo' ≡ 0 = omega arith in
    let e₂ : 0 + 1 * hi ≡ hi = omega arith in
    let e₃ : 0 + 1 * hi' ≡ hi' = omega arith in rw (e, e', e₂, e₃) (omega arith)
bit_or_join (suc k) lo hi lo' hi' h h' =
    let e : (lo + 2 ^ suc k * hi) / 2 ≡ lo / 2 + 2 ^ k * hi =
      omega (arith, ap (λ (t : ℕ). t * hi) (pow-suc 2 k)) in
    let e' : (lo' + 2 ^ suc k * hi') / 2 ≡ lo' / 2 + 2 ^ k * hi' =
      omega (arith, ap (λ (t : ℕ). t * hi') (pow-suc 2 k)) in
    let whole = rw (e, e') at (bit_or_step (lo + 2 ^ suc k * hi) (lo' + 2 ^ suc k * hi')) in
    omega (
      arith,
      whole,
      bit_or_step lo lo',
      ap (λ (t : ℕ). t * hi) (pow-suc 2 k),
      ap (λ (t : ℕ). t * hi') (pow-suc 2 k),
      ap (λ (t : ℕ). t * bit_or hi hi') (pow-suc 2 k),
      bit_or_join k (lo / 2) hi (lo' / 2) hi' (omega (arith, pow-suc 2 k))
          (omega (arith, pow-suc 2 k)),
    )

store_or :
    (k a c X Y : ℕ) (rest : Mask)
    → a < 256
    → c < 256
    → store (suc k) (bit_or (a + 256 * X) (c + 256 * Y)) rest
      ≡ bit_or a c ∷ store k (bit_or X Y) rest
unfolding store
store_or k a c X Y rest ha hc =
    let e = bit_or_join 8 a X c Y ha hc in
    let e₁ : bit_or (a + 256 * X) (c + 256 * Y) % 256 ≡ bit_or a c =
      omega (arith, e, bit_or-lt 8 a c ha hc) in
    let e₂ : bit_or (a + 256 * X) (c + 256 * Y) / 256 ≡ bit_or X Y =
      omega (arith, e, bit_or-lt 8 a c ha hc) in
    rw (e₁, e₂)

pub word64_nested :
    (a b c d e f g h : ℕ)
    → word64 a b c d e f g h
      ≡ a
        + 256
          * (b + 256 * (c + 256 * (d + 256 * (e + 256 * (f + 256 * (g + 256 * (h + 256 * 0)))))))
unfolding word64 word32
word64_nested a b c d e f g h = omega arith

-- Eight bytes or-ed at once are or-ed one by one.
or_word :
    (a b c d e f g h i j k l m n o p : ℕ) (rest : Mask)
    → IsBytes (a ∷ b ∷ c ∷ d ∷ e ∷ f ∷ g ∷ h ∷ [])
    → IsBytes (i ∷ j ∷ k ∷ l ∷ m ∷ n ∷ o ∷ p ∷ [])
    → store 8 (bit_or (word64 a b c d e f g h) (word64 i j k l m n o p)) rest
      ≡ bit_or a i
        ∷ bit_or b j
        ∷ bit_or c k
        ∷ bit_or d l
        ∷ bit_or e m
        ∷ bit_or f n
        ∷ bit_or g o
        ∷ bit_or h p
        ∷ rest
unfolding store
or_word a b c d e f g h i j k l m n o p rest ha hi = rw (
  word64_nested a b c d e f g h,
  word64_nested i j k l m n o p,
  store_or 7 a i _ _ rest ha.0 hi.0,
  store_or 6 b j _ _ rest ha.1.0 hi.1.0,
  store_or 5 c k _ _ rest ha.1.1.0 hi.1.1.0,
  store_or 4 d l _ _ rest ha.1.1.1.0 hi.1.1.1.0,
  store_or 3 e m _ _ rest ha.1.1.1.1.0 hi.1.1.1.1.0,
  store_or 2 f n _ _ rest ha.1.1.1.1.1.0 hi.1.1.1.1.1.0,
  store_or 1 g o _ _ rest ha.1.1.1.1.1.1.0 hi.1.1.1.1.1.1.0,
  store_or 0 h p 0 0 rest ha.1.1.1.1.1.1.1.0 hi.1.1.1.1.1.1.1.0,
  store,
)

-- The reference: byte by byte.
unfoldable pub or_bytes : Mask → Mask → Mask
or_bytes (a ∷ dst) (b ∷ src) = bit_or a b ∷ or_bytes dst src
or_bytes dst _ = dst

pub or_into-or_bytes :
    (dst src : Mask) → IsBytes dst → IsBytes src → or_into dst src ≡ or_bytes dst src
unfolding or_into or_bytes
or_into-or_bytes (a ∷ b ∷ c ∷ d ∷ e ∷ f ∷ g ∷ h ∷ dst) (i ∷ j ∷ k ∷ l ∷ m ∷ n ∷ o ∷ p ∷ src)
      (ha, (hb, (hc, (hd, (he, (hf, (hg, (hh, hr))))))))
      (hi, (hj, (hk, (hl, (hm, (hn, (ho, (hp, hs)))))))) =
    or_word a b c d e f g h i j k l m n o p (or_into dst src)
      (ha, (hb, (hc, (hd, (he, (hf, (hg, (hh, tt))))))))
      (hi, (hj, (hk, (hl, (hm, (hn, (ho, (hp, tt))))))))
    ∙ rw (or_into-or_bytes dst src hr hs)
or_into-or_bytes (a ∷ dst) (b ∷ src) h h' = rw (or_into-or_bytes dst src h.1 h'.1)
or_into-or_bytes dst _ h h' = refl
