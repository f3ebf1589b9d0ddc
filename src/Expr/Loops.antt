-- ===== src/Expr/Loops.antt =====
-- What a mask stands for, and the loops over the children of a node.
use blazerules.Prelude.{
  ℕ, ◌<◌, ◌≡◌, refl, sym, ◌∙◌, Bool, true, false, List, [], ◌∷◌, ◌&&◌, ◌||◌, not, Option, some,
  length, replicate, length-replicate, get_elem?, All, arith, lt→ltb,
}
use blazerules.Bitmask.{Mask, IsBytes, bitmask_bytes, bit_is_set, or_into, and_into, bitwise_not}
use blazerules.Bitmask.Rowwise.{
  bit_is_set-or_into, bit_is_set-and_into, bit_is_set-bitwise_not, bit_is_set-zeros,
}
use blazerules.Bitmask.Bytes.{
  or_into-IsBytes, and_into-IsBytes, bitwise_not-IsBytes, replicate-IsBytes, length-or_into,
  length-and_into, length-bitwise_not,
}
use blazerules.Expr.{Scratch, Evaluate, M, ◌>>=◌, or_children, and_children}
use blazerules.Expr.Truth.{all_of, any_of}

-- A mask of `m` rows whose bits are the values of `p`.
pub record Represents (m : ℕ) (p : ℕ → Bool) (mask : Mask) : Type 0 where
  pub bytes : IsBytes mask
  pub size : length mask ≡ bitmask_bytes m
  pub bits : (row : ℕ) → row < m → bit_is_set mask row ≡ p row

module _ (m : ℕ) where
  pub Represents-ext :
      (p q : ℕ → Bool) (mask : Mask)
      → ((row : ℕ) → row < m → p row ≡ q row)
      → Represents m p mask
      → Represents m q mask
  Represents-ext p q mask h r = record {
    bytes = r.bytes;
    size = r.size;
    bits = λ row l. r.bits row l ∙ h row l;
  }

  pub or_into-Represents :
      (p q : ℕ → Bool) (dst src : Mask)
      → Represents m p dst
      → Represents m q src
      → Represents m (λ row. p row || q row) (or_into dst src)
  or_into-Represents p q dst src r s = record {
    bytes = or_into-IsBytes dst src r.bytes s.bytes;
    size = length-or_into dst src r.bytes s.bytes ∙ r.size;
    bits = λ row l.
        bit_is_set-or_into dst src row r.bytes s.bytes (r.size ∙ sym s.size)
        ∙ rw (r.bits row l, s.bits row l);
  }

  pub and_into-Represents :
      (p q : ℕ → Bool) (dst src : Mask)
      → Represents m p dst
      → Represents m q src
      → Represents m (λ row. p row && q row) (and_into dst src)
  and_into-Represents p q dst src r s = record {
    bytes = and_into-IsBytes dst src r.bytes;
    size = length-and_into dst src ∙ r.size;
    bits = λ row l.
        bit_is_set-and_into dst src row (r.size ∙ sym s.size) ∙ rw (r.bits row l, s.bits row l);
  }

  pub bitwise_not-Represents :
      (p : ℕ → Bool) (mask : Mask)
      → Represents m p mask
      → Represents m (λ row. not (p row)) (bitwise_not mask m)
  bitwise_not-Represents p mask r = record {
    bytes = bitwise_not-IsBytes mask m;
    size = length-bitwise_not mask m ∙ r.size;
    bits = λ row l.
        bit_is_set-bitwise_not mask m row r.bytes r.size
        ∙ rw (r.bits row l, lt→ltb row m l) (ground arith);
  }

  pub zero-Represents : Represents m (λ row. false) (replicate (bitmask_bytes m) 0)
  zero-Represents = record {
    bytes = replicate-IsBytes (bitmask_bytes m) 0 (omega arith);
    size = length-replicate (bitmask_bytes m) 0;
    bits = λ row l. bit_is_set-zeros (bitmask_bytes m) row;
  }

-- The evaluation of a node, given what nodes mean and which leave the survivors alone.
module _ (m len : ℕ) (v : ℕ → ℕ → Bool) (q : ℕ → Bool) where
  pub record CacheOk (st : Scratch) : Type 0 where
    pub sized : length st.node_masks ≡ len
    pub cached :
        (i : ℕ) (mask : Mask)
        → get_elem? st.node_masks i ≡ some (some mask)
        → Represents m (v i) mask

  -- The run succeeds with a mask for `p`, keeps the cache right and, if `b`, the survivors.
  abbrev pub Ran : (ℕ → Bool) → Bool → Scratch → Option (Mask × Scratch) → Type 0
  Ran p b st r =
      (mask : Mask) × (st' : Scratch) × (r ≡ some (mask, st'))
      × Represents m p mask
      × CacheOk st'
      × (b ≡ true → st'.survivors ≡ st.survivors)

  abbrev pub Works : Evaluate → ℕ → Type 0
  Works eval c = (st : Scratch) → CacheOk st → Ran (v c) (q c) st (eval c st)

  pub Ran-ext :
      (p p' : ℕ → Bool) (b b' : Bool) (st : Scratch) (r : Option (Mask × Scratch))
      → ((row : ℕ) → row < m → p row ≡ p' row)
      → (b' ≡ true → b ≡ true)
      → Ran p b st r
      → Ran p' b' st r
  Ran-ext p p' b b' st r h hb (mask, st', e, rep, ok, keeps) =
      (mask, st', e, Represents-ext m p p' mask h rep, ok, λ t. keeps (hb t))

  -- One evaluation and then another computation.
  pub Ran-bind :
      (p p' : ℕ → Bool) (b b' : Bool) (st : Scratch) (c : M Mask) (k : Mask → M Mask)
      → Ran p b st (c st)
      → ((mask : Mask) (st' : Scratch)
          → Represents m p mask
          → CacheOk st'
          → Ran p' b' st' (k mask st'))
      → Ran p' (b && b') st ((c >>= k) st)
  Ran-bind p p' b b' st c k (mask, st', e, rep, ok, keeps) next =
      let (mask', st'', e', rep', ok', keeps') = next mask st' rep ok in
      (mask', st'', rw (e, ◌>>=◌) e', rep', ok', λ t. keeps' (ground arith) ∙ keeps (ground arith))

  module _ (eval : Evaluate) where
    pub or_children-Ran :
        (cs : List ℕ) (p : ℕ → Bool) (out : Mask) (st : Scratch)
        → All (Works eval) cs
        → Represents m p out
        → CacheOk st
        → Ran
            (λ row. p row || any_of (λ c. v c row) cs)
            (all_of q cs)
            st
            (or_children eval cs out st)
    unfolding or_children
    or_children-Ran [] p out st h r ok =
        (out, st, refl, Represents-ext m p _ out (λ row l. ground arith) r, ok, λ t. refl)
    or_children-Ran (c ∷ cs) p out st h r ok =
        Ran-bind (v c) _ (q c) (all_of q cs) st (eval c)
          (λ mask. or_children eval cs (or_into out mask)) (h.0 st ok)
          λ mask st' r' ok'.
            Ran-ext _ _ (all_of q cs) (all_of q cs) st' _ (λ row l. ground arith) (λ t. t)
              (or_children-Ran cs (λ row. p row || v c row) (or_into out mask) st' h.1
                (or_into-Represents m p (v c) out mask r r') ok')

    pub and_children-Ran :
        (cs : List ℕ) (p : ℕ → Bool) (out : Mask) (st : Scratch)
        → All (Works eval) cs
        → Represents m p out
        → CacheOk st
        → Ran
            (λ row. p row && all_of (λ c. v c row) cs)
            (all_of q cs)
            st
            (and_children eval cs out st)
    unfolding and_children
    and_children-Ran [] p out st h r ok =
        (out, st, refl, Represents-ext m p _ out (λ row l. ground arith) r, ok, λ t. refl)
    and_children-Ran (c ∷ cs) p out st h r ok =
        Ran-bind (v c) _ (q c) (all_of q cs) st (eval c)
          (λ mask. and_children eval cs (and_into out mask)) (h.0 st ok)
          λ mask st' r' ok'.
            Ran-ext _ _ (all_of q cs) (all_of q cs) st' _ (λ row l. ground arith) (λ t. t)
              (and_children-Ran cs (λ row. p row && v c row) (and_into out mask) st' h.1
                (and_into-Represents m p (v c) out mask r r') ok')
