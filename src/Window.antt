-- ===== src/Window.antt =====
-- src/core/window_store.cpp: the counter of one entity in one window channel. The buckets are
-- association lists from seconds to values; seconds are counted from the epoch, so they are not
-- negative. The arithmetic of `double` is the parameter `Amounts`.
pub mod Sums
pub mod Slide
pub mod Tracks
pub mod Log
pub mod Examples
use blazerules.Prelude.{
  ℕ, ◌+◌, ◌%◌, ◌^◌, Bool, true, false, not, List, [], ◌∷◌, ◌++◌, ◌==◌, ltb, leb, ◌&&◌, ◌||◌,
  if◌then◌else◌, Option, none, some,
}

pub data WindowFn : Type 0 where
  count sum avg ratio least greatest : WindowFn

pub record Amounts (A : Type 0) : Type 0 where
  pub zero : A
  pub add : A → A → A
  pub sub : A → A → A
  pub div : A → A → A
  pub less : A → A → Bool

abbrev pub Buckets : Type 0 → Type 0
Buckets A = List (ℕ × A)

pub record EntityCounter (A : Type 0) : Type 0 where
  pub extra_buckets : Buckets A
  pub extra_count_buckets : Buckets A
  pub inline_bucket_second : ℕ
  pub inline_bucket_value : A
  pub inline_bucket_count : A
  pub running_total : A
  pub running_count : A
  pub write_head : ℕ
  pub last_write_second : ℕ
  pub has_inline_bucket : Bool
  pub initialized : Bool

unfoldable pub is_additive_fn : WindowFn → Bool
is_additive_fn least = false
is_additive_fn greatest = false
is_additive_fn _ = true

unfoldable pub find : {A : Type 0} → Buckets A → ℕ → Option A
find [] second = none
find ((s, v) ∷ rest) second = let later = find rest second in if s == second then some v else later

unfoldable pub erase : {A : Type 0} → Buckets A → ℕ → Buckets A
erase [] second = []
erase ((s, v) ∷ rest) second =
    let later = erase rest second in if s == second then rest else (s, v) ∷ later

-- The value of a bucket that is there is changed.
unfoldable pub adjust : {A : Type 0} → Buckets A → ℕ → (A → A) → Buckets A
adjust [] second f = []
adjust ((s, v) ∷ rest) second f =
    let later = adjust rest second f in if s == second then (s, f v) ∷ rest else (s, v) ∷ later

-- `second <= now - duration`.
unfoldable pub expired : ℕ → ℕ → ℕ → Bool
expired now duration second = leb (second + duration) now

module _ {A : Type 0} (amounts : Amounts A) where
  unfoldable pub fresh_counter : EntityCounter A
  fresh_counter = record {
    extra_buckets = [];
    extra_count_buckets = [];
    inline_bucket_second = 0;
    inline_bucket_value = amounts.zero;
    inline_bucket_count = amounts.zero;
    running_total = amounts.zero;
    running_count = amounts.zero;
    write_head = 0;
    last_write_second = 0;
    has_inline_bucket = false;
    initialized = false;
  }

  unfoldable pub clear_buckets : EntityCounter A → EntityCounter A
  clear_buckets ec = record ec {
    extra_buckets = [];
    extra_count_buckets = [];
    inline_bucket_second = 0;
    inline_bucket_value = amounts.zero;
    inline_bucket_count = amounts.zero;
    has_inline_bucket = false;
  }

  unfoldable pub combine_fn : WindowFn → A → A → A
  combine_fn least acc v = if amounts.less v acc then v else acc
  combine_fn greatest acc v = if amounts.less acc v then v else acc
  combine_fn _ acc v = amounts.add acc v

  -- The third case of `add_bucket`; `operator[]` on a missing key starts from 0.
  unfoldable pub add_extra : EntityCounter A → ℕ → A → A → WindowFn → EntityCounter A
  unfolding combine_fn find adjust
  add_extra ec second delta count_delta fn = elim (find ec.extra_buckets second) [
    | none ↦ record ec {
      extra_buckets = ec.extra_buckets ++ (second, delta) ∷ [];
      extra_count_buckets = elim (find ec.extra_count_buckets second) [
        | none ↦ ec.extra_count_buckets ++ (second, count_delta) ∷ []
        | some old ↦ adjust ec.extra_count_buckets second (λ v. count_delta)
      ];
    }
    | some value ↦ record ec {
      extra_buckets = adjust ec.extra_buckets second (λ v. combine_fn fn v delta);
      extra_count_buckets = elim (find ec.extra_count_buckets second) [
        | none ↦ ec.extra_count_buckets ++ (second, amounts.add amounts.zero count_delta) ∷ []
        | some old ↦ adjust ec.extra_count_buckets second (λ v. amounts.add v count_delta)
      ];
    }
  ]

  unfoldable pub add_bucket : EntityCounter A → ℕ → A → A → WindowFn → EntityCounter A
  unfolding combine_fn add_extra
  add_bucket ec second delta count_delta fn =
      if not ec.has_inline_bucket
      then record ec {
        inline_bucket_second = second;
        inline_bucket_value = delta;
        inline_bucket_count = count_delta;
        has_inline_bucket = true;
      }
      else if ec.inline_bucket_second == second
      then record ec {
        inline_bucket_value = combine_fn fn ec.inline_bucket_value delta;
        inline_bucket_count = amounts.add ec.inline_bucket_count count_delta;
      }
      else add_extra ec second delta count_delta fn

  -- The inline bucket is dropped if it has expired.
  unfoldable pub drop_inline : ℕ → ℕ → Bool → EntityCounter A → EntityCounter A
  unfolding expired
  drop_inline now duration additive ec =
      if ec.has_inline_bucket && expired now duration ec.inline_bucket_second
      then record ec {
        running_total =
            if additive
            then amounts.sub ec.running_total ec.inline_bucket_value
            else ec.running_total;
        running_count =
            if additive
            then amounts.sub ec.running_count ec.inline_bucket_count
            else ec.running_count;
        inline_bucket_second = 0;
        inline_bucket_value = amounts.zero;
        inline_bucket_count = amounts.zero;
        has_inline_bucket = false;
      }
      else ec

  -- One bucket of the map has expired: its value and its count leave the running sums.
  unfoldable pub drop_extra : ℕ → A → Bool → EntityCounter A → EntityCounter A
  unfolding find erase
  drop_extra second value additive ec = record ec {
    running_total = if additive then amounts.sub ec.running_total value else ec.running_total;
    running_count = elim (find ec.extra_count_buckets second) [
      | none ↦ ec.running_count
      | some c ↦ if additive then amounts.sub ec.running_count c else ec.running_count
    ];
    extra_count_buckets = erase ec.extra_count_buckets second;
  }

  -- The loop over the map, with the buckets that it has kept.
  unfoldable pub drop_extras :
      ℕ → ℕ → Bool → Buckets A → Buckets A → EntityCounter A → EntityCounter A
  unfolding drop_extra expired
  drop_extras now duration additive kept [] ec = record ec { extra_buckets = kept }
  drop_extras now duration additive kept ((s, v) ∷ rest) ec =
      let gone = expired now duration s in
      drop_extras now duration additive (if gone then kept else kept ++ (s, v) ∷ []) rest
        (if gone then drop_extra s v additive ec else ec)

  unfoldable pub restart : ℕ → ℕ → EntityCounter A → EntityCounter A
  unfolding clear_buckets
  restart now duration ec = record (clear_buckets ec) {
    running_total = amounts.zero;
    running_count = amounts.zero;
    write_head = now % duration % 2 ^ 32;
    last_write_second = now;
    initialized = true;
  }

  unfoldable pub slide : ℕ → ℕ → Bool → EntityCounter A → EntityCounter A
  unfolding drop_inline drop_extras
  slide now duration additive ec =
      let ec₁ = drop_inline now duration additive ec in
      record (drop_extras now duration additive [] ec₁.extra_buckets ec₁) {
        write_head = now % duration % 2 ^ 32;
        last_write_second = now;
      }

  unfoldable pub advance_and_zero : EntityCounter A → ℕ → ℕ → Bool → EntityCounter A
  unfolding restart slide
  advance_and_zero ec now duration additive =
      if not ec.initialized
      then restart now duration ec
      else if leb now ec.last_write_second
      then ec
      else if leb (ec.last_write_second + duration) now
      then restart now duration ec
      else slide now duration additive ec

  -- What `update_all_channels` does to the counter of an entity that a batch touches.
  unfoldable pub update_counter : WindowFn → ℕ → ℕ → A → A → EntityCounter A → EntityCounter A
  unfolding advance_and_zero add_bucket is_additive_fn
  update_counter fn duration now delta count_delta ec =
      let ec₁ =
        add_bucket (advance_and_zero ec now duration (is_additive_fn fn)) now delta count_delta
          fn in
      if is_additive_fn fn
      then record ec₁ {
        running_total = amounts.add ec₁.running_total delta;
        running_count = amounts.add ec₁.running_count count_delta;
      }
      else ec₁
