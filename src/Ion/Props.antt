-- ===== src/Ion/Props.antt =====
-- The words that pack flags with a number (src/ion/mod.rs, `LiveRange` and `LiveBundle`). Only the
-- word of each struct is modelled; the arithmetic is that of a release build.
use regalloc2_orig.Prelude.{
  ℕ, ◌+◌, ◌-◌, ◌/◌, ◌^◌, ◌<◌, ◌≡◌, ◌==◌, Bool, true, false, not, ◌&&◌, ◌||◌, if◌then◌else◌, bit_or,
  bit_and, u32, shl32, digit, digit-bit_or, digit-bit_and, arith, zero, suc, ◌∙◌,
}
use native.Mathlib.Nat.{pow-suc}
use regalloc2_orig.BitVec.Digits.{digit-le, digit-zero, digit-pow, digit-mask, bit_test}

pub data LiveRangeFlag : Type 0 where
  minimal fixed : LiveRangeFlag

-- `flag as u32`
abbrev pub flag_bits : LiveRangeFlag → ℕ
flag_bits minimal = 1
flag_bits fixed = 2

abbrev not32 : ℕ → ℕ
not32 w = 2 ^ 32 - 1 - w

unfoldable pub num_fixed_uses : ℕ → ℕ
num_fixed_uses word = bit_and word (2 ^ 24 - 1)

unfoldable pub set_num_fixed_uses : ℕ → ℕ → ℕ
set_num_fixed_uses word count = bit_or (bit_and word (not32 (2 ^ 24 - 1))) count

unfoldable pub inc_num_fixed_uses : ℕ → ℕ
inc_num_fixed_uses word = u32 (word + 1)

unfoldable pub dec_num_fixed_uses : ℕ → ℕ
dec_num_fixed_uses word = u32 (word + 2 ^ 32 - 1)

unfoldable pub set_flag : ℕ → LiveRangeFlag → ℕ
set_flag word flag = bit_or word (shl32 (flag_bits flag) 24)

unfoldable pub clear_flag : ℕ → LiveRangeFlag → ℕ
clear_flag word flag = bit_and word (not32 (shl32 (flag_bits flag) 24))

unfoldable pub has_flag : ℕ → LiveRangeFlag → Bool
has_flag word flag = not (bit_and word (shl32 (flag_bits flag) 24) == 0)

unfoldable pub set_cached_spill_weight_and_props : ℕ → Bool → Bool → ℕ
set_cached_spill_weight_and_props spill_weight is_minimal is_fixed =
    bit_or (bit_or spill_weight (if is_minimal then 2 ^ 31 else 0)) (if is_fixed then 2 ^ 30 else 0)

unfoldable pub cached_minimal : ℕ → Bool
cached_minimal props = not (bit_and props (2 ^ 31) == 0)

unfoldable pub cached_fixed : ℕ → Bool
cached_fixed props = not (bit_and props (2 ^ 30) == 0)

unfoldable pub cached_spill_weight : ℕ → ℕ
cached_spill_weight props = bit_and props (not32 (2 ^ 30 - 1))

-- The place of a flag, and whether two flags are the same.
abbrev place : LiveRangeFlag → ℕ
place minimal = 24
place fixed = 25

abbrev pub same : LiveRangeFlag → LiveRangeFlag → Bool
same minimal minimal = true
same minimal fixed = false
same fixed minimal = false
same fixed fixed = true

has_flag-eq-digit : (w : ℕ) (f : LiveRangeFlag) → has_flag w f ≡ (digit (place f) w == 1)
unfolding has_flag
has_flag-eq-digit w minimal = bit_test w 24
has_flag-eq-digit w fixed = bit_test w 25

digit-set_flag :
    (w : ℕ) (f g : LiveRangeFlag)
    → (digit (place g) (set_flag w f) == 1) ≡ (same f g || digit (place g) w == 1)
unfolding set_flag
digit-set_flag w minimal minimal =
    ground (arith, digit-bit_or 24 w (2 ^ 24), digit-pow 24 24, digit-le 24 w)
digit-set_flag w minimal fixed =
    ground (arith, digit-bit_or 25 w (2 ^ 24), digit-pow 25 24, digit-le 25 w)
digit-set_flag w fixed minimal =
    ground (arith, digit-bit_or 24 w (2 ^ 25), digit-pow 24 25, digit-le 24 w)
digit-set_flag w fixed fixed =
    ground (arith, digit-bit_or 25 w (2 ^ 25), digit-pow 25 25, digit-le 25 w)

digit-clear_flag :
    (w : ℕ) (f g : LiveRangeFlag)
    → (digit (place g) (clear_flag w f) == 1) ≡ (not (same f g) && digit (place g) w == 1)
unfolding clear_flag
digit-clear_flag w minimal minimal = ground (
  arith,
  digit-bit_and 24 w (not32 (2 ^ 24)),
  digit-mask 24 24 32 (omega arith) (omega arith),
  digit-le 24 w,
)
digit-clear_flag w minimal fixed = ground (
  arith,
  digit-bit_and 25 w (not32 (2 ^ 24)),
  digit-mask 25 24 32 (omega arith) (omega arith),
  digit-le 25 w,
)
digit-clear_flag w fixed minimal = ground (
  arith,
  digit-bit_and 24 w (not32 (2 ^ 25)),
  digit-mask 24 25 32 (omega arith) (omega arith),
  digit-le 24 w,
)
digit-clear_flag w fixed fixed = ground (
  arith,
  digit-bit_and 25 w (not32 (2 ^ 25)),
  digit-mask 25 25 32 (omega arith) (omega arith),
  digit-le 25 w,
)

-- `set_flag` puts its flag on and `clear_flag` takes it off, and both leave the other flag.
pub flags_lem :
    (w : ℕ) (f g : LiveRangeFlag)
    → (has_flag (set_flag w f) g ≡ (same f g || has_flag w g))
      × (has_flag (clear_flag w f) g ≡ (not (same f g) && has_flag w g))
flags_lem w f g = (
  has_flag-eq-digit (set_flag w f) g ∙ rw (has_flag-eq-digit w g) (digit-set_flag w f g),
  has_flag-eq-digit (clear_flag w f) g ∙ rw (has_flag-eq-digit w g) (digit-clear_flag w f g),
)

digit_high : (i a : ℕ) → a < 2 ^ i → digit i a ≡ 0
digit_high zero a h = omega arith
digit_high (suc i) a h = digit_high i (a / 2) (omega (arith, pow-suc 2 i))

-- The power of two, where the property holds.
abbrev flag_at : Bool → ℕ → ℕ
flag_at b j = if b then 2 ^ j else 0

digit-flag_at : (i j : ℕ) (b : Bool) → digit i (flag_at b j) ≡ (if b && i == j then 1 else 0)
digit-flag_at i j true = digit-pow i j
digit-flag_at i j false = digit-zero i

digit-two_flags :
    (i w j k : ℕ) (m f : Bool)
    → w < 2 ^ i
    → (digit i (bit_or (bit_or w (flag_at m j)) (flag_at f k)) == 1) ≡ (m && i == j || f && i == k)
digit-two_flags i w j k m f h = ground (
  arith,
  digit-bit_or i (bit_or w (flag_at m j)) (flag_at f k),
  digit-bit_or i w (flag_at m j),
  digit-flag_at i j m,
  digit-flag_at i k f,
  digit_high i w h,
)

-- Where a weight below 2 ^ 30 is stored with the two properties, each of the two reads back.
pub props_round_trip :
    (weight : ℕ) (is_minimal is_fixed : Bool)
    → weight < 2 ^ 30
    → (cached_minimal (set_cached_spill_weight_and_props weight is_minimal is_fixed) ≡ is_minimal)
      × (cached_fixed (set_cached_spill_weight_and_props weight is_minimal is_fixed) ≡ is_fixed)
unfolding cached_minimal cached_fixed set_cached_spill_weight_and_props
props_round_trip weight is_minimal is_fixed h =
    let word = set_cached_spill_weight_and_props weight is_minimal is_fixed in
    (
      bit_test word 31
          ∙ digit-two_flags 31 weight 31 30 is_minimal is_fixed (omega arith)
          ∙ ground arith,
      bit_test word 30 ∙ digit-two_flags 30 weight 31 30 is_minimal is_fixed h ∙ ground arith,
    )
