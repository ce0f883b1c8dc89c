-- ===== src/Operand/RoundTrip.antt =====
-- What `Operand::new` packs, the accessors read back (src/lib.rs, `Operand`).
use regalloc2_orig.Prelude.{
  ℕ, ◌+◌, ◌*◌, ◌/◌, ◌^◌, ◌≤◌, ◌<◌, ◌≡◌, none, some, arith, ◌∙◌, ◌≢◌, ◌>>>◌, bit_and, bit_or, u32,
  shl32, ap, bit_or_fields, bit_and_mask,
}
use regalloc2_orig.Reg.{RegClass, int, float, class_bits}
use regalloc2_orig.Reg.PReg
use regalloc2_orig.Reg.PReg.{PReg}
use regalloc2_orig.Reg.VReg
use regalloc2_orig.Reg.VReg.{VReg}
use regalloc2_orig.Operand.{
  OperandPolicy, any, reg, fixed_reg, reuse, OperandKind, OperandPos, Operand, kind_bits, pos_bits,
  policy_fields, new, class, vreg, kind, pos, policy,
}

-- The policies that `new` accepts for a register of class `c`.
abbrev pub Accepts : RegClass → OperandPolicy → Type 0
Accepts c any = Unit
Accepts c reg = Unit
Accepts c (fixed_reg p) = PReg.IsValid p × (p.class ≡ c)
Accepts c (reuse which) = which ≤ PReg.max

abbrev preg_field : OperandPolicy → ℕ
preg_field any = 0
preg_field reg = 0
preg_field (fixed_reg p) = p.hw_enc
preg_field (reuse which) = which

abbrev policy_field : OperandPolicy → ℕ
policy_field any = 0
policy_field reg = 1
policy_field (fixed_reg p) = 2
policy_field (reuse which) = 3

fields_bounds :
    (c : RegClass) (p : OperandPolicy)
    → Accepts c p
    → (preg_field p < 32)
      × (policy_field p < 4)
      × (policy_fields p c ≡ some (preg_field p, policy_field p))
fields_bounds c any h = ground arith
fields_bounds c reg h = ground arith
fields_bounds int (fixed_reg p) h = ground arith
fields_bounds float (fixed_reg p) h = ground arith
fields_bounds c (reuse which) h = ground arith

-- The packed word as a sum of fields.
abbrev packed : ℕ → ℕ → ℕ → ℕ → ℕ → ℕ → ℕ
packed v p c y k s = v + p * 2 ^ 20 + c * 2 ^ 25 + y * 2 ^ 26 + k * 2 ^ 28 + s * 2 ^ 29

kind_bits-lt : (k : OperandKind) → kind_bits k < 2
kind_bits-lt k = ground arith

pos_bits-lt : (s : OperandPos) → pos_bits s < 4
pos_bits-lt s = ground arith

class_bits-lt : (c : RegClass) → class_bits c < 2
class_bits-lt c = ground arith

pack_sum :
    (v p c y k s : ℕ)
    → v < 2 ^ 20
    → p < 32
    → c < 2
    → y < 4
    → k < 2
    → s < 4
    → bit_or
        (bit_or
          (bit_or (bit_or (bit_or (u32 v) (shl32 p 20)) (shl32 c 25)) (shl32 y 26))
          (shl32 k 28))
        (shl32 s 29)
      ≡ packed v p c y k s
pack_sum v p c y k s hv hp hc hy hk hs = ground (
  arith,
  bit_or_fields 20 v p,
  bit_or_fields 25 (v + p * 2 ^ 20) c,
  bit_or_fields 26 (v + p * 2 ^ 20 + c * 2 ^ 25) y,
  bit_or_fields 28 (v + p * 2 ^ 20 + c * 2 ^ 25 + y * 2 ^ 26) k,
  bit_or_fields 29 (v + p * 2 ^ 20 + c * 2 ^ 25 + y * 2 ^ 26 + k * 2 ^ 28) s,
)

new-eq-packed :
    (v : VReg) (p : OperandPolicy) (k : OperandKind) (s : OperandPos) (c : RegClass)
    → VReg.IsValid v
    → VReg.class v ≡ some c
    → Accepts c p
    → new v p k s
      ≡ some (record {
        bits =
            packed
              (VReg.vreg v)
              (preg_field p)
              (class_bits c)
              (policy_field p)
              (kind_bits k)
              (pos_bits s);
      })
unfolding new
new-eq-packed v p k s c ok e a =
    let (small, low, fields) = fields_bounds c p a in
    rw (e, fields)
      (ap (λ (w : ℕ). some (record { bits = w }))
        (pack_sum (VReg.vreg v) (preg_field p) (class_bits c) (policy_field p) (kind_bits k)
          (pos_bits s) (omega (arith, VReg.vreg-le v ok)) small (class_bits-lt c) low
          (kind_bits-lt k) (pos_bits-lt s)))

abbrev word : ℕ → OperandPolicy → RegClass → OperandKind → OperandPos → Operand
word v p c k s = record {
  bits = packed v (preg_field p) (class_bits c) (policy_field p) (kind_bits k) (pos_bits s);
}

module _ (v : ℕ) (p : OperandPolicy) (c : RegClass) (k : OperandKind) (s : OperandPos)
    (hv : v < 2 ^ 20) (a : Accepts c p) where
  class-word : class (word v p c k s) ≡ some c
  unfolding class
  class-word = ground (arith, fields_bounds c p a, bit_and_mask 1 ((word v p c k s).bits / 2 ^ 25))

  kind-word : kind (word v p c k s) ≡ some k
  unfolding kind
  kind-word = ground (arith, fields_bounds c p a, bit_and_mask 1 ((word v p c k s).bits / 2 ^ 28))

  pos-word : pos (word v p c k s) ≡ some s
  unfolding pos
  pos-word = ground (arith, fields_bounds c p a, bit_and_mask 2 ((word v p c k s).bits / 2 ^ 29))

  vreg-word : vreg (word v p c k s) ≡ VReg.new v c
  unfolding vreg
  vreg-word = ground (arith, fields_bounds c p a, class-word, bit_and_mask 20 (word v p c k s).bits)

  policy_field-word : bit_and ((word v p c k s).bits >>> 26) 3 ≡ policy_field p
  policy_field-word =
      ground (arith, fields_bounds c p a, bit_and_mask 2 ((word v p c k s).bits / 2 ^ 26))

  preg_field-word : bit_and ((word v p c k s).bits >>> 20) PReg.max ≡ preg_field p
  preg_field-word =
      ground (arith, fields_bounds c p a, bit_and_mask 5 ((word v p c k s).bits / 2 ^ 20))

PReg-η : (p : PReg) (c : RegClass) → p.class ≡ c → record { hw_enc = p.hw_enc; class = c } ≡ p
PReg-η p c e = ground arith

policy-word :
    (v : ℕ) (p : OperandPolicy) (c : RegClass) (k : OperandKind) (s : OperandPos)
    → v < 2 ^ 20
    → Accepts c p
    → policy (word v p c k s) ≡ some p
unfolding policy
policy-word v any c k s hv a = rw (policy_field-word v any c k s hv a)
policy-word v reg c k s hv a = rw (policy_field-word v reg c k s hv a)
policy-word v (fixed_reg p) c k s hv a = rw (
  policy_field-word v (fixed_reg p) c k s hv a,
  preg_field-word v (fixed_reg p) c k s hv a,
  class-word v (fixed_reg p) c k s hv a,
  PReg.new-some p.hw_enc c (a.0.enc_le),
  PReg-η p c a.1,
)
policy-word v (reuse which) c k s hv a =
    rw (policy_field-word v (reuse which) c k s hv a, preg_field-word v (reuse which) c k s hv a)

-- `Operand::new` accepts a policy whose class fits, and every accessor gives back what was packed.
pub operand_round_trip :
    (v : VReg) (p : OperandPolicy) (k : OperandKind) (s : OperandPos) (c : RegClass)
    → VReg.IsValid v
    → VReg.class v ≡ some c
    → Accepts c p
    → (o : Operand) × (new v p k s ≡ some o)
      × (vreg o ≡ some v)
      × (class o ≡ some c)
      × (policy o ≡ some p)
      × (kind o ≡ some k)
      × (pos o ≡ some s)
operand_round_trip v p k s c ok e a =
    let small : VReg.vreg v < 2 ^ 20 = omega (arith, VReg.vreg-le v ok) in
    let n = VReg.vreg v in
    (
      word n p c k s,
      new-eq-packed v p k s c ok e a,
      vreg-word n p c k s small a ∙ VReg.new-vreg v c ok e,
      class-word n p c k s small a,
      policy-word n p c k s small a,
      kind-word n p c k s small a,
      pos-word n p c k s small a,
    )

-- A fixed register of the other class, and a reused operand past the field, are refused.
pub operand_refuses :
    (v : VReg) (k : OperandKind) (s : OperandPos) (c : RegClass)
    → VReg.class v ≡ some c
    → ((p : PReg) → p.class ≢ c → new v (fixed_reg p) k s ≡ none)
      × ((which : ℕ) → PReg.max < which → new v (reuse which) k s ≡ none)
unfolding new
operand_refuses v k s c e = (λ p h. ground arith, λ which h. ground arith)
