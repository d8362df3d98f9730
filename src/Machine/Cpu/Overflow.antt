-- ===== src/Machine/Cpu/Overflow.antt =====
-- ADD, ADDI and SUB of `OneInstruction` against integer arithmetic, and the shifts to the right
-- (NachOS-4.0/code/machine/mipssim.cc).
use hcmus_csc10007_operating.Common.{
  ℕ, zero, suc, true, false, ◌-◌, ◌*◌, ◌^◌, ◌/◌, ◌%◌, ◌≤◌, ◌<◌, ◌≡◌, ◌≢◌, refl, ap, Bool, not, ◌&&◌,
  leb, arith, if◌then◌else◌,
}
use native.Mathlib.Nat.{div-add-mod}
use hcmus_csc10007_operating.Common.Bits.{pow_step, pow_pos}
use hcmus_csc10007_operating.Common.Int.{ℤ, pos, negsuc, pos_part, neg_part, ◌+ℤ◌, ◌-ℤ◌}
use hcmus_csc10007_operating.Common.Word.{
  word_mod, sign_bit, signed, add32, sub32, sign_differs, sar32, shr32,
}
use hcmus_csc10007_operating.Machine.State.{
  Machine, M, Outcome, done, trap, abort, raise_exception, overflow_exception,
}
use hcmus_csc10007_operating.Machine.Decode.{Instruction}
use hcmus_csc10007_operating.Machine.Cpu.Locals.{Effects, assign}
use hcmus_csc10007_operating.Machine.Cpu.Alu.{
  add_overflow, addi_overflow, sub_overflow, exec_add, exec_addi, exec_sub, exec_sra, exec_srl,
}

-- The range of an `int`.
abbrev pub fits : ℤ → Bool
fits z = leb (pos_part z) (sign_bit - 1) && leb (neg_part z) sign_bit

-- The pattern of an integer.
abbrev pub pattern_of : ℤ → ℕ
pattern_of (pos n) = n % word_mod
pattern_of (negsuc n) = word_mod - 1 - n % word_mod

module _ (a b : ℕ) (ha : a < word_mod) (hb : b < word_mod) where
  add_overflow_lem : add_overflow a b ≡ not (fits (signed a +ℤ signed b))
  unfolding add_overflow ◌+ℤ◌
  add_overflow_lem =
      ground (arith, sign_differs a b ha hb, sign_differs a (add32 a b) ha (omega arith))

  addi_overflow_lem : addi_overflow a b ≡ not (fits (signed a +ℤ signed b))
  unfolding addi_overflow ◌+ℤ◌
  addi_overflow_lem =
      ground (arith, sign_differs a b ha hb, sign_differs b (add32 a b) hb (omega arith))

  sub_overflow_lem : sub_overflow a b ≡ not (fits (signed a -ℤ signed b))
  unfolding sub_overflow ◌-ℤ◌
  sub_overflow_lem =
      ground (arith, sign_differs a b ha hb, sign_differs a (sub32 a b) ha (omega arith))

  add32_lem : add32 a b ≡ pattern_of (signed a +ℤ signed b)
  unfolding ◌+ℤ◌
  add32_lem = ground arith

  sub32_lem : sub32 a b ≡ pattern_of (signed a -ℤ signed b)
  unfolding ◌-ℤ◌
  sub32_lem = ground arith

-- What a signed instruction with the integer result `z` and the destination `r` is to do.
abbrev pub checked : ℤ → ℕ → Effects → M Effects
checked z r p m =
    if fits z then assign r (pattern_of z) p m else raise_exception overflow_exception 0 m

if-not {ℓ} : {A : Type ℓ} (b : Bool) (x y : A) → (if not b then x else y) ≡ (if b then y else x)
if-not true x y = refl
if-not false x y = refl

-- The wrapped results of a section's instruction on registers that hold words.
module _ (i : Instruction) (p : Effects) (m : Machine)
    (words : (r : ℕ) → m.registers r < word_mod) where
  -- Where every register holds a word, ADD writes the sum of its two signed operands if that fits
  -- 32 bits, and otherwise raises OverflowException without writing it.
  pub exec_add-checked :
      exec_add i p m ≡ checked (signed (m.registers i.rs) +ℤ signed (m.registers i.rt)) i.rd p m
  unfolding exec_add
  exec_add-checked =
      rw (add_overflow_lem _ _ (words i.rs) (words i.rt), add32_lem _ _ (words i.rs) (words i.rt))
        (if-not (fits (signed (m.registers i.rs) +ℤ signed (m.registers i.rt))) _ _)

  -- Likewise ADDI, whose second operand is the sign-extended immediate, though its test looks at
  -- the sign of the immediate and not of the register.
  pub exec_addi-checked :
      i.extra < word_mod
      → exec_addi i p m ≡ checked (signed (m.registers i.rs) +ℤ signed i.extra) i.rt p m
  unfolding exec_addi
  exec_addi-checked e =
      rw (addi_overflow_lem _ _ (words i.rs) e, add32_lem _ _ (words i.rs) e)
        (if-not (fits (signed (m.registers i.rs) +ℤ signed i.extra)) _ _)

  -- Likewise SUB, with the difference.
  pub exec_sub-checked :
      exec_sub i p m ≡ checked (signed (m.registers i.rs) -ℤ signed (m.registers i.rt)) i.rd p m
  unfolding exec_sub
  exec_sub-checked =
      rw (sub_overflow_lem _ _ (words i.rs) (words i.rt), sub32_lem _ _ (words i.rs) (words i.rt))
        (if-not (fits (signed (m.registers i.rs) -ℤ signed (m.registers i.rt))) _ _)

pow_mono_one : (s : ℕ) → 0 < s → 2 ≤ 2 ^ s
pow_mono_one zero h = elim h [ ]
pow_mono_one (suc s) h = omega (arith, pow_step s, pow_pos s)

div_half : (x q : ℕ) → 2 ≤ q → 2 * (x / q) ≤ x
div_half x q h = let g : 2 * (x / q) ≤ q * (x / q) = grind arith in omega (arith, div-add-mod x q)

sar-ne-shr : (a s : ℕ) → sign_bit ≤ a → a < word_mod → 0 < s → sar32 a s ≢ shr32 a s
sar-ne-shr a s h k l = λ e. ground (
  arith,
  e,
  div_half a (2 ^ s) (pow_mono_one s l),
  div_half (word_mod - 1 - a) (2 ^ s) (pow_mono_one s l),
)

-- The register `r` of a result.
abbrev register_of : ℕ → Outcome Effects → ℕ
register_of r (done p m) = m.registers r
register_of r (trap e m) = 0
register_of r abort = 0

assign-injective : (r v w : ℕ) (p : Effects) (m : Machine) → assign r v p m ≡ assign r w p m → v ≡ w
unfolding assign
assign-injective r v w p m h = let e = ap (register_of r) h in ground arith

-- SRL writes what SRA writes; on a register with its sign bit set and a shift other than zero that
-- is never the logical shift.
pub exec_srl-ne-logical :
    (i : Instruction) (p : Effects) (m : Machine)
    → sign_bit ≤ m.registers i.rt
    → m.registers i.rt < word_mod
    → 0 < i.extra
    → (exec_srl i p m ≡ exec_sra i p m)
      × (exec_srl i p m ≢ assign i.rd (shr32 (m.registers i.rt) i.extra) p m)
unfolding exec_srl exec_sra
exec_srl-ne-logical i p m h k l =
    (refl, λ e. sar-ne-shr _ i.extra h k l (assign-injective i.rd _ _ p m e))
