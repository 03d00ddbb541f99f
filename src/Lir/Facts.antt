-- ===== src/Lir/Facts.antt =====
-- src/backend/lir.rs: the known bits of results, instructions and phis are true of their values.
use aziky.Prelude.{
  ℕ, ◌+◌, ◌-◌, ◌*◌, ◌%◌, ◌^◌, ◌<◌, ◌≡◌, refl, arith, bit_and, bit_or, bit_xor, false, some, ltb,
  if◌then◌else◌, inl, inr, Bool-cases, ltb→lt,
}
use aziky.Prelude.Bits.{and_mask, bitwise-lt}
use aziky.Prelude.Digits.{digit-le, digit-and, digit-or, digit-xor}
use aziky.Ir.{
  IsWord, RuntimeOperand, slot, imm, RuntimeBinOp, add, sub, mul, div_unsigned, div_signed,
  mod_unsigned, mod_signed, op_and, op_or, op_xor, shl, shr_unsigned, shr_signed,
}
use aziky.Word.{wrapping_add, wrapping_sub, wrapping_mul, shift_left, shift_right}
use aziky.Superopt.Evaluate.{Environment, operand_value, evaluate_binop}
use aziky.Lir.KnownBits.{
  KnownBits, unknown, is_imm, known_bits_for_shl, known_bits_for_shr, known_bits_for_binop,
  known_bits_for_add, known_bits_for_mul,
}
use aziky.Lir.Described.{
  Describes, unknown-Describes, constant-Describes, is_imm→value, add_sound, shl_sound, shr_sound,
}

module _ (lhs rhs : KnownBits) (x y : ℕ) (dx : Describes lhs x) (dy : Describes rhs y) where
  pub and_sound :
      Describes
        (record {
          zero_bits = bit_or lhs.zero_bits rhs.zero_bits;
          one_bits = bit_and lhs.one_bits rhs.one_bits;
        })
        (bit_and x y)
  and_sound = (
    (bitwise-lt 64 _ _ dx.0 dy.0).1,
    (bitwise-lt 64 _ _ dx.1 dy.1).0,
    λ i p.
        let u = dx.2 i p in
        let v = dy.2 i p in
        rw
          (
            digit-or lhs.zero_bits rhs.zero_bits i,
            digit-and x y i,
            digit-and lhs.one_bits rhs.one_bits i,
          )
          (omega arith, omega arith),
  )

  or_sound :
      Describes
        (record {
          zero_bits = bit_and lhs.zero_bits rhs.zero_bits;
          one_bits = bit_or lhs.one_bits rhs.one_bits;
        })
        (bit_or x y)
  or_sound = (
    (bitwise-lt 64 _ _ dx.0 dy.0).0,
    (bitwise-lt 64 _ _ dx.1 dy.1).1,
    λ i p.
        let u = dx.2 i p in
        let v = dy.2 i p in
        rw
          (
            digit-and lhs.zero_bits rhs.zero_bits i,
            digit-or x y i,
            digit-or lhs.one_bits rhs.one_bits i,
          )
          (omega arith, omega arith),
  )

  xor_sound :
      Describes
        (record {
          zero_bits =
              bit_or (bit_and lhs.zero_bits rhs.zero_bits) (bit_and lhs.one_bits rhs.one_bits);
          one_bits =
              bit_or (bit_and lhs.zero_bits rhs.one_bits) (bit_and lhs.one_bits rhs.zero_bits);
        })
        (bit_xor x y)
  xor_sound = (
    (bitwise-lt 64 _ _ (bitwise-lt 64 _ _ dx.0 dy.0).0 (bitwise-lt 64 _ _ dx.1 dy.1).0).1,
    (bitwise-lt 64 _ _ (bitwise-lt 64 _ _ dx.0 dy.1).0 (bitwise-lt 64 _ _ dx.1 dy.0).0).1,
    λ i p.
        let u = dx.2 i p in
        let v = dy.2 i p in
        rw
          (
            digit-or (bit_and lhs.zero_bits rhs.zero_bits) (bit_and lhs.one_bits rhs.one_bits) i,
            digit-or (bit_and lhs.zero_bits rhs.one_bits) (bit_and lhs.one_bits rhs.zero_bits) i,
            digit-and lhs.zero_bits rhs.zero_bits i,
            digit-and lhs.one_bits rhs.one_bits i,
            digit-and lhs.zero_bits rhs.one_bits i,
            digit-and lhs.one_bits rhs.zero_bits i,
            digit-xor x y i,
          )
          (omega (arith, digit-le x i, digit-le y i), omega (arith, digit-le x i, digit-le y i)),
  )

pub some_injective : {a b : ℕ} → some a ≡ some b → a ≡ b
some_injective e = ground (arith, e)

-- A shift count below 64 is used as it is.
pub count_mask : (s : ℕ) → s < 64 → bit_and s 63 ≡ s
count_mask s p = omega (arith, and_mask 6 s)

module _ (environment : Environment) where
  shift_sound :
      (f : ℕ → ℕ → ℕ) (known : RuntimeOperand → KnownBits → KnownBits)
      → ((s : ℕ) (fact : KnownBits) → (ltb s 64 ≡ false) → known (imm s) fact ≡ unknown)
      → ((s : ℕ) (fact : KnownBits) → known (slot s) fact ≡ unknown)
      → (lhs : KnownBits) (x y : ℕ) (o : RuntimeOperand)
      → ((s : ℕ) → s < 64 → Describes (known (imm s) lhs) (f x s))
      → operand_value environment o ≡ some y
      → Describes (known o lhs) (f x (bit_and y 63))
  shift_sound f known big free lhs x y (slot s) sound e = rw (free s lhs) (unknown-Describes _)
  shift_sound f known big free lhs x y (imm s) sound e = elim (Bool-cases (ltb s 64)) [
    | inl below ↦
        let p = ltb→lt s 64 below in
        let shown : s ≡ y = ground (arith, e) in
        let same : bit_and y 63 ≡ s = rw (← shown) (count_mask s p) in rw same (sound s p)
    | inr above ↦ rw (big s lhs above) (unknown-Describes _)
  ]

  known_add_sound :
      (lhs_operand rhs_operand : RuntimeOperand) (lhs rhs : KnownBits) (x y : ℕ)
      → operand_value environment lhs_operand ≡ some x
      → operand_value environment rhs_operand ≡ some y
      → IsWord x
      → IsWord y
      → Describes lhs x
      → Describes rhs y
      → Describes (known_bits_for_add lhs_operand rhs_operand lhs rhs) (wrapping_add x y)
  unfolding wrapping_add
  known_add_sound l r lhs rhs x y p q wx wy dx dy = elim (Bool-cases (is_imm r 0)) [
    | inl right ↦ rw right (
        let same : (x + y) % 2 ^ 64 ≡ x = omega (arith, is_imm→value environment r 0 y right q) in
        rw same dx)
    | inr other ↦ rw other (elim (Bool-cases (is_imm l 0)) [
      | inl left ↦ rw left (
          let same : (x + y) % 2 ^ 64 ≡ y = omega (arith, is_imm→value environment l 0 x left p) in
          rw same dy)
      | inr neither ↦ rw neither (add_sound lhs rhs x y wx wy dx dy)
    ])
  ]

  known_sub_sound :
      (rhs_operand : RuntimeOperand) (lhs : KnownBits) (x y : ℕ)
      → operand_value environment rhs_operand ≡ some y
      → IsWord x
      → Describes lhs x
      → Describes (if is_imm rhs_operand 0 then lhs else unknown) (wrapping_sub x y)
  unfolding wrapping_sub
  known_sub_sound r lhs x y q wx dx = elim (Bool-cases (is_imm r 0)) [
    | inl right ↦ rw right (
        let same : (x + 2 ^ 64 - y) % 2 ^ 64 ≡ x =
          omega (arith, is_imm→value environment r 0 y right q) in
        rw same dx)
    | inr other ↦ rw other (unknown-Describes _)
  ]

  known_mul_sound :
      (lhs_operand rhs_operand : RuntimeOperand) (lhs rhs : KnownBits) (x y : ℕ)
      → operand_value environment lhs_operand ≡ some x
      → operand_value environment rhs_operand ≡ some y
      → IsWord x
      → IsWord y
      → Describes lhs x
      → Describes rhs y
      → Describes (known_bits_for_mul lhs_operand rhs_operand lhs rhs) (wrapping_mul x y)
  unfolding wrapping_mul
  known_mul_sound l r lhs rhs x y p q wx wy dx dy = elim (Bool-cases (is_imm r 0)) [
    | inl right ↦ rw right (
        let none_left : x * y % 2 ^ 64 ≡ 0 =
          rw (is_imm→value environment r 0 y right q) (omega arith) in
        rw none_left (constant-Describes 0 (omega arith)))
    | inr r0 ↦ rw r0 (elim (Bool-cases (is_imm l 0)) [
      | inl left ↦ rw left (
          let none_left : x * y % 2 ^ 64 ≡ 0 =
            rw (is_imm→value environment l 0 x left p) (omega arith) in
          rw none_left (constant-Describes 0 (omega arith)))
      | inr l0 ↦ rw l0 (elim (Bool-cases (is_imm r 1)) [
        | inl right ↦ rw right (
            let same : x * y % 2 ^ 64 ≡ x =
              rw (is_imm→value environment r 1 y right q) (omega arith) in
            rw same dx)
        | inr r1 ↦ rw r1 (elim (Bool-cases (is_imm l 1)) [
          | inl left ↦ rw left (
              let same : x * y % 2 ^ 64 ≡ y =
                rw (is_imm→value environment l 1 x left p) (omega arith) in
              rw same dy)
          | inr l1 ↦ rw l1 (unknown-Describes _)
        ])
      ])
    ])
  ]

  -- For words x and y that the facts lhs and rhs describe, the known bits of an operation describe
  -- the value that it evaluates to.
  pub known_bits_for_binop_sound :
      (op : RuntimeBinOp) (lhs_operand rhs_operand : RuntimeOperand) (lhs rhs : KnownBits)
      (x y r : ℕ)
      → operand_value environment lhs_operand ≡ some x
      → operand_value environment rhs_operand ≡ some y
      → IsWord x
      → IsWord y
      → Describes lhs x
      → Describes rhs y
      → evaluate_binop op x y ≡ some r
      → Describes (known_bits_for_binop op lhs_operand rhs_operand lhs rhs) r
  unfolding known_bits_for_binop evaluate_binop
  known_bits_for_binop_sound add l r lhs rhs x y v p q wx wy dx dy e =
      rw (← some_injective e) (known_add_sound l r lhs rhs x y p q wx wy dx dy)
  known_bits_for_binop_sound sub l r lhs rhs x y v p q wx wy dx dy e =
      rw (← some_injective e) (known_sub_sound r lhs x y q wx dx)
  known_bits_for_binop_sound mul l r lhs rhs x y v p q wx wy dx dy e =
      rw (← some_injective e) (known_mul_sound l r lhs rhs x y p q wx wy dx dy)
  known_bits_for_binop_sound op_and l r lhs rhs x y v p q wx wy dx dy e =
      rw (← some_injective e) (and_sound lhs rhs x y dx dy)
  known_bits_for_binop_sound op_or l r lhs rhs x y v p q wx wy dx dy e =
      rw (← some_injective e) (or_sound lhs rhs x y dx dy)
  known_bits_for_binop_sound op_xor l r lhs rhs x y v p q wx wy dx dy e =
      rw (← some_injective e) (xor_sound lhs rhs x y dx dy)
  known_bits_for_binop_sound shl l r lhs rhs x y v p q wx wy dx dy e = rw (← some_injective e) (
      shift_sound shift_left known_bits_for_shl (λ s fact h. rw h refl) (λ s fact. refl) lhs x y r
        (λ s b. shl_sound lhs x s dx b) q)
  known_bits_for_binop_sound shr_unsigned l r lhs rhs x y v p q wx wy dx dy e =
      rw (← some_injective e) (
        shift_sound shift_right known_bits_for_shr (λ s fact h. rw h refl) (λ s fact. refl) lhs x y
          r (λ s b. shr_sound lhs x s wx dx b) q)
  known_bits_for_binop_sound div_unsigned l r lhs rhs x y v p q wx wy dx dy e = unknown-Describes v
  known_bits_for_binop_sound div_signed l r lhs rhs x y v p q wx wy dx dy e = unknown-Describes v
  known_bits_for_binop_sound mod_unsigned l r lhs rhs x y v p q wx wy dx dy e = unknown-Describes v
  known_bits_for_binop_sound mod_signed l r lhs rhs x y v p q wx wy dx dy e = unknown-Describes v
  known_bits_for_binop_sound shr_signed l r lhs rhs x y v p q wx wy dx dy e = unknown-Describes v
