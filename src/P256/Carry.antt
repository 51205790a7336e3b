-- ===== src/P256/Carry.antt =====
-- drivers/p256.c: what `p256_raw_add` and `p256_raw_sub` compute, carry and borrow included.
use minerva_os.Base.{
  ℕ, ◌+◌, ◌*◌, ◌/◌, ◌%◌, ◌^◌, ◌≤◌, ◌≡◌, [], ◌∷◌, arith, length, ltb, Bool-cases, inl, inr, ltb→lt,
  not_ltb→le,
}
use minerva_os.P256.Limbs.{Fe, value, radix, IsLimbs, sub_loop, add_loop, raw_sub, raw_add}

pub record Added (c : ℕ) (a b : Fe) (r : Fe × ℕ) : Type 0 where
  pub sum : value r.0 + r.1 * radix a ≡ value a + value b + c
  pub limbs : IsLimbs r.0
  pub carry : r.1 ≤ 1
  pub size : length r.0 ≡ length a

pub record Subtracted (c : ℕ) (a b : Fe) (r : Fe × ℕ) : Type 0 where
  pub diff : value r.0 + value b + c ≡ value a + r.1 * radix a
  pub limbs : IsLimbs r.0
  pub borrow : r.1 ≤ 1
  pub size : length r.0 ≡ length a

pub add_loop-Added :
    (c : ℕ) (a b : Fe)
    → c ≤ 1
    → IsLimbs a
    → IsLimbs b
    → length a ≡ length b
    → Added c a b (add_loop c a b)
unfolding add_loop
add_loop-Added c [] [] h p q e = omega arith
add_loop-Added c [] (y ∷ ys) h p q e = absurd (omega arith)
add_loop-Added c (x ∷ xs) [] h p q e = absurd (omega arith)
add_loop-Added c (x ∷ xs) (y ∷ ys) h p q e =
    let ih =
      add_loop-Added ((x + y + c) % 2 ^ 64 / 2 ^ 32) xs ys (omega arith) p.1 q.1 (omega arith) in
    record {
      sum = omega arith;
      limbs = (omega arith, ih.limbs);
      carry = ih.carry;
      size = omega arith;
    }

pub sub_loop-Subtracted :
    (c : ℕ) (a b : Fe)
    → c ≤ 1
    → IsLimbs a
    → IsLimbs b
    → length a ≡ length b
    → Subtracted c a b (sub_loop c a b)
unfolding sub_loop
sub_loop-Subtracted c [] [] h p q e = omega arith
sub_loop-Subtracted c [] (y ∷ ys) h p q e = absurd (omega arith)
sub_loop-Subtracted c (x ∷ xs) [] h p q e = absurd (omega arith)
sub_loop-Subtracted c (x ∷ xs) (y ∷ ys) h p q e = elim (Bool-cases (ltb x ((y + c) % 2 ^ 64))) [
  | inl lt ↦
      let ih = sub_loop-Subtracted 1 xs ys (omega arith) p.1 q.1 (omega arith) in
      let l = ltb→lt _ _ lt in
      rw lt (record {
        diff = omega arith;
        limbs = (omega arith, ih.limbs);
        borrow = ih.borrow;
        size = omega arith;
      })
  | inr ge ↦
      let ih = sub_loop-Subtracted 0 xs ys (omega arith) p.1 q.1 (omega arith) in
      let l = not_ltb→le _ _ ge in
      rw ge (record {
        diff = omega arith;
        limbs = (omega arith, ih.limbs);
        borrow = ih.borrow;
        size = omega arith;
      })
]

-- `p256_raw_add` of limbs of equal number: the sum, with the carry out of the top limb.
pub raw_add-Added :
    (a b : Fe) → IsLimbs a → IsLimbs b → length a ≡ length b → Added 0 a b (raw_add a b)
unfolding raw_add
raw_add-Added a b p q e = add_loop-Added 0 a b (omega arith) p q e

-- `p256_raw_sub` of limbs of equal number: the difference, with the borrow into the top limb.
pub raw_sub-Subtracted :
    (a b : Fe) → IsLimbs a → IsLimbs b → length a ≡ length b → Subtracted 0 a b (raw_sub a b)
unfolding raw_sub
raw_sub-Subtracted a b p q e = sub_loop-Subtracted 0 a b (omega arith) p q e
