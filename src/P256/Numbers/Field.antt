-- ===== src/P256/Numbers/Field.antt =====
-- drivers/p256.c: each field operation gives the limbs of the number that the rule gives.
use minerva_os.Base.{
  ℕ, ◌+◌, ◌-◌, ◌*◌, ◌%◌, ◌≡◌, refl, sym, ap, ap₂, ◌∙◌, arith, ◌==◌, ==_iff, Bool-cases, inl, inr,
}
use minerva_os.P256.Power.{power}
use minerva_os.P256.Limbs.{Fe, value, fe_zero, fe_one, fe_is_zero, or_loop}
use minerva_os.P256.Field.{
  fe_add, fe_sub, fe_mul, fe_inv, fe_square, fe_sub_small, fe_equal, fe_twice, fe_thrice, fe_four,
  fe_eight,
}
use minerva_os.P256.Field.Modular.{prime, fe_add-value, fe_sub-value, fe_mul-value, fe_inv-value}
use minerva_os.P256.Point.Closed.{
  IsReduced, fe_add-IsReduced, fe_sub-IsReduced, fe_mul-IsReduced, fe_inv-IsReduced,
}
use minerva_os.P256.Scalar.Modular.{or_loop-eq-zero}
use minerva_os.P256.Point.Curve.{fe_equal_iff}
use minerva_os.P256.Numbers.{plus, minus, times, inverse, twice}

-- The limbs stand for the number, which is below p.
pub record Is (a : Fe) (m : ℕ) : Type 0 where
  pub reduced : IsReduced a
  pub same : value a ≡ m

module _ {a b : Fe} {m n : ℕ} (p : Is a m) (q : Is b n) where
  pub fe_add-Is : Is (fe_add a b) (plus m n)
  unfolding plus
  fe_add-Is = record {
    reduced = fe_add-IsReduced p.reduced q.reduced;
    same =
        (fe_add-value a b p.reduced.is_fe q.reduced.is_fe
          (omega (arith, p.reduced.below, q.reduced.below))).0
        ∙ ap₂ (λ u v. (u + v) % prime) p.same q.same;
  }

  pub fe_sub-Is : Is (fe_sub a b) (minus m n)
  unfolding minus
  fe_sub-Is = record {
    reduced = fe_sub-IsReduced p.reduced q.reduced;
    same =
        (fe_sub-value a b p.reduced.is_fe q.reduced.is_fe p.reduced.below q.reduced.below).0
        ∙ ap₂ (λ u v. (u + prime - v) % prime) p.same q.same;
  }

  pub fe_mul-Is : Is (fe_mul a b) (times m n)
  unfolding times
  fe_mul-Is = record {
    reduced = fe_mul-IsReduced p.reduced q.reduced;
    same =
        (fe_mul-value a b p.reduced.is_fe q.reduced.is_fe).0
        ∙ ap₂ (λ u v. u * v % prime) p.same q.same;
  }

  pub fe_equal-Is : fe_equal a b ≡ (m == n)
  fe_equal-Is =
      let law = fe_equal_iff a b p.reduced.is_fe q.reduced.is_fe in
      elim (Bool-cases (fe_equal a b)) [
        | inl e ↦ e ∙ sym ((==_iff m n).1 (sym p.same ∙ law.0 e ∙ q.same))
        | inr e ↦ elim (Bool-cases (m == n)) [
          | inl f ↦ law.1 (p.same ∙ (==_iff m n).0 f ∙ sym q.same) ∙ sym f
          | inr f ↦ e ∙ sym f
        ]
      ]

module _ {a : Fe} {m : ℕ} (p : Is a m) where
  pub fe_inv-Is : Is (fe_inv a) (inverse m)
  unfolding inverse
  fe_inv-Is = record {
    reduced = fe_inv-IsReduced p.reduced;
    same = (fe_inv-value a p.reduced.is_fe).0 ∙ ap (λ u. power u (prime - 2) % prime) p.same;
  }

  pub fe_square-Is : Is (fe_square a) (times m m)
  unfolding fe_square
  fe_square-Is = fe_mul-Is p p

  pub fe_twice-Is : Is (fe_twice a) (twice m)
  unfolding fe_twice
  fe_twice-Is = fe_add-Is p p

  pub fe_thrice-Is : Is (fe_thrice a) (plus (plus m m) m)
  unfolding fe_thrice
  fe_thrice-Is = fe_add-Is (fe_add-Is p p) p

  pub fe_sub_3-Is : Is (fe_sub_small a 3) (minus m 3)
  unfolding fe_sub_small
  fe_sub_3-Is = fe_sub-Is p (record { reduced = omega arith; same = refl })

module _ {a : Fe} {m : ℕ} (p : Is a m) where
  pub fe_four-Is : Is (fe_four a) (twice (twice m))
  unfolding fe_four
  fe_four-Is = fe_twice-Is (fe_twice-Is p)

module _ {a : Fe} {m : ℕ} (p : Is a m) where
  pub fe_eight-Is : Is (fe_eight a) (twice (twice (twice m)))
  unfolding fe_eight
  fe_eight-Is = fe_twice-Is (fe_four-Is p)

pub fe_zero-Is : Is fe_zero 0
unfolding fe_zero
fe_zero-Is = record { reduced = omega arith; same = refl }

pub fe_one-Is : Is fe_one 1
unfolding fe_one
fe_one-Is = record { reduced = omega arith; same = refl }

pub fe_is_zero-Is : {a : Fe} {m : ℕ} → Is a m → fe_is_zero a ≡ (m == 0)
unfolding fe_is_zero
fe_is_zero-Is {a} {m} p =
    let law = or_loop-eq-zero a in
    elim (Bool-cases (or_loop 0 a == 0)) [
      | inl e ↦ e ∙ sym ((==_iff m 0).1 (sym p.same ∙ law.0 ((==_iff _ 0).0 e)))
      | inr e ↦ elim (Bool-cases (m == 0)) [
        | inl f ↦ (==_iff _ 0).1 (law.1 (p.same ∙ (==_iff m 0).0 f)) ∙ sym f
        | inr f ↦ e ∙ sym f
      ]
    ]
