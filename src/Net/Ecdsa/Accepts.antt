-- ===== src/Net/Ecdsa/Accepts.antt =====
-- drivers/net.c: which signatures `net_tls_verify_ecdsa_p256` accepts.
use minerva_os.Base.{
  ℕ, ◌-◌, ◌*◌, ◌%◌, ◌<◌, ◌≡◌, ◌↔◌, inl, inr, refl, sym, ap, ap₂, ◌∙◌, List, length, some, Bool,
  true, false, Bool-cases, arith,
}
use minerva_os.P256.Limbs.{Fe, IsFe, value}
use minerva_os.P256.Compare.{value-injective}
use minerva_os.P256.Power.{power}
use minerva_os.P256.Bytes.{IsBytes, be_value, fe_to_be32, fe_from_be32, fe_from_be32-value}
use minerva_os.P256.Field.{fe_equal}
use minerva_os.P256.Scalar.{scalar_valid_be32, scalar_from_be32, scalar_inv, scalar_mul}
use minerva_os.P256.Scalar.Modular.{
  order, scalar_mul-value, scalar_inv-value, scalar_from_be32-value, scalar_from_fe-value,
  scalar_valid_be32_iff,
}
use minerva_os.P256.Point.{Point, point_from_be32, point_add, base_point}
use minerva_os.P256.Numbers.{Place, sum, multiple}
use minerva_os.P256.Numbers.Points.{
  At, generator, base_point-At, point_add-At, point_mul_be32_projective-At,
}
use minerva_os.P256.Point.Closed.{IsPoint, point_add-IsPoint}
use minerva_os.P256.Point.Curve.{
  OnCurve, point_from_be32_lem, fe_equal_iff, decoded-IsPoint, base_point_on_curve,
}
use minerva_os.P256.Jacobian.{point_mul_be32_projective}
use minerva_os.P256.Jacobian.Closed.{point_mul_be32_projective-IsPoint}
use minerva_os.Net.Ecdsa.{signature_sum, check_v, check_sum, net_tls_verify_ecdsa_p256, fe_prefix32}

-- `u1 G + u2 Q`, by the code's operations on points.
abbrev combination : Point → Fe → Fe → Point
combination q u1 u2 =
    point_add (point_mul_be32_projective base_point (fe_to_be32 u1))
      (point_mul_be32_projective q (fe_to_be32 u2))

-- The key, as numbers.
abbrev pub key_place : List ℕ → List ℕ → Place
key_place pub_x pub_y = record { x = be_value 0 pub_x; y = be_value 0 pub_y; infinity = false }

-- `u1 G + u2 Q` by the rules on numbers.
abbrev pub total : List ℕ → List ℕ → Fe → Fe → Place
total pub_x pub_y u1 u2 =
    sum (multiple generator (fe_to_be32 u1)) (multiple (key_place pub_x pub_y) (fe_to_be32 u2))

-- A signature that the standard accepts, by numbers: with r and s from 1 to n - 1, a key on the curve,
-- u1 = z / s and u2 = r / s modulo n, where 1 / s is s to the power n - 2, the place u1 G + u2 Q is not
-- at infinity and its x modulo n is r.
pub record Accepts (pub_x pub_y sig_r sig_s hash : List ℕ) : Type 0 where
  pub r_low : 0 < be_value 0 sig_r
  pub r_high : be_value 0 sig_r < order
  pub s_low : 0 < be_value 0 sig_s
  pub s_high : be_value 0 sig_s < order
  pub key : OnCurve pub_x pub_y
  pub u1 : Fe
  pub u2 : Fe
  pub u1_is : IsFe u1
  pub u2_is : IsFe u2
  pub u1_value :
      value u1 ≡ be_value 0 hash % order * (power (be_value 0 sig_s) (order - 2) % order) % order
  pub u2_value :
      value u2 ≡ be_value 0 sig_r * (power (be_value 0 sig_s) (order - 2) % order) % order
  pub finite : (total pub_x pub_y u1 u2).infinity ≡ false
  pub x_is_r : (total pub_x pub_y u1 u2).x % order ≡ be_value 0 sig_r

-- The code's sum of points is that of the numbers.
combination-At :
    (pub_x pub_y : List ℕ) (u1 u2 : Fe)
    → IsBytes pub_x
    → IsBytes pub_y
    → length pub_x ≡ 32
    → length pub_y ≡ 32
    → IsPoint (record { x = fe_from_be32 pub_x; y = fe_from_be32 pub_y; infinity = false })
    → At
        (combination
          (record { x = fe_from_be32 pub_x; y = fe_from_be32 pub_y; infinity = false })
          u1
          u2)
        (total pub_x pub_y u1 u2)
combination-At pub_x pub_y u1 u2 hx hy lx ly p =
    let key : At (record { x = fe_from_be32 pub_x; y = fe_from_be32 pub_y; infinity = false })
        (key_place pub_x pub_y) =
      record {
        x = record { reduced = p.x; same = (fe_from_be32-value pub_x hx lx).0 };
        y = record { reduced = p.y; same = (fe_from_be32-value pub_y hy ly).0 };
        infinity = refl;
      } in
    point_add-At _ _ _ _
      (point_mul_be32_projective-At base_point generator (fe_to_be32 u1) base_point-At)
      (point_mul_be32_projective-At _ (key_place pub_x pub_y) (fe_to_be32 u2) key)

-- A scalar between 1 and n - 1 is read as it stands.
read_scalar :
    (src : List ℕ)
    → IsBytes src
    → length src ≡ 32
    → be_value 0 src < order
    → (r : Fe) × (scalar_from_be32 src ≡ some r) × (value r ≡ be_value 0 src) × IsFe r
read_scalar src h s below =
    let (r, e, v, p) = scalar_from_be32-value src h s in (r, e, v ∙ small (be_value 0 src) below, p)
  where
    small : (a : ℕ) → a < order → a % order ≡ a
    small a h = omega arith

signature_sum-IsPoint : (q : Point) (r s z : Fe) → IsPoint q → IsPoint (signature_sum q r s z)
unfolding signature_sum
signature_sum-IsPoint q r s z h =
    point_add-IsPoint _ _ (point_mul_be32_projective-IsPoint _ _ base_point_on_curve.0)
      (point_mul_be32_projective-IsPoint _ _ h)

-- The two scalars of the code's sum, as numbers.
module _ (r s z : Fe) (rp : IsFe r) (sp : IsFe s) (zp : IsFe z) where
  scalar-value :
      (a : Fe)
      → IsFe a
      → (value (scalar_mul a (scalar_inv s))
          ≡ value a * (power (value s) (order - 2) % order) % order)
        × IsFe (scalar_mul a (scalar_inv s))
  scalar-value a p =
      let inverse = scalar_inv-value s sp in
      let product = scalar_mul-value a (scalar_inv s) p inverse.2 in
      (product.0 ∙ ap (λ w. value a * w % order) inverse.0, product.1)

  signature_sum-combination :
      (q : Point) (u1 u2 : Fe)
      → IsFe u1
      → IsFe u2
      → value u1 ≡ value z * (power (value s) (order - 2) % order) % order
      → value u2 ≡ value r * (power (value s) (order - 2) % order) % order
      → signature_sum q r s z ≡ combination q u1 u2
  unfolding signature_sum
  signature_sum-combination q u1 u2 p1 p2 e1 e2 =
      let (f1, m1) = scalar-value z zp in
      let (f2, m2) = scalar-value r rp in
      ap₂ (combination q)
        (value-injective _ u1 m1.limbs p1.limbs (m1.size ∙ sym p1.size) (f1 ∙ sym e1))
        (value-injective _ u2 m2.limbs p2.limbs (m2.size ∙ sym p2.size) (f2 ∙ sym e2))

  -- What the code's sum decides.
  check_sum_lem :
      (q : Point)
      → IsPoint q
      → (b : Bool) × (v : ℕ) × (check_sum q (some r) (some s) (some z) ≡ some (b, v))
        × ((b ≡ true) ↔ (
            ((signature_sum q r s z).infinity ≡ false)
            × (value (signature_sum q r s z).x % order ≡ value r)))
  unfolding check_sum check_v
  check_sum_lem q h =
      let sum = signature_sum q r s z in
      let (v, e, same, p) = scalar_from_fe-value sum.x (signature_sum-IsPoint q r s z h).x.is_fe in
      let equal = fe_equal_iff v r p rp in
      elim (Bool-cases sum.infinity) [
        | inl far ↦ (false, 0, rw far refl, (λ c. cc, λ c. sym c.0 ∙ far))
        | inr near ↦ (
          fe_equal v r,
          fe_prefix32 v,
          rw (near, e) refl,
          (λ c. (near, sym same ∙ equal.0 c), λ c. equal.1 (same ∙ c.1)),
        )
      ]

-- For five strings of 32 bytes the verification ends, and it accepts exactly the signatures that
-- `Accepts` describes.
pub net_tls_verify_ecdsa_p256-Accepts :
    (pub_x pub_y sig_r sig_s hash : List ℕ)
    → IsBytes pub_x
    → IsBytes pub_y
    → IsBytes sig_r
    → IsBytes sig_s
    → IsBytes hash
    → length pub_x ≡ 32
    → length pub_y ≡ 32
    → length sig_r ≡ 32
    → length sig_s ≡ 32
    → length hash ≡ 32
    → (b : Bool) × (v : ℕ) × (net_tls_verify_ecdsa_p256 pub_x pub_y sig_r sig_s hash ≡ some (b, v))
      × ((b ≡ true) ↔ Accepts pub_x pub_y sig_r sig_s hash)
unfolding net_tls_verify_ecdsa_p256
net_tls_verify_ecdsa_p256-Accepts pub_x pub_y sig_r sig_s hash hx hy hr hs hh lx ly lr ls lh =
    let vr = scalar_valid_be32_iff sig_r hr lr in
    let vs = scalar_valid_be32_iff sig_s hs ls in
    let key = point_from_be32_lem pub_x pub_y hx hy lx ly in
    elim (Bool-cases (scalar_valid_be32 sig_r)) [
      | inr n ↦ (false, 0, rw n refl, (λ c. cc, λ a. sym n ∙ vr.1 (a.r_low, a.r_high)))
      | inl er ↦ elim (Bool-cases (scalar_valid_be32 sig_s)) [
        | inr n ↦ (false, 0, rw (er, n) refl, (λ c. cc, λ a. sym n ∙ vs.1 (a.s_low, a.s_high)))
        | inl es ↦ elim (Bool-cases (point_from_be32 pub_x pub_y).1) [
          | inr n ↦ (false, 0, rw (er, es, n) refl, (λ c. cc, λ a. sym n ∙ key.0.1 a.key))
          | inl ek ↦
              let (r, fr, wr, pr) = read_scalar sig_r hr lr (vr.0 er).1 in
              let (s, fs, ws, ps) = read_scalar sig_s hs ls (vs.0 es).1 in
              let (z, fz, wz, pz) = scalar_from_be32-value hash hh lh in
              let curve = key.0.0 ek in
              let point = decoded-IsPoint pub_x pub_y hx hy lx ly curve.0 curve.1 in
              let (b, v, made, iff) = check_sum_lem r s z pr ps pz _ point in
              let placed = λ (u1 u2 : Fe). combination-At pub_x pub_y u1 u2 hx hy lx ly point in
              let times = λ (m k : ℕ). m * (power k (order - 2) % order) % order in
              let sums = λ (u1 u2 : Fe).
                signature_sum-combination r s z pr ps pz
                  (record { x = fe_from_be32 pub_x; y = fe_from_be32 pub_y; infinity = false }) u1
                  u2 in
              (
                b,
                v,
                rw (er, es, ek, key.1 ek, fr, fs, fz) made,
                (
                  λ c.
                      let (near, same) = iff.0 c in
                      let (f1, m1) = scalar-value r s z pr ps pz z pz in
                      let (f2, m2) = scalar-value r s z pr ps pz r pr in
                      let same_point = sums _ _ m1 m2 f1 f2 in
                      record {
                        r_low = (vr.0 er).0;
                        r_high = (vr.0 er).1;
                        s_low = (vs.0 es).0;
                        s_high = (vs.0 es).1;
                        key = curve;
                        u1 = scalar_mul z (scalar_inv s);
                        u2 = scalar_mul r (scalar_inv s);
                        u1_is = m1;
                        u2_is = m2;
                        u1_value = f1 ∙ ap₂ times wz ws;
                        u2_value = f2 ∙ ap₂ times wr ws;
                        finite =
                            sym (placed _ _).infinity
                            ∙ ap (λ p. p.infinity) (sym same_point)
                            ∙ near;
                        x_is_r =
                            sym (ap (λ k. k % order) (placed _ _).x.same)
                            ∙ ap (λ p. value p.x % order) (sym same_point)
                            ∙ same
                            ∙ wr;
                      },
                  λ a.
                      let same_point =
                        sums a.u1 a.u2 a.u1_is a.u2_is (a.u1_value ∙ sym (ap₂ times wz ws))
                          (a.u2_value ∙ sym (ap₂ times wr ws)) in
                      iff.1 (
                        ap (λ p. p.infinity) same_point ∙ (placed a.u1 a.u2).infinity ∙ a.finite,
                        ap (λ p. value p.x % order) same_point
                            ∙ ap (λ k. k % order) (placed a.u1 a.u2).x.same
                            ∙ a.x_is_r
                            ∙ sym wr,
                      ),
                ),
              )
        ]
      ]
    ]
