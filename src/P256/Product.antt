-- ===== src/P256/Product.antt =====
-- drivers/p256.c: the schoolbook product of `p256_fe_mul` and `p256_scalar_mul`.
-- A row works on the limbs of `product` from its own index on.
use minerva_os.Base.{
  ℕ, zero, suc, ◌+◌, ◌*◌, ◌/◌, ◌%◌, ◌^◌, ◌<◌, ◌≤◌, ◌≡◌, refl, List, [], ◌∷◌, arith, length,
  replicate, ◌==◌, if◌then◌else◌, Bool-cases, inl, inr,
}
use minerva_os.P256.Limbs.{Fe, value, radix, IsLimbs, IsFe}
use minerva_os.P256.Compare.{value-lt-radix, radix-cong}

-- `for (k = i + 8; carry && k < 16; k++)`
unfoldable pub carry_loop : ℕ → List ℕ → List ℕ
carry_loop carry [] = []
carry_loop carry (p ∷ ps) =
    let cur = (p + carry) % 2 ^ 64 in
    let rest = carry_loop (cur / 2 ^ 32) ps in if carry == 0 then p ∷ ps else cur % 2 ^ 32 ∷ rest

-- `for (j = 0; j < 8; j++)`, then the loop above.
unfoldable pub mul_row : ℕ → ℕ → Fe → List ℕ → List ℕ
mul_row a carry [] ps = carry_loop carry ps
mul_row a carry (b ∷ bs) [] = []
mul_row a carry (b ∷ bs) (p ∷ ps) =
    let cur = (a * b + p + carry) % 2 ^ 64 in cur % 2 ^ 32 ∷ mul_row a (cur / 2 ^ 32) bs ps

-- The next row starts one limb higher.
abbrev pub below_head : (List ℕ → List ℕ) → List ℕ → List ℕ
below_head f [] = []
below_head f (x ∷ xs) = x ∷ f xs

-- `for (i = 0; i < 8; i++)`
unfoldable pub mul_loop : Fe → Fe → List ℕ → List ℕ
mul_loop [] b product = product
mul_loop (x ∷ xs) b product = below_head (mul_loop xs b) (mul_row x 0 b product)

-- The sixteen limbs that both functions hand to the reduction.
unfoldable pub multiply : Fe → Fe → List ℕ
multiply a b = mul_loop a b (replicate 16 0)

-- `lost` is what a carry out of the last limb would drop.
record Row (target : ℕ) (ps r : List ℕ) : Type 0 where
  lost : ℕ
  total : value r + lost * radix ps ≡ target
  limbs : IsLimbs r
  size : length r ≡ length ps

carry_loop-Row :
    (c : ℕ) (ps : List ℕ) → c < 2 ^ 32 → IsLimbs ps → Row (value ps + c) ps (carry_loop c ps)
unfolding carry_loop
carry_loop-Row c [] h p = record { lost = c; total = omega arith; limbs = tt; size = refl }
carry_loop-Row c (x ∷ xs) h p = elim (Bool-cases (c == 0)) [
  | inl e ↦ rw e (record { lost = 0; total = ground arith; limbs = p; size = refl })
  | inr ne ↦
      let ih = carry_loop-Row ((x + c) % 2 ^ 64 / 2 ^ 32) xs (omega arith) p.1 in
      rw ne (record {
        lost = ih.lost;
        total = omega (arith, ih.total);
        limbs = (omega arith, ih.limbs);
        size = omega (arith, ih.size);
      })
]

-- A limb product with two limbs added does not overflow `uint64_t`.
limb_product :
    (a b p c : ℕ) → a < 2 ^ 32 → b < 2 ^ 32 → p < 2 ^ 32 → c < 2 ^ 32 → a * b + p + c < 2 ^ 64
limb_product a b p c ha hb hp hc = let m : a * b ≤ 0xFFFFFFFF * b = grind arith in omega arith

mul_row-Row :
    (a c : ℕ) (bs ps : List ℕ)
    → a < 2 ^ 32
    → c < 2 ^ 32
    → IsLimbs bs
    → IsLimbs ps
    → length bs ≤ length ps
    → Row (value ps + a * value bs + c) ps (mul_row a c bs ps)
unfolding mul_row
mul_row-Row a c [] ps ha hc q p l =
    let e : value ps + a * 0 + c ≡ value ps + c = omega arith in rw e (carry_loop-Row c ps hc p)
mul_row-Row a c (b ∷ bs) [] ha hc q p l = absurd (omega arith)
mul_row-Row a c (b ∷ bs) (x ∷ xs) ha hc q p l =
    let wide = limb_product a b x c ha q.0 p.0 hc in
    let ih =
      mul_row-Row a ((a * b + x + c) % 2 ^ 64 / 2 ^ 32) bs xs ha (omega arith) q.1 p.1
        (omega arith) in
    record {
      lost = ih.lost;
      total = omega (arith, ih.total);
      limbs = (omega arith, ih.limbs);
      size = omega (arith, ih.size);
    }

radix_mono : (xs ys : List ℕ) → length xs ≤ length ys → radix xs ≤ radix ys
radix_mono [] [] h = omega arith
radix_mono [] (y ∷ ys) h = omega (arith, radix_mono [] ys (omega arith))
radix_mono (x ∷ xs) [] h = absurd (omega arith)
radix_mono (x ∷ xs) (y ∷ ys) h = omega (arith, radix_mono xs ys (omega arith))

no_loss : (lost r v t : ℕ) → v + lost * r ≡ t → t < r → v ≡ t
no_loss zero r v t e h = omega arith
no_loss (suc l) r v t e h = absurd (omega arith)

-- A row fits: the limbs from its index on hold less than 2 ^ 32 times the radix of `b`.
mul_row-value :
    (x : ℕ) (bs ps : List ℕ)
    → x < 2 ^ 32
    → IsLimbs bs
    → IsLimbs ps
    → length bs < length ps
    → value ps < radix bs
    → (value (mul_row x 0 bs ps) ≡ value ps + x * value bs)
      × (value ps + x * value bs < 2 ^ 32 * radix bs)
mul_row-value x bs [] hx q p l small = absurd (omega arith)
mul_row-value x bs (y ∷ ys) hx q p l small =
    let row = mul_row-Row x 0 bs (y ∷ ys) hx (omega arith) q p (omega arith) in
    let m : x * value bs ≤ 0xFFFFFFFF * value bs = grind arith in
    let vb = value-lt-radix bs q in
    let rm = radix_mono bs ys (omega arith) in
    let fits : value (y ∷ ys) + x * value bs < 2 ^ 32 * radix bs = omega arith in
    let total = row.total in
    (no_loss row.lost (radix (y ∷ ys)) _ _ (omega (arith, total)) (omega arith), fits)

record Product (us bs ps r : List ℕ) : Type 0 where
  total : value r ≡ value ps + value us * value bs
  limbs : IsLimbs r
  size : length r ≡ length ps

below_head-Product :
    (x : ℕ) (xs bs ps r : List ℕ) (f : List ℕ → List ℕ)
    → value r ≡ value ps + x * value bs
    → value r < 2 ^ 32 * radix bs
    → IsLimbs r
    → length r ≡ length ps
    → suc (length xs) + length bs ≡ length ps
    → ((rs : List ℕ)
        → IsLimbs rs
        → length xs + length bs ≡ length rs
        → value rs < radix bs
        → Product xs bs rs (f rs))
    → Product (x ∷ xs) bs ps (below_head f r)
below_head-Product x xs bs ps [] f e h p s l ih = absurd (omega arith)
below_head-Product x xs bs ps (y ∷ ys) f e h p s l ih =
    let rest = ih ys p.1 (omega arith) (omega arith) in
    record {
      total = omega (arith, rest.total);
      limbs = (p.0, rest.limbs);
      size = omega (arith, rest.size);
    }

mul_loop-Product :
    (us bs ps : List ℕ)
    → IsLimbs us
    → IsLimbs bs
    → IsLimbs ps
    → length us + length bs ≡ length ps
    → value ps < radix bs
    → Product us bs ps (mul_loop us bs ps)
unfolding mul_loop
mul_loop-Product [] bs ps ha hb hp l small = record { total = omega arith; limbs = hp; size = refl }
mul_loop-Product (x ∷ xs) bs ps ha hb hp l small =
    let row = mul_row-Row x 0 bs ps ha.0 (omega arith) hb hp (omega arith) in
    let (e, fits) = mul_row-value x bs ps ha.0 hb hp (omega arith) small in
    below_head-Product x xs bs ps (mul_row x 0 bs ps) (mul_loop xs bs) e (omega arith) row.limbs
      row.size l (λ rs p l' s. mul_loop-Product xs bs rs ha.1 hb p l' s)

-- The sixteen limbs hold the product: no carry is lost.
pub multiply-value :
    (a b : Fe)
    → IsFe a
    → IsFe b
    → (value (multiply a b) ≡ value a * value b)
      × IsLimbs (multiply a b)
      × (length (multiply a b) ≡ 16)
unfolding multiply
multiply-value a b p q =
    let rc = radix-cong b (replicate 8 0) q.size in
    let r =
      mul_loop-Product a b (replicate 16 0) p.limbs q.limbs (omega arith)
        (omega (arith, p.size, q.size)) (omega arith) in
    (omega (arith, r.total), r.limbs, omega (arith, r.size))
