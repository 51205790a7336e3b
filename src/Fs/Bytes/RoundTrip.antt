-- ===== src/Fs/Bytes/RoundTrip.antt =====
-- fs/fat32.c: reading back what was written.
use minerva_os.Base.{
  ℕ, ◌+◌, ◌*◌, ◌/◌, ◌%◌, ◌^◌, ◌<◌, ◌≤◌, ◌≡◌, ◌≢◌, refl, ap, ◌∙◌, List, get_or, set, length,
  length-set, get_or-set_self, get_or-set_ne, ◌⊎◌, bit_or, bit_and, arith,
}
use minerva_os.Base.Bits.{shr, bit_or_disjoint, bit_and_mask, bit_or_comm}
use minerva_os.Fs.Bytes.{rd32, wr32}

low_or : (k a b : ℕ) → b < 2 ^ k → bit_or b (2 ^ k * a) ≡ b + 2 ^ k * a
low_or k a b h = bit_or_comm b (2 ^ k * a) ∙ bit_or_disjoint k a b h ∙ omega arith

-- The number that four bytes stand for.
pub rd32-value :
    (p : List ℕ) (at : ℕ)
    → get_or p at 0 < 2 ^ 8
    → get_or p (at + 1) 0 < 2 ^ 8
    → get_or p (at + 2) 0 < 2 ^ 8
    → get_or p (at + 3) 0 < 2 ^ 8
    → rd32 p at
      ≡ get_or p at 0
        + 2 ^ 8 * get_or p (at + 1) 0
        + 2 ^ 16 * get_or p (at + 2) 0
        + 2 ^ 24 * get_or p (at + 3) 0
unfolding rd32
rd32-value p at h0 h1 h2 h3 =
    let d = get_or p (at + 3) 0 in
    let fits : 2 ^ 24 * d % 2 ^ 32 ≡ 2 ^ 24 * d = omega (arith, h3) in
    rw
      (
        fits,
        low_or 8 (get_or p (at + 1) 0) (get_or p at 0) h0,
        low_or 16 (get_or p (at + 2) 0) (get_or p at 0 + 2 ^ 8 * get_or p (at + 1) 0)
            (omega (arith, h0, h1)),
      )
      (low_or 24 d _ (omega (arith, h0, h1, h2)))

shr_eight : (v : ℕ) → shr v 8 ≡ v / 2 ^ 8
unfolding shr
shr_eight v = omega arith

shr_sixteen : (v : ℕ) → shr v 16 ≡ v / 2 ^ 16
unfolding shr
shr_sixteen v = omega arith

shr_twenty_four : (v : ℕ) → shr v 24 ≡ v / 2 ^ 24
unfolding shr
shr_twenty_four v = omega arith

pub length-wr32 : (p : List ℕ) (at v : ℕ) → length (wr32 p at v) ≡ length p
unfolding wr32
length-wr32 p at v =
    length-set _ (at + 3) _ ∙ length-set _ (at + 2) _ ∙ length-set _ (at + 1) _ ∙ length-set p at _

-- Other bytes are kept.
pub wr32_kept :
    (p : List ℕ) (at v i : ℕ)
    → at ≢ i
    → at + 1 ≢ i
    → at + 2 ≢ i
    → at + 3 ≢ i
    → get_or (wr32 p at v) i 0 ≡ get_or p i 0
unfolding wr32
wr32_kept p at v i h0 h1 h2 h3 =
    get_or-set_ne _ (at + 3) i _ 0 h3
    ∙ get_or-set_ne _ (at + 2) i _ 0 h2
    ∙ get_or-set_ne _ (at + 1) i _ 0 h1
    ∙ get_or-set_ne p at i _ 0 h0

-- The four bytes written.
record Written (p : List ℕ) (at v : ℕ) (w : List ℕ) : Type 0 where
  byte0 : get_or w at 0 ≡ v % 2 ^ 8
  byte1 : get_or w (at + 1) 0 ≡ v / 2 ^ 8 % 2 ^ 8
  byte2 : get_or w (at + 2) 0 ≡ v / 2 ^ 16 % 2 ^ 8
  byte3 : get_or w (at + 3) 0 ≡ v / 2 ^ 24 % 2 ^ 8

mask : (v : ℕ) → bit_and v 0xFF ≡ v % 2 ^ 8
mask v = bit_and_mask 8 v 0xFF refl

wr32-Written : (p : List ℕ) (at v : ℕ) → at + 4 ≤ length p → Written p at v (wr32 p at v)
unfolding wr32
wr32-Written p at v h =
    let p1 = set p at (bit_and v 0xFF) in
    let p2 = set p1 (at + 1) (bit_and (shr v 8) 0xFF) in
    let p3 = set p2 (at + 2) (bit_and (shr v 16) 0xFF) in
    let l1 = length-set p at (bit_and v 0xFF) in
    let l2 = length-set p1 (at + 1) (bit_and (shr v 8) 0xFF) in
    let l3 = length-set p2 (at + 2) (bit_and (shr v 16) 0xFF) in
    record {
      byte0 =
          get_or-set_ne p3 (at + 3) at _ 0 (λ e. omega arith)
          ∙ get_or-set_ne p2 (at + 2) at _ 0 (λ e. omega arith)
          ∙ get_or-set_ne p1 (at + 1) at _ 0 (λ e. omega arith)
          ∙ get_or-set_self p at _ 0 (omega (arith, h))
          ∙ mask v;
      byte1 =
          get_or-set_ne p3 (at + 3) (at + 1) _ 0 (λ e. omega arith)
          ∙ get_or-set_ne p2 (at + 2) (at + 1) _ 0 (λ e. omega arith)
          ∙ get_or-set_self p1 (at + 1) _ 0 (omega (arith, h, l1))
          ∙ mask (shr v 8)
          ∙ ap (λ x. x % 2 ^ 8) (shr_eight v);
      byte2 =
          get_or-set_ne p3 (at + 3) (at + 2) _ 0 (λ e. omega arith)
          ∙ get_or-set_self p2 (at + 2) _ 0 (omega (arith, h, l1, l2))
          ∙ mask (shr v 16)
          ∙ ap (λ x. x % 2 ^ 8) (shr_sixteen v);
      byte3 =
          get_or-set_self p3 (at + 3) _ 0 (omega (arith, h, l1, l2, l3))
          ∙ mask (shr v 24)
          ∙ ap (λ x. x % 2 ^ 8) (shr_twenty_four v);
    }

-- `rd32` reads back what `wr32` wrote inside the buffer, cut to 32 bits.
pub rd32-wr32 : (p : List ℕ) (at v : ℕ) → at + 4 ≤ length p → rd32 (wr32 p at v) at ≡ v % 2 ^ 32
rd32-wr32 p at v h =
    let w = wr32-Written p at v h in
    rd32-value (wr32 p at v) at (omega (arith, w.byte0)) (omega (arith, w.byte1))
      (omega (arith, w.byte2)) (omega (arith, w.byte3))
    ∙ omega (arith, w.byte0, w.byte1, w.byte2, w.byte3)

-- A number at another multiple of four is kept.
pub rd32-wr32_kept :
    (p : List ℕ) (at v i : ℕ) → at + 4 ≤ i ⊎ i + 4 ≤ at → rd32 (wr32 p at v) i ≡ rd32 p i
unfolding rd32
rd32-wr32_kept p at v i h =
    let kept = λ (j : ℕ) (b : j < 4).
      wr32_kept p at v (i + j) (λ e. ground (arith, h)) (λ e. ground (arith, h))
        (λ e. ground (arith, h)) (λ e. ground (arith, h)) in
    rw
      (
        wr32_kept p at v i (λ e. ground (arith, h)) (λ e. ground (arith, h))
            (λ e. ground (arith, h)) (λ e. ground (arith, h)),
        kept 1 (omega arith),
        kept 2 (omega arith),
        kept 3 (omega arith),
      )
      refl
