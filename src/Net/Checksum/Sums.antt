-- ===== src/Net/Checksum/Sums.antt =====
-- drivers/net.c: the checksums as sums in ones' complement.
use minerva_os.Base.{
  ℕ, zero, suc, ◌+◌, ◌-◌, ◌*◌, ◌/◌, ◌%◌, ◌^◌, ◌<◌, ◌≡◌, inl, inr, refl, sym, ap, subst, ◌∙◌, List,
  [], ◌∷◌, ◌++◌, length, All, if◌then◌else◌, ◌==◌, ==_iff, Bool-cases, true≢false, ◌≢◌, arith,
  bit_or,
}
use minerva_os.Base.Bits.{shr, bit_or_disjoint, bit_and_mask}
use minerva_os.Net.Bytes.{put16be}
use minerva_os.Net.Checksum.{word, fold_loop, sum_loop}

-- The sum of the big-endian words, the last filled up with a zero.
unfoldable pub word_sum : List ℕ → ℕ
word_sum [] = 0
word_sum (hi ∷ []) = 2 ^ 8 * hi
word_sum (hi ∷ lo ∷ bytes) = 2 ^ 8 * hi + lo + word_sum bytes

-- `r` is a 16-bit number that stands for the sum `n`, and is zero only if that is.
pub record Folded (n r : ℕ) : Type 0 where
  pub small : r < 2 ^ 16
  pub same : r % 0xFFFF ≡ n % 0xFFFF
  pub positive : 0 < n → 0 < r
  pub nothing : n ≡ 0 → r ≡ 0

pub shr-16 : (n : ℕ) → shr n 16 ≡ n / 2 ^ 16
unfolding shr
shr-16 n = omega arith

pub word-value : (hi lo : ℕ) → hi < 2 ^ 8 → lo < 2 ^ 8 → word hi lo ≡ 2 ^ 8 * hi + lo
unfolding word
word-value hi lo h l =
    let high : hi * 2 ^ 8 % 2 ^ 16 ≡ 2 ^ 8 * hi = omega (arith, h) in
    ap (λ k. bit_or k lo) high ∙ bit_or_disjoint 8 hi lo l

-- A round leaves a 16-bit sum alone, and adds the carry of any other.
fold_loop-suc :
    (left n : ℕ)
    → fold_loop (suc left) n
      ≡ (if n / 2 ^ 16 == 0 then n else fold_loop left (n % 2 ^ 16 + n / 2 ^ 16))
unfolding fold_loop
fold_loop-suc left n = rw (shr-16 n, bit_and_mask 16 n 0xFFFF refl) refl

pub fold_loop_two : (n : ℕ) → n < 2 ^ 19 → Folded n (fold_loop 2 n)
unfolding fold_loop
fold_loop_two n h = elim (Bool-cases (n / 2 ^ 16 == 0)) [
  | inl low ↦
      let e : n / 2 ^ 16 ≡ 0 = (==_iff _ _).0 low in
      rw (fold_loop-suc 1 n, low)
        (record { small = omega (arith, e); same = refl; positive = λ p. p; nothing = λ p. p })
  | inr high ↦
      let c : n / 2 ^ 16 ≢ 0 = λ e. true≢false (sym ((==_iff _ _).1 e) ∙ high) in
      let m = n % 2 ^ 16 + n / 2 ^ 16 in
      elim (Bool-cases (m / 2 ^ 16 == 0)) [
        | inl low ↦
            let e : m / 2 ^ 16 ≡ 0 = (==_iff _ _).0 low in
            rw (fold_loop-suc 1 n, high, fold_loop-suc 0 m, low)
              (record {
                small = omega (arith, e);
                same = omega arith;
                positive = λ p. omega (arith, c);
                nothing = λ p. absurd (omega (arith, c, p));
              })
        | inr again ↦
            let d : m / 2 ^ 16 ≢ 0 = λ e. true≢false (sym ((==_iff _ _).1 e) ∙ again) in
            rw (fold_loop-suc 1 n, high, fold_loop-suc 0 m, again)
              (record {
                small = omega (arith, d);
                same = omega arith;
                positive = λ p. omega (arith, c, d);
                nothing = λ p. absurd (omega (arith, c, p));
              })
      ]
]

pub Folded-sum :
    {s n r : ℕ}
    → s % 0xFFFF ≡ n % 0xFFFF
    → (0 < n → 0 < s)
    → (n ≡ 0 → s ≡ 0)
    → Folded s r
    → Folded n r
Folded-sum same positive nothing f = record {
  small = f.small;
  same = f.same ∙ same;
  positive = λ p. f.positive (positive p);
  nothing = λ p. f.nothing (nothing p);
}

-- Adding a word and folding goes on standing for the sum.
fold-word :
    (n sum w : ℕ) → Folded n sum → w < 2 ^ 16 → Folded (n + w) (fold_loop 2 ((sum + w) % 2 ^ 32))
fold-word n sum w f h =
    let e : (sum + w) % 2 ^ 32 ≡ sum + w = omega (arith, f.small) in
    rw e (
      Folded-sum (omega (arith, f.same)) (λ p. grind (arith, f.positive))
        (λ p. omega (arith, f.nothing (omega (arith, p)), p))
        (fold_loop_two (sum + w) (omega (arith, f.small))))

pub sum_loop-Folded :
    (bytes : List ℕ) (n sum : ℕ)
    → All (λ b. b < 2 ^ 8) bytes
    → Folded n sum
    → Folded (n + word_sum bytes) (sum_loop bytes sum)
unfolding sum_loop word_sum
sum_loop-Folded [] n sum h f = subst (λ k. Folded k sum) (omega arith) f
sum_loop-Folded (hi ∷ []) n sum h f =
    let e : word hi 0 ≡ 2 ^ 8 * hi = word-value hi 0 h.0 (omega arith) ∙ omega arith in
    rw e (fold-word n sum (2 ^ 8 * hi) f (omega (arith, h.0)))
sum_loop-Folded (hi ∷ lo ∷ bytes) n sum h f =
    let e = word-value hi lo h.0 h.1.0 in
    let rest =
      sum_loop-Folded bytes (n + (2 ^ 8 * hi + lo)) _ h.1.1
        (fold-word n sum (2 ^ 8 * hi + lo) f (omega (arith, h.0, h.1.0))) in
    rw e (
      subst (λ k. Folded k (sum_loop bytes (fold_loop 2 ((sum + (2 ^ 8 * hi + lo)) % 2 ^ 32))))
        (omega arith) rest)

pub octets-Folded :
    (bytes : List ℕ) → All (λ b. b < 2 ^ 8) bytes → Folded (word_sum bytes) (sum_loop bytes 0)
octets-Folded bytes h =
    subst (λ n. Folded n (sum_loop bytes 0)) (omega arith)
      (sum_loop-Folded bytes 0 0 h
        (record { small = omega arith; same = refl; positive = λ p. p; nothing = λ p. p }))

again-Folded : {n r : ℕ} → Folded n r → Folded n (fold_loop 2 r)
again-Folded f = Folded-sum f.same f.positive f.nothing (fold_loop_two _ (omega (arith, f.small)))

-- From the sum of a few words on.
pub started-Folded :
    (bytes : List ℕ) (p : ℕ)
    → All (λ b. b < 2 ^ 8) bytes
    → p < 2 ^ 19 - 2 ^ 16
    → Folded (p + word_sum bytes) (fold_loop 2 (sum_loop bytes p))
unfolding sum_loop word_sum
started-Folded [] p h s =
    subst (λ n. Folded n (fold_loop 2 p)) (omega arith) (fold_loop_two p (omega (arith, s)))
started-Folded (hi ∷ []) p h s =
    let e : word hi 0 ≡ 2 ^ 8 * hi = word-value hi 0 h.0 (omega arith) ∙ omega arith in
    let plain : (p + 2 ^ 8 * hi) % 2 ^ 32 ≡ p + 2 ^ 8 * hi = omega (arith, h.0, s) in
    rw (e, plain) (again-Folded (fold_loop_two (p + 2 ^ 8 * hi) (omega (arith, h.0, s))))
started-Folded (hi ∷ lo ∷ bytes) p h s =
    let e = word-value hi lo h.0 h.1.0 in
    let w = 2 ^ 8 * hi + lo in
    let plain : (p + w) % 2 ^ 32 ≡ p + w = omega (arith, h.0, h.1.0, s) in
    let first = fold_loop_two (p + w) (omega (arith, h.0, h.1.0, s)) in
    let rest = again-Folded (sum_loop-Folded bytes (p + w) (fold_loop 2 (p + w)) h.1.1 first) in
    rw (e, plain)
      (subst (λ n. Folded n (fold_loop 2 (sum_loop bytes (fold_loop 2 (p + w))))) (omega arith)
        rest)

-- A checksum field at an even offset.
pub word_sum-field :
    (k : ℕ) (front back : List ℕ) (c : ℕ)
    → length front ≡ 2 * k
    → c < 2 ^ 16
    → word_sum (front ++ (put16be c ++ back)) ≡ word_sum (front ++ (put16be 0 ++ back)) + c
unfolding word_sum shr
word_sum-field zero [] back c e h = rw (bit_and_mask 8 c 0xFF refl) (omega arith)
word_sum-field zero (x ∷ front) back c e h = absurd (omega arith)
word_sum-field (suc k) [] back c e h = absurd (omega arith)
word_sum-field (suc k) (x ∷ []) back c e h = absurd (omega arith)
word_sum-field (suc k) (x ∷ y ∷ front) back c e h =
    omega (arith, word_sum-field k front back c (omega (arith, e)) h)
