-- ===== src/Net/Hostname/Wildcard.antt =====
-- drivers/net.c: which hosts a name of a certificate covers.
use minerva_os.Base.{
  ℕ, zero, suc, ◌-◌, ◌<◌, ◌≡◌, ◌≢◌, ◌↔◌, ◌⊎◌, inl, inr, refl, sym, ap, ap₂, subst, ◌∙◌, Bool, true,
  false, true≢false, List, [], ◌∷◌, ◌++◌, if◌then◌else◌, not, ◌||◌, ◌==◌, ==_iff, leb, Bool-cases,
  get_or, length, length-append, take, All, arith,
}
use minerva_os.Base.Cuts.{
  drop, take-drop, length-take, drop-append, drop_all, take-append, take_all,
}
use minerva_os.Net.Hostname.{net_tls_str_equal, dot_loop, net_tls_dns_matches}

-- `dns` is "*." and a domain, and `host` a label without a dot, a dot and that domain.
pub record Wildcard (host dns : List ℕ) : Type 0 where
  pub label : List ℕ
  pub domain : List ℕ
  pub pattern : dns ≡ b'*' ∷ b'.' ∷ domain
  pub name : host ≡ label ++ b'.' ∷ domain
  pub some_label : 0 < length label
  pub no_dot : All (λ c. c ≢ b'.') label

pub net_tls_str_equal_iff : (a b : List ℕ) → (net_tls_str_equal a b ≡ true) ↔ (a ≡ b)
unfolding net_tls_str_equal
net_tls_str_equal_iff [] [] = (λ e. refl, λ e. refl)
net_tls_str_equal_iff [] (y ∷ b) = (λ e. cc, λ e. cc)
net_tls_str_equal_iff (x ∷ a) [] = (λ e. cc, λ e. cc)
net_tls_str_equal_iff (x ∷ a) (y ∷ b) =
    let rest = net_tls_str_equal_iff a b in
    let head = ==_iff x y in
    elim (Bool-cases (x == y)) [
      | inl same ↦
          rw same ((λ e. ap₂ (λ c l. c ∷ l) (head.0 same) (rest.0 e)), λ e. rest.1 (ap (drop 1) e))
      | inr other ↦ rw other ((λ e. cc), λ e. sym other ∙ head.1 (ap (λ l. get_or l 0 0) e))
    ]

dot_loop_iff :
    (n : ℕ) (host : List ℕ) → (dot_loop n host ≡ false) ↔ All (λ c. c ≢ b'.') (take n host)
unfolding dot_loop
dot_loop_iff zero host = (λ e. _, λ h. refl)
dot_loop_iff (suc n) [] = (λ e. _, λ h. refl)
dot_loop_iff (suc n) (c ∷ host) =
    let rest = dot_loop_iff n host in
    elim (Bool-cases (c == b'.')) [
      | inl same ↦ rw same ((λ e. cc), λ h. absurd (h.0 ((==_iff c b'.').0 same)))
      | inr other ↦
          rw other (
            (λ e. (λ f. true≢false (sym ((==_iff c b'.').1 f) ∙ other), rest.0 e)),
            λ h. rest.1 h.1,
          )
    ]

get_or-All :
    (xs ys : List ℕ) (i : ℕ) → All (λ c. c ≢ b'.') xs → i < length xs → get_or (xs ++ ys) i 0 ≢ b'.'
get_or-All [] ys i h b = absurd (omega arith)
get_or-All (x ∷ xs) ys zero h b = h.0
get_or-All (x ∷ xs) ys (suc i) h b = get_or-All xs ys i h.1 (omega arith)

-- The tests of a pattern, in their order.
record Passes (star dot short dotted any_dot tail : Bool) : Type 0 where
  star_holds : star ≡ true
  dot_holds : dot ≡ true
  short_fails : short ≡ false
  dotted_fails : dotted ≡ false
  any_dot_fails : any_dot ≡ false
  tail_holds : tail ≡ true

abbrev tests : Bool → Bool → Bool → Bool → Bool → Bool → Bool
tests star dot short dotted any_dot tail =
    if not star || not dot
    then false
    else if short
    then false
    else if dotted
    then false
    else if any_dot
    then false
    else tail

tests_iff :
    (star dot short dotted any_dot tail : Bool)
    → (tests star dot short dotted any_dot tail ≡ true) ↔ Passes star dot short dotted any_dot tail
tests_iff false dot short dotted any_dot tail = ((λ e. cc), λ p. p.star_holds)
tests_iff true false short dotted any_dot tail = ((λ e. cc), λ p. p.dot_holds)
tests_iff true true true dotted any_dot tail = ((λ e. cc), λ p. sym p.short_fails)
tests_iff true true false true any_dot tail = ((λ e. cc), λ p. sym p.dotted_fails)
tests_iff true true false false true tail = ((λ e. cc), λ p. sym p.any_dot_fails)
tests_iff true true false false false tail = (
  (λ e. record {
    star_holds = refl;
    dot_holds = refl;
    short_fails = refl;
    dotted_fails = refl;
    any_dot_fails = refl;
    tail_holds = e;
  }),
  λ p. p.tail_holds,
)

-- What `net_tls_dns_matches` tests of a pattern.
abbrev PatternPasses : List ℕ → List ℕ → Type 0
PatternPasses host dns =
    let offset = length host - length (drop 1 dns) in
    Passes (get_or dns 0 0 == b'*') (get_or dns 1 0 == b'.')
      (leb (length host) (length (drop 1 dns))) (get_or host (offset - 1) 0 == b'.')
      (dot_loop offset host) (net_tls_str_equal (drop offset host) (drop 1 dns))

leb-long : (a b : ℕ) → b < a → leb a b ≡ false
leb-long a b h = ground arith

long-leb : (a b : ℕ) → leb a b ≡ false → b < a
long-leb a b e = ground arith

==-other : (c : ℕ) → c ≢ b'.' → (c == b'.') ≡ false
==-other c h = elim (Bool-cases (c == b'.')) [
  | inl e ↦ absurd (h ((==_iff c b'.').0 e))
  | inr e ↦ e
]

star_dot :
    (dns : List ℕ)
    → (get_or dns 0 0 == b'*') ≡ true
    → (get_or dns 1 0 == b'.') ≡ true
    → dns ≡ b'*' ∷ b'.' ∷ drop 2 dns
star_dot [] e f = absurd (true≢false (sym e))
star_dot (x ∷ []) e f = absurd (true≢false (sym f))
star_dot (x ∷ y ∷ dns) e f = ap₂ (λ a b. a ∷ b ∷ dns) ((==_iff x b'*').0 e) ((==_iff y b'.').0 f)

Wildcard-Passes : (host dns : List ℕ) → Wildcard host dns → PatternPasses host dns
Wildcard-Passes host dns w =
    let tail = b'.' ∷ w.domain in
    let n = length w.label in
    let offset : length (w.label ++ tail) - length tail ≡ n =
      omega (arith, length-append w.label tail) in
    rw (w.pattern, w.name, offset)
      (record {
        star_holds = refl;
        dot_holds = refl;
        short_fails = leb-long _ _ (omega (arith, length-append w.label tail, w.some_label));
        dotted_fails =
            ==-other _ (get_or-All w.label tail (n - 1) w.no_dot (omega (arith, w.some_label)));
        any_dot_fails = (dot_loop_iff n (w.label ++ tail)).1 (
            subst (All (λ c. c ≢ b'.'))
              (sym (take-append n w.label tail (omega arith) ∙ take_all n w.label refl)) w.no_dot);
        tail_holds = (net_tls_str_equal_iff _ tail).1 (
            drop-append n w.label tail (omega arith)
            ∙ ap (λ l. l ++ tail) (drop_all n w.label refl));
      })

Passes-Wildcard : (host dns : List ℕ) → PatternPasses host dns → Wildcard host dns
Passes-Wildcard host dns p =
    let offset = length host - length (drop 1 dns) in
    let pattern = star_dot dns p.star_holds p.dot_holds in
    record {
      label = take offset host;
      domain = drop 2 dns;
      pattern = pattern;
      name =
          sym (take-drop offset host)
          ∙ ap (λ l. take offset host ++ l)
              ((net_tls_str_equal_iff _ _).0 p.tail_holds ∙ ap (drop 1) pattern);
      some_label = omega (arith, length-take offset host (omega arith), long-leb _ _ p.short_fails);
      no_dot = (dot_loop_iff offset host).0 p.any_dot_fails;
    }

-- The code takes a name of a certificate for the host's exactly if they are equal, or the certificate's
-- is a wildcard for one whole label of the host's.
pub net_tls_dns_matches_iff :
    (host dns : List ℕ) → (net_tls_dns_matches host dns ≡ true) ↔ ((host ≡ dns) ⊎ Wildcard host dns)
unfolding net_tls_dns_matches
net_tls_dns_matches_iff host dns = elim (Bool-cases (net_tls_str_equal host dns)) [
  | inl same ↦ rw same ((λ e. inl ((net_tls_str_equal_iff host dns).0 same)), λ c. refl)
  | inr other ↦ rw other (
    (λ e. inr (Passes-Wildcard host dns ((tests_iff _ _ _ _ _ _).0 e))),
    λ c. elim c [
      | inl same ↦ absurd (true≢false (sym ((net_tls_str_equal_iff host dns).1 same) ∙ other))
      | inr w ↦ (tests_iff _ _ _ _ _ _).1 (Wildcard-Passes host dns w)
    ],
  )
]
