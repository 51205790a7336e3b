-- ===== src/Net/Der/Dates.antt =====
-- drivers/net.c: a date that is printed as DER asks is read as its number.
use minerva_os.Base.{
  ℕ, suc, ◌+◌, ◌-◌, ◌*◌, ◌/◌, ◌%◌, ◌^◌, ◌<◌, ◌≤◌, ◌≡◌, true, false, List, [], ◌∷◌, ◌++◌,
  if◌then◌else◌, leb, ltb, length, arith,
}
use minerva_os.Net.Der.{net_tls_parse_asn1_date, checked_date, digits_loop, net_tls_digit}

abbrev two : ℕ → List ℕ
two n = (b'0' + n / 10 % 10) ∷ (b'0' + n % 10) ∷ []

-- The digits of a UTCTime and of a GeneralizedTime, and what follows them.
abbrev pub utc_time : ℕ → ℕ → ℕ → List ℕ → List ℕ
utc_time year month day rest = two (year % 100) ++ (two month ++ (two day ++ rest))

abbrev pub generalized_time : ℕ → ℕ → ℕ → List ℕ → List ℕ
generalized_time year month day rest =
    two (year / 100) ++ (two (year % 100) ++ (two month ++ (two day ++ rest)))

digit-holds : (n : ℕ) → net_tls_digit (b'0' + n % 10) ≡ true
digit-holds n = ground arith

digit_value : (n : ℕ) → (b'0' + n % 10) - b'0' ≡ n % 10
digit_value n = omega arith

long-enough : (n k : ℕ) → n ≤ k → ltb k n ≡ false
long-enough n k h = ground arith

checked_date-valid :
    (year month day : ℕ)
    → year < 10000
    → 1 ≤ month
    → month ≤ 12
    → 1 ≤ day
    → day ≤ 31
    → checked_date year month day ≡ year * 10000 + month * 100 + day
unfolding checked_date
checked_date-valid year month day hy m1 m2 d1 d2 = ground arith

-- A GeneralizedTime of a year below 10000 and a UTCTime of a year from 1950 to 2049 are read as the
-- number of the digits of the year, month and day, for months from 1 to 12 and days from 1 to 31.
pub net_tls_parse_asn1_date_lem :
    (year month day : ℕ) (rest : List ℕ)
    → 1 ≤ month
    → month ≤ 12
    → 1 ≤ day
    → day ≤ 31
    → year < 10000
    → let date = year * 10000 + month * 100 + day in
      (net_tls_parse_asn1_date 0x18
          (generalized_time year month day rest)
          (length (generalized_time year month day rest))
        ≡ date)
      × (1950 ≤ year
          → year < 2050
          → net_tls_parse_asn1_date 0x17
              (utc_time year month day rest)
              (length (utc_time year month day rest))
            ≡ date)
unfolding net_tls_parse_asn1_date digits_loop
net_tls_parse_asn1_date_lem year month day rest m1 m2 d1 d2 hy =
    let d = digit-holds in
    let mm : (b'0' + month / 10 % 10 - b'0') * 10 + (b'0' + month % 10 - b'0') ≡ month =
      omega arith in
    let dd : (b'0' + day / 10 % 10 - b'0') * 10 + (b'0' + day % 10 - b'0') ≡ day = omega arith in
    let month_fits : month % 2 ^ 8 ≡ month = omega arith in
    let day_fits : day % 2 ^ 8 ≡ day = omega arith in
    let valid = checked_date-valid year month day hy m1 m2 d1 d2 in
    (
      rw
          (
            long-enough 8 (suc (suc (suc (suc (suc (suc (suc (suc (length rest)))))))))
                (omega arith),
            d (year / 100 / 10),
            d (year / 100),
            d (year % 100 / 10),
            d (year % 100),
            d (month / 10),
            d month,
            d (day / 10),
            d day,
            mm,
            dd,
            month_fits,
            day_fits,
            four_digits,
          )
          valid,
      λ l h.
          rw
            (
              long-enough 6 (suc (suc (suc (suc (suc (suc (length rest))))))) (omega arith),
              d (year % 100 / 10),
              d (year % 100),
              d (month / 10),
              d month,
              d (day / 10),
              d day,
              mm,
              dd,
              month_fits,
              day_fits,
              century l h,
            )
            valid,
    )
  where
    four_digits :
        ((b'0' + year / 100 / 10 % 10 - b'0') * 1000
            + (b'0' + year / 100 % 10 - b'0') * 100
            + (b'0' + year % 100 / 10 % 10 - b'0') * 10
            + (b'0' + year % 100 % 10 - b'0'))
          % 2 ^ 16
        ≡ year
    four_digits = omega (arith, hy)

    century :
        1950 ≤ year
        → year < 2050
        → let yy =
            ((b'0' + year % 100 / 10 % 10 - b'0') * 10 + (b'0' + year % 100 % 10 - b'0')) % 2 ^ 8 in
          (if leb 50 yy then 1900 + yy else 2000 + yy) ≡ year
    century l h =
        let yy : ((b'0' + year % 100 / 10 % 10 - b'0') * 10 + (b'0' + year % 100 % 10 - b'0'))
              % 2 ^ 8
            ≡ year % 100 =
          omega arith in
        rw yy (ground (arith, l, h))
