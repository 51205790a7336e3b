-- ===== src/P256/Numbers.antt =====
-- Points of P-256 as pairs of numbers modulo p: the rules of chord and tangent, and the formulas of
-- Jacobian coordinates, as the standards give them, to compare drivers/p256.c with.
pub mod Field
pub mod Points
use minerva_os.Base.{
  ℕ, zero, suc, ◌+◌, ◌-◌, ◌*◌, ◌/◌, ◌%◌, ◌^◌, Bool, true, false, List, [], ◌∷◌, if◌then◌else◌, ◌||◌,
  ◌==◌,
}
use minerva_os.P256.Power.{power}
use minerva_os.P256.Field.Modular.{prime}

-- Sum, difference, product and inverse modulo p.
unfoldable pub plus : ℕ → ℕ → ℕ
plus m n = (m + n) % prime

unfoldable pub minus : ℕ → ℕ → ℕ
minus m n = (m + prime - n) % prime

unfoldable pub times : ℕ → ℕ → ℕ
times m n = m * n % prime

unfoldable pub inverse : ℕ → ℕ
inverse m = power m (prime - 2) % prime

-- A point of the plane, or the one at infinity, where `x` and `y` mean nothing.
pub record Place : Type 0 where
  pub x : ℕ
  pub y : ℕ
  pub infinity : Bool

-- The third point of the line through the place with this slope and another of the abscissa `other`.
unfoldable pub third : Place → ℕ → ℕ → Place
third p other slope =
    let x3 = minus (minus (times slope slope) p.x) other in
    record { x = x3; y = minus (times slope (minus p.x x3)) p.y; infinity = false }

-- p + p by the tangent, whose slope is (3 x² - 3) / 2 y.
unfoldable pub tangent : Place → Place
tangent p =
    let square = times p.x p.x in
    let slope = times (minus (plus (plus square square) square) 3) (inverse (plus p.y p.y)) in
    if p.infinity || p.y == 0 then record p { infinity = true } else record {
      x = minus (times slope slope) (plus p.x p.x);
      y = minus (times slope (minus p.x (minus (times slope slope) (plus p.x p.x)))) p.y;
      infinity = false;
    }

-- p + q, by the chord unless the abscissas are equal.
unfoldable pub sum : Place → Place → Place
sum p q =
    if p.infinity
    then q
    else if q.infinity
    then p
    else if p.x == q.x
    then (if p.y == q.y then tangent p else record p { infinity = true })
    else third p q.x (times (minus q.y p.y) (inverse (minus q.x p.x)))

-- x / z² and y / z³ in three numbers.
pub record Triple : Type 0 where
  pub x : ℕ
  pub y : ℕ
  pub z : ℕ
  pub infinity : Bool

abbrev pub far : Triple
far = record { x = 0; y = 0; z = 0; infinity = true }

unfoldable pub place : Triple → Place
place t =
    let square = times (inverse t.z) (inverse t.z) in
    if t.infinity || t.z == 0 then record { x = 0; y = 0; infinity = true } else record {
      x = times t.x square;
      y = times t.y (times square (inverse t.z));
      infinity = false;
    }

unfoldable pub triple : Place → Triple
triple p = if p.infinity then far else record { x = p.x; y = p.y; z = 1; infinity = false }

abbrev pub twice : ℕ → ℕ
twice m = plus m m

-- alpha = 3 (x - z²)(x + z²), beta = x y²: x' = alpha² - 8 beta, y' = alpha (4 beta - x') - 8 y⁴,
-- z' = (y + z)² - y² - z².
unfoldable pub doubled : Triple → Triple
doubled t =
    let delta = times t.z t.z in
    let gamma = times t.y t.y in
    let beta = times t.x gamma in
    let product = times (minus t.x delta) (plus t.x delta) in
    let alpha = plus (plus product product) product in
    let x3 = minus (times alpha alpha) (twice (twice (twice beta))) in
    let y3 =
      minus (times alpha (minus (twice (twice beta)) x3))
        (twice (twice (twice (times gamma gamma)))) in
    let z3 = minus (minus (times (plus t.y t.z) (plus t.y t.z)) gamma) delta in
    if t.infinity || t.y == 0 then far else record { x = x3; y = y3; z = z3; infinity = false }

-- h = x₂ z² - x, r = 2 (y₂ z³ - y), i = 4 h², j = h i, v = x i: x' = r² - j - 2 v,
-- y' = r (v - x') - 2 y j, z' = (z + h)² - z² - h².
unfoldable pub mixed : Triple → ℕ → ℕ → ℕ → Triple
mixed t square h half =
    let r = twice half in
    let hh = times h h in
    let i = twice (twice hh) in
    let j = times h i in
    let v = times t.x i in
    let x3 = minus (minus (times r r) j) (twice v) in
    let y3 = minus (times r (minus v x3)) (twice (times t.y j)) in
    let z3 = minus (minus (times (plus t.z h) (plus t.z h)) square) hh in
    record { x = x3; y = y3; z = z3; infinity = false }

unfoldable pub added : Triple → Place → Triple
added t q =
    let square = times t.z t.z in
    let h = minus (times q.x square) t.x in
    let half = minus (times (times t.z square) q.y) t.y in
    if t.infinity
    then triple q
    else if q.infinity
    then t
    else if h == 0
    then (if half == 0 then doubled t else far)
    else mixed t square h half

-- A scalar bit by bit from the highest: each bit doubles, and one that is set adds the point.
unfoldable pub bits : ℕ → ℕ → Place → Triple → Triple
bits zero byte q t = t
bits (suc n) byte q t =
    let d = doubled t in bits n byte q (if byte / 2 ^ n % 2 == 0 then d else added d q)

unfoldable pub bytes : List ℕ → Place → Triple → Triple
bytes [] q t = t
bytes (b ∷ bs) q t = bytes bs q (bits 8 b q t)

-- The multiple of a place by the number whose bytes are given.
unfoldable pub multiple : Place → List ℕ → Place
multiple q scalar = place (bytes scalar q far)
