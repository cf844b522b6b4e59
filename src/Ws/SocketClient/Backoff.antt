-- ===== src/Ws/SocketClient/Backoff.antt =====
-- The bounds of the delay before a GraphQLWebSocketClient reconnects.
use Prim.Native.Nat.{min}
use native.Mathlib.Nat.{
  mul-le-mul, mul-le-mul_right, le-min, min-le_right, le-div_iff_mul-le, div-le_of_le-mul,
}
use graphqlade.Common.{ℕ, ◌+◌, ◌*◌, ◌≤◌, ◌<◌, arith}
use graphqlade.Ws.SocketClient.Connection.{Ratio, random_units, next_delay}

-- The sum over the common denominator `d * u`, where `r` of `u` parts are added.
scaled-le : (a b c d u r : ℕ) → a ≤ b * d → r < u → a * u + r * c * d ≤ d * u * (b + c)
scaled-le a b c d u r h lt =
    let most = mul-le-mul_right u h in
    let few : r ≤ u = omega (arith, lt) in
    let jitter = mul-le-mul_right (c * d) few in omega (arith, most, jitter)

le-scaled : (a b c d u r : ℕ) → b * d ≤ a → b * (d * u) ≤ a * u + r * c * d
le-scaled a b c d u r h = let least = mul-le-mul_right u h in omega (arith, least)

module _ (multiplier : Ratio) (delay most least random : ℕ) where
  pub next_delay-le :
      random < random_units → next_delay multiplier delay most least random ≤ most + least
  unfolding next_delay
  next_delay-le lt = div-le_of_le-mul (multiplier.denominator * random_units) (
      scaled-le (min (multiplier.numerator * delay) (most * multiplier.denominator)) most least
        multiplier.denominator random_units random (min-le_right _ _) lt)

  pub le-next_delay :
      0 < multiplier.denominator
      → multiplier.denominator ≤ multiplier.numerator
      → least ≤ delay
      → least ≤ most
      → least ≤ next_delay multiplier delay most least random
  unfolding next_delay
  le-next_delay whole grows lower ordered =
      let positive : 0 < multiplier.denominator * random_units = omega (arith, whole) in
      let product = mul-le-mul grows lower in
      let scaled : least * multiplier.denominator ≤ multiplier.numerator * delay =
        omega (arith, product) in
      (le-div_iff_mul-le positive).1 (
        le-scaled (min (multiplier.numerator * delay) (most * multiplier.denominator)) least least
          multiplier.denominator random_units random
          (le-min scaled (mul-le-mul_right multiplier.denominator ordered)))
