-- ===== src/Base/Double.antt =====
-- The numbers of JavaScript, doubles of IEEE 754, as far as a position of a task needs them: the
-- finite ones, with their order and their addition.
use multi_tenant_project_man.Base.{
  ℕ, zero, suc, Bool, true, false, leb, ltb, ◌+◌, ◌*◌, ◌^◌, ◌/◌, ◌%◌, ◌-◌, ◌&&◌, ◌||◌, ◌≡◌, nat_eq,
  arith, refl, Bool-cases, inl, inr, if◌then◌else◌,
}

-- A finite double by the units of 2 ^ -1074 that it is: so many of them, or one more below zero.
pub data Double : Type 0 where
  pos : ℕ → Double
  negsuc : ℕ → Double

-- The number of low bits beyond the 53 that a double keeps; 2100 halvings are enough for every
-- sum of two finite doubles, since these are below 2 ^ (1024 + 1074).
unfoldable pub excess : (fuel units : ℕ) → ℕ
excess zero units = 0
excess (suc fuel) units = elim (Bool-cases (ltb units (2 ^ 53))) [
  | inl fits ↦ 0
  | inr longer ↦ suc (excess fuel (units / 2))
]

-- To the nearest multiple of a step; of two that are as near, the even one.
unfoldable pub nearest : (step units : ℕ) → ℕ
nearest step units =
    let below = units / step in
    let rest = 2 * (units % step) in
    if ltb rest step || (nat_eq rest step && nat_eq (below % 2) 0)
    then below * step
    else (below + 1) * step

unfoldable pub rounded : ℕ → ℕ
unfolding excess nearest
rounded units = nearest (2 ^ excess 2100 units) units

unfoldable pub of_difference : (more less : ℕ) → Double
unfolding rounded
of_difference more less =
    if leb less more then pos (rounded (more - less)) else negsuc (rounded (less - more) - 1)

-- `x + y`, where the sum is not too large to be finite. A sum with 1000 never is.
unfoldable pub plus : Double → Double → Double
unfolding rounded of_difference
plus (pos m) (pos n) = pos (rounded (m + n))
plus (pos m) (negsuc n) = of_difference m (n + 1)
plus (negsuc m) (pos n) = of_difference n (m + 1)
plus (negsuc m) (negsuc n) = negsuc (rounded (m + n + 2) - 1)

-- A whole number up to 2 ^ 53
unfoldable pub whole : ℕ → Double
whole n = pos (n * 2 ^ 1074)

-- `x <= y`
unfoldable pub at_most : Double → Double → Bool
at_most (pos m) (pos n) = leb m n
at_most (pos m) (negsuc n) = false
at_most (negsuc m) (pos n) = true
at_most (negsuc m) (negsuc n) = leb n m

pub at_most_refl : (x : Double) → at_most x x ≡ true
unfolding at_most
at_most_refl (pos m) = ground arith
at_most_refl (negsuc m) = ground arith

pub at_most_total : (x y : Double) → at_most x y ≡ false → at_most y x ≡ true
unfolding at_most
at_most_total (pos m) (pos n) h = ground arith
at_most_total (pos m) (negsuc n) h = refl
at_most_total (negsuc m) (pos n) h = absurd (ground arith)
at_most_total (negsuc m) (negsuc n) h = ground arith

pub at_most_trans : (x y z : Double) → at_most x y ≡ true → at_most y z ≡ true → at_most x z ≡ true
unfolding at_most
at_most_trans (pos m) (pos n) (pos k) h g = ground arith
at_most_trans (pos m) (pos n) (negsuc k) h g = absurd (ground arith)
at_most_trans (pos m) (negsuc n) z h g = absurd (ground arith)
at_most_trans (negsuc m) y (pos k) h g = refl
at_most_trans (negsuc m) (pos n) (negsuc k) h g = absurd (ground arith)
at_most_trans (negsuc m) (negsuc n) (negsuc k) h g = ground arith

-- 1000 and 1000 are 2000.
thousand_more : plus (whole 1000) (whole 1000) ≡ whole 2000
unfolding plus whole Bool-cases
thousand_more = refl

-- 2 ^ 53 and 1 are 2 ^ 53.
lost_unit : plus (whole (2 ^ 53)) (whole 1) ≡ whole (2 ^ 53)
unfolding plus whole Bool-cases
lost_unit = refl
