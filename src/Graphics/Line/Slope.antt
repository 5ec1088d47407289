-- ===== src/Graphics/Line/Slope.antt =====
-- `calc_slope_point` of wasabi/src/graphics.rs is the slope, rounded to the nearest integer.
use osdev_hikalium.Prelude.{
  ℕ, ◌+◌, ◌*◌, ◌/◌, ◌%◌, ◌^◌, ◌≤◌, ◌<◌, ◌≡◌, refl, ap, true, false, ◌==◌, ltb, leb, some, arith,
}
use osdev_hikalium.Prelude.Int.{pos, checked_i64-pos, pos-add, pos-mul}
use osdev_hikalium.Prelude.Usize.{ok}
use osdev_hikalium.Graphics.Line.{calc_slope_point}

-- The integer that is nearest to db * ia / da, the upper one of two.
abbrev pub nearest : ℕ → ℕ → ℕ → ℕ
nearest da db ia = (2 * db * ia + da) / da / 2

-- r is at most half a unit away from db * ia / da, and below the next integer.
pub record IsNearest (da db ia r : ℕ) : Type 0 where
  pub lower : 2 * (r * da) ≤ 2 * (db * ia) + da
  pub upper : 2 * (db * ia) + da < 2 * (r * da) + 2 * da
  pub within : r ≤ db

halved : (n da r : ℕ) → 0 < da → r ≡ n / da / 2 → (2 * (r * da) ≤ n) × (n < 2 * (r * da) + 2 * da)
halved n da r h e =
    let q = n / da in
    let two : q ≡ 2 * r + q % 2 = omega (arith, e) in
    let scaled : q * da ≡ (2 * r + q % 2) * da = ap (λ (t : ℕ). t * da) two in
    let split : (2 * r + q % 2) * da ≡ 2 * (r * da) + q % 2 * da = grind arith in
    let odd : q % 2 * da ≤ 1 * da = grind arith in
    let rest : n ≡ q * da + n % da = grind arith in
    let small : n % da < da = grind arith in omega (arith, scaled, split, odd, rest, small)

le_of_scaled : (a b c : ℕ) → 0 < c → a * c < b * c + c → a ≤ b
le_of_scaled a b c h lt = grind arith

pub nearest-IsNearest :
    (da db ia : ℕ) → 0 < da → db ≤ da → ia ≤ da → IsNearest da db ia (nearest da db ia)
nearest-IsNearest da db ia h hb hi =
    let r = nearest da db ia in
    let bounds = halved (2 * db * ia + da) da r h refl in
    let scaled : db * ia ≤ db * da = grind arith in
    record {
      lower = omega (arith, bounds);
      upper = omega (arith, bounds);
      within = le_of_scaled r db da h (omega (arith, bounds, scaled));
    }

pub calc_slope_point-runs :
    (da db ia : ℕ)
    → db ≤ da
    → 0 < da
    → ia ≤ da
    → da < 2 ^ 62
    → 2 * db * ia + da < 2 ^ 63
    → calc_slope_point (pos da) (pos db) (pos ia) ≡ ok (some (pos (nearest da db ia)))
unfolding calc_slope_point
calc_slope_point-runs da db ia h p i size fits =
    let below : ltb (da + 0) (db + 0) ≡ false = ground arith in
    let nonzero : (da + 0 == 0) ≡ false = ground arith in
    let lower : leb 0 (ia + 0) ≡ true = ground arith in
    let upper : leb (ia + 0) (da + 0) ≡ true = ground arith in
    rw
      (
        below,
        nonzero,
        lower,
        upper,
        pos-mul 2 db,
        checked_i64-pos (2 * db) (omega arith),
        pos-mul (2 * db) ia,
        checked_i64-pos (2 * db * ia) (omega arith),
        pos-add (2 * db * ia) da,
        checked_i64-pos (2 * db * ia + da) fits,
      )
      refl

-- When db is at most da, da is above 0, ia is at most da, da is below 2 ^ 62 and 2 * db * ia + da
-- is below 2 ^ 63, calc_slope_point does not overflow, and its result is the integer nearest to db
-- * ia / da, the upper one of two, and at most db.
pub calc_slope_point-IsNearest :
    (da db ia : ℕ)
    → 0 < da
    → db ≤ da
    → ia ≤ da
    → da < 2 ^ 62
    → 2 * db * ia + da < 2 ^ 63
    → (r : ℕ) × (calc_slope_point (pos da) (pos db) (pos ia) ≡ ok (some (pos r)))
      × IsNearest da db ia r
calc_slope_point-IsNearest da db ia p h i size fits = (
  nearest da db ia,
  calc_slope_point-runs da db ia h p i size fits,
  nearest-IsNearest da db ia p h i,
)
