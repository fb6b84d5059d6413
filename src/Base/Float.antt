-- ===== src/Base/Float.antt =====
-- What the scoring code does with a float64. The arithmetic of the machine is not modelled: the
-- type and its operations are a parameter, `Float`, and `IsOrdered` holds the facts on which the
-- theorems rest, each true of IEEE 754 arithmetic, infinities and NaN included.
use toposcope.Base.{ℕ, ◌≤◌, ◌<◌, ◌≡◌, ◌⊎◌, Bool, true, not, Str}

pub record Float (W : Type 0) : Type 0 where
  -- float64(n), and the literals n.0
  pub of_nat : ℕ → W
  -- the literal n / 10
  pub tenths : ℕ → W
  pub neg : W → W
  pub plus : W → W → W
  pub times : W → W → W
  pub divide : W → W → W
  -- math.Min
  pub minimum : W → W → W
  -- math.Log2
  pub log2 : W → W
  pub le : W → W → Bool
  pub lt : W → W → Bool
  -- Sprintf("%.0f", x)
  pub format : W → Str

module _ {W : Type 0} ⦃f : Float W⦄ where
  infix 4 ◌≼◌ ◌≺◌
  abbrev pub ◌≼◌ : W → W → Type 0
  x ≼ y = f.le x y ≡ true

  abbrev pub ◌≺◌ : W → W → Type 0
  x ≺ y = f.lt x y ≡ true

-- NaN is the value that is not `<=` itself; the order is total away from it.
pub record IsOrdered (W : Type 0) ⦃f : Float W⦄ : Type 1 where
  pub le_refl_left : (x y : W) → x ≼ y → x ≼ x
  pub le_refl_right : (x y : W) → x ≼ y → y ≼ y
  pub of_nat_mono : (m n : ℕ) → m ≤ n → f.of_nat m ≼ f.of_nat n
  pub tenths_pos : (n : ℕ) → 0 < n → f.of_nat 0 ≺ f.tenths n
  -- the sum of two numbers that are not negative is not negative, and likewise below
  pub plus_nonneg : (x y : W) → f.of_nat 0 ≼ x → f.of_nat 0 ≼ y → f.of_nat 0 ≼ f.plus x y
  pub plus_nonpos : (x y : W) → x ≼ f.of_nat 0 → y ≼ f.of_nat 0 → f.plus x y ≼ f.of_nat 0
  pub le_trans : (x y z : W) → x ≼ y → y ≼ z → x ≼ z
  pub plus_zero : f.plus (f.of_nat 0) (f.of_nat 0) ≡ f.of_nat 0
  pub neg_nonpos : (x : W) → f.of_nat 0 ≼ x → f.neg x ≼ f.of_nat 0
  pub lt-eq-not-le : (x y : W) → x ≼ x → y ≼ y → f.lt x y ≡ not (f.le y x)
  -- finite numbers, among them those that come from an int or a literal
  pub IsFinite : W → Type 0
  pub of_nat-IsFinite : (n : ℕ) → IsFinite (f.of_nat n)
  pub tenths-IsFinite : (n : ℕ) → IsFinite (f.tenths n)
  pub neg-IsFinite : (x : W) → IsFinite x → IsFinite (f.neg x)
  pub le_total : (x y : W) → x ≼ x → y ≼ y → (x ≼ y) ⊎ (y ≼ x)
  -- a positive finite factor keeps the sign; so does a negative one of an int, turned round
  pub times_nonneg :
      (x y : W) → f.of_nat 0 ≺ x → IsFinite x → f.of_nat 0 ≼ y → f.of_nat 0 ≼ f.times x y
  pub times_nonneg' :
      (x y : W) → f.of_nat 0 ≼ x → f.of_nat 0 ≺ y → IsFinite y → f.of_nat 0 ≼ f.times x y
  pub times_nonpos :
      (x : W) (n : ℕ) → x ≼ f.of_nat 0 → IsFinite x → f.times x (f.of_nat n) ≼ f.of_nat 0
  pub minimum_nonneg : (x y : W) → f.of_nat 0 ≼ x → f.of_nat 0 ≼ y → f.of_nat 0 ≼ f.minimum x y
  pub log2_nonneg : (x : W) → f.of_nat 0 ≼ x → f.of_nat 0 ≼ f.log2 (f.plus (f.of_nat 1) x)
