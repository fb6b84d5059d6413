-- ===== src/Base/Tenths.antt =====
-- An arithmetic that meets `IsOrdered`: whole tenths, as signed integers. It has no NaN and no
-- rounding but that of a product, a quotient and a logarithm, which are rounded towards zero.
use toposcope.Base.{
  ℕ, zero, suc, ◌+◌, ◌*◌, ◌/◌, ◌≡◌, refl, ◌⊎◌, Bool, true, not, arith, leb, Str, decimal, ◌∷◌,
  if◌then◌else◌,
}
use toposcope.Base.Int.{ℤ, pos, negsuc, ltb_ℤ, ◌+ℤ◌, pos_part, neg_part}
use toposcope.Base.Float.{Float, IsOrdered}

abbrev negate : ℤ → ℤ
negate (pos zero) = pos 0
negate (pos (suc n)) = negsuc n
negate (negsuc n) = pos (suc n)

abbrev times_tenths : ℤ → ℤ → ℤ
times_tenths (pos a) (pos b) = pos (a * b / 10)
times_tenths (pos a) (negsuc b) = negate (pos (a * suc b / 10))
times_tenths (negsuc a) (pos b) = negate (pos (suc a * b / 10))
times_tenths (negsuc a) (negsuc b) = pos (suc a * suc b / 10)

abbrev divide_tenths : ℤ → ℤ → ℤ
divide_tenths (pos a) (pos b) = pos (a * 10 / b)
divide_tenths (pos a) (negsuc b) = negate (pos (a * 10 / suc b))
divide_tenths (negsuc a) (pos b) = negate (pos (suc a * 10 / b))
divide_tenths (negsuc a) (negsuc b) = pos (suc a * 10 / suc b)

abbrev leb_ℤ : ℤ → ℤ → Bool
leb_ℤ a b = leb (pos_part a + neg_part b) (pos_part b + neg_part a)

-- The whole part of the logarithm to base 2.
halvings : ℕ → ℕ → ℕ
halvings zero n = 0
halvings (suc fuel) n = let rest = suc (halvings fuel (n / 2)) in if leb n 1 then 0 else rest

unfoldable pub log2_tenths : ℤ → ℤ
unfolding halvings
log2_tenths (pos n) = pos (10 * halvings n (n / 10))
log2_tenths (negsuc n) = negsuc 0

abbrev format_tenths : ℤ → Str
format_tenths (pos n) = decimal (n / 10)
format_tenths (negsuc n) = b'-' ∷ decimal (suc n / 10)

instance abbrev pub tenths_float : Float ℤ
tenths_float = record {
  of_nat = λ n. pos (n * 10);
  tenths = λ n. pos n;
  neg = negate;
  plus = ◌+ℤ◌;
  times = times_tenths;
  divide = divide_tenths;
  minimum = λ x y. if leb_ℤ x y then x else y;
  log2 = log2_tenths;
  le = leb_ℤ;
  lt = ltb_ℤ;
  format = format_tenths;
}

lt-eq-not-le_tenths : (x y : ℤ) → ltb_ℤ x y ≡ not (leb_ℤ y x)
lt-eq-not-le_tenths x y = ground arith

trans_tenths : (x y z : ℤ) → leb_ℤ x y ≡ true → leb_ℤ y z ≡ true → leb_ℤ x z ≡ true
trans_tenths x y z h k = ground arith

total_tenths : (x y : ℤ) → (leb_ℤ x y ≡ true) ⊎ (leb_ℤ y x ≡ true)
total_tenths x y = ground arith

plus_nonneg_tenths :
    (x y : ℤ) → leb_ℤ (pos 0) x ≡ true → leb_ℤ (pos 0) y ≡ true → leb_ℤ (pos 0) (x +ℤ y) ≡ true
unfolding ◌+ℤ◌
plus_nonneg_tenths x y h k = ground arith

plus_nonpos_tenths :
    (x y : ℤ) → leb_ℤ x (pos 0) ≡ true → leb_ℤ y (pos 0) ≡ true → leb_ℤ (x +ℤ y) (pos 0) ≡ true
unfolding ◌+ℤ◌
plus_nonpos_tenths x y h k = ground arith

times_nonneg_tenths :
    (x y : ℤ)
    → leb_ℤ (pos 0) x ≡ true
    → leb_ℤ (pos 0) y ≡ true
    → leb_ℤ (pos 0) (times_tenths x y) ≡ true
times_nonneg_tenths (pos a) (pos b) h k = ground arith
times_nonneg_tenths (pos a) (negsuc b) h k = absurd (ground arith)
times_nonneg_tenths (negsuc a) y h k = absurd (ground arith)

negate_nonpos : (n : ℕ) → leb_ℤ (negate (pos n)) (pos 0) ≡ true
negate_nonpos zero = ground arith
negate_nonpos (suc n) = ground arith

times_nonpos_tenths :
    (x : ℤ) (n : ℕ) → leb_ℤ x (pos 0) ≡ true → leb_ℤ (times_tenths x (pos n)) (pos 0) ≡ true
times_nonpos_tenths (pos zero) n h = ground arith
times_nonpos_tenths (pos (suc a)) n h = absurd (ground arith)
times_nonpos_tenths (negsuc a) n h = negate_nonpos (suc a * n / 10)

nonneg_of_lt : (x : ℤ) → ltb_ℤ (pos 0) x ≡ true → leb_ℤ (pos 0) x ≡ true
nonneg_of_lt x h = ground arith

log2_nonneg_tenths :
    (x : ℤ) → leb_ℤ (pos 0) x ≡ true → leb_ℤ (pos 0) (log2_tenths (pos 10 +ℤ x)) ≡ true
unfolding log2_tenths ◌+ℤ◌
log2_nonneg_tenths (pos n) h = ground arith
log2_nonneg_tenths (negsuc n) h = absurd (ground arith)

plus_zero_tenths : pos 0 +ℤ pos 0 ≡ pos 0
unfolding ◌+ℤ◌
plus_zero_tenths = refl

neg_nonpos_tenths : (x : ℤ) → leb_ℤ (pos 0) x ≡ true → leb_ℤ (negate x) (pos 0) ≡ true
neg_nonpos_tenths (pos n) h = negate_nonpos n
neg_nonpos_tenths (negsuc n) h = absurd (ground arith)

pub tenths-IsOrdered : IsOrdered ℤ
tenths-IsOrdered = record {
  le_refl_left = λ x y h. ground arith;
  le_refl_right = λ x y h. ground arith;
  le_trans = trans_tenths;
  le_total = λ x y h k. total_tenths x y;
  lt-eq-not-le = λ x y h k. lt-eq-not-le_tenths x y;
  of_nat_mono = λ m n h. ground arith;
  tenths_pos = λ n h. ground arith;
  plus_nonneg = plus_nonneg_tenths;
  plus_nonpos = plus_nonpos_tenths;
  plus_zero = plus_zero_tenths;
  neg_nonpos = neg_nonpos_tenths;
  IsFinite = λ x. Unit;
  of_nat-IsFinite = λ n. tt;
  tenths-IsFinite = λ n. tt;
  neg-IsFinite = λ x h. tt;
  times_nonneg = λ x y h _ k. times_nonneg_tenths x y (nonneg_of_lt x h) k;
  times_nonneg' = λ x y h k _. times_nonneg_tenths x y h (nonneg_of_lt y k);
  times_nonpos = λ x n h _. times_nonpos_tenths x (n * 10) h;
  minimum_nonneg = λ x y h k. ground arith;
  log2_nonneg = log2_nonneg_tenths;
}
