-- ===== src/Prelude/Float.antt =====
-- Go's `float64`. The language gives no such numbers to a proof, so the type and its operations are
-- an interface; `int_floats` is a value of it with which the definitions run.
use Prim.Native.Nat.{ℕ, ◌+◌, ◌*◌, ◌/◌, ◌^◌, ◌≤◌}
use mathlib.Core.Path.{◌≡◌, refl}
use native.Mathlib.Omega.{arith}
use mini_edr.Prelude.Tests.{ltb}
use mathlib.Core.Bool.{Bool, true, false, not, ◌||◌}
use mathlib.Core.Option.{Option, none}
use mini_edr.Prelude.Int.{ℤ, pos, pos_part, neg_part, ltb_ℤ, leb_ℤ, int_beq, ◌+ℤ◌, ◌-ℤ◌, sub_ℕ}
use mini_edr.Prelude.Strings.{Text, decimal_ℤ}

pub record Float64 (F : Type 0) : Type 0 where
  pub of_int : ℤ → F
  -- int(v)
  pub trunc : F → ℤ
  pub neg : F → F
  pub add : F → F → F
  pub sub : F → F → F
  pub mul : F → F → F
  pub div : F → F → F
  pub lt : F → F → Bool
  pub le : F → F → Bool
  pub eq : F → F → Bool
  pub is_nan : F → Bool
  -- math.IsInf(x, 0)
  pub is_inf : F → Bool
  -- %.<n>f of fmt, and strconv.FormatFloat(v, 'f', -1, 64)
  pub fixed : ℕ → F → Text
  pub shortest : F → Text
  -- strconv.ParseFloat(s, 64)
  pub parse : Text → Option F

-- `<` on the whole numbers that a float64 holds exactly, and `<=` on the floats that are no NaN
pub record ComparesInts (F : Type 0) ⦃fl : Float64 F⦄ : Type 0 where
  pub lt-of_int :
      (m n : ℕ) → m ≤ 2 ^ 53 → n ≤ 2 ^ 53 → fl.lt (fl.of_int (pos m)) (fl.of_int (pos n)) ≡ ltb m n
  pub is_nan-of_int : (n : ℤ) → fl.is_nan (fl.of_int n) ≡ false
  pub le-not_lt :
      (x y : F) → fl.is_nan x ≡ false → fl.is_nan y ≡ false → fl.le x y ≡ not (fl.lt y x)

-- NaN in an argument of an operation makes its result NaN.
pub record PropagatesNan (F : Type 0) ⦃fl : Float64 F⦄ : Type 0 where
  pub nan_sub : (x y : F) → fl.is_nan x || fl.is_nan y ≡ true → fl.is_nan (fl.sub x y) ≡ true
  pub nan_mul : (x y : F) → fl.is_nan x || fl.is_nan y ≡ true → fl.is_nan (fl.mul x y) ≡ true
  pub nan_div : (x y : F) → fl.is_nan x || fl.is_nan y ≡ true → fl.is_nan (fl.div x y) ≡ true

abbrev pub mul_int : ℤ → ℤ → ℤ
mul_int a b =
    sub_ℕ (pos_part a * pos_part b + neg_part a * neg_part b)
      (pos_part a * neg_part b + neg_part a * pos_part b)

-- The quotient towards zero; what IEEE gives for a zero divisor has no integer.
abbrev pub div_int : ℤ → ℤ → ℤ
div_int a b =
    sub_ℕ ((pos_part a / pos_part b) + (neg_part a / neg_part b))
      ((pos_part a / neg_part b) + (neg_part a / pos_part b))

-- Whole numbers in the place of floats, for running the definitions.
instance abbrev pub int_floats : Float64 ℤ
int_floats = record {
  of_int = λ n. n;
  trunc = λ x. x;
  neg = λ x. pos 0 -ℤ x;
  add = ◌+ℤ◌;
  sub = ◌-ℤ◌;
  mul = mul_int;
  div = div_int;
  lt = ltb_ℤ;
  le = leb_ℤ;
  eq = int_beq;
  is_nan = λ x. false;
  is_inf = λ x. false;
  fixed = λ n x. decimal_ℤ x;
  shortest = decimal_ℤ;
  parse = λ s. none;
}

pub int_floats-ComparesInts : ComparesInts ℤ
int_floats-ComparesInts = record {
  lt-of_int = λ m n hm hn. ground arith;
  is_nan-of_int = λ n. refl;
  le-not_lt = λ x y hx hy. ground arith;
}

pub int_floats-PropagatesNan : PropagatesNan ℤ
int_floats-PropagatesNan = record {
  nan_sub = λ x y h. h;
  nan_mul = λ x y h. h;
  nan_div = λ x y h. h;
}
