-- ===== src/Float.antt =====
-- Floating-point numbers as an interface: the operations that the source uses of `f32` and `f64`,
-- and the laws of their order, which hold as long as no NaN occurs.
use k_engram.Prelude.{
  ℕ, ◌+◌, ◌-◌, ◌*◌, ◌/◌, Bool, true, false, ◌||◌, ◌≡◌, ltb, arith, ◌==◌, ◌^◌, not, ◌&&◌,
}

pub record Float : Type 1 where
  pub F : Type 0
  pub of_ℕ : ℕ → F
  -- A literal `n / 10 ^ k` of the source.
  pub decimal : ℕ → ℕ → F
  pub add : F → F → F
  pub sub : F → F → F
  pub mul : F → F → F
  pub div : F → F → F
  pub pow : F → F → F
  pub log2 : F → F
  pub sqrt : F → F
  -- `f32::MIN`.
  pub f32_min : F
  pub is_finite : F → Bool
  -- `<`, which is false if a NaN takes part.
  pub lt : F → F → Bool
  -- `==`.
  pub eqb : F → F → Bool

-- `<` is a strict weak order: no value is below itself, and "not above" is transitive.
pub record IsOrdered (fl : Float) : Type 0 where
  pub asym : (a b : fl.F) → fl.lt a b ≡ true → fl.lt b a ≡ false
  -- `==` holds of values of which neither is below the other.
  pub eq : (a b : fl.F) → fl.eqb a b ≡ (not (fl.lt a b) && not (fl.lt b a))
  pub trans : (a b c : fl.F) → fl.lt b a ≡ false → fl.lt c b ≡ false → fl.lt c a ≡ false

-- `a <= b` where no NaN occurs.
abbrev pub le? : (fl : Float) → fl.F → fl.F → Bool
le? fl a b = fl.lt a b || fl.eqb a b

-- A coarse instance for tests: natural numbers that count thousandths.
abbrev pub thousandths : Float
thousandths = record {
  F = ℕ;
  of_ℕ = λ n. n * 1000;
  decimal = λ n k. n * 1000 / 10 ^ k;
  add = λ a b. a + b;
  sub = λ a b. a - b;
  mul = λ a b. a * b / 1000;
  div = λ a b. a * 1000 / b;
  pow = λ a b. a;
  log2 = λ a. a;
  sqrt = λ a. a;
  f32_min = 0;
  is_finite = λ a. true;
  lt = ltb;
  eqb = λ a b. a == b;
}

pub thousandths-IsOrdered : IsOrdered thousandths
thousandths-IsOrdered = record {
  asym = λ a b h. ground arith;
  eq = λ a b. ground arith;
  trans = λ a b c h k. ground arith;
}

-- `a >= b` fails only if `a` is below `b`.
pub le?-false :
    (fl : Float) (ordered : IsOrdered fl) (a b : fl.F) → le? fl a b ≡ false → fl.lt b a ≡ true
le?-false fl ordered a b h = ground (arith, ordered.eq a b, ordered.asym a b)
