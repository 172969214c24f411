-- ===== src/Float.antt =====
-- Python's floats, which the language here lacks: an interface with the operations that the program
-- uses (`<`, and `/` of two integers), and the laws of IEEE comparison that the proofs rest on.
-- A literal such as 0.05 is the correctly rounded quotient `quot 5 100`.
use etl_agent.Prelude.{ℕ, ◌*◌, ◌≡◌, Bool, false, if◌then◌else◌, ltb, arith}

pub record FloatOps (F : Type 0) : Type 0 where
  pub lt : F → F → Bool
  pub quot : ℕ → ℕ → F

-- `x < x` holds of no float, not of NaN either.
pub record FloatLaws (F : Type 0) (ops : FloatOps F) : Type 0 where
  pub lt_irrefl : (x : F) → ops.lt x x ≡ false

module _ {F : Type 0} ⦃ops : FloatOps F⦄ where
  abbrev pub float_lt : F → F → Bool
  float_lt a b = ops.lt a b

  abbrev pub int_div : ℕ → ℕ → F
  int_div a b = ops.quot a b

  -- `min(a, b)`: the second argument if it is smaller, else the first
  abbrev pub float_min : F → F → F
  float_min a b = if ops.lt b a then b else a

-- Fractions of natural numbers, compared by cross-multiplication, meet the interface.
pub record Ratio : Type 0 where
  pub num : ℕ
  pub den : ℕ

abbrev pub ratio_lt : Ratio → Ratio → Bool
ratio_lt a b = ltb (a.num * b.den) (b.num * a.den)

instance abbrev pub ratio_ops : FloatOps Ratio
ratio_ops = record { lt = ratio_lt; quot = λ a b. record { num = a; den = b } }

ratio_irrefl : (x : Ratio) → ratio_lt x x ≡ false
ratio_irrefl x = ground arith

pub ratio_laws : FloatLaws Ratio ratio_ops
ratio_laws = record { lt_irrefl = ratio_irrefl }
