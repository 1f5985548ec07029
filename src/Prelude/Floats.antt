-- ===== src/Prelude/Floats.antt =====
-- Floating-point arithmetic as the code uses it: an interface, since what the code decides on
-- floats is only a comparison of results that Python computes.
use Prim.Native.Nat.{ℕ, ◌+◌, ◌-◌, ◌*◌, ◌/◌}
use mathlib.Core.Path.{◌≡◌}
use mathlib.Core.Bool.{Bool, true, false, ◌&&◌}
use mathlib.Core.List.{List, [], ◌∷◌}
use mathlib.Core.Option.{Option, none, some}
use morningstar_modbus_api.Prelude.Int.{ℤ, pos, pos_part, neg_part, sub_ℕ, ◌+ℤ◌, ◌-ℤ◌, ltb_ℤ, leb_ℤ}
use morningstar_modbus_api.Prelude.Tests.{ltb, ◌==◌, if◌then◌else◌}

pub record Floats : Type 1 where
  pub Real : Type 0
  -- a < b and a == b
  pub less : Real → Real → Bool
  pub equal : Real → Real → Bool
  pub add : Real → Real → Real
  pub subtract : Real → Real → Real
  pub multiply : Real → Real → Real
  pub divide : Real → Real → Real
  pub of_ℕ : ℕ → Real
  -- int(x) of a number that is not negative
  pub floor : Real → ℕ

-- What comparisons of finite floats satisfy.
pub record IsOrder (F : Floats) : Type 0 where
  pub total : (a b : F.Real) → F.less a b ≡ false → F.equal a b ≡ false → F.less b a ≡ true
  pub transitive : (a b c : F.Real) → F.less a b ≡ true → F.less b c ≡ true → F.less a c ≡ true

module _ (F : Floats) where
  abbrev pub insert : F.Real → List F.Real → List F.Real
  insert x [] = x ∷ []
  insert x (y ∷ ys) = let rest = insert x ys in if F.less x y then x ∷ y ∷ ys else y ∷ rest

  -- sorted(values)
  abbrev pub sorted : List F.Real → List F.Real
  sorted [] = []
  sorted (x ∷ xs) = insert x (sorted xs)

  abbrev pub insert_slower : F.Real → List F.Real → List F.Real
  insert_slower x [] = x ∷ []
  insert_slower x (y ∷ ys) =
      let rest = insert_slower x ys in
      if F.equal x y then y ∷ ys else if F.less y x then x ∷ y ∷ ys else y ∷ rest

  -- sorted(set(values), reverse=True)
  abbrev pub sorted_set_reverse : List F.Real → List F.Real
  sorted_set_reverse [] = []
  sorted_set_reverse (x ∷ xs) = insert_slower x (sorted_set_reverse xs)

  abbrev pub max_from : F.Real → List F.Real → F.Real
  max_from m [] = m
  max_from m (x ∷ xs) = max_from (if F.less m x then x else m) xs

  -- max(values), if there are any
  abbrev pub max? : List F.Real → Option F.Real
  max? [] = none
  max? (x ∷ xs) = some (max_from x xs)

  abbrev pub sum_from : F.Real → List F.Real → F.Real
  sum_from s [] = s
  sum_from s (x ∷ xs) = sum_from (F.add s x) xs

  -- sum(values)
  abbrev pub sum : List F.Real → F.Real
  sum = sum_from (F.of_ℕ 0)

-- Numbers with two decimal places, on which the definitions can be run.
abbrev pub hundredths : Floats
hundredths = record {
  Real = ℕ;
  less = ltb;
  equal = λ a b. a == b;
  add = λ a b. a + b;
  subtract = λ a b. a - b;
  multiply = λ a b. a * b / 100;
  divide = λ a b. a * 100 / b;
  of_ℕ = λ n. n * 100;
  floor = λ a. a / 100;
}

-- Whole numbers, with those below zero.
abbrev pub integers : Floats
integers = record {
  Real = ℤ;
  less = ltb_ℤ;
  equal = λ a b. leb_ℤ a b && leb_ℤ b a;
  add = λ a b. a +ℤ b;
  subtract = λ a b. a -ℤ b;
  multiply = λ a b.
      sub_ℕ (pos_part a * pos_part b + neg_part a * neg_part b)
        (pos_part a * neg_part b + neg_part a * pos_part b);
  divide = λ a b. pos (pos_part a / pos_part b);
  of_ℕ = pos;
  floor = pos_part;
}
