-- ===== src/Actions.antt =====
-- A method call that may raise: the object as it stands afterwards comes back with the result, also
-- after a raise, since what was written stays written.
pub mod Runs
use morningstar_modbus_api.Prelude.{Bool, true, false, Option, none, some, List, [], ◌∷◌}
use morningstar_modbus_api.Errors.{Error, Result, ok, err}

abbrev pub Action {ℓ} : Type ℓ → Type ℓ → Type ℓ
Action P A = P → Result A × P

module _ {ℓ} {P : Type ℓ} {A : Type ℓ} where
  abbrev pub pure : A → Action P A
  pure a p = (ok a, p)

  abbrev pub raise : Error → Action P A
  raise e p = (err e, p)

  -- An expression that may raise and changes nothing.
  abbrev pub lift : Result A → Action P A
  lift r p = (r, p)

  abbrev pub gets : (P → A) → Action P A
  gets f p = (ok (f p), p)

-- What follows a call, which an exception skips.
abbrev pub proceed {ℓ} :
    {P : Type ℓ} {A B : Type ℓ} → (A → Action P B) → Result A × P → Result B × P
proceed f (ok a, p) = f a p
proceed f (err e, p) = (err e, p)

infixl 5 ◌>>=◌
abbrev pub ◌>>=◌ {ℓ} : {P : Type ℓ} {A B : Type ℓ} → Action P A → (A → Action P B) → Action P B
◌>>=◌ m f p = proceed f (m p)

infixl 5 ◌>>◌
abbrev pub ◌>>◌ {ℓ} : {P : Type ℓ} {B : Type ℓ} → Action P (Unit {ℓ}) → Action P B → Action P B
◌>>◌ m k p = proceed (λ done. k) (m p)

abbrev pub modify {ℓ} : {P : Type ℓ} → (P → P) → Action P (Unit {ℓ})
modify f p = (ok tt, f p)

-- if test: continue, ahead of the rest of a loop's body
abbrev pub skip_if {ℓ} : {P : Type ℓ} → Bool → Action P (Unit {ℓ}) → Action P (Unit {ℓ})
skip_if true body = pure tt
skip_if false body = body

-- for x in xs: body(x)
abbrev pub for_each {ℓ} :
    {P : Type ℓ} {A : Type ℓ} → List A → (A → Action P (Unit {ℓ})) → Action P (Unit {ℓ})
for_each [] body = pure tt
for_each (x ∷ xs) body = body x >> for_each xs body

abbrev pub settle {ℓ} : {P : Type ℓ} {A : Type ℓ} → Bool → Result A × P → Result (Option A) × P
settle optional (ok a, p) = (ok (some a), p)
settle true (err e, p) = (ok none, p)
settle false (err e, p) = (err e, p)

-- try: m, except Exception: `if optional: continue`, else raise
abbrev pub tolerate {ℓ} : {P : Type ℓ} {A : Type ℓ} → Bool → Action P A → Action P (Option A)
tolerate optional m p = settle optional (m p)
