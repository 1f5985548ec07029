-- ===== src/Actions/Runs.antt =====
-- What calls come to: that they return, and that they keep an invariant of the object, also where
-- they raise.
use morningstar_modbus_api.Prelude.{
  ◌≡◌, refl, ap, ◌∙◌, subst, Bool, true, false, List, [], ◌∷◌, Option, none, some,
}
use morningstar_modbus_api.Errors.{Result, ok, err, ok-injective}
use morningstar_modbus_api.Actions.{
  Action, proceed, settle, for_each, tolerate, skip_if, ◌>>=◌, ◌>>◌,
}

-- From an object with Pre the call returns, with Post of its result and of the object afterwards.
abbrev pub Runs {ℓ} : {P A : Type ℓ} → (P → Type ℓ) → (A → P → Type ℓ) → Action P A → Type ℓ
Runs {P = P} {A = A} Pre Post m =
    (p : P) → Pre p → (a : A) × (p' : P) × (m p ≡ (ok a, p')) × Post a p'

-- The call keeps Inv, and what it returns has Q.
abbrev pub Keeps {ℓ} : {P A : Type ℓ} → (P → Type ℓ) → (A → Type ℓ) → Action P A → Type ℓ
Keeps {P = P} {A = A} Inv Q m = (p : P) → Inv p → Inv (m p).1 × ((a : A) → (m p).0 ≡ ok a → Q a)

-- The words of an optional read have Q if there are any.
abbrev pub Found {ℓ} : {A : Type ℓ} → (A → Type ℓ) → Option A → Type ℓ
Found Q none = Unit
Found Q (some a) = Q a

module _ {ℓ} {P : Type ℓ} where
  pub Runs->>= :
      {A B : Type ℓ} (Pre : P → Type ℓ) (Mid : A → P → Type ℓ) (Post : B → P → Type ℓ)
      (m : Action P A) (f : A → Action P B)
      → Runs Pre Mid m
      → ((a : A) → Runs (Mid a) Post (f a))
      → Runs Pre Post (m >>= f)
  Runs->>= Pre Mid Post m f h k p c =
      let (a, p', e, mid) = h p c in
      let (b, p'', e', post) = k a p' mid in (b, p'', ap (proceed f) e ∙ e', post)

  pub Runs->> :
      {B : Type ℓ} (Pre : P → Type ℓ) (Mid : P → Type ℓ) (Post : B → P → Type ℓ)
      (m : Action P (Unit {ℓ})) (k : Action P B)
      → Runs Pre (λ u. Mid) m
      → Runs Mid Post k
      → Runs Pre Post (m >> k)
  Runs->> Pre Mid Post m k h g p c =
      let (a, p', e, mid) = h p c in
      let (b, p'', e', post) = g p' mid in (b, p'', ap (proceed (λ done. k)) e ∙ e', post)

  Keeps-proceed :
      {A B : Type ℓ} (Inv : P → Type ℓ) (Q : A → Type ℓ) (T : B → Type ℓ) (f : A → Action P B)
      (r : Result A × P)
      → Inv r.1 × ((a : A) → r.0 ≡ ok a → Q a)
      → ((a : A) → Q a → Keeps Inv T (f a))
      → Inv (proceed f r).1 × ((b : B) → (proceed f r).0 ≡ ok b → T b)
  Keeps-proceed Inv Q T f (ok a, p) (inv, q) k = k a (q a refl) p inv
  Keeps-proceed Inv Q T f (err e, p) (inv, q) k = (inv, λ b h. cc)

  pub Keeps->>= :
      {A B : Type ℓ} (Inv : P → Type ℓ) (Q : A → Type ℓ) (T : B → Type ℓ) (m : Action P A)
      (f : A → Action P B)
      → Keeps Inv Q m
      → ((a : A) → Q a → Keeps Inv T (f a))
      → Keeps Inv T (m >>= f)
  Keeps->>= Inv Q T m f h k p c = Keeps-proceed Inv Q T f (m p) (h p c) k

  pub Keeps->> :
      {B : Type ℓ} (Inv : P → Type ℓ) (T : B → Type ℓ) (m : Action P (Unit {ℓ})) (k : Action P B)
      → Keeps Inv (λ u. Unit) m
      → Keeps Inv T k
      → Keeps Inv T (m >> k)
  Keeps->> Inv T m k h g p c = Keeps-proceed Inv (λ u. Unit) T (λ done. k) (m p) (h p c) (λ a q. g)

  pub Keeps-for_each :
      {A : Type ℓ} (Inv : P → Type ℓ) (xs : List A) (body : A → Action P (Unit {ℓ}))
      → ((x : A) → Keeps Inv (λ u. Unit) (body x))
      → Keeps Inv (λ u. Unit) (for_each xs body)
  Keeps-for_each Inv [] body h p c = (c, λ a e. tt)
  Keeps-for_each Inv (x ∷ xs) body h p c =
      Keeps->> Inv (λ u. Unit) (body x) (for_each xs body) (h x) (Keeps-for_each Inv xs body h) p c

  pub Keeps-skip_if :
      (Inv : P → Type ℓ) (test : Bool) (body : Action P (Unit {ℓ}))
      → Keeps Inv (λ u. Unit) body
      → Keeps Inv (λ u. Unit) (skip_if test body)
  Keeps-skip_if Inv true body h p c = (c, λ u e. tt)
  Keeps-skip_if Inv false body h p c = h p c

  Keeps-settle :
      {A : Type ℓ} (Inv : P → Type ℓ) (Q : A → Type ℓ) (optional : Bool) (r : Result A × P)
      → Inv r.1 × ((a : A) → r.0 ≡ ok a → Q a)
      → Inv (settle optional r).1 × ((a : Option A) → (settle optional r).0 ≡ ok a → Found Q a)
  Keeps-settle Inv Q optional (ok a, p) (inv, q) =
      (inv, λ b h. subst (Found Q) (ok-injective (some a) b h) (q a refl))
  Keeps-settle Inv Q true (err e, p) (inv, q) =
      (inv, λ b h. subst (Found Q) (ok-injective none b h) tt)
  Keeps-settle Inv Q false (err e, p) (inv, q) = (inv, λ b h. cc)

  pub Keeps-tolerate :
      {A : Type ℓ} (Inv : P → Type ℓ) (Q : A → Type ℓ) (optional : Bool) (m : Action P A)
      → Keeps Inv Q m
      → Keeps Inv (Found Q) (tolerate optional m)
  Keeps-tolerate Inv Q optional m h p c = Keeps-settle Inv Q optional (m p) (h p c)
