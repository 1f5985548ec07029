-- ===== src/Catalog/Registry/Fits.antt =====
-- When an alias of a profile fits a device (src/morningstar_modbus/catalog/registry.py).
use morningstar_modbus_api.Prelude.{
  ◌≡◌, ◌≢◌, ◌⊎◌, ◌↔◌, refl, sym, ap, ◌∙◌, subst, inl, inr, Bool, true, false, not, List, [], ◌∷◌,
  ◌++◌, ◌&&◌, ◌||◌, ◌==◌, any, arith, Bool-cases,
}
use morningstar_modbus_api.Prelude.Text.{Text, text_eq, text_eq_sound, text_eq_refl, starts_with}
use morningstar_modbus_api.Catalog.Registry.{contains, is_empty, names, normalize}

pub data Member {ℓ} {A : Type ℓ} (x : A) : List A → Type ℓ where
  here : (xs : List A) → Member x (x ∷ xs)
  there : (y : A) (xs : List A) → Member x xs → Member x (y ∷ xs)

pub any_iff {ℓ} :
    {A : Type ℓ} (p : A → Bool) (xs : List A)
    → (any p xs ≡ true) ↔ ((x : A) × Member x xs × (p x ≡ true))
any_iff {A = A} p xs = (found xs, λ (x, m, h). holds m h)
  where
    found : (xs : List A) → any p xs ≡ true → (x : A) × Member x xs × (p x ≡ true)
    found [] h = cc
    found (x ∷ xs) h = elim (Bool-cases (p x)) [
      | inl e ↦ (x, here xs, e)
      | inr e ↦
          let (y, m, q) = found xs (sym (ap (λ b. b || any p xs) e) ∙ h) in (y, there x xs m, q)
    ]

    holds : {x : A} {xs : List A} → Member x xs → p x ≡ true → any p xs ≡ true
    holds (here xs) h = ap (λ b. b || any p xs) h
    holds (there y xs m) h = elim (Bool-cases (p y)) [
      | inl e ↦ ap (λ b. b || any p xs) e
      | inr e ↦ ap (λ b. b || any p xs) e ∙ holds m h
    ]

starts_with_iff :
    (part s : Text) → (starts_with part s ≡ true) ↔ ((post : Text) × (s ≡ part ++ post))
starts_with_iff [] s = (λ h. (s, refl), λ h. refl)
starts_with_iff (c ∷ part) [] = (λ h. cc, λ (post, e). cc)
starts_with_iff (c ∷ part) (d ∷ s) = (
  λ h.
      let (same, rest) : ((c == d) ≡ true) × (starts_with part s ≡ true) = ground arith in
      let (post, e) = (starts_with_iff part s).0 rest in
      let letter : c ≡ d = ground arith in (post, ap (λ x. x ∷ s) (sym letter) ∙ ap (λ x. c ∷ x) e),
  λ (post, e).
      let letter : d ≡ c = cc in
      let rest : s ≡ part ++ post = cc in
      let starts = (starts_with_iff part s).1 (post, rest) in ground arith,
)

-- part in s: the text has the part somewhere.
abbrev pub Occurs : Text → Text → Type 0
Occurs part s = (pre : Text) × (post : Text) × (s ≡ pre ++ (part ++ post))

pub contains_iff : (part s : Text) → (contains part s ≡ true) ↔ Occurs part s
contains_iff part s = (found s, λ (pre, post, e). holds pre post s e)
  where
    found : (s : Text) → contains part s ≡ true → Occurs part s
    found [] h = let (post, e) = (starts_with_iff part []).0 h in ([], post, e)
    found (c ∷ s) h = elim (Bool-cases (starts_with part (c ∷ s))) [
      | inl e ↦ let (post, q) = (starts_with_iff part (c ∷ s)).0 e in ([], post, q)
      | inr e ↦
          let (pre, post, q) = found s (sym (ap (λ b. b || contains part s) e) ∙ h) in
          (c ∷ pre, post, ap (λ x. c ∷ x) q)
    ]

    at_front : (s : Text) → starts_with part s ≡ true → contains part s ≡ true
    at_front [] h = h
    at_front (c ∷ s) h = ap (λ b. b || contains part s) h

    holds : (pre post s : Text) → s ≡ pre ++ (part ++ post) → contains part s ≡ true
    holds [] post s e = at_front s ((starts_with_iff part s).1 (post, e))
    holds (c ∷ pre) post [] e = cc
    holds (c ∷ pre) post (d ∷ s) e =
        let rest : s ≡ pre ++ (part ++ post) = cc in
        let later = holds pre post s rest in
        elim (Bool-cases (starts_with part (d ∷ s))) [
          | inl h ↦ ap (λ b. b || contains part s) h
          | inr h ↦ ap (λ b. b || contains part s) h ∙ later
        ]

-- The normalized alias is not empty, and occurs in the identity or is the product.
abbrev pub Fits : Text → Text → Text → Type 0
Fits identity product alias =
    (normalize alias ≢ []) × (Occurs (normalize alias) identity ⊎ (normalize alias ≡ product))

pub is_empty-cases :
    (s : Text) → ((s ≡ []) × (is_empty s ≡ true)) ⊎ ((s ≢ []) × (is_empty s ≡ false))
is_empty-cases [] = inl (refl, refl)
is_empty-cases (c ∷ s) = inr (λ e. cc, refl)

either_iff : (a b : Bool) → ((a || b) ≡ true) ↔ ((a ≡ true) ⊎ (b ≡ true))
either_iff true b = (λ h. inl refl, λ h. refl)
either_iff false b = (λ h. inr h, λ h. elim h [ inl e ↦ cc | inr e ↦ e ])

pub names_iff :
    (identity product alias : Text)
    → (names identity product alias ≡ true) ↔ Fits identity product alias
unfolding names
names_iff identity product alias = elim (is_empty-cases (normalize alias)) [
  | inl (nil, e) ↦ (
    λ h. let no : false ≡ true = sym (ap (λ b. not b && rest) e) ∙ h in cc,
    λ (some_alias, fits). absurd (some_alias nil),
  )
  | inr (some_alias, e) ↦ (
    λ h.
        let either = sym (ap (λ b. not b && rest) e) ∙ h in
        (
          some_alias,
          elim ((either_iff (contains n identity) (text_eq n product)).0 either) [
            | inl c ↦ inl ((contains_iff n identity).0 c)
            | inr q ↦ inr (text_eq_sound n product q)
          ],
        ),
    λ (_, fits).
        ap (λ b. not b && rest) e
        ∙ (either_iff (contains n identity) (text_eq n product)).1 (elim fits [
          | inl o ↦ inl ((contains_iff n identity).1 o)
          | inr q ↦ inr (subst (λ p. text_eq n p ≡ true) q (text_eq_refl n))
        ]),
  )
]
  where
    n : Text
    n = normalize alias

    rest : Bool
    rest = contains (normalize alias) identity || text_eq (normalize alias) product
