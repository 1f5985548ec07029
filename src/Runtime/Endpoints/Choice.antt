-- ===== src/Runtime/Endpoints/Choice.antt =====
-- Which endpoint of a controller is chosen (src/morningstar_modbus/runtime/watcher.py).
use morningstar_modbus_api.Prelude.{
  ℕ, suc, ◌≡◌, refl, ap, ◌∙◌, sym, subst, ◌⊎◌, inl, inr, Bool, true, false, Option, none, some,
  List, [], ◌∷◌, ltb, ◌==◌, all, All, get_elem?, arith, Bool-cases, if◌then◌else◌,
}
use morningstar_modbus_api.Prelude.Text.{Text}
use morningstar_modbus_api.Runtime.Endpoints.{
  Candidate, text_less, rank, preferred, min_from, best_of, has_key, existing_of, first_some,
  choose,
}

text_less_above :
    (s t u : Text) → text_less s t ≡ false → text_less t u ≡ false → text_less s u ≡ false
text_less_above [] [] u h k = k
text_less_above [] (d ∷ t) u h k = cc
text_less_above (c ∷ s) [] [] h k = refl
text_less_above (c ∷ s) [] (e ∷ u) h k = cc
text_less_above (c ∷ s) (d ∷ t) [] h k = refl
text_less_above (c ∷ s) (d ∷ t) (e ∷ u) h k = ground (arith, text_less_above s t u)

text_less_refl : (s : Text) → text_less s s ≡ false
text_less_refl [] = refl
text_less_refl (c ∷ s) = ground (arith, text_less_refl s)

ranked_above :
    (a b c : ℕ) (ab bc ac : Bool)
    → (ab ≡ false → bc ≡ false → ac ≡ false)
    → (if a == b then ab else ltb a b) ≡ false
    → (if b == c then bc else ltb b c) ≡ false
    → (if a == c then ac else ltb a c) ≡ false
ranked_above a b c ab bc ac h k l = ground (arith, h)

ranked_self : (a : ℕ) (t : Bool) → t ≡ false → (if a == a then t else ltb a a) ≡ false
ranked_self a t h = ground arith

not_before :
    (a b : ℕ) (ab ba : Bool)
    → (ab ≡ true → ba ≡ false)
    → (if a == b then ab else ltb a b) ≡ true
    → (if b == a then ba else ltb b a) ≡ false
not_before a b ab ba h k = ground (arith, h)

text_less_asym : (s t : Text) → text_less s t ≡ true → text_less t s ≡ false
text_less_asym [] [] h = cc
text_less_asym [] (d ∷ t) h = refl
text_less_asym (c ∷ s) [] h = cc
text_less_asym (c ∷ s) (d ∷ t) h = ground (arith, text_less_asym s t)

module _ {I : Type 0} where
  above :
      (x y z : Candidate I) → preferred x y ≡ false → preferred y z ≡ false → preferred x z ≡ false
  above x y z h k =
      ranked_above (rank x.device.endpoint) (rank y.device.endpoint) (rank z.device.endpoint) _ _ _
        (text_less_above x.key y.key z.key) h k

  self : (x : Candidate I) → preferred x x ≡ false
  self x = ranked_self (rank x.device.endpoint) _ (text_less_refl x.key)

  asym : (x y : Candidate I) → preferred x y ≡ true → preferred y x ≡ false
  asym x y h =
      not_before (rank x.device.endpoint) (rank y.device.endpoint) _ _ (text_less_asym x.key y.key)
        h

  -- No candidate is preferred to this one.
  abbrev pub IsLeast : Candidate I → List (Candidate I) → Type 0
  IsLeast x = All (λ y. preferred y x ≡ false)

  IsLeast-weaken :
      (x z : Candidate I) (xs : List (Candidate I))
      → preferred x z ≡ false
      → IsLeast x xs
      → IsLeast z xs
  IsLeast-weaken x z [] h all = tt
  IsLeast-weaken x z (y ∷ ys) h (here, later) = (above y x z here h, IsLeast-weaken x z ys h later)

  -- Where the best of some more candidates comes from.
  abbrev Comes : Candidate I → Candidate I → List (Candidate I) → Type 0
  Comes b best xs = (b ≡ best) ⊎ ((i : ℕ) × (get_elem? xs i ≡ some b))

  Comes-later :
      (b x best : Candidate I) (xs : List (Candidate I)) → Comes b x xs → Comes b best (x ∷ xs)
  Comes-later b x best xs (inl e) = inr (0, ap some (sym e))
  Comes-later b x best xs (inr (i, e)) = inr (suc i, e)

  Comes-kept :
      (b x best : Candidate I) (xs : List (Candidate I)) → Comes b best xs → Comes b best (x ∷ xs)
  Comes-kept b x best xs (inl e) = inl e
  Comes-kept b x best xs (inr (i, e)) = inr (suc i, e)

  min_from_lem :
      (best : Candidate I) (xs : List (Candidate I))
      → Comes (min_from best xs) best xs
        × (preferred best (min_from best xs) ≡ false)
        × IsLeast (min_from best xs) xs
  min_from_lem best [] = (inl refl, self best, tt)
  min_from_lem best (x ∷ xs) = elim (Bool-cases (preferred x best)) [
    | inl e ↦
        let (c, b, l) = min_from_lem x xs in
        let step : min_from best (x ∷ xs) ≡ min_from x xs =
          ap (λ t. min_from (if t then x else best) xs) e in
        subst (λ m. Comes m best (x ∷ xs) × (preferred best m ≡ false) × IsLeast m (x ∷ xs))
          (sym step)
          (
            Comes-later (min_from x xs) x best xs c,
            above best x (min_from x xs) (asym x best e) b,
            (b, l),
          )
    | inr e ↦
        let (c, b, l) = min_from_lem best xs in
        let step : min_from best (x ∷ xs) ≡ min_from best xs =
          ap (λ t. min_from (if t then x else best) xs) e in
        subst (λ m. Comes m best (x ∷ xs) × (preferred best m ≡ false) × IsLeast m (x ∷ xs))
          (sym step)
          (Comes-kept (min_from best xs) x best xs c, b, (above x best (min_from best xs) e b, l))
  ]

  -- One of the candidates.
  abbrev pub IsOne : Candidate I → List (Candidate I) → Type 0
  IsOne x xs = (i : ℕ) × (get_elem? xs i ≡ some x)

  best_of-IsLeast :
      (xs : List (Candidate I)) (x : Candidate I) → best_of xs ≡ some x → IsOne x xs × IsLeast x xs
  best_of-IsLeast [] x h = cc
  best_of-IsLeast (y ∷ ys) x h =
      let (c, b, l) = min_from_lem y ys in
      subst (λ m. IsOne m (y ∷ ys) × IsLeast m (y ∷ ys)) (some-injective (min_from y ys) x h)
        (one c, (b, l))
    where
      some-injective : (a b : Candidate I) → some a ≡ some b → a ≡ b
      some-injective a b e = cc

      one : Comes (min_from y ys) y ys → IsOne (min_from y ys) (y ∷ ys)
      one (inl e) = (0, ap some (sym e))
      one (inr (i, e)) = (suc i, e)

  -- No candidate stands at the key.
  abbrev pub IsFree : Option Text → List (Candidate I) → Type 0
  IsFree k = All (λ y. has_key k (Candidate.key y) ≡ false)

  existing_of_lem :
      (k : Option Text) (xs : List (Candidate I))
      → ((x : Candidate I) × (existing_of k xs ≡ some x) × IsOne x xs × (has_key k x.key ≡ true))
        ⊎ ((existing_of k xs ≡ none) × IsFree k xs)
  existing_of_lem k [] = inr (refl, tt)
  existing_of_lem k (x ∷ xs) = elim (Bool-cases (has_key k x.key)) [
    | inl e ↦ inl (x, ap (λ t. if t then some x else existing_of k xs) e, (0, refl), e)
    | inr e ↦ elim (existing_of_lem k xs) [
      | inl (y, f, (i, at), g) ↦
          inl (y, ap (λ t. if t then some x else existing_of k xs) e ∙ f, (suc i, at), g)
      | inr (f, l) ↦ inr (ap (λ t. if t then some x else existing_of k xs) e ∙ f, (e, l))
    ]
  ]

  -- The endpoint that is chosen for a controller is one of those that it was observed at: the one
  -- that it is bound to, if it was observed there, and else the least one, by the kind of its
  -- transport and then by its key.
  pub choose_lem :
      (existing_key : Option Text) (xs : List (Candidate I)) (x : Candidate I)
      → choose existing_key xs ≡ some x
      → IsOne x xs × ((has_key existing_key x.key ≡ true) ⊎ (IsFree existing_key xs × IsLeast x xs))
  unfolding choose
  choose_lem k xs x h = elim (existing_of_lem k xs) [
    | inl (y, e, at, g) ↦
        let same : y ≡ x = injective y x (sym (ap (λ o. first_some o (best_of xs)) e) ∙ h) in
        (
          subst (λ z. IsOne z xs) same at,
          inl (subst (λ z. has_key k (Candidate.key z) ≡ true) same g),
        )
    | inr (e, l) ↦
        let (at, least) = best_of-IsLeast xs x (sym (ap (λ o. first_some o (best_of xs)) e) ∙ h) in
        (at, inr (l, least))
  ]
    where
      injective : (a b : Candidate I) → some a ≡ some b → a ≡ b
      injective a b e = cc
