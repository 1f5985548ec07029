-- ===== src/Catalog/Compatibility/Order.antt =====
-- compare_versions as an order on versions that does not see trailing zeros
-- (src/morningstar_modbus/catalog/compatibility.py).
use morningstar_modbus_api.Prelude.{
  ℕ, zero, suc, ◌-◌, ◌≤◌, ◌<◌, ◌≡◌, ◌↔◌, ◌⊎◌, refl, sym, ap, subst, ◌∙◌, inl, inr, Bool, true,
  false, List, [], ◌∷◌, ◌++◌, arith, lt→ltb, max, length, length-append, ltb, ◌==◌, Bool-cases,
  if◌then◌else◌,
}
use morningstar_modbus_api.Prelude.Int.{ℤ, sub_ℕ, pos, negsuc}
use morningstar_modbus_api.Errors.{ok, ok-injective, raise_if_passed}
use morningstar_modbus_api.Catalog.Compatibility.{
  Firmware, version_tuple, compare_versions, tuple_less, pad, zeros, one_if,
}

-- The component at an index; a version has zeros after its last one.
abbrev pub nth : ℕ → List ℕ → ℕ
nth i [] = 0
nth zero (x ∷ a) = x
nth (suc i) (x ∷ a) = nth i a

-- The first component in which two versions differ is smaller in the first version.
pub record Precedes (a b : List ℕ) : Type 0 where
  pub place : ℕ
  pub agree : (i : ℕ) → i < place → nth i a ≡ nth i b
  pub smaller : nth place a < nth place b

nth-zeros : (i n : ℕ) → nth i (zeros n) ≡ 0
nth-zeros i zero = refl
nth-zeros zero (suc n) = refl
nth-zeros (suc i) (suc n) = nth-zeros i n

nth-append_zeros : (i n : ℕ) (a : List ℕ) → nth i (a ++ zeros n) ≡ nth i a
nth-append_zeros i n [] = nth-zeros i n
nth-append_zeros zero n (x ∷ a) = refl
nth-append_zeros (suc i) n (x ∷ a) = nth-append_zeros i n a

length-zeros : (n : ℕ) → length (zeros n) ≡ n
length-zeros zero = refl
length-zeros (suc n) = ap suc (length-zeros n)

length-pad : (width : ℕ) (a : List ℕ) → length a ≤ width → length (pad width a) ≡ width
length-pad width a h =
    omega (arith, length-append a (zeros (width - length a)), length-zeros (width - length a))

Precedes-later : (x : ℕ) (a b : List ℕ) → Precedes a b → Precedes (x ∷ a) (x ∷ b)
Precedes-later x a b p = record { place = suc p.place; agree = agree; smaller = p.smaller }
  where
    agree : (i : ℕ) → i < suc p.place → nth i (x ∷ a) ≡ nth i (x ∷ b)
    agree zero h = refl
    agree (suc i) h = p.agree i (omega arith)

Precedes-cons :
    (x y : ℕ) (a b : List ℕ) → Precedes (x ∷ a) (y ∷ b) → (x < y) ⊎ ((x ≡ y) × Precedes a b)
Precedes-cons x y a b p = by_place p.place refl
  where
    by_place : (k : ℕ) → p.place ≡ k → (x < y) ⊎ ((x ≡ y) × Precedes a b)
    by_place zero e = inl (subst (λ k. nth k (x ∷ a) < nth k (y ∷ b)) e p.smaller)
    by_place (suc k) e = inr (
      p.agree 0 (omega (arith, e)),
      record {
        place = k;
        agree = λ i h. p.agree (suc i) (omega (arith, e));
        smaller = subst (λ k. nth k (x ∷ a) < nth k (y ∷ b)) e p.smaller;
      },
    )

tuple_less_iff : (a b : List ℕ) → length a ≡ length b → (tuple_less a b ≡ true) ↔ Precedes a b
tuple_less_iff [] [] e = (λ h. cc, λ p. absurd (omega (arith, p.smaller)))
tuple_less_iff [] (y ∷ b) e = absurd (omega arith)
tuple_less_iff (x ∷ a) [] e = absurd (omega arith)
tuple_less_iff (x ∷ a) (y ∷ b) e =
    let rest = tuple_less_iff a b (omega arith) in
    elim (Bool-cases (x == y)) [
      | inl q ↦
          let same : x ≡ y = ground arith in
          (
            λ h.
                subst (λ t. Precedes (x ∷ a) (t ∷ b)) same
                  (Precedes-later x a b
                    (rest.0 (sym (ap (λ t. if t then tuple_less a b else ltb x y) q) ∙ h))),
            λ p. elim (Precedes-cons x y a b p) [
              | inl less ↦ absurd (omega arith)
              | inr (_, later) ↦ ap (λ t. if t then tuple_less a b else ltb x y) q ∙ rest.1 later
            ],
          )
      | inr q ↦
          let apart : x ≡ y → ⊥ = λ s. ground arith in
          (
            λ h.
                let less : ltb x y ≡ true =
                  sym (ap (λ t. if t then tuple_less a b else ltb x y) q) ∙ h in
                record { place = 0; agree = λ i k. absurd (omega arith); smaller = ground arith },
            λ p. elim (Precedes-cons x y a b p) [
              | inl less ↦ ap (λ t. if t then tuple_less a b else ltb x y) q ∙ lt→ltb x y less
              | inr (s, later) ↦ absurd (apart s)
            ],
          )
    ]

Precedes-pad : (v w : ℕ) (a b : List ℕ) → Precedes (pad v a) (pad w b) ↔ Precedes a b
Precedes-pad v w a b = (
  λ p. record {
    place = p.place;
    agree = λ i h. sym (here i) ∙ p.agree i h ∙ there i;
    smaller = omega (arith, here p.place, there p.place, p.smaller);
  },
  λ p. record {
    place = p.place;
    agree = λ i h. here i ∙ p.agree i h ∙ sym (there i);
    smaller = omega (arith, here p.place, there p.place, p.smaller);
  },
)
  where
    here : (i : ℕ) → nth i (pad v a) ≡ nth i a
    here i = nth-append_zeros i (v - length a) a

    there : (i : ℕ) → nth i (pad w b) ≡ nth i b
    there i = nth-append_zeros i (w - length b) b

padded_less_iff :
    (width : ℕ) (a b : List ℕ)
    → length a ≤ width
    → length b ≤ width
    → (tuple_less (pad width a) (pad width b) ≡ true) ↔ Precedes a b
padded_less_iff width a b p q =
    let less =
      tuple_less_iff (pad width a) (pad width b)
        (length-pad width a p ∙ sym (length-pad width b q)) in
    let padded = Precedes-pad width width a b in
    (λ h. padded.0 (less.0 h), λ r. less.1 (padded.1 r))

Precedes-asymmetric : (a b : List ℕ) → Precedes a b → Precedes b a → ⊥
Precedes-asymmetric a b p q = elim (Bool-cases (ltb p.place q.place)) [
  | inl h ↦ omega (arith, p.smaller, q.agree p.place (ground arith))
  | inr h ↦ elim (Bool-cases (p.place == q.place)) [
    | inl e ↦
        let same : p.place ≡ q.place = ground arith in
        let smaller = subst (λ k. nth k a < nth k b) same p.smaller in
        omega (arith, smaller, q.smaller)
    | inr e ↦ omega (arith, q.smaller, p.agree q.place (ground arith))
  ]
]

abbrev pub IsSignOf : Type 0 → Type 0 → ℤ → Type 0
IsSignOf L G c =
    ((c ≡ negsuc 0) ↔ L) × ((c ≡ pos 1) ↔ G) × ((c ≡ negsuc 0) ⊎ (c ≡ pos 1) ⊎ (c ≡ pos 0))

sign_lem :
    (x y : Bool) {L G : Type 0}
    → (x ≡ true) ↔ L
    → (y ≡ true) ↔ G
    → (L → G → ⊥)
    → IsSignOf L G (sub_ℕ (one_if y) (one_if x))
sign_lem true true l g apart = absurd (apart (l.0 refl) (g.0 refl))
sign_lem true false l g apart =
    ((λ h. l.0 refl, λ h. refl), (λ h. cc, λ h. absurd (apart (l.0 refl) h)), inl refl)
sign_lem false true l g apart =
    ((λ h. cc, λ h. absurd (apart h (g.0 refl))), (λ h. g.0 refl, λ h. refl), inr (inl refl))
sign_lem false false l g apart =
    ((λ h. cc, λ h. cc (l.1 h)), (λ h. cc, λ h. cc (g.1 h)), inr (inr refl))

-- A comparison that returns is -1 exactly if the left version precedes the right one, that is if
-- it is smaller at the first component where they differ, with zeros after the last component of
-- each; it is 1 exactly if the right one precedes; and 0 otherwise.
pub compare_versions_iff :
    (left right : Firmware) (c : ℤ)
    → compare_versions left right ≡ ok c
    → IsSignOf
        (Precedes (version_tuple left) (version_tuple right))
        (Precedes (version_tuple right) (version_tuple left))
        c
unfolding compare_versions
compare_versions_iff left right c h =
    let a = version_tuple left in
    let b = version_tuple right in
    let width = max (length a) (length b) in
    let left_fits : length a ≤ width = omega arith in
    let right_fits : length b ≤ width = omega arith in
    let (_, returned) = raise_if_passed _ _ _ h in
    subst (IsSignOf (Precedes a b) (Precedes b a)) (ok-injective _ _ returned) (
      sign_lem (tuple_less (pad width a) (pad width b)) (tuple_less (pad width b) (pad width a))
        (padded_less_iff width a b left_fits right_fits)
        (padded_less_iff width b a right_fits left_fits) (Precedes-asymmetric a b))
