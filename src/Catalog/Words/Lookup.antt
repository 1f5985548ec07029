-- ===== src/Catalog/Words/Lookup.antt =====
-- What a dict of register words holds after words are stored
-- (src/morningstar_modbus/catalog/profile.py).
use morningstar_modbus_api.Prelude.{
  ℕ, zero, suc, ◌+◌, ◌<◌, ◌≡◌, refl, subst, ap, ◌∙◌, inl, inr, true, some, List, [], ◌∷◌, length,
  arith, Bool-cases, if◌then◌else◌,
}
use morningstar_modbus_api.Catalog.Types.{RegisterFunction, holding, input, same_kind}
use morningstar_modbus_api.Catalog.Words.{
  WordKey, Words, same_word, word_at, store_words, raw_words,
}

-- There is a word at the key.
abbrev pub IsKnown : Words → WordKey → Type 0
IsKnown d k = (w : ℕ) × (word_at k d ≡ some w)

pub same_kind_refl : (f : RegisterFunction) → same_kind f f ≡ true
same_kind_refl holding = refl
same_kind_refl input = refl

pub same_word_refl : (k : WordKey) → same_word k k ≡ true
same_word_refl (f, a) = rw (same_kind_refl f) (ground arith)

IsKnown-entry : (d : Words) (k key : WordKey) (w : ℕ) → IsKnown d k → IsKnown ((key, w) ∷ d) k
IsKnown-entry d k key w (v, e) = elim (Bool-cases (same_word k key)) [
  | inl same ↦ (w, rw same refl)
  | inr apart ↦ (v, rw apart e)
]

-- Nothing is forgotten.
pub store_words-IsKnown_before :
    (f : RegisterFunction) (address : ℕ) (ws : List ℕ) (d : Words) (k : WordKey)
    → IsKnown d k
    → IsKnown (store_words f address ws d) k
store_words-IsKnown_before f address [] d k h = h
store_words-IsKnown_before f address (w ∷ ws) d k h =
    store_words-IsKnown_before f (address + 1) ws (((f, address), w) ∷ d) k
      (IsKnown-entry d k (f, address) w h)

-- Every address of a stored block is known.
pub store_words-IsKnown :
    (f : RegisterFunction) (address : ℕ) (ws : List ℕ) (d : Words) (i : ℕ)
    → i < length ws
    → IsKnown (store_words f address ws d) (f, address + i)
store_words-IsKnown f address [] d i h = absurd (omega (arith, h))
store_words-IsKnown f address (w ∷ ws) d zero h =
    let known_here : word_at (f, address + 0) (((f, address), w) ∷ d) ≡ some w =
      ap (λ t. if t then some w else word_at (f, address + 0) d)
        (ap (λ a. same_word (f, a) (f, address)) (omega arith) ∙ same_word_refl (f, address)) in
    store_words-IsKnown_before f (address + 1) ws (((f, address), w) ∷ d) (f, address + 0)
      (w, known_here)
store_words-IsKnown f address (w ∷ ws) d (suc i) h =
    subst (λ a. IsKnown (store_words f address (w ∷ ws) d) (f, a)) (omega arith)
      (store_words-IsKnown f (address + 1) ws (((f, address), w) ∷ d) i (omega (arith, h)))

-- A field whose addresses are all known has all its words.
pub length-raw_words :
    (f : RegisterFunction) (address count : ℕ) (d : Words)
    → ((i : ℕ) → i < count → IsKnown d (f, address + i))
    → length (raw_words f address count d) ≡ count
length-raw_words f address zero d h = refl
length-raw_words f address (suc count) d h =
    let (w, e) = h 0 (omega arith) in
    let plus_zero : address + 0 ≡ address = omega arith in
    let known : word_at (f, address) d ≡ some w =
      subst (λ a. word_at (f, a) d ≡ some w) plus_zero e in
    let later =
      length-raw_words f (address + 1) count d
        (λ i k. subst (λ a. IsKnown d (f, a)) (omega arith) (h (suc i) (omega (arith, k)))) in
    rw known (ap suc later)
