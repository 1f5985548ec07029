-- ===== src/Polling/Limiter/Spacing.antt =====
-- When PollPersistenceLimiter lets a controller write
-- (src/morningstar_modbus/polling/service.py).
use morningstar_modbus_api.Prelude.{
  ℕ, zero, suc, ◌+◌, ◌-◌, ◌≤◌, ◌<◌, ◌≡◌, ◌↔◌, refl, sym, ap, ◌∙◌, inl, inr, ltb, Bool, true, false,
  Option, none, some, List, [], ◌∷◌, arith, All, Bool-cases, ◌⊎◌, subst, ◌&&◌, if◌then◌else◌,
}
use morningstar_modbus_api.Prelude.Text.{Text, text_eq, text_eq_sound}
use morningstar_modbus_api.Prelude.Maps.{
  lookup, put, remove, lookup-remove_same, lookup-remove_other,
}
use morningstar_modbus_api.Errors.{ok, ok-injective}
use morningstar_modbus_api.Polling.Limiter.{
  new_limiter, PollPersistenceLimiter, is_early, should_persist, forget, Event, asks, forgets,
  after, writes, NoneAfter, IsClocked,
}

abbrev first : List ℕ → Option ℕ
first [] = none
first (w ∷ ws) = some w

-- Newest first.
abbrev IsDescending : List ℕ → Type 0
IsDescending [] = Unit
IsDescending (w ∷ ws) = All (λ older. older ≤ w) ws × IsDescending ws

abbrev early : Text → ℕ → PollPersistenceLimiter → Bool
early c now l = is_early l.interval now (lookup c l.last_write)

abbrev granted : Text → ℕ → PollPersistenceLimiter → PollPersistenceLimiter
granted c now l = record l { last_write = put c now l.last_write }

should_persist-cases :
    (c : Text) (now : ℕ) (l : PollPersistenceLimiter)
    → ((early c now l ≡ true) × (should_persist c now l ≡ (l, false)))
      ⊎ ((early c now l ≡ false) × (should_persist c now l ≡ (granted c now l, true)))
unfolding should_persist
should_persist-cases c now l = elim (Bool-cases (early c now l)) [
  | inl h ↦ inl (h, rw h refl)
  | inr h ↦ inr (h, rw h refl)
]

abbrev interval_of : PollPersistenceLimiter → ℕ
interval_of l = l.interval

interval_kept : (l : PollPersistenceLimiter) (h : List Event) → interval_of (after l h) ≡ l.interval
unfolding after forget
interval_kept l [] = refl
interval_kept l (asks c now ∷ earlier) = elim (should_persist-cases c now (after l earlier)) [
  | inl (_, e) ↦ ap (λ r. interval_of r.0) e ∙ interval_kept l earlier
  | inr (_, e) ↦ ap (λ r. interval_of r.0) e ∙ interval_kept l earlier
]
interval_kept l (forgets c ∷ earlier) = interval_kept l earlier

abbrev entry : Text → PollPersistenceLimiter → Option ℕ
entry c l = lookup c l.last_write

abbrev written : ℕ → List ℕ → Bool → Bool → List ℕ
written now rest same answer = if same && answer then now ∷ rest else rest

not_written : (now : ℕ) (rest : List ℕ) (same : Bool) → written now rest same false ≡ rest
not_written now rest true = refl
not_written now rest false = refl

-- What the limiter keeps of a controller is its last write.
entry-after :
    (l : PollPersistenceLimiter) (c : Text) (h : List Event)
    → l.last_write ≡ []
    → entry c (after l h) ≡ first (writes l c h)
unfolding after writes forget
entry-after l c [] fresh = ap (λ d. lookup c d) fresh
entry-after l c (asks d now ∷ earlier) fresh =
    let before = after l earlier in
    let ih = entry-after l c earlier fresh in
    let rest = writes l c earlier in
    elim (should_persist-cases d now before) [
      | inl (_, e) ↦
          ap (λ r. entry c r.0) e
          ∙ ih
          ∙ sym (
              ap first (
                ap (λ r. written now rest (text_eq c d) r.1) e
                ∙ not_written now rest (text_eq c d)))
      | inr (_, e) ↦ elim (Bool-cases (text_eq c d)) [
        | inl s ↦
            ap (λ r. entry c r.0) e
            ∙ ap (λ b. if b then some now else entry c before) s
            ∙ sym (
                ap first (
                  ap (λ r. written now rest (text_eq c d) r.1) e
                  ∙ ap (λ b. written now rest b true) s))
        | inr s ↦
            ap (λ r. entry c r.0) e
            ∙ ap (λ b. if b then some now else entry c before) s
            ∙ ih
            ∙ sym (
                ap first (
                  ap (λ r. written now rest (text_eq c d) r.1) e
                  ∙ ap (λ b. written now rest b true) s))
      ]
    ]
entry-after l c (forgets d ∷ earlier) fresh =
    let before = after l earlier in
    elim (Bool-cases (text_eq c d)) [
      | inl s ↦
          let same = text_eq_sound c d s in
          rw s (
            subst (λ t. lookup c (remove t before.last_write) ≡ none) same
              (lookup-remove_same c before.last_write))
      | inr s ↦ rw s (lookup-remove_other c d before.last_write s ∙ entry-after l c earlier fresh)
    ]

All-written :
    (P : ℕ → Type 0) (now : ℕ) (rest : List ℕ) (same answer : Bool)
    → P now
    → All P rest
    → All P (written now rest same answer)
All-written P now rest true true p h = (p, h)
All-written P now rest true false p h = h
All-written P now rest false answer p h = h

writes_not_later :
    (l : PollPersistenceLimiter) (c : Text) (now : ℕ) (h : List Event)
    → NoneAfter now h
    → All (λ w. w ≤ now) (writes l c h)
unfolding writes
writes_not_later l c now [] k = tt
writes_not_later l c now (asks d t ∷ earlier) k =
    All-written (λ w. w ≤ now) t (writes l c earlier) (text_eq c d)
      (should_persist d t (after l earlier)).1 k.0 (writes_not_later l c now earlier k.1)
writes_not_later l c now (forgets d ∷ earlier) k = elim (Bool-cases (text_eq c d)) [
  | inl s ↦ rw s tt
  | inr s ↦ rw s (writes_not_later l c now earlier k.1)
]

All-weaken :
    (w i now : ℕ) (ws : List ℕ)
    → w + i ≤ now
    → All (λ older. older ≤ w) ws
    → All (λ older. older + i ≤ now) ws
All-weaken w i now [] p h = tt
All-weaken w i now (v ∷ ws) p h = (omega (arith, h.0), All-weaken w i now ws p h.1)

IsDescending-written :
    (now : ℕ) (rest : List ℕ) (same answer : Bool)
    → All (λ w. w ≤ now) rest
    → IsDescending rest
    → IsDescending (written now rest same answer)
IsDescending-written now rest true true p h = (p, h)
IsDescending-written now rest true false p h = h
IsDescending-written now rest false answer p h = h

writes-IsDescending :
    (l : PollPersistenceLimiter) (c : Text) (h : List Event)
    → IsClocked h
    → IsDescending (writes l c h)
unfolding writes
writes-IsDescending l c [] k = tt
writes-IsDescending l c (asks d t ∷ earlier) k =
    let rest = writes l c earlier in
    let ih = writes-IsDescending l c earlier k.1 in
    let below = writes_not_later l c t earlier k.0 in
    IsDescending-written t rest (text_eq c d) (should_persist d t (after l earlier)).1 below ih
writes-IsDescending l c (forgets d ∷ earlier) k = elim (Bool-cases (text_eq c d)) [
  | inl s ↦ rw s tt
  | inr s ↦ rw s (writes-IsDescending l c earlier k)
]

early_iff :
    (i now : ℕ) (ws : List ℕ)
    → 0 < i
    → IsDescending ws
    → (is_early i now (first ws) ≡ false) ↔ All (λ w. w + i ≤ now) ws
early_iff i now [] p d = (λ h. tt, λ h. refl)
early_iff i now (w ∷ ws) p d =
    let gap : ltb (now - w) i ≡ false → w + i ≤ now = λ h. ground arith in
    (λ h. (gap h, All-weaken w i now ws (gap h) d.0), λ h. ground arith)

new_limiter_eq_ok :
    (i : ℕ) (l : PollPersistenceLimiter)
    → new_limiter i ≡ ok l
    → (0 < i) × (interval_of l ≡ i) × (l.last_write ≡ [])
unfolding new_limiter
new_limiter_eq_ok zero l made = cc
new_limiter_eq_ok (suc n) l made =
    let e = sym (ok-injective _ l made) in
    (omega arith, ap interval_of e, ap (λ t. PollPersistenceLimiter.last_write t) e)

-- Newest first: each write is at least the interval after all those before it.
abbrev pub IsSpaced : ℕ → List ℕ → Type 0
IsSpaced i [] = Unit
IsSpaced i (w ∷ ws) = All (λ older. older + i ≤ w) ws × IsSpaced i ws

-- A PollPersistenceLimiter lets a controller write exactly if each of its writes since it was
-- last forgotten lies at least the interval back: whatever was asked for it and for other
-- controllers in between, with a clock that does not go back.
pub should_persist_iff :
    (i : ℕ) (l : PollPersistenceLimiter) (c : Text) (now : ℕ) (h : List Event)
    → new_limiter i ≡ ok l
    → IsClocked (asks c now ∷ h)
    → ((should_persist c now (after l h)).1 ≡ true) ↔ All (λ w. w + i ≤ now) (writes l c h)
should_persist_iff i l c now h made clocked =
    let (positive, same, fresh) = new_limiter_eq_ok i l made in
    let descending = writes-IsDescending l c h clocked.1 in
    let e : early c now (after l h) ≡ is_early i now (first (writes l c h)) =
      ap (λ t. is_early t now (entry c (after l h))) (interval_kept l h ∙ same)
      ∙ ap (λ o. is_early i now o) (entry-after l c h fresh) in
    let iff = early_iff i now (writes l c h) positive descending in
    elim (should_persist-cases c now (after l h)) [
      | inl (b, r) ↦ (λ yes. cc, λ all. cc (iff.1 all))
      | inr (b, r) ↦ (λ yes. iff.0 (sym e ∙ b), λ all. ap (λ p. p.1) r)
    ]

IsSpaced-written :
    (i now : ℕ) (rest : List ℕ) (same answer : Bool)
    → (same ≡ true → answer ≡ true → All (λ w. w + i ≤ now) rest)
    → IsSpaced i rest
    → IsSpaced i (written now rest same answer)
IsSpaced-written i now rest true true p h = (p refl refl, h)
IsSpaced-written i now rest true false p h = h
IsSpaced-written i now rest false answer p h = h

-- The writes of a controller that a limiter allows are at least the interval apart.
pub writes-IsSpaced :
    (i : ℕ) (l : PollPersistenceLimiter) (c : Text) (h : List Event)
    → new_limiter i ≡ ok l
    → IsClocked h
    → IsSpaced i (writes l c h)
unfolding writes
writes-IsSpaced i l c [] made k = tt
writes-IsSpaced i l c (asks d t ∷ earlier) made k =
    IsSpaced-written i t (writes l c earlier) (text_eq c d) (should_persist d t (after l earlier)).1
      (λ s a. (should_persist_iff i l c t earlier made k).0 (
        subst (λ x. (should_persist x t (after l earlier)).1 ≡ true) (sym (text_eq_sound c d s)) a))
      (writes-IsSpaced i l c earlier made k.1)
writes-IsSpaced i l c (forgets d ∷ earlier) made k = elim (Bool-cases (text_eq c d)) [
  | inl s ↦ rw s tt
  | inr s ↦ rw s (writes-IsSpaced i l c earlier made k)
]
