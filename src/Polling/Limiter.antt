-- ===== src/Polling/Limiter.antt =====
-- PollPersistenceLimiter of src/morningstar_modbus/polling/service.py: its state, its calls, and
-- the histories of one limiter.
pub mod Spacing
use morningstar_modbus_api.Prelude.{
  ℕ, zero, suc, ◌+◌, ◌-◌, ◌≤◌, Bool, true, false, Option, none, some, List, [], ◌∷◌, ltb, ◌&&◌,
  if◌then◌else◌,
}
use morningstar_modbus_api.Prelude.Text.{Text, text_eq}
use morningstar_modbus_api.Prelude.Maps.{lookup, put, remove}
use morningstar_modbus_api.Errors.{Result, ok, err, value_error, interval_range}

-- Times are counted in ticks of the clock; `now - previous` of a clock that went back is below
-- every interval in the source, and 0 here.
pub record PollPersistenceLimiter : Type 0 where
  pub interval : ℕ
  pub last_write : List (Text × ℕ)

unfoldable pub new_limiter : ℕ → Result PollPersistenceLimiter
new_limiter zero = err (value_error interval_range)
new_limiter (suc n) = ok (record { interval = suc n; last_write = [] })

abbrev pub is_early : ℕ → ℕ → Option ℕ → Bool
is_early interval now none = false
is_early interval now (some previous) = ltb (now - previous) interval

unfoldable pub should_persist : Text → ℕ → PollPersistenceLimiter → PollPersistenceLimiter × Bool
should_persist controller now l =
    if is_early l.interval now (lookup controller l.last_write)
    then (l, false)
    else (record l { last_write = put controller now l.last_write }, true)

unfoldable pub forget : Text → PollPersistenceLimiter → PollPersistenceLimiter
forget controller l = record l { last_write = remove controller l.last_write }

pub data Event : Type 0 where
  asks : Text → ℕ → Event
  forgets : Text → Event

-- The limiter after a history, whose newest event stands first.
unfoldable pub after : PollPersistenceLimiter → List Event → PollPersistenceLimiter
after l [] = l
after l (asks c now ∷ earlier) = (should_persist c now (after l earlier)).0
after l (forgets c ∷ earlier) = forget c (after l earlier)

-- The times at which the controller was told to write, since it was last forgotten.
unfoldable pub writes : PollPersistenceLimiter → Text → List Event → List ℕ
writes l c [] = []
writes l c (asks d now ∷ earlier) =
    let rest = writes l c earlier in
    if text_eq c d && (should_persist d now (after l earlier)).1 then now ∷ rest else rest
writes l c (forgets d ∷ earlier) = let rest = writes l c earlier in if text_eq c d then [] else rest

abbrev NotAfter : ℕ → Event → Type 0
NotAfter now (asks c t) = t ≤ now
NotAfter now (forgets c) = Unit

abbrev NoneAfter : ℕ → List Event → Type 0
NoneAfter now [] = Unit
NoneAfter now (e ∷ earlier) = NotAfter now e × NoneAfter now earlier

-- The clock does not go back.
abbrev pub IsClocked : List Event → Type 0
IsClocked [] = Unit
IsClocked (asks c now ∷ earlier) = NoneAfter now earlier × IsClocked earlier
IsClocked (forgets c ∷ earlier) = IsClocked earlier
