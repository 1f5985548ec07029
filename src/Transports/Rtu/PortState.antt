-- ===== src/Transports/Rtu/PortState.antt =====
-- The serial port across exchanges and `close` (src/morningstar_modbus/transports/modbus.py).
use morningstar_modbus_api.Prelude.{
  ℕ, ◌≡◌, ◌≢◌, ◌⊎◌, ◌↔◌, refl, sym, subst, true, false, inl, inr, Bool-cases, List, arith,
}
use morningstar_modbus_api.Errors.{
  Error, Result, ok, err, value_error, protocol_error, device_error, timeout_error, os_error,
  runtime_error, overflow_error, zero_division_error, index_error, key_error,
}
use morningstar_modbus_api.Transports.Stream.{Stream}
use morningstar_modbus_api.Transports.Rtu.{
  RtuClient, Port, closes, settle, on_stream, ensure_open, exchange_open, exchange_blocking,
  request, close,
}

-- One of the two errors after which the serial object is dropped.
abbrev pub Drops : Error → Type 0
Drops e = (e ≡ os_error) ⊎ (e ≡ timeout_error)

-- The port is open and ready to be used: it was open, or opening it succeeds.
abbrev pub IsOpened : RtuClient → Result (Unit {0}) → Type 0
IsOpened c opening = (c.serial_open ≡ true) ⊎ (opening ≡ ok tt)

-- The exchange ended in one of the two errors.
abbrev pub IsDropped : Result (List ℕ × List ℕ) → Type 0
IsDropped r = (e : Error) × (r ≡ err e) × Drops e

-- What an exchange does to the client: it keeps the unit and the closed flag, and the port is open
-- afterwards exactly under the condition.
pub record Leaves (c c' : RtuClient) (Kept : Type 0) : Type 0 where
  pub unit : c'.unit_id ≡ c.unit_id
  pub alive : c'.is_closed ≡ c.is_closed
  pub serial : (c'.serial_open ≡ true) ↔ Kept

not-Drops : (e : Error) → e ≢ os_error → e ≢ timeout_error → ¬ Drops e
not-Drops e h k (inl q) = h q
not-Drops e h k (inr q) = k q

closes-cases : (e : Error) → ((closes e ≡ true) × Drops e) ⊎ ((closes e ≡ false) × (¬ Drops e))
closes-cases timeout_error = inl (refl, inr refl)
closes-cases os_error = inl (refl, inl refl)
closes-cases (value_error r) = inr (refl, not-Drops (value_error r) (λ q. cc) (λ q. cc))
closes-cases (protocol_error r) = inr (refl, not-Drops (protocol_error r) (λ q. cc) (λ q. cc))
closes-cases (device_error f c) = inr (refl, not-Drops (device_error f c) (λ q. cc) (λ q. cc))
closes-cases runtime_error = inr (refl, not-Drops runtime_error (λ q. cc) (λ q. cc))
closes-cases overflow_error = inr (refl, not-Drops overflow_error (λ q. cc) (λ q. cc))
closes-cases zero_division_error = inr (refl, not-Drops zero_division_error (λ q. cc) (λ q. cc))
closes-cases index_error = inr (refl, not-Drops index_error (λ q. cc) (λ q. cc))
closes-cases key_error = inr (refl, not-Drops key_error (λ q. cc) (λ q. cc))

same_error : {X : Type 0} (a b : Error) (r : Result X) → r ≡ err a → r ≡ err b → a ≡ b
same_error a b r h k = cc

-- An exchange on an open port.
settled-Leaves :
    (c c' : RtuClient) (opening : Result (Unit {0})) (r : Result (List ℕ × List ℕ))
    → c'.serial_open ≡ true
    → c'.unit_id ≡ c.unit_id
    → c'.is_closed ≡ c.is_closed
    → IsOpened c opening
    → Leaves c (settle c' r).0 (IsOpened c opening × (¬ IsDropped (settle c' r).1))
settled-Leaves c c' opening (ok r) o u a opened = record {
  unit = u;
  alive = a;
  serial = (λ q. (opened, λ (e, same, d). cc), λ q. o);
}
settled-Leaves c c' opening (err e) o u a opened = elim (closes-cases e) [
  | inl (h, drops) ↦
      rw h record { unit = u; alive = a; serial = (λ q. cc, λ q. absurd (q.1 (e, refl, drops))) }
  | inr (h, keeps) ↦ rw h record {
    unit = u;
    alive = a;
    serial = (
      λ q. (
        opened,
        λ (e', same, d). keeps (subst (λ x. Drops x) (sym (same_error e e' (err e) refl same)) d),
      ),
      λ q. o,
    );
  }
]

-- The port could not be opened.
unopened-Leaves :
    (c : RtuClient) (e : Error) (Rest : Type 0)
    → c.serial_open ≡ false
    → Leaves c c (IsOpened c (err e) × Rest)
unopened-Leaves c e Rest h = record {
  unit = refl;
  alive = refl;
  serial = (λ q. cc, λ (opened, rest). elim opened [ inl q ↦ cc | inr q ↦ cc ]);
}

ensure_open-ready :
    (c : RtuClient) (opening : Result (Unit {0}))
    → c.serial_open ≡ true
    → ensure_open opening c ≡ ok c
ensure_open-ready c (ok u) h = ground arith
ensure_open-ready c (err e) h = ground arith

ensure_open-fresh :
    (c : RtuClient)
    → c.serial_open ≡ false
    → ensure_open (ok tt) c ≡ ok (record c { serial_open = true })
ensure_open-fresh c h = ground arith

ensure_open-fails :
    (c : RtuClient) (e : Error) → c.serial_open ≡ false → ensure_open (err e) c ≡ err e
ensure_open-fails c e h = ground arith

-- The port after an exchange that runs from the client that the opening left.
abbrev Outcome : List ℕ → Result (Unit {0}) → Result Stream → RtuClient → Result RtuClient → Type 0
Outcome pdu opening writing c opened =
    let (c', r) = exchange_open pdu writing c opened in
    Leaves c c' (IsOpened c opening × (¬ IsDropped r))

opening-Leaves :
    (pdu : List ℕ) (opening : Result (Unit {0})) (writing : Result Stream) (c : RtuClient)
    → Outcome pdu opening writing c (ensure_open opening c)
opening-Leaves pdu opening writing c = elim (Bool-cases c.serial_open) [
  | inl ready ↦
      subst (λ o. Outcome pdu opening writing c o) (sym (ensure_open-ready c opening ready))
        (settled-Leaves c c opening (on_stream c.unit_id pdu writing) ready refl refl (inl ready))
  | inr fresh ↦ opened opening fresh
]
  where
    opened :
        (opening : Result (Unit {0}))
        → c.serial_open ≡ false
        → Outcome pdu opening writing c (ensure_open opening c)
    opened (ok u) fresh =
        subst (λ o. Outcome pdu (ok u) writing c o) (sym (ensure_open-fresh c fresh))
          (settled-Leaves c (record c { serial_open = true }) (ok u)
            (on_stream c.unit_id pdu writing) refl refl refl (inr refl))
    opened (err e) fresh =
        subst (λ o. Outcome pdu (err e) writing c o) (sym (ensure_open-fails c e fresh))
          (unopened-Leaves c e _ fresh)

-- The serial port after an exchange is open exactly if it was open or could be opened, and the
-- exchange ended neither in an OSError nor in a TimeoutError; the unit and the closed flag stay.
pub exchange_blocking-Leaves :
    (pdu : List ℕ) (port : Port) (c : RtuClient)
    → let (c', r) = exchange_blocking pdu port c in
      Leaves c c' (IsOpened c port.opening × (¬ IsDropped r))
unfolding exchange_blocking
exchange_blocking-Leaves pdu port c = opening-Leaves pdu port.opening port.writing c

-- Closing a client twice is closing it once, and a closed client sends nothing more: a request
-- raises RuntimeError.
pub close_lem :
    (pdu : List ℕ) (port : Port) (c : RtuClient)
    → (close (close c) ≡ close c) × (request pdu port (close c) ≡ err runtime_error)
unfolding close request
close_lem pdu port c = (ground arith, ground arith)
