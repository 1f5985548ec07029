-- ===== src/Polling/Traffic.antt =====
-- The counters of a sample against the exchanges that the clients reported
-- (src/morningstar_modbus/polling/service.py, src/morningstar_modbus/transports/modbus.py).
use morningstar_modbus_api.Prelude.{
  ℕ, suc, ◌+◌, ◌*◌, ◌≡◌, refl, ap, ◌∙◌, Bool, List, [], ◌∷◌, ◌++◌, map, arith, length,
}
use morningstar_modbus_api.Prelude.Text.{Text, hex}
use morningstar_modbus_api.Prelude.Floats.{Floats}
use morningstar_modbus_api.Errors.{Result, ok, err}
use morningstar_modbus_api.Transports.Exchange.{ModbusExchange, Attempt, observe, error_of}
use morningstar_modbus_api.Polling.Samples.{
  frame_size, sum_of, succeeded, PollTrafficTracker, begin, record_exchange, finish,
}

-- A call of `_request`: the unit, the PDU, the frame sent, and how the try ended.
pub record Sent : Type 0 where
  pub unit_id : ℕ
  pub pdu : List ℕ
  pub request : List ℕ
  pub attempt : Attempt

abbrev pub exchange_of : Sent → ModbusExchange
exchange_of s = observe s.unit_id s.pdu s.request s.attempt

-- The tracker is the observer of the client, which reports the requests in their order.
abbrev pub record_all : List Sent → PollTrafficTracker → PollTrafficTracker
record_all [] t = t
record_all (s ∷ later) t = record_all later (record_exchange (exchange_of s) t)

abbrev failure : Result (List ℕ) → ℕ
failure (ok pdu) = 0
failure (err e) = 1

abbrev pub failure_of : Attempt → ℕ
failure_of a = failure a.result

length-hex : (bytes : List ℕ) → length (hex bytes) ≡ length bytes * 2
length-hex [] = refl
length-hex (b ∷ bytes) = omega (arith, length-hex bytes)

frame_size-hex : (bytes : List ℕ) → frame_size (hex bytes) ≡ length bytes
unfolding frame_size
frame_size-hex bytes = omega (arith, length-hex bytes)

append_assoc {ℓ} : {A : Type ℓ} (xs ys zs : List A) → (xs ++ ys) ++ zs ≡ xs ++ (ys ++ zs)
append_assoc [] ys zs = refl
append_assoc (x ∷ xs) ys zs = ap (λ t. x ∷ t) (append_assoc xs ys zs)

append_nil {ℓ} : {A : Type ℓ} (xs : List A) → xs ≡ xs ++ []
append_nil [] = refl
append_nil (x ∷ xs) = ap (λ t. x ∷ t) (append_nil xs)

record_all-exchanges :
    (sent : List Sent) (t : PollTrafficTracker)
    → PollTrafficTracker.exchanges (record_all sent t) ≡ t.exchanges ++ map exchange_of sent
unfolding record_exchange
record_all-exchanges [] t = append_nil t.exchanges
record_all-exchanges (s ∷ later) t =
    record_all-exchanges later (record_exchange (exchange_of s) t)
    ∙ append_assoc t.exchanges (exchange_of s ∷ []) (map exchange_of later)

request_sizes :
    (sent : List Sent)
    → sum_of (λ e. frame_size (ModbusExchange.request_hex e)) (map exchange_of sent)
      ≡ sum_of (λ s. length (Sent.request s)) sent
unfolding observe
request_sizes [] = refl
request_sizes (s ∷ later) = omega (arith, frame_size-hex s.request, request_sizes later)

response_sizes :
    (sent : List Sent)
    → sum_of (λ e. frame_size (ModbusExchange.response_hex e)) (map exchange_of sent)
      ≡ sum_of (λ s. length (Attempt.response (Sent.attempt s))) sent
unfolding observe
response_sizes [] = refl
response_sizes (s ∷ later) = omega (arith, frame_size-hex s.attempt.response, response_sizes later)

succeeded_or_failure : (r : Result (List ℕ)) → succeeded (error_of r) + failure r ≡ 1
succeeded_or_failure (ok pdu) = refl
succeeded_or_failure (err e) = refl

succeeded-exchange :
    (s : Sent) → succeeded (ModbusExchange.error (exchange_of s)) + failure_of s.attempt ≡ 1
unfolding observe
succeeded-exchange s = succeeded_or_failure s.attempt.result

outcomes :
    (sent : List Sent)
    → sum_of (λ e. succeeded (ModbusExchange.error e)) (map exchange_of sent)
        + sum_of (λ s. failure_of (Sent.attempt s)) sent
      ≡ length sent
outcomes [] = refl
outcomes (s ∷ later) = omega (arith, succeeded-exchange s, outcomes later)

length-map {ℓ κ} :
    {A : Type ℓ} {B : Type κ} (f : A → B) (xs : List A) → length (map f xs) ≡ length xs
length-map f [] = refl
length-map f (x ∷ xs) = ap suc (length-map f xs)

-- The sample that is finished after `begin` and the reports of any requests counts those
-- requests and no other: their number, the failed and the successful ones, which add up to it,
-- and the bytes of the frames sent and received.
pub finish_counts :
    (F : Floats) (interval latency : F.Real) (success : Bool) (error : Text)
    (t : PollTrafficTracker) (sent : List Sent)
    → let sample = finish F interval latency success error (record_all sent (begin t)) in
      (sample.request_count ≡ length sent)
      × (sample.failed_requests ≡ sum_of (λ s. failure_of (Sent.attempt s)) sent)
      × (sample.successful_requests + sample.failed_requests ≡ length sent)
      × (sample.request_bytes ≡ sum_of (λ s. length (Sent.request s)) sent)
      × (sample.response_bytes ≡ sum_of (λ s. length (Attempt.response (Sent.attempt s))) sent)
unfolding finish begin
finish_counts F interval latency success error t sent =
    let e = record_all-exchanges sent (begin t) in
    let n = length-map exchange_of sent in
    let o = outcomes sent in
    rw e (n, omega (arith, n, o), omega (arith, n, o), request_sizes sent, response_sizes sent)
