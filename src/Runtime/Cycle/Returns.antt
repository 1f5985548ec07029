-- ===== src/Runtime/Cycle/Returns.antt =====
-- A turn of polls returns (src/morningstar_modbus/runtime/watcher.py).
use morningstar_modbus_api.Prelude.{ℕ, ◌≡◌, refl, Option, List, [], ◌∷◌}
use morningstar_modbus_api.Prelude.Text.{Text}
use morningstar_modbus_api.Prelude.Floats.{Floats}
use morningstar_modbus_api.Errors.{Result, ok, err}
use morningstar_modbus_api.Catalog.Decode.{RegisterFloats}
use morningstar_modbus_api.Catalog.Decode.Needs.{Returns}
use morningstar_modbus_api.Controllers.Lifecycle.{int}
use morningstar_modbus_api.Runtime.Watcher.Polls.{Services, Config, Clocks, Sample, State}
use morningstar_modbus_api.Runtime.Watcher.Polls.Outcomes.{poll_one-Returns}
use morningstar_modbus_api.Runtime.Cycle.{Task, Samples, tasks, after_task, run_tasks, poll_all}
use morningstar_modbus_api.Transports.Client.{ReadOnlyModbusClient}

module _ (F : Floats) (R : RegisterFloats F) (C : ReadOnlyModbusClient) (I : Type 0)
    (V : Services F C I) (config : Config) (configured : F.Real) where
  abbrev W : Type 0
  W = State F R C I V config

  abbrev Results : Type 0
  Results = Samples F R C I V config configured

  after_task-Returns :
      (later : Results → W → Result Results × W) (c : Text) (results : Results)
      (o : Result (Option (Sample F R C I V config)) × W)
      → Returns o.0
      → ((r : Results) (w : W) → Returns (later r w).0)
      → Returns (after_task F R C I V config configured later c results o).0
  after_task-Returns later c results (ok sample, w) h k = k _ w
  after_task-Returns later c results (err e, w) (s, h) k = cc

  -- A turn of polls never raises, whatever the devices answer or fail to, if the initial backoff is
  -- written as a whole number: every task of the turn is run, and the samples are returned.
  pub poll_all-Returns :
      (n : ℕ)
      → config.policy.initial_backoff ≡ int n
      → (interval : F.Real) (clocks : Text → Clocks F.Real) (now : ℕ) (w : W)
      → Returns (poll_all F R C I V config configured interval clocks now w).0
  unfolding poll_all
  poll_all-Returns n whole interval clocks now w = go (tasks now w w.present_keys) [] w
    where
      go :
          (ts : List (Task I)) (results : Results) (v : W)
          → Returns (run_tasks F R C I V config configured interval clocks ts results v).0
      go [] results v = (results, refl)
      go (t ∷ later) results v =
          after_task-Returns
            (λ r w'. run_tasks F R C I V config configured interval clocks later r w') t.controller
            results _
            (poll_one-Returns F R C I V config t.key n whole t.device interval (clocks t.key) v)
            (λ r w'. go later r w')
