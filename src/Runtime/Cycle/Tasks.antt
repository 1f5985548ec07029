-- ===== src/Runtime/Cycle/Tasks.antt =====
-- Which controllers a turn polls (src/morningstar_modbus/runtime/watcher.py).
use morningstar_modbus_api.Prelude.{
  ℕ, suc, ◌≡◌, refl, ap, ◌∙◌, subst, sym, Bool, true, false, Option, none, some, List, [], ◌∷◌,
  ◌&&◌, get_elem?, map, All, arith,
}
use morningstar_modbus_api.Prelude.Text.{Text}
use morningstar_modbus_api.Prelude.Maps.{lookup}
use morningstar_modbus_api.Controllers.Lifecycle.{can_poll}
use morningstar_modbus_api.Runtime.Endpoints.{DiscoveredDevice, Candidate}
use morningstar_modbus_api.Runtime.Watcher.{Watcher, lifecycle_of, rebind, is_polled, is_some}
use morningstar_modbus_api.Runtime.Watcher.Refresh.{IsBound, AreClear, rebind-IsBound}
use morningstar_modbus_api.Runtime.Cycle.{Task, task_of, tasks}

abbrev pub HasTask : {I : Type 0} → Text × Candidate I → List (Task I) → Type 0
HasTask (c, x) ts =
    (i : ℕ) × (get_elem? ts i ≡ some record { controller = c; key = x.key; device = x.device })

third : (a b c : Bool) → (a && b && c) ≡ true → c ≡ true
third a b c h = ground arith

module _ {I : Type 0} where
  task_of-HasTask :
      (s : Text × Candidate I) (test : Bool) (key : Text) (device : Option (DiscoveredDevice I))
      (controller : Option Text) (rest : List (Task I))
      → HasTask s rest
      → HasTask s (task_of test key device controller rest)
  task_of-HasTask s true key (some device) (some controller) rest (i, h) = (suc i, h)
  task_of-HasTask s true key (some device) none rest h = h
  task_of-HasTask s true key none controller rest h = h
  task_of-HasTask s false key device controller rest h = h

module _ {S I : Type 0} (now : ℕ) (w : Watcher S I) where
  bound-HasTask :
      (c : Text) (x : Candidate I) (keys : List Text)
      → IsBound now c x w
      → HasTask (c, x) (tasks now w (x.key ∷ keys))
  unfolding tasks is_polled
  bound-HasTask c x keys b =
      let due : can_poll now (lifecycle_of x.key w) ≡ true =
        third (is_some (lookup x.key w.devices)) (is_some (lookup x.key w.controller_ids)) _
          b.is_due in
      let rest = tasks now w keys in
      subst (λ ts. HasTask (c, x) ts)
        (sym (
          ap (λ t. task_of t x.key (lookup x.key w.devices) (lookup x.key w.controller_ids) rest)
            due
          ∙ ap (λ d. task_of true x.key d (lookup x.key w.controller_ids) rest) b.device
          ∙ ap (λ d. task_of true x.key (some x.device) d rest) b.controller))
        (0, refl)

  tasks-HasTask :
      (s : Text × Candidate I) (key : Text) (keys : List Text)
      → HasTask s (tasks now w keys)
      → HasTask s (tasks now w (key ∷ keys))
  unfolding tasks
  tasks-HasTask s key keys h =
      task_of-HasTask s (can_poll now (lifecycle_of key w)) key (lookup key w.devices)
        (lookup key w.controller_ids) (tasks now w keys) h

  weaken :
      (selected : List (Text × Candidate I)) (key : Text) (keys : List Text)
      → All (λ s. HasTask s (tasks now w keys)) selected
      → All (λ s. HasTask s (tasks now w (key ∷ keys))) selected
  weaken [] key keys h = tt
  weaken (s ∷ selected) key keys (here, later) =
      (tasks-HasTask s key keys here, weaken selected key keys later)

  all_tasks :
      (selected : List (Text × Candidate I))
      → All (λ s. IsBound now (s.0) (s.1) w) selected
      → All (λ s. HasTask s (tasks now w (map (λ s. Candidate.key (s.1)) selected))) selected
  all_tasks [] h = tt
  all_tasks ((c, x) ∷ selected) (b, later) =
      let keys = map (λ s. Candidate.key (s.1)) selected in
      (bound-HasTask c x keys b, weaken selected x.key keys (all_tasks selected later))

-- In the turn after a refresh in which no two of the selected controllers stand in each other's way,
-- there is a task for each of them, with its id, its key and its device.
pub rebind-HasTask :
    {S I : Type 0} (utcnow : Text) (now : ℕ) (selected : List (Text × Candidate I))
    (w : Watcher S I)
    → AreClear w.controller_keys selected
    → let w' = rebind utcnow selected w in
      All (λ s. HasTask s (tasks now w' w'.present_keys)) selected
unfolding rebind
rebind-HasTask utcnow now selected w clear =
    all_tasks now (rebind utcnow selected w) selected (rebind-IsBound utcnow now selected w clear)
