-- ===== src/Scheduler/Examples.antt =====
-- The policies on a few tasks, and the exclusive pairing on two workers.
use diflow.Prelude.{
  ℕ, ◌≡◌, refl, ◌⊎◌, true, false, Option, none, some, List, [], ◌∷◌, String, string_eq, nat_eq, ok,
  raise, unbound_local, lookup, insert, All, length,
}
use diflow.Workflow.{Operator}
use diflow.Scheduler.Task.{
  Task, dynamic_can_group, exclusive_can_group, random_can_group, task_resolution,
}
use diflow.Scheduler.Grouping.{
  BatchConfigs, exclusive_select_tasks, random_select_tasks, dynamic_select_tasks, dynamic_limit,
  gather,
}
use diflow.Scheduler.Grouping.Loop.{IsGroup}
use diflow.Scheduler.Grouping.Policies.{SameModel, IsCapped, dynamic_select_tasks-IsGroup}
use diflow.Scheduler.Exclusive.{Exclusive, init, check_worker_availability, select_worker}
use diflow.Scheduler.Exclusive.Pairing.{
  select, Reach, here, next, Reach-exclusive, select_worker-check,
}

abbrev op : String → Operator
op id = record {
  id = id;
  patches = [];
  is_scheduler = false;
  op_outputs = [];
  execution_modes = [];
}

abbrev task : String → String → Task
task request id = record {
  request_id = request;
  workflow_node = record { name = id; op = op id; mode = "default"; inputs = []; outputs = [] };
  height = some 512;
  width = some 512;
  input_map = [];
  lazy_inputs = [];
  node_input_locations = [];
}

abbrev ready : List Task
ready = task "r1" "vae" ∷ task "r2" "dit" ∷ task "r2" "vae" ∷ task "r1" "vae" ∷ []

abbrev configs : BatchConfigs
configs = ("vae", ("latency_mode", 1) ∷ ("throughput_mode", 4) ∷ []) ∷ []

-- A batch of at most two was measured.
abbrev measured : Task → Option ℕ
measured t = some 2

together :
    random_select_tasks configs ready
    ≡ ok (task "r1" "vae" ∷ task "r2" "vae" ∷ task "r1" "vae" ∷ [], task "r2" "dit" ∷ [])
unfolding random_select_tasks random_can_group lookup gather
together = refl

one_request :
    exclusive_select_tasks configs ready
    ≡ ok (task "r1" "vae" ∷ task "r1" "vae" ∷ [], task "r2" "dit" ∷ task "r2" "vae" ∷ [])
unfolding exclusive_select_tasks exclusive_can_group lookup gather
one_request = refl

-- No worker is available, so that the throughput mode applies, capped by the measured batch.
by_profile :
    dynamic_select_tasks 0 measured configs ready
    ≡ ok (task "r1" "vae" ∷ task "r2" "vae" ∷ [], task "r2" "dit" ∷ task "r1" "vae" ∷ [])
unfolding dynamic_select_tasks dynamic_can_group lookup insert gather
by_profile = refl

dynamic_select_tasks-IsGroup_example :
    (g : IsGroup dynamic_can_group
      (dynamic_limit 0 measured configs)
      ready
      (task "r1" "vae" ∷ task "r2" "vae" ∷ [])
      (task "r2" "dit" ∷ task "r1" "vae" ∷ []))
    × All (λ t. SameModel g.first t × (task_resolution g.first ≡ task_resolution t)) g.joined
    × (IsCapped (measured g.first) (length (task "r1" "vae" ∷ task "r2" "vae" ∷ []))
        ⊎ (g.joined ≡ []))
dynamic_select_tasks-IsGroup_example =
    dynamic_select_tasks-IsGroup 0 measured configs ready (task "r1" "vae" ∷ task "r2" "vae" ∷ [])
      (task "r2" "dit" ∷ task "r1" "vae" ∷ []) by_profile

abbrev paired : Exclusive
paired = record {
  workers = 0 ∷ 1 ∷ [];
  request_worker_map = ("r1", 0) ∷ ("r2", 1) ∷ [];
  worker_request = (0, some "r1") ∷ (1, some "r2") ∷ [];
}

abbrev half_paired : Exclusive
half_paired = record {
  workers = 0 ∷ 1 ∷ [];
  request_worker_map = ("r1", 0) ∷ [];
  worker_request = (0, some "r1") ∷ (1, none) ∷ [];
}

first_selected : select_worker (init (0 ∷ 1 ∷ [])) "r1" ≡ ok (half_paired, 0)
unfolding init select_worker lookup insert
first_selected = refl

second_selected : select_worker half_paired "r2" ≡ ok (paired, 1)
unfolding select_worker lookup insert
second_selected = refl

run : Reach (init (0 ∷ 1 ∷ [])) paired
run = next (next here (select "r1" 0 first_selected)) (select "r2" 1 second_selected)

found : lookup "r2" paired.request_worker_map ≡ some 1
unfolding lookup
found = refl

Reach-exclusive_example : ◌≡◌ {A = String} "r2" "r2"
Reach-exclusive_example = Reach-exclusive (0 ∷ 1 ∷ []) paired "r2" "r2" 1 run found found

all_busy : check_worker_availability paired "r3" ≡ ok false
unfolding check_worker_availability lookup
all_busy = refl

select_worker-check_example :
    (false ≡ true) × ((p : Exclusive × ℕ) × (select_worker paired "r3" ≡ ok p))
    ⊎ (false ≡ false) × (select_worker paired "r3" ≡ raise unbound_local)
select_worker-check_example = select_worker-check paired "r3" false all_busy
