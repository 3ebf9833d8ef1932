-- ===== src/Coordinator/Overload/Planned.antt =====
-- A request is turned away only where its deadline cannot be met (coordinator.py).
use mathlib.Core.Path.{subst}
use diflow.Prelude.{
  ℕ, suc, ◌+◌, ◌*◌, ◌≤◌, ◌<◌, ◌≡◌, refl, sym, arith, Bool, true, false, Option, none, some, List,
  [], ◌∷◌, String, string_eq, ◌==◌, if◌then◌else◌, length, Dict, IsDict, All, lookup, ok, >>=-eq-ok,
  ok-injective, Distinct, member,
}
use diflow.Json.{pos}
use diflow.Coordinator.Overload.{
  LatencyOf, Inflight, waiting_latencies, waiting_task_latencies, sum, total_work, max_request_work,
  completion_exceeds, is_system_overloaded,
}

-- A plan says for each unit of time which requests are worked on, each on an executor of its own.
abbrev pub Plan : Type 0
Plan = List (List String)

-- In a unit of time no request is on two executors, since its tasks run one after the other.
abbrev pub IsRow : ℕ → List String → Type 0
IsRow executors row = Distinct row × (length row ≤ executors)

unfoldable pub units_in : String → List String → ℕ
units_in request [] = 0
units_in request (r ∷ row) =
    if r == request then suc (units_in request row) else units_in request row

-- The time that a plan gives to a request.
unfoldable pub units : String → Plan → ℕ
unfolding units_in
units request [] = 0
units request (row ∷ plan) = units_in request row + units request plan

-- Each request gets the time that its waiting tasks take.
abbrev pub Completes : Plan → Dict String (List ℕ) → Type 0
Completes plan latencies = All (λ e. sum e.1 ≤ units e.0 plan) latencies

units_in-member :
    (request : String) (row : List String) → member request row ≡ false → units_in request row ≡ 0
unfolding units_in member
units_in-member request [] h = refl
units_in-member request (r ∷ row) h = ground (arith, units_in-member request row)

units_in-le : (request : String) (row : List String) → Distinct row → units_in request row ≤ 1
unfolding units_in member
units_in-le request [] d = omega arith
units_in-le request (r ∷ row) d =
    ground
      (arith, units_in-le request row, units_in-member request row, string_eq.beq_iff r request)

units-le :
    (executors : ℕ) (request : String) (plan : Plan)
    → All (IsRow executors) plan
    → units request plan ≤ length plan
unfolding units
units-le executors request [] h = omega arith
units-le executors request (row ∷ plan) h =
    omega (arith, units_in-le request row h.0.0, units-le executors request plan h.1)

-- The time that a row gives to all requests of a table.
unfoldable units_of : Dict String (List ℕ) → List String → ℕ
unfolding units_in
units_of [] row = 0
units_of ((request, ls) ∷ rest) row = units_in request row + units_of rest row

abbrev one_in : Dict String (List ℕ) → String → ℕ
one_in [] r = 0
one_in ((request, ls) ∷ rest) r = if r == request then suc (one_in rest r) else one_in rest r

one_in-none :
    (table : Dict String (List ℕ)) (r : String) → lookup r table ≡ none → one_in table r ≡ 0
unfolding lookup
one_in-none [] r h = refl
one_in-none ((request, ls) ∷ rest) r h =
    ground (arith, one_in-none rest r, string_eq.beq_iff r request, string_eq.beq_iff request r)

one_in-le : (table : Dict String (List ℕ)) (r : String) → IsDict table → one_in table r ≤ 1
one_in-le [] r once = omega arith
one_in-le ((request, ls) ∷ rest) r once =
    ground (arith, one_in-le rest r, one_in-none rest request, string_eq.beq_iff r request)

units_of-cons :
    (table : Dict String (List ℕ)) (r : String) (row : List String)
    → units_of table (r ∷ row) ≡ one_in table r + units_of table row
unfolding units_of
units_of-cons [] r row = omega arith
units_of-cons ((request, ls) ∷ rest) r row = ground (arith, units_of-cons rest r row)

units_of-nil : (table : Dict String (List ℕ)) → units_of table [] ≡ 0
unfolding units_of
units_of-nil [] = refl
units_of-nil ((request, ls) ∷ rest) = omega (arith, units_of-nil rest)

units_of-le :
    (table : Dict String (List ℕ)) (row : List String)
    → IsDict table
    → units_of table row ≤ length row
units_of-le table [] once = omega (arith, units_of-nil table)
units_of-le table (r ∷ row) once =
    omega (arith, units_of-cons table r row, one_in-le table r once, units_of-le table row once)

-- The same over a whole plan.
unfoldable all_units : Dict String (List ℕ) → Plan → ℕ
all_units [] plan = 0
all_units ((request, ls) ∷ rest) plan = units request plan + all_units rest plan

all_units-cons :
    (table : Dict String (List ℕ)) (row : List String) (plan : Plan)
    → all_units table (row ∷ plan) ≡ units_of table row + all_units table plan
unfolding all_units units units_of
all_units-cons [] row plan = omega arith
all_units-cons ((request, ls) ∷ rest) row plan = omega (arith, all_units-cons rest row plan)

all_units-nil : (table : Dict String (List ℕ)) → all_units table [] ≡ 0
unfolding all_units units
all_units-nil [] = refl
all_units-nil ((request, ls) ∷ rest) = omega (arith, all_units-nil rest)

all_units-le :
    (executors : ℕ) (table : Dict String (List ℕ)) (plan : Plan)
    → IsDict table
    → All (IsRow executors) plan
    → all_units table plan ≤ executors * length plan
all_units-le executors table [] once h = grind (arith, all_units-nil table)
all_units-le executors table (row ∷ plan) once h =
    let row_bound = units_of-le table row once in
    let rest_bound = all_units-le executors table plan once h.1 in
    let width : length row ≤ executors = h.0.1 in grind (arith, all_units-cons table row plan)

total_work-le :
    (table : Dict String (List ℕ)) (plan : Plan)
    → Completes plan table
    → total_work table ≤ all_units table plan
unfolding total_work all_units
total_work-le [] plan c = omega arith
total_work-le ((request, ls) ∷ rest) plan c = omega (arith, c.0, total_work-le rest plan c.1)

max_request_work-le :
    (executors : ℕ) (table : Dict String (List ℕ)) (plan : Plan)
    → All (IsRow executors) plan
    → Completes plan table
    → max_request_work table ≤ length plan
unfolding max_request_work
max_request_work-le executors [] plan h c = omega arith
max_request_work-le executors ((request, ls) ∷ rest) plan h c =
    omega
      (arith, c.0, units-le executors request plan h, max_request_work-le executors rest plan h c.1)

waiting-lookup :
    (execution_latency : LatencyOf) (requests : Dict String (Option Inflight))
    (latencies : Dict String (List ℕ)) (request : String)
    → waiting_task_latencies execution_latency requests ≡ ok latencies
    → lookup request requests ≡ none
    → lookup request latencies ≡ none
unfolding waiting_task_latencies lookup
waiting-lookup l [] latencies request e h = rw (ok-injective (sym e)) refl
waiting-lookup l ((r, none) ∷ requests) latencies request e h =
    waiting-lookup l requests latencies request e (ground arith)
waiting-lookup l ((r, some i) ∷ requests) latencies request e h =
    let (ls, first, e1) = >>=-eq-ok (waiting_latencies l i.completed_nodes i.tasks) _ e in
    let (rest, later, e2) = >>=-eq-ok (waiting_task_latencies l requests) _ e1 in
    let found = waiting-lookup l requests rest request later (ground arith) in
    rw (ok-injective (sym e2)) (ground arith)

waiting-IsDict :
    (execution_latency : LatencyOf) (requests : Dict String (Option Inflight))
    (latencies : Dict String (List ℕ))
    → waiting_task_latencies execution_latency requests ≡ ok latencies
    → IsDict requests
    → IsDict latencies
unfolding waiting_task_latencies
waiting-IsDict l [] latencies e once = subst IsDict (ok-injective e) tt
waiting-IsDict l ((r, none) ∷ requests) latencies e once =
    waiting-IsDict l requests latencies e once.1
waiting-IsDict l ((r, some i) ∷ requests) latencies e once =
    let (ls, first, e1) = >>=-eq-ok (waiting_latencies l i.completed_nodes i.tasks) _ e in
    let (rest, later, e2) = >>=-eq-ok (waiting_task_latencies l requests) _ e1 in
    subst IsDict (ok-injective e2)
      (waiting-lookup l requests rest r later once.0, waiting-IsDict l requests rest later once.1)

completion-fits :
    (executors slack : ℕ) (table : Dict String (List ℕ)) (plan : Plan)
    → 0 < executors
    → length plan ≤ slack
    → IsDict table
    → All (IsRow executors) plan
    → Completes plan table
    → completion_exceeds table executors (pos slack) ≡ false
unfolding completion_exceeds
completion-fits executors slack table plan some_worker in_time once h c =
    let shared : total_work table ≤ executors * slack =
      grind (arith, total_work-le table plan c, all_units-le executors table plan once h) in
    let longest : max_request_work table ≤ slack =
      omega (arith, max_request_work-le executors table plan h c) in
    ground arith

-- While all waiting work can be done by the deadline, a request is not turned away: where there is
-- a plan of the waiting tasks on the executors, with the tasks of a request one after the other,
-- that ends within the slack, the system is not overloaded. There must be an executor, and the
-- latencies must be known.
pub is_system_overloaded-admits :
    (execution_latency : LatencyOf) (enable : Bool) (executors slack : ℕ)
    (requests : Dict String (Option Inflight)) (latencies : Dict String (List ℕ)) (plan : Plan)
    → 0 < executors
    → IsDict requests
    → waiting_task_latencies execution_latency requests ≡ ok latencies
    → length plan ≤ slack
    → All (IsRow executors) plan
    → Completes plan latencies
    → is_system_overloaded execution_latency enable executors requests (some (pos slack)) ≡ ok false
unfolding is_system_overloaded
is_system_overloaded-admits l false executors slack requests latencies plan w once e in_time h c =
    refl
is_system_overloaded-admits l true executors slack requests latencies plan w once e in_time h c =
    let fits =
      completion-fits executors slack latencies plan w in_time
        (waiting-IsDict l requests latencies e once) h c in
    rw (e, fits) (ground arith)
