-- ===== src/Coordinator/Progress.antt =====
-- No task is started early, twice or never (coordinator.py).
use mathlib.Core.Path.{subst}
use diflow.Prelude.{
  ◌≡◌, refl, sym, ap, ◌∙◌, ◌⊎◌, inl, inr, true, false, not, ◌&&◌, ◌||◌, if◌then◌else◌, both,
  require-eq-ok, List, [], ◌∷◌, ◌++◌, arith, String, ◌==◌, string_eq, ok, key_error, member,
  add_element, subset, Distinct, Distinct-append_new, member-add, member-append, Bool-cases,
  >>=-eq-ok, ok-injective,
}
use diflow.Coordinator.{
  Request, Preparing, is_task_ready, schedule_if_ready, schedule_all, schedule_successors,
}

pub subset-add :
    (xs ys : List String) (a : String) → subset xs ys ≡ true → subset xs (add_element a ys) ≡ true
subset-add [] ys a h = refl
subset-add (x ∷ xs) ys a h = ground (arith, member-add a x ys, subset-add xs ys a)

-- Only a node that is among the prerequisites can make them complete.
pub subset-add_new :
    (xs ys : List String) (a : String)
    → subset xs ys ≡ false
    → subset xs (add_element a ys) ≡ true
    → member a xs ≡ true
unfolding member
subset-add_new [] ys a h k = cc
subset-add_new (x ∷ xs) ys a h k =
    ground (
      arith,
      member-add a x ys,
      subset-add_new xs ys a,
      string_eq.beq_iff a x,
      string_eq.beq_iff x a,
    )

-- What holds after each operation: whatever was scheduled had its prerequisites completed, and was
-- put on the queue once.
pub record IsSound (r : Request) : Type 0 where
  pub ready : (name : String) → member name r.scheduled_nodes ≡ true → is_task_ready r name ≡ true
  pub queue : r.queued ≡ r.scheduled_nodes
  pub once : Distinct r.scheduled_nodes

-- Every task that is ready was scheduled.
abbrev pub IsPrompt : Request → Type 0
IsPrompt r =
    (name : String)
    → member name r.tasks ≡ true
    → is_task_ready r name ≡ true
    → member name r.scheduled_nodes ≡ true

-- What a loop makes of a request where the preparations return.
unfoldable pub scheduled : Request → String → Request
scheduled r name =
    if is_task_ready r name && not (member name r.scheduled_nodes)
    then record r {
      scheduled_nodes = add_element name r.scheduled_nodes;
      queued = r.queued ++ (name ∷ []);
    }
    else r

unfoldable pub all_scheduled : List String → Request → Request
all_scheduled [] r = r
all_scheduled (name ∷ names) r = all_scheduled names (scheduled r name)

schedule_cases :
    (r : Request) (name : String)
    → (scheduled r name ≡ r) × (is_task_ready r name ≡ true → member name r.scheduled_nodes ≡ true)
      ⊎ (is_task_ready r name ≡ true)
        × (member name r.scheduled_nodes ≡ false)
        × (scheduled r name ≡ record r {
          scheduled_nodes = r.scheduled_nodes ++ (name ∷ []);
          queued = r.queued ++ (name ∷ []);
        })
unfolding scheduled
schedule_cases r name = elim (Bool-cases (is_task_ready r name)) [
  | inr waits ↦ inl (rw (waits, scheduled), λ h. cc)
  | inl ready ↦ elim (Bool-cases (member name r.scheduled_nodes)) [
    | inl old ↦ inl (rw (ready, scheduled) (rw old), λ _. old)
    | inr new ↦ inr (ready, new, rw (ready, scheduled) (rw new (unfold add_element in rw new)))
  ]
]

-- `r'` is `r` with more tasks scheduled.
pub record IsExtended (r r' : Request) : Type 0 where
  pub completed : r'.completed_nodes ≡ r.completed_nodes
  pub tasks : r'.tasks ≡ r.tasks
  pub non_lazy : r'.node_non_lazy_prerequisites ≡ r.node_non_lazy_prerequisites
  pub successors : r'.node_successors ≡ r.node_successors
  pub keeps : (n : String) → member n r.scheduled_nodes ≡ true → member n r'.scheduled_nodes ≡ true
  pub sound : IsSound r → IsSound r'

IsExtended-refl : (r : Request) → IsExtended r r
IsExtended-refl r = record {
  completed = refl;
  tasks = refl;
  non_lazy = refl;
  successors = refl;
  keeps = λ n h. h;
  sound = λ s. s;
}

IsExtended-trans : {r s t : Request} → IsExtended r s → IsExtended s t → IsExtended r t
IsExtended-trans a b = record {
  completed = b.completed ∙ a.completed;
  tasks = b.tasks ∙ a.tasks;
  non_lazy = b.non_lazy ∙ a.non_lazy;
  successors = b.successors ∙ a.successors;
  keeps = λ n h. b.keeps n (a.keeps n h);
  sound = λ s. b.sound (a.sound s);
}

pub is_task_ready-eq :
    (r r' : Request) (n : String) → IsExtended r r' → is_task_ready r' n ≡ is_task_ready r n
unfolding is_task_ready
is_task_ready-eq r r' n x = rw (x.completed, x.non_lazy)

pub scheduled-IsExtended : (r : Request) (name : String) → IsExtended r (scheduled r name)
scheduled-IsExtended r name = elim (schedule_cases r name) [
  | inl (same, _) ↦ rw same (IsExtended-refl r)
  | inr (ready, new, shape) ↦ rw shape (record {
    completed = refl;
    tasks = refl;
    non_lazy = refl;
    successors = refl;
    keeps = λ n h. rw member-append (rw h);
    sound = λ s. record {
      ready = λ n h. elim (Bool-cases (member n r.scheduled_nodes)) [
        | inl old ↦ unfold is_task_ready in s.ready n old
        | inr fresh ↦
            let named : name ≡ n =
              unfold member in
              ground
                (arith, member-append n r.scheduled_nodes (name ∷ []), string_eq.beq_iff name n) in
            rw (← named) (unfold is_task_ready in ready)
      ];
      queue = ap (λ q. q ++ (name ∷ [])) s.queue;
      once = Distinct-append_new name r.scheduled_nodes s.once new;
    };
  })
]

scheduled-scheduled :
    (r : Request) (name : String)
    → is_task_ready r name ≡ true
    → member name (scheduled r name).scheduled_nodes ≡ true
scheduled-scheduled r name h = elim (schedule_cases r name) [
  | inl (same, old) ↦ rw same (old h)
  | inr (ready, new, shape) ↦
      rw shape (rw member-append (unfold member in ground (arith, string_eq.beq_iff name name)))
]

-- Both loops schedule every ready task that they visit.
abbrev pub Visits : Request → Request → List String → Type 0
Visits r r' names =
    (n : String)
    → member n names ≡ true
    → is_task_ready r n ≡ true
    → member n r'.scheduled_nodes ≡ true

Visits-cons :
    (r r' : Request) (name : String) (names : List String)
    → IsExtended (scheduled r name) r'
    → Visits (scheduled r name) r' names
    → Visits r r' (name ∷ names)
unfolding member
Visits-cons r r' name names x v n listed ready = elim (Bool-cases (name == n)) [
  | inl same ↦
      let named : name ≡ n = (string_eq.beq_iff name n).0 same in
      x.keeps n (rw (← named) (scheduled-scheduled r name (rw (← named) at ready)))
  | inr other ↦
      v n (ground arith)
        (is_task_ready-eq r (scheduled r name) n (scheduled-IsExtended r name) ∙ ready)
]

pub all_scheduled-Visits :
    (names : List String) (r : Request)
    → IsExtended r (all_scheduled names r) × Visits r (all_scheduled names r) names
unfolding all_scheduled
all_scheduled-Visits [] r = (IsExtended-refl r, λ n listed ready. unfold member in cc)
all_scheduled-Visits (name ∷ names) r =
    let (x, v) = all_scheduled-Visits names (scheduled r name) in
    (
      IsExtended-trans (scheduled-IsExtended r name) x,
      Visits-cons r (all_scheduled names (scheduled r name)) name names x v,
    )

-- The operations that may raise: what they give where they return, and when they return.
pub schedule_if_ready-ok :
    (prepare : Preparing) (r r' : Request) (name : String)
    → schedule_if_ready prepare r name ≡ ok r'
    → r' ≡ scheduled r name
unfolding schedule_if_ready scheduled
schedule_if_ready-ok prepare r r' name e =
    elim (Bool-cases (is_task_ready r name && not (member name r.scheduled_nodes))) [
      | inr old ↦ rw (old, scheduled) (ok-injective (sym (rw (old, schedule_if_ready) at e)))
      | inl new ↦
          let (_, _, e') = >>=-eq-ok (prepare name) _ (rw (new, schedule_if_ready) at e) in
          rw (new, scheduled) (sym (ok-injective e'))
    ]

schedule_if_ready_total :
    (prepare : Preparing) (r : Request) (name : String)
    → (is_task_ready r name ≡ true → prepare name ≡ ok tt)
    → schedule_if_ready prepare r name ≡ ok (scheduled r name)
unfolding schedule_if_ready scheduled
schedule_if_ready_total prepare r name h =
    elim (Bool-cases (is_task_ready r name && not (member name r.scheduled_nodes))) [
      | inr old ↦ rw (old, schedule_if_ready, scheduled) refl
      | inl new ↦
          let prepared =
            h (both (is_task_ready r name) (not (member name r.scheduled_nodes)) new).0 in
          rw (new, schedule_if_ready, scheduled) (rw prepared refl)
    ]

pub schedule_all-ok :
    (prepare : Preparing) (names : List String) (r r' : Request)
    → schedule_all prepare names r ≡ ok r'
    → r' ≡ all_scheduled names r
unfolding schedule_all all_scheduled
schedule_all-ok prepare [] r r' e = ok-injective (sym e)
schedule_all-ok prepare (name ∷ names) r r' e =
    let (r₁, first, rest) = >>=-eq-ok (schedule_if_ready prepare r name) _ e in
    schedule_all-ok prepare names r₁ r' rest
    ∙ ap (all_scheduled names) (schedule_if_ready-ok prepare r r₁ name first)

pub schedule_all_total :
    (prepare : Preparing) (names : List String) (r : Request)
    → ((n : String) → member n names ≡ true → is_task_ready r n ≡ true → prepare n ≡ ok tt)
    → schedule_all prepare names r ≡ ok (all_scheduled names r)
unfolding schedule_all all_scheduled member
schedule_all_total prepare [] r h = refl
schedule_all_total prepare (name ∷ names) r h =
    let first =
      schedule_if_ready_total prepare r name
        (h name (ground (arith, string_eq.beq_iff name name))) in
    rw first (
      schedule_all_total prepare names (scheduled r name) (λ n m ready.
        h n (ground arith)
          (sym (is_task_ready-eq r (scheduled r name) n (scheduled-IsExtended r name)) ∙ ready)))

pub schedule_successors-Visits :
    (prepare : Preparing) (names : List String) (r r' : Request)
    → schedule_successors prepare names r ≡ ok r'
    → IsExtended r r' × Visits r r' names
unfolding schedule_successors
schedule_successors-Visits prepare [] r r' e =
    rw (ok-injective (sym e)) (IsExtended-refl r, λ n listed ready. unfold member in cc)
schedule_successors-Visits prepare (name ∷ names) r r' e =
    let (_, e') = require-eq-ok (member name r.tasks) key_error e in
    let (r₁, first, rest) = >>=-eq-ok (schedule_if_ready prepare r name) _ e' in
    let rest' =
      subst (λ q. schedule_successors prepare names q ≡ ok r')
        (schedule_if_ready-ok prepare r r₁ name first) rest in
    let (x, v) = schedule_successors-Visits prepare names (scheduled r name) r' rest' in
    (IsExtended-trans (scheduled-IsExtended r name) x, Visits-cons r r' name names x v)

pub schedule_successors_total :
    (prepare : Preparing) (names : List String) (r : Request)
    → ((n : String) → member n names ≡ true → member n r.tasks ≡ true)
    → ((n : String) → member n names ≡ true → is_task_ready r n ≡ true → prepare n ≡ ok tt)
    → (r' : Request) × (schedule_successors prepare names r ≡ ok r')
unfolding schedule_successors member
schedule_successors_total prepare [] r h k = (r, refl)
schedule_successors_total prepare (name ∷ names) r h k =
    let here : (name == name || member name names) ≡ true =
      ground (arith, string_eq.beq_iff name name) in
    let x = scheduled-IsExtended r name in
    let (r', e) =
      schedule_successors_total prepare names (scheduled r name)
        (λ n m. rw x.tasks (h n (ground arith)))
        (λ n m ready.
          k n (ground arith) (sym (is_task_ready-eq r (scheduled r name) n x) ∙ ready)) in
    let listed : member name r.tasks ≡ true = h name here in
    let first = schedule_if_ready_total prepare r name (k name here) in
    (r', rw (listed, schedule_successors) (rw first e))
