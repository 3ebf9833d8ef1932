-- ===== src/Expand/Count.antt =====
-- How many nodes an expansion emits (diflow/interface/workflow_expand.py).
use diflow.Prelude.{
  ℕ, zero, suc, ◌+◌, ◌≡◌, refl, ap, ◌∙◌, Bool, true, false, [], ◌∷◌, ◌++◌, String, arith, length,
  length-append, Dict, Outcome, ok, raise, ◌>>=◌, >>=-eq-ok, ok-injective, Bool-cases, inl, inr,
}
use diflow.Workflow.{NodeIo, WorkflowNode}
use diflow.Expr.{Values, eval}
use diflow.Region.{
  Loop, Region, Program, loop_region, cond_region, cond_else_region, no_ops, node_op, region_op,
}
use diflow.Expand.{
  Scope, Expansion, resolve_all, bind_outputs, bind_results, bind_branch, or_empty, rounds, trips,
  clone, expand_node, enter_round, env_of, bind_state, bind_taken, expand_region, expand_program,
}

module _ (V : Values) (uuid : ℕ → String) where
  -- The rounds of a loop, counted: `f i` nodes in round `i`.
  abbrev sum_rounds : (ℕ → ℕ) → ℕ → ℕ → ℕ
  sum_rounds f zero i = 0
  sum_rounds f (suc left) i = f i + sum_rounds f left (suc i)

  abbrev count_of : Outcome ℕ → ℕ
  count_of (raise e) = 0
  count_of (ok n) = n

  abbrev rounds_of : Outcome V.Value → ℕ
  rounds_of (raise e) = 0
  rounds_of (ok value) = count_of (trips (V.as_int value))

  abbrev pick : Bool → ℕ → ℕ → ℕ
  pick true m n = m
  pick false m n = n

  abbrev is_taken : Outcome V.Value → Bool
  is_taken (raise e) = false
  is_taken (ok value) = V.truth value

  -- The number of nodes that a body stands for, given the loop counters around it: each loop's body
  -- as often as its trip count says, and of each conditional the branch that its predicate takes.
  unfoldable mutual
    pub region_count : Region → Dict String V.Value → Dict String V.Value → ℕ
    region_count (loop_region loop body) inputs env =
        sum_rounds (λ (i : ℕ). program_count body inputs (env_of V uuid loop i env))
          (rounds_of (eval V loop.trip_count (env ++ inputs))) 0
    region_count (cond_region cond then_body) inputs env =
        pick (is_taken (eval V cond.predicate (env ++ inputs))) (program_count then_body inputs env)
          0
    region_count (cond_else_region cond then_body else_body) inputs env =
        pick (is_taken (eval V cond.predicate (env ++ inputs))) (program_count then_body inputs env)
          (program_count else_body inputs env)

    pub program_count : Program → Dict String V.Value → Dict String V.Value → ℕ
    program_count no_ops inputs env = 0
    program_count (node_op n ops) inputs env = suc (program_count ops inputs env)
    program_count (region_op r ops) inputs env =
        region_count r inputs env + program_count ops inputs env

  abbrev emitted_count : Expansion V → ℕ
  emitted_count s = length s.emitted

  -- If each round of a loop emits its count, so does the loop.
  rounds-count :
      (step : ℕ → Dict String NodeIo × Expansion V → Outcome (Dict String NodeIo × Expansion V))
      (f : ℕ → ℕ)
      → ((i : ℕ) (c c' : Dict String NodeIo × Expansion V)
          → step i c ≡ ok c'
          → emitted_count c'.1 ≡ emitted_count c.1 + f i)
      → (left i : ℕ) (c c' : Dict String NodeIo × Expansion V) → rounds step left i c ≡ ok c'
      → emitted_count c'.1 ≡ emitted_count c.1 + sum_rounds f left i
  unfolding rounds
  rounds-count step f h zero i c c' e = let same = ok-injective e in rw (← same) (omega arith)
  rounds-count step f h (suc left) i c c' e =
      let (c₁, first, rest) = >>=-eq-ok (step i c) _ e in
      omega (arith, h i c c₁ first, rounds-count step f h left (suc i) c₁ c' rest)

  expand_node-count :
      (n : WorkflowNode) (mapping : Dict String NodeIo) (parents : Scope) (s : Expansion V)
      (r : Dict String NodeIo × Expansion V)
      → expand_node V uuid n mapping parents s ≡ ok r
      → emitted_count r.1 ≡ suc (emitted_count s)
  unfolding expand_node
  expand_node-count n mapping parents s r e =
      let (copy, _, e₁) = >>=-eq-ok (clone V uuid n (mapping ∷ parents) s) _ e in
      let (mapping', _, e₂) = >>=-eq-ok (bind_outputs n.outputs copy.outputs mapping) _ e₁ in
      rw (← ok-injective e₂) (omega (arith, length-append s.emitted (copy ∷ [])))

  enter_round-count :
      (loop : Loop) (i : ℕ) (current : Dict String NodeIo) (s : Expansion V)
      (r : Dict String NodeIo × Expansion V)
      → enter_round V uuid loop i current s ≡ ok r
      → emitted_count r.1 ≡ emitted_count s
  unfolding enter_round
  enter_round-count loop i current s r e =
      let (mapping, _, e₁) = >>=-eq-ok (bind_results loop.carry_placeholders current _) _ e in
      rw (← ok-injective e₁) refl

  loop-count :
      {step : ℕ → Dict String NodeIo × Expansion V → Outcome (Dict String NodeIo × Expansion V)}
      {last : Dict String NodeIo × Expansion V → Outcome (Expansion V)} {s' : Expansion V}
      (start : Dict String NodeIo × Expansion V) (n : ℕ)
      → (rounds step n 0 start >>= last) ≡ ok s'
      → (f : ℕ → ℕ)
      → ((i : ℕ) (c c' : Dict String NodeIo × Expansion V)
          → step i c ≡ ok c'
          → emitted_count c'.1 ≡ emitted_count c.1 + f i)
      → ((c : Dict String NodeIo × Expansion V) (s'' : Expansion V)
          → last c ≡ ok s''
          → emitted_count s'' ≡ emitted_count c.1)
      → emitted_count s' ≡ emitted_count start.1 + sum_rounds f n 0
  loop-count {step} {last} {s'} start n e f each finish =
      let (c, looped, ended) = >>=-eq-ok (rounds step n 0 start) last e in
      omega (arith, rounds-count step f each n 0 start c looped, finish c s' ended)

  bind_state-count :
      (results values : Dict String NodeIo) (s s' : Expansion V)
      → bind_state V uuid results values s ≡ ok s'
      → emitted_count s' ≡ emitted_count s
  unfolding bind_state
  bind_state-count results values s s' e =
      let (subst, _, made) = >>=-eq-ok (bind_results results values s.subst) _ e in
      rw (← ok-injective made) refl

  bind_taken-count :
      (results branch : Dict String NodeIo) (scope : Scope) (s s' : Expansion V)
      → bind_taken V uuid results branch scope s ≡ ok s'
      → emitted_count s' ≡ emitted_count s
  unfolding bind_taken
  bind_taken-count results branch scope s s' e =
      let (subst, _, made) = >>=-eq-ok (bind_branch results branch scope s.subst) _ e in
      rw (← ok-injective made) refl

  mutual
    unfolding expand_region region_count

    region_emits :
        (r : Region) (inputs env : Dict String V.Value) (scope : Scope) (s s' : Expansion V)
        → expand_region V uuid r inputs env scope s ≡ ok s'
        → emitted_count s' ≡ emitted_count s + region_count r inputs env
    region_emits (loop_region loop body) inputs env scope s s' e =
        let (value, found, e₁) = >>=-eq-ok (eval V loop.trip_count (env ++ inputs)) _ e in
        let (n, counted, e₂) = >>=-eq-ok (trips (V.as_int value)) _ e₁ in
        let f : ℕ → ℕ = λ i. program_count body inputs (env_of V uuid loop i env) in
        let same : rounds_of (eval V loop.trip_count (env ++ inputs)) ≡ n =
          ap rounds_of found ∙ ap count_of counted in
        rw same (
          loop-count (resolve_all scope s.subst loop.carry_init, s) n e₂ f
            (λ i d d' round.
              let (entered, begun, r₁) = >>=-eq-ok (enter_round V uuid loop i d.0 d.1) _ round in
              let (left, run, r₂) =
                >>=-eq-ok
                  (expand_program V uuid body inputs (env_of V uuid loop i env) entered.0 scope
                    entered.1)
                  _ r₁ in
              rw (← ok-injective r₂) (
                omega (
                  arith,
                  enter_round-count loop i d.0 d.1 entered begun,
                  program_emits body inputs (env_of V uuid loop i env) entered.0 scope entered.1
                      left run,
                )))
            (λ c s''. bind_state-count loop.results c.0 c.1 s''))
    region_emits (cond_region cond then_body) inputs env scope s s' e =
        let (value, found, e₁) = >>=-eq-ok (eval V cond.predicate (env ++ inputs)) _ e in
        let taken = ap is_taken found in
        let m = program_count then_body inputs env in
        elim (Bool-cases (V.truth value)) [
          | inl truth ↦
              let e₂ = rw truth at e₁ in
              let (left, run, e₃) =
                >>=-eq-ok (expand_program V uuid then_body inputs env [] scope s) _ e₂ in
              omega (
                arith,
                program_emits then_body inputs env [] scope s left run,
                bind_taken-count cond.results cond.then_results (left.0 ∷ scope) left.1 s' e₃,
                ap (λ b. pick b m 0) (taken ∙ truth),
              )
          | inr falsity ↦
              let same = ok-injective (rw falsity at e₁) in
              rw (← same) (omega (arith, ap (λ b. pick b m 0) (taken ∙ falsity)))
        ]
    region_emits (cond_else_region cond then_body else_body) inputs env scope s s' e =
        let (value, found, e₁) = >>=-eq-ok (eval V cond.predicate (env ++ inputs)) _ e in
        let taken = ap is_taken found in
        let m = program_count then_body inputs env in
        let n = program_count else_body inputs env in
        elim (Bool-cases (V.truth value)) [
          | inl truth ↦
              let e₂ = rw truth at e₁ in
              let (left, run, e₃) =
                >>=-eq-ok (expand_program V uuid then_body inputs env [] scope s) _ e₂ in
              omega (
                arith,
                program_emits then_body inputs env [] scope s left run,
                bind_taken-count cond.results cond.then_results (left.0 ∷ scope) left.1 s' e₃,
                ap (λ b. pick b m n) (taken ∙ truth),
              )
          | inr falsity ↦
              let e₂ = rw falsity at e₁ in
              let (left, run, e₃) =
                >>=-eq-ok (expand_program V uuid else_body inputs env [] scope s) _ e₂ in
              omega (
                arith,
                program_emits else_body inputs env [] scope s left run,
                bind_taken-count cond.results (or_empty cond.else_results) (left.0 ∷ scope) left.1
                    s' e₃,
                ap (λ b. pick b m n) (taken ∙ falsity),
              )
        ]

    program_emits :
        (p : Program) (inputs env : Dict String V.Value) (mapping : Dict String NodeIo)
        (parents : Scope) (s : Expansion V) (c : Dict String NodeIo × Expansion V)
        → expand_program V uuid p inputs env mapping parents s ≡ ok c
        → emitted_count c.1 ≡ emitted_count s + program_count p inputs env
    program_emits no_ops inputs env mapping parents s c e = rw (← ok-injective e) (omega arith)
    program_emits (node_op n ops) inputs env mapping parents s c e =
        let (d, made, e₁) = >>=-eq-ok (expand_node V uuid n mapping parents s) _ e in
        omega (
          arith,
          expand_node-count n mapping parents s d made,
          program_emits ops inputs env d.0 parents d.1 c e₁,
        )
    program_emits (region_op r ops) inputs env mapping parents s c e =
        let (s₁, made, e₁) =
          >>=-eq-ok (expand_region V uuid r inputs env (mapping ∷ parents) s) _ e in
        omega (
          arith,
          region_emits r inputs env (mapping ∷ parents) s s₁ made,
          program_emits ops inputs env mapping parents s₁ c e₁,
        )

  -- An expansion of a region that succeeds has emitted as many nodes as the trip counts and branches of
  -- the region, evaluated for the request, stand for: no round and no node is left out or doubled.
  pub expand_region-count :
      (r : Region) (inputs env : Dict String V.Value) (scope : Scope) (s s' : Expansion V)
      → expand_region V uuid r inputs env scope s ≡ ok s'
      → length s'.emitted ≡ length s.emitted + region_count r inputs env
  expand_region-count = region_emits
