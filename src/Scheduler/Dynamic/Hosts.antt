-- ===== src/Scheduler/Dynamic/Hosts.antt =====
-- The numbering of hosts, `_build_worker_host_ids` (dynamic_scheduler.py).
use mathlib.Core.Path.{subst}
use diflow.Prelude.{
  ℕ, suc, ◌<◌, ◌≡◌, refl, sym, ap, ◌↔◌, ◌∙◌, arith, true, none, some, [], ◌∷◌, String, nat_eq,
  string_eq, length, ◌==◌, beq_refl, Dict, IsDict, lookup, insert, lookup-insert, Bool-cases,
  Option-cases, inl, inr,
}
use diflow.Scheduler.Dynamic.{host_id, note_host, number_hosts, build_worker_host_ids}

-- Every id is below the number of names, and no two names share one.
abbrev IsNumbering : Dict String ℕ → Type 0
IsNumbering ids =
    ((name : String) (i : ℕ) → lookup name ids ≡ some i → i < length ids)
    × ((name other : String) (i : ℕ)
        → lookup name ids ≡ some i
        → lookup other ids ≡ some i
        → name ≡ other)

-- `later` knows all that `ids` knows.
abbrev Extends : Dict String ℕ → Dict String ℕ → Type 0
Extends ids later = (name : String) (i : ℕ) → lookup name ids ≡ some i → lookup name later ≡ some i

length-insert_new :
    (name : String) (i : ℕ) (ids : Dict String ℕ)
    → lookup name ids ≡ none
    → length (insert name i ids) ≡ suc (length ids)
unfolding lookup insert
length-insert_new name i [] h = refl
length-insert_new name i ((other, j) ∷ ids) h = ground (arith, length-insert_new name i ids)

note_host-IsNumbering :
    (name : String) (ids : Dict String ℕ)
    → IsNumbering ids
    → IsNumbering (note_host name ids)
      × (Extends ids (note_host name ids))
      × (lookup name (note_host name ids) ≡ some (host_id name ids))
note_host-IsNumbering name ids (below, injective) = elim (Option-cases (lookup name ids)) [
  | inr (i, found) ↦ rw (found, host_id) ((below, injective), (λ other j h. h), found)
  | inl found ↦
      rw (found, host_id)
        (let longer = length-insert_new name (length ids) ids found in
          (
            (
              (λ a i h. ground (arith, lookup-insert name a (length ids) ids, longer, below a i)),
              (λ a b i h k. ground (
                arith,
                lookup-insert name a (length ids) ids,
                lookup-insert name b (length ids) ids,
                below a i,
                below b i,
                injective a b i,
                string_eq.beq_iff name a,
                string_eq.beq_iff name b,
              )),
            ),
            (λ other j h.
                ground
                  (arith, lookup-insert name other (length ids) ids, string_eq.beq_iff name other)),
            ground (arith, lookup-insert name name (length ids) ids, beq_refl name),
          ))
]

first_name :
    (first rank : ℕ) (hostname name : String) (workers : Dict ℕ String)
    → (first == rank) ≡ true
    → lookup rank ((first, hostname) ∷ workers) ≡ some name
    → hostname ≡ name
unfolding lookup
first_name first rank hostname name workers same h = ground (arith, h, same)

number_hosts-IsNumbering :
    (ids : Dict String ℕ) (hosts : Dict ℕ ℕ) (workers : Dict ℕ String)
    → IsDict workers
    → IsNumbering ids
    → (later : Dict String ℕ) × IsNumbering later
      × Extends ids later
      × ((rank : ℕ)
          → lookup rank workers ≡ none
          → lookup rank (number_hosts ids hosts workers) ≡ lookup rank hosts)
      × ((rank : ℕ) (name : String)
          → lookup rank workers ≡ some name
          → (i : ℕ) × (lookup rank (number_hosts ids hosts workers) ≡ some i)
            × (lookup name later ≡ some i))
unfolding number_hosts lookup
number_hosts-IsNumbering ids hosts [] d numbering =
    (ids, numbering, (λ name i h. h), (λ rank h. refl), (λ rank name h. cc))
number_hosts-IsNumbering ids hosts ((first, hostname) ∷ workers) (fresh, d) numbering =
    let (numbering', extends, named) = note_host-IsNumbering hostname ids numbering in
    let id = host_id hostname ids in
    let (later, numbered, extends', untouched, assigned) =
      number_hosts-IsNumbering (note_host hostname ids) (insert first id hosts) workers d
        numbering' in
    (
      later,
      numbered,
      (λ name i h. extends' name i (extends name i h)),
      (λ rank h.
          ground
            (arith, untouched rank, lookup-insert first rank id hosts, nat_eq.beq_iff first rank)),
      (λ rank name h. elim (Bool-cases (first == rank)) [
        | inl same ↦
            let equal = (nat_eq.beq_iff first rank).0 same in
            let absent = subst (λ r. lookup r workers ≡ none) equal fresh in
            let read = lookup-insert first rank id hosts in
            let named_so = first_name first rank hostname name workers same h in
            (
              id,
              untouched rank absent ∙ ground (arith, read),
              subst (λ n. lookup n later ≡ some id) named_so (extends' hostname id named),
            )
        | inr differ ↦ assigned rank name (ground arith)
      ]),
    )

-- In a dictionary of workers every worker gets a host id, and two workers get the same id exactly
-- if their host names are equal.
pub build_worker_host_ids_iff :
    (workers : Dict ℕ String) (rank other : ℕ) (name other_name : String)
    → IsDict workers
    → lookup rank workers ≡ some name
    → lookup other workers ≡ some other_name
    → (i : ℕ) × (j : ℕ) × (lookup rank (build_worker_host_ids workers) ≡ some i)
      × (lookup other (build_worker_host_ids workers) ≡ some j)
      × ((i ≡ j) ↔ (name ≡ other_name))
unfolding build_worker_host_ids lookup
build_worker_host_ids_iff workers rank other name other_name d h k =
    let (later, numbered, extends, untouched, assigned) =
      number_hosts-IsNumbering [] [] workers d ((λ a i e. cc), (λ a b i e f. cc)) in
    let (i, found, named) = assigned rank name h in
    let (j, found', named') = assigned other other_name k in
    (
      i,
      j,
      found,
      found',
      (
        (λ same. numbered.1 name other_name i named (named' ∙ ap some (sym same))),
        (λ same. ground (arith, same, named, named')),
      ),
    )
