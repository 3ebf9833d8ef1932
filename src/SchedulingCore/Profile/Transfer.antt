-- ===== src/SchedulingCore/Profile/Transfer.antt =====
-- What a transfer profile is accepted for, and what a lookup in it finds (scheduling_core.py).
use mathlib.Core.Path.{subst}
use diflow.Prelude.{
  ℕ, zero, suc, ◌-◌, ◌≤◌, ◌<◌, ◌≡◌, refl, ◌⊎◌, inl, inr, ◌↔◌, true, some, List, [], ◌∷◌, arith,
  nat_beq, length, get_elem?, get_elem?_of_lt, if◌then◌else◌, ok, raise, value_error, All,
  Bool-cases,
}
use diflow.Latency.{Latency, inf}
use diflow.SchedulingCore.Profile.{
  TransferProfile, insert_sorted, sorted, same_ints, make_transfer_profile, bisect_left,
  lookup_transfer_latency,
}

-- Each element is at most every later one.
abbrev pub IsSorted : List ℕ → Type 0
IsSorted [] = Unit
IsSorted (x ∷ xs) = All (λ y. x ≤ y) xs × IsSorted xs

All-insert_sorted :
    (a x : ℕ) (xs : List ℕ) → a ≤ x → All (λ y. a ≤ y) xs → All (λ y. a ≤ y) (insert_sorted x xs)
unfolding insert_sorted
All-insert_sorted a x [] h k = (h, tt)
All-insert_sorted a x (y ∷ ys) h k = ground (arith, All-insert_sorted a x ys)

All-le_trans : (a b : ℕ) (xs : List ℕ) → a ≤ b → All (λ y. b ≤ y) xs → All (λ y. a ≤ y) xs
All-le_trans a b [] h k = tt
All-le_trans a b (x ∷ xs) h k = (omega arith, All-le_trans a b xs h k.1)

insert_sorted-IsSorted : (x : ℕ) (xs : List ℕ) → IsSorted xs → IsSorted (insert_sorted x xs)
unfolding insert_sorted
insert_sorted-IsSorted x [] h = (tt, tt)
insert_sorted-IsSorted x (y ∷ ys) h =
    ground (arith, insert_sorted-IsSorted x ys, All-insert_sorted y x ys, All-le_trans x y ys)

sorted-IsSorted : (xs : List ℕ) → IsSorted (sorted xs)
unfolding sorted
sorted-IsSorted [] = tt
sorted-IsSorted (x ∷ xs) = insert_sorted-IsSorted x (sorted xs) (sorted-IsSorted xs)

insert_sorted_least : (x : ℕ) (xs : List ℕ) → All (λ y. x ≤ y) xs → insert_sorted x xs ≡ x ∷ xs
unfolding insert_sorted
insert_sorted_least x [] h = refl
insert_sorted_least x (y ∷ ys) h = ground arith

sorted_of_IsSorted : (xs : List ℕ) → IsSorted xs → sorted xs ≡ xs
unfolding sorted
sorted_of_IsSorted [] h = refl
sorted_of_IsSorted (x ∷ xs) h = rw (sorted_of_IsSorted xs h.1) (insert_sorted_least x xs h.0)

same_ints_iff : (xs ys : List ℕ) → (same_ints xs ys ≡ true) ↔ (xs ≡ ys)
unfolding same_ints
same_ints_iff [] [] = ground arith
same_ints_iff [] (y ∷ ys) = ground arith
same_ints_iff (x ∷ xs) [] = ground arith
same_ints_iff (x ∷ xs) (y ∷ ys) = ground (arith, same_ints_iff xs ys)

-- The two outcomes of the constructor.
make_transfer_profile_cases :
    (sizes : List ℕ) (overheads : List Latency)
    → (length sizes ≡ length overheads)
        × (sorted sizes ≡ sizes)
        × (make_transfer_profile sizes overheads
            ≡ ok (record { block_sizes = sizes; fetch_overheads_us = overheads }))
      ⊎ ¬ ((length sizes ≡ length overheads) × (sorted sizes ≡ sizes))
        × (make_transfer_profile sizes overheads ≡ raise value_error)
unfolding make_transfer_profile
make_transfer_profile_cases sizes overheads =
    elim (Bool-cases (nat_beq (length sizes) (length overheads))) [
      | inl same ↦ elim (Bool-cases (same_ints (sorted sizes) sizes)) [
        | inl ordered ↦ inl (
          ground arith,
          (same_ints_iff (sorted sizes) sizes).0 ordered,
          rw (same, make_transfer_profile) (rw ordered),
        )
        | inr not_ordered ↦ inr (
          (λ (_, h). let t = (same_ints_iff (sorted sizes) sizes).1 h in cc),
          rw (same, make_transfer_profile) (rw not_ordered),
        )
      ]
      | inr different ↦ inr ((λ (h, _). ground arith), rw (different, make_transfer_profile))
    ]

-- A transfer profile is built exactly from sorted block sizes with one overhead each; anything else
-- is a ValueError.
pub make_transfer_profile_decides :
    (sizes : List ℕ) (overheads : List Latency)
    → (length sizes ≡ length overheads)
        × IsSorted sizes
        × (make_transfer_profile sizes overheads
            ≡ ok (record { block_sizes = sizes; fetch_overheads_us = overheads }))
      ⊎ ¬ ((length sizes ≡ length overheads) × IsSorted sizes)
        × (make_transfer_profile sizes overheads ≡ raise value_error)
make_transfer_profile_decides sizes overheads = elim (make_transfer_profile_cases sizes overheads) [
  | inl (same, ordered, built) ↦ inl (same, subst IsSorted ordered (sorted-IsSorted sizes), built)
  | inr (other, refused) ↦
      inr ((λ (same, is_sorted). other (same, sorted_of_IsSorted sizes is_sorted)), refused)
]

bisect_left-le : (sizes : List ℕ) (x : ℕ) → bisect_left sizes x ≤ length sizes
unfolding bisect_left
bisect_left-le [] x = omega arith
bisect_left-le (y ∷ ys) x = ground (arith, bisect_left-le ys x)

-- The block that stands for a transfer of `size` bytes: the first one that is large enough, or the
-- last one if none is.
pub record IsBlock (sizes : List ℕ) (size index : ℕ) : Type 0 where
  pub inside : index < length sizes
  pub before : (i b : ℕ) → i < index → get_elem? sizes i ≡ some b → b < size
  pub enough : (b : ℕ) → get_elem? sizes index ≡ some b → (size ≤ b) ⊎ (suc index ≡ length sizes)

below_bisect :
    (sizes : List ℕ) (x i b : ℕ) → i < bisect_left sizes x → get_elem? sizes i ≡ some b → b < x
unfolding bisect_left
below_bisect [] x i b h e = elim h [ ]
below_bisect (y ∷ ys) x zero b h e = ground arith
below_bisect (y ∷ ys) x (suc i) b h e = ground (arith, below_bisect ys x i b)

at_bisect : (sizes : List ℕ) (x b : ℕ) → get_elem? sizes (bisect_left sizes x) ≡ some b → x ≤ b
unfolding bisect_left
at_bisect [] x b e = cc
at_bisect (y ∷ ys) x b e = ground (arith, at_bisect ys x b)

abbrev block_index : List ℕ → ℕ → ℕ
block_index sizes size =
    let index = bisect_left sizes size in if nat_beq index (length sizes) then index - 1 else index

block_index-IsBlock :
    (sizes : List ℕ) (size : ℕ) → 0 < length sizes → IsBlock sizes size (block_index sizes size)
block_index-IsBlock sizes size h =
    elim (Bool-cases (nat_beq (bisect_left sizes size) (length sizes))) [
      | inl past ↦ rw past (record {
        inside = ground arith;
        before = λ i b lt e. below_bisect sizes size i b (omega arith) e;
        enough = λ b e. inr (ground arith);
      })
      | inr found ↦ rw found (record {
        inside = ground (arith, bisect_left-le sizes size);
        before = λ i b lt e. below_bisect sizes size i b lt e;
        enough = λ b e. inl (at_bisect sizes size b e);
      })
    ]

-- With one overhead for each block, a lookup in a profile that has blocks gives the overhead of the
-- first block that holds the transfer, or of the last block; without blocks it gives infinity.
pub lookup_transfer_latency-IsBlock :
    (size : ℕ) (profile : TransferProfile)
    → length profile.block_sizes ≡ length profile.fetch_overheads_us
    → (length profile.block_sizes ≡ 0) × (lookup_transfer_latency size profile ≡ ok inf)
      ⊎ (index : ℕ) × (l : Latency) × IsBlock profile.block_sizes size index
        × (get_elem? profile.fetch_overheads_us index ≡ some l)
        × (lookup_transfer_latency size profile ≡ ok l)
unfolding lookup_transfer_latency
lookup_transfer_latency-IsBlock size profile same =
    elim (Bool-cases (nat_beq (length profile.block_sizes) 0)) [
      | inl empty ↦ inl (ground arith, rw (empty, lookup_transfer_latency))
      | inr blocks ↦
          let index = block_index profile.block_sizes size in
          let block = block_index-IsBlock profile.block_sizes size (ground arith) in
          let (l, found) =
            get_elem?_of_lt profile.fetch_overheads_us index (omega (arith, block.inside)) in
          inr (index, l, block, found, rw (blocks, lookup_transfer_latency) (rw found))
    ]
