-- ===== src/SchedulingCore/Profile.antt =====
-- TransferProfile, ModelProfile and the lookups in them (scheduling_core.py).
pub mod Transfer
pub mod Power
pub mod Nearest
pub mod Least
use diflow.Prelude.{
  ℕ, zero, suc, ◌+◌, ◌-◌, ◌/◌, ◌^◌, ◌≡◌, Bool, true, false, ◌&&◌, ◌||◌, Option, none, some, List,
  [], ◌∷◌, arith, String, ltb, leb, nat_beq, length, if◌then◌else◌, Eq, ◌==◌, Dict, lookup, Outcome,
  ok, value_error, ◌>>=◌, ◌>>◌, require, at, string_eq, nat_eq, ◌↔◌,
}
use diflow.Latency.{Latency, inf, less}

pub record TransferProfile : Type 0 where
  pub block_sizes : List ℕ
  pub fetch_overheads_us : List Latency

-- `sorted` on a tuple of integers.
insert_sorted : ℕ → List ℕ → List ℕ
insert_sorted x [] = x ∷ []
insert_sorted x (y ∷ ys) = if leb x y then x ∷ y ∷ ys else y ∷ insert_sorted x ys

sorted : List ℕ → List ℕ
unfolding insert_sorted
sorted [] = []
sorted (x ∷ xs) = insert_sorted x (sorted xs)

-- `==` on tuples of integers.
same_ints : List ℕ → List ℕ → Bool
same_ints [] [] = true
same_ints (x ∷ xs) (y ∷ ys) = nat_beq x y && same_ints xs ys
same_ints _ _ = false

-- The constructor with its `__post_init__`.
unfoldable pub make_transfer_profile : List ℕ → List Latency → Outcome TransferProfile
unfolding sorted same_ints
make_transfer_profile sizes overheads = do
  require (nat_beq (length sizes) (length overheads)) value_error
  require (same_ints (sorted sizes) sizes) value_error
  ok (record { block_sizes = sizes; fetch_overheads_us = overheads })

-- `bisect.bisect_left` on a sorted list: how many elements stand below `x`.
unfoldable pub bisect_left : List ℕ → ℕ → ℕ
bisect_left [] x = 0
bisect_left (y ∷ ys) x = if ltb y x then suc (bisect_left ys x) else 0

-- `_lookup_transfer_latency`
unfoldable pub lookup_transfer_latency : ℕ → TransferProfile → Outcome Latency
unfolding bisect_left
lookup_transfer_latency size profile =
    let sizes = profile.block_sizes in
    let index = bisect_left sizes size in
    if nat_beq (length sizes) 0
    then ok inf
    else at profile.fetch_overheads_us (if nat_beq index (length sizes) then index - 1 else index)

-- A key of `execution_latencies`: (mode, batch size), or with a height and a width.
pub data ProfileKey : Type 0 where
  batch_key : (mode : String) (batch_size : ℕ) → ProfileKey
  shape_key : (mode : String) (batch_size height width : ℕ) → ProfileKey

unfoldable pub key_beq : ProfileKey → ProfileKey → Bool
key_beq (batch_key m b) (batch_key m' b') = m == m' && nat_beq b b'
key_beq (shape_key m b h w) (shape_key m' b' h' w') =
    m == m' && (nat_beq b b' && (nat_beq h h' && nat_beq w w'))
key_beq _ _ = false

pub key_beq_iff : (j k : ProfileKey) → (key_beq j k ≡ true) ↔ (j ≡ k)
unfolding key_beq
key_beq_iff (batch_key m b) (batch_key m' b') = ground (arith, string_eq.beq_iff m m')
key_beq_iff (shape_key m b h w) (shape_key m' b' h' w') = ground (arith, string_eq.beq_iff m m')
key_beq_iff (batch_key m b) (shape_key m' b' h' w') = ground arith
key_beq_iff (shape_key m b h w) (batch_key m' b') = ground arith

instance unfoldable pub key_eq : Eq ProfileKey
unfolding key_beq
key_eq = record { beq = key_beq; beq_iff = key_beq_iff }

pub record ModelProfile : Type 0 where
  pub loading_latency : Latency
  pub execution_latencies : Dict ProfileKey Latency

-- `int.bit_length`: a number below `2 ^ fuel` needs at most `fuel` halvings.
unfoldable pub bit_length_from : ℕ → ℕ → ℕ
bit_length_from zero n = 0
bit_length_from (suc fuel) n =
    let rest = suc (bit_length_from fuel (n / 2)) in if nat_beq n 0 then 0 else rest

unfoldable pub bit_length : ℕ → ℕ
unfolding bit_length_from
bit_length n = bit_length_from n n

-- `_next_power_of_2`
unfoldable pub next_power_of_2 : ℕ → Outcome ℕ
unfolding bit_length
next_power_of_2 value = do require (leb 1 value) value_error; ok (2 ^ bit_length (value - 1))

-- `abs(a - b)`
abbrev pub distance : ℕ → ℕ → ℕ
distance a b = (a - b) + (b - a)

-- How far a measured shape is from the wanted one.
abbrev pub shape_distance : ℕ → ℕ → ℕ → ℕ → ℕ
shape_distance height width h w = distance h height + distance w width

-- The comprehension `candidates`, one entry at a time.
abbrev candidate :
    String → ℕ → ℕ → ℕ → ProfileKey × Latency → List (ℕ × Latency) → List (ℕ × Latency)
candidate mode batch height width (batch_key m b, l) rest = rest
candidate mode batch height width (shape_key m b h w, l) rest =
    if m == mode && (nat_beq b batch && (ltb 0 h && ltb 0 w))
    then (shape_distance height width h w, l) ∷ rest
    else rest

unfoldable pub candidates : String → ℕ → ℕ → ℕ → Dict ProfileKey Latency → List (ℕ × Latency)
candidates mode batch height width [] = []
candidates mode batch height width (e ∷ es) =
    candidate mode batch height width e (candidates mode batch height width es)

-- `<` on pairs.
abbrev pub pair_less : ℕ × Latency → ℕ × Latency → Bool
pair_less (d, l) (d', l') = ltb d d' || (nat_beq d d' && less l l')

-- One comparison of `min`, which keeps the first of the least.
pub lesser : ℕ × Latency → ℕ × Latency → ℕ × Latency
lesser best c = if pair_less c best then c else best

-- `best` is the least so far.
unfoldable pub min_from : ℕ × Latency → List (ℕ × Latency) → ℕ × Latency
min_from best [] = best
min_from best (c ∷ cs) = min_from (lesser best c) cs

-- `min(candidates, default=(inf, inf))[1]`
unfoldable pub nearest_latency : List (ℕ × Latency) → Latency
unfolding min_from lesser
nearest_latency [] = inf
nearest_latency (c ∷ cs) = (min_from c cs).1

abbrev pub or_else : Option Latency → Latency → Latency
or_else (some l) d = l
or_else none d = d

-- The exact shape is tried only for a positive height and width.
abbrev pub exact_latency : ModelProfile → String → ℕ → ℕ → ℕ → Option Latency
exact_latency profile mode batch height width =
    if ltb 0 height && ltb 0 width
    then lookup (shape_key mode batch height width) profile.execution_latencies
    else none

-- `lookup_execution_latency`
unfoldable pub lookup_execution_latency : ModelProfile → String → ℕ → ℕ → ℕ → Outcome Latency
unfolding next_power_of_2 candidates nearest_latency
lookup_execution_latency profile mode batch_size height width = do
  batch ← next_power_of_2 batch_size
  ok (
      or_else (exact_latency profile mode batch height width)
        (nearest_latency (candidates mode batch height width profile.execution_latencies)))
