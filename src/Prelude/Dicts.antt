-- ===== src/Prelude/Dicts.antt =====
-- A Python dictionary: an association list in insertion order. A write to a present key keeps its
-- place, a write to a new key goes to the end.
use mathlib.Core.Path.{◌≡◌, refl}
use mathlib.Core.Bool.{Bool, true, false}
use mathlib.Core.List.{List, [], ◌∷◌, map}
use mathlib.Core.Option.{Option, none, some}
use native.Mathlib.Omega.{arith}
use diflow.Prelude.Tests.{if◌then◌else◌}
use diflow.Prelude.Classes.{Eq, ◌==◌, beq_refl}

abbrev pub Dict {ℓ κ} : Type ℓ → Type κ → Type (ℓ ⊔ κ)
Dict K V = List (K × V)

abbrev pub keys {ℓ κ} : {K : Type ℓ} {V : Type κ} → Dict K V → List K
keys = map (λ e. e.0)

abbrev pub is_some {ℓ} : {A : Type ℓ} → Option A → Bool
is_some none = false
is_some (some a) = true

module _ {ℓ κ} {K : Type ℓ} {V : Type κ} ⦃e : Eq K⦄ where
  -- `d.get(k)`
  unfoldable pub lookup : K → Dict K V → Option V
  lookup key [] = none
  lookup key ((k, value) ∷ rest) = if k == key then some value else lookup key rest

  -- `d[k] = v`
  unfoldable pub insert : K → V → Dict K V → Dict K V
  insert key value [] = (key, value) ∷ []
  insert key value ((k, old) ∷ rest) =
      if k == key then (k, value) ∷ rest else (k, old) ∷ insert key value rest

  -- `del d[k]`, `d.pop(k, None)`
  unfoldable pub erase : K → Dict K V → Dict K V
  erase k [] = []
  erase k ((j, w) ∷ m) = if j == k then erase k m else (j, w) ∷ erase k m

  -- `k in d`
  abbrev pub contains : K → Dict K V → Bool
  contains k m = is_some (lookup k m)

  -- No key twice, as in every Python dictionary.
  abbrev pub IsDict : Dict K V → Type κ
  IsDict [] = Unit
  IsDict ((k, v) ∷ m) = (lookup k m ≡ none) × IsDict m

  -- A write is seen under its own key only.
  pub lookup-insert :
      (key other : K) (value : V) (d : Dict K V)
      → lookup other (insert key value d) ≡ (if key == other then some value else lookup other d)
  unfolding insert lookup
  lookup-insert key other value [] = refl
  lookup-insert key other value ((k, old) ∷ rest) = ground (
    arith,
    lookup-insert key other value rest,
    e.beq_iff k key,
    e.beq_iff k other,
    e.beq_iff key other,
  )

  pub lookup-erase :
      (k j : K) (m : Dict K V) → lookup j (erase k m) ≡ (if k == j then none else lookup j m)
  unfolding lookup erase
  lookup-erase k j [] = ground arith
  lookup-erase k j ((i, w) ∷ m) =
      ground (arith, e.beq_iff k j, e.beq_iff i k, e.beq_iff i j, lookup-erase k j m)

  pub lookup-insert_self : (k : K) (v : V) (m : Dict K V) → lookup k (insert k v m) ≡ some v
  lookup-insert_self k v m = simp (lookup-insert, beq_refl)

  pub lookup-erase_self : (k : K) (m : Dict K V) → lookup k (erase k m) ≡ none
  lookup-erase_self k m = simp (lookup-erase, beq_refl)

  pub insert-IsDict : (k : K) (v : V) (m : Dict K V) → IsDict m → IsDict (insert k v m)
  unfolding lookup insert
  insert-IsDict k v [] d = (refl, tt)
  insert-IsDict k v ((j, w) ∷ m) d =
      ground (arith, e.beq_iff j k, e.beq_iff k j, lookup-insert k j v m, insert-IsDict k v m)

  pub erase-IsDict : (k : K) (m : Dict K V) → IsDict m → IsDict (erase k m)
  unfolding lookup erase
  erase-IsDict k [] d = tt
  erase-IsDict k ((j, w) ∷ m) d =
      ground (arith, e.beq_iff j k, e.beq_iff k j, lookup-erase k j m, erase-IsDict k m)

  -- A key that is absent is appended; removing it leaves the dictionary as it was.
  pub erase_absent : (k : K) (m : Dict K V) → lookup k m ≡ none → erase k m ≡ m
  unfolding lookup erase
  erase_absent k [] h = refl
  erase_absent k ((j, w) ∷ m) h = ground (arith, erase_absent k m)

  pub erase-insert : (k : K) (v : V) (m : Dict K V) → lookup k m ≡ none → erase k (insert k v m) ≡ m
  unfolding lookup insert erase
  erase-insert k v [] h = rw (beq_refl k)
  erase-insert k v ((j, w) ∷ m) h = ground (arith, erase-insert k v m)

  -- A write that is overwritten by the old value leaves every lookup as it was.
  pub lookup-insert_back :
      (k j : K) (v w : V) (m : Dict K V)
      → lookup k m ≡ some v
      → lookup j (insert k v (insert k w m)) ≡ lookup j m
  lookup-insert_back k j v w m h =
      ground (arith, e.beq_iff k j, lookup-insert k j v (insert k w m), lookup-insert k j w m)
