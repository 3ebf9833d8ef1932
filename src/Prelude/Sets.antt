-- ===== src/Prelude/Sets.antt =====
-- A Python set: a list of its elements, read only through membership.
use mathlib.Core.Path.{◌≡◌, refl, sym}
use mathlib.Core.Logic.{inl, inr}
use mathlib.Core.Bool.{Bool, true, false, ◌||◌, ◌&&◌, not}
use mathlib.Core.List.{List, [], ◌∷◌, ◌++◌, Memᴰ}
use native.Mathlib.Omega.{arith}
use diflow.Prelude.Tests.{if◌then◌else◌, Bool-cases}
use diflow.Prelude.Classes.{Eq, ◌==◌, beq_refl}
use diflow.Prelude.Lists.{every, length, select}
use Prim.Native.Nat.{◌≤◌, ◌<◌}

module _ {ℓ} {A : Type ℓ} ⦃e : Eq A⦄ where
  -- `x in s`
  unfoldable pub member : A → List A → Bool
  member a [] = false
  member a (x ∷ xs) = x == a || member a xs

  -- `s.add(x)`
  unfoldable pub add_element : A → List A → List A
  add_element a xs = if member a xs then xs else xs ++ (a ∷ [])

  -- `s <= t`, `s.issubset(t)`
  abbrev pub subset : List A → List A → Bool
  subset xs ys = every (λ x. member x ys) xs

  pub member-append : (a : A) (xs ys : List A) → member a (xs ++ ys) ≡ (member a xs || member a ys)
  unfolding member
  member-append a [] ys = refl
  member-append a (x ∷ xs) ys = ground (arith, member-append a xs ys)

  pub member-add : (a b : A) (xs : List A) → member b (add_element a xs) ≡ (member b xs || a == b)
  unfolding add_element
  member-add a b xs = elim (Bool-cases (member a xs)) [
    | inl old ↦ rw (old, add_element) (old_case old)
    | inr new ↦ rw (new, add_element) (rw member-append (unfold member in ground arith))
  ]
    where
      old_case : member a xs ≡ true → member b xs ≡ (member b xs || a == b)
      old_case old = elim (Bool-cases (a == b)) [
        | inl same ↦ let p : a ≡ b = (e.beq_iff a b).0 same in rw (same, ← p) (rw old)
        | inr other ↦ rw other (ground arith)
      ]

  pub member-select :
      (p : A → Bool) (a : A) (xs : List A) → member a (select p xs) ≡ (member a xs && p a)
  unfolding member
  member-select p a [] = refl
  member-select p a (x ∷ xs) = elim (Bool-cases (x == a)) [
    | inl same ↦
        let q : x ≡ a = (e.beq_iff x a).0 same in
        rw q (ground (arith, member-select p a xs, beq_refl a))
    | inr other ↦ ground (arith, member-select p a xs)
  ]

  pub Mem-member : (a : A) (xs : List A) → Memᴰ a xs → member a xs ≡ true
  unfolding member
  Mem-member a [] m = elim m [ ]
  Mem-member a (x ∷ xs) (Memᴰ.head p) = rw (p, beq_refl x)
  Mem-member a (x ∷ xs) (Memᴰ.tail m) = ground (arith, Mem-member a xs m)

  pub member-Mem : (a : A) (xs : List A) → member a xs ≡ true → Memᴰ a xs
  unfolding member
  member-Mem a [] h = cc
  member-Mem a (x ∷ xs) h = elim (Bool-cases (x == a)) [
    | inl same ↦ Memᴰ.head (sym ((e.beq_iff x a).0 same))
    | inr other ↦ Memᴰ.tail (member-Mem a xs (ground arith))
  ]

  -- No element twice.
  abbrev pub Distinct : List A → Type 0
  Distinct [] = Unit
  Distinct (x ∷ xs) = (member x xs ≡ false) × Distinct xs

  pub Distinct-append_new :
      (a : A) (xs : List A) → Distinct xs → member a xs ≡ false → Distinct (xs ++ (a ∷ []))
  unfolding member
  Distinct-append_new a [] d h = (refl, tt)
  Distinct-append_new a (x ∷ xs) d h = (
    ground (arith, member-append x xs (a ∷ []), e.beq_iff a x, e.beq_iff x a, d.0),
    Distinct-append_new a xs d.1 (ground arith),
  )

  pub Distinct-add : (a : A) (xs : List A) → Distinct xs → Distinct (add_element a xs)
  unfolding add_element
  Distinct-add a xs d = elim (Bool-cases (member a xs)) [
    | inl old ↦ rw (old, add_element) d
    | inr new ↦ rw (new, add_element) (Distinct-append_new a xs d new)
  ]

module _ {ℓ} {A : Type ℓ} ⦃e : Eq A⦄ where
  -- Every element of `xs` is one of `ys`.
  abbrev pub IsSubset : List A → List A → Type ℓ
  IsSubset xs ys = (a : A) → member a xs ≡ true → member a ys ≡ true

  abbrev without : A → List A → List A
  without a = select (λ x. not (x == a))

  member-without : (a b : A) (xs : List A) → member b (without a xs) ≡ (member b xs && not (a == b))
  unfolding member
  member-without a b [] = refl
  member-without a b (x ∷ xs) =
      ground
        (arith, member-without a b xs, e.beq_iff x a, e.beq_iff a b, e.beq_iff x b, e.beq_iff a x)

  length-without_le : (a : A) (xs : List A) → length (without a xs) ≤ length xs
  length-without_le a [] = omega arith
  length-without_le a (x ∷ xs) = ground (arith, length-without_le a xs)

  length-without : (a : A) (xs : List A) → member a xs ≡ true → length (without a xs) < length xs
  unfolding member
  length-without a [] h = cc
  length-without a (x ∷ xs) h = ground (arith, length-without a xs, length-without_le a xs)

  -- The pigeonhole principle.
  pub length-IsSubset : (xs ys : List A) → Distinct xs → IsSubset xs ys → length xs ≤ length ys
  unfolding member
  length-IsSubset [] ys d s = omega arith
  length-IsSubset (x ∷ xs) ys d s =
      let rest =
        length-IsSubset xs (without x ys) d.1
          λ a m. ground (arith, member-without x a ys, s a, e.beq_iff x a, d.0) in
      let listed : member x ys ≡ true = s x (ground (arith, e.beq_iff x x)) in
      let fewer = length-without x ys listed in omega arith

  -- A subset without repetition that is as long is the whole set.
  pub IsSubset_of_length :
      (xs ys : List A) → Distinct xs → IsSubset xs ys → length ys ≤ length xs → IsSubset ys xs
  unfolding member
  IsSubset_of_length xs ys d s l a m = elim (Bool-cases (member a xs)) [
    | inl old ↦ old
    | inr missing ↦
        let longer =
          length-IsSubset (a ∷ xs) ys (missing, d) λ b k. ground (arith, s b, e.beq_iff a b, m) in
        ground arith
  ]
