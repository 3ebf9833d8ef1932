-- ===== src/Latency.antt =====
-- Time estimates of diflow/backend/scheduler. The program keeps seconds in floats, infinity among
-- them; here a finite estimate is a whole number of microseconds.
use diflow.Prelude.{ℕ, ◌+◌, ◌-◌, ◌≤◌, ◌≡◌, ◌⊎◌, inl, inr, refl, Bool, true, false, arith, ltb, leb}

pub data Latency : Type 0 where
  fin : ℕ → Latency
  inf : Latency

-- `math.isinf`
abbrev pub is_inf : Latency → Bool
is_inf (fin a) = false
is_inf inf = true

-- `math.isfinite`
abbrev pub is_finite : Latency → Bool
is_finite (fin a) = true
is_finite inf = false

-- `a + b`
unfoldable pub add : Latency → Latency → Latency
add (fin a) (fin b) = fin (a + b)
add (fin a) inf = inf
add inf b = inf

-- `max(0.0, a - b)`. A difference of infinities is not a number, and `max` then keeps 0.0.
unfoldable pub sub_or_zero : Latency → Latency → Latency
sub_or_zero (fin a) (fin b) = fin (a - b)
sub_or_zero (fin a) inf = fin 0
sub_or_zero inf (fin b) = inf
sub_or_zero inf inf = fin 0

-- `a < b`
abbrev pub less : Latency → Latency → Bool
less (fin a) (fin b) = ltb a b
less (fin a) inf = true
less inf b = false

-- `a <= b`
abbrev pub less_eq : Latency → Latency → Bool
less_eq (fin a) (fin b) = leb a b
less_eq (fin a) inf = true
less_eq inf (fin b) = false
less_eq inf inf = true

-- The order that the tests decide.
abbrev pub Le : Latency → Latency → Type 0
Le (fin a) (fin b) = a ≤ b
Le (fin a) inf = Unit
Le inf (fin b) = ⊥
Le inf inf = Unit

pub Le-refl : (a : Latency) → Le a a
Le-refl (fin a) = omega arith
Le-refl inf = tt

pub Le-trans : (a b c : Latency) → Le a b → Le b c → Le a c
Le-trans (fin a) (fin b) (fin c) h k = omega arith
Le-trans (fin a) (fin b) inf h k = tt
Le-trans (fin a) inf (fin c) h k = absurd k
Le-trans (fin a) inf inf h k = tt
Le-trans inf (fin b) c h k = absurd h
Le-trans inf inf c h k = k

pub Le_of_less : (a b : Latency) → less a b ≡ true → Le a b
Le_of_less (fin a) (fin b) h = ground arith
Le_of_less (fin a) inf h = tt
Le_of_less inf b h = cc

pub Le_of_not_less : (a b : Latency) → less a b ≡ false → Le b a
Le_of_not_less (fin a) (fin b) h = ground arith
Le_of_not_less (fin a) inf h = cc
Le_of_not_less inf (fin b) h = tt
Le_of_not_less inf inf h = tt

pub add_comm : (a b : Latency) → add a b ≡ add b a
unfolding add
add_comm (fin a) (fin b) = ground arith
add_comm (fin a) inf = refl
add_comm inf (fin b) = refl
add_comm inf inf = refl

pub add_assoc : (a b c : Latency) → add (add a b) c ≡ add a (add b c)
unfolding add
add_assoc (fin a) (fin b) (fin c) = ground arith
add_assoc (fin a) (fin b) inf = refl
add_assoc (fin a) inf c = refl
add_assoc inf b c = refl

pub zero_add : (a : Latency) → add (fin 0) a ≡ a
unfolding add
zero_add (fin a) = ground arith
zero_add inf = refl

pub add_zero : (a : Latency) → add a (fin 0) ≡ a
unfolding add
add_zero (fin a) = ground arith
add_zero inf = refl

pub add_left_comm : (a b c : Latency) → add a (add b c) ≡ add b (add a c)
unfolding add
add_left_comm (fin a) (fin b) (fin c) = ground arith
add_left_comm (fin a) (fin b) inf = refl
add_left_comm (fin a) inf c = refl
add_left_comm inf (fin b) c = refl
add_left_comm inf inf c = refl

-- A finite share is taken back exactly, whatever it was added to.
pub sub_or_zero-add : (a : Latency) (n : ℕ) → sub_or_zero (add a (fin n)) (fin n) ≡ a
unfolding sub_or_zero add
sub_or_zero-add (fin a) n = ground arith
sub_or_zero-add inf n = refl

pub Latency-cases : (a : Latency) → (is_inf a ≡ true) ⊎ ((n : ℕ) × (a ≡ fin n))
Latency-cases (fin a) = inr (a, refl)
Latency-cases inf = inl refl

pub inf_of_Le : (a b : Latency) → Le a b → is_inf a ≡ true → is_inf b ≡ true
inf_of_Le (fin a) b h i = cc
inf_of_Le inf (fin b) h i = absurd h
inf_of_Le inf inf h i = refl
