-- ===== src/Prelude/Texts.antt =====
-- Texts joined, and tested for how they start.
use Prim.Native.Char.{code}
use Prim.Native.String.{String, [], ◌∷◌, ◌++◌}
use mathlib.Core.Path.{◌≡◌, refl}
use mathlib.Core.Bool.{Bool, true, false, ◌&&◌}
use native.Mathlib.Omega.{arith}
use diflow.Prelude.Tests.{nat_beq}

abbrev pub append : String → String → String
append s t = s ++ t

-- `s.startswith(t)`
unfoldable pub starts_with : String → String → Bool
starts_with s [] = true
starts_with [] (d ∷ t) = false
starts_with (c ∷ s) (d ∷ t) = nat_beq (code c) (code d) && starts_with s t

pub starts_with-append : (t s : String) → starts_with (append t s) t ≡ true
unfolding starts_with
starts_with-append [] s = refl
starts_with-append (c ∷ t) s =
    rw Prim.Native.String.append.cons (ground (arith, starts_with-append t s))
