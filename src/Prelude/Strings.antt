-- ===== src/Prelude/Strings.antt =====
-- Byte strings: a Go `string` or `[]byte` is the list of its bytes. Literals are ASCII.
use Prim.Native.Nat.{ℕ}
use Prim.Native.Char.{code}
use Prim.Native.String.{String}
use mathlib.Core.Path.{◌≡◌, refl}
use mathlib.Core.Logic.{◌↔◌}
use mathlib.Core.Bool.{Bool, true, false, ◌&&◌}
use mathlib.Core.List.{List, [], ◌∷◌}
use native.Mathlib.Omega.{arith}
use mailservice.Prelude.Tests.{◌==◌}

abbrev pub Bytes : Type 0
Bytes = List ℕ

abbrev pub codes : String → Bytes
codes String.[] = []
codes (String.◌∷◌ c s) = code c ∷ codes s

infix 50 ◌==ᵇ◌
unfoldable pub ◌==ᵇ◌ : Bytes → Bytes → Bool
[] ==ᵇ [] = true
[] ==ᵇ (y ∷ ys) = false
(x ∷ xs) ==ᵇ [] = false
(x ∷ xs) ==ᵇ (y ∷ ys) = (x == y) && (xs ==ᵇ ys)

pub ==ᵇ-eq : (s t : Bytes) → (s ==ᵇ t) ≡ true → s ≡ t
unfolding ◌==ᵇ◌
==ᵇ-eq [] [] h = refl
==ᵇ-eq [] (y ∷ ys) h = cc
==ᵇ-eq (x ∷ xs) [] h = cc
==ᵇ-eq (x ∷ xs) (y ∷ ys) h = ground (arith, ==ᵇ-eq xs ys)

pub ==ᵇ-refl : (s : Bytes) → (s ==ᵇ s) ≡ true
unfolding ◌==ᵇ◌
==ᵇ-refl [] = refl
==ᵇ-refl (x ∷ xs) = ground (arith, ==ᵇ-refl xs)

==ᵇ_of_eq : (s t : Bytes) → s ≡ t → (s ==ᵇ t) ≡ true
==ᵇ_of_eq s t e = rw e (==ᵇ-refl t)

pub ==ᵇ_iff : (s t : Bytes) → ((s ==ᵇ t) ≡ true) ↔ (s ≡ t)
==ᵇ_iff s t = (==ᵇ-eq s t, ==ᵇ_of_eq s t)
