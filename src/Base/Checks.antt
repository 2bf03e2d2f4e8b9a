-- ===== src/Base/Checks.antt =====
-- A run of independent checks that append an error code each: `if not c: errors.append(code)`.
use Prim.Native.String.{String}
use mathlib.Core.Path.{◌≡◌, refl}
use mathlib.Core.Bool.{Bool, true, false}
use mathlib.Core.List.{List, [], ◌∷◌, ◌++◌}
use mathlib.Core.Option.{Option, none, some}
use native.Mathlib.Omega.{arith}
use technology_library_inges.Base.Tests.{if◌then◌else◌}
use technology_library_inges.Base.Raising.{Result, ok, raised, ◌>>=◌}

abbrev pub Check : Type 0
Check = Result Bool × String

-- A check that cannot raise.
abbrev pub plain : Bool → String → Check
plain b code = (ok b, code)

-- The codes of the checks that fail, in their order; a check that raises ends the run.
unfoldable pub failures : List Check → Result (List String)
failures [] = ok []
failures ((test, code) ∷ rest) = do
  passed ← test
  codes ← failures rest
  ok (if passed then codes else code ∷ codes)

-- The code of the first check that fails: `if not c: raise ValueError(code)`, in a row.
unfoldable pub first_failure : List Check → Result (Option String)
first_failure [] = ok none
first_failure ((test, code) ∷ rest) =
    let later = first_failure rest in do passed ← test; if passed then later else ok (some code)

-- Every check returns and passes.
abbrev pub Passes : List Check → Type 0
Passes [] = Unit
Passes ((test, code) ∷ rest) = (test ≡ ok true) × Passes rest

pub failures-Passes : (cs : List Check) → failures cs ≡ ok [] → Passes cs
unfolding failures
failures-Passes [] h = tt
failures-Passes ((ok true, code) ∷ rest) h = (refl, failures-Passes rest (ground arith))
failures-Passes ((ok false, code) ∷ rest) h = ground arith
failures-Passes ((raised e, code) ∷ rest) h = cc

pub Passes-failures : (cs : List Check) → Passes cs → failures cs ≡ ok []
unfolding failures
Passes-failures [] h = refl
Passes-failures ((test, code) ∷ rest) (p, q) = rw (p, Passes-failures rest q)

pub first_failure-Passes : (cs : List Check) → first_failure cs ≡ ok none → Passes cs
unfolding first_failure
first_failure-Passes [] h = tt
first_failure-Passes ((ok true, code) ∷ rest) h = (refl, first_failure-Passes rest h)
first_failure-Passes ((ok false, code) ∷ rest) h = ground arith
first_failure-Passes ((raised e, code) ∷ rest) h = cc

-- The checks of two runs in a row.
pub Passes-append : (cs ds : List Check) → Passes (cs ++ ds) → Passes cs × Passes ds
Passes-append [] ds h = (tt, h)
Passes-append ((test, code) ∷ cs) ds (p, h) = let (ps, qs) = Passes-append cs ds h in ((p, ps), qs)
