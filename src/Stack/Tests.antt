-- ===== src/Stack/Tests.antt =====
-- The functions of libroar/stack.c at a small stack, and the theorems there.
use roaraudio.Prelude.{◌≡◌, refl, none, some, List, [], ◌∷◌, arith, replicate}
use roaraudio.Status.{ok, failed}
use roaraudio.Stack.{Stack, custom}
use roaraudio.Stack.Laws.{Op, put, take, peek, call, run, spec_run, run_refines}

-- two pointers, 10 below 20
abbrev two : Stack
two = record { next = 2; flags = 2; free = custom 5; slot = some 10 ∷ some 20 ∷ replicate 30 none }

abbrev script : List Op
script = peek ∷ put none ∷ take ∷ take ∷ take ∷ take ∷ []

run_test :
    run script (some two)
    ≡ (ok, some (some 20))
      ∷ (ok, none)
      ∷ (ok, some none)
      ∷ (ok, some (some 20))
      ∷ (ok, some (some 10))
      ∷ (failed, some none)
      ∷ []
unfolding run call
run_test = refl

run_refines_example : run script (some two) ≡ spec_run script (some 20 ∷ some 10 ∷ [])
run_refines_example = run_refines script two (omega arith)
