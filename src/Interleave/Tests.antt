-- ===== src/Interleave/Tests.antt =====
-- Runs of the theorems on interleaved channels.
use roaraudio.Prelude.{ℕ, zero, suc, ◌≤◌, ◌<◌, ◌≡◌, refl, some, List, [], ◌∷◌, ◌++◌, arith, length}
use roaraudio.Meta.{done}
use roaraudio.Interleave.{Interleave, Pointers, init, encode, decode, result}
use roaraudio.Interleave.RoundTrip.{decode-encode}

abbrev stereo : Interleave
stereo = record { channels = 2; bits = 16 }

abbrev both : Pointers
both zero = 1 ∷ 2 ∷ 3 ∷ 4 ∷ []
both (suc zero) = 5 ∷ 6 ∷ 7 ∷ 8 ∷ []
both (suc (suc i)) = []

stereo_lem : init 2 16 ≡ some stereo
unfolding init
stereo_lem = refl

both_lem : (i : ℕ) → i < 2 → 4 ≤ length (both i)
both_lem zero h = omega arith
both_lem (suc zero) h = omega arith
both_lem (suc (suc i)) h = absurd (omega arith)

decode-encode_example :
    (out : List ℕ) × (rest back : Pointers) × (encode stereo both 4 ≡ done (result 4, out, rest))
    × (length out ≡ 4)
    × (decode stereo out 4 ≡ done (result 4, back))
    × ((i : ℕ) → back i ++ rest i ≡ both i)
decode-encode_example = decode-encode stereo 2 16 4 both stereo_lem (omega arith) both_lem
