-- ===== src/Audio/Formats.antt =====
-- The formats with a name, and the sizes that follow from a format (libroar/stream.c).
use roaraudio.Prelude.{ℕ, ◌+◌, ◌-◌, ◌<◌, ◌≡◌, List, map, arith, length, length-drop}
use roaraudio.Text.{Chars}
use roaraudio.Audio.{AudioInfo, profiles, profiles_list}

-- `roar_profiles_list` pays no attention to how much room the caller's array has: from an `offset`
-- with more than `len` names behind it it stores more than `len` pointers, all that there are.
pub profiles_list-overrun :
    (len offset : ℕ)
    → 0 < len
    → len + offset < 15
    → (length (profiles_list len offset) ≡ 15 - offset) × (len < length (profiles_list len offset))
unfolding profiles_list
profiles_list-overrun len offset some_room more =
    let names : List Chars = map (λ (p : Chars × AudioInfo). p.0) profiles in
    let size : length (profiles_list len offset) ≡ 15 - offset =
      ground (arith, length-drop offset names) in
    (size, omega arith)
