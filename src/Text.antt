-- ===== src/Text.antt =====
-- C strings as the characters in front of the 0: strcmp, strcasecmp and atoi, and the tables of
-- names that the sources search with them.
pub mod Table
use Prim.Native.Char.{code}
use Prim.Native.String.{String}
use roaraudio.Prelude.{
  ℕ, ◌+◌, ◌-◌, ◌*◌, Bool, true, false, List, [], ◌∷◌, ◌==◌, leb, ◌||◌, ◌&&◌, if◌then◌else◌, map,
}

abbrev pub Chars : Type 0
Chars = List ℕ

abbrev pub codes : String → Chars
codes String.[] = []
codes (String.◌∷◌ c s) = code c ∷ codes s

-- `strcmp(a, b) == 0`
abbrev pub same_text : Chars → Chars → Bool
same_text [] [] = true
same_text [] (d ∷ ds) = false
same_text (c ∷ cs) [] = false
same_text (c ∷ cs) (d ∷ ds) = (c == d) && same_text cs ds

abbrev pub lower : ℕ → ℕ
lower c = if leb b'A' c && leb c b'Z' then c + 32 else c

-- `strcasecmp(a, b) == 0`
abbrev pub same_letters : Chars → Chars → Bool
same_letters a b = same_text (map lower a) (map lower b)

abbrev pub is_digit : ℕ → Bool
is_digit c = leb b'0' c && leb c b'9'

abbrev pub is_space : ℕ → Bool
is_space c = (c == 32) || (leb 9 c && leb c 13)

abbrev pub digits : ℕ → Chars → ℕ
digits n [] = n
digits n (c ∷ cs) = let rest = digits (n * 10 + (c - b'0')) cs in if is_digit c then rest else n

abbrev pub signed : Chars → ℕ
signed [] = 0
signed (c ∷ cs) = if c == b'-' then 0 else if c == b'+' then digits 0 cs else digits 0 (c ∷ cs)

-- `atoi(s)` where it is above 0, and 0 where it is not. The number is taken to fit an `int`.
abbrev pub atoi : Chars → ℕ
atoi [] = 0
atoi (c ∷ cs) = let rest = atoi cs in if is_space c then rest else signed (c ∷ cs)
