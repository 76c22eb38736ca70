-- ===== src/Audio/Lookup.antt =====
-- The two directions of the tables of names (libroar/stream.c).
use roaraudio.Prelude.{
  ℕ, ◌≡◌, ◌⊎◌, inl, inr, refl, sym, ◌∙◌, ap, Bool, true, false, some, [], ◌∷◌, arith, Option-cases,
  Bool-cases, ◌==◌, ◌&&◌,
}
use roaraudio.Text.{Chars, same_text, same_letters, atoi}
use roaraudio.Text.Table.{
  Names, name_of, number_of, named_once, numbered_once, number_of-name_of, name_of-number_of,
}
use roaraudio.Audio.Names.{
  dirs, codecs, roles, dir2str, str2dir, codec2str, str2codec, role2str, str2role, minus_one,
  unknown,
}

dirs_named : named_once same_text dirs dirs ≡ true
dirs_named = refl

dirs_numbered : numbered_once same_text dirs dirs ≡ true
dirs_numbered = refl

codecs_named : named_once same_letters codecs codecs ≡ true
codecs_named = refl

roles_named : named_once same_letters roles roles ≡ true
roles_named = refl

-- Every direction leads to a name that leads back to it, but for those without one, whose name is
-- "unknown" and leads to -1; and every name leads to a direction of that name, but for those that
-- are none, which lead to -1.
pub str2dir-dir2str :
    (dir : ℕ) (name : Chars)
    → ((str2dir (dir2str dir) ≡ dir)
        ⊎ ((dir2str dir ≡ unknown) × (str2dir (dir2str dir) ≡ minus_one)))
      × ((dir2str (str2dir name) ≡ name) ⊎ (str2dir name ≡ minus_one))
unfolding str2dir dir2str
str2dir-dir2str dir name = (
  elim (Option-cases (name_of dirs dir)) [
    | inl e ↦ inr (rw e (refl, refl))
    | inr (s, e) ↦ inl (rw (e, number_of-name_of same_text dirs dirs dir s dirs_named e) refl)
  ],
  elim (Option-cases (number_of same_text dirs name)) [
    | inl e ↦ inr (rw e refl)
    | inr (n, e) ↦ inl (rw (e, name_of-number_of dirs dirs n name dirs_numbered e) refl)
  ],
)

-- No name of a codec is empty or begins with a number.
abbrev plain : Names → Bool
plain [] = true
plain ((n, []) ∷ t) = false
plain ((n, c ∷ cs) ∷ t) = (atoi (c ∷ cs) == 0) && plain t

codecs_plain : plain codecs ≡ true
codecs_plain = refl

plain_lem :
    (t : Names) (n : ℕ) (s : Chars)
    → plain t ≡ true
    → name_of t n ≡ some s
    → (c : ℕ) × (cs : Chars) × (s ≡ c ∷ cs) × (atoi (c ∷ cs) ≡ 0)
plain_lem [] n s p e = absurd (ground arith)
plain_lem ((m, []) ∷ t) n s p e = absurd (ground arith)
plain_lem ((m, c ∷ cs) ∷ t) n s p e = elim (Bool-cases (m == n)) [
  | inl same ↦ (c, cs, ground arith, ground arith)
  | inr other ↦ plain_lem t n s (ground arith) (ground arith)
]

str2codec_plain :
    (n c : ℕ) (cs : Chars)
    → atoi (c ∷ cs) ≡ 0
    → number_of same_letters codecs (c ∷ cs) ≡ some n
    → str2codec (some (c ∷ cs)) ≡ n
unfolding str2codec
str2codec_plain n c cs p e = rw (p, e) refl

-- Every codec leads to a name that leads back to it, whichever aliases there are, but for those
-- without one, whose name is "unknown" and leads to -1; and so does every role.
str2codec-codec2str :
    (codec role : ℕ)
    → ((str2codec (some (codec2str codec)) ≡ codec)
        ⊎ ((codec2str codec ≡ unknown) × (str2codec (some (codec2str codec)) ≡ minus_one)))
      × ((str2role (role2str role) ≡ role)
          ⊎ ((role2str role ≡ unknown) × (str2role (role2str role) ≡ minus_one)))
unfolding codec2str str2role role2str
str2codec-codec2str codec role = (
  elim (Option-cases (name_of codecs codec)) [
    | inl e ↦ inr (rw e (refl, unfold str2codec in refl))
    | inr (s, e) ↦
        let p = plain_lem codecs codec s codecs_plain e in
        let back = number_of-name_of same_letters codecs codecs codec s codecs_named e in
        inl (
          rw (e, p.2)
            (str2codec_plain codec p.0 p.1 p.3
              (ap (number_of same_letters codecs) (sym p.2) ∙ back)))
  ],
  elim (Option-cases (name_of roles role)) [
    | inl e ↦ inr (rw e (refl, refl))
    | inr (s, e) ↦
        inl (rw (e, number_of-name_of same_letters roles roles role s roles_named e) refl)
  ],
)
