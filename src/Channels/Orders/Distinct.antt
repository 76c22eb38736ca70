-- ===== src/Channels/Orders/Distinct.antt =====
-- roardsp_chanlist_init of libroardsp/channels.c names no channel twice.
use roaraudio.Prelude.{
  ◌++◌, ◌∙◌, ap, some, Bool-cases, Option-cases, ltb, ◌==◌, inl, inr, length, ℕ, ◌<◌, ◌≡◌, refl,
  Bool, true, false, not, List, [], ◌∷◌, ◌==◌, ◌&&◌, ◌||◌, take, arith,
}
use roaraudio.Status.{ok}
use roaraudio.Channels.Orders.{
  Order, roaraudio_order, vorbis_order, flac_order, riff_wave_order, oss_order, alsa_order,
  esd_order, midi_order, unknown_order, chanlist_init, order_of,
}

abbrev pub occurs : ℕ → List ℕ → Bool
occurs c [] = false
occurs c (d ∷ list) = (c == d) || occurs c list

abbrev pub are_distinct : List ℕ → Bool
are_distinct [] = true
are_distinct (c ∷ list) = not (occurs c list) && are_distinct list

-- The order of ALSA beyond 6 channels.
abbrev pub IsGuessed : Order → (channels : ℕ) → Type 0
IsGuessed alsa_order channels = 6 < channels
IsGuessed order channels = ⊥

-- As many channels as asked for, and all different.
abbrev is_fine : (channels : ℕ) → List ℕ → Bool
is_fine channels new = are_distinct new && (length new == channels)

order_of_lem :
    (order : Order) (channels : ℕ) (new : List ℕ)
    → order_of order channels ≡ some new
    → ¬ IsGuessed order channels
    → is_fine channels new ≡ true
order_of_lem roaraudio_order channels new h k = ground arith
order_of_lem vorbis_order channels new h k = ground arith
order_of_lem flac_order channels new h k = ground arith
order_of_lem riff_wave_order channels new h k = absurd (ground arith)
order_of_lem oss_order channels new h k = ground arith
order_of_lem alsa_order channels new h k = ground (arith, k)
order_of_lem esd_order channels new h k = absurd (ground arith)
order_of_lem midi_order channels new h k = absurd (ground arith)
order_of_lem unknown_order channels new h k = absurd (ground arith)

take-length-append : (new list : List ℕ) → take (length new) (new ++ list) ≡ new
take-length-append [] list = refl
take-length-append (c ∷ new) list = ap (λ ns. c ∷ ns) (take-length-append new list)

-- Whenever `roardsp_chanlist_init` returns 0, for whatever order and number of channels, but for the
-- order of ALSA of more than 6 channels: no two of the channels that it stored are the same.
pub chanlist_init-distinct :
    (list : List ℕ) (channels : ℕ) (order : Order)
    → (chanlist_init list channels order).0 ≡ ok
    → ¬ IsGuessed order channels
    → are_distinct (take channels (chanlist_init list channels order).1) ≡ true
unfolding chanlist_init
chanlist_init-distinct list channels order h k = elim (Bool-cases (channels == 0)) [
  | inl e ↦ let e' : channels ≡ 0 = ground arith in rw e' refl
  | inr some_chans ↦ elim (Bool-cases (ltb 64 channels)) [
    | inl many ↦ absurd (ground arith)
    | inr few ↦ elim (Bool-cases (channels == 1)) [
      | inl e ↦ let e' : channels ≡ 1 = ground arith in rw e' refl
      | inr others ↦ elim (Bool-cases (channels == 2)) [
        | inl e ↦ let e' : channels ≡ 2 = ground arith in rw e' refl
        | inr more ↦ elim (Option-cases (order_of order channels)) [
          | inl gone ↦ absurd (ground arith)
          | inr (new, e) ↦
              let fine = order_of_lem order channels new e k in
              let size : length new ≡ channels = ground arith in
              rw (some_chans, few, others, more, e, ← size)
                (ap are_distinct (take-length-append new _) ∙ ground arith)
        ]
      ]
    ]
  ]
]
