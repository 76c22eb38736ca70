-- ===== src/Channels/Names.antt =====
-- The names of channels (libroardsp/channels.c). `_g_chans` is a table of the names and one of the
-- names and the short names in the order in which roardsp_str2chan compares them.
use roaraudio.Prelude.{ℕ, ◌≡◌, refl, true, Option, none, some, List, [], ◌∷◌, ◌++◌}
use roaraudio.Text.{Chars, codes, same_letters}
use roaraudio.Text.Table.{Names, name_of, number_of, named_once, number_of-name_of}

-- `_g_chans` in front of its last entry, without the short names
abbrev pub chans : Names
chans =
    (0, codes "NONE")
    ∷ (1, codes "FRONT_LEFT")
    ∷ (2, codes "FRONT_RIGHT")
    ∷ (3, codes "SIDE_LEFT")
    ∷ (4, codes "SIDE_RIGHT")
    ∷ (5, codes "BACK_LEFT")
    ∷ (6, codes "BACK_RIGHT")
    ∷ (7, codes "FRONT_CENTER")
    ∷ (8, codes "SIDE_CENTER")
    ∷ (9, codes "BACK_CENTER")
    ∷ (1, codes "LEFT")
    ∷ (2, codes "RIGHT")
    ∷ (7, codes "CENTER")
    ∷ (7, codes "MONO")
    ∷ (10, codes "MS_MID")
    ∷ (11, codes "MS_SIDE")
    ∷ (12, codes "LFE")
    ∷ (64, codes "MIDI0")
    ∷ (65, codes "MIDI1")
    ∷ (66, codes "MIDI2")
    ∷ (67, codes "MIDI3")
    ∷ (68, codes "MIDI4")
    ∷ (69, codes "MIDI5")
    ∷ (70, codes "MIDI6")
    ∷ (71, codes "MIDI7")
    ∷ (72, codes "MIDI8")
    ∷ (73, codes "MIDI9")
    ∷ (74, codes "MIDI10")
    ∷ (75, codes "MIDI11")
    ∷ (76, codes "MIDI12")
    ∷ (77, codes "MIDI13")
    ∷ (78, codes "MIDI14")
    ∷ (79, codes "MIDI15")
    ∷ []

-- `_g_chans`, each name in front of its short name
abbrev pub all_chans : Names
all_chans =
    (0, codes "NONE")
    ∷ (0, codes "NONE")
    ∷ (1, codes "FRONT_LEFT")
    ∷ (1, codes "FL")
    ∷ (2, codes "FRONT_RIGHT")
    ∷ (2, codes "FR")
    ∷ (3, codes "SIDE_LEFT")
    ∷ (3, codes "SL")
    ∷ (4, codes "SIDE_RIGHT")
    ∷ (4, codes "SR")
    ∷ (5, codes "BACK_LEFT")
    ∷ (5, codes "BL")
    ∷ (6, codes "BACK_RIGHT")
    ∷ (6, codes "BR")
    ∷ (7, codes "FRONT_CENTER")
    ∷ (7, codes "FC")
    ∷ (8, codes "SIDE_CENTER")
    ∷ (8, codes "SC")
    ∷ (9, codes "BACK_CENTER")
    ∷ (9, codes "BC")
    ∷ (1, codes "LEFT")
    ∷ (1, codes "L")
    ∷ (2, codes "RIGHT")
    ∷ (2, codes "R")
    ∷ (7, codes "CENTER")
    ∷ (7, codes "C")
    ∷ (7, codes "MONO")
    ∷ (7, codes "M")
    ∷ (10, codes "MS_MID")
    ∷ (10, codes "MID")
    ∷ (11, codes "MS_SIDE")
    ∷ (11, codes "SIDE")
    ∷ (12, codes "LFE")
    ∷ (12, codes "LFE")
    ∷ (64, codes "MIDI0")
    ∷ (65, codes "MIDI1")
    ∷ (66, codes "MIDI2")
    ∷ (67, codes "MIDI3")
    ∷ (68, codes "MIDI4")
    ∷ (69, codes "MIDI5")
    ∷ (70, codes "MIDI6")
    ∷ (71, codes "MIDI7")
    ∷ (72, codes "MIDI8")
    ∷ (73, codes "MIDI9")
    ∷ (74, codes "MIDI10")
    ∷ (75, codes "MIDI11")
    ∷ (76, codes "MIDI12")
    ∷ (77, codes "MIDI13")
    ∷ (78, codes "MIDI14")
    ∷ (79, codes "MIDI15")
    ∷ []

-- `roardsp_chan2str`, `none` for NULL
unfoldable pub chan2str : ℕ → Option Chars
chan2str chan = name_of chans chan

-- `roardsp_str2chan`, `none` for -1
unfoldable pub str2chan : Chars → Option ℕ
str2chan str = number_of same_letters all_chans str

-- What the loop of roardsp_chanlist2str appends for one channel.
abbrev pub name_or_invalid : Option Chars → Chars
name_or_invalid none = codes "<<<INVALID>>>"
name_or_invalid (some name) = name

abbrev pub more_names : List ℕ → Chars
unfolding chan2str
more_names [] = []
more_names (c ∷ list) = (b',' ∷ name_or_invalid (chan2str c)) ++ more_names list

-- `roardsp_chanlist2str` of a list that is not NULL: the string, which is taken to have room for it
unfoldable pub chanlist2str : List ℕ → Chars
unfolding chan2str more_names
chanlist2str [] = []
chanlist2str (c ∷ list) = name_or_invalid (chan2str c) ++ more_names list

chans_named : named_once same_letters all_chans chans ≡ true
chans_named = refl

-- The name of every channel that has one leads back to the channel, whichever aliases and short names
-- there are.
str2chan-chan2str :
    (chan : ℕ) (name : Chars) → chan2str chan ≡ some name → str2chan name ≡ some chan
unfolding chan2str str2chan
str2chan-chan2str chan name h =
    number_of-name_of same_letters all_chans chans chan name chans_named h
