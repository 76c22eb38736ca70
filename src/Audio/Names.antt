-- ===== src/Audio/Names.antt =====
-- The names of stream directions, codecs, roles and states (libroar/stream.c), on a little-endian
-- machine. An `int` is its 32-bit pattern.
use roaraudio.Prelude.{ℕ, ◌-◌, ◌^◌, Option, none, some, [], ◌∷◌, ltb, if◌then◌else◌}
use roaraudio.Text.{Chars, codes, same_text, same_letters, atoi}
use roaraudio.Text.Table.{Names, name_of, number_of}

abbrev pub minus_one : ℕ
minus_one = 2 ^ 32 - 1

-- `_libroar_dir` in front of its last entry
abbrev pub dirs : Names
dirs =
    (1, codes "play")
    ∷ (2, codes "record")
    ∷ (3, codes "monitor")
    ∷ (4, codes "filter")
    ∷ (5, codes "output")
    ∷ (6, codes "mixing")
    ∷ (8, codes "meta")
    ∷ (9, codes "bidir")
    ∷ (10, codes "thru")
    ∷ (11, codes "bridge")
    ∷ (12, codes "midi_in")
    ∷ (13, codes "midi_out")
    ∷ (14, codes "light_in")
    ∷ (15, codes "light_out")
    ∷ (16, codes "raw_in")
    ∷ (17, codes "raw_out")
    ∷ (18, codes "complex_in")
    ∷ (19, codes "complex_out")
    ∷ (20, codes "rdtcs_in")
    ∷ (21, codes "rdtcs_out")
    ∷ []

-- `_libroar_codec` in front of its last entry
abbrev pub codecs : Names
codecs =
    (1, codes "pcm_s_le")
    ∷ (2, codes "pcm_s_be")
    ∷ (3, codes "pcm_s_pdp")
    ∷ (5, codes "pcm_u_le")
    ∷ (6, codes "pcm_u_be")
    ∷ (7, codes "pcm_u_pdp")
    ∷ (1, codes "default")
    ∷ (1, codes "pcm")
    ∷ (1, codes "raw")
    ∷ (8, codes "midi_file")
    ∷ (96, codes "midi")
    ∷ (100, codes "roarmidi")
    ∷ (16, codes "ogg_vorbis")
    ∷ (16, codes "vorbis")
    ∷ (17, codes "flac")
    ∷ (18, codes "ogg_speex")
    ∷ (18, codes "speex")
    ∷ (20, codes "ogg_flac")
    ∷ (21, codes "ogg_general")
    ∷ (22, codes "ogg_celt")
    ∷ (23, codes "ogg")
    ∷ (26, codes "roar_celt")
    ∷ (27, codes "roar_speex")
    ∷ (28, codes "raum")
    ∷ (29, codes "raum_vorbis")
    ∷ (30, codes "raum_flac")
    ∷ (32, codes "riff_wave")
    ∷ (32, codes "wave")
    ∷ (32, codes "wav")
    ∷ (34, codes "rifx")
    ∷ (36, codes "au")
    ∷ (40, codes "aiff")
    ∷ (48, codes "alaw")
    ∷ (52, codes "mulaw")
    ∷ (52, codes "ulaw")
    ∷ (56, codes "gsm")
    ∷ (57, codes "gsm49")
    ∷ (64, codes "meta_vclt")
    ∷ (68, codes "meta_ralt")
    ∷ (76, codes "meta_ralb")
    ∷ (77, codes "meta_ralb_le")
    ∷ (78, codes "meta_ralb_be")
    ∷ (79, codes "meta_ralb_pdp")
    ∷ (112, codes "dmx512")
    ∷ (113, codes "roardmx")
    ∷ (128, codes "rds")
    ∷ (144, codes "user0")
    ∷ (145, codes "user1")
    ∷ (146, codes "user2")
    ∷ (147, codes "user3")
    ∷ (148, codes "user4")
    ∷ (149, codes "user5")
    ∷ (150, codes "user6")
    ∷ (151, codes "user7")
    ∷ (152, codes "user8")
    ∷ (153, codes "user9")
    ∷ (154, codes "user10")
    ∷ (155, codes "user11")
    ∷ (156, codes "user12")
    ∷ (157, codes "user13")
    ∷ (158, codes "user14")
    ∷ (159, codes "user15")
    ∷ []

-- `_libroar_role` in front of its last entry
abbrev pub roles : Names
roles =
    (4294967295, codes "unknown")
    ∷ (0, codes "none")
    ∷ (1, codes "music")
    ∷ (2, codes "video")
    ∷ (3, codes "game")
    ∷ (4, codes "event")
    ∷ (5, codes "beep")
    ∷ (6, codes "phone")
    ∷ (7, codes "background music")
    ∷ (7, codes "background_music")
    ∷ (8, codes "voice")
    ∷ (9, codes "instrument")
    ∷ (10, codes "rhythm")
    ∷ (11, codes "click")
    ∷ (12, codes "mixed")
    ∷ []

abbrev pub unknown : Chars
unknown = codes "unknown"

abbrev pub or_else {ℓ} : {A : Type ℓ} → Option A → A → A
or_else none d = d
or_else (some a) d = a

-- `roar_dir2str`
unfoldable pub dir2str : ℕ → Chars
dir2str dir = or_else (name_of dirs dir) unknown

-- `roar_str2dir`
unfoldable pub str2dir : Chars → ℕ
str2dir name = or_else (number_of same_text dirs name) minus_one

-- ROAR_CODEC_DEFAULT
abbrev pub codec_default : ℕ
codec_default = 1

-- `roar_str2codec`; NULL is `none`.
unfoldable pub str2codec : Option Chars → ℕ
str2codec none = codec_default
str2codec (some []) = codec_default
str2codec (some (c ∷ cs)) =
    if ltb 0 (atoi (c ∷ cs))
    then atoi (c ∷ cs)
    else or_else (number_of same_letters codecs (c ∷ cs)) minus_one

-- `roar_codec2str`
unfoldable pub codec2str : ℕ → Chars
codec2str codec = or_else (name_of codecs codec) unknown

-- `roar_str2role`
unfoldable pub str2role : Chars → ℕ
str2role role = or_else (number_of same_letters roles role) minus_one

-- `roar_role2str`
unfoldable pub role2str : ℕ → Chars
role2str role = or_else (name_of roles role) unknown
