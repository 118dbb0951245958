-- ===== src/Utf8/Tests.antt =====
-- Decoding and cutting at characters of several bytes.
use allgres.Base.{[], ◌∷◌, ◌≡◌, refl}
use allgres.Bytes.{Bytes}
use allgres.Utf8.{
  char_len, bad_rest, lossy_from, from_utf8_lossy, is_char_boundary, floor_boundary, truncate_utf8,
}

-- "aé"
abbrev accented : Bytes
accented = 0x61 ∷ 0xc3 ∷ 0xa9 ∷ []

cut_accent : truncate_utf8 accented 2 ≡ 0x61 ∷ []
unfolding truncate_utf8 floor_boundary is_char_boundary
cut_accent = refl

truncated_input : from_utf8_lossy (0x61 ∷ 0xe2 ∷ 0x82 ∷ []) ≡ 0x61 ∷ 0xef ∷ 0xbf ∷ 0xbd ∷ []
unfolding from_utf8_lossy lossy_from char_len bad_rest
truncated_input = refl
