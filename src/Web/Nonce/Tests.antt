-- ===== src/Web/Nonce/Tests.antt =====
-- A nonce of random bytes, and one without.
use allgres.Base.{true, none, some, [], ◌∷◌, ◌≡◌, ◌↔◌, refl, length, all}
use allgres.Bytes.{lit}
use allgres.Web.Nonce.{Draw, drawn, hex, nonce, le_bytes, mix}
use allgres.Web.Nonce.Laws.{is_hex, nonce_lem}

abbrev random : Draw
random = record {
  urandom = some (0 ∷ 1 ∷ 2 ∷ 3 ∷ 4 ∷ 5 ∷ 6 ∷ 7 ∷ 8 ∷ 9 ∷ 10 ∷ 11 ∷ 12 ∷ 13 ∷ 14 ∷ 255 ∷ []);
  nanos = 0;
  pid = 0;
  address = 0;
}

abbrev fallback : Draw
fallback = record { urandom = none; nanos = 513; pid = 7; address = 512 }

random_nonce : nonce random ≡ lit "000102030405060708090a0b0c0d0eff"
unfolding nonce hex drawn
random_nonce = refl

fallback_nonce : nonce fallback ≡ lit "01000000000000000700000000000000"
unfolding nonce hex drawn le_bytes mix
fallback_nonce = refl

nonce_lem_example :
    (length (nonce random) ≡ 32)
    × (all is_hex (nonce random) ≡ true)
    × ((nonce fallback ≡ nonce random) ↔ (drawn fallback ≡ drawn random))
nonce_lem_example = nonce_lem fallback random tt (refl, refl)
