-- ===== src/BigEndian/Tests.antt =====
-- The decoders of include/clod/big_endian.h on concrete bytes.
use libclod.Prelude.{arith, negsuc, ℕ, [], ◌∷◌, ◌≡◌, refl, ◌%◌, ◌^◌, get_or}
use libclod.BigEndian.Codec.{beu_enc, beu_dec}
use libclod.BigEndian.Signed.{bei24, bei_enc, bei_dec}
use libclod.BigEndian.SignedRoundTrip.{IsNearest, bei_dec-bei_enc}
use libclod.BigEndian.RoundTrip.{beu_dec-beu_enc}

abbrev zeros : ℕ → ℕ
zeros a = 0

beu32_dec : beu_dec 4 (λ a. get_or (0 ∷ 1 ∷ 2 ∷ 3 ∷ 4 ∷ []) a 0) 1 ≡ 0x01020304
unfolding beu_dec
beu32_dec = refl

beu16_enc : beu_enc 2 zeros 7 0x12345 8 ≡ 0x45
unfolding beu_enc
beu16_enc = refl

beu_dec-beu_enc_example : beu_dec 3 (beu_enc 3 zeros 5 0x12345678) 5 ≡ 0x12345678 % 2 ^ 24
beu_dec-beu_enc_example = beu_dec-beu_enc 3 zeros 5 0x12345678

bei24_dec : bei_dec bei24 (λ a. get_or (255 ∷ 255 ∷ 254 ∷ []) a 0) 0 ≡ negsuc 1
unfolding bei_dec
bei24_dec = refl

bei_dec-bei_enc_example :
    IsNearest 24 (negsuc 9000000) (bei_dec bei24 (bei_enc bei24 zeros 5 (negsuc 9000000)) 5)
bei_dec-bei_enc_example = bei_dec-bei_enc bei24 zeros 5 (negsuc 9000000) (omega arith)
