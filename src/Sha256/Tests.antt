-- ===== src/Sha256/Tests.antt =====
-- drivers/sha256.c: known digests, and the theorems at concrete messages.
use minerva_os.Base.{ℕ, ◌*◌, ◌≡◌, refl, List, [], ◌∷◌, replicate, get_or, if◌then◌else◌, ltb, arith}
use minerva_os.Base.Bits.{shr}
use minerva_os.Sha256.{
  sha256_hash, sha256_init, sha256_update, sha256_final, sha256_transform, update_byte,
  transform_state, schedule, load_loop, extend_loop, round_loop, round, rotr32, load_be32,
  store_be32, store_be64, zero_loop, finish, output,
}
use minerva_os.Sha256.Reference.{sha256}
use minerva_os.Sha256.Digest.{sha256_hash_lem}
use minerva_os.Sha256.Schedule.{schedule_lem, standard_word}
use minerva_os.Sha256.Words.{word_at}

abbrev abc : List ℕ
abc = b'a' ∷ b'b' ∷ b'c' ∷ []

-- The digest of "abc" that the standard gives.
sha256_hash-abc :
    sha256_hash (replicate 64 0) abc
    ≡ 0xBA ∷ 0x78 ∷ 0x16 ∷ 0xBF ∷ 0x8F ∷ 0x01 ∷ 0xCF ∷ 0xEA ∷ 0x41 ∷ 0x41 ∷ 0x40 ∷ 0xDE ∷ 0x5D
      ∷ 0xAE ∷ 0x22 ∷ 0x23 ∷ 0xB0 ∷ 0x03 ∷ 0x61 ∷ 0xA3 ∷ 0x96 ∷ 0x17 ∷ 0x7A ∷ 0x9C ∷ 0xB4 ∷ 0x10
      ∷ 0xFF ∷ 0x61 ∷ 0xF2 ∷ 0x00 ∷ 0x15 ∷ 0xAD ∷ []
unfolding sha256_hash sha256_init sha256_update sha256_final sha256_transform update_byte
    transform_state schedule load_loop extend_loop round_loop round rotr32 load_be32 store_be32
    store_be64 zero_loop finish output shr
sha256_hash-abc = refl

sha256_hash_lem_example :
    sha256_hash (replicate 64 0) abc ≡ sha256 (sha256_init (replicate 64 0)).state abc
sha256_hash_lem_example = sha256_hash_lem (replicate 64 0) abc refl (omega arith)

schedule_lem_example : get_or (schedule (replicate 64 7)) 20 0 ≡ (
    if ltb 20 16
    then word_at (replicate 64 7) (20 * 4)
    else standard_word (schedule (replicate 64 7)) 20)
schedule_lem_example = schedule_lem (replicate 64 7) 20 (omega arith) (omega arith)
