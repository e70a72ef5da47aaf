-- ===== src/FileLib/Tests.antt =====
-- A run of the cipher.
use basic_jqr.Base.{◌≡◌, refl, true, [], ◌∷◌, arith, length, Returns, ok, pos}
use basic_jqr.FileLib.{crypter}
use basic_jqr.FileLib.Cipher.{crypter-crypter}

run_crypter : crypter true (97 ∷ 98 ∷ 99 ∷ []) (1 ∷ 255 ∷ []) 2 ≡ ok (96 ∷ 157 ∷ 98 ∷ [], pos 0)
unfolding crypter
run_crypter = refl

crypter-crypter_example :
    Returns
      (λ (file', code).
        (code ≡ pos 0)
        × (length file' ≡ 3)
        × (crypter true file' (1 ∷ 255 ∷ []) 2 ≡ ok (97 ∷ 98 ∷ 99 ∷ [], pos 0)))
      (crypter true (97 ∷ 98 ∷ 99 ∷ []) (1 ∷ 255 ∷ []) 2)
crypter-crypter_example =
    crypter-crypter (97 ∷ 98 ∷ 99 ∷ []) (1 ∷ 255 ∷ []) 2
      (omega arith, (omega arith, (omega arith, tt)))
      (record {
        bytes = (omega arith, (omega arith, tt));
        some_bytes = omega arith;
        long = omega arith;
      })
      (omega arith) (omega arith)
