-- ===== src/FileLib/Cipher.antt =====
-- Enciphered twice with the same key, a file is as before.
use Prim.Native.Nat.{bit_xor}
use basic_jqr.Base.{
  ℕ, zero, suc, ◌+◌, ◌%◌, ◌^◌, ◌||◌, leb, ◌≤◌, ◌<◌, ◌≡◌, refl, ap, subst, some, Bool, true, false,
  ◌&&◌, [], ◌∷◌, arith, length, get_elem?, get_elem?_total, All, ◌==◌, ==_iff, Bytes, ok, Returns,
  Returns-bind, pos,
}
use basic_jqr.FileLib.{xor_loop, crypter}

all_below : ℕ → (ℕ → Bool) → Bool
all_below zero p = true
all_below (suc n) p = p n && all_below n p

all_below-true : (n : ℕ) (p : ℕ → Bool) (x : ℕ) → all_below n p ≡ true → x < n → p x ≡ true
unfolding all_below
all_below-true zero p x h lt = absurd (omega arith)
all_below-true (suc n) p x h lt = ground (arith, all_below-true n p x)

-- Of two bytes, checked at all of them.
xor_twice : ℕ → Bool
unfolding all_below
xor_twice k = all_below 256 (λ b. (bit_xor (bit_xor b k) k == b))

table : all_below 256 xor_twice ≡ true
unfolding all_below xor_twice
table = refl

bit_xor_twice : (b k : ℕ) → b < 256 → k < 256 → bit_xor (bit_xor b k) k ≡ b
unfolding xor_twice
bit_xor_twice b k lt lt' =
    let at_key : xor_twice k ≡ true = all_below-true 256 xor_twice k table lt' in
    let at_both = all_below-true 256 (λ b'. bit_xor (bit_xor b' k) k == b') b at_key lt in
    (==_iff (bit_xor (bit_xor b k) k) b).0 at_both

-- The key has the bytes that the code takes it to have.
pub record IsKey (key : Bytes) (keylen : ℕ) : Type 0 where
  pub bytes : All (λ k. k < 256) key
  pub some_bytes : 0 < keylen
  pub long : keylen ≤ length key

All-at : (P : ℕ → Type 0) (xs : Bytes) (i : ℕ) (x : ℕ) → All P xs → get_elem? xs i ≡ some x → P x
All-at P [] i x a e = absurd (cc)
All-at P (y ∷ xs) zero x a e = let same : y ≡ x = cc in subst P same a.0
All-at P (y ∷ xs) (suc i) x a e = All-at P xs i x a.1 e

xor_loop_twice :
    (key : Bytes) (keylen i : ℕ) (bs : Bytes)
    → IsKey key keylen
    → i + length bs < 2 ^ 31
    → All (λ b. b < 256) bs
    → Returns
        (λ cs. (length cs ≡ length bs) × (xor_loop key keylen i cs ≡ ok bs))
        (xor_loop key keylen i bs)
unfolding xor_loop
xor_loop_twice key keylen i [] k room a = (refl, refl)
xor_loop_twice key keylen i (b ∷ bs) k room a =
    let goes_on : ((keylen == 0) || leb (2 ^ 31) (i + 1)) ≡ false =
      ground (arith, k.some_bytes, room) in
    let (x, at) = get_elem?_total key (i % keylen) (omega (arith, k.some_bytes, k.long)) in
    let back = bit_xor_twice b x a.0 (All-at (λ n. n < 256) key (i % keylen) x k.bytes at) in
    rw (goes_on, at)
      (Returns-bind _ (xor_loop key keylen (i + 1) bs) _
        (xor_loop_twice key keylen (i + 1) bs k (omega (arith, room)) a.1)
        λ cs (size, again). (ap suc size, rw (goes_on, at, again, back) refl))

-- `crypter` of a file that is there, not empty and shorter than 2^31 bytes, with a key of bytes,
-- returns 0 and a file of the same length, and `crypter` of that file with the same key gives back
-- the first one, if the key is no shorter than the length that is given, and that is not 0.
pub crypter-crypter :
    (file key : Bytes) (keylen : ℕ)
    → All (λ b. b < 256) file
    → IsKey key keylen
    → 0 < length file
    → length file < 2 ^ 31
    → Returns
        (λ (file', code).
          (code ≡ pos 0)
          × (length file' ≡ length file)
          × (crypter true file' key keylen ≡ ok (file, pos 0)))
        (crypter true file key keylen)
unfolding crypter
crypter-crypter file key keylen a k some_data small =
    let there : (length file == 0) ≡ false = ground (arith, some_data) in
    rw there (
      Returns-bind _ (xor_loop key keylen 0 file) _
        (xor_loop_twice key keylen 0 file k (omega (arith, small)) a)
        λ file' (size, again).
          let there' : (length file' == 0) ≡ false = rw size there in
          (refl, size, rw (there', again) refl))
