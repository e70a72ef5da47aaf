-- ===== src/FileLib.antt =====
-- chat_server/Src/Src/file_lib.c: the cipher of files, `crypter`. A file is its bytes, read from
-- its start; the buffer's `malloc` is taken to succeed, and `fwrite` to write all of it.
pub mod Cipher
mod Tests
use Prim.Native.Nat.{bit_xor}
use basic_jqr.Base.{
  ℕ, zero, suc, ◌+◌, ◌%◌, ◌^◌, ◌||◌, leb, Bool, true, false, List, [], ◌∷◌, length, get_elem?, ◌==◌,
  if◌then◌else◌, Bytes, Outcome, ok, fault, ◌>>=◌, deref, ℤ, pos, negsuc,
}

-- The loop over the buffer, from byte `i` on. A key of length 0 divides by zero, and
-- `i` is an `int`, which must not reach 2^31.
unfoldable pub xor_loop : Bytes → ℕ → ℕ → Bytes → Outcome Bytes
xor_loop key keylen i [] = ok []
xor_loop key keylen i (b ∷ buffer) =
    if (keylen == 0) || leb (2 ^ 31) (i + 1)
    then fault
    else (deref (get_elem? key (i % keylen)) >>= λ k.
        xor_loop key keylen (i + 1) buffer >>= λ others. ok (bit_xor b k ∷ others))

-- The file that is left, and the result. The first argument says whether `get_attrib` finds the
-- file: its NULL is followed. Of an empty file `fread` reads no block, which the code takes for an
-- error.
unfoldable pub crypter : Bool → Bytes → Bytes → ℕ → Outcome (Bytes × ℤ)
unfolding xor_loop
crypter false file key keylen = fault
crypter true file key keylen =
    if length file == 0
    then ok (file, negsuc 0)
    else (xor_loop key keylen 0 file >>= λ buffer. ok (buffer, pos 0))
