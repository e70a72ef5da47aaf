-- ===== src/Base/Int.antt =====
-- Machine integers: signed results of comparison callbacks, and byte order of the wire.
use Prim.Native.Nat.{ℕ, ◌+◌, ◌-◌, ◌*◌, ◌/◌, ◌%◌, ◌^◌}
use mathlib.Core.Bool.{Bool, true, false}
use mathlib.Core.List.{List}
use basic_jqr.Base.Lists.{get_or}

-- `negsuc n` is -(n + 1).
pub data ℤ : Type 0 where
  pos : ℕ → ℤ
  negsuc : ℕ → ℤ

-- `a < 0`
abbrev pub is_neg : ℤ → Bool
is_neg (pos n) = false
is_neg (negsuc n) = true

-- `a > 0`
abbrev pub is_pos : ℤ → Bool
is_pos (pos ℕ.zero) = false
is_pos (pos (ℕ.suc n)) = true
is_pos (negsuc n) = false

abbrev pub u64_mod : ℕ
u64_mod = 2 ^ 64

-- `n--` and `n++` of a `size_t`.
abbrev pub u64_pred : ℕ → ℕ
u64_pred n = (n + 2 ^ 64 - 1) % 2 ^ 64

abbrev pub u64_succ : ℕ → ℕ
u64_succ n = (n + 1) % 2 ^ 64

-- The two and four bytes at an offset of a buffer, most significant first (`ntohs`, `ntohl`);
-- a byte that the buffer does not have was cleared by `calloc` or `memset`.
unfoldable pub ntohs : List ℕ → ℕ → ℕ
ntohs bs i = get_or bs i 0 * 256 + get_or bs (i + 1) 0

unfoldable pub ntohl : List ℕ → ℕ → ℕ
unfolding ntohs
ntohl bs i = ntohs bs i * 65536 + ntohs bs (i + 2)

-- `htons` and `htonl` on a little-endian host: the bytes the other way round.
unfoldable pub htons : ℕ → ℕ
htons n = n % 256 * 256 + n / 256

unfoldable pub htonl : ℕ → ℕ
unfolding htons
htonl n = htons (n % 65536) * 65536 + htons (n / 65536)
