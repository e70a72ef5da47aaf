-- ===== src/Avl/BySize.antt =====
-- A comparison of numbers that satisfies `IsOrder`, for runs.
use basic_jqr.Base.{ℕ, ◌≡◌, ltb, if◌then◌else◌, arith, ℤ, pos, negsuc}
use basic_jqr.Avl.{below}
use basic_jqr.Avl.Sorted.{IsOrder}

abbrev pub by_size : ℕ → ℕ → ℤ
by_size a b = if ltb a b then negsuc 0 else (if ltb b a then pos 1 else pos 0)

by_size-below : (a b : ℕ) → below by_size a b ≡ ltb a b
by_size-below a b = ground arith

pub by_size-IsOrder : IsOrder by_size
by_size-IsOrder = record {
  below_irrefl = λ a. ground arith;
  above_flip = λ a b. ground arith;
  below_trans = λ a b c h k. ground arith;
  not_below_trans = λ a b c h k. ground arith;
}
