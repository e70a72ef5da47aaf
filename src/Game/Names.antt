-- ===== src/Game/Names.antt =====
-- The name of a doge in game.c, as it is typed.
use basic_jqr.Base.{
  ℕ, zero, suc, ◌+◌, ◌-◌, ◌≤◌, ◌<◌, ◌≡◌, ◌≢◌, refl, ap, true, false, List, [], ◌∷◌, ◌++◌, arith,
  length, All, ltb, ◌==◌,
}
use basic_jqr.Game.State.{Game, next, overrun, read_loop, read_until_newline_or_limit}

read_loop-line :
    (n : ℕ) (line rest : List ℕ)
    → All (λ c. c ≢ 10) line
    → length line < n
    → read_loop n (line ++ 10 ∷ rest) ≡ (line, true, rest)
unfolding read_loop
read_loop-line zero line rest plain lt = absurd (omega arith)
read_loop-line (suc n) [] rest plain lt = refl
read_loop-line (suc n) (c ∷ line) rest plain lt =
    let other : (c == 10) ≡ false = ground (arith, plain.0) in
    rw (other, read_loop-line n line rest plain.1 (omega (arith, lt))) refl

length-read_loop :
    (n : ℕ) (line rest : List ℕ)
    → All (λ c. c ≢ 10) line
    → n ≤ length line
    → length (read_loop n (line ++ 10 ∷ rest)).0 ≡ n
unfolding read_loop
length-read_loop zero line rest plain le = refl
length-read_loop (suc n) [] rest plain le = absurd (omega arith)
length-read_loop (suc n) (c ∷ line) rest plain le =
    let other : (c == 10) ≡ false = ground (arith, plain.0) in
    rw (other) (ap suc (length-read_loop n line rest plain.1 (omega (arith, le))))

-- With a limit of 2 or more, a line of at most limit - 2 characters is read up to its newline, and
-- a longer one makes the call write behind the buffer.
pub read_until_newline_or_limit_lem :
    (limit : ℕ) (s : Game) (line rest : List ℕ)
    → 2 ≤ limit
    → s.input ≡ line ++ 10 ∷ rest
    → All (λ c. c ≢ 10) line
    → (length line + 1 < limit
        → read_until_newline_or_limit limit s ≡ next line (record s { input = rest }))
      × (limit ≤ length line + 1 → read_until_newline_or_limit limit s ≡ overrun)
unfolding read_until_newline_or_limit
read_until_newline_or_limit_lem limit s line rest room typed plain = (
  λ short.
      let fits : ltb (length line + 1) limit ≡ true = ground arith in
      rw
        (
          read_until_newline_or_limit,
          typed,
          read_loop-line (limit - 1) line rest plain (omega (arith, short)),
          fits,
        )
        refl,
  λ long.
      let full : ltb (limit - 1 + 1) limit ≡ false = ground (arith, room) in
      rw
        (
          read_until_newline_or_limit,
          typed,
          length-read_loop (limit - 1) line rest plain (omega (arith, long)),
          full,
        )
        refl,
)
