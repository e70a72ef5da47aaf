-- ===== src/Chat/Creds/Records.antt =====
-- One record of accounts.txt, written and read back.
use basic_jqr.Base.{
  ℕ, zero, suc, ◌+◌, ◌-◌, ◌<◌, ◌≡◌, refl, sym, ap, ◌∙◌, List, [], ◌∷◌, ◌++◌, append_assoc, arith,
  length, length-append, length-replicate, get_or, take, drop, replicate, Bytes, c_str, Bool-cases,
  inl, inr, ◌==◌,
}
use basic_jqr.Chat.State.{User}
use basic_jqr.Chat.Users.{max_name}
use basic_jqr.Chat.Creds.{user_size, field, user_bytes, bytes_user}

module _ {ℓ} {A : Type ℓ} where
  pub take-append : (n : ℕ) (xs ys : List A) → length xs ≡ n → take n (xs ++ ys) ≡ xs
  take-append n [] ys e = rw (sym e) refl
  take-append zero (x ∷ xs) ys e = absurd (omega arith)
  take-append (suc n) (x ∷ xs) ys e = ap (λ zs. x ∷ zs) (take-append n xs ys (omega arith))

  pub drop-append : (n : ℕ) (xs ys : List A) → length xs ≡ n → drop n (xs ++ ys) ≡ ys
  drop-append n [] ys e = rw (sym e) refl
  drop-append zero (x ∷ xs) ys e = absurd (omega arith)
  drop-append (suc n) (x ∷ xs) ys e = drop-append n xs ys (omega arith)

  get_or-append : (n : ℕ) (xs : List A) (y d : A) → length xs ≡ n → get_or (xs ++ y ∷ []) n d ≡ y
  get_or-append n [] y d e = rw (sym e) refl
  get_or-append zero (x ∷ xs) y d e = absurd (omega arith)
  get_or-append (suc n) (x ∷ xs) y d e = get_or-append n xs y d (omega arith)

-- A string with a NUL in its array.
pub record IsField (s : Bytes) : Type 0 where
  pub whole : c_str s ≡ s
  pub short : length s < max_name

pub record IsAccount (u : User) : Type 0 where
  pub passwd : IsField u.passwd
  pub uname : IsField u.uname

c_str-append : (s rest : Bytes) → c_str (s ++ 0 ∷ rest) ≡ c_str s
unfolding c_str
c_str-append [] rest = refl
c_str-append (b ∷ s) rest = elim (Bool-cases (b == 0)) [
  | inl e ↦ rw e refl
  | inr e ↦ rw e (ap (λ bs. b ∷ bs) (c_str-append s rest))
]

padding : (n m : ℕ) → n < m → (k : ℕ) × (m - n ≡ suc k)
padding n m lt = (m - n - 1, omega arith)

c_str-field : (s rest : Bytes) → IsField s → c_str (field s ++ rest) ≡ s
c_str-field s rest f =
    let (k, e) = padding (length s) max_name f.short in
    rw (e, append_assoc s (0 ∷ replicate k 0) rest)
      (c_str-append s (replicate k 0 ++ rest) ∙ f.whole)

length-field : (s : Bytes) → IsField s → length (field s) ≡ max_name
length-field s f =
    let zeros : length (replicate {A = ℕ} (max_name - length s) 0) ≡ max_name - length s =
      length-replicate (max_name - length s) 0 in
    omega (arith, length-append s (replicate (max_name - length s) 0), zeros, f.short)

pub length-user_bytes : (u : User) → IsAccount u → length (user_bytes u) ≡ user_size
unfolding user_bytes
length-user_bytes u a =
    let p = field u.passwd in
    let n = field u.uname in
    let all : length ((p ++ n) ++ u.perms ∷ []) ≡ user_size = omega (
      arith,
      length-append (p ++ n) (u.perms ∷ []),
      length-append p n,
      length-field u.passwd a.passwd,
      length-field u.uname a.uname,
    ) in
    all

pub bytes_user-user_bytes : (u : User) → IsAccount u → bytes_user (user_bytes u) ≡ u
unfolding bytes_user user_bytes
bytes_user-user_bytes u a =
    let p = field u.passwd in
    let n = field u.uname in
    let rest = n ++ u.perms ∷ [] in
    let flat : (p ++ n) ++ u.perms ∷ [] ≡ p ++ rest = append_assoc p n (u.perms ∷ []) in
    let past : drop max_name (p ++ rest) ≡ rest =
      drop-append max_name p rest (length-field u.passwd a.passwd) in
    let both : length (p ++ n) ≡ max_name + max_name =
      omega
        (arith, length-append p n, length-field u.passwd a.passwd, length-field u.uname a.uname) in
    let at : get_or (p ++ rest) (max_name + max_name) 0 ≡ u.perms =
      rw (sym flat) (get_or-append (max_name + max_name) (p ++ n) u.perms 0 both) in
    rw
      (
        flat,
        c_str-field u.passwd rest a.passwd,
        past,
        c_str-field u.uname (u.perms ∷ []) a.uname,
        at,
      )
      refl
