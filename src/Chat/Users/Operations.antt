-- ===== src/Chat/Users/Operations.antt =====
-- The user operations of chat.c, one by one, against the effects of Chat/Users/Effects.
use mathlib.Core.List.{Perm}
use basic_jqr.Base.{
  eq_of_not, ge_of_ltb, ℕ, ◌≤◌, ◌≡◌, inl, inr, refl, ◌∙◌, ◌∷◌, arith, ltb→lt, leb→le, ltb, leb,
  ◌==◌, not, length, Bytes, c_str, length-c_str, pos, Bool-cases, strncmp_eq,
}
use basic_jqr.HashTable.{hash_table_lookup, insert_entry, remove_entry}
use basic_jqr.HashTable.Slots.{stored}
use basic_jqr.HashTable.Insert.{insert_entry-Filled}
use basic_jqr.HashTable.Kept.{lookup_of_IsTable, remove_of_IsTable}
use basic_jqr.Chat.State.{User, World}
use basic_jqr.Chat.Ends.{
  Ends, returns, faults, Ends-imp, Ends-when, Ends-if_some, Ends-lift, Ends-recv_buffer,
}
use basic_jqr.Chat.Users.{
  UserRequest, string_it, insert_fuel, check_password, user_login, add_user, create_user, drop_user,
  delete_user, create_at, user_dispatch,
}
use basic_jqr.Chat.Users.Effects.{
  TooLong, Credentials, Around, logged_in, created, deleted, UserPost, refuse,
}

module _ {S : Type 0} where
  user_login-Ends :
      (req : UserRequest) (w : World S)
      → Credentials w.ht
      → Ends (TooLong req) (UserPost req w) (user_login req w)
  unfolding user_login check_password
  user_login-Ends req w c =
      Ends-recv_buffer w req.uname_len _ _ (λ i le. returns (refuse w i _ c le))
        λ i username le full name_came.
          Ends-recv_buffer (record w { inbox = i }) req.pass_len _ _
            (λ i' le'. returns (refuse w i' _ c (omega (arith, le, le'))))
            λ i' password le' full' word_came.
              Ends-lift _ (hash_table_lookup string_it w.ht (c_str username)) _
                (lookup_of_IsTable string_it w.ht (c_str username) c.0)
                λ found looked answer.
                  Ends-if_some _ found _ _ (λ e. returns (refuse w i' _ c (omega (arith, le, le'))))
                    λ u e.
                      Ends-when _ (strncmp_eq (c_str password) u.passwd (length u.passwd)) _ _
                        (λ right.
                          Ends-when _ (ltb 255 req.uname_len) _ _
                            (λ long. faults (inl (omega (arith, ltb→lt 255 req.uname_len long))))
                            λ short. returns (
                              record {
                                lobs = refl;
                                lobs_size = refl;
                                quit = refl;
                                files = refl;
                                credentials = c;
                                taken = omega (arith, le, le');
                              },
                              logged_in u username password i name_came word_came (answer u e).0
                                  (answer u e).1 right refl refl,
                            ))
                        λ wrong. returns (refuse w i' _ c (omega (arith, le, le')))

  add_user-Ends :
      (req : UserRequest) (level : ℕ) (username password : Bytes) (w₁ : World S)
      → Credentials w₁.ht
      → length username ≤ req.uname_len
      → length password ≤ req.pass_len
      → Ends
          (TooLong req)
          (λ code w'.
            (code ≡ pos 0)
            × Around w₁ w'
            × (w'.client ≡ w₁.client)
            × (w'.inbox ≡ w₁.inbox)
            × ((u : User) × (u.uname ≡ username)
                × (u.passwd ≡ password)
                × (u.perms ≡ level)
                × Perm (stored w'.ht.entries) (u ∷ stored w₁.ht.entries)))
          (add_user level username password w₁)
  unfolding add_user
  add_user-Ends req level username password w₁ c short short' =
      elim (Bool-cases (leb 255 (length username))) [
        | inl e ↦ rw e (faults (inl (omega (arith, leb→le 255 (length username) e))))
        | inr e ↦ elim (Bool-cases (leb 255 (length password))) [
          | inl e' ↦ rw (e, e') (faults (inr (omega (arith, leb→le 255 (length password) e'))))
          | inr e' ↦
              let u : User = record { passwd = password; uname = username; perms = level } in
              rw (e, e')
                (Ends-lift w₁ (insert_entry string_it insert_fuel w₁.ht u) _
                  (insert_entry-Filled string_it w₁.ht u c.0 c.1)
                  λ ht inserted f. returns (
                    refl,
                    record {
                      lobs = refl;
                      lobs_size = refl;
                      quit = refl;
                      files = refl;
                      credentials = (f.sound, omega (arith, c.1, f.grows));
                      taken = omega arith;
                    },
                    refl,
                    refl,
                    (u, refl, refl, refl, f.contents),
                  ))
        ]
      ]

  create_user-Ends :
      (req : UserRequest) (level : ℕ) (w : World S)
      → Credentials w.ht
      → 1 ≤ level
      → level ≡ req.user_flag
      → level ≤ w.client.perms
      → Ends (TooLong req) (UserPost req w) (create_user req level w)
  unfolding create_user
  create_user-Ends req level w c low flag high =
      Ends-when w (not (req.session_id == w.client.session_id)) _ _
        (λ other. returns (refuse w w.inbox _ c (omega arith)))
        λ same.
          Ends-recv_buffer w req.uname_len _ _ (λ i le. returns (refuse w i _ c le))
            λ i username le full name_came.
              Ends-recv_buffer (record w { inbox = i }) req.pass_len _ _
                (λ i' le'. returns (refuse w i' _ c (omega (arith, le, le'))))
                λ i' password le' full' word_came.
                  Ends-lift _ (hash_table_lookup string_it w.ht (c_str username)) _
                    (lookup_of_IsTable string_it w.ht (c_str username) c.0)
                    λ found looked answer.
                      Ends-if_some _ found _ _
                        (λ e.
                          Ends-imp
                            (add_user-Ends req level (c_str username) (c_str password)
                              (record w { inbox = i' }) c
                              (omega (arith, length-c_str username, full))
                              (omega (arith, length-c_str password, full')))
                            (λ long. long)
                            λ code w' (zero_code, a, client, rest, (u, name, word, at, more)). (
                              record {
                                lobs = a.lobs;
                                lobs_size = a.lobs_size;
                                quit = a.quit;
                                files = a.files;
                                credentials = a.credentials;
                                taken = omega (arith, le, le', a.taken);
                              },
                              rw zero_code (
                                  created u username password i name_came (rw rest word_came) name
                                    word (at ∙ flag)
                                    (eq_of_not req.session_id w.client.session_id same)
                                    (omega (arith, at, low)) (omega (arith, at, high))
                                    (looked ∙ rw e refl) more client),
                            ))
                        λ old e. returns (refuse w i' _ c (omega (arith, le, le')))

  delete_user-Ends :
      (req : UserRequest) (w : World S)
      → Credentials w.ht
      → Ends (TooLong req) (UserPost req w) (delete_user req w)
  unfolding delete_user drop_user
  delete_user-Ends req w c =
      Ends-when w (not (req.session_id == w.client.session_id)) _ _
        (λ other. returns (refuse w w.inbox _ c (omega arith)))
        λ same.
          Ends-when w (ltb w.client.perms 3) _ _
            (λ low. returns (refuse w w.inbox _ c (omega arith)))
            λ high.
              Ends-recv_buffer w req.uname_len _ _ (λ i le. returns (refuse w i _ c le))
                λ i username le full name_came.
                  Ends-lift _ (hash_table_lookup string_it w.ht (c_str username)) _
                    (lookup_of_IsTable string_it w.ht (c_str username) c.0)
                    λ found looked answer.
                      Ends-if_some _ found _ _ (λ e. returns (refuse w i _ c le))
                        λ u e.
                          Ends-lift _ (remove_entry string_it w.ht (c_str username)) _
                            (remove_of_IsTable string_it w.ht (c_str username) u c.0
                              (looked ∙ rw e))
                            λ (ht, freed, code) removed r. returns (
                              record {
                                lobs = refl;
                                lobs_size = refl;
                                quit = refl;
                                files = refl;
                                credentials = (r.sound, omega (arith, c.1, r.slots));
                                taken = le;
                              },
                              deleted u username name_came (looked ∙ rw e refl) (answer u e).1
                                  (eq_of_not req.session_id w.client.session_id same)
                                  (ge_of_ltb w.client.perms 3 high) r.contents refl,
                            )

  create_at-Ends :
      (req : UserRequest) (level : ℕ) (w : World S)
      → Credentials w.ht
      → 1 ≤ level
      → level ≡ req.user_flag
      → Ends (TooLong req) (UserPost req w) (create_at level req w)
  create_at-Ends req level w c low flag =
      Ends-when w (ltb w.client.perms level) _ _ (λ e. returns (refuse w w.inbox _ c (omega arith)))
        λ e. create_user-Ends req level w c low flag (ge_of_ltb w.client.perms level e)

  -- A user operation on a well-formed table of more than two slots always comes to an end. It is
  -- undefined only if the request names a length of 255 or more. If it returns, the table is
  -- well-formed, the lobbies and files are untouched, and what it did is one of: nothing, with the
  -- result -1; a login, as a stored user whose name begins with the name that arrived, with a
  -- password that arrived and begins with the stored one; a creation of the user that arrived, at
  -- the level of the request's flag, which the client has, where no such user was found; a deletion
  -- of an entry that the name that arrived finds, by a client of level 3; the last two with the
  -- client's session.
  pub user_dispatch-Ends :
      (req : UserRequest) (w : World S)
      → Credentials w.ht
      → Ends (TooLong req) (UserPost req w) (user_dispatch req w)
  unfolding user_dispatch
  user_dispatch-Ends req w c =
      Ends-when w (req.user_flag == 0x00) _ _ (λ e. user_login-Ends req w c)
        λ e.
          Ends-when w (req.user_flag == 0x01) _ _
            (λ e. create_at-Ends req 1 w c (omega arith) (ground (arith, e)))
            λ e.
              Ends-when w (req.user_flag == 0x02) _ _
                (λ e. create_at-Ends req 2 w c (omega arith) (ground (arith, e)))
                λ e.
                  Ends-when w (req.user_flag == 0x03) _ _
                    (λ e. create_at-Ends req 3 w c (omega arith) (ground (arith, e)))
                    λ e.
                      Ends-when w (req.user_flag == 0xff) _ _ (λ e. delete_user-Ends req w c)
                        λ e. returns (refuse w w.inbox _ c (omega arith))
