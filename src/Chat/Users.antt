-- ===== src/Chat/Users.antt =====
-- The user operations of chat.c: login, creation and deletion.
pub mod Effects
pub mod Operations
use basic_jqr.Base.{
  ℕ, ◌+◌, Bool, true, false, Option, none, some, List, [], ◌∷◌, ◌++◌, ◌||◌, ltb, leb, ◌==◌,
  if◌then◌else◌, not, length, drop, get_or, Bytes, c_str, strncmp_eq, ntohs, ntohl, ℤ, pos, negsuc,
  Outcome, ok,
}
use basic_jqr.HashTable.{
  HashTable, hash_table_lookup, insert_entry, remove_entry, hash_table_insert,
}
use basic_jqr.Chat.State.{
  User, Client, World, Act, pure, ◌>>=◌, ◌>>◌, get, crash, lift, when, Message, response,
  server_response, reply, recv, recv_buffer, if_some,
}

-- `user_request`, after the conversion to the host's byte order.
pub record UserRequest : Type 0 where
  pub user_flag : ℕ
  pub uname_len : ℕ
  pub pass_len : ℕ
  pub session_id : ℕ

-- The packed struct of 11 bytes: flag, two reserved, two lengths, session.
unfoldable pub user_request : Bytes → UserRequest
unfolding ntohs ntohl
user_request bs = record {
  user_flag = get_or bs 0 0;
  uname_len = ntohs bs 3;
  pass_len = ntohs bs 5;
  session_id = ntohl bs 7;
}

abbrev pub max_name : ℕ
max_name = 255

-- `string_it` of the credentials table.
abbrev pub string_it : User → Bytes
string_it u = u.uname

-- Insertions are given three levels of nesting.
abbrev pub insert_fuel : ℕ
insert_fuel = 3

-- `memcpy` of `bs` onto the start of an array.
abbrev pub overwrite : Bytes → Bytes → Bytes
overwrite bs array = bs ++ drop (length bs) array

module _ {S : Type 0} where
  abbrev pub set_login : ℕ → Bytes → Act S (Unit {0})
  set_login perms name w = ok (
    tt,
    record w { client = record w.client { perms = perms; uname = overwrite name w.client.uname } },
  )

  abbrev pub set_ht : HashTable User → Act S (Unit {0})
  set_ht ht w = ok (tt, record w { ht = ht })

  -- The end of a login, on the entry that was found.
  unfoldable pub check_password : UserRequest → Bytes → Bytes → User → Act S ℤ
  check_password req username password new_user =
      when (strncmp_eq password new_user.passwd (length new_user.passwd))
        (when (ltb max_name req.uname_len) crash (do
          set_login new_user.perms username
          w ← get
          reply (response 1 w.client.session_id)
          pure (pos 0)))
        (do server_response 0xff; pure (negsuc 0))

  unfoldable pub user_login : UserRequest → Act S ℤ
  unfolding recv_buffer check_password hash_table_lookup
  user_login req = do
    arrived ← recv_buffer req.uname_len
    if_some arrived (pure (negsuc 0)) λ username. do
      arrived ← recv_buffer req.pass_len
      if_some arrived (pure (negsuc 0)) λ password. do
        w ← get
        found ← lift (hash_table_lookup string_it w.ht (c_str username))
        if_some found (do server_response 0xff; pure (negsuc 0))
            λ new_user. check_password req username (c_str password) new_user

  -- `calloc` and two `memcpy`; a string that leaves no room for its NUL runs over the array.
  abbrev pub new_user : ℕ → Bytes → Bytes → Act S User
  new_user permission username password =
      when (leb max_name (length username) || leb max_name (length password)) crash
        (pure (record { passwd = password; uname = username; perms = permission }))

  -- The name is free: both pointers that `hash_table_insert` gets are there, so it returns 0.
  unfoldable pub add_user : ℕ → Bytes → Bytes → Act S ℤ
  unfolding insert_entry
  add_user permission username password = do
    u ← new_user permission username password
    w ← get
    ht ← lift (insert_entry string_it insert_fuel w.ht u)
    set_ht ht
    server_response 0x01
    pure (pos 0)

  unfoldable pub create_user : UserRequest → ℕ → Act S ℤ
  unfolding recv_buffer hash_table_lookup add_user
  create_user req permission = do
    w ← get
    when (not (req.session_id == w.client.session_id)) (do server_response 0x02; pure (negsuc 0))
        (do
          arrived ← recv_buffer req.uname_len
          if_some arrived (pure (negsuc 0)) λ username. do
            arrived ← recv_buffer req.pass_len
            if_some arrived (pure (negsuc 0)) λ password. do
              w ← get
              found ← lift (hash_table_lookup string_it w.ht (c_str username))
              if_some found (add_user permission (c_str username) (c_str password))
                  λ old. do server_response 0x04; pure (negsuc 0))

  unfoldable pub drop_user : Bytes → Act S ℤ
  unfolding remove_entry
  drop_user username = do
    w ← get
    (ht, freed, code) ← lift (remove_entry string_it w.ht username)
    set_ht ht
    server_response 0x01
    pure (pos 0)

  unfoldable pub delete_user : UserRequest → Act S ℤ
  unfolding recv_buffer hash_table_lookup drop_user
  delete_user req = do
    w ← get
    when (not (req.session_id == w.client.session_id)) (do server_response 0x02; pure (negsuc 0))
        (when (ltb w.client.perms 3) (do server_response 0x03; pure (negsuc 0))
          (do
            arrived ← recv_buffer req.uname_len
            if_some arrived (pure (negsuc 0)) λ username. do
              w ← get
              found ← lift (hash_table_lookup string_it w.ht (c_str username))
              if_some found (do server_response 0xff; pure (negsuc 0))
                  λ old. drop_user (c_str username)))

  -- A creation that wants a permission level of the client.
  abbrev pub create_at : ℕ → UserRequest → Act S ℤ
  create_at level req = do
    w ← get
    when (ltb w.client.perms level) (do server_response 0x03; pure (negsuc 0))
        (create_user req level)

  -- The chain of tests on the flag.
  unfoldable pub user_dispatch : UserRequest → Act S ℤ
  unfolding user_login create_user delete_user
  user_dispatch req = when (req.user_flag == 0x00) (user_login req) (
      when (req.user_flag == 0x01) (create_at 1 req) (
        when (req.user_flag == 0x02) (create_at 2 req) (
          when (req.user_flag == 0x03) (create_at 3 req) (
            when (req.user_flag == 0xff) (delete_user req)
              (do server_response 0xff; pure (negsuc 0))))))

  -- Every branch of the loop's body returns, so the loop runs once, unless the server is quitting.
  unfoldable pub user_operation : Act S ℤ
  unfolding recv user_request user_dispatch
  user_operation = do
    w ← get
    when w.quit (pure (pos 0)) (do
      arrived ← recv 11
      if_some arrived (pure (negsuc 0)) λ bs. user_dispatch (user_request bs))
