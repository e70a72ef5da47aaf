-- ===== src/Chat/Talk.antt =====
-- The chat operations of chat.c: message to a lobby, direct message, leaving, listing members.
pub mod Effects
pub mod Operations
pub mod Posts
use basic_jqr.Base.{
  ℕ, ◌+◌, ◌-◌, Bool, true, false, Option, none, some, List, [], ◌∷◌, ◌++◌, ◌&&◌, ltb, ◌==◌,
  if◌then◌else◌, not, length, get_or, Bytes, c_str, strncmp_eq, ntohs, ntohl, htons, htonl, ℤ, pos,
  negsuc, Outcome, ok, fault,
}
use basic_jqr.Chat.State.{
  Member, Lobby, Client, ChatRequest, World, Act, pure, ◌>>=◌, ◌>>◌, get, crash, lift, when,
  Message, number, text, chat_header, server_response, send, reply, recv, recv_buffer, if_some,
}
use basic_jqr.Chat.Lobbies.{needs_perms, set_lobbies}

-- The packed struct of 12 bytes.
unfoldable pub chat_request : Bytes → ChatRequest
unfolding ntohs ntohl
chat_request bs = record {
  chat_flag = get_or bs 0 0;
  lobby_num = get_or bs 1 0;
  from_uname_len = ntohs bs 2;
  to_uname_len = ntohs bs 4;
  message_len = ntohs bs 6;
  session_id = ntohl bs 8;
}

-- The first lobby of that number.
unfoldable pub find_lobby : ℕ → List Lobby → Option Lobby
find_lobby n [] = none
find_lobby n (l ∷ ls) = let rest = find_lobby n ls in if n == l.lobby_num then some l else rest

-- The lobbies with the first one of that number changed.
unfoldable pub update_lobby : ℕ → Lobby → List Lobby → List Lobby
update_lobby n l' [] = []
update_lobby n l' (l ∷ ls) =
    let rest = update_lobby n l' ls in if n == l.lobby_num then l' ∷ ls else l ∷ rest

-- The test of `send_direct` and `exit_room`: both lengths and the first `len` bytes agree.
abbrev pub is_member : Bytes → ℕ → Member → Bool
is_member name len c = (c.name_len == len) && strncmp_eq (c_str name) c.name len

-- The recipient of a direct message.
unfoldable pub find_member : Bytes → ℕ → List Member → Option Member
find_member name len [] = none
find_member name len (c ∷ cs) =
    let rest = find_member name len cs in if is_member name len c then some c else rest

-- The sender, to whom an error goes: the lengths are not compared.
unfoldable pub find_sender : Bytes → ℕ → List Member → Option Member
find_sender name len [] = none
find_sender name len (c ∷ cs) =
    let rest = find_sender name len cs in
    if strncmp_eq (c_str name) c.name len then some c else rest

-- The list less its first member of that name, and that member; at the end `c->next` is NULL and
-- is followed.
unfoldable pub leave : Bytes → ℕ → List Member → Outcome (Member × List Member)
leave name len [] = fault
leave name len (c ∷ cs) =
    let rest = leave name len cs in
    if is_member name len c then ok (c, cs) else elim rest [
      | ok (m, cs') ↦ ok (m, c ∷ cs')
      | fault ↦ fault
      | Outcome.out_of_fuel ↦ Outcome.out_of_fuel
    ]

module _ {S : Type 0} where
  -- To every member but the sender. The length is the one in network order.
  unfoldable pub send_others : ChatRequest → Bytes → Bytes → List Member → Act S (Unit {0})
  send_others req uname msg [] = pure tt
  send_others req uname msg (c ∷ cs) =
      let rest = send_others req uname msg cs in
      when (strncmp_eq uname c.name req.from_uname_len) rest
        (do send c.fd (chat_header req); send c.fd (text uname); send c.fd (text msg); rest)

  unfoldable pub send_all : ChatRequest → Act S (Unit {0})
  unfolding recv_buffer htons htonl find_lobby send_others
  send_all req = do
    w ← get
    when (not (req.session_id == w.client.session_id)) (server_response 0x02) (do
      arrived ← recv_buffer req.from_uname_len
      if_some arrived (pure tt) λ uname. do
        arrived ← recv_buffer req.message_len
        if_some arrived (pure tt) λ msg. do
          let req' = record req {
            from_uname_len = htons req.from_uname_len;
            message_len = htons req.message_len;
            session_id = htonl req.session_id;
          }
          w ← get
          if_some (find_lobby req.lobby_num w.lobs) (pure tt) λ l.
              when (l.lobby_size == 1) (pure tt)
                (send_others req' (c_str uname) (c_str msg) l.clients))

  -- The message to the named member, or the error to the sender.
  unfoldable pub deliver : ChatRequest → Bytes → Bytes → Bytes → Lobby → Act S (Unit {0})
  unfolding htons find_member find_sender
  deliver req f_uname to_name msg l =
      let req' = record req { from_uname_len = htons req.from_uname_len } in
      if_some (find_member to_name req.to_uname_len l.clients)
        (if_some (find_sender f_uname req.from_uname_len l.clients) (pure tt)
          λ c. send c.fd (chat_header (record req' { chat_flag = 0xff })))
        λ c. do send c.fd (chat_header req'); send c.fd (text (c_str f_uname)); send c.fd (text msg)

  unfoldable pub send_direct : ChatRequest → Act S (Unit {0})
  unfolding recv_buffer htons htonl find_lobby deliver
  send_direct req = do
    w ← get
    when (not (req.session_id == w.client.session_id)) (server_response 0x02) (do
      arrived ← recv_buffer req.from_uname_len
      if_some arrived (pure tt) λ f_uname. do
        arrived ← recv_buffer req.to_uname_len
        if_some arrived (pure tt) λ to_name. do
          arrived ← recv_buffer req.message_len
          if_some arrived (pure tt) λ msg. do
            let req' = record req {
              message_len = htons req.message_len;
              session_id = htonl req.session_id;
            }
            w ← get
            if_some (find_lobby req.lobby_num w.lobs) (pure tt) λ l.
                when (l.lobby_size == 1) (pure tt) (deliver req' f_uname to_name (c_str msg) l))

  -- The session of the request is not compared with the client's.
  unfoldable pub exit_room : ChatRequest → Act S (Unit {0})
  unfolding recv_buffer find_lobby update_lobby leave
  exit_room req = do
    arrived ← recv_buffer req.from_uname_len
    if_some arrived (pure tt) λ f_uname. do
      w ← get
      if_some (find_lobby req.lobby_num w.lobs) (pure tt) λ l. do
        (c, cs) ← lift (leave f_uname req.from_uname_len l.clients)
        send c.fd (chat_header req)
        set_lobbies
            (update_lobby req.lobby_num (record l { clients = cs; lobby_size = l.lobby_size - 1 })
              w.lobs)
            w.lobs_size

  unfoldable pub send_members : List Member → Act S (Unit {0})
  send_members [] = pure tt
  send_members (c ∷ cs) = do reply (number c.name_len); reply (text c.name); send_members cs

  unfoldable pub list_members : ChatRequest → Act S (Unit {0})
  unfolding find_lobby send_members
  list_members req = do
    w ← get
    when (not (req.session_id == w.client.session_id)) (server_response 0x02) (
        if_some (find_lobby req.lobby_num w.lobs) (pure tt)
          λ l. do reply (chat_header req); reply (number l.lobby_size); send_members l.clients)

  unfoldable pub chat_dispatch : ChatRequest → Act S ℤ
  unfolding send_all send_direct exit_room list_members
  chat_dispatch req =
      let refused = (do server_response 0x03; pure (negsuc 0)) in
      when (req.chat_flag == 0x01) (needs_perms refused (do send_all req; pure (pos 0))) (
        when (req.chat_flag == 0x02) (needs_perms refused (do send_direct req; pure (pos 0))) (
          when (req.chat_flag == 0x03) (needs_perms refused (do exit_room req; pure (pos 0))) (
            when (req.chat_flag == 0x04) (needs_perms refused (do list_members req; pure (pos 0)))
              (do server_response 0xff; pure (negsuc 0)))))

  unfoldable pub chat_operation : Act S ℤ
  unfolding recv chat_request chat_dispatch
  chat_operation = do
    w ← get
    when w.quit (pure (pos 0)) (do
      arrived ← recv 12
      if_some arrived (pure (negsuc 0)) λ bs. chat_dispatch (chat_request bs))
