-- ===== src/Chat/Lobbies.antt =====
-- The lobby operations of chat.c: create, list, enter, destroy.
pub mod Search
pub mod Effects
pub mod Operations
pub mod End
use basic_jqr.Base.{
  ℕ, ◌+◌, ◌-◌, ◌%◌, Bool, true, false, Option, none, some, List, [], ◌∷◌, ◌++◌, ◌&&◌, ltb, leb,
  ◌==◌, if◌then◌else◌, not, length, get_or, Bytes, c_str, strncmp_eq, ntohs, ntohl, ℤ, pos, negsuc,
  Outcome, ok, fault,
}
use basic_jqr.Chat.State.{
  Member, Lobby, Client, World, Act, pure, ◌>>=◌, ◌>>◌, get, crash, lift, when, Message, number,
  text, server_response, send, reply, recv, recv_buffer, if_some,
}

-- `lobby_request`, after the conversion to the host's byte order.
pub record LobbyRequest : Type 0 where
  pub lobby_flag : ℕ
  pub lname_len : ℕ
  pub session_id : ℕ

-- The packed struct of 9 bytes: flag, two reserved, the length, the session.
unfoldable pub lobby_request : Bytes → LobbyRequest
unfolding ntohs ntohl
lobby_request bs = record {
  lobby_flag = get_or bs 0 0;
  lname_len = ntohs bs 3;
  session_id = ntohl bs 5;
}

-- The room for a member's name: `calloc(sizeof(new_client->name) + 1, 1)`, a pointer and a byte.
abbrev pub member_name_room : ℕ
member_name_room = 9

-- Is this the lobby that `enter_lobby` asks for? The names are compared over the length asked.
abbrev pub answers_to : Bytes → ℕ → Lobby → Bool
answers_to name lname_len l = strncmp_eq (c_str name) (c_str l.lobby_name) lname_len

-- Is this the lobby that `destroy_lobby` asks for? The lengths are compared too.
abbrev pub is_named : Bytes → ℕ → Lobby → Bool
is_named name lname_len l = (l.name_len == lname_len) && answers_to name lname_len l

-- The first lobby that answers to the name gets the member at the end of its list; its number.
unfoldable pub join : Bytes → ℕ → Member → List Lobby → Option (ℕ × List Lobby)
join name lname_len m [] = none
join name lname_len m (l ∷ ls) =
    let rest = join name lname_len m ls in
    let number = l.lobby_num % 256 in
    if answers_to name lname_len l
    then some (
      number,
      record l {
        clients = l.clients ++ (record m { lobby_num = number }) ∷ [];
        lobby_size = l.lobby_size + 1;
      }
          ∷ ls,
    )
    else elim rest [ none ↦ none | some (n, ls') ↦ some (n, l ∷ ls') ]

-- What `destroy_lobby` comes to: no lobby of that name, one that may not go, or the lobbies left.
pub data Destroyed : Type 0 where
  absent : Destroyed
  occupied : Destroyed
  left : List Lobby → Destroyed

abbrev pub keep_first : Lobby → Destroyed → Destroyed
keep_first l absent = absent
keep_first l occupied = occupied
keep_first l (left ls) = left (l ∷ ls)

-- The loop over `l->next`. It tests the size of the lobby before the one that is to go.
unfoldable pub destroy_next : Bytes → ℕ → Lobby → List Lobby → Destroyed
destroy_next name lname_len l [] = absent
destroy_next name lname_len l (next ∷ ls) =
    let rest = destroy_next name lname_len next ls in
    if is_named name lname_len next
    then (if ltb 0 l.lobby_size then occupied else left (l ∷ ls))
    else keep_first l rest

-- From the head of the list, whose name is read before anything else.
unfoldable pub destroy_from : Bytes → ℕ → List Lobby → Outcome Destroyed
unfolding destroy_next
destroy_from name lname_len [] = fault
destroy_from name lname_len (l ∷ ls) = ok (
    if is_named name lname_len l
    then (if ltb 0 l.lobby_size then occupied else left ls)
    else destroy_next name lname_len l ls)

module _ {S : Type 0} where
  abbrev pub set_lobbies : List Lobby → ℕ → Act S (Unit {0})
  set_lobbies ls n w = ok (tt, record w { lobs = ls; lobs_size = n })

  unfoldable pub create_lobby : LobbyRequest → Act S ℤ
  unfolding recv_buffer
  create_lobby req = do
    w ← get
    when (not (req.session_id == w.client.session_id)) (do server_response 0x02; pure (negsuc 0))
        (do
          arrived ← recv_buffer req.lname_len
          if_some arrived (pure (negsuc 0)) λ name. do
            w ← get
            set_lobbies
                (w.lobs
                  ++ record {
                    lobby_name = name;
                    name_len = req.lname_len;
                    lobby_num = w.lobs_size + 1;
                    lobby_size = 0;
                    clients = [];
                  }
                    ∷ [])
                (w.lobs_size + 1)
            server_response 0x01
            pure (pos 0))

  unfoldable pub send_names : List Lobby → Act S (Unit {0})
  send_names [] = pure tt
  send_names (l ∷ ls) = do reply (number l.name_len); reply (text l.lobby_name); send_names ls

  -- The head's name is printed before the loop.
  abbrev pub head_name : List Lobby → Act S (Unit {0})
  head_name [] = crash
  head_name (l ∷ ls) = pure tt

  unfoldable pub list_lobbies : LobbyRequest → Act S (Unit {0})
  unfolding send_names
  list_lobbies req = do
    w ← get
    when (not (req.session_id == w.client.session_id)) (reply (number 666)) (
        when (ltb w.client.perms 1) (reply (number 666)) (do
          reply (number w.lobs_size)
          when (w.lobs_size == 0) (pure tt) (do head_name w.lobs; send_names w.lobs)))

  unfoldable pub enter_lobby : LobbyRequest → Act S (Unit {0})
  unfolding recv_buffer join
  enter_lobby req = do
    w ← get
    when (not (req.session_id == w.client.session_id)) (server_response 0x02) (do
      arrived ← recv_buffer req.lname_len
      if_some arrived (pure tt) λ name. do
        w ← get
        let uname = c_str w.client.uname
        when (leb member_name_room (length uname)) crash (
            if_some
              (join name req.lname_len
                (record {
                  name = uname;
                  fd = w.client.client_socket;
                  name_len = length uname;
                  lobby_num = 0;
                })
                w.lobs)
              (server_response 0xff)
              λ (num, ls). do set_lobbies ls w.lobs_size; server_response 0x01; reply (number num)))

  abbrev pub end_destroy : ℕ → Destroyed → Act S (Unit {0})
  end_destroy n absent = pure tt
  end_destroy n occupied = server_response 0x06
  end_destroy n (left ls) = do set_lobbies ls (n - 1); server_response 0x01

  unfoldable pub destroy_lobby : LobbyRequest → Act S (Unit {0})
  unfolding recv_buffer destroy_from
  destroy_lobby req = do
    arrived ← recv_buffer req.lname_len
    if_some arrived (pure tt) λ name. do
      w ← get
      d ← lift (destroy_from name req.lname_len w.lobs)
      end_destroy w.lobs_size d

  abbrev pub needs_perms : {A : Type 0} → Act S A → Act S A → Act S A
  needs_perms refused m = do w ← get; when (ltb w.client.perms 1) refused m

  unfoldable pub lobby_dispatch : LobbyRequest → Act S ℤ
  unfolding create_lobby list_lobbies enter_lobby destroy_lobby
  lobby_dispatch req =
      let refused = (do server_response 0x03; pure (negsuc 0)) in
      when (req.lobby_flag == 0x01) (needs_perms refused (create_lobby req)) (
        when (req.lobby_flag == 0x02) (needs_perms refused (do list_lobbies req; pure (pos 0))) (
          when (req.lobby_flag == 0x03) (needs_perms refused (do enter_lobby req; pure (pos 0))) (
            when (req.lobby_flag == 0x04) (needs_perms refused (do destroy_lobby req; pure (pos 0)))
              (do server_response 0xff; pure (negsuc 0)))))

  unfoldable pub lobby_operation : Act S ℤ
  unfolding recv lobby_request lobby_dispatch
  lobby_operation = do
    w ← get
    when w.quit (pure (pos 0)) (do
      arrived ← recv 9
      if_some arrived (pure (negsuc 0)) λ bs. lobby_dispatch (lobby_request bs))

-- The server's start: no lobbies, and their count. The result of `malloc` is not checked.
unfoldable pub create_lobbies : Bool → Outcome (List Lobby × ℕ)
create_lobbies false = fault
create_lobbies true = ok ([], 0)

-- The server's end: the members and the lobbies that are freed, in order. Of a lobby whose count
-- is 0 the members are passed over.
unfoldable pub destroy_lobbies : List Lobby → List Member × List Lobby
destroy_lobbies [] = ([], [])
destroy_lobbies (current ∷ ls) =
    let (members, lobbies) = destroy_lobbies ls in
    ((if ltb 0 current.lobby_size then current.clients else []) ++ members, current ∷ lobbies)
