-- ===== src/Chat/Lobbies/Operations.antt =====
-- The lobby operations of chat.c, one by one, against the effects of Chat/Lobbies/Effects.
use basic_jqr.Base.{
  eq_of_not, ℕ, ◌+◌, ◌%◌, ◌≤◌, ◌≡◌, inl, inr, refl, ◌∙◌, false, List, [], ◌∷◌, ◌++◌, arith, leb→le,
  ltb, leb, ◌==◌, not, length, length-append, ok, append_assoc, append-nil, Bytes, c_str, ℤ, pos,
  negsuc,
}
use basic_jqr.Chat.State.{
  Member, Lobby, World, Arrival, number, text, pure, when, Act, server_response, ◌>>◌,
}
use basic_jqr.Chat.Ends.{
  Ends, returns, faults, Ends-when, Ends-if_some, Ends-lift, Ends-bind, weight, Received,
  Ends-recv_buffer,
}
use basic_jqr.Chat.Lobbies.{
  LobbyRequest, is_named, join, Destroyed, end_destroy, destroy_from, member_name_room,
  create_lobby, send_names, head_name, needs_perms, list_lobbies, enter_lobby, destroy_lobby,
  lobby_dispatch,
}
use basic_jqr.Chat.Lobbies.Search.{
  LobbiesCounted, joined, join-FirstOf, Verdict, none_named, stays, goes, destroy_from-Verdict,
}
use basic_jqr.Chat.Lobbies.Effects.{
  names_for, LobbiesCounted-change, LobbiesCounted-drop, LobbiesCounted-add, empty_or_not,
  lobby_added, member_added, lobby_removed, LobbyPost, LobbyFault, idle,
}

module _ {S : Type 0} where
  create_lobby-Ends :
      (req : LobbyRequest) (w : World S)
      → LobbiesCounted w.lobs w.lobs_size
      → Ends (LobbyFault w) (LobbyPost req w) (create_lobby req w)
  unfolding create_lobby
  create_lobby-Ends req w c =
      Ends-when w (not (req.session_id == w.client.session_id)) _ _
        (λ other. idle w w.inbox _ c (omega arith))
        λ same.
          Ends-recv_buffer w req.lname_len _ _ (λ i le. idle w i _ c le)
            λ i name le full came.
              let l : Lobby = record {
                lobby_name = name;
                name_len = req.lname_len;
                lobby_num = w.lobs_size + 1;
                lobby_size = 0;
                clients = [];
              } in
              returns (
                record { ht = refl; client = refl; quit = refl; files = refl; taken = le },
                LobbiesCounted-add w.lobs l w.lobs_size c refl,
                lobby_added l i came refl (eq_of_not req.session_id w.client.session_id same) refl
                    refl,
              )

  enter_lobby-Ends :
      (req : LobbyRequest) (w : World S)
      → LobbiesCounted w.lobs w.lobs_size
      → Ends (LobbyFault w) (LobbyPost req w) (enter_lobby req w)
  unfolding enter_lobby
  enter_lobby-Ends req w c =
      let uname = c_str w.client.uname in
      let m : Member = record {
        name = uname;
        fd = w.client.client_socket;
        name_len = length uname;
        lobby_num = 0;
      } in
      Ends-when w (not (req.session_id == w.client.session_id)) _ _
        (λ other. idle w w.inbox _ c (omega arith))
        λ same.
          Ends-recv_buffer w req.lname_len _ _ (λ i le. idle w i _ c le)
            λ i name le full came.
              Ends-when _ (leb member_name_room (length uname)) _ _
                (λ long. faults (inl (leb→le member_name_room (length uname) long)))
                λ short.
                  Ends-if_some _ (join name req.lname_len m w.lobs) _ _ (λ e. idle w i _ c le)
                    λ (k, ls) e.
                      let (f, new, num) = join-FirstOf name req.lname_len m w.lobs k ls e in
                      rw new (
                        returns (
                          record {
                            ht = refl;
                            client = refl;
                            quit = refl;
                            files = refl;
                            taken = le;
                          },
                          LobbiesCounted-change f.before f.after f.lobby (joined m f.lobby)
                              w.lobs_size (rw f.whole at c)
                              (λ k. omega (
                                arith,
                                k,
                                length-append f.lobby.clients
                                    (record m { lobby_num = f.lobby.lobby_num % 256 } ∷ []),
                              )),
                          member_added name i m f came
                              (eq_of_not req.session_id w.client.session_id same) refl refl,
                        ))

  end_destroy-Ends :
      (req : LobbyRequest) (name : Bytes) (w : World S) (inbox : List Arrival) (d : Destroyed)
      → LobbiesCounted w.lobs w.lobs_size
      → weight inbox ≤ weight w.inbox
      → Received req.lname_len w.inbox name inbox
      → Verdict (is_named name req.lname_len) w.lobs d
      → Ends
          (LobbyFault w)
          (LobbyPost req w)
          (end_destroy w.lobs_size d (record w { inbox = inbox }))
  end_destroy-Ends req name w i _ c le came (none_named all) = idle w i _ c le
  end_destroy-Ends req name w i _ c le came (stays f size) = idle w i _ c le
  end_destroy-Ends req name w i _ c le came (goes f size) = returns (
    record { ht = refl; client = refl; quit = refl; files = refl; taken = le },
    LobbiesCounted-drop f.before f.after f.lobby w.lobs_size (rw f.whole at c),
    lobby_removed name i f came size,
  )

  destroy_lobby-Ends :
      (req : LobbyRequest) (w : World S)
      → LobbiesCounted w.lobs w.lobs_size
      → Ends (LobbyFault w) (LobbyPost req w) (destroy_lobby req w)
  unfolding destroy_lobby
  destroy_lobby-Ends req w c =
      Ends-recv_buffer w req.lname_len _ _ (λ i le. idle w i _ c le)
        λ i name le full came. elim (empty_or_not w.lobs) [
          | inl none_left ↦ rw none_left (faults (inr refl))
          | inr some_lobby ↦
              Ends-lift _ (destroy_from name req.lname_len w.lobs) _
                (destroy_from-Verdict name req.lname_len w.lobs some_lobby)
                λ d e verdict. end_destroy-Ends req name w i d c le came verdict
        ]

  send_names_lem :
      (ls : List Lobby) (w : World S)
      → send_names ls w ≡ ok (tt, record w { sent = w.sent ++ names_for w.client.client_socket ls })
  unfolding send_names
  send_names_lem [] w = rw append-nil
  send_names_lem (l ∷ ls) w =
      let fd = w.client.client_socket in
      send_names_lem ls
        (record w { sent = w.sent ++ (fd, number l.name_len) ∷ [] ++ (fd, text l.lobby_name) ∷ [] })
      ∙ rw (append_assoc, append_assoc)

  names_part :
      (ls : List Lobby) (n : ℕ) (w : World S)
      → n ≡ length ls
      → when (n == 0) (pure tt) (head_name ls >> send_names ls) w
        ≡ ok (tt, record w { sent = w.sent ++ names_for w.client.client_socket ls })
  names_part [] n w e = rw (e, append-nil)
  names_part (l ∷ ls) n w e =
      let some_lobbies : (n == 0) ≡ false = ground arith in
      rw some_lobbies (send_names_lem (l ∷ ls) w)

  -- With its session and a level of at least 1 a client is sent the number of lobbies and then, in
  -- the order of the list, the length of each name and the name.
  list_lobbies-sent :
      (req : LobbyRequest) (w : World S)
      → LobbiesCounted w.lobs w.lobs_size
      → req.session_id ≡ w.client.session_id
      → 1 ≤ w.client.perms
      → list_lobbies req w
        ≡ ok (
          tt,
          record w {
            sent =
                w.sent
                ++ (w.client.client_socket, number (length w.lobs))
                  ∷ names_for w.client.client_socket w.lobs;
          },
        )
  unfolding list_lobbies
  list_lobbies-sent req w c same high =
      let e : not (req.session_id == w.client.session_id) ≡ false = ground arith in
      let e' : ltb w.client.perms 1 ≡ false = ground arith in
      let counted = record w {
        sent = w.sent ++ (w.client.client_socket, number w.lobs_size) ∷ [];
      } in
      rw (e, e') (names_part w.lobs w.lobs_size counted c.0 ∙ rw (append_assoc, c.0))

  abbrev Keeps : {A : Type 0} → LobbyRequest → World S → Act S A → Type 0
  Keeps req w m = Ends (LobbyFault w) (LobbyPost req w) (m w)

  list_lobbies-Ends :
      (req : LobbyRequest) (w : World S)
      → LobbiesCounted w.lobs w.lobs_size
      → Keeps req w (list_lobbies req)
  unfolding list_lobbies
  list_lobbies-Ends req w c =
      Ends-when w (not (req.session_id == w.client.session_id)) _ _
        (λ other. idle w w.inbox _ c (omega arith))
        λ same.
          Ends-when w (ltb w.client.perms 1) _ _ (λ low. idle w w.inbox _ c (omega arith))
            λ high.
              rw
                (names_part w.lobs w.lobs_size
                  (record w { sent = w.sent ++ (w.client.client_socket, number w.lobs_size) ∷ [] })
                  c.0)
                (idle w w.inbox _ c (omega arith))

  -- Each of the operations is asked for a level of at least 1 first.
  guarded :
      (req : LobbyRequest) (w : World S) (m : Act S ℤ)
      → LobbiesCounted w.lobs w.lobs_size
      → Keeps req w m
      → Keeps req w (needs_perms (server_response 0x03 >> pure (negsuc 0)) m)
  guarded req w m c k =
      Ends-when w (ltb w.client.perms 1) _ _ (λ low. idle w w.inbox _ c (omega arith)) λ high. k

  then_zero :
      {req : LobbyRequest} {w : World S} (m : Act S (Unit {0}))
      → Keeps req w m
      → Keeps req w (m >> pure (pos 0))
  then_zero m k = Ends-bind _ k λ a w' post. returns post

  -- A lobby operation comes to an end; it is undefined only for a client's name of nine bytes or
  -- more or with no lobby in the list. If it returns, the users, the client and the files are
  -- untouched, the number of lobbies and the sizes of their lists of members are counted right if
  -- they were before, and the list of lobbies is as before, or longer by an empty lobby of the name
  -- that arrived, or by one member of the first lobby that answers to it, or shorter by the first
  -- lobby of that name, if the lobby before it, or itself where it is the first, is empty.
  pub lobby_dispatch-Ends :
      (req : LobbyRequest) (w : World S)
      → LobbiesCounted w.lobs w.lobs_size
      → Ends (LobbyFault w) (LobbyPost req w) (lobby_dispatch req w)
  unfolding lobby_dispatch
  lobby_dispatch-Ends req w c =
      Ends-when w (req.lobby_flag == 0x01) _ _ (λ e. guarded req w _ c (create_lobby-Ends req w c))
        λ e.
          Ends-when w (req.lobby_flag == 0x02) _ _
            (λ e. guarded req w _ c (then_zero (list_lobbies req) (list_lobbies-Ends req w c)))
            λ e.
              Ends-when w (req.lobby_flag == 0x03) _ _
                (λ e. guarded req w _ c (then_zero (enter_lobby req) (enter_lobby-Ends req w c)))
                λ e.
                  Ends-when w (req.lobby_flag == 0x04) _ _
                    (λ e.
                      guarded req w _ c
                        (then_zero (destroy_lobby req) (destroy_lobby-Ends req w c)))
                    λ e. idle w w.inbox _ c (omega arith)
