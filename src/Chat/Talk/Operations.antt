-- ===== src/Chat/Talk/Operations.antt =====
-- The chat operations of chat.c, one by one, against the effects of Chat/Talk/Effects.
use basic_jqr.Base.{
  ◌-◌, ◌≤◌, ◌≡◌, refl, ap, List, [], ◌∷◌, ◌++◌, arith, ltb, ◌==◌, not, length, length-append,
  Outcome, Bytes, c_str, ℤ, pos, negsuc,
}
use basic_jqr.Chat.State.{
  and_then, lift, send, Member, Lobby, ChatRequest, World, Arrival, chat_header, number, pure, ◌>>◌,
  Act, server_response,
}
use basic_jqr.Chat.Ends.{
  Ends, returns, faults, Ends-when, Ends-if_some, Ends-bind, weight, Received, Ends-recv_buffer,
}
use basic_jqr.Chat.Lobbies.{needs_perms, set_lobbies}
use basic_jqr.Chat.Lobbies.Search.{LobbiesCounted, FirstOf}
use basic_jqr.Chat.Lobbies.Effects.{LobbiesCounted-change}
use basic_jqr.Chat.Talk.{
  find_lobby, update_lobby, leave, send_all, deliver, find_member, find_sender, send_direct,
  exit_room, list_members, chat_dispatch,
}
use basic_jqr.Chat.Talk.Effects.{
  has_number, find_lobby-FirstOf, Leaves, gone, nobody, leave-Leaves, send_others_lem,
  send_members_lem, member_left, ChatFault, ChatPost, idle, Keeps,
}

module _ {S : Type 0} where
  send_all-Ends :
      (req : ChatRequest) (w : World S)
      → LobbiesCounted w.lobs w.lobs_size
      → Keeps req w (send_all req)
  unfolding send_all
  send_all-Ends req w c =
      Ends-when w (not (req.session_id == w.client.session_id)) _ _
        (λ other. idle w w.inbox _ c (omega arith))
        λ same.
          Ends-recv_buffer w req.from_uname_len _ _ (λ i le. idle w i _ c le)
            λ i uname le full came.
              Ends-recv_buffer (record w { inbox = i }) req.message_len _ _
                (λ i' le'. idle w i' _ c (omega (arith, le, le')))
                λ i' msg le' full' came'.
                  Ends-if_some _ (find_lobby req.lobby_num w.lobs) _ _
                    (λ e. idle w i' _ c (omega (arith, le, le')))
                    λ l e.
                      Ends-when _ (l.lobby_size == 1) _ _
                        (λ alone. idle w i' _ c (omega (arith, le, le')))
                        λ more.
                          rw
                            (send_others_lem _ (c_str uname) (c_str msg) l.clients
                              (record w { inbox = i' }))
                            (idle w i' _ c (omega (arith, le, le')))

  deliver-Ends :
      (req r : ChatRequest) (f_uname to_name msg : Bytes) (l : Lobby) (w : World S)
      (inbox : List Arrival)
      → LobbiesCounted w.lobs w.lobs_size
      → weight inbox ≤ weight w.inbox
      → Ends
          (ChatFault req w)
          (ChatPost req w)
          (deliver r f_uname to_name msg l (record w { inbox = inbox }))
  unfolding deliver
  deliver-Ends req r f_uname to_name msg l w i c le =
      Ends-if_some _ (find_member to_name r.to_uname_len l.clients) _ _
        (λ e.
          Ends-if_some _ (find_sender f_uname r.from_uname_len l.clients) _ _
            (λ e'. idle w i _ c le) λ m e'. idle w i _ c le)
        λ m e. idle w i _ c le

  send_direct-Ends :
      (req : ChatRequest) (w : World S)
      → LobbiesCounted w.lobs w.lobs_size
      → Keeps req w (send_direct req)
  unfolding send_direct
  send_direct-Ends req w c =
      Ends-when w (not (req.session_id == w.client.session_id)) _ _
        (λ other. idle w w.inbox _ c (omega arith))
        λ same.
          Ends-recv_buffer w req.from_uname_len _ _ (λ i le. idle w i _ c le)
            λ i f_uname le full came.
              Ends-recv_buffer (record w { inbox = i }) req.to_uname_len _ _
                (λ i₁ le₁. idle w i₁ _ c (omega (arith, le, le₁)))
                λ i₁ to_name le₁ full₁ came₁.
                  Ends-recv_buffer (record w { inbox = i₁ }) req.message_len _ _
                    (λ i₂ le₂. idle w i₂ _ c (omega (arith, le, le₁, le₂)))
                    λ i₂ msg le₂ full₂ came₂.
                      Ends-if_some _ (find_lobby req.lobby_num w.lobs) _ _
                        (λ e. idle w i₂ _ c (omega (arith, le, le₁, le₂)))
                        λ l e.
                          Ends-when _ (l.lobby_size == 1) _ _
                            (λ alone. idle w i₂ _ c (omega (arith, le, le₁, le₂)))
                            λ more.
                              deliver-Ends req _ f_uname to_name (c_str msg) l w i₂ c
                                (omega (arith, le, le₁, le₂))

  -- The lobby that the member has left.
  left_lobby-Ends :
      (req : ChatRequest) (name : Bytes) (w : World S) (inbox : List Arrival)
      (f : FirstOf (has_number req.lobby_num) w.lobs) (o : Outcome (Member × List Member))
      → ((l' : Lobby) → update_lobby req.lobby_num l' w.lobs ≡ f.before ++ l' ∷ f.after)
      → LobbiesCounted w.lobs w.lobs_size
      → weight inbox ≤ weight w.inbox
      → req.chat_flag ≡ 0x03
      → Received req.from_uname_len w.inbox name inbox
      → Leaves name req.from_uname_len f.lobby.clients o
      → Ends (ChatFault req w) (ChatPost req w) (
          and_then (lift o (record w { inbox = inbox })) λ (m, cs).
            send m.fd (chat_header req)
            >> set_lobbies
                (update_lobby req.lobby_num
                  (record f.lobby { clients = cs; lobby_size = f.lobby.lobby_size - 1 })
                  w.lobs)
                w.lobs_size)
  left_lobby-Ends req name w i f _ change c le flag came (nobody all) =
      faults (flag, name, i, f, came, all)
  left_lobby-Ends req name w i f _ change c le flag came (gone {r = (m, cs)} out) =
      let l' : Lobby = record f.lobby { clients = cs; lobby_size = f.lobby.lobby_size - 1 } in
      rw (change l') (
        returns (
          record { ht = refl; client = refl; quit = refl; files = refl; taken = le },
          LobbiesCounted-change f.before f.after f.lobby l' w.lobs_size (rw f.whole at c) (λ k.
              omega (
                arith,
                k,
                ap length out.whole,
                ap length out.rest,
                length-append out.before (m ∷ out.after),
                length-append out.before out.after,
              )),
          member_left name i m cs f came out,
        ))

  exit_room-Ends :
      (req : ChatRequest) (w : World S)
      → LobbiesCounted w.lobs w.lobs_size
      → req.chat_flag ≡ 0x03
      → Keeps req w (exit_room req)
  unfolding exit_room
  exit_room-Ends req w c flag =
      Ends-recv_buffer w req.from_uname_len _ _ (λ i le. idle w i _ c le)
        λ i name le full came.
          Ends-if_some _ (find_lobby req.lobby_num w.lobs) _ _ (λ e. idle w i _ c le)
            λ l e.
              let (f, same, change) = find_lobby-FirstOf req.lobby_num w.lobs l e in
              rw (← same) (
                left_lobby-Ends req name w i f (leave name req.from_uname_len f.lobby.clients)
                  change c le flag came (leave-Leaves name req.from_uname_len f.lobby.clients))

  list_members-Ends :
      (req : ChatRequest) (w : World S)
      → LobbiesCounted w.lobs w.lobs_size
      → Keeps req w (list_members req)
  unfolding list_members
  list_members-Ends req w c =
      Ends-when w (not (req.session_id == w.client.session_id)) _ _
        (λ other. idle w w.inbox _ c (omega arith))
        λ same.
          Ends-if_some _ (find_lobby req.lobby_num w.lobs) _ _
            (λ e. idle w w.inbox _ c (omega arith))
            λ l e.
              let fd = w.client.client_socket in
              rw
                (send_members_lem l.clients (record w {
                  sent = w.sent ++ (fd, chat_header req) ∷ [] ++ (fd, number l.lobby_size) ∷ [];
                }))
                (idle w w.inbox _ c (omega arith))

  guarded :
      (req : ChatRequest) (w : World S) (m : Act S ℤ)
      → LobbiesCounted w.lobs w.lobs_size
      → Keeps req w m
      → Keeps req w (needs_perms (server_response 0x03 >> pure (negsuc 0)) m)
  guarded req w m c k =
      Ends-when w (ltb w.client.perms 1) _ _ (λ low. idle w w.inbox _ c (omega arith)) λ high. k

  then_zero :
      {req : ChatRequest} {w : World S} (m : Act S (Unit {0}))
      → Keeps req w m
      → Keeps req w (m >> pure (pos 0))
  then_zero m k = Ends-bind _ k λ a w' post. returns post

  -- A chat operation comes to an end; it is undefined only where it is to leave the lobby of the
  -- request's number and that has no member of the name that arrived. If it returns, the users, the
  -- client and the files are untouched, the number of lobbies and the sizes of their lists of
  -- members are counted right if they were before, and the lobbies are as before, or the first
  -- member of the name that arrived is gone from the lobby of the request's number.
  pub chat_dispatch-Ends :
      (req : ChatRequest) (w : World S)
      → LobbiesCounted w.lobs w.lobs_size
      → Ends (ChatFault req w) (ChatPost req w) (chat_dispatch req w)
  unfolding chat_dispatch
  chat_dispatch-Ends req w c =
      Ends-when w (req.chat_flag == 0x01) _ _
        (λ e. guarded req w _ c (then_zero (send_all req) (send_all-Ends req w c)))
        λ e.
          Ends-when w (req.chat_flag == 0x02) _ _
            (λ e. guarded req w _ c (then_zero (send_direct req) (send_direct-Ends req w c)))
            λ e.
              Ends-when w (req.chat_flag == 0x03) _ _
                (λ e.
                  guarded req w _ c
                    (then_zero (exit_room req) (exit_room-Ends req w c (ground (arith, e)))))
                λ e.
                  Ends-when w (req.chat_flag == 0x04) _ _
                    (λ e.
                      guarded req w _ c (then_zero (list_members req) (list_members-Ends req w c)))
                    λ e. idle w w.inbox _ c (omega arith)
