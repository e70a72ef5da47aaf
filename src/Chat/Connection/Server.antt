-- ===== src/Chat/Connection/Server.antt =====
-- The rounds of `handle_connection` of chat.c, and the invariant of the server between them.
use basic_jqr.Base.{pos, negsuc, ℕ, zero, suc, ◌≤◌, ◌<◌, none, some, [], ◌∷◌, arith, ◌==◌, Bytes, ℤ}
use basic_jqr.Chat.State.{and_then, World, Act, pure, ◌>>◌, if_some, recv}
use basic_jqr.Chat.Ends.{Ends, returns, Ends-imp, Ends-when, Ends-bind, Ends-recv, Took, weight}
use basic_jqr.Chat.Users.{user_request, user_operation}
use basic_jqr.Chat.Users.Effects.{Credentials}
use basic_jqr.Chat.Users.Operations.{user_dispatch-Ends}
use basic_jqr.Chat.Lobbies.{lobby_request, lobby_operation}
use basic_jqr.Chat.Lobbies.Search.{LobbiesCounted}
use basic_jqr.Chat.Lobbies.Operations.{lobby_dispatch-Ends}
use basic_jqr.Chat.Talk.{chat_request, chat_operation}
use basic_jqr.Chat.Talk.Operations.{chat_dispatch-Ends}
use basic_jqr.Chat.Files.{Os, put_file, make_directory, delete_remote}
use basic_jqr.Chat.Files.Effects.{Beside, put_file-Ends, make_directory-Ends}
use basic_jqr.Chat.Files.Deletion.{delete_remote-Ends}
use basic_jqr.Chat.Connection.{dispatch, first_byte, handle_connection}

module _ {S : Type 0} where
  -- What holds of the server between two rounds: the table of users is well-formed, with more than
  -- two slots, and the numbers of lobbies and of their members are counted right.
  pub record IsServer (w : World S) : Type 0 where
    pub credentials : Credentials w.ht
    pub counted : LobbiesCounted w.lobs w.lobs_size

  -- It still holds, and no more is to arrive than before.
  abbrev pub Kept : {A : Type 0} → World S → A → World S → Type 0
  Kept w a w' = IsServer w' × (weight w'.inbox ≤ weight w.inbox)

  abbrev Keeping : {A : Type 0} → World S → Act S A → Type 0
  Keeping w m = Ends (Unit {0}) (Kept w) (m w)

  -- The handlers that read a request of `n` bytes and then act on it.
  request :
      (w : World S) (n : ℕ) (k : Bytes → Act S ℤ)
      → IsServer w
      → ((bs : Bytes) (w₁ : World S) → IsServer w₁ → Keeping w₁ (k bs))
      → Ends
          (Unit {0})
          (Kept w)
          (and_then (recv n w) λ arrived. if_some arrived (pure (negsuc 0)) k)
  request w n k s act = Ends-recv w n _ λ got i took arrived.
      elim got
          as (λ g.
            Took n w.inbox (g, i)
            → Ends Unit (Kept w) (if_some g (pure (negsuc 0)) k (record w { inbox = i }))) [
              | none ↦ λ t. returns (record { credentials = s.credentials; counted = s.counted }, t)
              | some bs ↦ λ t.
                  Ends-imp
                    (act bs (record w { inbox = i })
                      (record { credentials = s.credentials; counted = s.counted }))
                    (λ f. tt) λ a w' q. (q.0, omega (arith, t.1, q.1))
            ]
        took

  user_operation-Kept : (w : World S) → IsServer w → Keeping w user_operation
  unfolding user_operation
  user_operation-Kept w s =
      Ends-when w w.quit _ _ (λ e. returns (s, omega arith))
        λ e. request w 11 _ s λ bs w₁ s₁.
          Ends-imp (user_dispatch-Ends (user_request bs) w₁ s₁.credentials) (λ f. tt)
            λ code w' (around, effect). (
              record {
                credentials = around.credentials;
                counted = rw (around.lobs, around.lobs_size) s₁.counted;
              },
              around.taken,
            )

  lobby_operation-Kept : (w : World S) → IsServer w → Keeping w lobby_operation
  unfolding lobby_operation
  lobby_operation-Kept w s =
      Ends-when w w.quit _ _ (λ e. returns (s, omega arith))
        λ e. request w 9 _ s λ bs w₁ s₁.
          Ends-imp (lobby_dispatch-Ends (lobby_request bs) w₁ s₁.counted) (λ f. tt)
            λ code w' (apart, counted, effect).
              (record { credentials = rw apart.ht s₁.credentials; counted = counted }, apart.taken)

  chat_operation-Kept : (w : World S) → IsServer w → Keeping w chat_operation
  unfolding chat_operation
  chat_operation-Kept w s =
      Ends-when w w.quit _ _ (λ e. returns (s, omega arith))
        λ e. request w 12 _ s λ bs w₁ s₁.
          Ends-imp (chat_dispatch-Ends (chat_request bs) w₁ s₁.counted) (λ f. tt)
            λ code w' (apart, counted, effect).
              (record { credentials = rw apart.ht s₁.credentials; counted = counted }, apart.taken)

module _ {S : Type 0} (os : Os S) where
  Kept-of_Beside : (w w' : World S) → IsServer w → Beside os w w' → Kept {A = ℤ} w (pos 0) w'
  Kept-of_Beside w w' s b = (
    record { credentials = rw b.ht s.credentials; counted = rw (b.lobs, b.lobs_size) s.counted },
    b.taken,
  )

  and_on :
      {w : World S} (m : Act S ℤ)
      → Ends (Unit {0}) (Kept w) (m w)
      → Ends (Unit {0}) (Kept w) ((m >> pure tt) w)
  and_on m k = Ends-bind _ k λ a w' q. returns q

  -- A round's operation comes to an end, whatever the code: it is undefined, or the server's
  -- invariant holds afterwards, and no more bytes are to arrive than before.
  pub dispatch-Kept :
      (opcode : ℕ) (w : World S) → IsServer w → Ends (Unit {0}) (Kept w) (dispatch os opcode w)
  unfolding dispatch
  dispatch-Kept opcode w s =
      Ends-when w (opcode == 0x01) _ _ (λ e. and_on user_operation (user_operation-Kept w s))
        λ e.
          Ends-when w (opcode == 0x02) _ _
            (λ e. and_on (delete_remote os) (
              Ends-imp (delete_remote-Ends os w) (λ f. tt)
                λ code w' (b, effect). Kept-of_Beside w w' s b))
            λ e.
              Ends-when w (opcode == 0x03) _ _
                (λ e. and_on (make_directory os) (
                  Ends-imp (make_directory-Ends os w) (λ f. tt)
                    λ code w' (b, effect). Kept-of_Beside w w' s b))
                λ e.
                  Ends-when w (opcode == 0x06) _ _
                    (λ e. and_on (put_file os) (
                      Ends-imp (put_file-Ends os w) (λ f. tt)
                        λ code w' (b, effect). Kept-of_Beside w w' s b))
                    λ e.
                      Ends-when w (opcode == 0x07) _ _
                        (λ e. and_on lobby_operation (lobby_operation-Kept w s))
                        λ e.
                          Ends-when w (opcode == 0x08) _ _
                            (λ e. and_on chat_operation (chat_operation-Kept w s))
                            λ e. returns (s, omega arith)

  -- The loop over the connection ends after at most one round for each byte that is to arrive,
  -- and one: it meets undefined behaviour, or it returns and the server's invariant holds.
  pub handle_connection-Kept :
      (rounds : ℕ) (w : World S)
      → IsServer w
      → weight w.inbox < rounds
      → Ends (Unit {0}) (Kept w) (handle_connection os rounds w)
  unfolding handle_connection
  handle_connection-Kept zero w s enough = absurd (elim enough [ ])
  handle_connection-Kept (suc rounds) w s enough =
      Ends-when w w.quit _ _ (λ e. returns (s, omega arith))
        λ e.
          Ends-recv w 1
            (λ arrived.
              if_some (first_byte os arrived) (pure tt)
                (λ opcode. dispatch os opcode >> handle_connection os rounds))
            λ got i took arrived.
              elim got
                  as (λ g.
                    Took 1 w.inbox (g, i)
                    → Ends Unit (Kept w) (
                        if_some (first_byte os g) (pure tt)
                          (λ opcode. dispatch os opcode >> handle_connection os rounds)
                          (record w { inbox = i }))) [
                            | none ↦ λ t.
                                returns
                                  (record { credentials = s.credentials; counted = s.counted }, t)
                            | some [] ↦ λ t. returns (
                              record { credentials = s.credentials; counted = s.counted },
                              omega (arith, t.1),
                            )
                            | some (b ∷ bs) ↦ λ t.
                                Ends-bind _
                                  (dispatch-Kept b (record w { inbox = i })
                                    (record { credentials = s.credentials; counted = s.counted }))
                                  λ a w₁ q.
                                    Ends-imp
                                      (handle_connection-Kept rounds w₁ q.0
                                        (omega (arith, t.1, q.1, enough)))
                                      (λ f. tt) λ a' w' q'. (q'.0, omega (arith, t.1, q.1, q'.1))
                          ]
                took
