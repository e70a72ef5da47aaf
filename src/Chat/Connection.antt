-- ===== src/Chat/Connection.antt =====
-- `handle_connection` of chat.c: one round reads an operation code and calls its handler.
pub mod Server
use basic_jqr.Base.{
  ℕ, zero, suc, Bool, true, false, Option, none, some, List, [], ◌∷◌, ◌==◌, if◌then◌else◌, Bytes, ℤ,
  Outcome, ok, fault, out_of_fuel,
}
use basic_jqr.Chat.State.{World, Act, pure, ◌>>=◌, ◌>>◌, get, when, recv, if_some}
use basic_jqr.Chat.Users.{user_operation}
use basic_jqr.Chat.Lobbies.{lobby_operation}
use basic_jqr.Chat.Talk.{chat_operation}
use basic_jqr.Chat.Files.{Os, delete_remote, make_directory, put_file}

module _ {S : Type 0} (os : Os S) where
  -- The chain of tests on the operation code; another code is passed over.
  unfoldable pub dispatch : ℕ → Act S (Unit {0})
  unfolding user_operation lobby_operation chat_operation delete_remote make_directory put_file
  dispatch opcode =
      when (opcode == 0x01) (do user_operation; pure tt)
        (when (opcode == 0x02) (do delete_remote os; pure tt)
          (when (opcode == 0x03) (do make_directory os; pure tt)
            (when (opcode == 0x06) (do put_file os; pure tt)
              (when (opcode == 0x07) (do lobby_operation; pure tt)
                (when (opcode == 0x08) (do chat_operation; pure tt) (pure tt))))))

  -- The code that arrived, if the connection is still there.
  abbrev pub first_byte : Option Bytes → Option ℕ
  first_byte none = none
  first_byte (some []) = none
  first_byte (some (b ∷ bs)) = some b

  -- The socket is a descriptor, never -1.
  unfoldable pub handle_connection : ℕ → Act S (Unit {0})
  unfolding recv dispatch
  handle_connection zero = λ w. out_of_fuel
  handle_connection (suc rounds) = do
    w ← get
    when w.quit (pure tt) (do
      arrived ← recv 1
      if_some (first_byte arrived) (pure tt) λ opcode. do dispatch opcode; handle_connection rounds)
