-- ===== src/Chat/State.antt =====
-- The state that the handlers of chat_server/Src/Src/chat.c work on, and the calls by which they
-- read, write and talk to the client. One handler runs at a time.
use basic_jqr.Base.{
  ℕ, Bool, true, false, Option, none, some, List, [], ◌∷◌, ◌++◌, leb, if◌then◌else◌, length, take,
  drop, replicate, ◌-◌, Bytes, Outcome, ok, fault, out_of_fuel,
}
use basic_jqr.HashTable.{HashTable}

-- `user`: the two arrays as strings.
pub record User : Type 0 where
  pub passwd : Bytes
  pub uname : Bytes
  pub perms : ℕ

-- `struct client`, a member of a lobby. `name` is a string.
pub record Member : Type 0 where
  pub name : Bytes
  pub fd : ℕ
  pub name_len : ℕ
  pub lobby_num : ℕ

-- `struct lobby`, with its list of members. `lobby_name` is the buffer less its last NUL.
pub record Lobby : Type 0 where
  pub lobby_name : Bytes
  pub name_len : ℕ
  pub lobby_num : ℕ
  pub lobby_size : ℕ
  pub clients : List Member

-- `client_info`, less its two pointers. `uname` is the array of bytes, `dir` a string.
pub record Client : Type 0 where
  pub client_socket : ℕ
  pub session_id : ℕ
  pub perms : ℕ
  pub dir : Bytes
  pub uname : Bytes

-- `chat_request`, after the conversion to the host's byte order.
pub record ChatRequest : Type 0 where
  pub chat_flag : ℕ
  pub lobby_num : ℕ
  pub from_uname_len : ℕ
  pub to_uname_len : ℕ
  pub message_len : ℕ
  pub session_id : ℕ

-- One `send`: a `serv_response`, an `int` by `htonl`, a single byte, a piece of text, the header of
-- a chat message, or the headers that precede a directory or a file.
pub data Message : Type 0 where
  response : ℕ → ℕ → Message
  number : ℕ → Message
  byte : ℕ → Message
  text : Bytes → Message
  chat_header : ChatRequest → Message
  ls_header : ℕ → ℕ → ℕ → Message
  get_header : ℕ → Message

-- What the peer does: an error of the connection, or bytes that arrive.
pub data Arrival : Type 0 where
  broken : Arrival
  arrives : Bytes → Arrival

-- `S` is the state of the file system.
pub record World (S : Type 0) : Type 0 where
  pub ht : HashTable User
  pub lobs : List Lobby
  pub lobs_size : ℕ
  pub client : Client
  pub quit : Bool
  pub inbox : List Arrival
  pub sent : List (ℕ × Message)
  pub files : S

abbrev pub Act : Type 0 → Type 0 → Type 0
Act S A = World S → Outcome (A × World S)

-- What is left to arrive after `n` bytes have been taken.
abbrev pub left_over : ℕ → Bytes → List Arrival → List Arrival
left_over n bs rest = if leb (length bs) n then rest else arrives (drop n bs) ∷ rest

abbrev pub take_arrival : ℕ → List Arrival → Option Bytes × List Arrival
take_arrival n [] = (some [], [])
take_arrival n (broken ∷ rest) = (none, rest)
take_arrival n (arrives bs ∷ rest) = (some (take n bs), left_over n bs rest)

-- Room of `n` bytes from `calloc`, with what arrived at its start.
abbrev pub padded : ℕ → Bytes → Bytes
padded n bs = bs ++ replicate (n - length bs) 0

module _ {S : Type 0} where
  abbrev pub pure : {A : Type 0} → A → Act S A
  pure a w = ok (a, w)

  abbrev pub and_then :
      {A B : Type 0} → Outcome (A × World S) → (A → Act S B) → Outcome (B × World S)
  and_then (ok (a, w)) k = k a w
  and_then fault k = fault
  and_then out_of_fuel k = out_of_fuel

  infixl 5 ◌>>=◌ ◌>>◌
  abbrev pub ◌>>=◌ : {A B : Type 0} → Act S A → (A → Act S B) → Act S B
  m >>= k = λ w. and_then (m w) k

  abbrev pub ◌>>◌ : {A B : Type 0} → Act S A → Act S B → Act S B
  m >> k = m >>= λ _. k

  abbrev pub get : Act S (World S)
  get w = ok (w, w)

  abbrev pub crash : {A : Type 0} → Act S A
  crash w = fault

  abbrev pub lift : {A : Type 0} → Outcome A → Act S A
  lift (ok a) w = ok (a, w)
  lift fault w = fault
  lift out_of_fuel w = out_of_fuel

  abbrev pub when : {A : Type 0} → Bool → Act S A → Act S A → Act S A
  when true m k = m
  when false m k = k

  -- `send`, whose result no handler reads.
  abbrev pub send : ℕ → Message → Act S (Unit {0})
  send fd m w = ok (tt, record w { sent = w.sent ++ (fd, m) ∷ [] })

  abbrev pub reply : Message → Act S (Unit {0})
  reply m w = send w.client.client_socket m w

  abbrev pub server_response : ℕ → Act S (Unit {0})
  server_response code = reply (response code 0)

  -- `recv` of at most `n` bytes: `none` for -1. When nothing more arrives the peer has closed.
  unfoldable pub recv : ℕ → Act S (Option Bytes)
  recv n w = ok ((take_arrival n w.inbox).0, record w { inbox = (take_arrival n w.inbox).1 })

  unfoldable pub recv_buffer : ℕ → Act S (Option Bytes)
  unfolding recv
  recv_buffer n = recv n >>= λ got. pure (elim got [ none ↦ none | some bs ↦ some (padded n bs) ])

  abbrev pub if_some : {A B : Type 0} → Option B → Act S A → (B → Act S A) → Act S A
  if_some none failed k = failed
  if_some (some b) failed k = k b
