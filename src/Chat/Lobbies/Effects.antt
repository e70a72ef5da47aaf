-- ===== src/Chat/Lobbies/Effects.antt =====
-- What a lobby operation of chat.c may do to the server.
use basic_jqr.Base.{
  ℕ, ◌+◌, ◌-◌, ◌≤◌, ◌≡◌, ◌≢◌, ◌⊎◌, inl, inr, refl, List, [], ◌∷◌, ◌++◌, arith, length,
  length-append, All-append, All-left, All-right, ok, Bytes, c_str,
}
use basic_jqr.Chat.State.{Member, Lobby, World, Arrival, Message, number, text}
use basic_jqr.Chat.Ends.{Ends, returns, weight, Received}
use basic_jqr.Chat.Lobbies.{LobbyRequest, answers_to, is_named, member_name_room}
use basic_jqr.Chat.Lobbies.Search.{Counted, LobbiesCounted, FirstOf, joined, tested}

pub LobbiesCounted-change :
    (before after : List Lobby) (l l' : Lobby) (n : ℕ)
    → LobbiesCounted (before ++ l ∷ after) n
    → (Counted l → Counted l')
    → LobbiesCounted (before ++ l' ∷ after) n
LobbiesCounted-change before after l l' n c k =
    let rest = All-right Counted before (l ∷ after) c.1 in
    (
      omega (arith, c.0, length-append before (l ∷ after), length-append before (l' ∷ after)),
      All-append Counted before (l' ∷ after) (All-left Counted before (l ∷ after) c.1)
          (k rest.0, rest.1),
    )

pub LobbiesCounted-drop :
    (before after : List Lobby) (l : Lobby) (n : ℕ)
    → LobbiesCounted (before ++ l ∷ after) n
    → LobbiesCounted (before ++ after) (n - 1)
LobbiesCounted-drop before after l n c = (
  omega (arith, c.0, length-append before (l ∷ after), length-append before after),
  All-append Counted before after (All-left Counted before (l ∷ after) c.1)
      (All-right Counted before (l ∷ after) c.1).1,
)

pub LobbiesCounted-add :
    (ls : List Lobby) (l : Lobby) (n : ℕ)
    → LobbiesCounted ls n
    → Counted l
    → LobbiesCounted (ls ++ l ∷ []) (n + 1)
LobbiesCounted-add ls l n c k =
    (omega (arith, c.0, length-append ls (l ∷ [])), All-append Counted ls (l ∷ []) c.1 (k, tt))

-- What `list_lobbies` sends to a socket for each lobby.
abbrev pub names_for : ℕ → List Lobby → List (ℕ × Message)
names_for fd [] = []
names_for fd (l ∷ ls) = (fd, number l.name_len) ∷ (fd, text l.lobby_name) ∷ names_for fd ls

pub empty_or_not : (ls : List Lobby) → (ls ≡ []) ⊎ (ls ≢ [])
empty_or_not [] = inl refl
empty_or_not (l ∷ ls) = inr λ e. cc

module _ {S : Type 0} where
  -- What the lobby and chat operations leave alone, and that they only take from what is to arrive.
  pub record Apart (w w' : World S) : Type 0 where
    pub ht : w'.ht ≡ w.ht
    pub client : w'.client ≡ w.client
    pub quit : w'.quit ≡ w.quit
    pub files : w'.files ≡ w.files
    pub taken : weight w'.inbox ≤ weight w.inbox

  pub Apart-refl : (w : World S) → Apart w w
  Apart-refl w = record { ht = refl; client = refl; quit = refl; files = refl; taken = omega arith }

  -- What a lobby operation may do to the lobbies, on the name that arrives: nothing; add an empty
  -- one of that name at the end or the client to the first one that answers to the name, both with
  -- the client's session; or remove the first one of the name if the one before it, or itself where
  -- it is the first, is empty.
  pub data LobbyEffect (req : LobbyRequest) (w : World S) : List Lobby → Type 0 where
    same_lobbies : LobbyEffect req w w.lobs
    lobby_added :
        (l : Lobby) (i : List Arrival)
        → Received req.lname_len w.inbox l.lobby_name i
        → l.name_len ≡ req.lname_len
        → req.session_id ≡ w.client.session_id
        → l.clients ≡ []
        → l.lobby_num ≡ w.lobs_size + 1
        → LobbyEffect req w (w.lobs ++ l ∷ [])
    member_added :
        (name : Bytes) (i : List Arrival) (m : Member)
        (f : FirstOf (answers_to name req.lname_len) w.lobs)
        → Received req.lname_len w.inbox name i
        → req.session_id ≡ w.client.session_id
        → m.name ≡ c_str w.client.uname
        → m.fd ≡ w.client.client_socket
        → LobbyEffect req w (f.before ++ joined m f.lobby ∷ f.after)
    lobby_removed :
        (name : Bytes) (i : List Arrival) (f : FirstOf (is_named name req.lname_len) w.lobs)
        → Received req.lname_len w.inbox name i
        → (tested f.before f.lobby).lobby_size ≡ 0
        → LobbyEffect req w (f.before ++ f.after)

  abbrev pub LobbyPost : {A : Type 0} → LobbyRequest → World S → A → World S → Type 0
  LobbyPost req w a w' =
      Apart w w' × LobbiesCounted w'.lobs w'.lobs_size × LobbyEffect req w w'.lobs

  -- Undefined behaviour: a name of the client too long for the room of a member's name, or a
  -- destruction with no lobby in the list.
  abbrev pub LobbyFault : World S → Type 0
  LobbyFault w = (member_name_room ≤ length (c_str w.client.uname)) ⊎ (w.lobs ≡ [])

  pub idle :
      {A : Type 0} {a : A} {req : LobbyRequest} (w : World S) (inbox : List Arrival)
      (sent : List (ℕ × Message))
      → LobbiesCounted w.lobs w.lobs_size
      → weight inbox ≤ weight w.inbox
      → Ends (LobbyFault w) (LobbyPost req w) (ok (a, record w { inbox = inbox; sent = sent }))
  idle w inbox sent c le =
      returns (
        record { ht = refl; client = refl; quit = refl; files = refl; taken = le },
        c,
        same_lobbies,
      )
