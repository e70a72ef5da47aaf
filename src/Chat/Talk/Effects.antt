-- ===== src/Chat/Talk/Effects.antt =====
-- What a chat operation of chat.c may do to the server, and what it sends to members.
use basic_jqr.Base.{
  if◌then◌else◌, ℕ, ◌-◌, ◌≤◌, ◌≡◌, inl, inr, refl, ap, ◌∙◌, Bool, true, false, some, List, [], ◌∷◌,
  ◌++◌, arith, ◌==◌, All, ok, fault, Outcome, append_assoc, append-nil, Bytes, strncmp_eq,
  Bool-cases,
}
use basic_jqr.Chat.State.{
  Member, Lobby, ChatRequest, World, Arrival, Message, chat_header, number, text, Act,
}
use basic_jqr.Chat.Ends.{Ends, returns, weight, Received}
use basic_jqr.Chat.Lobbies.Search.{LobbiesCounted, FirstOf, FirstOf-cons}
use basic_jqr.Chat.Lobbies.Effects.{Apart}
use basic_jqr.Chat.Talk.{find_lobby, update_lobby, is_member, leave, send_others, send_members}

abbrev pub has_number : ℕ → Lobby → Bool
has_number n l = n == l.lobby_num

pub find_lobby-FirstOf :
    (n : ℕ) (ls : List Lobby) (l : Lobby)
    → find_lobby n ls ≡ some l
    → (f : FirstOf (has_number n) ls) × (f.lobby ≡ l)
      × ((l' : Lobby) → update_lobby n l' ls ≡ f.before ++ l' ∷ f.after)
unfolding find_lobby update_lobby
find_lobby-FirstOf n [] l h = absurd (cc)
find_lobby-FirstOf n (x ∷ ls) l h = elim (Bool-cases (has_number n x)) [
  | inl e ↦
      let same : x ≡ l = ground arith in
      (
        record { before = []; lobby = x; after = ls; whole = refl; passes = e; first = tt },
        same,
        λ l'. rw e,
      )
  | inr e ↦
      let (f, same, change) = find_lobby-FirstOf n ls l (rw e at h) in
      (FirstOf-cons x e f, same, λ l'. rw (e, change l'))
]

-- The members less the first one of that name.
pub record LeftBy (name : Bytes) (len : ℕ) (cs : List Member) (r : Member × List Member)
    : Type 0 where
  pub before : List Member
  pub after : List Member
  pub whole : cs ≡ before ++ r.0 ∷ after
  pub rest : r.1 ≡ before ++ after
  pub passes : is_member name len r.0 ≡ true
  pub first : All (λ c. is_member name len c ≡ false) before

-- Undefined behaviour on leaving: nobody in the list has the name.
abbrev pub NoMember : Bytes → ℕ → List Member → Type 0
NoMember name len cs = All (λ c. is_member name len c ≡ false) cs

pub data Leaves (name : Bytes) (len : ℕ) (cs : List Member)
    : Outcome (Member × List Member) → Type 0 where
  gone : {r : Member × List Member} → LeftBy name len cs r → Leaves name len cs (ok r)
  nobody : NoMember name len cs → Leaves name len cs fault

Leaves-cons :
    (name : Bytes) (len : ℕ) (c : Member) (cs : List Member) (o : Outcome (Member × List Member))
    → is_member name len c ≡ false
    → Leaves name len cs o
    → Leaves name len (c ∷ cs) (elim o [
      | ok (m, cs') ↦ ok (m, c ∷ cs')
      | fault ↦ fault
      | Outcome.out_of_fuel ↦ Outcome.out_of_fuel
    ])
Leaves-cons name len c cs _ e (gone l) = gone (record {
  before = c ∷ l.before;
  after = l.after;
  whole = ap (λ xs. c ∷ xs) l.whole;
  rest = ap (λ xs. c ∷ xs) l.rest;
  passes = l.passes;
  first = (e, l.first);
})
Leaves-cons name len c cs _ e (nobody all) = nobody (e, all)

-- Leaving a list of members removes the first one of that name, and is undefined if there is none.
pub leave-Leaves :
    (name : Bytes) (len : ℕ) (cs : List Member) → Leaves name len cs (leave name len cs)
unfolding leave
leave-Leaves name len [] = nobody tt
leave-Leaves name len (c ∷ cs) = elim (Bool-cases (is_member name len c)) [
  | inl e ↦
      rw e (
        gone
          (record { before = []; after = cs; whole = refl; rest = refl; passes = e; first = tt }))
  | inr e ↦ rw e (Leaves-cons name len c cs (leave name len cs) e (leave-Leaves name len cs))
]

-- What `send_all` sends: to each member whose name does not agree with the sender's, in order.
abbrev pub posts : ChatRequest → Bytes → Bytes → List Member → List (ℕ × Message)
posts req uname msg [] = []
posts req uname msg (c ∷ cs) =
    if strncmp_eq uname c.name req.from_uname_len
    then posts req uname msg cs
    else (c.fd, chat_header req) ∷ (c.fd, text uname) ∷ (c.fd, text msg) ∷ posts req uname msg cs

abbrev pub names_of : ℕ → List Member → List (ℕ × Message)
names_of fd [] = []
names_of fd (c ∷ cs) = (fd, number c.name_len) ∷ (fd, text c.name) ∷ names_of fd cs

module _ {S : Type 0} where
  pub send_others_lem :
      (req : ChatRequest) (uname msg : Bytes) (cs : List Member) (w : World S)
      → send_others req uname msg cs w
        ≡ ok (tt, record w { sent = w.sent ++ posts req uname msg cs })
  unfolding send_others
  send_others_lem req uname msg [] w = rw append-nil
  send_others_lem req uname msg (c ∷ cs) w =
      elim (Bool-cases (strncmp_eq uname c.name req.from_uname_len)) [
        | inl e ↦ rw e (send_others_lem req uname msg cs w)
        | inr e ↦ rw e (
            send_others_lem req uname msg cs (record w {
              sent =
                  w.sent
                  ++ (c.fd, chat_header req) ∷ []
                  ++ (c.fd, text uname) ∷ []
                  ++ (c.fd, text msg) ∷ [];
            })
            ∙ rw (append_assoc, append_assoc, append_assoc))
      ]

  pub send_members_lem :
      (cs : List Member) (w : World S)
      → send_members cs w
        ≡ ok (tt, record w { sent = w.sent ++ names_of w.client.client_socket cs })
  unfolding send_members
  send_members_lem [] w = rw append-nil
  send_members_lem (c ∷ cs) w =
      let fd = w.client.client_socket in
      send_members_lem cs
        (record w { sent = w.sent ++ (fd, number c.name_len) ∷ [] ++ (fd, text c.name) ∷ [] })
      ∙ rw (append_assoc, append_assoc)

  -- What a chat operation may do to the lobbies: nothing, or take the first member of the name
  -- that arrived out of the lobby of the request's number. That needs no session.
  pub data ChatEffect (req : ChatRequest) (w : World S) : List Lobby → Type 0 where
    same_lobbies : ChatEffect req w w.lobs
    member_left :
        (name : Bytes) (i : List Arrival) (m : Member) (cs : List Member)
        (f : FirstOf (has_number req.lobby_num) w.lobs)
        → Received req.from_uname_len w.inbox name i
        → LeftBy name req.from_uname_len f.lobby.clients (m, cs)
        → ChatEffect req w (
            f.before
            ++ record f.lobby { clients = cs; lobby_size = f.lobby.lobby_size - 1 } ∷ f.after)

  -- Undefined behaviour: the request is to leave, and the lobby of its number has no member of the
  -- name that arrived.
  abbrev pub ChatFault : ChatRequest → World S → Type 0
  ChatFault req w =
      (req.chat_flag ≡ 0x03)
      × (name : Bytes) × (i : List Arrival) × (f : FirstOf (has_number req.lobby_num) w.lobs)
      × Received req.from_uname_len w.inbox name i
      × NoMember name req.from_uname_len f.lobby.clients

  abbrev pub ChatPost : {A : Type 0} → ChatRequest → World S → A → World S → Type 0
  ChatPost req w a w' = Apart w w' × LobbiesCounted w'.lobs w'.lobs_size × ChatEffect req w w'.lobs

  -- Only sending and receiving.
  pub idle :
      {A F : Type 0} {a : A} {req : ChatRequest} (w : World S) (inbox : List Arrival)
      (sent : List (ℕ × Message))
      → LobbiesCounted w.lobs w.lobs_size
      → weight inbox ≤ weight w.inbox
      → Ends F (ChatPost req w) (ok (a, record w { inbox = inbox; sent = sent }))
  idle w inbox sent c le =
      returns (
        record { ht = refl; client = refl; quit = refl; files = refl; taken = le },
        c,
        same_lobbies,
      )

  abbrev pub Keeps : {A : Type 0} → ChatRequest → World S → Act S A → Type 0
  Keeps req w m = Ends (ChatFault req w) (ChatPost req w) (m w)
