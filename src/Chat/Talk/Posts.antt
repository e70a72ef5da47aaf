-- ===== src/Chat/Talk/Posts.antt =====
-- What `send_all` of chat.c sends, and to whom.
use basic_jqr.Base.{
  ℕ, refl, ap, ◌∙◌, [], ◌∷◌, Bool-cases, inl, inr, if◌then◌else◌, strncmp_eq, append-nil, ◌≡◌,
  false, some, List, ◌++◌, arith, not, ◌==◌, Bytes, c_str, ok, htons, htonl,
}
use basic_jqr.Chat.State.{
  recv, recv_buffer, Member, Message, text, chat_header, Lobby, ChatRequest, World, Arrival,
  take_arrival, padded,
}
use basic_jqr.Chat.Talk.{find_lobby, send_all}
use basic_jqr.Chat.Talk.Effects.{posts, send_others_lem}

-- The request as it is passed on: two lengths and the session in network order.
abbrev pub passed_on : ChatRequest → ChatRequest
passed_on req = record req {
  from_uname_len = htons req.from_uname_len;
  message_len = htons req.message_len;
  session_id = htonl req.session_id;
}

-- The members whose name does not agree with the sender's over a length.
abbrev pub others : Bytes → ℕ → List Member → List Member
others name len [] = []
others name len (c ∷ cs) =
    let rest = others name len cs in if strncmp_eq name c.name len then rest else c ∷ rest

-- The request, the name and the text to each of some members.
abbrev pub mail : ChatRequest → Bytes → Bytes → List Member → List (ℕ × Message)
mail req uname msg [] = []
mail req uname msg (c ∷ cs) =
    (c.fd, chat_header req) ∷ (c.fd, text uname) ∷ (c.fd, text msg) ∷ mail req uname msg cs

posts-mail :
    (req : ChatRequest) (uname msg : Bytes) (cs : List Member)
    → posts req uname msg cs ≡ mail req uname msg (others uname req.from_uname_len cs)
posts-mail req uname msg [] = refl
posts-mail req uname msg (c ∷ cs) = elim (Bool-cases (strncmp_eq uname c.name req.from_uname_len)) [
  | inl agrees ↦ rw (agrees) (posts-mail req uname msg cs)
  | inr other ↦ rw (other, posts-mail req uname msg cs) refl
]

module _ {S : Type 0} where
  -- A message to a lobby, with the client's session, whose two parts arrive, where there is a lobby
  -- of its number: in the first such lobby, unless that counts just one member, each member whose
  -- name does not agree with the sender's over the length as passed on, in network order, is sent
  -- the request, the name and the text, in the order of the members. In a lobby that counts one
  -- member nobody is sent anything. Nothing else is sent, and nothing else changes.
  pub send_all-sent :
      (req : ChatRequest) (w : World S) (uname msg : Bytes) (i₁ i₂ : List Arrival) (l : Lobby)
      → req.session_id ≡ w.client.session_id
      → take_arrival req.from_uname_len w.inbox ≡ (some uname, i₁)
      → take_arrival req.message_len i₁ ≡ (some msg, i₂)
      → find_lobby req.lobby_num w.lobs ≡ some l
      → send_all req w ≡ (
          let name = c_str (padded req.from_uname_len uname) in
          ok (
            tt,
            record w {
              inbox = i₂;
              sent =
                  w.sent
                  ++ mail (passed_on req) name (c_str (padded req.message_len msg)) (
                      if l.lobby_size == 1
                      then []
                      else others name (htons req.from_uname_len) l.clients);
            },
          ))
  unfolding send_all recv recv_buffer
  send_all-sent req w uname msg i₁ i₂ l same got got' found =
      let e : not (req.session_id == w.client.session_id) ≡ false = ground arith in
      let name = c_str (padded req.from_uname_len uname) in
      let words = c_str (padded req.message_len msg) in
      elim (Bool-cases (l.lobby_size == 1)) [
        | inl alone ↦ rw (e, got, got', found, alone, append-nil) refl
        | inr several ↦
            rw (e, got, got', found, several)
              (send_others_lem (passed_on req) name words l.clients (record w { inbox = i₂ })
                ∙ ap (λ ms. ok (tt, record w { inbox = i₂; sent = w.sent ++ ms }))
                    (posts-mail (passed_on req) name words l.clients))
      ]
