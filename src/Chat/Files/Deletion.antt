-- ===== src/Chat/Files/Deletion.antt =====
-- The deletion of files by chat.c, and what it asks of the client.
use basic_jqr.Base.{
  ltb→lt, ge_of_ltb, ◌<◌, Bool, [], ◌∷◌, ◌++◌, append_assoc, ℕ, ◌+◌, ◌≤◌, ◌≡◌, refl, sym, true,
  false, some, List, arith, if◌then◌else◌, ltb, ◌==◌, not, length, Bytes, c_str, ntohs, ntohl, ℤ,
  pos, negsuc, Bool-cases, inl, inr, eq_of_not, ok,
}
use basic_jqr.Chat.State.{
  World, Arrival, Message, response, take_arrival, padded, ◌>>◌, server_response, pure, when, recv,
  recv_buffer,
}
use basic_jqr.Chat.Ends.{Ends, returns, faults, Received, Ends-when, Ends-recv_buffer, weight}
use basic_jqr.Chat.Files.{
  Os, full_path, max_file_name, set_files, fail, delete_checked, delete_remote,
}
use basic_jqr.Chat.Files.Effects.{Beside, header-Ends, around}

module _ {S : Type 0} (os : Os S) where
  -- The header that comes first, with the client's session, and the name that comes behind it.
  abbrev pub ToDelete : World S → Bytes → Bytes → List Arrival → List Arrival → Type 0
  ToDelete w bs name i i₁ =
      (take_arrival 7 w.inbox ≡ (some bs, i))
      × (ntohl bs 3 ≡ w.client.session_id)
      × (ntohs bs 1 ≤ max_file_name)
      × Received (ntohs bs 1) i name i₁

  -- What a deletion may do to the files: nothing, with the result -1; or remove what is at the path
  -- of the name that arrived. It wants the client's session and no level.
  pub data DeleteEffect (w : World S) : ℤ → S → Type 0 where
    not_removed : DeleteEffect w (negsuc 0) w.files
    removed :
        (bs name : Bytes) (i i₁ : List Arrival)
        → ToDelete w bs name i i₁
        → DeleteEffect w
            (if (os.remove w.files (full_path w.client name)).0 then pos 0 else negsuc 0)
            (os.remove w.files (full_path w.client name)).1

  -- Undefined behaviour: of the header, which is not cleared, less than its 7 bytes arrive.
  abbrev pub ShortHeader : World S → Type 0
  ShortHeader w =
      (bs : Bytes) × (i : List Arrival) × (take_arrival 7 w.inbox ≡ (some bs, i)) × (length bs < 7)

  abbrev pub DeletePost : World S → ℤ → World S → Type 0
  DeletePost w code w' = Beside os w w' × DeleteEffect w code w'.files

  module _ (w : World S) (sent₀ : List (ℕ × Message)) where
    abbrev answered : World S
    answered = record w { sent = sent₀ }

    not_removed-Ends :
        (i : List Arrival) (le : weight i ≤ weight w.inbox) (sent : List (ℕ × Message))
        → Ends (ShortHeader w) (DeletePost w) (ok (negsuc 0, record w { inbox = i; sent = sent }))
    not_removed-Ends i le sent = returns (around os w i le sent w.files, not_removed)

    remove_end :
        (i i₁ : List Arrival) (bs name : Bytes)
        → weight i₁ ≤ weight w.inbox
        → ToDelete w bs name i i₁
        → Ends (ShortHeader w) (DeletePost w) (
            (let (did, s) = os.remove w.files (full_path w.client name) in
                do set_files os s; when did (do server_response 1; pure (pos 0)) (fail os 0xff))
              (record w { inbox = i₁; sent = sent₀ }))
    remove_end i i₁ bs name le named =
        let path = full_path w.client name in
        let d : DeleteEffect w (if (os.remove w.files path).0 then pos 0 else negsuc 0)
            (os.remove w.files path).1 =
          removed bs name i i₁ named in
        elim (Bool-cases (os.remove w.files path).0) [
          | inl e ↦ rw e (returns (around os w i₁ le _ _, rw e at d))
          | inr e ↦ rw e (returns (around os w i₁ le _ _, rw e at d))
        ]

    delete_checked-Ends : Ends (ShortHeader w) (DeletePost w) (delete_checked os answered)
    unfolding delete_checked
    delete_checked-Ends =
        header-Ends os answered 7 _ (λ i le. (around os w i le sent₀ w.files, not_removed))
          λ i bs le arrived.
            Ends-when _ (ltb (length bs) 7) _ _
              (λ less. faults (bs, i, arrived, ltb→lt (length bs) 7 less))
              λ whole.
                Ends-when _ (ltb max_file_name (ntohs bs 1)) _ _ (λ e. not_removed-Ends i le _)
                  λ short.
                    Ends-when _ (not (w.client.session_id == ntohl bs 3)) _ _
                      (λ e. not_removed-Ends i le _)
                      λ same.
                        Ends-recv_buffer (record answered { inbox = i }) (ntohs bs 1) _ _
                          (λ i' le'. not_removed-Ends i' (omega (arith, le, le')) _)
                          λ i' name le' full came.
                            Ends-when _
                              (not (os.memory (length w.client.dir + length (c_str name) + 1))) _ _
                              (λ e. not_removed-Ends i' (omega (arith, le, le')) _)
                              λ room. remove_end i i' bs name (omega (arith, le, le')) (
                                arrived,
                                sym (eq_of_not w.client.session_id (ntohl bs 3) same),
                                ge_of_ltb max_file_name (ntohs bs 1) short,
                                came,
                              )

  -- A deletion comes to an end and is undefined only if less than its header arrives. If it
  -- returns, it leaves the users, the lobbies and the client as they are, and the files as well,
  -- with the result -1, unless the header carries the client's session: then what is at the path
  -- that the name that arrived gives in the client's directory is removed, and the result is 0 if
  -- that succeeds.
  pub delete_remote-Ends : (w : World S) → Ends (ShortHeader w) (DeletePost w) (delete_remote os w)
  unfolding delete_remote
  delete_remote-Ends w = elim (Bool-cases (ltb w.client.perms 3)) [
    | inl low ↦ rw low (delete_checked-Ends w _)
    | inr high ↦ rw high (delete_checked-Ends w w.sent)
  ]

  -- What the client is told: of a level below 3 first that it lacks the permission, and then
  -- whether the removal succeeded.
  abbrev pub told : World S → Bool → List (ℕ × Message)
  told w did =
      (if ltb w.client.perms 3 then (w.client.client_socket, response 0x03 0) ∷ [] else [])
      ++ (w.client.client_socket, response (if did then 0x01 else 0xff) 0) ∷ []

  -- A client of any level removes the file that it names: after a whole header with its session and
  -- a name that arrive, and with memory, the files are as the removal of that path leaves them, and
  -- the result is that of the removal, although a client of a level below 3 is told first that it
  -- lacks the permission. Nothing else is sent.
  pub delete_remote_removes :
      (w : World S) (bs name : Bytes) (i₁ i₂ : List Arrival)
      → take_arrival 7 w.inbox ≡ (some bs, i₁)
      → length bs ≡ 7
      → ntohl bs 3 ≡ w.client.session_id
      → ntohs bs 1 ≤ max_file_name
      → take_arrival (ntohs bs 1) i₁ ≡ (some name, i₂)
      → ((n : ℕ) → os.memory n ≡ true)
      → delete_remote os w ≡ (
          let (did, s) = os.remove w.files (full_path w.client (padded (ntohs bs 1) name)) in
          ok (
            if did then pos 0 else negsuc 0,
            record w { inbox = i₂; files = s; sent = w.sent ++ told w did },
          ))
  unfolding delete_remote delete_checked recv recv_buffer
  delete_remote_removes w bs name i₁ i₂ got whole same short got' memory =
      let path = full_path w.client (padded (ntohs bs 1) name) in
      let e : ltb max_file_name (ntohs bs 1) ≡ false = ground arith in
      let e' : not (w.client.session_id == ntohl bs 3) ≡ false = ground arith in
      let e'' : ltb (length bs) 7 ≡ false = ground (arith, whole) in
      elim (Bool-cases (ltb w.client.perms 3)) [
        | inl low ↦ elim (Bool-cases (os.remove w.files path).0) [
          | inl did ↦ rw (low, got, e'', e, e', got', memory, did, append_assoc) refl
          | inr did ↦ rw (low, got, e'', e, e', got', memory, did, append_assoc) refl
        ]
        | inr high ↦ elim (Bool-cases (os.remove w.files path).0) [
          | inl did ↦ rw (high, got, e'', e, e', got', memory, did) refl
          | inr did ↦ rw (high, got, e'', e, e', got', memory, did) refl
        ]
      ]
