-- ===== src/Chat/Files/Effects.antt =====
-- What the file operations of chat.c that `handle_connection` reaches may do to the files.
use basic_jqr.Base.{
  eq_of_not, ge_of_ltb, get_or, ntohs, ntohl, ℕ, ◌≤◌, ◌≡◌, ◌≢◌, ◌⊎◌, inl, inr, refl, false, none,
  some, List, arith, if◌then◌else◌, ltb, ◌==◌, not, length, ok, Bytes, ℤ, pos, negsuc, Bool-cases,
}
use basic_jqr.Chat.State.{
  World, Arrival, take_arrival, Message, Act, ◌>>◌, server_response, if_some, pure, when,
}
use basic_jqr.Chat.Ends.{
  Ends, returns, Ends-when, Ends-if_some, weight, Took, Received, Ends-recv, Ends-recv_buffer,
}
use basic_jqr.Chat.Files.{
  set_files, fail, Os, full_path, max_path, max_file_name, header, write_out, put_file,
  make_directory,
}

module _ {S : Type 0} (os : Os S) where
  -- What a file operation leaves alone, and that it only takes from what is to arrive.
  pub record Beside (w w' : World S) : Type 0 where
    pub ht : w'.ht ≡ w.ht
    pub lobs : w'.lobs ≡ w.lobs
    pub lobs_size : w'.lobs_size ≡ w.lobs_size
    pub client : w'.client ≡ w.client
    pub quit : w'.quit ≡ w.quit
    pub taken : weight w'.inbox ≤ weight w.inbox

  -- The header that arrived carries the client's session, and the client has level 2 or more.
  abbrev pub Allowed : World S → Bytes → Type 0
  Allowed w bs = (ntohl bs 3 ≡ w.client.session_id) × (2 ≤ w.client.perms)

  -- The header of 11 bytes that comes first, which is allowed, and the name that comes behind it,
  -- of the length that the header gives.
  abbrev pub Named : World S → Bytes → Bytes → List Arrival → List Arrival → Type 0
  Named w bs name i i₁ =
      (take_arrival 11 w.inbox ≡ (some bs, i))
      × Allowed w bs
      × (ntohs bs 1 ≤ max_file_name)
      × Received (ntohs bs 1) i name i₁

  -- And the bytes that come last.
  abbrev pub ToPut :
      World S → Bytes → Bytes → Bytes → List Arrival → List Arrival → List Arrival → Type 0
  ToPut w bs name bytes i i₁ i₂ = Named w bs name i i₁ × Received (ntohl bs 7) i₁ bytes i₂

  -- What `put_file` may do to the files: nothing, with the result -1; or write the bytes that
  -- arrived to the file of the name that arrived, which did not exist or was to be overwritten,
  -- with the result 0 if all was written.
  pub data PutEffect (w : World S) : ℤ → S → Type 0 where
    not_written : PutEffect w (negsuc 0) w.files
    written :
        (bs name bytes : Bytes) (i i₁ i₂ : List Arrival) (s : S)
        → ToPut w bs name bytes i i₁ i₂
        → (os.open_read w.files (full_path w.client name) ≡ none) ⊎ (get_or bs 0 0 ≢ 0)
        → os.open_write w.files (full_path w.client name) ≡ some s
        → PutEffect w
            (if (os.fwrite s (full_path w.client name) bytes).0 == length bytes
              then pos 0
              else negsuc 0)
            (os.fwrite s (full_path w.client name) bytes).1

  -- What `make_directory` may do to the files: nothing, with the result -1; or make the
  -- directory of the name that arrived, which could not be opened before.
  pub data MakeEffect (w : World S) : ℤ → S → Type 0 where
    not_made : MakeEffect w (negsuc 0) w.files
    made :
        (bs name : Bytes) (i i₁ : List Arrival)
        → Named w bs name i i₁
        → os.opendir w.files (full_path w.client name) ≡ none
        → MakeEffect w
            (if (os.mkdir w.files (full_path w.client name)).0 then pos 0 else negsuc 0)
            (os.mkdir w.files (full_path w.client name)).1

  abbrev pub Post : (ℤ → S → Type 0) → World S → ℤ → World S → Type 0
  Post Effect w code w' = Beside w w' × Effect code w'.files

  pub header-Ends :
      (w : World S) (n : ℕ) {F : Type 0} {Q : ℤ → World S → Type 0} (k : Bytes → Act S ℤ)
      → ((i : List Arrival) → weight i ≤ weight w.inbox → Q (negsuc 0) (record w { inbox = i }))
      → ((i : List Arrival) (bs : Bytes)
          → weight i ≤ weight w.inbox
          → take_arrival n w.inbox ≡ (some bs, i)
          → Ends F Q (k bs (record w { inbox = i })))
      → Ends F Q (header os n k w)
  header-Ends w n {F} {Q} k lost came = Ends-recv w n _ λ got i took arrived.
      elim got
          as (λ g.
            Took n w.inbox (g, i)
            → take_arrival n w.inbox ≡ (g, i)
            → Ends F Q (if_some g (pure (negsuc 0)) k (record w { inbox = i }))) [
              | none ↦ λ t e. returns (lost i t)
              | some bs ↦ λ t e. came i bs (omega (arith, t.1)) e
            ]
        took arrived

  module _ (w : World S) (inbox : List Arrival) (le : weight inbox ≤ weight w.inbox) where
    abbrev pub around :
        (sent : List (ℕ × Message)) (s : S)
        → Beside w (record w { inbox = inbox; sent = sent; files = s })
    around sent s = record {
      ht = refl;
      lobs = refl;
      lobs_size = refl;
      client = refl;
      quit = refl;
      taken = le;
    }

    not_made-Ends :
        (sent : List (ℕ × Message))
        → Ends ⊥ (Post (MakeEffect w) w) (ok (negsuc 0, record w { inbox = inbox; sent = sent }))
    not_made-Ends sent = returns (around sent w.files, not_made)

    not_written-Ends :
        (sent : List (ℕ × Message))
        → Ends ⊥ (Post (PutEffect w) w) (ok (negsuc 0, record w { inbox = inbox; sent = sent }))
    not_written-Ends sent = returns (around sent w.files, not_written)

    -- The end of `make_directory`, on what `mkdir` returned.
    make_end :
        (bs name : Bytes) (i : List Arrival)
        → Named w bs name i inbox
        → os.opendir w.files (full_path w.client name) ≡ none
        → Ends ⊥ (Post (MakeEffect w) w) (
            (let (did, s) = os.mkdir w.files (full_path w.client name) in
                do set_files os s; when did (do server_response 1; pure (pos 0)) (fail os 0xff))
              (record w { inbox = inbox }))
    make_end bs name i allowed none_there =
        let m : MakeEffect w
            (if (os.mkdir w.files (full_path w.client name)).0 then pos 0 else negsuc 0)
            (os.mkdir w.files (full_path w.client name)).1 =
          made bs name i inbox allowed none_there in
        elim (Bool-cases (os.mkdir w.files (full_path w.client name)).0) [
          | inl e ↦ rw e (returns (around _ _, rw e at m))
          | inr e ↦ rw e (returns (around _ _, rw e at m))
        ]

  -- Making a directory comes to an end and is never undefined. It leaves the users, the lobbies and
  -- the client as they are, and the files as well, with the result -1, unless the header carries
  -- the client's session, the client has level 2 or more, and no directory could be opened at the
  -- path that the name that arrived gives in the client's directory: then `mkdir` is called for it,
  -- and the result is 0 if that succeeds.
  pub make_directory-Ends : (w : World S) → Ends ⊥ (Post (MakeEffect w) w) (make_directory os w)
  unfolding make_directory
  make_directory-Ends w =
      header-Ends w 11 _ (λ i le. (around w i le w.sent w.files, not_made))
        λ i bs le arrived.
          Ends-when _ (not (ntohl bs 3 == w.client.session_id)) _ _ (λ e. not_made-Ends w i le _)
            λ same.
              Ends-when _ (ltb w.client.perms 2) _ _ (λ e. not_made-Ends w i le _)
                λ high.
                  Ends-when _ (ltb max_file_name (ntohs bs 1)) _ _ (λ e. not_made-Ends w i le _)
                    λ short.
                      Ends-recv_buffer (record w { inbox = i }) (ntohs bs 1) _ _
                        (λ i' le'. not_made-Ends w i' (omega (arith, le, le')) _)
                        λ i' name le' full came.
                          let path = full_path w.client name in
                          Ends-when _ (not (os.memory max_path)) _ _
                            (λ e. not_made-Ends w i' (omega (arith, le, le')) _)
                            λ room.
                              Ends-if_some _ (os.opendir w.files path) _ _
                                (λ none_there.
                                  make_end w i' (omega (arith, le, le')) bs name i
                                    (
                                      arrived,
                                      (
                                        eq_of_not (ntohl bs 3) w.client.session_id same,
                                        ge_of_ltb w.client.perms 2 high,
                                      ),
                                      ge_of_ltb max_file_name (ntohs bs 1) short,
                                      came,
                                    )
                                    none_there)
                                λ old e. not_made-Ends w i' (omega (arith, le, le')) _

  -- The end of `put_file`, once the name and the bytes have arrived.
  write_out-Ends :
      (w : World S) (inbox i i₁ : List Arrival) (bs name bytes : Bytes)
      → weight inbox ≤ weight w.inbox
      → ToPut w bs name bytes i i₁ inbox
      → (os.open_read w.files (full_path w.client name) ≡ none) ⊎ (get_or bs 0 0 ≢ 0)
      → Ends ⊥
          (Post (PutEffect w) w)
          (write_out os (full_path w.client name) bytes (record w { inbox = inbox }))
  unfolding write_out
  write_out-Ends w inbox i i₁ bs name bytes le allowed may =
      let path = full_path w.client name in
      Ends-if_some (record w { inbox = inbox }) (os.open_write w.files path) _ _
        (λ e. not_written-Ends w inbox le _)
        λ s e.
          let put : PutEffect w
              (if (os.fwrite s path bytes).0 == length bytes then pos 0 else negsuc 0)
              (os.fwrite s path bytes).1 =
            written bs name bytes i i₁ inbox s allowed may e in
          elim (Bool-cases ((os.fwrite s path bytes).0 == length bytes)) [
            | inl full ↦ rw full (returns (around w inbox le _ _, rw full at put))
            | inr short ↦ rw short (returns (around w inbox le _ _, rw short at put))
          ]

  not_zero : (a : ℕ) → (a == 0) ≡ false → a ≢ 0
  not_zero a h e = ground arith

  -- A put comes to an end and is never undefined. It leaves the users, the lobbies and the client
  -- as they are, and the files as well, with the result -1, unless the header carries the client's
  -- session, the client has level 2 or more, and the file did not exist or is to be overwritten:
  -- then the file of the name that arrived, in the client's directory, is opened, the bytes that
  -- arrived are written, and the result is 0 if all were.
  pub put_file-Ends : (w : World S) → Ends ⊥ (Post (PutEffect w) w) (put_file os w)
  unfolding put_file
  put_file-Ends w =
      header-Ends w 11 _ (λ i le. (around w i le w.sent w.files, not_written))
        λ i bs le arrived.
          Ends-when _ (not (ntohl bs 3 == w.client.session_id)) _ _ (λ e. not_written-Ends w i le _)
            λ same.
              Ends-when _ (ltb w.client.perms 2) _ _ (λ e. not_written-Ends w i le _)
                λ high.
                  Ends-when _ (ltb max_file_name (ntohs bs 1)) _ _ (λ e. not_written-Ends w i le _)
                    λ short.
                      Ends-recv_buffer (record w { inbox = i }) (ntohs bs 1) _ _
                        (λ i₁ le₁. not_written-Ends w i₁ (omega (arith, le, le₁)) _)
                        λ i₁ name le₁ full came.
                          let path = full_path w.client name in
                          let named : Named w bs name i i₁ = (
                            arrived,
                            (
                              eq_of_not (ntohl bs 3) w.client.session_id same,
                              ge_of_ltb w.client.perms 2 high,
                            ),
                            ge_of_ltb max_file_name (ntohs bs 1) short,
                            came,
                          ) in
                          Ends-when _ (not (os.memory max_path)) _ _
                            (λ e. not_written-Ends w i₁ (omega (arith, le, le₁)) _)
                            λ room.
                              Ends-when _ (not (os.memory (ntohl bs 7))) _ _
                                (λ e. not_written-Ends w i₁ (omega (arith, le, le₁)) _)
                                λ room'.
                                  Ends-recv_buffer (record w { inbox = i₁ }) (ntohl bs 7) _ _
                                    (λ i₂ le₂.
                                      not_written-Ends w i₂ (omega (arith, le, le₁, le₂)) _)
                                    λ i₂ bytes le₂ full₂ came₂.
                                      Ends-if_some _ (os.open_read w.files path) _ _
                                        (λ e.
                                          write_out-Ends w i₂ i i₁ bs name bytes
                                            (omega (arith, le, le₁, le₂)) (named, came₂) (inl e))
                                        λ old e.
                                          Ends-when _ (get_or bs 0 0 == 0) _ _
                                            (λ keep.
                                              not_written-Ends w i₂ (omega (arith, le, le₁, le₂)) _)
                                            λ over.
                                              write_out-Ends w i₂ i i₁ bs name bytes
                                                (omega (arith, le, le₁, le₂)) (named, came₂)
                                                (inr (not_zero (get_or bs 0 0) over))
