-- ===== src/Chat/Lobbies/Search.antt =====
-- Which lobby of chat.c is joined and which is destroyed, and the counts that lobbies keep.
use basic_jqr.Base.{
  ℕ, ◌+◌, ◌%◌, ◌<◌, ◌≡◌, ◌≢◌, inl, inr, refl, sym, ap, ◌∙◌, Bool, true, false, none, some, List, [],
  ◌∷◌, ◌++◌, arith, ltb→lt, ltb, length, All, ok, Returns, Bytes, Bool-cases, Option-cases,
}
use basic_jqr.Chat.State.{Member, Lobby}
use basic_jqr.Chat.Lobbies.{
  answers_to, is_named, join, Destroyed, absent, occupied, left, keep_first, destroy_next,
  destroy_from,
}

-- The counts that the lobbies keep are right.
abbrev pub Counted : Lobby → Type 0
Counted l = l.lobby_size ≡ length l.clients

abbrev pub LobbiesCounted : List Lobby → ℕ → Type 0
LobbiesCounted ls n = (n ≡ length ls) × All Counted ls

-- The first lobby of `ls` for which the test holds, and what is before and after it.
pub record FirstOf (test : Lobby → Bool) (ls : List Lobby) : Type 0 where
  pub before : List Lobby
  pub lobby : Lobby
  pub after : List Lobby
  pub whole : ls ≡ before ++ lobby ∷ after
  pub passes : test lobby ≡ true
  pub first : All (λ l. test l ≡ false) before

abbrev pub FirstOf-cons :
    {test : Lobby → Bool} {ls : List Lobby} (l : Lobby)
    → test l ≡ false
    → FirstOf test ls
    → FirstOf test (l ∷ ls)
FirstOf-cons l e f = record {
  before = l ∷ f.before;
  lobby = f.lobby;
  after = f.after;
  whole = ap (λ xs. l ∷ xs) f.whole;
  passes = f.passes;
  first = (e, f.first);
}

-- The lobby as `join` leaves it.
abbrev pub joined : Member → Lobby → Lobby
joined m l = record l {
  clients = l.clients ++ (record m { lobby_num = l.lobby_num % 256 }) ∷ [];
  lobby_size = l.lobby_size + 1;
}

pub join-FirstOf :
    (name : Bytes) (n : ℕ) (m : Member) (ls : List Lobby) (k : ℕ) (ls' : List Lobby)
    → join name n m ls ≡ some (k, ls')
    → (f : FirstOf (answers_to name n) ls) × (ls' ≡ f.before ++ joined m f.lobby ∷ f.after)
      × (k ≡ f.lobby.lobby_num % 256)
unfolding join
join-FirstOf name n m [] k ls' h = absurd (cc)
join-FirstOf name n m (l ∷ ls) k ls' h = elim (Bool-cases (answers_to name n l)) [
  | inl e ↦
      let same : some (l.lobby_num % 256, joined m l ∷ ls) ≡ some (k, ls') = rw e at h in
      (
        record { before = []; lobby = l; after = ls; whole = refl; passes = e; first = tt },
        ground arith,
        ground arith,
      )
  | inr e ↦ elim (Option-cases (join name n m ls)) [
    | inl none_left ↦ absurd (let h' : none ≡ some (k, ls') = rw (e, none_left) at h in cc)
    | inr ((k', ls''), got) ↦
        let h' : some (k', l ∷ ls'') ≡ some (k, ls') = rw (e, got) at h in
        let (f, new, number) = join-FirstOf name n m ls k' ls'' got in
        let tail : l ∷ ls'' ≡ ls' = ground arith in
        let same : k' ≡ k = ground arith in
        (FirstOf-cons l e f, sym tail ∙ ap (λ xs. l ∷ xs) new, sym same ∙ number)
  ]
]

-- The lobby whose size decides whether the one found may go: the one before it, if there is one.
abbrev pub tested : List Lobby → Lobby → Lobby
tested [] l = l
tested (x ∷ []) l = x
tested (x ∷ y ∷ ys) l = tested (y ∷ ys) l

-- What the search of `destroy_lobby` finds in a list of lobbies.
pub data Verdict (test : Lobby → Bool) (ls : List Lobby) : Destroyed → Type 0 where
  none_named : All (λ l. test l ≡ false) ls → Verdict test ls absent
  stays :
      (f : FirstOf test ls) → 0 < (tested f.before f.lobby).lobby_size → Verdict test ls occupied
  goes :
      (f : FirstOf test ls)
      → (tested f.before f.lobby).lobby_size ≡ 0
      → Verdict test ls (left (f.before ++ f.after))

tested-cons :
    (test : Lobby → Bool) (l next : Lobby) (ls before after : List Lobby) (found : Lobby)
    → test next ≡ false
    → test found ≡ true
    → next ∷ ls ≡ before ++ found ∷ after
    → tested (l ∷ before) found ≡ tested before found
tested-cons test l next ls [] after found e passes whole =
    let same : next ≡ found = ground arith in absurd (cc (ap test same, e, passes))
tested-cons test l next ls (x ∷ before) after found e passes whole = refl

module _ {test : Lobby → Bool} where
  Verdict-cons :
      (l next : Lobby) (ls : List Lobby) (d : Destroyed)
      → test l ≡ false
      → test next ≡ false
      → Verdict test (next ∷ ls) d
      → Verdict test (l ∷ next ∷ ls) (keep_first l d)
  Verdict-cons l next ls _ el e (none_named all) = none_named (el, all)
  Verdict-cons l next ls _ el e (stays f size) =
      let same = tested-cons test l next ls f.before f.after f.lobby e f.passes f.whole in
      stays (FirstOf-cons l el f) (rw same size)
  Verdict-cons l next ls _ el e (goes f size) =
      let same = tested-cons test l next ls f.before f.after f.lobby e f.passes f.whole in
      goes (FirstOf-cons l el f) (rw same size)

zero_of_ltb : (a : ℕ) → ltb 0 a ≡ false → a ≡ 0
zero_of_ltb a h = ground arith

destroy_next-Verdict :
    (name : Bytes) (n : ℕ) (l : Lobby) (ls : List Lobby)
    → is_named name n l ≡ false
    → Verdict (is_named name n) (l ∷ ls) (destroy_next name n l ls)
unfolding destroy_next
destroy_next-Verdict name n l [] el = none_named (el, tt)
destroy_next-Verdict name n l (next ∷ ls) el =
    let at : is_named name n next ≡ true → FirstOf (is_named name n) (l ∷ next ∷ ls) = λ e. record {
      before = l ∷ [];
      lobby = next;
      after = ls;
      whole = refl;
      passes = e;
      first = (el, tt);
    } in
    elim (Bool-cases (is_named name n next)) [
      | inl e ↦ elim (Bool-cases (ltb 0 l.lobby_size)) [
        | inl big ↦ rw (e, big) (stays (at e) (ltb→lt 0 l.lobby_size big))
        | inr small ↦ rw (e, small) (goes (at e) (zero_of_ltb l.lobby_size small))
      ]
      | inr e ↦ rw e (Verdict-cons l next ls _ el e (destroy_next-Verdict name n next ls e))
    ]

-- Between an empty lobby and the rest, the lobby of that name is destroyed with its members.
pub destroy_from_occupied :
    (name : Bytes) (n : ℕ) (empty full : Lobby) (ls : List Lobby)
    → is_named name n empty ≡ false
    → empty.lobby_size ≡ 0
    → is_named name n full ≡ true
    → destroy_from name n (empty ∷ full ∷ ls) ≡ ok (left (empty ∷ ls))
unfolding destroy_from destroy_next
destroy_from_occupied name n empty full ls other size e = rw (other, e, size)

-- `destroy_lobby` finds the first lobby of that name and length, and removes just that one; but
-- whether it may go is read off the lobby before it in the list, unless it is the first.
pub destroy_from-Verdict :
    (name : Bytes) (n : ℕ) (ls : List Lobby)
    → ls ≢ []
    → Returns (Verdict (is_named name n) ls) (destroy_from name n ls)
unfolding destroy_from
destroy_from-Verdict name n [] some_lobby = absurd (some_lobby refl)
destroy_from-Verdict name n (l ∷ ls) some_lobby =
    let at : is_named name n l ≡ true → FirstOf (is_named name n) (l ∷ ls) =
      λ e. record { before = []; lobby = l; after = ls; whole = refl; passes = e; first = tt } in
    elim (Bool-cases (is_named name n l)) [
      | inl e ↦ elim (Bool-cases (ltb 0 l.lobby_size)) [
        | inl big ↦ rw (e, big) (stays (at e) (ltb→lt 0 l.lobby_size big))
        | inr small ↦ rw (e, small) (goes (at e) (zero_of_ltb l.lobby_size small))
      ]
      | inr e ↦ rw e (destroy_next-Verdict name n l ls e)
    ]
