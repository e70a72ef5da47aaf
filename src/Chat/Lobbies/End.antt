-- ===== src/Chat/Lobbies/End.antt =====
-- destroy_lobbies of chat.c frees all that the lobbies hold.
use basic_jqr.Base.{
  ℕ, ◌≡◌, refl, false, List, [], ◌∷◌, ◌++◌, arith, length, All, Bool-cases, inl, inr, ltb,
}
use basic_jqr.Chat.State.{Lobby, Member}
use basic_jqr.Chat.Lobbies.{destroy_lobbies}

abbrev all_members : List Lobby → List Member
all_members [] = []
all_members (l ∷ ls) = l.clients ++ all_members ls

passed_over : (ms : List Member) (n : ℕ) → n ≡ length ms → ltb 0 n ≡ false → ms ≡ []
passed_over [] n e z = refl
passed_over (m ∷ ms) n e z = absurd (ground (arith, e, z))

-- Where each lobby's count is that of its members, `destroy_lobbies` frees every member of every
-- lobby, once, and every lobby.
destroy_lobbies_lem :
    (ls : List Lobby)
    → All (λ l. l.lobby_size ≡ length l.clients) ls
    → destroy_lobbies ls ≡ (all_members ls, ls)
unfolding destroy_lobbies
destroy_lobbies_lem [] c = refl
destroy_lobbies_lem (l ∷ ls) c = elim (Bool-cases (ltb 0 l.lobby_size)) [
  | inl big ↦ rw (big, destroy_lobbies_lem ls c.1) refl
  | inr small ↦
      rw (small, destroy_lobbies_lem ls c.1, passed_over l.clients l.lobby_size c.0 small) refl
]
