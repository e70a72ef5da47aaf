-- ===== src/Chat/Tests.antt =====
-- Runs of the handlers on a small server: one user, two lobbies, an administrator's connection.
use basic_jqr.Chat.Talk.Posts.{mail, others, send_all-sent, passed_on}
use basic_jqr.Chat.Files.Listing.{answer_list-sent, answer_list_beyond}
use basic_jqr.Base.{
  ◌⊎◌, negsuc, if◌then◌else◌, htons, ◌+◌, pos, fault, ◌^◌, take, drop, strncmp_eq, c_str, ℕ, ◌<◌,
  ◌≤◌, ◌≡◌, ◌≢◌, refl, true, false, none, some, List, [], ◌∷◌, arith, length, ok, Returns, Bytes,
  ntohs, ntohl,
}
use basic_jqr.HashTable.{HashTable}
use basic_jqr.Chat.State.{
  padded, text, ls_header, User, Member, Lobby, ChatRequest, World, Arrival, arrives, take_arrival,
}
use basic_jqr.Chat.Ends.{Ends, weight}
use basic_jqr.Chat.Users.{UserRequest, user_dispatch}
use basic_jqr.Chat.Users.Effects.{TooLong, Credentials, UserPost}
use basic_jqr.Chat.Users.Operations.{user_dispatch-Ends}
use basic_jqr.Chat.Lobbies.{LobbyRequest, is_named, destroy_from, lobby_dispatch}
use basic_jqr.Chat.Lobbies.Search.{LobbiesCounted, Verdict, destroy_from-Verdict}
use basic_jqr.Chat.Lobbies.Effects.{LobbyFault, LobbyPost}
use basic_jqr.Chat.Lobbies.Operations.{lobby_dispatch-Ends}
use basic_jqr.Chat.Talk.{send_all, find_lobby, leave, chat_dispatch}
use basic_jqr.Chat.Talk.Effects.{ChatFault, ChatPost, Leaves, leave-Leaves}
use basic_jqr.Chat.Talk.Operations.{chat_dispatch-Ends}
use basic_jqr.Chat.Files.{
  full_path, Kind, regular, directory, content, content_len, answer_list, Os, put_file,
  make_directory, delete_remote,
}
use basic_jqr.Chat.Files.Effects.{Post, PutEffect, MakeEffect, put_file-Ends, make_directory-Ends}
use basic_jqr.Chat.Files.Deletion.{
  ShortHeader, told, DeletePost, delete_remote-Ends, delete_remote_removes,
}
use basic_jqr.Chat.Connection.{handle_connection}
use basic_jqr.Chat.Connection.Server.{IsServer, Kept, handle_connection-Kept}

-- A system with one file, whose contents are its state.
abbrev one_file : Os Bytes
one_file = record {
  memory = λ n. true;
  open_read = λ s path. none;
  open_write = λ s path. some [];
  fwrite = λ s path bytes. (length bytes, bytes);
  opendir = λ s path. none;
  mkdir = λ s path. (true, s);
  remove = λ s path. (true, []);
}

abbrev admin : User
admin = record { passwd = b'p' ∷ []; uname = b'c' ∷ []; perms = 3 }

abbrev users : HashTable User
users = record { entries = some admin ∷ none ∷ none ∷ none ∷ []; size = 1; max_size = 4 }

abbrev ann : Member
ann = record { name = b'a' ∷ []; fd = 5; name_len = 1; lobby_num = 2 }

abbrev empty_lobby : Lobby
empty_lobby = record {
  lobby_name = b'x' ∷ [];
  name_len = 1;
  lobby_num = 1;
  lobby_size = 0;
  clients = [];
}

abbrev full_lobby : Lobby
full_lobby = record {
  lobby_name = b'y' ∷ [];
  name_len = 1;
  lobby_num = 2;
  lobby_size = 1;
  clients = ann ∷ [];
}

abbrev server : ℕ → List Arrival → World Bytes
server perms inbox = record {
  ht = users;
  lobs = empty_lobby ∷ full_lobby ∷ [];
  lobs_size = 2;
  client = record {
    client_socket = 4;
    session_id = 7;
    perms = perms;
    dir = b'd' ∷ [];
    uname = b'c' ∷ 0 ∷ [];
  };
  quit = false;
  inbox = inbox;
  sent = [];
  files = b'o' ∷ [];
}

users-Credentials : Credentials users
users-Credentials =
    (record { shape = refl; counted = omega arith; spare = omega arith }, omega arith)

lobbies_counted : LobbiesCounted (empty_lobby ∷ full_lobby ∷ []) 2
lobbies_counted = (refl, (refl, (refl, tt)))

abbrev creation : UserRequest
creation = record { user_flag = 1; uname_len = 1; pass_len = 1; session_id = 7 }

abbrev name_and_password : List Arrival
name_and_password = arrives (b'g' ∷ []) ∷ arrives (b'q' ∷ []) ∷ []

user_dispatch-Ends_example :
    Ends
      (TooLong creation)
      (UserPost creation (server 3 name_and_password))
      (user_dispatch creation (server 3 name_and_password))
user_dispatch-Ends_example =
    user_dispatch-Ends creation (server 3 name_and_password) users-Credentials

abbrev destruction : LobbyRequest
destruction = record { lobby_flag = 4; lname_len = 1; session_id = 0 }

abbrev listing : LobbyRequest
listing = record { lobby_flag = 2; lname_len = 0; session_id = 7 }

lobby_dispatch-Ends_example :
    Ends
      (LobbyFault (server 1 (arrives (b'y' ∷ []) ∷ [])))
      (LobbyPost destruction (server 1 (arrives (b'y' ∷ []) ∷ [])))
      (lobby_dispatch destruction (server 1 (arrives (b'y' ∷ []) ∷ [])))
lobby_dispatch-Ends_example =
    lobby_dispatch-Ends destruction (server 1 (arrives (b'y' ∷ []) ∷ [])) lobbies_counted

some_lobbies : empty_lobby ∷ full_lobby ∷ [] ≢ []
some_lobbies e = cc

destroy_from-Verdict_example :
    Returns
      (Verdict (is_named (b'y' ∷ []) 1) (empty_lobby ∷ full_lobby ∷ []))
      (destroy_from (b'y' ∷ []) 1 (empty_lobby ∷ full_lobby ∷ []))
destroy_from-Verdict_example =
    destroy_from-Verdict (b'y' ∷ []) 1 (empty_lobby ∷ full_lobby ∷ []) some_lobbies

not_x : is_named (b'y' ∷ []) 1 empty_lobby ≡ false
unfolding strncmp_eq c_str
not_x = refl

named_y : is_named (b'y' ∷ []) 1 full_lobby ≡ true
unfolding strncmp_eq c_str
named_y = refl

abbrev leaving : ChatRequest
leaving = record {
  chat_flag = 3;
  lobby_num = 2;
  from_uname_len = 1;
  to_uname_len = 0;
  message_len = 0;
  session_id = 0;
}

chat_dispatch-Ends_example :
    Ends
      (ChatFault leaving (server 1 (arrives (b'a' ∷ []) ∷ [])))
      (ChatPost leaving (server 1 (arrives (b'a' ∷ []) ∷ [])))
      (chat_dispatch leaving (server 1 (arrives (b'a' ∷ []) ∷ [])))
chat_dispatch-Ends_example =
    chat_dispatch-Ends leaving (server 1 (arrives (b'a' ∷ []) ∷ [])) lobbies_counted

leave-Leaves_example : Leaves (b'a' ∷ []) 1 (ann ∷ []) (leave (b'a' ∷ []) 1 (ann ∷ []))
leave-Leaves_example = leave-Leaves (b'a' ∷ []) 1 (ann ∷ [])

-- Headers of the file operations: a name of one byte, the session 7, a content of one byte.
abbrev file_header : Bytes
file_header = 0 ∷ 0 ∷ 1 ∷ 0 ∷ 0 ∷ 0 ∷ 7 ∷ 0 ∷ 0 ∷ 0 ∷ 1 ∷ []

abbrev delete_header : Bytes
delete_header = 0 ∷ 0 ∷ 1 ∷ 0 ∷ 0 ∷ 0 ∷ 7 ∷ []

abbrev file_bytes : List Arrival
file_bytes = arrives file_header ∷ arrives (b'f' ∷ []) ∷ arrives (b'z' ∷ []) ∷ []

put_file-Ends_example :
    Ends ⊥
      (Post one_file (PutEffect one_file (server 2 file_bytes)) (server 2 file_bytes))
      (put_file one_file (server 2 file_bytes))
put_file-Ends_example = put_file-Ends one_file (server 2 file_bytes)

make_directory-Ends_example :
    Ends ⊥
      (Post one_file (MakeEffect one_file (server 2 file_bytes)) (server 2 file_bytes))
      (make_directory one_file (server 2 file_bytes))
make_directory-Ends_example = make_directory-Ends one_file (server 2 file_bytes)

abbrev delete_bytes : List Arrival
delete_bytes = arrives delete_header ∷ arrives (b'f' ∷ []) ∷ []

delete_remote-Ends_example :
    Ends
      (ShortHeader one_file (server 3 delete_bytes))
      (DeletePost one_file (server 3 delete_bytes))
      (delete_remote one_file (server 3 delete_bytes))
delete_remote-Ends_example = delete_remote-Ends one_file (server 3 delete_bytes)

session_seven : ntohl delete_header 3 ≡ 7
unfolding ntohl
session_seven = refl

short_name : ntohs delete_header 1 ≤ 255
unfolding ntohs
short_name = omega arith

name_arrives :
    take_arrival (ntohs delete_header 1) (arrives (b'f' ∷ []) ∷ []) ≡ (some (b'f' ∷ []), [])
unfolding ntohs
name_arrives = refl

-- A client of level 1 removes the file.
delete_remote_removes_example : delete_remote one_file (server 1 delete_bytes) ≡ (
    let (did, s) =
      one_file.remove
        (b'o' ∷ [])
        (full_path (server 1 []).client (padded (ntohs delete_header 1) (b'f' ∷ []))) in
    ok (
      if did then pos 0 else negsuc 0,
      record (server 1 []) { files = s; sent = told one_file (server 1 delete_bytes) did },
    ))
delete_remote_removes_example =
    delete_remote_removes one_file (server 1 delete_bytes) delete_header (b'f' ∷ [])
      (arrives (b'f' ∷ []) ∷ []) [] refl refl session_seven short_name name_arrives (λ n. refl)

server-IsServer : (perms : ℕ) (inbox : List Arrival) → IsServer (server perms inbox)
server-IsServer perms inbox = record { credentials = users-Credentials; counted = lobbies_counted }

abbrev one_put : List Arrival
one_put = arrives (6 ∷ []) ∷ file_bytes

few_bytes : weight one_put < 15
unfolding weight
few_bytes = omega arith

handle_connection-Kept_example :
    Ends (Unit {0}) (Kept (server 2 one_put)) (handle_connection one_file 15 (server 2 one_put))
handle_connection-Kept_example =
    handle_connection-Kept one_file 15 (server 2 one_put) (server-IsServer 2 one_put) few_bytes

abbrev two_names : List (Bytes × Kind)
two_names = (b'f' ∷ [], regular) ∷ (b'g' ∷ [], directory) ∷ []

two_names_len : content_len two_names < 2 ^ 31
unfolding content_len
two_names_len = omega arith

inside_names : 3 ≤ content_len two_names
unfolding content_len
inside_names = omega arith

beyond_names : content_len two_names < 7
unfolding content_len
beyond_names = omega arith

answer_list-sent_example :
    (n : ℕ) × (n ≤ 2048)
    × (3 + n ≤ length (content two_names))
    × ((n ≡ 2048) ⊎ (3 + n ≡ length (content two_names)))
    × (answer_list one_file 3 two_names (server 1 [])
        ≡ ok (
          pos 0,
          record (server 1 []) {
            sent =
                (4, ls_header (length (content two_names)) n (3 + n))
                ∷ (4, text (take n (drop 3 (content two_names))))
                ∷ [];
          },
        ))
answer_list-sent_example =
    answer_list-sent one_file 3 two_names (server 1 []) refl two_names_len inside_names

answer_list_beyond_example : answer_list one_file 7 two_names (server 1 []) ≡ fault
answer_list_beyond_example =
    answer_list_beyond one_file 7 two_names (server 1 []) refl (omega arith) beyond_names

abbrev bob : Member
bob = record { name = b'b' ∷ []; fd = 6; name_len = 1; lobby_num = 2 }

abbrev shared_lobby : Lobby
shared_lobby = record full_lobby { lobby_size = 2; clients = ann ∷ bob ∷ [] }

abbrev talking : ChatRequest
talking = record {
  chat_flag = 1;
  lobby_num = 2;
  from_uname_len = 1;
  to_uname_len = 0;
  message_len = 1;
  session_id = 7;
}

abbrev name_and_text : List Arrival
name_and_text = arrives (b'a' ∷ []) ∷ arrives (b'h' ∷ []) ∷ []

abbrev shared : World Bytes
shared = record (server 1 name_and_text) { lobs = empty_lobby ∷ shared_lobby ∷ [] }

second_lobby : find_lobby 2 shared.lobs ≡ some shared_lobby
unfolding find_lobby
second_lobby = refl

send_all-sent_example :
    send_all talking shared
    ≡ ok (
      tt,
      record shared {
        inbox = [];
        sent =
            mail
              (passed_on talking)
              (c_str (b'a' ∷ []))
              (c_str (b'h' ∷ []))
              (others (c_str (b'a' ∷ [])) (htons 1) (ann ∷ bob ∷ []));
      },
    )
send_all-sent_example =
    send_all-sent talking shared (b'a' ∷ []) (b'h' ∷ []) (arrives (b'h' ∷ []) ∷ []) [] shared_lobby
      refl refl refl second_lobby
