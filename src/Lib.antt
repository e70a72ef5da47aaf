-- ===== src/Lib.antt =====
-- Verification of the chat server and of the data structures of this repository.
--
-- The program. A chat server (chat_server/Src/Src) accepts connections; a pool of threads runs
-- `handle_connection` on each. That loop reads an operation code and calls a handler: users, who
-- are kept in a hash table and log in with a level from 0 to 3; lobbies and the messages in them;
-- files below the client's directory. A connection waits in a queue for a thread of the pool. The
-- users are read from a file at the start and written to it at the end. Beside the server stand
-- data structures that other programs use: a tree, a ring, a stack, a graph and a priority queue,
-- and two programs of their own: a search for shortest paths over the last two, and a game of an
-- adventurer who finds, trades and uses items.
--
-- The files, and the code that each is about:
--   HashTable    chat_server/Src/Src/my_ht.c: `HashTable` is `struct hashtable`, its two callbacks
--                a parameter; the functions carry the names of the source. `insert_entry` is
--                `hash_table_insert` past its test for NULL, and `probe` the loop that insertion,
--                lookup and removal share.
--   Avl          data_structures/tree/avl.c: `Tree` is `struct Node`, by value; the functions are
--                those of the source in snake_case. `insert_rebalance` and `delete_rebalance` are
--                the parts of `insert` and `deleteNode` after the recursive call.
--   Chat         chat_server/Src/Src/chat.c: Chat/State has the state that the handlers share,
--                Chat/Users, Chat/Lobbies, Chat/Talk and Chat/Files the handlers under their
--                names, `user_dispatch` and its like being the tests on the flag of a request;
--                Chat/Connection is the loop, Chat/Creds the file of accounts.
--   Pool         chat_server/Src/Src/pool_queue.c: the pool's queue, its two globals a record.
--   FileLib      chat_server/Src/Src/file_lib.c: `crypter`.
--   Circle       data_structures/circle/circle_link.c: `Circle` is `struct circle_list` and the heap
--                of the nodes, `IsRing` says which nodes the ring has. Circle/Merge and Circle/Sort
--                are about the sort on lists of nodes, Circle/SortList about `sort_list`.
--   Stack        data_structures/stack/stack.c, over the same heap.
--   Graph        data_structures/graph/graph.c: the lists of edges by value.
--   PQueue       data_structures/graph/pqueue.c: the array by its slots; `IsQueue` says which list it
--                stands for.
--   Dijkstra     data_structures/graph/dijkstra.c: `Search` is what `dijkstra` keeps; the loops are
--                functions of their own, `put_vertices`, `crawl` and `search_loop`, and what is
--                printed is a result. Dijkstra/Blind is about the search, Dijkstra/Printed about
--                what comes out.
--   Game         exercises/C/3.1.22/src/game.c: Game/State has the player, the globals and what is
--                typed, and the menu and the other reading; Game/Bag the chain of items, Game/Items,
--                Game/Market, Game/Enemy and Game/Play the rest under the names of the source.
--                `IsBag` says which items the bag has, `Good` what holds between the calls,
--                `NeverDrops` that nothing is dropped, and `Plays` in which ways a call may fail to
--                come back. Game/Made to Game/Safe go through the calls in turn.
--   Heap         nodes at addresses and chains of them, for Circle, Stack, Pool and Game.
--   Base         what these share: tests on numbers, lists, outcomes, C strings, machine words.
--
-- The model. C code ends in an `Outcome`: a value, undefined behaviour (`fault`), or a loop that
-- has used up its fuel. A handler is a function of the whole state, `World`, which holds the table
-- of users, the lobbies, the client's record, what the peer still does (`inbox`), what has been
-- sent and to which socket (`sent`), and the files. `Chat.Ends.Ends` says that a handler does not
-- run out of fuel, when it may be undefined, and what holds if it returns.
--
-- Parameters. The file system and the success of `calloc` in the file handlers are a record of
-- functions (`Os`), of which nothing is assumed. Elsewhere `malloc` and `calloc` succeed unless an
-- argument says otherwise. `recv` gives what has arrived, at most what is asked for, or an error
-- or nothing where the peer has closed. Of a request that less arrives for, the rest is zeros, as
-- the code clears the room for it, save that of a deletion, which is undefined then. `send` always
-- takes the whole message. In the search, the number that a pointer is kept as is a function
-- `address`. In the game `malloc` is a function of the heap, which a theorem takes to give only
-- addresses where nothing is, the memory for a name is always there, and `rand` is a sequence.
--
-- Bounds and fuel. `unsigned long` wraps in the hash. The probing loops get as many steps as the
-- table has slots, insertion three levels of nested resizing, and `handle_connection` a number of
-- rounds. Some slot of the table is free by its count, the table left by a resizing is less full
-- than the old one, and each round takes a byte, so this is enough. Counts of lobbies and members
-- are taken not to overflow. The sort of the ring gets two steps more than there are nodes: each
-- call of its recursion has a shorter list. Reading the accounts gets one step more than the file
-- has bytes, as each record takes some. The sizes of the table are taken not to overflow; the other
-- sizes are a `size_t`, and wrap. The length of a listing and the index into a file are an `int`,
-- whose overflow is undefined. In the search each round takes an entry out of the queue, so that
-- its loop gets one step more than there are vertices; the loop of `print_path` gets any number of
-- steps. In the game a loop over the items gets one step more than items were made, and one with a
-- menu one round more than characters are still to be typed, as each takes one.
--
-- Not modelled: the start of the server, its threads, their lock and its sockets; two handlers at
-- once; the wrappers of stdio; what only prints. The other programs are copies of these files, an
-- earlier form of the server (jqr_stuff/ftp), wrappers of files and sockets, exercises, a game of
-- pong that is another project's, and samples of the language. `get_file`, `create_ht`,
-- `create_avl_tree`, `insert_node`, `destroy_list`, `destroy_stack`, `destroy_pqueue`, `find_node`,
-- `destroy_graph`, `drop_item` and `get_item_from_inventory` are modelled without a theorem.
pub mod Base
pub mod Heap
pub mod HashTable
pub mod Avl
pub mod Circle
pub mod PQueue
pub mod Graph
pub mod Dijkstra
pub mod Stack
pub mod Pool
pub mod FileLib
pub mod Game
pub mod Chat
