-- ===== src/Chat.antt =====
-- chat_server/Src/Src/chat.c: the handlers of the chat server, over one connection's state.
pub mod State
pub mod Ends
pub mod Users
pub mod Creds
pub mod Lobbies
pub mod Talk
pub mod Files
pub mod Connection
mod Tests
