-- ===== src/Game.antt =====
-- exercises/C/3.1.22/src/game.c: a game played on standard input. The program first, then what is
-- proved of it.
pub mod State
pub mod Bag
pub mod Items
pub mod Market
pub mod Enemy
pub mod Play
pub mod Chain
pub mod Removed
pub mod Dropped
pub mod Names
pub mod Runs
pub mod Played
pub mod Made
pub mod Added
pub mod Selected
pub mod Traded
pub mod Fought
pub mod Safe
mod Tests
