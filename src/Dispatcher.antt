-- ===== src/Dispatcher.antt =====
-- Dispatcher.cpp, ChatRoom.cpp and User.cpp of the server. `State` has the data and `Monad` the
-- primitive actions; `Caller`, `Sessions`, `Rooms`, `Listings` and `Loop` have one function for
-- each method; the proofs are in the modules below those.
pub mod State
pub mod Steps
pub mod Monad
pub mod Caller
pub mod Sessions
pub mod Members
pub mod Rooms
pub mod Listings
pub mod Loop
pub mod Keeps
pub mod Consistency
pub mod Sends
pub mod Stranded
pub mod Starved
pub mod Taken
pub mod Exit
pub mod CloseRoom
pub mod Tests
