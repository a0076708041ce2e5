-- ===== src/Session.antt =====
-- donglora/session.py: tags, pending commands and the reader thread. What runs under one lock, or
-- between two blocking calls of one thread, is one function on the state.
pub mod State
pub mod Response
pub mod Send
pub mod Reader
pub mod Cases
pub mod Tags
pub mod Wake
pub mod Correlation
pub mod Exchange
pub mod Wire
pub mod Carried
pub mod Loop
pub mod Threads
