-- ===== src/Files.antt =====
-- Transfers of files between the panel and a guest: the paths, the names and the commands of
-- lib/guest-files.ts, the address and the port to connect to, and the tickets of
-- server/services/guest-file-tickets.ts.
pub mod Path
mod Tests
pub mod Names
pub mod Quote
pub mod Target
pub mod Ticket
