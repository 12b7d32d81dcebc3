-- ===== src/Commands.antt =====
-- The commands of the tool, each a member function of FepControl that works on the tokens of the
-- command line, the command's name first.
pub mod Systems
pub mod Participants
pub mod Aggregated
pub mod Timing
pub mod Modes
pub mod Rpc
pub mod Properties
