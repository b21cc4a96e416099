-- ===== src/Processor.antt =====
-- src/command_processor.cpp: the worker that looks commands up, runs their handlers, and decides
-- what is written to the log and sent to the replicas.
pub mod Table
pub mod Log
pub mod Quiet
pub mod Unlogged
pub mod Replay
pub mod Transactions
pub mod Deadlines
pub mod Departure
pub mod Loading
pub mod Subscriptions
pub mod Access
pub mod Commands
pub mod Tasks
mod Tests
