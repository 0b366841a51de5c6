-- ===== src/Records.antt =====
-- src/rmr/common/src/rt_generic_static.c: the records that the route manager sends, or that a seed
-- file holds: the text of a record, the entries that it adds and removes, and what it does to the
-- tables of the context.
pub mod Text
pub mod Entry
pub mod Tables
pub mod Parse
pub mod Outcome
pub mod Wait
pub mod Moves
pub mod Kinds
pub mod Steps
pub mod Active
pub mod Entries
pub mod Start
pub mod Update
pub mod Session
pub mod Seed
pub mod Collector
mod Tests
