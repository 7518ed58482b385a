-- ===== src/Storage.antt =====
-- What the program keeps in SQLite: the repositories over the tables. A table is the list of its rows
-- in order of insertion. The faults of the database are the environment's.
pub mod LiveQuery
pub mod Shifts
pub mod Intervals
pub mod Querying
pub mod Migrations
pub mod Raw
pub mod EndToEnd
