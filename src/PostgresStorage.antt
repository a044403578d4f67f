-- ===== src/PostgresStorage.antt =====
-- demo/src/postgres-storage.ts: the stores of the demo service as tables. A statement is a function
-- of the rows that it reads, and statements run one after another.
pub mod Entries
pub mod Checks
pub mod Notifications
