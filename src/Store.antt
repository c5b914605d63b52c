-- ===== src/Store.antt =====
-- api/fingerprint_store.py: the operations on the fingerprints, a module for each. An operation
-- takes the database and returns its result beside the database that it leaves.
pub mod Keys
pub mod Contribute
pub mod Hits
pub mod Flags
pub mod Delete
pub mod Retention
pub mod Feed
pub mod Browse
pub mod Effects
pub mod Validity
pub mod Freshness
pub mod Rows
pub mod Secrets
pub mod History
pub mod Secrecy
pub mod Races
