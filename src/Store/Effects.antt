-- ===== src/Store/Effects.antt =====
-- What each operation of the store returns and changes, branch by branch.
pub mod Unchanged
pub mod Hitting
pub mod Flagging
pub mod Contributing
pub mod Racing
pub mod Deleting
pub mod Purging
pub mod Statistics
