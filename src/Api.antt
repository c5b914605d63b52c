-- ===== src/Api.antt =====
-- The HTTP service, api/: what it reads of a request, its handlers, and the middleware around them.
pub mod Values
pub mod Messages
pub mod Access
pub mod Views
pub mod Reading
pub mod Writing
pub mod App
pub mod Authorization
pub mod Deletion
pub mod Privacy
pub mod Steps
pub mod Serving
pub mod Contents
pub mod Listing
pub mod Bounds
pub mod Constraints
