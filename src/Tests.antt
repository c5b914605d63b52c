-- ===== src/Tests.antt =====
-- Concrete runs, and each theorem at an input where its hypotheses hold.
mod Data
mod Feed
mod Operations
mod Accounts
mod Service
mod Retention
mod Requests
mod Browsing
mod Secrets
mod AtRest
mod Threads
mod Races
mod Keyrings
mod Migrations
mod Keys
mod Configuration
mod Startup
mod Commands
