-- ===== src/Tests.antt =====
-- Runs of the model on concrete inputs, and the theorems at such inputs.
mod Machine
mod Promises
mod Opened
mod Examples
mod Servers
mod Listings
mod Clients
mod Fetches
mod Logs
mod Starts
mod Rows
mod Programs
mod Sessions
mod Ledger
mod Visits
mod Served
mod Mains
mod Turns
