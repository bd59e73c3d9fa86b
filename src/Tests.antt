-- ===== src/Tests.antt =====
-- Runs of the code at concrete inputs, and the theorems at concrete inputs.
mod Server
mod Records
mod Wire
mod Copying
mod Keeping
mod Database
mod Rows
mod Tables
mod Lending
mod Quoting
mod Dealing
mod Settings
mod Serving
