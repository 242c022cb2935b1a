-- ===== src/Tests.antt =====
-- Examples: each theorem at concrete input, and runs of the code.
mod Globs
mod Uris
mod Policies
mod Roles
mod Limits
mod Store
mod Edits
mod Ledger
mod Wire
mod Net
