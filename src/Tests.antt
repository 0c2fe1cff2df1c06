-- ===== src/Tests.antt =====
-- Examples: the theorems at concrete inputs.
mod Channels
mod Hits
mod Binary
mod Ascii
mod Streams
mod Texts
mod Sessions
mod Clients
mod Groups
mod Builders
mod Values
mod Wire
mod Totals
mod Lines
mod Datagrams
