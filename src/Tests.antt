-- ===== src/Tests.antt =====
-- Concrete packets, headers and addresses, on which the theorems are applied.
mod Data
mod Addresses
mod Headers
mod Packets
mod Sums
mod Captures
mod Blocks
mod Nets
mod Checks
mod Zundoko
mod Devices
