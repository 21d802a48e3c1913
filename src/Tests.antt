-- ===== src/Tests.antt =====
-- Concrete external functions, and the theorems at concrete inputs.
mod Cells
mod Rows
mod Peers
mod PeerLists
mod Machines
mod Toy
mod Data
mod Transactions
mod Blocks
mod Coder
mod Stored
mod Validation
mod Draws
