-- ===== src/Transactions.antt =====
-- The transaction services (src/transactions, src/commissions): the rows that they keep, the
-- store that they share, and one module per service. Time and the identifiers that the database
-- generates are arguments of the calls; an amount is a number of its smallest unit.
mod Rows
mod Tests
pub mod Status
pub mod Commissions
pub mod Service
pub mod Escrow
pub mod Cancellation
pub mod Disputes
pub use Rows.*
