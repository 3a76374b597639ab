-- ===== src/Admin.antt =====
-- instructions/admin/: the instructions of the administrator.
pub mod Config
pub mod Frame
pub mod Withdraw
pub mod PrizePool
