-- ===== src/User.antt =====
-- instructions/user/: paying for cards, claiming the prize, and the refund.
pub mod RequestMint
pub mod Claim
pub mod Refund
