-- ===== src/Lib.antt =====
-- A library that verifies the card lottery, an Anchor program on Solana.
--
-- A user pays for 1 to 100 cards, and a request is stored and sent to an oracle for randomness
-- (`request_mint`). The oracle calls back with 32 random bytes, from which the prize of each card
-- and a prize pool are drawn (`consume_lottery_randomness`). The winner takes 95% of the prize in
-- SOL, or all of it in a token that the program buys through Jupiter or Raydium (`claim`). A
-- request that the oracle leaves unanswered is paid back (`refund`). An administrator keeps the
-- configuration and the list of prize pools, and withdraws from the vault.
--
-- Which file models which part of the repository:
--
--   Constants            constants.rs
--   Errors               errors.rs, and results: a custom error, one of Anchor's, one of a called
--                        program, or a panic
--   Words                the integer operations of the language: checked, saturating, wrapping
--   State                state/, events.rs
--   Layout               the size of the configuration (state/global_config.rs), and its documented
--                        bytes for the sample runtime
--   Vrf                  utils/vrf_helper.rs: derived bytes, tiers, pools, square root
--   Pyth                 utils/pyth_oracle.rs: dollars to lamports
--   Jupiter              utils/jupiter_cpi.rs
--   Raydium, Wsol        utils/raydium_cpi.rs, utils/wsol_helper.rs
--   User/RequestMint     instructions/user/request_mint.rs, `RequestMint` of lib.rs
--   User/Claim           instructions/user/claim.rs, `Claim` of lib.rs
--   User/Refund          instructions/user/refund.rs, `Refund` of lib.rs
--   Oracle               instructions/oracle/consume_randomness.rs, its accounts in lib.rs
--   Admin/Config         instructions/admin/initialize.rs, its accounts in lib.rs
--   Admin/PrizePool      instructions/admin/prize_pool.rs, its accounts in lib.rs
--   Admin/Withdraw       instructions/admin/withdraw.rs, its accounts in lib.rs
--   Lifecycle            the instructions of lib.rs as one function, the steps of the ledger, and an
--                        abstract board of the requests
--   Runtime              the ledger and what the program uses of Solana, Anchor and other programs
--   Tests                worlds, accounts and runs
--
-- The child modules hold the proofs, and are named for what they prove.
--
-- An instruction is a function from a world (lamports, accounts and events) to a result with the
-- next world. A world has an account's value, not its bytes, but for the configuration where the
-- code reads bytes. An error leaves the world as it was, as the runtime rolls a transaction back.
-- The constraints of an instruction's accounts come first, in Anchor's order: the accounts are
-- loaded, `init` runs, and then the remaining constraints are tested. An instruction changes its
-- own copy of an account and the copy is stored when the handler returns, before `close`.
--
-- Code that is not in the repository is the parameter `Runtime`: derived addresses, rent, the
-- price feed, `init`, the bytes of a configuration, and the invocation of another program.
-- `Runtime/Laws` states what theorems rely on: a transfer moves its amount, an invoked program
-- leaves this program's accounts alone, `init` wants an unused address, and a bump is a byte;
-- where bytes are read, the documented layout of the configuration's account; and, where a theorem
-- says that an instruction goes through, that a transfer which is signed and covered is carried
-- out. `Runtime/Sample` is a runtime that runs, and obeys them.
--
-- A number of a machine type is a natural number with the wrapping written out; whether `+`, `-`
-- and `*` panic on overflow is the field `overflow_checks` of the runtime. A public key is the
-- number that its bytes write in base 256. Every loop runs over a list or a number of rounds, but
-- for Newton's method in `integer_sqrt`, which recurs on the order of the naturals.
--
-- Not modelled: the log (`msg!`), the derived serialization of accounts, compute limits, the fees of
-- a transaction, and the runtime's own check, when a transaction ends, that no account is left with
-- some lamports but less than its rent. A theorem that an instruction goes through is about the
-- program's own code.
pub mod Prelude
pub mod Errors
pub mod Words
pub mod Constants
pub mod State
pub mod Vrf
pub mod Runtime
pub mod Pyth
pub mod Jupiter
pub mod Raydium
pub mod Wsol
pub mod Layout
pub mod Admin
pub mod User
pub mod Oracle
pub mod Lifecycle
pub mod Tests
