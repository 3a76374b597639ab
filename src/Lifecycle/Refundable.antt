-- ===== src/Lifecycle/Refundable.antt =====
-- A refund in SOL of a request that is not drawn (instructions/user/request_mint.rs, then
-- instructions/user/refund.rs).
use card_machine.Prelude.{ℕ, ◌+◌, ◌<◌, ◌^◌, ◌≡◌, refl, true, none, some, arith}
use card_machine.Prelude.Int.{pos}
use card_machine.Errors.{ok}
use card_machine.State.{MintRequest, IpFlowState, PaymentMode}
use card_machine.Runtime.{
  Runtime, World, Transaction, AccountData, contains, close_account, move_lamports, Seeds,
}
use card_machine.Runtime.Laws.{RuntimeLaws, ServesTransfers}
use card_machine.User.RequestMint.{
  RequestMintAccounts, mint_request_space, new_request, request_mint,
}
use card_machine.User.RequestMint.Paid.{Paid, request_mint_pays}
use card_machine.User.Refund.{RefundAccounts, refund}
use card_machine.User.Refund.Available.{PassesSol, IsLate, CanPay, refund_sol_succeeds}

module _ (rt : Runtime) (make_tx : Transaction) (b : RequestMintAccounts) (tx : Transaction)
    (a : RefundAccounts) where
  -- The user of the request asks for the refund with the request's own accounts and no token
  -- account.
  pub record Asks (later : World) (config : IpFlowState) : Type 0 where
    pub signed : contains tx.signers a.user ≡ true
    pub configured : later.account a.config ≡ AccountData.config config
    pub system : a.system_program ≡ rt.system_program_id
    pub no_program : a.token_program ≡ none
    pub no_vault_account : a.vault_token_account ≡ none
    pub no_user_account : a.user_token_account ≡ none
    pub same_user : b.user ≡ a.user
    pub same_request : b.mint_request ≡ a.mint_request
    pub at_config : a.config ≡ (rt.find_program_address Seeds.global_config).0
    pub at_vault : rt.create_program_address Seeds.vault config.vault_bump ≡ some a.vault
    pub user_mut : tx.is_writable a.user ≡ true
    pub request_mut : tx.is_writable a.mint_request ≡ true
    pub vault_mut : tx.is_writable a.vault ≡ true

  -- More than the configured time lies between the two transactions.
  pub record Waits (config : IpFlowState) : Type 0 where
    pub now : ℕ
    pub created : ℕ
    pub wait : ℕ
    pub clock : tx.clock.unix_timestamp ≡ pos now
    pub make_clock : make_tx.clock.unix_timestamp ≡ pos created
    pub timeout : config.request_timeout_seconds ≡ pos wait
    pub over : created + wait < now
    pub in_range : now < 2 ^ 63

  -- What the user paid for the request comes back.
  pub record Returned (cards slot : ℕ) (w later : World) : Type 0 where
    pub amount : ℕ
    pub created : World
    pub paid : World
    pub opened : rt.create_account b.user b.mint_request (8 + mint_request_space) w ≡ ok created
    pub payment : Paid rt make_tx b PaymentMode.sol cards amount w created paid
    pub refunded :
        refund rt tx a slot later
        ≡ ok (close_account a.mint_request a.user (move_lamports a.vault a.user amount later))

  Passes-later :
      (cards slot amount : ℕ) (later : World) (config : IpFlowState)
      → a.mint_request ≡ (rt.find_program_address (Seeds.mint_request a.user slot)).0
      → later.account a.mint_request
        ≡ AccountData.mint_request (new_request rt make_tx b cards PaymentMode.sol slot amount)
      → Asks later config
      → PassesSol rt tx a slot later
          (new_request rt make_tx b cards PaymentMode.sol slot amount)
          config
  unfolding new_request
  Passes-later cards slot amount later config at_request stored k = record {
    signed = k.signed;
    stored = stored;
    configured = k.configured;
    system = k.system;
    no_program = k.no_program;
    no_vault_account = k.no_vault_account;
    no_user_account = k.no_user_account;
    owned = k.same_user;
    same_slot = refl;
    at_request = at_request;
    at_config = k.at_config;
    at_vault = k.at_vault;
    user_mut = k.user_mut;
    request_mut = k.request_mut;
    vault_mut = k.vault_mut;
  }

  Waits-IsLate :
      (cards slot amount : ℕ) (config : IpFlowState)
      → Waits config
      → IsLate rt tx a (new_request rt make_tx b cards PaymentMode.sol slot amount) config
  unfolding new_request
  Waits-IsLate cards slot amount config f = record {
    now = f.now;
    created = f.created;
    wait = f.wait;
    clock = f.clock;
    created_at = f.make_clock;
    timeout = f.timeout;
    over = f.over;
    in_range = f.in_range;
    waiting = refl;
    in_sol = refl;
  }

  -- After a request in SOL that succeeds, its user gets back what was paid, in any later world
  -- that still stores the request as it was made: more than the configured time has passed, the
  -- user signs with the request's own accounts and no token account, and the vault, an account
  -- without data, holds what the stored request records. The amount is the one that the request
  -- moved from the user to the vault, and the refund closes the request. The System program is
  -- assumed to carry out a transfer that is signed and covered.
  pub request_then_refund :
      (laws : RuntimeLaws rt) (sends : ServesTransfers rt) (cards client_seed slot : ℕ)
      (w w' later : World) (config : IpFlowState)
      → request_mint rt make_tx b cards PaymentMode.sol client_seed slot w ≡ ok w'
      → later.account a.mint_request ≡ w'.account a.mint_request
      → Asks later config
      → Waits config
      → ((r : MintRequest)
          → later.account a.mint_request ≡ AccountData.mint_request r
          → CanPay rt tx a later r.paid_amount)
      → Returned cards slot w later
  unfolding new_request
  request_then_refund laws sends cards client_seed slot w w' later config h kept k f funded =
      let (
        _, created, paid, requested, amount, acc, free, allow, payment, params, asked, records, e,
      ) =
        request_mint_pays rt laws make_tx b cards PaymentMode.sol client_seed slot w w' h in
      let same_user = k.same_user in
      let same_request = k.same_request in
      let seeds = acc.at_request in
      let made = new_request rt make_tx b cards PaymentMode.sol slot amount in
      let stored : later.account a.mint_request ≡ AccountData.mint_request made = ground arith in
      let at : a.mint_request ≡ (rt.find_program_address (Seeds.mint_request a.user slot)).0 =
        ground arith in
      record {
        amount = amount;
        created = created;
        paid = paid;
        opened = acc.opened;
        payment = payment;
        refunded =
            refund_sol_succeeds rt tx a sends slot later made config
              (Passes-later cards slot amount later config at stored k)
              (Waits-IsLate cards slot amount config f) (funded made stored);
      }
