-- ===== src/Oracle.antt =====
-- instructions/oracle/consume_randomness.rs, with `ConsumeLotteryRandomness` of lib.rs.
pub mod Reveal
pub mod Commute
use card_machine.Prelude.{ℕ, Bool, true, false, List, ◌==◌, if◌then◌else◌}
use card_machine.Constants.{Pubkey}
use card_machine.Errors.{
  Result, ok, err, ◌>>=◌, ◌>>◌, require, check, map_err, math_overflow, invalid_request_status,
  constraint_address,
}
use card_machine.State.{
  MintRequest, IpFlowState, RequestStatus, revealed, is_pending, is_revealed, lottery_revealed,
}
use card_machine.Runtime.{
  Runtime, World, Transaction, AccountData, Seeds, store, emit, check_signer, check_mut,
  check_seeds, as_config, as_mint_request,
}
use card_machine.Vrf.{LotteryResult, process_vrf_result}

pub record ConsumeAccounts : Type 0 where
  pub vrf_program_identity : Pubkey
  pub mint_request : Pubkey
  pub config : Pubkey

module _ (rt : Runtime) (tx : Transaction) (a : ConsumeAccounts) where
  -- The request that is stored after the draw.
  unfoldable pub reveal : LotteryResult → MintRequest → MintRequest
  reveal result request = record request {
    status = revealed;
    total_won_usd = result.total_won_usd;
    selected_pool_index = result.selected_pool_index;
    revealed_at = tx.clock.unix_timestamp;
    reveal_slot = tx.clock.slot;
  }

  -- The handler: the request and the world that it leaves.
  unfoldable pub consume_handler :
      List ℕ → IpFlowState → MintRequest → World → Result (MintRequest × World)
  consume_handler randomness config request w =
      let drawn : Result (MintRequest × World) = (do
        require (is_pending request.status) invalid_request_status
        result ← map_err math_overflow (
            process_vrf_result randomness request.amount_of_cards config.active_pool_count
              config.active_pool_indices)
        let event = lottery_revealed (record {
          user = request.user;
          mint_request = a.mint_request;
          total_won_usd = result.total_won_usd;
          selected_pool_index = result.selected_pool_index;
          revealed_at = tx.clock.unix_timestamp;
        })
        ok (reveal result request, emit event w)) in
      if is_revealed request.status then ok (request, w) else drawn

  unfoldable pub consume_lottery_randomness : List ℕ → World → Result World
  consume_lottery_randomness randomness w = do
    check_signer tx a.vrf_program_identity
    request ← as_mint_request (w.account a.mint_request)
    config ← as_config (w.account a.config)
    check (a.vrf_program_identity == rt.vrf_program_identity) constraint_address
    check_mut tx a.mint_request
    require (is_pending request.status) invalid_request_status
    check_seeds rt a.config Seeds.global_config
    (request', w') ← consume_handler randomness config request w
    ok (store a.mint_request (AccountData.mint_request request') w')
