-- ===== src/User/Claim/Frame.antt =====
-- The accounts of this program under a payout (instructions/user/claim.rs).
use card_machine.Prelude.{
  ℕ, ◌≡◌, inl, inr, Option, List, Option-cases, arith, ◌*◌, ◌/◌, get_elem?, drop, map, ◌++◌,
}
use card_machine.Constants.{Pubkey, default_slippage_bps}
use card_machine.Errors.{ok, Result-cases, map_err-eq-ok, jupiter_swap_failed}
use card_machine.State.{MintRequest, IpFlowState, PayoutMode, SwapRouter}
use card_machine.Runtime.{
  Runtime, World, Transaction, AccountInfo, Seeds, Instruction, call, invoke_signed,
  system_transfer, sync_native,
}
use card_machine.Runtime.Laws.{RuntimeLaws, KeepsOwn, keeps_trans}
use card_machine.Runtime.Transfers.{invoke_signed-keeps}
use card_machine.Pyth.{get_lamports_for_micro_usd}
use card_machine.Jupiter.{
  swap_via_jupiter, call_jupiter, check_swap, as_meta, calculate_min_output,
  find_vault_wsol_account, get_token_amount,
}
use card_machine.Raydium.{
  SwapAccounts, swap_base_input, swap_metas, swap_base_input_discriminator, serialize,
}
use card_machine.Wsol.{wrap_sol}
use card_machine.User.Claim.{
  ClaimAccounts, ClaimArgs, Payout, pay_out_sol, pay_out_jupiter, raydium_accounts, remaining_key,
  pay_out_raydium, swap_by, pay_out_token, pay_out,
}

module _ (rt : Runtime) (laws : RuntimeLaws rt) (tx : Transaction) where
  call_jupiter-keeps :
      (remaining : List AccountInfo) (swap_data : List ℕ) (vault : Pubkey) (bump : ℕ) (w w' : World)
      → call_jupiter rt tx remaining swap_data vault bump w ≡ ok w'
      → KeepsOwn w w'
  unfolding call_jupiter
  call_jupiter-keeps remaining swap_data vault bump w w' h =
      elim (Option-cases (get_elem? remaining 0)) [
        | inl missing ↦ absurd (ground arith)
        | inr (program, e) ↦
            invoke_signed-keeps rt laws
              (call program.key (map (as_meta vault) (drop 1 remaining)) swap_data) tx Seeds.vault
              bump w w' (ground arith)
      ]

  check_swap-same :
      (w w' : World) (before output in_before input minimum_out maximum_in : ℕ)
      → check_swap rt tx w before output in_before input minimum_out maximum_in ≡ ok w'
      → w' ≡ w
  unfolding check_swap
  check_swap-same w w' before output in_before input minimum_out maximum_in h =
      elim (Result-cases (get_token_amount w output)) [
        | inr (e, fails) ↦ absurd (ground arith)
        | inl (out_after, eo) ↦ elim (Result-cases (get_token_amount w input)) [
          | inr (e, fails) ↦ absurd (ground arith)
          | inl (in_after, ei) ↦ ground arith
        ]
      ]

  swap_via_jupiter-keeps :
      (remaining : List AccountInfo) (swap_data : List ℕ) (vault : Pubkey) (bump : ℕ)
      (output : Pubkey) (minimum_out maximum_in : ℕ) (w w' : World)
      → swap_via_jupiter rt tx remaining swap_data vault bump output minimum_out maximum_in w
        ≡ ok w'
      → KeepsOwn w w'
  unfolding swap_via_jupiter
  swap_via_jupiter-keeps remaining swap_data vault bump output minimum_out maximum_in w w' h =
      elim (Result-cases (find_vault_wsol_account w remaining vault)) [
        | inr (e, fails) ↦ absurd (ground arith)
        | inl (input, finds) ↦
            elim (Result-cases (call_jupiter rt tx remaining swap_data vault bump w)) [
              | inr (x, refused) ↦ absurd (ground arith)
              | inl (called, calls) ↦ elim (Result-cases (get_token_amount w output)) [
                | inr (y, unread) ↦ absurd (ground arith)
                | inl (before, e_out) ↦ elim (Result-cases (get_token_amount w input.key)) [
                  | inr (z, unknown) ↦ absurd (ground arith)
                  | inl (in_before, e_in) ↦
                      rw
                        (check_swap-same called w' before output in_before input.key minimum_out
                          maximum_in (ground arith))
                        (call_jupiter-keeps remaining swap_data vault bump w called calls)
                ]
              ]
            ]
      ]

  wrap_sol-keeps :
      (vault account token_program amount : ℕ) (seeds : Seeds) (bump : ℕ) (w w' : World)
      → wrap_sol rt tx vault account token_program amount seeds bump w ≡ ok w'
      → KeepsOwn w w'
  unfolding wrap_sol
  wrap_sol-keeps vault account token_program amount seeds bump w w' h =
      elim (Result-cases
        (invoke_signed rt (system_transfer vault account amount) tx seeds bump w)) [
          | inr (e, fails) ↦ absurd (ground arith)
          | inl (moved, e) ↦
              keeps_trans
                (invoke_signed-keeps rt laws (system_transfer vault account amount) tx seeds bump w
                  moved e)
                (laws.invoke_keeps (sync_native token_program account) tx.signers moved w'
                  (ground arith))
        ]

  abbrev swap_call : SwapAccounts → ℕ → ℕ → Instruction
  swap_call a amount_in minimum_out = call a.cp_swap_program (swap_metas a) (
      swap_base_input_discriminator
      ++ serialize (record { amount_in = amount_in; minimum_amount_out = minimum_out }))

  swap_base_input-keeps :
      (a : SwapAccounts) (amount_in minimum_out : ℕ) (seeds : Seeds) (bump : ℕ) (w w' : World)
      → swap_base_input rt tx a amount_in minimum_out seeds bump w ≡ ok w'
      → KeepsOwn w w'
  unfolding swap_base_input
  swap_base_input-keeps a amount_in minimum_out seeds bump w w' h =
      invoke_signed-keeps rt laws (swap_call a amount_in minimum_out) tx seeds bump w w'
        (ground arith)

  module _ (a : ClaimAccounts) where
    pay_out_jupiter-keeps :
        (swap_data : Option (List ℕ)) (config : IpFlowState) (amount_in minimum_out : ℕ)
        (w w' : World)
        → pay_out_jupiter rt tx a swap_data config amount_in minimum_out w ≡ ok w'
        → KeepsOwn w w'
    unfolding pay_out_jupiter
    pay_out_jupiter-keeps swap_data config amount_in minimum_out w w' h =
        elim (Option-cases swap_data) [
          | inl missing ↦ absurd (ground arith)
          | inr (bytes, e) ↦
              swap_via_jupiter-keeps a.remaining_accounts bytes a.vault config.vault_bump
                (remaining_key rt tx a 2) minimum_out amount_in w w'
                (map_err-eq-ok jupiter_swap_failed _ (ground arith))
        ]

    pay_out_raydium-keeps :
        (config : IpFlowState) (amount_in minimum_out : ℕ) (w w' : World)
        → pay_out_raydium rt tx a config amount_in minimum_out w ≡ ok w'
        → KeepsOwn w w'
    unfolding pay_out_raydium
    pay_out_raydium-keeps config amount_in minimum_out w w' h =
        elim (Result-cases (
          wrap_sol rt tx a.vault (remaining_key rt tx a 4) (remaining_key rt tx a 8) amount_in
            Seeds.vault config.vault_bump w)) [
              | inr (e, fails) ↦ absurd (ground arith)
              | inl (wrapped, e) ↦
                  keeps_trans
                    (wrap_sol-keeps a.vault (remaining_key rt tx a 4) (remaining_key rt tx a 8)
                      amount_in Seeds.vault config.vault_bump w wrapped e)
                    (swap_base_input-keeps (raydium_accounts rt tx a) amount_in minimum_out
                      Seeds.vault config.vault_bump wrapped w' (ground arith))
            ]

    swap_by-keeps :
        (router : SwapRouter) (swap_data : Option (List ℕ)) (config : IpFlowState)
        (amount_in minimum_out : ℕ) (w w' : World)
        → swap_by rt tx a router swap_data config amount_in minimum_out w ≡ ok w'
        → KeepsOwn w w'
    unfolding swap_by
    swap_by-keeps SwapRouter.jupiter swap_data config amount_in minimum_out w w' h =
        pay_out_jupiter-keeps swap_data config amount_in minimum_out w w' h
    swap_by-keeps SwapRouter.raydium swap_data config amount_in minimum_out w w' h =
        pay_out_raydium-keeps config amount_in minimum_out w w' h

    pay_out_token-keeps :
        (args : ClaimArgs) (config : IpFlowState) (request : MintRequest) (w : World)
        (payout : Payout)
        → pay_out_token rt tx a args config request w ≡ ok payout
        → KeepsOwn w payout.world
    unfolding pay_out_token
    pay_out_token-keeps args config request w payout h = elim (Option-cases args.swap_router) [
      | inl missing ↦ absurd (ground arith)
      | inr (router, er) ↦ elim (Option-cases args.expected_token_output) [
        | inl unsaid ↦ absurd (ground arith)
        | inr (expected, ee) ↦
            elim (Result-cases (
              get_lamports_for_micro_usd rt tx.clock w a.pyth_price_update request.total_won_usd)) [
                | inr (x, unpriced) ↦ absurd (ground arith)
                | inl (amount_in, ea) ↦
                    elim (Result-cases
                      (calculate_min_output rt.overflow_checks expected default_slippage_bps)) [
                        | inr (y, unbounded) ↦ absurd (ground arith)
                        | inl (minimum_out, em) ↦
                            elim (Result-cases (
                              swap_by rt tx a router args.swap_data config amount_in minimum_out
                                w)) [
                                  | inr (z, unswapped) ↦ absurd (ground arith)
                                  | inl (after, es) ↦
                                      let same : payout.world ≡ after = ground arith in
                                      rw same (
                                        swap_by-keeps router args.swap_data config amount_in
                                          minimum_out w after es)
                                ]
                      ]
              ]
      ]
    ]

    pay_out_sol-keeps :
        (config : IpFlowState) (request : MintRequest) (w : World) (payout : Payout)
        → pay_out_sol rt tx a config request w ≡ ok payout
        → KeepsOwn w payout.world
    unfolding pay_out_sol
    pay_out_sol-keeps config request w payout h =
        elim (Result-cases (
          get_lamports_for_micro_usd rt tx.clock w a.pyth_price_update
            (request.total_won_usd * 95 / 100))) [
              | inr (e, fails) ↦ absurd (ground arith)
              | inl (lamports, e) ↦
                  elim (Result-cases (
                    invoke_signed rt (system_transfer a.vault a.user lamports) tx Seeds.vault
                      config.vault_bump w)) [
                        | inr (x, unpaid) ↦ absurd (ground arith)
                        | inl (after, moved) ↦
                            let same : payout.world ≡ after = ground arith in
                            rw same (
                              invoke_signed-keeps rt laws (system_transfer a.vault a.user lamports)
                                tx Seeds.vault config.vault_bump w after moved)
                      ]
            ]

    pub pay_out-keeps :
        (mode : PayoutMode) (args : ClaimArgs) (config : IpFlowState) (request : MintRequest)
        (w : World) (payout : Payout)
        → pay_out rt tx a mode args config request w ≡ ok payout
        → KeepsOwn w payout.world
    unfolding pay_out
    pay_out-keeps PayoutMode.sol args config request w payout h =
        pay_out_sol-keeps config request w payout h
    pay_out-keeps PayoutMode.token args config request w payout h =
        pay_out_token-keeps args config request w payout h
