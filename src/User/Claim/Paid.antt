-- ===== src/User/Claim/Paid.antt =====
-- Claims that succeed (instructions/user/claim.rs): their checks, and the payout in SOL.
use card_machine.Prelude.{
  ℕ, ◌-◌, ◌*◌, ◌/◌, ◌≤◌, ◌≡◌, inl, inr, true, none, some, arith, Option-cases, ap, ◌∙◌,
}
use card_machine.Prelude.Int.{ℤ, pos, ltb_ℤ}
use card_machine.Constants.{claim_timeout_seconds}
use card_machine.Errors.{ok, Result-cases}
use card_machine.Words.{sub_i64}
use card_machine.State.{MintRequest, IpFlowState, PayoutMode, revealed, claim_completed, Event}
use card_machine.Runtime.{
  Runtime, World, Transaction, AccountData, contains, emit, close_account, move_lamports, Seeds,
  invoke_signed, system_transfer,
}
use card_machine.Runtime.Laws.{RuntimeLaws}
use card_machine.Runtime.Inversion.{as_config-cases, as_mint_request-cases}
use card_machine.Runtime.Transfers.{invoke_signed-transfer}
use card_machine.Pyth.{get_lamports_for_micro_usd}
use card_machine.User.Claim.{
  ClaimAccounts, ClaimArgs, Payout, pay_out, pay_out_sol, claim_handler, claim_accounts, claim,
}

module _ (rt : Runtime) (tx : Transaction) (a : ClaimAccounts) where
  -- What the checks of the accounts establish.
  pub record Accepts (args : ClaimArgs) (w : World) (request : MintRequest) (config : IpFlowState)
      : Type 0 where
    pub signed : contains tx.signers a.user ≡ true
    pub stored : w.account a.mint_request ≡ AccountData.mint_request request
    pub configured : w.account a.config ≡ AccountData.config config
    pub owned : request.user ≡ a.user
    pub drawn : request.status ≡ revealed
    pub same_slot : request.vrf_request_slot ≡ args.vrf_request_slot
    pub at_request :
        a.mint_request
        ≡ (rt.find_program_address (Seeds.mint_request a.user args.vrf_request_slot)).0
    pub at_vault : rt.create_program_address Seeds.vault config.vault_bump ≡ some a.vault

  accepted :
      (args : ClaimArgs) (w : World) (request : MintRequest) (config : IpFlowState)
      → claim_accounts rt tx a args w ≡ ok (request, config)
      → Accepts args w request config
  unfolding claim_accounts
  accepted args w request config h = elim (as_mint_request-cases (w.account a.mint_request)) [
    | inr (e, fails) ↦ absurd (ground arith)
    | inl (request', er) ↦ elim (as_config-cases (w.account a.config)) [
      | inr (e, fails) ↦ absurd (ground arith)
      | inl (config', ec) ↦
          elim (Option-cases (rt.create_program_address Seeds.vault config'.vault_bump)) [
            | inl none_found ↦ absurd (ground arith)
            | inr (address, ea) ↦ ground arith
          ]
    ]
  ]

  abbrev pub event_of : ClaimArgs → MintRequest → Payout → Event
  event_of args request payout = claim_completed (record {
    user = a.user;
    total_won_usd = request.total_won_usd;
    payout_mode = args.payout_mode;
    payment_mode = request.payment_mode;
    swap_router = payout.used_router;
    paid_amount = payout.final_paid_amount;
    amount_of_cards = request.amount_of_cards;
    timestamp = tx.clock.unix_timestamp;
  })

  -- The draw is less than a day ago.
  pub record InTime (request : MintRequest) : Type 0 where
    pub waited : ℤ
    pub age : sub_i64 rt.overflow_checks tx.clock.unix_timestamp request.revealed_at ≡ ok waited
    pub soon : ltb_ℤ waited (pos claim_timeout_seconds) ≡ true

  -- A claim made within a day of the draw pays out, records the payout and closes the request.
  pub record Claimed (args : ClaimArgs) (w w' : World) (request : MintRequest)
      (config : IpFlowState) (payout : Payout) : Type 0 where
    pub accepts : Accepts args w request config
    pub in_time : InTime request
    pub paid : pay_out rt tx a args.payout_mode args config request w ≡ ok payout
    pub result :
        w' ≡ close_account a.mint_request a.user (emit (event_of args request payout) payout.world)

  handler_steps :
      (args : ClaimArgs) (w w' w'' : World) (request request' : MintRequest) (config : IpFlowState)
      → claim_handler rt tx a args config request w ≡ ok (request', w')
      → w'' ≡ close_account a.mint_request a.user w'
      → Accepts args w request config
      → (payout : Payout) × Claimed args w w'' request config payout
  unfolding claim_handler
  handler_steps args w w' w'' request request' config h close accepts =
      elim (Result-cases (sub_i64 rt.overflow_checks tx.clock.unix_timestamp request.revealed_at)) [
        | inr (e, fails) ↦ absurd (ground arith)
        | inl (waited, age) ↦
            elim (Result-cases (pay_out rt tx a args.payout_mode args config request w)) [
              | inr (e, fails) ↦ absurd (ground arith)
              | inl (payout, paid) ↦ (
                payout,
                record {
                  accepts = accepts;
                  in_time = record { waited = waited; age = age; soon = ground arith };
                  paid = paid;
                  result = ground arith;
                },
              )
            ]
      ]

  pub claimed_lem :
      (args : ClaimArgs) (w w' : World)
      → claim rt tx a args w ≡ ok w'
      → (request : MintRequest) × (config : IpFlowState) × (payout : Payout) × Claimed args w w'
          request config payout
  unfolding claim
  claimed_lem args w w' h = elim (Result-cases (claim_accounts rt tx a args w)) [
    | inr (e, fails) ↦ absurd (ground arith)
    | inl (p, e) ↦ elim (Result-cases (claim_handler rt tx a args p.1 p.0 w)) [
      | inr (x, fails) ↦ absurd (ground arith)
      | inl (q, eh) ↦
          let (payout, c) =
            handler_steps args w q.1 w' p.0 q.0 p.1 eh (ground arith) (accepted args w p.0 p.1 e) in
          (p.0, p.1, payout, c)
    ]
  ]

pay_out_sol_lem :
    (rt : Runtime) (laws : RuntimeLaws rt) (tx : Transaction) (a : ClaimAccounts)
    (config : IpFlowState) (request : MintRequest) (w : World) (payout : Payout)
    → pay_out_sol rt tx a config request w ≡ ok payout
    → (lamports : ℕ) × (get_lamports_for_micro_usd rt tx.clock w a.pyth_price_update
          (request.total_won_usd * 95 / 100)
        ≡ ok lamports)
      × (lamports ≤ w.lamports a.vault - rt.minimum_balance 0)
      × (payout ≡ record {
        final_paid_amount = lamports;
        used_router = none;
        world = move_lamports a.vault a.user lamports w;
      })
unfolding pay_out_sol
pay_out_sol_lem rt laws tx a config request w payout h =
    elim (Result-cases (
      get_lamports_for_micro_usd rt tx.clock w a.pyth_price_update
        (request.total_won_usd * 95 / 100))) [
          | inr (e, fails) ↦ absurd (ground arith)
          | inl (lamports, e) ↦
              elim (Result-cases (
                invoke_signed rt (system_transfer a.vault a.user lamports) tx Seeds.vault
                  config.vault_bump w)) [
                    | inr (x, fails) ↦ absurd (ground arith)
                    | inl (w₁, moved) ↦
                        let t =
                          invoke_signed-transfer rt laws tx Seeds.vault config.vault_bump a.vault
                            a.user lamports w w₁ moved in
                        (lamports, e, ground arith, ground (arith, t.0))
                  ]
        ]

pay_out_of_sol :
    (rt : Runtime) (tx : Transaction) (a : ClaimAccounts) (args : ClaimArgs) (config : IpFlowState)
    (request : MintRequest) (w : World) (payout : Payout)
    → args.payout_mode ≡ PayoutMode.sol
    → pay_out rt tx a args.payout_mode args config request w ≡ ok payout
    → pay_out_sol rt tx a config request w ≡ ok payout
unfolding pay_out
pay_out_of_sol rt tx a args config request w payout sol h = ground arith

-- What a claim in SOL has done.
abbrev pub PaysSol : Runtime → Transaction → ClaimAccounts → ClaimArgs → World → World → Type 0
PaysSol rt tx a args w w' =
    (request : MintRequest) × (config : IpFlowState) × (lamports : ℕ) × Accepts rt tx a args w
      request config
    × InTime rt tx a request
    × (get_lamports_for_micro_usd rt tx.clock w a.pyth_price_update
          (request.total_won_usd * 95 / 100)
        ≡ ok lamports)
    × (lamports ≤ w.lamports a.vault - rt.minimum_balance 0)
    × (w'
        ≡ close_account a.mint_request a.user (
            emit
              (event_of rt tx a args request
                (record { final_paid_amount = lamports; used_router = none; world = w }))
              (move_lamports a.vault a.user lamports w)))

-- A claim in SOL that succeeds was made by the request's own user, who signed it, less than a day
-- after the draw. It pays 95% of the prize, rounded down to a millionth of a dollar, at the
-- oracle's price out of the vault, whose rent it leaves. Besides, it records the payout, gives the
-- lamports of the request's account to the winner and empties that account, and nothing else.
pub claim_sol_pays :
    (rt : Runtime) (laws : RuntimeLaws rt) (tx : Transaction) (a : ClaimAccounts) (args : ClaimArgs)
    (w w' : World)
    → args.payout_mode ≡ PayoutMode.sol
    → claim rt tx a args w ≡ ok w'
    → PaysSol rt tx a args w w'
claim_sol_pays rt laws tx a args w w' sol h =
    let (request, config, payout, c) = claimed_lem rt tx a args w w' h in
    let (lamports, e, cap, same) =
      pay_out_sol_lem rt laws tx a config request w payout
        (pay_out_of_sol rt tx a args config request w payout sol c.paid) in
    (
      request,
      config,
      lamports,
      c.accepts,
      c.in_time,
      e,
      cap,
      c.result
          ∙ ap
              (λ p.
                close_account a.mint_request a.user
                  (emit (event_of rt tx a args request p) (Payout.world p)))
              same,
    )
