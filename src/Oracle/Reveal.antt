-- ===== src/Oracle/Reveal.antt =====
-- The callback of the randomness (instructions/oracle/consume_randomness.rs).
use card_machine.Prelude.{ℕ, ◌*◌, ◌≤◌, ◌<◌, ◌≡◌, inl, inr, true, refl, sym, List, length, arith}
use card_machine.Constants.{tier1_min_usd, tier4_max_usd}
use card_machine.Errors.{ok, Result-cases}
use card_machine.State.{MintRequest, Event, IpFlowState, pending, revealed, lottery_revealed}
use card_machine.Words.{u32_mod}
use card_machine.Runtime.{
  Runtime, World, Transaction, AccountData, contains, store, emit, global_config,
}
use card_machine.Runtime.Inversion.{as_config-cases, as_mint_request-cases}
use card_machine.Vrf.{LotteryResult, process_vrf_result}
use card_machine.Vrf.Draw.{
  prizes, prizes_bounds, Selects, process_vrf_result_lem, process_vrf_result_total,
}
use card_machine.Oracle.{ConsumeAccounts, reveal, consume_handler, consume_lottery_randomness}

module _ (rt : Runtime) (tx : Transaction) (a : ConsumeAccounts) where
  abbrev pub event_of : MintRequest → LotteryResult → Event
  event_of request result = lottery_revealed (record {
    user = request.user;
    mint_request = a.mint_request;
    total_won_usd = result.total_won_usd;
    selected_pool_index = result.selected_pool_index;
    revealed_at = tx.clock.unix_timestamp;
  })

  handler_steps :
      (randomness : List ℕ) (config : IpFlowState) (request : MintRequest) (w : World)
      (result : LotteryResult)
      → request.status ≡ pending
      → process_vrf_result randomness request.amount_of_cards config.active_pool_count
          config.active_pool_indices
        ≡ ok result
      → consume_handler rt tx a randomness config request w
        ≡ ok (reveal rt tx a result request, emit (event_of request result) w)
  unfolding consume_handler
  handler_steps randomness config request w result p e = rw e (ground (arith, p))

  -- The request after the draw: it is revealed with a prize and a pool, at the time of the
  -- transaction, and is otherwise as it was.
  pub record IsDrawn (request drawn : MintRequest) (total_won_usd pool : ℕ) : Type 0 where
    pub is_revealed : drawn.status ≡ revealed
    pub won : drawn.total_won_usd ≡ total_won_usd
    pub pool_drawn : drawn.selected_pool_index ≡ pool
    pub time : drawn.revealed_at ≡ tx.clock.unix_timestamp
    pub slot : drawn.reveal_slot ≡ tx.clock.slot
    pub same_user : drawn.user ≡ request.user
    pub same_cards : drawn.amount_of_cards ≡ request.amount_of_cards
    pub same_payment :
        (drawn.payment_mode ≡ request.payment_mode) × (drawn.paid_amount ≡ request.paid_amount)
    pub same_start :
        (drawn.created_at ≡ request.created_at) × (drawn.commit_slot ≡ request.commit_slot)
    pub same_address :
        (drawn.vrf_request_slot ≡ request.vrf_request_slot)
        × (drawn.randomness_account ≡ request.randomness_account)

  reveal-IsDrawn :
      (result : LotteryResult) (request : MintRequest)
      → IsDrawn request
          (reveal rt tx a result request)
          result.total_won_usd
          result.selected_pool_index
  unfolding reveal
  reveal-IsDrawn result request = record {
    is_revealed = refl;
    won = refl;
    pool_drawn = refl;
    time = refl;
    slot = refl;
    same_user = refl;
    same_cards = refl;
    same_payment = (refl, refl);
    same_start = (refl, refl);
    same_address = (refl, refl);
  }

  -- Which accounts the callback accepts.
  pub record Accepts (w : World) (request : MintRequest) (config : IpFlowState) : Type 0 where
    pub stored : w.account a.mint_request ≡ AccountData.mint_request request
    pub configured : w.account a.config ≡ AccountData.config config
    pub signed : contains tx.signers a.vrf_program_identity ≡ true
    pub by_oracle : a.vrf_program_identity ≡ rt.vrf_program_identity
    pub waiting : request.status ≡ pending
    pub request_mut : tx.is_writable a.mint_request ≡ true
    pub at_config : a.config ≡ (rt.find_program_address global_config).0

  pub accepted :
      (randomness : List ℕ) (w w' : World)
      → consume_lottery_randomness rt tx a randomness w ≡ ok w'
      → (request : MintRequest) × (config : IpFlowState) × Accepts w request config
  unfolding consume_lottery_randomness
  accepted randomness w w' h = elim (as_mint_request-cases (w.account a.mint_request)) [
    | inr (e, fails) ↦ absurd (ground arith)
    | inl (request, er) ↦ elim (as_config-cases (w.account a.config)) [
      | inr (e, fails) ↦ absurd (ground arith)
      | inl (config, ec) ↦ (request, config, ground arith)
    ]
  ]

  pub accept_steps :
      (randomness : List ℕ) (w : World) (request : MintRequest) (config : IpFlowState)
      (result : LotteryResult)
      → Accepts w request config
      → process_vrf_result randomness request.amount_of_cards config.active_pool_count
          config.active_pool_indices
        ≡ ok result
      → consume_lottery_randomness rt tx a randomness w
        ≡ ok (
            store a.mint_request
              (AccountData.mint_request (reveal rt tx a result request))
              (emit (event_of request result) w))
  unfolding consume_lottery_randomness
  accept_steps randomness w request config result h e =
      rw (h.stored, h.configured)
        (ground (arith, handler_steps randomness config request w result h.waiting e))

consume_revealed_steps :
    (rt : Runtime) (tx : Transaction) (a : ConsumeAccounts) (randomness : List ℕ)
    (config : IpFlowState) (request request' : MintRequest) (w w' : World)
    → request.status ≡ pending
    → consume_handler rt tx a randomness config request w ≡ ok (request', w')
    → (result : LotteryResult) × (result.total_won_usd ≡ prizes randomness request.amount_of_cards)
      × (request' ≡ reveal rt tx a result request)
      × (w' ≡ emit (event_of rt tx a request result) w)
unfolding consume_handler
consume_revealed_steps rt tx a randomness config request request' w w' waiting h =
    elim (Result-cases (
      process_vrf_result randomness request.amount_of_cards config.active_pool_count
        config.active_pool_indices)) [
          | inr (e, fails) ↦ absurd (ground arith)
          | inl (result, e) ↦ (
            result,
            process_vrf_result_total randomness request.amount_of_cards config.active_pool_count
                config.active_pool_indices result e,
            ground arith,
            ground arith,
          )
        ]

-- What a callback that succeeds has done.
abbrev pub Consumes : Runtime → Transaction → ConsumeAccounts → List ℕ → World → World → Type 0
Consumes rt tx a randomness w w' =
    (request : MintRequest) × (config : IpFlowState) × (result : LotteryResult) × Accepts rt tx a w
      request config
    × (result.total_won_usd ≡ prizes randomness request.amount_of_cards)
    × IsDrawn rt tx a request (reveal rt tx a result request)
        (prizes randomness request.amount_of_cards) result.selected_pool_index
    × (w'
        ≡ store a.mint_request (AccountData.mint_request (reveal rt tx a result request))
            (emit (event_of rt tx a request result) w))

-- A callback that succeeds is signed by the oracle's identity, for the configuration's own account
-- and a pending request: a request that is revealed already is refused. It changes nothing but the
-- request, which is revealed with the sum of its cards' prizes and otherwise as it was, and the
-- events.
pub consumed :
    (rt : Runtime) (tx : Transaction) (a : ConsumeAccounts) (randomness : List ℕ) (w w' : World)
    → consume_lottery_randomness rt tx a randomness w ≡ ok w'
    → Consumes rt tx a randomness w w'
unfolding consume_lottery_randomness
consumed rt tx a randomness w w' h =
    let (request, config, acc) = accepted rt tx a randomness w w' h in
    let stored = acc.stored in
    let configured = acc.configured in
    elim (Result-cases (consume_handler rt tx a randomness config request w)) [
      | inr (e, fails) ↦ absurd (ground arith)
      | inl (q, e) ↦
          let (result, total, request_is, world_is) =
            consume_revealed_steps rt tx a randomness config request q.0 w q.1 acc.waiting e in
          let drawn = reveal-IsDrawn rt tx a result request in
          (request, config, result, acc, total, rw (sym total) drawn, ground arith)
    ]

-- What a callback that succeeds leaves: the request with the sum of its cards' prizes, within the
-- bounds, and the selected pool.
abbrev pub Reveals :
    Runtime → Transaction → ConsumeAccounts → List ℕ → World → MintRequest → IpFlowState → Type 0
Reveals rt tx a randomness w request config =
    (selected : ℕ) × (let result : LotteryResult = record {
      total_won_usd = prizes randomness request.amount_of_cards;
      selected_pool_index = selected;
    } in
      consume_lottery_randomness rt tx a randomness w
      ≡ ok (
          store a.mint_request (AccountData.mint_request (reveal rt tx a result request))
            (emit (event_of rt tx a request result) w)))
    × IsDrawn rt tx a request
        (reveal rt tx a
          (record {
            total_won_usd = prizes randomness request.amount_of_cards;
            selected_pool_index = selected;
          })
          request)
        (prizes randomness request.amount_of_cards) selected
    × Selects randomness config.active_pool_count config.active_pool_indices selected
    × (request.amount_of_cards * tier1_min_usd ≤ prizes randomness request.amount_of_cards)
    × (prizes randomness request.amount_of_cards ≤ request.amount_of_cards * tier4_max_usd)

-- On accounts that it accepts, for less than 2^32 cards and a count of active pools within the
-- list, the callback always succeeds. It marks the pending request as revealed at the
-- transaction's time, with the sum of the cards' prizes, 5.0 to 99.9 dollars each, and the
-- selected pool, leaves the rest of the request as it was, and emits the event.
pub consume-Reveals :
    (rt : Runtime) (tx : Transaction) (a : ConsumeAccounts) (randomness : List ℕ) (w : World)
    (request : MintRequest) (config : IpFlowState)
    → Accepts rt tx a w request config
    → request.amount_of_cards < u32_mod
    → config.active_pool_count ≤ length config.active_pool_indices
    → Reveals rt tx a randomness w request config
consume-Reveals rt tx a randomness w request config h small fits =
    let (selected, e, s) =
      process_vrf_result_lem randomness request.amount_of_cards config.active_pool_count
        config.active_pool_indices small fits in
    let bounds = prizes_bounds randomness request.amount_of_cards in
    (
      selected,
      accept_steps rt tx a randomness w request config _ h e,
      reveal-IsDrawn rt tx a _ request,
      s,
      bounds.0,
      bounds.1,
    )
