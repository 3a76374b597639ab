-- ===== src/Oracle/Commute.antt =====
-- Callbacks for two requests, in either order (instructions/oracle/consume_randomness.rs).
use mathlib.Core.List.{Perm}
use mathlib.Core.List.Perm
use card_machine.Prelude.{◌∷◌, ℕ, ◌≡◌, sym, ◌∙◌, ap, inl, inr, List, ◌==◌, Bool-cases, arith}
use card_machine.Constants.{Pubkey}
use card_machine.Errors.{ok, Result-cases}
use card_machine.State.{MintRequest, IpFlowState, Event}
use card_machine.Runtime.{Runtime, World, Transaction, AccountData, update, store, emit}
use card_machine.Vrf.{LotteryResult, process_vrf_result}
use card_machine.Oracle.{ConsumeAccounts, reveal, consume_handler, consume_lottery_randomness}
use card_machine.Oracle.Reveal.{Accepts, accepted, accept_steps, event_of}

-- Two worlds with the same accounts and lamports, and the same events up to their order.
pub record SameLedger (w v : World) : Type 0 where
  pub account : (key : Pubkey) → w.account key ≡ v.account key
  pub lamports : (key : Pubkey) → w.lamports key ≡ v.lamports key
  pub events : Perm w.events v.events

module _ (rt : Runtime) (tx : Transaction) (a : ConsumeAccounts) (randomness : List ℕ) where
  -- What a callback that succeeds has read, and what it has written.
  record Runs (w w' : World) : Type 0 where
    request : MintRequest
    config : IpFlowState
    result : LotteryResult
    accepts : Accepts rt tx a w request config
    processed :
        process_vrf_result randomness request.amount_of_cards config.active_pool_count
          config.active_pool_indices
        ≡ ok result
    left :
        w'
        ≡ store a.mint_request
            (AccountData.mint_request (reveal rt tx a result request))
            (emit (event_of rt tx a request result) w)

  runs : (w w' : World) → consume_lottery_randomness rt tx a randomness w ≡ ok w' → Runs w w'
  unfolding consume_lottery_randomness consume_handler
  runs w w' h =
      let (request, config, acc) = accepted rt tx a randomness w w' h in
      let stored = acc.stored in
      let configured = acc.configured in
      let waiting = acc.waiting in
      elim (Result-cases (
        process_vrf_result randomness request.amount_of_cards config.active_pool_count
          config.active_pool_indices)) [
            | inr (e, fails) ↦ absurd (ground arith)
            | inl (result, e) ↦
                let steps = accept_steps rt tx a randomness w request config result acc e in
                record {
                  request = request;
                  config = config;
                  result = result;
                  accepts = acc;
                  processed = e;
                  left = ground (arith, steps);
                }
          ]

  -- A callback reads nothing but two accounts.
  moved :
      (w w' v : World) (x : Runs w w')
      → v.account a.mint_request ≡ AccountData.mint_request x.request
      → v.account a.config ≡ AccountData.config x.config
      → consume_lottery_randomness rt tx a randomness v
        ≡ ok (
            store a.mint_request
              (AccountData.mint_request (reveal rt tx a x.result x.request))
              (emit (event_of rt tx a x.request x.result) v))
  moved w w' v x stored configured =
      let acc = x.accepts in
      accept_steps rt tx a randomness v x.request x.config x.result
        (record {
          stored = stored;
          configured = configured;
          signed = acc.signed;
          by_oracle = acc.by_oracle;
          waiting = acc.waiting;
          request_mut = acc.request_mut;
          at_config = acc.at_config;
        })
        x.processed

-- A request that is written at another address hides no request.
update_past :
    (f : Pubkey → AccountData) (k j : Pubkey) (d : AccountData) → ¬ (k ≡ j) → update f k d j ≡ f j
update_past f k j d two = ground arith

-- A configuration that is read is read past every request that is written.
config_past :
    (f : Pubkey → AccountData) (k j : Pubkey) (r : MintRequest) (c : IpFlowState)
    → update f k (AccountData.mint_request r) j ≡ AccountData.config c
    → f j ≡ AccountData.config c
config_past f k j r c e = elim (Bool-cases (j == k)) [
  | inl is ↦ absurd (ground arith)
  | inr other ↦ ground arith
]

past_config :
    (f : Pubkey → AccountData) (k j : Pubkey) (r r' : MintRequest) (c : IpFlowState)
    → f k ≡ AccountData.mint_request r
    → f j ≡ AccountData.config c
    → update f k (AccountData.mint_request r') j ≡ AccountData.config c
past_config f k j r r' c held e = elim (Bool-cases (j == k)) [
  | inl is ↦ let same : j ≡ k = ground arith in absurd (ground arith)
  | inr other ↦ ground arith
]

update_swap :
    (f : Pubkey → AccountData) (k j : Pubkey) (d d' : AccountData) (key : Pubkey)
    → ¬ (k ≡ j)
    → update (update f k d) j d' key ≡ update (update f j d') k d key
update_swap f k j d d' key two = ground arith

events_swap :
    (first second : Event) (us vs l : List Event)
    → vs ≡ first ∷ l
    → us ≡ second ∷ vs
    → Perm us (first ∷ second ∷ l)
events_swap first second us vs l e h =
    let both : us ≡ second ∷ first ∷ l = cc in rw both (Perm.swap first second l)

-- Two callbacks that succeed one after the other, for different requests, succeed in the other
-- order too, and leave the same accounts and the same lamports, and the same events up to their
-- order.
pub consume-commute :
    (rt : Runtime) (tx tx' : Transaction) (a b : ConsumeAccounts) (bytes bytes' : List ℕ)
    (w v u : World)
    → ¬ (a.mint_request ≡ b.mint_request)
    → consume_lottery_randomness rt tx a bytes w ≡ ok v
    → consume_lottery_randomness rt tx' b bytes' v ≡ ok u
    → (v' : World) × (u' : World) × (consume_lottery_randomness rt tx' b bytes' w ≡ ok v')
      × (consume_lottery_randomness rt tx a bytes v' ≡ ok u')
      × SameLedger u u'
consume-commute rt tx tx' a b bytes bytes' w v u two first second =
    let x = runs rt tx a bytes w v first in
    let y = runs rt tx' b bytes' v u second in
    let acc_x = x.accepts in
    let acc_y = y.accepts in
    let after_first = λ (key : Pubkey). ap (λ z. World.account z key) x.left in
    let stored =
      sym (update_past w.account a.mint_request b.mint_request _ two)
      ∙ sym (after_first b.mint_request)
      ∙ acc_y.stored in
    let configured =
      config_past w.account a.mint_request b.config _ y.config
        (sym (after_first b.config) ∙ acc_y.configured) in
    let first_now = moved rt tx' b bytes' v u w y stored configured in
    let drawn = AccountData.mint_request (reveal rt tx' b y.result y.request) in
    let middle = store b.mint_request drawn (emit (event_of rt tx' b y.request y.result) w) in
    let second_now =
      moved rt tx a bytes w v middle x
        (update_past w.account b.mint_request a.mint_request _ (λ e. two (sym e)) ∙ acc_x.stored)
        (past_config w.account b.mint_request a.config y.request _ x.config stored
          acc_x.configured) in
    (
      middle,
      _,
      first_now,
      second_now,
      record {
        account = λ key.
            ap (λ z. World.account z key) y.left
            ∙ ap (λ z. update (World.account z) b.mint_request drawn key) x.left
            ∙ update_swap w.account a.mint_request b.mint_request _ _ key two;
        lamports =
            λ key. ap (λ z. World.lamports z key) y.left ∙ ap (λ z. World.lamports z key) x.left;
        events = events_swap _ _ _ _ w.events (ap World.events x.left) (ap World.events y.left);
      },
    )
