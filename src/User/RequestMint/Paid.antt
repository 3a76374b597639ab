-- ===== src/User/RequestMint/Paid.antt =====
-- Requests that succeed (instructions/user/request_mint.rs): the payment and what is stored.
use card_machine.Prelude.{ℕ, ◌+◌, ◌*◌, ◌≤◌, ◌≡◌, inl, inr, Option, none, some, arith, Option-cases}
use card_machine.Constants.{Pubkey, usdt_mint_devnet}
use card_machine.Errors.{ok, Result-cases}
use card_machine.State.{IpFlowState, PaymentMode}
use card_machine.Runtime.{
  Runtime, World, Transaction, AccountData, TokenAccount, store, move_lamports, Seeds,
  invoke_signed, system_transfer, token_transfer, request_randomness,
}
use card_machine.Runtime.Laws.{RuntimeLaws}
use card_machine.Runtime.Passed.{HeldAt}
use card_machine.Pyth.{get_lamports_for_usd}
use card_machine.User.RequestMint.{
  RequestMintAccounts, mint_request_space, usdt_unit, pay_sol, check_usdt, pay_usdt, pay,
  new_request, vrf_params, request_mint_accounts, check_request, request_mint,
}
use card_machine.User.RequestMint.Recorded.{
  AsksFor, vrf_params-AsksFor, Records, new_request-Records,
}
use card_machine.User.RequestMint.Accepted.{Accepts, accepted, Allowed, allowed}

module _ (rt : Runtime) (tx : Transaction) (a : RequestMintAccounts) where
  -- A payment of USDT: ten for each card, from the account of the user to the vault's. `loaded` is
  -- the world whose accounts the instruction has read.
  pub record UsdtPaid (amount_of_cards paid_amount : ℕ) (v u : Pubkey × TokenAccount)
      (loaded w w' : World) : Type 0 where
    pub vault_passed : a.vault_token_account ≡ some v.0
    pub user_passed : a.user_token_account ≡ some u.0
    pub vault_held : loaded.account v.0 ≡ AccountData.token v.1
    pub user_held : loaded.account u.0 ≡ AccountData.token u.1
    pub price : paid_amount ≡ amount_of_cards * 10 * usdt_unit
    pub from_user : u.1.owner ≡ a.user
    pub from_mint : u.1.mint ≡ usdt_mint_devnet
    pub to_vault : v.1.owner ≡ a.vault
    pub to_mint : v.1.mint ≡ usdt_mint_devnet
    pub two_accounts : ¬ (v.0 ≡ u.0)
    pub sent : rt.invoke (token_transfer u.0 v.0 a.user paid_amount) tx.signers w ≡ ok w'

  -- What each mode of payment costs, and what it does to the world.
  abbrev pub Paid : PaymentMode → ℕ → ℕ → World → World → World → Type 0
  Paid PaymentMode.sol amount_of_cards paid_amount loaded w w' =
      (get_lamports_for_usd rt tx.clock w a.pyth_price_update (amount_of_cards * 10)
        ≡ ok paid_amount)
      × (paid_amount ≤ w.lamports a.user)
      × (w' ≡ move_lamports a.user a.vault paid_amount w)
  Paid PaymentMode.usdt amount_of_cards paid_amount loaded w w' =
      (v : Pubkey × TokenAccount) × (u : Pubkey × TokenAccount) × UsdtPaid amount_of_cards
        paid_amount v u loaded w w'

  check_usdt_lem :
      (mint : Pubkey) (u v : Pubkey × TokenAccount) (x : Unit {0})
      → check_usdt rt tx a mint u v ≡ ok x
      → (u.1.owner ≡ a.user)
        × (u.1.mint ≡ usdt_mint_devnet)
        × (v.1.owner ≡ a.vault)
        × (v.1.mint ≡ usdt_mint_devnet)
        × ¬ (v.0 ≡ u.0)
  unfolding check_usdt
  check_usdt_lem mint u v x h = ground arith

  pay_usdt_lem :
      (amount_of_cards paid_amount : ℕ) (v u : Option (Pubkey × TokenAccount)) (loaded w w' : World)
      → amount_of_cards ≤ 100
      → HeldAt loaded a.vault_token_account v
      → HeldAt loaded a.user_token_account u
      → pay_usdt rt tx a u v amount_of_cards w ≡ ok (paid_amount, w')
      → Paid PaymentMode.usdt amount_of_cards paid_amount loaded w w'
  unfolding pay_usdt
  pay_usdt_lem amount_of_cards paid_amount none u loaded w w' small hv hu h = absurd (ground arith)
  pay_usdt_lem amount_of_cards paid_amount (some v) none loaded w w' small hv hu h =
      absurd (ground arith)
  pay_usdt_lem amount_of_cards paid_amount (some v) (some u) loaded w w' small hv hu h =
      elim (Option-cases a.usdt_mint) [
        | inl fails ↦ absurd (ground arith)
        | inr (mint, em) ↦ elim (Result-cases (check_usdt rt tx a mint u v)) [
          | inr (e, fails) ↦ absurd (ground arith)
          | inl (x, ex) ↦
              let (ou, mu, ov, mv, two) = check_usdt_lem mint u v x ex in
              elim (Result-cases (
                rt.invoke (token_transfer u.0 v.0 a.user (amount_of_cards * 10 * usdt_unit))
                  tx.signers w)) [
                    | inr (e, fails) ↦ absurd (ground arith)
                    | inl (moved, sent) ↦ (
                      v,
                      u,
                      record {
                        vault_passed = hv.0;
                        user_passed = hu.0;
                        vault_held = hv.1;
                        user_held = hu.1;
                        price = ground arith;
                        from_user = ou;
                        from_mint = mu;
                        to_vault = ov;
                        to_mint = mv;
                        two_accounts = two;
                        sent = ground arith;
                      },
                    )
                  ]
        ]
      ]

  pay_sol_lem :
      (laws : RuntimeLaws rt) (amount_of_cards paid_amount : ℕ) (loaded w w' : World)
      → amount_of_cards ≤ 100
      → pay_sol rt tx a amount_of_cards w ≡ ok (paid_amount, w')
      → Paid PaymentMode.sol amount_of_cards paid_amount loaded w w'
  unfolding pay_sol
  pay_sol_lem laws amount_of_cards paid_amount loaded w w' small h =
      elim (Result-cases
        (get_lamports_for_usd rt tx.clock w a.pyth_price_update (amount_of_cards * 10))) [
          | inr (e, fails) ↦ absurd (ground arith)
          | inl (lamports, el) ↦
              elim (Result-cases
                (rt.invoke (system_transfer a.user a.vault lamports) tx.signers w)) [
                  | inr (e, fails) ↦ absurd (ground arith)
                  | inl (moved, sent) ↦
                      let t = laws.transfer a.user a.vault lamports tx.signers w moved sent in
                      (ground arith, ground (arith, t.1), ground (arith, t.0))
                ]
        ]

  pay_lem :
      (laws : RuntimeLaws rt) (mode : PaymentMode) (amount_of_cards paid_amount : ℕ)
      (v u : Option (Pubkey × TokenAccount)) (loaded w w' : World)
      → amount_of_cards ≤ 100
      → HeldAt loaded a.vault_token_account v
      → HeldAt loaded a.user_token_account u
      → pay rt tx a mode u v amount_of_cards w ≡ ok (paid_amount, w')
      → Paid mode amount_of_cards paid_amount loaded w w'
  unfolding pay
  pay_lem laws PaymentMode.sol amount_of_cards paid_amount v u loaded w w' small hv hu h =
      pay_sol_lem laws amount_of_cards paid_amount loaded w w' small h
  pay_lem laws PaymentMode.usdt amount_of_cards paid_amount v u loaded w w' small hv hu h =
      pay_usdt_lem amount_of_cards paid_amount v u loaded w w' small hv hu h

-- What a request has done.
abbrev pub Requests :
    Runtime → Transaction → RequestMintAccounts → ℕ → PaymentMode → ℕ → ℕ → World → World → Type 0
Requests rt tx a amount_of_cards mode client_seed slot w w' =
    (config : IpFlowState) × (created paid requested : World) × (paid_amount : ℕ) × Accepts rt tx a
      slot w created config
    × (w.account a.mint_request ≡ AccountData.vacant)
    × Allowed rt tx a amount_of_cards slot config
    × Paid rt tx a mode amount_of_cards paid_amount w created paid
    × AsksFor rt tx a client_seed (vrf_params rt tx a client_seed)
    × (invoke_signed rt (request_randomness (vrf_params rt tx a client_seed)) tx Seeds.identity
          (rt.find_program_address Seeds.identity).1 paid
        ≡ ok requested)
    × Records rt tx a amount_of_cards mode slot paid_amount
        (new_request rt tx a amount_of_cards mode slot paid_amount)
    × (w'
        ≡ store a.mint_request
            (AccountData.mint_request (new_request rt tx a amount_of_cards mode slot paid_amount))
            requested)

pub request_mint_pays :
    (rt : Runtime) (laws : RuntimeLaws rt) (tx : Transaction) (a : RequestMintAccounts)
    (amount_of_cards : ℕ) (mode : PaymentMode) (client_seed slot : ℕ) (w w' : World)
    → request_mint rt tx a amount_of_cards mode client_seed slot w ≡ ok w'
    → Requests rt tx a amount_of_cards mode client_seed slot w w'
unfolding request_mint
request_mint_pays rt laws tx a amount_of_cards mode client_seed slot w w' h =
    elim (Result-cases (request_mint_accounts rt tx a slot w)) [
      | inr (e, fails) ↦ absurd (ground arith)
      | inl (p, ep) ↦
          let (acc, hu, hv) = accepted rt tx a slot w p.3 p.0 p.2 p.1 ep in
          elim (Result-cases (check_request rt tx a amount_of_cards slot p.0)) [
            | inr (x, refused) ↦ absurd (ground arith)
            | inl (u, eu) ↦
                let ok_here = allowed rt tx a amount_of_cards slot p.0 u eu in
                elim (Result-cases (pay rt tx a mode p.1 p.2 amount_of_cards p.3)) [
                  | inr (y, unpaid) ↦ absurd (ground arith)
                  | inl (q, eq) ↦
                      elim (Result-cases (
                        invoke_signed rt (request_randomness (vrf_params rt tx a client_seed)) tx
                          Seeds.identity (rt.find_program_address Seeds.identity).1 q.1)) [
                            | inr (z, unasked) ↦ absurd (ground arith)
                            | inl (requested, er) ↦ (
                              p.0,
                              p.3,
                              q.1,
                              requested,
                              q.0,
                              acc,
                              (laws.create_keeps a.user a.mint_request (8 + mint_request_space) w
                                  p.3 acc.opened).1,
                              ok_here,
                              pay_lem rt tx a laws mode amount_of_cards q.0 p.2 p.1 w p.3 q.1
                                  ok_here.at_most hv hu eq,
                              vrf_params-AsksFor rt tx a client_seed,
                              er,
                              new_request-Records rt tx a amount_of_cards mode slot q.0,
                              ground arith,
                            )
                          ]
                ]
          ]
    ]
