-- ===== src/User/RequestMint/Recorded.antt =====
-- The request that is stored and the randomness that is asked for
-- (instructions/user/request_mint.rs), field by field.
use card_machine.Prelude.{ℕ, ◌≡◌, refl, true, false, [], ◌∷◌}
use card_machine.Prelude.Int.{pos}
use card_machine.State.{MintRequest, PaymentMode, pending}
use card_machine.Runtime.{Runtime, Transaction, RandomnessParams}
use card_machine.User.RequestMint.{RequestMintAccounts, new_request, vrf_params}

module _ (rt : Runtime) (tx : Transaction) (a : RequestMintAccounts) where
  -- The randomness that is asked for: the user pays the oracle's queue, with the hash of the
  -- client's byte as the seed, and the callback is passed the request to write and the
  -- configuration to read.
  pub record AsksFor (client_seed : ℕ) (p : RandomnessParams) : Type 0 where
    pub payer : p.payer ≡ a.user
    pub queue : p.oracle_queue ≡ a.oracle_queue
    pub seed : p.caller_seed ≡ rt.hash (client_seed ∷ [])
    pub accounts :
        p.accounts_metas
        ≡ record { pubkey = a.mint_request; is_signer = false; is_writable = true }
          ∷ record { pubkey = a.config; is_signer = false; is_writable = false }
          ∷ []

  pub vrf_params-AsksFor : (client_seed : ℕ) → AsksFor client_seed (vrf_params rt tx a client_seed)
  unfolding vrf_params
  vrf_params-AsksFor client_seed = record {
    payer = refl;
    queue = refl;
    seed = refl;
    accounts = refl;
  }

  -- The request that is stored: it waits, with no prize and no draw yet, and records its user, what
  -- was bought and paid, and when.
  pub record Records (cards : ℕ) (mode : PaymentMode) (slot paid_amount : ℕ) (r : MintRequest)
      : Type 0 where
    pub user : r.user ≡ a.user
    pub cards_bought : r.amount_of_cards ≡ cards
    pub waiting : r.status ≡ pending
    pub mode_paid : r.payment_mode ≡ mode
    pub amount : r.paid_amount ≡ paid_amount
    pub nothing_won : r.total_won_usd ≡ 0
    pub created_at : r.created_at ≡ tx.clock.unix_timestamp
    pub not_drawn : (r.revealed_at ≡ pos 0) × (r.reveal_slot ≡ 0)
    pub no_pool : r.selected_pool_index ≡ 0
    pub slots : (r.commit_slot ≡ slot) × (r.vrf_request_slot ≡ slot)
    pub no_randomness_account : r.randomness_account ≡ 0

  pub new_request-Records :
      (cards : ℕ) (mode : PaymentMode) (slot paid_amount : ℕ)
      → Records cards mode slot paid_amount (new_request rt tx a cards mode slot paid_amount)
  unfolding new_request
  new_request-Records cards mode slot paid_amount = record {
    user = refl;
    cards_bought = refl;
    waiting = refl;
    mode_paid = refl;
    amount = refl;
    nothing_won = refl;
    created_at = refl;
    not_drawn = (refl, refl);
    no_pool = refl;
    slots = (refl, refl);
    no_randomness_account = refl;
  }
