-- ===== src/Runtime/Inversion.antt =====
-- Case splits on what an account holds.
use card_machine.Prelude.{◌≡◌, refl, ◌⊎◌, inl, inr}
use card_machine.Errors.{Error, err}
use card_machine.State.{IpFlowState, MintRequest, PrizePoolAccount}
use card_machine.Runtime.{
  AccountData, config, mint_request, prize_pool, vacant, as_config, as_mint_request, as_prize_pool,
}

pub as_config-cases :
    (d : AccountData) → ((c : IpFlowState) × (d ≡ config c)) ⊎ ((e : Error) × (as_config d ≡ err e))
as_config-cases (config c) = inl (c, refl)
as_config-cases vacant = inr (_, refl)
as_config-cases _ = inr (_, refl)

pub as_mint_request-cases :
    (d : AccountData)
    → ((r : MintRequest) × (d ≡ mint_request r)) ⊎ ((e : Error) × (as_mint_request d ≡ err e))
as_mint_request-cases (mint_request r) = inl (r, refl)
as_mint_request-cases vacant = inr (_, refl)
as_mint_request-cases _ = inr (_, refl)

pub as_prize_pool-cases :
    (d : AccountData)
    → ((p : PrizePoolAccount) × (d ≡ prize_pool p)) ⊎ ((e : Error) × (as_prize_pool d ≡ err e))
as_prize_pool-cases (prize_pool p) = inl (p, refl)
as_prize_pool-cases vacant = inr (_, refl)
as_prize_pool-cases _ = inr (_, refl)
