-- ===== src/Tests/Usdt.antt =====
-- A request that is paid in USDT.
use card_machine.Prelude.{some}
use card_machine.Constants.{usdt_mint_devnet}
use card_machine.Errors.{Result}
use card_machine.State.{PaymentMode}
use card_machine.Runtime.{World, AccountData, store}
use card_machine.Runtime.Sample.{sample}
use card_machine.User.RequestMint.{RequestMintAccounts, request_mint}
use card_machine.Tests.{user, slot, empty_world, signed_by}
use card_machine.Tests.User.{mint_accounts}

abbrev usdt_accounts : RequestMintAccounts
usdt_accounts = record mint_accounts {
  token_program = some 7;
  usdt_mint = some usdt_mint_devnet;
  user_token_account = some 601;
  vault_token_account = some 602;
}

-- The user holds 50 USDT, and the vault none.
abbrev usdt_world : World
usdt_world = store usdt_mint_devnet AccountData.mint (
    store 601
      (AccountData.token (record { mint = usdt_mint_devnet; owner = user; amount = 50_000_000 }))
      (store 602 (AccountData.token (record { mint = usdt_mint_devnet; owner = 102; amount = 0 }))
        empty_world))

abbrev usdt_requested : Result World
usdt_requested =
    request_mint sample (signed_by user) usdt_accounts 2 PaymentMode.usdt 1 slot usdt_world
