-- ===== src/Lifecycle/Selection.antt =====
-- The pool that a callback selects (instructions/oracle/consume_randomness.rs), among the pools
-- that have an account.
use native.Mathlib.Nat.{mod-lt}
use card_machine.Prelude.{
  ℕ, ◌-◌, ◌%◌, ◌<◌, ◌≡◌, refl, ap, sym, subst, some, inl, inr, List, [], ◌∷◌, All, length,
  get_elem?, get_elem?_total, get_elem?-append, replicate, zero, suc, arith,
}
use card_machine.Constants.{Pubkey, max_prize_pools}
use card_machine.Errors.{Result, ok}
use card_machine.State.{MintRequest, IpFlowState, revealed}
use card_machine.Runtime.{Runtime, World, Transaction, AccountData, store}
use card_machine.Runtime.Laws.{RuntimeLaws}
use card_machine.Runtime.Requests.{request_in}
use card_machine.Vrf.{LotteryResult, second_word}
use card_machine.Vrf.Draw.{prizes, Selects}
use card_machine.Oracle.{ConsumeAccounts, reveal, consume_lottery_randomness}
use card_machine.Oracle.Reveal.{consumed, consume-Reveals}
use card_machine.Admin.PrizePool.Active.{Represents, length-padded}
use card_machine.Lifecycle.Leaves.{consume-Leaves}
use card_machine.Lifecycle.Invariant.{WorldIsValid, StoredIsValid, RequestIsValid}
use card_machine.Lifecycle.Stored.{HasPool, left_pools, request-NoPool, pool_address}
use card_machine.Lifecycle.Consistent.{lists}
use card_machine.Lifecycle.PoolAccounts.{SettingsHold}

-- What is read at a position of a list has the property that every element has.
All_get {ℓ} :
    {A : Type 0} (P : A → Type ℓ) (xs : List A) (i : ℕ) (a : A)
    → All P xs
    → get_elem? xs i ≡ some a
    → P a
All_get P [] i a h e = absurd cc
All_get P (x ∷ xs) zero a (here, rest) e = let same : x ≡ a = cc in subst P same here
All_get P (x ∷ xs) (suc i) a (here, rest) e = All_get P xs i a rest e

-- A selection from the array reads the list that it represents.
Selects-Represents :
    (randomness : List ℕ) (c : IpFlowState) (pools : List ℕ) (selected : ℕ) (P : ℕ → Type 0)
    → Represents c pools
    → 0 < c.active_pool_count
    → All P pools
    → Selects randomness c.active_pool_count c.active_pool_indices selected
    → P selected
Selects-Represents randomness c pools selected P r some_active all
      (inl (none_active, zero_selected)) =
    absurd (omega arith)
Selects-Represents randomness c pools selected P r some_active all (inr (positive, found)) =
    let i = second_word randomness % c.active_pool_count in
    let under : i < length pools =
      omega (arith, r.counted, mod-lt (second_word randomness) some_active) in
    let (p, here) = get_elem?_total pools i under in
    let again = get_elem?-append pools (replicate (max_prize_pools - length pools) 255) i p here in
    let whole = subst (λ xs. get_elem? xs i ≡ some selected) r.padded found in
    let same : p ≡ selected = cc in subst P same (All_get P pools i p all here)

-- The account that a run has stored last.
stored_last :
    (run : Result World) (w w' : World) (key : Pubkey) (d : AccountData)
    → run ≡ ok (store key d w)
    → run ≡ ok w'
    → w'.account key ≡ d
stored_last run w w' key d stores leaves =
    let same : w' ≡ store key d w = cc in rw same (ground arith)

-- A revealed request at the address, whose pool has an account.
pub record HasPrize (rt : Runtime) (address : Pubkey) (w : World) (r : MintRequest) : Type 0 where
  pub stored : w.account address ≡ AccountData.mint_request r
  pub drawn : r.status ≡ revealed
  pub has_pool : HasPool rt w r.selected_pool_index

module _ (rt : Runtime) (laws : RuntimeLaws rt) (tx : Transaction) (a : ConsumeAccounts) where
  -- On a world whose settings hold and whose requests are valid, with at least one active pool, a
  -- callback that succeeds leaves a revealed request, and the pool that is selected for it has an
  -- account with that index in the world that the callback leaves.
  pub consume-HasPrize :
      (randomness : List ℕ) (config : IpFlowState) (w w' : World)
      → SettingsHold rt w
      → WorldIsValid w
      → w.account a.config ≡ AccountData.config config
      → 0 < config.active_pool_count
      → consume_lottery_randomness rt tx a randomness w ≡ ok w'
      → (r : MintRequest) × HasPrize rt a.mint_request w' r
  unfolding reveal
  consume-HasPrize randomness config w w' settings valid configured some_active h =
      let (r, s, result, acc, total, drawn_as, e) = consumed rt tx a randomness w w' h in
      let same_config : s ≡ config = ground arith in
      let v : RequestIsValid r =
        subst StoredIsValid (ap request_in acc.stored) (valid a.mint_request) in
      let l = lists rt w a.config s acc.at_config acc.configured settings.consistent in
      let (selected, runs, revealed_as, selects, low, high) =
        consume-Reveals rt tx a randomness w r s acc (omega (arith, v.at_most))
          (omega (arith, l.active.counted, l.active.fits, length-padded s l.pools l.active)) in
      let held =
        Selects-Represents randomness s l.pools selected (HasPool rt w) l.active
          (subst (λ c. 0 < c.active_pool_count) (sym same_config) some_active) l.stored selects in
      let (r', result', waiting, total', held', x) =
        consume-Leaves rt laws tx a randomness w w' h in
      let free = request-NoPool (w.account a.mint_request) r' held' in
      let kept = left_pools w w' a.mint_request _ x free (pool_address rt selected) selected held in
      let revealing : LotteryResult = record {
        total_won_usd = prizes randomness r.amount_of_cards;
        selected_pool_index = selected;
      } in
      (
        reveal rt tx a revealing r,
        record {
          stored = stored_last _ _ w' a.mint_request _ runs h;
          drawn = refl;
          has_pool = kept;
        },
      )
