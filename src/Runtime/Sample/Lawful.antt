-- ===== src/Runtime/Sample/Lawful.antt =====
-- The laws, for the sample runtime.
use card_machine.Prelude.{ℕ, ◌≤◌, replicate, ◌≡◌, refl, List, arith, [], ◌∷◌}
use card_machine.Constants.{Pubkey}
use card_machine.Errors.{ok}
use card_machine.Runtime.{
  World, AccountData, Instruction, system_transfer, token_transfer, call, sync_native,
  close_token_account, request_randomness, AccountMeta, move_lamports, store, raw, vacant,
}
use card_machine.Layout.RoundTrip.{length-encode, admin-encode, decode-encode}
use card_machine.Runtime.Laws.{
  RuntimeLaws, ConfigLayout, ServesTransfers, KeepsOwn, own, keeps_same, keeps_trans,
}
use card_machine.Runtime.Sample.{
  discriminator, sample, sample_invoke, sample_create, credit, debit, exchange, credit_at, debit_at,
}

own-credit : (n : ℕ) (d : AccountData) → own (credit n d) ≡ own d
own-credit n d = ground arith

own-debit : (n : ℕ) (d : AccountData) → own (debit n d) ≡ own d
own-debit n d = ground arith

credit_keeps : (key n : ℕ) (w : World) → KeepsOwn w (credit_at key n w)
credit_keeps key n w = record {
  accounts = λ k. ground (arith, own-credit n (w.account key));
  events = refl;
}

debit_keeps : (key n : ℕ) (w : World) → KeepsOwn w (debit_at key n w)
debit_keeps key n w = record {
  accounts = λ k. ground (arith, own-debit n (w.account key));
  events = refl;
}

moved_keeps :
    (from to out into : ℕ) (w : World) → KeepsOwn w (credit_at to into (debit_at from out w))
moved_keeps from to out into w =
    keeps_trans (debit_keeps from out w) (credit_keeps to into (debit_at from out w))

exchange_keeps : (metas : List AccountMeta) (w : World) → KeepsOwn w (exchange metas w)
exchange_keeps [] w = keeps_same w
exchange_keeps (a ∷ []) w = keeps_same w
exchange_keeps (a ∷ b ∷ rest) w = moved_keeps a.pubkey b.pubkey 500 1000 w

transfer_result :
    (from to amount : ℕ) (signers : List Pubkey) (w w' : World)
    → sample_invoke (system_transfer from to amount) signers w ≡ ok w'
    → (w' ≡ move_lamports from to amount w) × (amount ≤ w.lamports from)
transfer_result from to amount signers w w' h = (ground arith, ground arith)

token_transfer_result :
    (from to authority amount : ℕ) (signers : List Pubkey) (w w' : World)
    → sample_invoke (token_transfer from to authority amount) signers w ≡ ok w'
    → w' ≡ credit_at to amount (debit_at from amount w)
token_transfer_result from to authority amount signers w w' h = ground arith

invoke_keeps_lem :
    (ix : Instruction) (signers : List Pubkey) (w w' : World)
    → sample_invoke ix signers w ≡ ok w'
    → KeepsOwn w w'
invoke_keeps_lem (system_transfer from to amount) signers w w' h =
    let e = transfer_result from to amount signers w w' h in
    rw e.0 (record { accounts = λ k. refl; events = refl })
invoke_keeps_lem (token_transfer from to authority amount) signers w w' h =
    rw (token_transfer_result from to authority amount signers w w' h)
      (moved_keeps from to amount amount w)
invoke_keeps_lem (call program_id metas bytes) signers w w' h =
    let e : w' ≡ exchange metas w = cc in rw e (exchange_keeps metas w)
invoke_keeps_lem (sync_native p k) signers w w' h = let e : w' ≡ w = cc in rw e (keeps_same w)
invoke_keeps_lem (close_token_account p k d o) signers w w' h =
    let e : w' ≡ w = cc in rw e (keeps_same w)
invoke_keeps_lem (request_randomness p) signers w w' h = let e : w' ≡ w = cc in rw e (keeps_same w)

create_result :
    (payer address space : ℕ) (w w' : World)
    → sample_create payer address space w ≡ ok w'
    → (w' ≡ store address (raw (replicate 8 0)) w) × (w.account address ≡ vacant)
create_result payer address space w w' h = ground arith

create_keeps_lem :
    (payer address space : ℕ) (w w' : World)
    → sample_create payer address space w ≡ ok w'
    → KeepsOwn w w' × (w.account address ≡ vacant)
create_keeps_lem payer address space w w' h =
    let (e, free) = create_result payer address space w w' h in
    (rw e (record { accounts = λ k. ground arith; events = refl }), free)

pub sample-RuntimeLaws : RuntimeLaws sample
sample-RuntimeLaws = record {
  transfer = transfer_result;
  invoke_keeps = invoke_keeps_lem;
  create_keeps = create_keeps_lem;
  bump_in_range = λ seeds. omega arith;
}

pub sample-ConfigLayout : ConfigLayout sample
sample-ConfigLayout = record {
  size = λ c f. length-encode discriminator c refl f;
  admin_at = λ c f. admin-encode discriminator c refl f;
  reads_back = λ c f. decode-encode discriminator c refl f;
}

pub sample-ServesTransfers : ServesTransfers sample
sample-ServesTransfers = record {
  serves = λ from to amount signers w signed empty covered fits. ground arith;
}
