-- ===== src/Runtime/Passed.antt =====
-- What the optional token accounts of an instruction hold.
use card_machine.Prelude.{◌≡◌, inl, inr, Option, none, some, arith}
use card_machine.Constants.{Pubkey}
use card_machine.Errors.{ok, Result-cases}
use card_machine.Runtime.{World, AccountData, TokenAccount, optional, as_token}

as_token_lem : (d : AccountData) (t : TokenAccount) → as_token d ≡ ok t → d ≡ AccountData.token t
as_token_lem d t h = ground arith

-- An optional token account that was read is the one that was passed, and holds what was read.
abbrev pub HeldAt : World → Option Pubkey → Option (Pubkey × TokenAccount) → Type 0
HeldAt w p none = Unit {0}
HeldAt w p (some t) = (p ≡ some t.0) × (w.account t.0 ≡ AccountData.token t.1)

pub HeldAt-of :
    (w : World) (p : Option Pubkey) (t : Option (Pubkey × TokenAccount))
    → optional p (λ key. as_token (w.account key)) ≡ ok t
    → HeldAt w p t
HeldAt-of w none none h = tt
HeldAt-of w none (some t) h = absurd (ground arith)
HeldAt-of w (some key) none h = tt
HeldAt-of w (some key) (some t) h = elim (Result-cases (as_token (w.account key))) [
  | inr (e, fails) ↦ absurd (ground arith)
  | inl (x, e) ↦ let held = as_token_lem (w.account key) x e in ground arith
]
