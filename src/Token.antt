-- ===== src/Token.antt =====
-- contracts/ERC20.sol: the storage of the token and its functions as transactions. The name, the
-- symbol and the decimals, which nothing reads, and the events are left out.
pub mod Supply
pub mod View
pub mod Turnout
use aragon_zk_governance.Common.{ℕ, ◌≡◌, bytes_eq, if◌then◌else◌}
use aragon_zk_governance.Config.{Address}
use aragon_zk_governance.Plugin.{Tx, done, ◌>>=◌, add, sub}

pub record Token : Type 0 where
  pub total_supply : ℕ
  pub balance_of : Address → ℕ
  pub allowance : Address → Address → ℕ

-- After the constructor.
abbrev pub new_token : Token
new_token = record { total_supply = 0; balance_of = λ a. 0; allowance = λ a b. 0 }

-- A write to a mapping of numbers.
abbrev pub set : (Address → ℕ) → Address → ℕ → Address → ℕ
set f a n = λ b. if bytes_eq b a then n else f b

-- `balanceOf[from] -= amount`, and `balanceOf[to] += amount`.
abbrev pub debit : Address → ℕ → Token → Tx Token
debit from amount t = do
  n ← sub (t.balance_of from) amount
  done (record t { balance_of = set t.balance_of from n })

abbrev pub credit : Address → ℕ → Token → Tx Token
credit to amount t = do
  n ← add 256 (t.balance_of to) amount
  done (record t { balance_of = set t.balance_of to n })

-- The functions that return a Boolean return `true`. The first argument is the sender.
unfoldable pub transfer : Address → Address → ℕ → Token → Tx Token
transfer sender recipient amount t = do t ← debit sender amount t; credit recipient amount t

unfoldable pub approve : Address → Address → ℕ → Token → Tx Token
approve sender spender amount t = done (record t {
  allowance =
      λ a b. if bytes_eq a sender then set (t.allowance a) spender amount b else t.allowance a b;
})

unfoldable pub transfer_from : Address → Address → Address → ℕ → Token → Tx Token
transfer_from spender sender recipient amount t = do
  n ← sub (t.allowance sender spender) amount
  t ← approve sender spender n t
  t ← debit sender amount t
  credit recipient amount t

unfoldable pub mint : Address → ℕ → Token → Tx Token
mint to amount t = do
  t ← credit to amount t
  n ← add 256 t.total_supply amount
  done (record t { total_supply = n })

unfoldable pub burn : Address → ℕ → Token → Tx Token
burn from amount t = do
  t ← debit from amount t
  n ← sub t.total_supply amount
  done (record t { total_supply = n })

-- A transaction that succeeds; anyone may send it.
pub data Step (t t' : Token) : Type 0 where
  transferred :
      (sender recipient : Address) (amount : ℕ)
      → transfer sender recipient amount t ≡ done t'
      → Step t t'
  approved :
      (sender spender : Address) (amount : ℕ)
      → approve sender spender amount t ≡ done t'
      → Step t t'
  transferred_from :
      (spender sender recipient : Address) (amount : ℕ)
      → transfer_from spender sender recipient amount t ≡ done t'
      → Step t t'
  minted : (to : Address) (amount : ℕ) → mint to amount t ≡ done t' → Step t t'
  burned : (from : Address) (amount : ℕ) → burn from amount t ≡ done t' → Step t t'

-- Deployed, then used.
pub data IsReached : Token → Type 0 where
  deployed : IsReached new_token
  next : {t t' : Token} → IsReached t → Step t t' → IsReached t'
