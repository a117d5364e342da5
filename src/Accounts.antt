-- ===== src/Accounts.antt =====
-- internal/app/model.go: the saved accounts, a Go map with the order of insertion beside it.
pub mod Laws
use agy_swap.Prelude.{
  ℕ, String, Bool, List, [], ◌∷◌, ◌++◌, Option, none, some, length, erase_first, is_some,
  if◌then◌else◌,
}
use agy_swap.Prelude.Map
use agy_swap.Prelude.Map.{Map}
use agy_swap.Value.{Account}

pub record Accounts : Type 0 where
  pub order : List String
  pub by_email : Map Account
  pub revision : ℕ  -- modification time of accounts.json, 0 for no file
  pub revision_hash : String

unfoldable pub new_accounts : Accounts
new_accounts = record { order = []; by_email = Map.empty; revision = 0; revision_hash = "" }

unfoldable pub len : Accounts → ℕ
len a = length a.order

unfoldable pub get : Accounts → String → Option Account
get a email = Map.get email a.by_email

unfoldable pub set : Accounts → String → Account → Accounts
set a email account = record a {
  order = if is_some (Map.get email a.by_email) then a.order else a.order ++ email ∷ [];
  by_email = Map.insert email account a.by_email;
}

-- `erase_first` is the loop over Order with its `break`.
unfoldable pub delete : Accounts → String → Accounts
delete a email =
    if is_some (Map.get email a.by_email)
    then record a { order = erase_first email a.order; by_email = Map.erase email a.by_email }
    else a
