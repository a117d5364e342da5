-- ===== src/Tests/AccountsTests.antt =====
-- Accounts.
use agy_swap.Value.{field, text, end, Account}
use agy_swap.Accounts.{Accounts, new_accounts, set}
use agy_swap.Accounts.Laws.{IsConsistent, new-IsConsistent, set-IsConsistent}

abbrev ann : Account
ann = field "email" (text "ann@x.io") end

abbrev two_accounts : Accounts
two_accounts = set (set new_accounts "ann@x.io" ann) "bob@x.io" end

two_accounts-IsConsistent : IsConsistent two_accounts
two_accounts-IsConsistent =
    set-IsConsistent (set new_accounts "ann@x.io" ann) "bob@x.io" end
      (set-IsConsistent new_accounts "ann@x.io" ann new-IsConsistent)
