-- ===== src/Accounts/Laws.antt =====
-- internal/app/model.go: the order and the map of `Accounts`, under Set and Delete.
use agy_swap.Prelude.{
  String, ◌≡◌, refl, true, false, List, [], ◌∷◌, ◌++◌, none, some, member, is_nodup, erase_first,
  is_some, if◌then◌else◌, arith, ◌==◌, eq_iff, member-append,
}
use agy_swap.Prelude.Map.{map_laws, get-insert, get-erase}
use agy_swap.Value.{Account}
use agy_swap.Accounts.{Accounts, new_accounts, get, set, delete}

-- No email stands twice in the order, and the order lists the keys of the map.
pub record IsConsistent (a : Accounts) : Type 0 where
  pub nodup : is_nodup a.order ≡ true
  pub listed : (email : String) → is_some (get a email) ≡ member email a.order

pub new-IsConsistent : IsConsistent new_accounts
unfolding new_accounts get
new-IsConsistent = record { nodup = refl; listed = λ e. simp map_laws }

pub is_nodup-snoc :
    (k : String) (xs : List String)
    → is_nodup xs ≡ true
    → member k xs ≡ false
    → is_nodup (xs ++ k ∷ []) ≡ true
is_nodup-snoc k [] h m = refl
is_nodup-snoc k (x ∷ xs) h m =
    ground (arith, is_nodup-snoc k xs, member-append x xs (k ∷ []), eq_iff k x, eq_iff x k)

member-erase :
    (k j : String) (xs : List String)
    → is_nodup xs ≡ true
    → member j (erase_first k xs) ≡ (if k == j then false else member j xs)
member-erase k j [] h = ground arith
member-erase k j (x ∷ xs) h =
    ground (arith, member-erase k j xs, eq_iff x k, eq_iff j x, eq_iff k j)

is_nodup-erase :
    (k : String) (xs : List String) → is_nodup xs ≡ true → is_nodup (erase_first k xs) ≡ true
is_nodup-erase k [] h = refl
is_nodup-erase k (x ∷ xs) h =
    ground (arith, is_nodup-erase k xs, member-erase k x xs, eq_iff x k, eq_iff k x)

-- Setting an account, new or known, keeps the accounts consistent.
pub set-IsConsistent :
    (a : Accounts) (email : String) (account : Account)
    → IsConsistent a
    → IsConsistent (set a email account)
unfolding set get
set-IsConsistent a email account c = record {
  nodup = ground (arith, is_nodup-snoc email a.order, c.listed email);
  listed = λ j. simp map_laws (
      ground (
        arith,
        c.listed j,
        c.listed email,
        member-append j a.order (email ∷ []),
        eq_iff email j,
        eq_iff j email,
      ));
}

-- Deleting an account, known or not, keeps the accounts consistent.
pub delete-IsConsistent :
    (a : Accounts) (email : String) → IsConsistent a → IsConsistent (delete a email)
unfolding delete get
delete-IsConsistent a email c = record {
  nodup = ground (arith, is_nodup-erase email a.order);
  listed = λ j. ground (
    arith,
    c.listed j,
    c.listed email,
    member-erase email j a.order,
    eq_iff email j,
    get-erase email j a.by_email,
  );
}

-- After a Set, Get returns the account under its email and what it returned before elsewhere.
pub get-set :
    (a : Accounts) (email j : String) (account : Account)
    → get (set a email account) j ≡ (if email == j then some account else get a j)
unfolding set get
get-set a email j account = simp get-insert

-- After a Delete, Get returns nothing under the email and what it returned before elsewhere.
pub get-delete :
    (a : Accounts) (email j : String)
    → get (delete a email) j ≡ (if email == j then none else get a j)
unfolding delete get
get-delete a email j = ground (arith, get-erase email j a.by_email, eq_iff email j)
