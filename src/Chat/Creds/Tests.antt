-- ===== src/Chat/Creds/Tests.antt =====
-- A table of two accounts, saved and found again.
use basic_jqr.Base.{◌≡◌, refl, true, none, some, [], ◌∷◌, arith, Returns, c_str}
use basic_jqr.HashTable.{HashTable}
use basic_jqr.HashTable.Put.{IsTable}
use basic_jqr.Chat.State.{User}
use basic_jqr.Chat.Creds.{admin, phteven, get_creds, write_creds}
use basic_jqr.Chat.Creds.Records.{IsAccount}
use basic_jqr.Chat.Creds.Saved.{Restored, get_creds-write_creds}

abbrev two_accounts : HashTable User
two_accounts = record {
  entries = none ∷ some phteven ∷ none ∷ some admin ∷ [];
  size = 2;
  max_size = 4;
}

two_accounts-IsTable : IsTable two_accounts
two_accounts-IsTable = record { shape = refl; counted = omega arith; spare = omega arith }

admin-IsAccount : IsAccount admin
unfolding c_str
admin-IsAccount = record {
  passwd = record { whole = refl; short = omega arith };
  uname = record { whole = refl; short = omega arith };
}

phteven-IsAccount : IsAccount phteven
unfolding c_str
phteven-IsAccount = record {
  passwd = record { whole = refl; short = omega arith };
  uname = record { whole = refl; short = omega arith };
}

get_creds-write_creds_example :
    Returns
      (λ file.
        Returns
          (λ (ht', file'). Restored (phteven ∷ admin ∷ []) ht' × (file' ≡ file))
          (get_creds true true (λ n. true) (some file)))
      (write_creds two_accounts)
get_creds-write_creds_example =
    get_creds-write_creds two_accounts (λ n. true) two_accounts-IsTable
      (phteven-IsAccount, (admin-IsAccount, tt)) (λ n. refl)
