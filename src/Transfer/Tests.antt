-- ===== src/Transfer/Tests.antt =====
-- Transfers between the two accounts of the program.
use go_by_example.Prelude.{
  ℕ, zero, ◌%◌, ◌≡◌, ◌≢◌, [], ◌∷◌, refl, true, false, Option, none, some, List, lookup, insert,
  comparable_string, arith,
}
use go_by_example.Transfer.{
  word, minus, TransferRequest, initial_bank, Method, post, success, already_handled, balance,
  handled, withdraw, deposit, execute, transfer_from, locked, transfer_request, transfer_handler,
}
use go_by_example.Transfer.Handling.{total, total_is_kept, after_calls, repeat_is_harmless}
use go_by_example.Transfer.Calls.{World, opened, Run, Run-total, paid_twice}

abbrev hundred : TransferRequest
hundred = record { request_id = "r1"; from_account = "A"; to_account = "B"; amount = 100 }

-- the amount is -100
abbrev minus_hundred : TransferRequest
minus_hundred = record hundred { amount = 18446744073709551516 }

distinct_accounts : hundred.from_account ≢ hundred.to_account
distinct_accounts e = ground (arith, comparable_string.same_iff "A" "B")

hundred_moves : transfer_handler post (some hundred) initial_bank ≡ (
  record { accounts = ("A", 900) ∷ ("B", 1100) ∷ []; request_handle = ("r1", true) ∷ [] },
  success 900 1100,
)
unfolding lookup insert balance handled withdraw deposit execute transfer_from locked
    transfer_request transfer_handler
hundred_moves = refl

hundred_succeeds : (transfer_handler post (some hundred) initial_bank).1 ≡ success 900 1100
hundred_succeeds = rw hundred_moves refl

total_is_kept_example :
    total (transfer_handler post (some hundred) initial_bank).0.accounts % word
    ≡ total initial_bank.accounts % word
total_is_kept_example = total_is_kept post (some hundred) initial_bank

-- a request that is too large, one that cannot be read, and a transfer back
abbrev others : List (Method × Option TransferRequest)
others =
    (post, some (record hundred { request_id = "r2"; amount = 5000 }))
    ∷ (post, none)
    ∷ (post, some (record { request_id = "r3"; from_account = "B"; to_account = "A"; amount = 50 }))
    ∷ []

repeat_is_harmless_example :
    transfer_handler post
      (some hundred)
      (after_calls others (transfer_handler post (some hundred) initial_bank).0)
    ≡ (after_calls others (transfer_handler post (some hundred) initial_bank).0, already_handled)
repeat_is_harmless_example =
    repeat_is_harmless hundred hundred initial_bank 900 1100 others hundred_succeeds refl

new_request : handled "r1" initial_bank ≡ false
unfolding handled lookup
new_request = refl

account_a : lookup "A" initial_bank.accounts ≡ some 1000
unfolding lookup
account_a = refl

abbrev same_request : ℕ → TransferRequest
same_request i = hundred

abbrev second : ℕ
second = 1

two_calls : zero ≢ second
two_calls e = ground arith

paid_twice_example :
    (w : World) × Run same_request (opened initial_bank) w
    × (lookup "A" w.bank.accounts ≡ some (minus (minus 1000 100) 100))
paid_twice_example =
    paid_twice same_request hundred initial_bank zero second 1000 two_calls refl refl
      distinct_accounts new_request account_a refl refl

-- the two calls that both pay
abbrev after_both : World
after_both =
    (paid_twice same_request hundred initial_bank zero second 1000 two_calls refl refl
      distinct_accounts new_request account_a refl refl).0

Run-total_example : total after_both.bank.accounts % word ≡ total initial_bank.accounts % word
Run-total_example =
    Run-total same_request
      (paid_twice same_request hundred initial_bank zero second 1000 two_calls refl refl
        distinct_accounts new_request account_a refl refl).1
