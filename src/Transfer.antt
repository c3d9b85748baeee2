-- ===== src/Transfer.antt =====
-- transferHandler of uuid/uuid3/main.go: transfers between accounts, with request ids that are to
-- make a repeated request harmless. An `int` is a number below 2 ^ 64 in two's complement.
pub mod Handling
pub mod Calls
mod Tests
use go_by_example.Prelude.{
  ℕ, ◌+◌, ◌-◌, ◌%◌, ◌≡◌, Bool, true, false, Option, none, some, List, [], ◌∷◌, String,
  if◌then◌else◌, ltb, eqb, Map, lookup, insert, comparable_string,
}

abbrev pub word : ℕ
word = 18446744073709551616

abbrev pub half_word : ℕ
half_word = 9223372036854775808

abbrev pub plus : ℕ → ℕ → ℕ
plus a b = (a + b) % word

abbrev pub minus : ℕ → ℕ → ℕ
minus a b = (a + (word - b % word)) % word

-- `<` on int
abbrev pub less : ℕ → ℕ → Bool
less a b = ltb ((a + half_word) % word) ((b + half_word) % word)

pub record TransferRequest : Type 0 where
  pub request_id : String
  pub from_account : String
  pub to_account : String
  pub amount : ℕ

pub record Bank : Type 0 where
  pub accounts : Map String ℕ
  pub request_handle : Map String Bool

pub data Method : Type 0 where
  post other_method : Method

pub data Response : Type 0 where
  method_not_allowed invalid_request already_handled insufficient_balance : Response
  success : ℕ → ℕ → Response

-- the zero value for a key that is missing
abbrev pub or_zero : Option ℕ → ℕ
or_zero none = 0
or_zero (some a) = a

abbrev pub or_false : Option Bool → Bool
or_false none = false
or_false (some b) = b

unfoldable pub balance : String → Bank → ℕ
balance name bank = or_zero (lookup name bank.accounts)

unfoldable pub handled : String → Bank → Bool
handled id bank = or_false (lookup id bank.request_handle)

abbrev pub initial_bank : Bank
initial_bank = record { accounts = ("A", 1000) ∷ ("B", 1000) ∷ []; request_handle = [] }

unfoldable pub withdraw : String → ℕ → Bank → Bank
unfolding balance
withdraw name amount bank = record bank {
  accounts = insert name (minus (balance name bank) amount) bank.accounts;
}

unfoldable pub deposit : String → ℕ → Bank → Bank
unfolding balance
deposit name amount bank = record bank {
  accounts = insert name (plus (balance name bank) amount) bank.accounts;
}

unfoldable pub execute : TransferRequest → Bank → Bank
unfolding withdraw deposit
execute req bank =
    let moved = deposit req.to_account req.amount (withdraw req.from_account req.amount bank) in
    record moved { request_handle = insert req.request_id true moved.request_handle }

unfoldable pub transfer_from : TransferRequest → Option ℕ → Bank → Bank × Response
unfolding execute balance
transfer_from req none bank = (bank, insufficient_balance)
transfer_from req (some from_balance) bank =
    if less from_balance req.amount then (bank, insufficient_balance) else (
      execute req bank,
      success (balance "A" (execute req bank)) (balance "B" (execute req bank)),
    )

-- what happens under the lock
unfoldable pub locked : TransferRequest → Bank → Bank × Response
unfolding transfer_from
locked req bank = transfer_from req (lookup req.from_account bank.accounts) bank

unfoldable pub transfer_request : TransferRequest → Bank → Bank × Response
unfolding handled locked
transfer_request req bank =
    if handled req.request_id bank then (bank, already_handled) else locked req bank

unfoldable pub transfer_handler : Method → Option TransferRequest → Bank → Bank × Response
unfolding transfer_request
transfer_handler other_method _ bank = (bank, method_not_allowed)
transfer_handler post none bank = (bank, invalid_request)
transfer_handler post (some req) bank = transfer_request req bank
