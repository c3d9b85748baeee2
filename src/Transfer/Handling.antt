-- ===== src/Transfer/Handling.antt =====
-- What one call of transferHandler does to the bank.
use go_by_example.Prelude.{
  ℕ, ◌+◌, ◌%◌, ◌≡◌, ◌≢◌, inl, inr, refl, true, false, Option, none, some, List, [], ◌∷◌, String,
  if◌then◌else◌, Map, lookup, insert, comparable_string, lookup-insert, lookup-insert_self, arith,
  Bool-cases, Option-cases,
}
use go_by_example.Transfer.{
  word, plus, minus, less, TransferRequest, Bank, Method, post, other_method, already_handled,
  success, or_zero, balance, handled, withdraw, deposit, execute, transfer_from, locked,
  transfer_request, transfer_handler,
}

-- the money in the bank
unfoldable pub total : Map String ℕ → ℕ
total [] = 0
total (p ∷ ps) = p.1 + total ps

total-insert :
    (name : String) (v : ℕ) (m : Map String ℕ)
    → total (insert name v m) + or_zero (lookup name m) ≡ total m + v
unfolding total insert lookup
total-insert name v [] = omega arith
total-insert name v (p ∷ ps) = ground (arith, total-insert name v ps)

moved :
    (t t' t'' a b x : ℕ) → t' + a ≡ t + minus a x → t'' + b ≡ t' + plus b x → t'' % word ≡ t % word
moved t t' t'' a b x e f = omega arith

execute-total :
    (req : TransferRequest) (bank : Bank)
    → total (execute req bank).accounts % word ≡ total bank.accounts % word
unfolding execute deposit withdraw balance
execute-total req bank =
    let m = bank.accounts in
    let a = or_zero (lookup req.from_account m) in
    let m' = insert req.from_account (minus a req.amount) m in
    let b = or_zero (lookup req.to_account m') in
    moved (total m) (total m') (total (insert req.to_account (plus b req.amount) m')) a b req.amount
      (total-insert req.from_account (minus a req.amount) m)
      (total-insert req.to_account (plus b req.amount) m')

pub locked-total :
    (req : TransferRequest) (bank : Bank)
    → total (locked req bank).0.accounts % word ≡ total bank.accounts % word
unfolding locked transfer_from
locked-total req bank = elim (Option-cases (lookup req.from_account bank.accounts)) [
  | inl e ↦ rw e refl
  | inr (a, e) ↦ rw e (elim (Bool-cases (less a req.amount)) [
    | inl l ↦ rw l refl
    | inr l ↦ rw l (execute-total req bank)
  ])
]

-- A call of transferHandler keeps the money in the bank, as a sum of ints, whatever the request is
-- and whatever the call answers.
pub total_is_kept :
    (method : Method) (req : Option TransferRequest) (bank : Bank)
    → total (transfer_handler method req bank).0.accounts % word ≡ total bank.accounts % word
unfolding transfer_handler transfer_request
total_is_kept other_method req bank = refl
total_is_kept post none bank = refl
total_is_kept post (some req) bank = elim (Bool-cases (handled req.request_id bank)) [
  | inl h ↦ rw h refl
  | inr h ↦ rw h (locked-total req bank)
]

-- The balances after a transfer between two accounts.
pub execute-balance :
    (req : TransferRequest) (bank : Bank) (name : String)
    → req.from_account ≢ req.to_account
    → balance name (execute req bank) ≡ (
        if comparable_string.same req.from_account name
        then minus (balance name bank) req.amount
        else if comparable_string.same req.to_account name
        then plus (balance name bank) req.amount
        else balance name bank)
unfolding execute deposit withdraw balance
execute-balance req bank name apart =
    let m = bank.accounts in
    let taken = minus (or_zero (lookup req.from_account m)) req.amount in
    let m' = insert req.from_account taken m in
    ground (
      arith,
      lookup-insert req.from_account name taken m,
      lookup-insert req.from_account req.to_account taken m,
      lookup-insert req.to_account name (plus (or_zero (lookup req.to_account m')) req.amount) m',
      comparable_string.same_iff req.from_account name,
      comparable_string.same_iff req.to_account name,
      comparable_string.same_iff req.from_account req.to_account,
    )

-- A call that succeeds has executed the request.
pub succeeds :
    (req : TransferRequest) (bank : Bank) (a b : ℕ)
    → (transfer_handler post (some req) bank).1 ≡ success a b
    → ((transfer_handler post (some req) bank).0 ≡ execute req bank)
      × (less (balance req.from_account bank) req.amount ≡ false)
unfolding transfer_handler transfer_request locked transfer_from balance
succeeds req bank a b e = elim (Bool-cases (handled req.request_id bank)) [
  | inl h ↦ ground arith
  | inr h ↦ elim (Option-cases (lookup req.from_account bank.accounts)) [
    | inl l ↦ ground arith
    | inr (v, l) ↦ ground arith
  ]
]

execute-handled :
    (req : TransferRequest) (bank : Bank) → handled req.request_id (execute req bank) ≡ true
unfolding execute handled
execute-handled req bank = rw (lookup-insert_self req.request_id true bank.request_handle) refl

execute-keeps_handled :
    (req : TransferRequest) (id : String) (bank : Bank)
    → handled id bank ≡ true
    → handled id (execute req bank) ≡ true
unfolding execute handled deposit withdraw
execute-keeps_handled req id bank h =
    ground (arith, lookup-insert req.request_id id true bank.request_handle)

transfer_handler-keeps_handled :
    (method : Method) (req : Option TransferRequest) (id : String) (bank : Bank)
    → handled id bank ≡ true
    → handled id (transfer_handler method req bank).0 ≡ true
unfolding transfer_handler transfer_request locked transfer_from
transfer_handler-keeps_handled other_method req id bank h = h
transfer_handler-keeps_handled post none id bank h = h
transfer_handler-keeps_handled post (some req) id bank h =
    elim (Bool-cases (handled req.request_id bank)) [
      | inl e ↦ rw e h
      | inr e ↦ rw e (elim (Option-cases (lookup req.from_account bank.accounts)) [
        | inl l ↦ rw l h
        | inr (a, l) ↦ rw l (elim (Bool-cases (less a req.amount)) [
          | inl poor ↦ rw poor h
          | inr rich ↦ rw rich (execute-keeps_handled req id bank h)
        ])
      ])
    ]

-- the bank after some calls, one after the other
unfoldable pub after_calls : List (Method × Option TransferRequest) → Bank → Bank
after_calls [] bank = bank
after_calls ((method, req) ∷ calls) bank = after_calls calls (transfer_handler method req bank).0

after_calls-keeps_handled :
    (calls : List (Method × Option TransferRequest)) (id : String) (bank : Bank)
    → handled id bank ≡ true
    → handled id (after_calls calls bank) ≡ true
unfolding after_calls
after_calls-keeps_handled [] id bank h = h
after_calls-keeps_handled ((method, req) ∷ calls) id bank h =
    after_calls-keeps_handled calls id (transfer_handler method req bank).0
      (transfer_handler-keeps_handled method req id bank h)

-- A request that has succeeded can be repeated without harm: after it and whatever other calls, one
-- after the other, a call with the same request id answers that it was handled already, and leaves
-- the bank as it is.
pub repeat_is_harmless :
    (req again : TransferRequest) (bank : Bank) (a b : ℕ)
    (calls : List (Method × Option TransferRequest))
    → (transfer_handler post (some req) bank).1 ≡ success a b
    → again.request_id ≡ req.request_id
    → transfer_handler post
        (some again)
        (after_calls calls (transfer_handler post (some req) bank).0)
      ≡ (after_calls calls (transfer_handler post (some req) bank).0, already_handled)
unfolding transfer_handler transfer_request
repeat_is_harmless req again bank a b calls e same =
    rw ((succeeds req bank a b e).0, same)
      (ground (
        arith,
        after_calls-keeps_handled calls req.request_id (execute req bank)
            (execute-handled req bank),
      ))
