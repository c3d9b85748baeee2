-- ===== src/Transfer/Calls.antt =====
-- Calls of transferHandler that run at the same time: the test of the request id comes before the
-- lock, so that a call has two atomic parts.
use go_by_example.Prelude.{
  ℕ, ◌%◌, ◌≡◌, ◌≢◌, refl, ◌∙◌, false, some, if◌then◌else◌, eqb, eqb_iff, lookup, comparable_string,
  insert, lookup-insert_self, lookup-insert_ne, arith, subst,
}
use go_by_example.Transfer.{
  word, minus, plus, or_zero, deposit, withdraw, less, TransferRequest, Bank, Response,
  already_handled, balance, handled, execute, locked, transfer_from,
}
use go_by_example.Transfer.Handling.{total, locked-total}

pub data Call : Type 0 where
  begun passed : Call
  answered : Response → Call

-- Call `i` handles the request `reqs i`.
pub record World : Type 0 where
  pub bank : Bank
  pub calls : ℕ → Call

abbrev pub opened : Bank → World
opened bank = record { bank = bank; calls = λ (i : ℕ). begun }

abbrev at : ℕ → Call → World → ℕ → Call
at i c w j = if eqb j i then c else w.calls j

-- the test of the request id
unfoldable pub test_id : ℕ → TransferRequest → World → World
unfolding handled
test_id i req w = record w {
  calls = at i (if handled req.request_id w.bank then answered already_handled else passed) w;
}

-- what the call does while it has the lock
unfoldable pub commit : ℕ → TransferRequest → World → World
unfolding locked
commit i req w = record w {
  bank = (locked req w.bank).0;
  calls = at i (answered (locked req w.bank).1) w;
}

locked-executes :
    (req : TransferRequest) (bank : Bank) (a : ℕ)
    → lookup req.from_account bank.accounts ≡ some a
    → less a req.amount ≡ false
    → (locked req bank).0 ≡ execute req bank
unfolding locked transfer_from
locked-executes req bank a l e = ground arith

execute-lookup :
    (req : TransferRequest) (bank : Bank) (a : ℕ)
    → req.from_account ≢ req.to_account
    → lookup req.from_account bank.accounts ≡ some a
    → lookup req.from_account (execute req bank).accounts ≡ some (minus a req.amount)
unfolding execute deposit withdraw balance
execute-lookup req bank a apart l =
    let m = bank.accounts in
    let m' = insert req.from_account (minus (or_zero (lookup req.from_account m)) req.amount) m in
    ground (
      arith,
      lookup-insert_self req.from_account (minus (or_zero (lookup req.from_account m)) req.amount)
          m,
      lookup-insert_ne req.to_account req.from_account
          (plus (or_zero (lookup req.to_account m')) req.amount) m',
    )

-- the two calls, with both tests before both payments
tested : ℕ → ℕ → TransferRequest → Bank → World
tested i j req bank = test_id j req (test_id i req (opened bank))

both : ℕ → ℕ → TransferRequest → Bank → World
both i j req bank = commit j req (commit i req (tested i j req bank))

tested-passed :
    (i j : ℕ) (req : TransferRequest) (bank : Bank)
    → i ≢ j
    → handled req.request_id bank ≡ false
    → ((test_id i req (opened bank)).calls j ≡ begun)
      × ((tested i j req bank).calls i ≡ passed)
      × ((commit i req (tested i j req bank)).calls j ≡ passed)
unfolding tested test_id commit
tested-passed i j req bank different fresh = ground (arith, eqb_iff i j, eqb_iff j i)

both-lookup :
    (i j : ℕ) (req : TransferRequest) (bank : Bank) (a : ℕ)
    → req.from_account ≢ req.to_account
    → lookup req.from_account bank.accounts ≡ some a
    → less a req.amount ≡ false
    → less (minus a req.amount) req.amount ≡ false
    → lookup req.from_account (both i j req bank).bank.accounts
      ≡ some (minus (minus a req.amount) req.amount)
unfolding both tested test_id commit
both-lookup i j req bank a apart has enough enough_twice =
    let once = execute-lookup req bank a apart has in
    rw (locked-executes req bank a has enough) (
      rw (locked-executes req (execute req bank) (minus a req.amount) once enough_twice)
        (execute-lookup req (execute req bank) (minus a req.amount) apart once))

module _ (reqs : ℕ → TransferRequest) where
  pub data Step : World → World → Type 0 where
    test : {w : World} (i : ℕ) → w.calls i ≡ begun → Step w (test_id i (reqs i) w)
    lock : {w : World} (i : ℕ) → w.calls i ≡ passed → Step w (commit i (reqs i) w)

  infixr 30 ◌then◌
  pub data Run : World → World → Type 0 where
    now : {w : World} → Run w w
    ◌then◌ : {u v w : World} → Step u v → Run v w → Run u w

  Step-total :
      {v w : World} → Step v w → total w.bank.accounts % word ≡ total v.bank.accounts % word
  unfolding test_id commit
  Step-total (test i e) = refl
  Step-total {v} (lock i e) = locked-total (reqs i) v.bank

  -- Calls that run at the same time keep the money in the bank, in whatever order their parts
  -- come.
  pub Run-total :
      {v w : World} → Run v w → total w.bank.accounts % word ≡ total v.bank.accounts % word
  Run-total now = refl
  Run-total (step then run) = Run-total run ∙ Step-total step

  -- Two calls with the same request, which is not handled yet and which the account that pays can
  -- pay twice, may both execute it: some execution of the two calls takes the amount twice.
  pub paid_twice :
      (req : TransferRequest) (bank : Bank) (i j a : ℕ)
      → i ≢ j
      → reqs i ≡ req
      → reqs j ≡ req
      → req.from_account ≢ req.to_account
      → handled req.request_id bank ≡ false
      → lookup req.from_account bank.accounts ≡ some a
      → less a req.amount ≡ false
      → less (minus a req.amount) req.amount ≡ false
      → (w : World) × Run (opened bank) w
        × (lookup req.from_account w.bank.accounts ≡ some (minus (minus a req.amount) req.amount))
  unfolding both tested
  paid_twice req bank i j a different at_i at_j apart fresh has enough enough_twice =
      let (begun_j, passed_i, passed_j) = tested-passed i j req bank different fresh in
      (
        both i j req bank,
        subst (λ r. Step (opened bank) (test_id i r (opened bank))) at_i (test i refl)
            then subst
                (λ r.
                  Step (test_id i req (opened bank)) (test_id j r (test_id i req (opened bank))))
                at_j (test j begun_j)
            then subst (λ r. Step (tested i j req bank) (commit i r (tested i j req bank))) at_i
                (lock i passed_i)
            then subst
                (λ r.
                  Step (commit i req (tested i j req bank))
                    (commit j r (commit i req (tested i j req bank))))
                at_j (lock j passed_j)
            then now,
        both-lookup i j req bank a apart has enough enough_twice,
      )
