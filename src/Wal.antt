-- ===== src/Wal.antt =====
-- wal/main.go: a map of texts whose Put first writes a line to a log, and which is filled from the log
-- at the start. A text is its code points, the disk is the content of the log file, and the mutex
-- lets one call run at a time.
pub mod Lines
pub mod Recovery
mod Tests
use go_by_example.Prelude.{
  ℕ, ◌+◌, Bool, true, false, not, Option, none, some, List, [], ◌∷◌, ◌++◌, if◌then◌else◌, leb, eqb,
  length, take, Map, lookup, insert, Result, ok, err, ◌>>=◌,
}
use go_by_example.Prelude.Texts.{
  Text, is_empty, is_space, trim_left, split, utf8, same_text, comparable_text,
}

pub record Wal : Type 0 where
  pub store : Map Text Text

pub data WalError : Type 0 where
  open_failed read_open_failed write_failed sync_failed token_too_long : WalError

-- what the operating system does: which calls succeed, and how much a failed write has written
pub record Os : Type 0 where
  pub open_append : Bool
  pub open_read : Bool
  pub write : Bool
  pub written : ℕ
  pub sync : Bool

-- the text up to a space, and the rest
unfoldable pub token : Text → Text × Text
token [] = ([], [])
token (c ∷ s) = let (front, rest) = token s in if is_space c then ([], c ∷ s) else (c ∷ front, rest)

abbrev pub if_some : Text × Text → Option (Text × Text)
if_some ([], rest) = none
if_some (c ∷ s, rest) = some (c ∷ s, rest)

-- a `%s` of Sscanf
unfoldable pub word : Text → Option (Text × Text)
unfolding token trim_left
word s = if_some (token (trim_left s))

abbrev pub last_word : Text → Text → Option (Text × Text) → Option (Text × Text × Text)
last_word op k none = none
last_word op k (some (v, rest)) = if is_empty (trim_left rest) then some (op, k, v) else none

abbrev pub second_word : Text → Option (Text × Text) → Option (Text × Text × Text)
second_word op none = none
second_word op (some (k, rest)) = last_word op k (word rest)

abbrev pub first_word : Option (Text × Text) → Option (Text × Text × Text)
first_word none = none
first_word (some (op, rest)) = second_word op (word rest)

-- fmt.Sscanf of a line by logFormat: a tab in the format takes any spaces, and the newline spaces and
-- the end
unfoldable pub sscanf_log : Text → Option (Text × Text × Text)
unfolding word
sscanf_log line = first_word (word line)

-- "PUT"
abbrev pub put_op : Text
put_op = b'P' ∷ b'U' ∷ b'T' ∷ []

abbrev pub restore : Option (Text × Text × Text) → Map Text Text → Map Text Text
restore none store = store
restore (some (op, k, v)) store = if same_text op put_op then insert k v store else store

abbrev pub drop_last_empty : List Text → List Text
drop_last_empty [] = []
drop_last_empty ([] ∷ []) = []
drop_last_empty (l ∷ ls) = l ∷ drop_last_empty ls

-- bufio.ScanLines drops a carriage return at the end of a line
unfoldable pub drop_cr : Text → Text
drop_cr [] = []
drop_cr (c ∷ s) =
    let rest = drop_cr s in if eqb c 13 then (if is_empty s then [] else c ∷ rest) else c ∷ rest

unfoldable pub lines : Text → List Text
lines content = drop_last_empty (split content 10)

-- the loop of `recover` over the lines; the scanner fails on a line of 64 KiB
unfoldable pub recover_lines : List Text → Map Text Text → Result WalError (Map Text Text)
unfolding sscanf_log drop_cr
recover_lines [] store = ok store
recover_lines (l ∷ ls) store =
    let rest = recover_lines ls (restore (sscanf_log (drop_cr l)) store) in
    if leb 65536 (length (utf8 l)) then err token_too_long else rest

unfoldable pub recover : Os → Text → Map Text Text → Result WalError (Map Text Text)
unfolding recover_lines lines
recover os disk store =
    if os.open_read then recover_lines (lines disk) store else err read_open_failed

unfoldable pub new_wal : Os → Text → Result WalError Wal
unfolding recover
new_wal os disk =
    if os.open_append
    then recover os disk [] >>= (λ store. ok (record { store = store }))
    else err open_failed

-- fmt.Fprint to the file, and Sync
unfoldable pub append_synced : Os → Text → Text → Text × Result WalError (Unit {0})
append_synced os text disk =
    if not os.write
    then (disk ++ take os.written text, err write_failed)
    else if not os.sync
    then (disk ++ text, err sync_failed)
    else (disk ++ text, ok tt)

abbrev pub log_entry : Text → Text → Text
log_entry key value = put_op ++ (9 ∷ (key ++ (9 ∷ (value ++ 10 ∷ []))))

abbrev pub stored :
    Text → Text → Wal → Text × Result WalError (Unit {0}) → Text × Wal × Result WalError (Unit {0})
stored key value w (disk, err e) = (disk, w, err e)
stored key value w (disk, ok u) = (disk, record w { store = insert key value w.store }, ok u)

unfoldable pub put : Os → Text → Text → Text → Wal → Text × Wal × Result WalError (Unit {0})
unfolding append_synced
put os key value disk w = stored key value w (append_synced os (log_entry key value) disk)

unfoldable pub get : Text → Wal → Option Text
get key w = lookup key w.store

unfoldable pub write_end_marker : Os → Text → Text × Result WalError (Unit {0})
unfolding append_synced
write_end_marker os disk = append_synced os (10 ∷ []) disk

unfoldable pub close : Os → Text → Text × Result WalError (Unit {0})
unfolding write_end_marker
close os disk = write_end_marker os disk
