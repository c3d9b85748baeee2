-- ===== src/Wal/Recovery.antt =====
-- What NewWAL finds after a restart.
use go_by_example.Prelude.{
  ◌<◌, ◌≡◌, ◌∙◌, refl, sym, ap, subst, true, some, List, [], ◌∷◌, ◌++◌, length, All, arith, Map,
  insert, ok, lookup-insert_self,
}
use go_by_example.Prelude.Texts.{Text, utf8, comparable_text}
use go_by_example.Wal.{
  Wal, Os, restore, sscanf_log, drop_cr, recover_lines, new_wal, append_synced, stored, put, close,
  get,
}
use go_by_example.Wal.Lines.{
  NoNewline, unlines, lines-unlines, unlines-append, All-snoc, Plain, body, sscanf-body,
  sscanf_two_words, drop_cr-body, drop_cr_two_words, body-NoNewline, Plain-NoNewline,
  two_words-NoNewline, log_entry-body,
}

-- a system on which every call succeeds
abbrev pub healthy : Os
healthy = record { open_append = true; open_read = true; write = true; written = 0; sync = true }

-- a line that the scanner takes
abbrev pub Short : Text → Type 0
Short l = length (utf8 l) < 65536

-- The log has whole lines, and they give the map.
abbrev pub Kept : Text → Map Text Text → Type 0
Kept disk store =
    (ls : List Text) × (disk ≡ unlines ls) × All NoNewline ls × (recover_lines ls [] ≡ ok store)

recover_lines-append :
    (ls : List Text) (l : Text) (first store : Map Text Text)
    → recover_lines ls first ≡ ok store
    → Short l
    → recover_lines (ls ++ l ∷ []) first ≡ ok (restore (sscanf_log (drop_cr l)) store)
unfolding recover_lines
recover_lines-append [] l first store e h = ground arith
recover_lines-append (m ∷ ls) l first store e h =
    ground (arith, recover_lines-append ls l (restore (sscanf_log (drop_cr m)) first) store)

-- one more line
extended :
    (disk : Text) (store : Map Text Text) (l : Text)
    → Kept disk store
    → NoNewline l
    → Short l
    → Kept (disk ++ (l ++ 10 ∷ [])) (restore (sscanf_log (drop_cr l)) store)
extended disk store l (ls, is_disk, whole, gives) h k = (
  ls ++ l ∷ [],
  ap (λ d. d ++ (l ++ 10 ∷ [])) is_disk ∙ unlines-append ls l,
  All-snoc ls l whole h,
  recover_lines-append ls l [] store gives k,
)

new_wal-Kept :
    (disk : Text) (store : Map Text Text)
    → Kept disk store
    → new_wal healthy disk ≡ ok (record { store = store })
unfolding new_wal
new_wal-Kept disk store (ls, is_disk, whole, gives) =
    rw (is_disk, lines-unlines ls whole, gives) refl

restored :
    (k v : Text) (store : Map Text Text)
    → Plain k
    → Plain v
    → restore (sscanf_log (drop_cr (body k v))) store ≡ insert k v store
restored k v store hk hv =
    ap (λ l. restore (sscanf_log l) store) (drop_cr-body k v hv)
    ∙ ap (λ o. restore o store) (sscanf-body k v hk hv)

-- a successful Put extends the log by its line
put-disk :
    (k v disk : Text) (w : Wal)
    → put healthy k v disk w
      ≡ (disk ++ (body k v ++ 10 ∷ []), record w { store = insert k v w.store }, ok tt)
unfolding put
put-disk k v disk w = ap (λ l. stored k v w (append_synced healthy l disk)) (log_entry-body k v)

-- what the program can do with a log, from one start to the next
pub data Op : Type 0 where
  put_of : Text → Text → Op
  close_of : Op

abbrev pub Fine : Op → Type 0
Fine (put_of k v) = Plain k × Plain v × Short (body k v)
Fine close_of = Unit

-- the disk and the map after an operation that succeeds
unfoldable pub perform : Op → Text × Wal → Text × Wal
unfolding put close
perform (put_of k v) (disk, w) = let (d, u, done) = put healthy k v disk w in (d, u)
perform close_of (disk, w) = ((close healthy disk).0, w)

unfoldable pub perform_all : List Op → Text × Wal → Text × Wal
perform_all [] s = s
perform_all (o ∷ os) s = perform_all os (perform o s)

perform-Kept :
    (o : Op) (disk : Text) (w : Wal)
    → Fine o
    → Kept disk w.store
    → Kept (perform o (disk, w)).0 (perform o (disk, w)).1.store
unfolding perform utf8 drop_cr sscanf_log
perform-Kept (put_of k v) disk w h kept =
    subst (λ l. Kept (disk ++ l) (insert k v w.store)) (sym (log_entry-body k v))
      (subst (λ m. Kept (disk ++ (body k v ++ 10 ∷ [])) m) (restored k v w.store h.0 h.1)
        (extended disk w.store (body k v) kept (body-NoNewline k v h.0 (Plain-NoNewline v h.1))
          h.2))
perform-Kept close_of disk w h kept = extended disk w.store [] kept tt (omega arith)

pub perform_all-Kept :
    (ops : List Op) (disk : Text) (w : Wal)
    → All Fine ops
    → Kept disk w.store
    → Kept (perform_all ops (disk, w)).0 (perform_all ops (disk, w)).1.store
unfolding perform_all
perform_all-Kept [] disk w h kept = kept
perform_all-Kept (o ∷ os) disk w h kept =
    perform_all-Kept os (perform o (disk, w)).0 (perform o (disk, w)).1 h.1
      (perform-Kept o disk w h.0 kept)

abbrev pub blank : Text × Wal
blank = ([], record { store = [] })

blank-Kept :
    (ops : List Op) → All Fine ops → Kept (perform_all ops blank).0 (perform_all ops blank).1.store
unfolding recover_lines
blank-Kept ops h = perform_all-Kept ops [] (record { store = [] }) h ([], refl, tt, refl)

-- After any successful Puts and Closes from an empty log, of keys and values that are not empty and
-- hold no space, each on a line of less than 64 KiB, NewWAL finds the very map that the Puts left.
pub reload_lem :
    (ops : List Op)
    → All Fine ops
    → new_wal healthy (perform_all ops blank).0 ≡ ok (perform_all ops blank).1
reload_lem ops h =
    new_wal-Kept (perform_all ops blank).0 (perform_all ops blank).1.store (blank-Kept ops h)

-- After such operations a Put of a key without spaces and a value of two words with a blank between
-- them, none of them empty, on a line of less than 64 KiB, succeeds, and Get gives the value; but
-- NewWAL finds the map that there was before this Put.
pub two_words_lost :
    (ops : List Op) (k a b : Text)
    → All Fine ops
    → Plain k
    → Plain a
    → Plain b
    → Short (body k (a ++ (32 ∷ b)))
    → (disk : Text) × (w : Wal) × (put healthy k
          (a ++ (32 ∷ b))
          (perform_all ops blank).0
          (perform_all ops blank).1
        ≡ (disk, w, ok tt))
      × (get k w ≡ some (a ++ (32 ∷ b)))
      × (new_wal healthy disk ≡ ok (perform_all ops blank).1)
unfolding get
two_words_lost ops k a b h hk ha hb short =
    let (disk, w) = perform_all ops blank in
    let v = a ++ (32 ∷ b) in
    let unchanged : restore (sscanf_log (drop_cr (body k v))) w.store ≡ w.store =
      ap (λ l. restore (sscanf_log l) w.store) (drop_cr_two_words k a b hb)
      ∙ ap (λ o. restore o w.store) (sscanf_two_words k a b hk ha hb) in
    (
      disk ++ (body k v ++ 10 ∷ []),
      record w { store = insert k v w.store },
      put-disk k v disk w,
      lookup-insert_self k v w.store,
      new_wal-Kept (disk ++ (body k v ++ 10 ∷ [])) w.store (
          subst (λ m. Kept (disk ++ (body k v ++ 10 ∷ [])) m) unchanged
            (extended disk w.store (body k v) (blank-Kept ops h)
              (body-NoNewline k v hk (two_words-NoNewline a b ha hb)) short)),
    )
