-- ===== src/Wal/Lines.antt =====
-- The lines of a log, and the words of a line.
use go_by_example.Prelude.{
  ℕ, ◌≡◌, ◌≢◌, ◌∙◌, refl, sym, ap, true, false, none, some, List, [], ◌∷◌, ◌++◌, eqb, All, arith,
}
use mathlib.Core.List.{append_assoc}
use go_by_example.Prelude.Texts.{Text, is_empty, is_space, trim_left, split}
use go_by_example.Wal.{
  token, word, if_some, first_word, second_word, last_word, sscanf_log, put_op, log_entry,
  drop_last_empty, drop_cr, lines,
}

abbrev pub NoNewline : Text → Type 0
NoNewline l = All (λ c. c ≢ 10) l

-- the content of a log of whole lines
abbrev pub unlines : List Text → Text
unlines [] = []
unlines (l ∷ ls) = l ++ (10 ∷ unlines ls)

split-line : (l s : Text) → NoNewline l → split (l ++ (10 ∷ s)) 10 ≡ l ∷ split s 10
unfolding split
split-line [] s h = refl
split-line (c ∷ l) s h = ground (arith, split-line l s h.1)

drop_last_empty-append : (ls : List Text) → drop_last_empty (ls ++ ([] ∷ [])) ≡ ls
drop_last_empty-append [] = refl
drop_last_empty-append ([] ∷ []) = refl
drop_last_empty-append ((c ∷ l) ∷ []) = refl
drop_last_empty-append ([] ∷ m ∷ ls) = ap (◌∷◌ []) (drop_last_empty-append (m ∷ ls))
drop_last_empty-append ((c ∷ l) ∷ m ∷ ls) = ap (◌∷◌ (c ∷ l)) (drop_last_empty-append (m ∷ ls))

split-unlines : (ls : List Text) → All NoNewline ls → split (unlines ls) 10 ≡ ls ++ ([] ∷ [])
unfolding split
split-unlines [] h = refl
split-unlines (l ∷ ls) h = split-line l (unlines ls) h.0 ∙ ap (◌∷◌ l) (split-unlines ls h.1)

pub lines-unlines : (ls : List Text) → All NoNewline ls → lines (unlines ls) ≡ ls
unfolding lines
lines-unlines ls h = ap drop_last_empty (split-unlines ls h) ∙ drop_last_empty-append ls

pub unlines-append :
    (ls : List Text) (l : Text) → unlines ls ++ (l ++ 10 ∷ []) ≡ unlines (ls ++ l ∷ [])
unlines-append [] l = refl
unlines-append (m ∷ ls) l =
    append_assoc m (10 ∷ unlines ls) (l ++ 10 ∷ []) ∙ ap (λ s. m ++ (10 ∷ s)) (unlines-append ls l)

pub All-snoc :
    (ls : List Text) (l : Text) → All NoNewline ls → NoNewline l → All NoNewline (ls ++ l ∷ [])
All-snoc [] l h k = (k, tt)
All-snoc (m ∷ ls) l h k = (h.0, All-snoc ls l h.1 k)

-- text without spaces, and some of it
abbrev pub Plain : Text → Type 0
Plain s = (s ≢ []) × All (λ c. is_space c ≡ false) s

token-append :
    (p r : Text) (c : ℕ)
    → All (λ d. is_space d ≡ false) p
    → is_space c ≡ true
    → token (p ++ (c ∷ r)) ≡ (p, c ∷ r)
unfolding token
token-append [] r c h k = rw k refl
token-append (d ∷ p) r c h k = rw (h.0, token-append p r c h.1 k) refl

token_whole : (p : Text) → All (λ d. is_space d ≡ false) p → token p ≡ (p, [])
unfolding token
token_whole [] h = refl
token_whole (d ∷ p) h = rw (h.0, token_whole p h.1) refl

pub word-append :
    (p r : Text) (c : ℕ) → Plain p → is_space c ≡ true → word (p ++ (c ∷ r)) ≡ some (p, c ∷ r)
unfolding word trim_left
word-append [] r c h k = absurd (h.0 refl)
word-append (d ∷ p) r c h k = rw (h.1.0) (ap if_some (token-append (d ∷ p) r c h.1 k))

pub word_whole : (p : Text) → Plain p → word p ≡ some (p, [])
unfolding word trim_left
word_whole [] h = absurd (h.0 refl)
word_whole (d ∷ p) h = rw (h.1.0) (ap if_some (token_whole (d ∷ p) h.1))

pub word-space : (c : ℕ) (s : Text) → is_space c ≡ true → word (c ∷ s) ≡ word s
unfolding word trim_left
word-space c s k = rw k refl

-- a line of a Put without its newline
abbrev pub body : Text → Text → Text
body k v = put_op ++ (9 ∷ (k ++ (9 ∷ v)))

put_op-Plain : Plain put_op
unfolding is_space
put_op-Plain = (λ e. absurd (cc), (refl, (refl, (refl, tt))))

tab_is_space : is_space 9 ≡ true
unfolding is_space
tab_is_space = refl

blank_is_space : is_space 32 ≡ true
unfolding is_space
blank_is_space = refl

more_left : (k a b : Text) → Plain b → last_word put_op k (some (a, 32 ∷ b)) ≡ none
unfolding trim_left is_space
more_left k a [] h = absurd (h.0 refl)
more_left k a (c ∷ b) h = rw (h.1.0) refl

pub sscanf-body : (k v : Text) → Plain k → Plain v → sscanf_log (body k v) ≡ some (put_op, k, v)
unfolding sscanf_log trim_left
sscanf-body k v hk hv =
    ap first_word (word-append put_op (k ++ (9 ∷ v)) 9 put_op-Plain tab_is_space)
    ∙ ap (second_word put_op)
        (word-space 9 (k ++ (9 ∷ v)) tab_is_space ∙ word-append k v 9 hk tab_is_space)
    ∙ ap (last_word put_op k) (word-space 9 v tab_is_space ∙ word_whole v hv)

-- a value of two words is no value
pub sscanf_two_words :
    (k a b : Text) → Plain k → Plain a → Plain b → sscanf_log (body k (a ++ (32 ∷ b))) ≡ none
unfolding sscanf_log
sscanf_two_words k a b hk ha hb =
    ap first_word (word-append put_op (k ++ (9 ∷ (a ++ (32 ∷ b)))) 9 put_op-Plain tab_is_space)
    ∙ ap (second_word put_op) (
        word-space 9 (k ++ (9 ∷ (a ++ (32 ∷ b)))) tab_is_space
        ∙ word-append k (a ++ (32 ∷ b)) 9 hk tab_is_space)
    ∙ ap (last_word put_op k)
        (word-space 9 (a ++ (32 ∷ b)) tab_is_space ∙ word-append a b 32 ha blank_is_space)
    ∙ more_left k a b hb

-- nothing is dropped from the end of a line of plain words
not_cr : (c : ℕ) → is_space c ≡ false → eqb c 13 ≡ false
unfolding is_space
not_cr c h = ground arith

not_newline : (c : ℕ) → is_space c ≡ false → c ≢ 10
unfolding is_space
not_newline c h = ground arith

drop_cr-Plain : (v : Text) → All (λ c. is_space c ≡ false) v → drop_cr v ≡ v
unfolding drop_cr
drop_cr-Plain [] h = refl
drop_cr-Plain (c ∷ v) h = rw (not_cr c h.0) (ap (◌∷◌ c) (drop_cr-Plain v h.1))

not_empty : (s v : Text) → v ≢ [] → is_empty (s ++ v) ≡ false
not_empty [] [] h = absurd (h refl)
not_empty [] (c ∷ v) h = refl
not_empty (d ∷ s) v h = refl

-- text that does not end in a carriage return
abbrev NoCr : Text → Type 0
NoCr v = (v ≢ []) × (drop_cr v ≡ v)

append-NoCr : (s v : Text) → NoCr v → NoCr (s ++ v)
unfolding drop_cr
append-NoCr [] v h = h
append-NoCr (c ∷ s) v h =
    (λ e. absurd (cc), ground (arith, (append-NoCr s v h).1, not_empty s v h.0))

Plain-NoCr : (v : Text) → Plain v → NoCr v
Plain-NoCr v h = (h.0, drop_cr-Plain v h.1)

body-NoCr : (k v : Text) → NoCr v → NoCr (body k v)
body-NoCr k v h =
    append-NoCr (put_op ++ 9 ∷ []) (k ++ (9 ∷ v)) (append-NoCr k (9 ∷ v) (append-NoCr (9 ∷ []) v h))

pub drop_cr-body : (k v : Text) → Plain v → drop_cr (body k v) ≡ body k v
drop_cr-body k v h = (body-NoCr k v (Plain-NoCr v h)).1

pub drop_cr_two_words :
    (k a b : Text) → Plain b → drop_cr (body k (a ++ (32 ∷ b))) ≡ body k (a ++ (32 ∷ b))
drop_cr_two_words k a b h =
    (body-NoCr k (a ++ (32 ∷ b))
      (append-NoCr a (32 ∷ b) (append-NoCr (32 ∷ []) b (Plain-NoCr b h)))).1

All-NoNewline : (s : Text) → All (λ c. is_space c ≡ false) s → NoNewline s
All-NoNewline [] h = tt
All-NoNewline (c ∷ s) h = (not_newline c h.0, All-NoNewline s h.1)

append-NoNewline :
    (s : Text) (c : ℕ) (t : Text) → NoNewline s → c ≢ 10 → NoNewline t → NoNewline (s ++ (c ∷ t))
append-NoNewline [] c t h k i = (k, i)
append-NoNewline (d ∷ s) c t h k i = (h.0, append-NoNewline s c t h.1 k i)

pub body-NoNewline : (k v : Text) → Plain k → NoNewline v → NoNewline (body k v)
body-NoNewline k v hk hv =
    append-NoNewline put_op 9 (k ++ (9 ∷ v)) (omega arith) (omega arith)
      (append-NoNewline k 9 v (All-NoNewline k hk.1) (omega arith) hv)

pub Plain-NoNewline : (v : Text) → Plain v → NoNewline v
Plain-NoNewline v h = All-NoNewline v h.1

pub two_words-NoNewline : (a b : Text) → Plain a → Plain b → NoNewline (a ++ (32 ∷ b))
two_words-NoNewline a b ha hb =
    append-NoNewline a 32 b (All-NoNewline a ha.1) (omega arith) (All-NoNewline b hb.1)

-- the line of a Put with its newline
pub log_entry-body : (k v : Text) → log_entry k v ≡ body k v ++ 10 ∷ []
log_entry-body k v = ap (λ s. put_op ++ (9 ∷ s)) (sym (append_assoc k (9 ∷ v) (10 ∷ [])))
