-- ===== src/RaftWal/Tests/Toy.antt =====
-- A codec that knows one value of each type, and a raft whose storage is a list of entries.
use go_by_example.Prelude.{
  ℕ, ◌≡◌, refl, Bool, true, false, Option, none, some, List, [], ◌∷◌, ◌++◌, String, Map, arith, eqb,
  comparable_string, ap, sym, ◌&&◌, ◌==◌, if◌then◌else◌,
}
use go_by_example.RaftWal.Base64.{Bytes}
use go_by_example.RaftWal.Messages.{
  HardState, Entry, EntryType, entry_normal, Snapshot, Command, StateMachineSnapshot, WalRecord,
  Codec, CodecLaws,
}
use go_by_example.RaftWal.Node.{RaftLib, RaftLaws}

abbrev pub same_bytes : Bytes → Bytes → Bool
same_bytes [] [] = true
same_bytes (a ∷ x) (b ∷ y) = eqb a b && same_bytes x y
same_bytes _ _ = false

same_bytes_eq : (x y : Bytes) → same_bytes x y ≡ true → x ≡ y
same_bytes_eq [] [] h = refl
same_bytes_eq [] (b ∷ y) h = cc
same_bytes_eq (a ∷ x) [] h = cc
same_bytes_eq (a ∷ x) (b ∷ y) h = ground (arith, same_bytes_eq x y)

same_bytes_self : (x : Bytes) → same_bytes x x ≡ true
same_bytes_self [] = refl
same_bytes_self (a ∷ x) = ground (arith, same_bytes_self x)

abbrev pub same_texts : List Bytes → List Bytes → Bool
same_texts [] [] = true
same_texts (a ∷ x) (b ∷ y) = same_bytes a b && same_texts x y
same_texts _ _ = false

same_texts_eq : (x y : List Bytes) → same_texts x y ≡ true → x ≡ y
same_texts_eq [] [] h = refl
same_texts_eq [] (b ∷ y) h = cc
same_texts_eq (a ∷ x) [] h = cc
same_texts_eq (a ∷ x) (b ∷ y) h = ground (arith, same_bytes_eq a b, same_texts_eq x y)

-- the encoding that knows `a` alone, as `b`
module _ {A : Type 0} (same : A → Bool) (a : A) (b : Bytes) where
  abbrev pub put : A → Option Bytes
  put x = if same x then some b else none

  abbrev pub get : Bytes → Option A
  get y = if same_bytes y b then some a else none

  module _ (sound : (x : A) → same x ≡ true → x ≡ a) where
    put-eq : (x : A) (y : Bytes) → put x ≡ some y → (x ≡ a) × (y ≡ b)
    put-eq x y h = ground (arith, sound x)

    get-put : (x : A) (y : Bytes) → put x ≡ some y → get y ≡ some x
    get-put x y h = let (p, q) = put-eq x y h in rw q (rw (same_bytes_self b) (ap some (sym p)))

abbrev pub hard : HardState
hard = record { term = 1; vote = 2; commit = 1 }

abbrev pub entry : Entry
entry = record { term = 1; index = 1; kind = entry_normal; payload = 7 ∷ [] }

abbrev pub snapshot : Snapshot
snapshot = record { payload = 9 ∷ []; conf_state = record { voters = [] }; index = 5; term = 1 }

abbrev pub command : Command
command = record { key = "x"; value = "10" }

abbrev pub values : Map String String
values = ("x", "10") ∷ []

abbrev pub state : StateMachineSnapshot
state = record { kv = some values; applied_index = 5 }

abbrev pub hard_text : Bytes
hard_text = 65 ∷ 81 ∷ 73 ∷ 66 ∷ []

abbrev pub entry_text : Bytes
entry_text = 65 ∷ 81 ∷ 69 ∷ 65 ∷ 66 ∷ 119 ∷ 61 ∷ 61 ∷ []

abbrev pub wal_record : WalRecord
wal_record = record { hard_state = hard_text; entries = entry_text ∷ [] }

abbrev pub is_hard : HardState → Bool
is_hard h = eqb h.term 1 && eqb h.vote 2 && eqb h.commit 1

is_hard_eq : (h : HardState) → is_hard h ≡ true → h ≡ hard
is_hard_eq h e = ground arith

abbrev pub is_normal : EntryType → Bool
is_normal entry_normal = true
is_normal _ = false

is_normal_eq : (k : EntryType) → is_normal k ≡ true → k ≡ entry_normal
is_normal_eq k e = ground arith

abbrev pub is_entry : Entry → Bool
is_entry e = eqb e.term 1 && eqb e.index 1 && is_normal e.kind && same_bytes e.payload (7 ∷ [])

is_entry_eq : (e : Entry) → is_entry e ≡ true → e ≡ entry
is_entry_eq e h = ground (arith, is_normal_eq e.kind, same_bytes_eq e.payload (7 ∷ []))

abbrev pub is_snapshot : Snapshot → Bool
is_snapshot s =
    same_bytes s.payload (9 ∷ [])
    && same_bytes s.conf_state.voters []
    && eqb s.index 5
    && eqb s.term 1

is_snapshot_eq : (s : Snapshot) → is_snapshot s ≡ true → s ≡ snapshot
is_snapshot_eq s h =
    ground (arith, same_bytes_eq s.payload (9 ∷ []), same_bytes_eq s.conf_state.voters [])

abbrev pub is_record : WalRecord → Bool
is_record r = same_bytes r.hard_state hard_text && same_texts r.entries (entry_text ∷ [])

is_record_eq : (r : WalRecord) → is_record r ≡ true → r ≡ wal_record
is_record_eq r h =
    ground (arith, same_bytes_eq r.hard_state hard_text, same_texts_eq r.entries (entry_text ∷ []))

abbrev pub is_command : Command → Bool
is_command m = m.key == "x" && m.value == "10"

is_command_eq : (m : Command) → is_command m ≡ true → m ≡ command
is_command_eq m h =
    ground (arith, comparable_string.same_iff m.key "x", comparable_string.same_iff m.value "10")

abbrev pub is_values : Option (Map String String) → Bool
is_values (some ((k, v) ∷ [])) = k == "x" && v == "10"
is_values _ = false

is_values_eq : (m : Option (Map String String)) → is_values m ≡ true → m ≡ some values
is_values_eq none h = cc
is_values_eq (some []) h = cc
is_values_eq (some ((k, v) ∷ [])) h =
    ground (arith, comparable_string.same_iff k "x", comparable_string.same_iff v "10")
is_values_eq (some (e ∷ f ∷ m)) h = cc

abbrev pub is_state : StateMachineSnapshot → Bool
is_state s = is_values s.kv && eqb s.applied_index 5

is_state_eq : (s : StateMachineSnapshot) → is_state s ≡ true → s ≡ state
is_state_eq s h = ground (arith, is_values_eq s.kv)

abbrev pub is_zero : HardState → Bool
is_zero h = eqb h.term 0 && eqb h.vote 0 && eqb h.commit 0

abbrev pub toy : Codec
toy = record {
  marshal_hard = put is_hard hard (1 ∷ 2 ∷ 1 ∷ []);
  unmarshal_hard = get is_hard hard (1 ∷ 2 ∷ 1 ∷ []);
  marshal_entry = put is_entry entry (1 ∷ 1 ∷ 0 ∷ 7 ∷ []);
  unmarshal_entry = get is_entry entry (1 ∷ 1 ∷ 0 ∷ 7 ∷ []);
  marshal_snapshot = put is_snapshot snapshot (5 ∷ 9 ∷ []);
  unmarshal_snapshot = get is_snapshot snapshot (5 ∷ 9 ∷ []);
  marshal_record = put is_record wal_record (b'{' ∷ 49 ∷ b'}' ∷ []);
  unmarshal_record = get is_record wal_record (b'{' ∷ 49 ∷ b'}' ∷ []);
  marshal_state = put is_state state (9 ∷ []);
  unmarshal_state = get is_state state (9 ∷ []);
  marshal_command = put is_command command (7 ∷ []);
  unmarshal_command = get is_command command (7 ∷ []);
  is_empty_hard = is_zero;
  is_empty_snap = λ s. eqb s.index 0;
}

pub toy_laws : CodecLaws toy
toy_laws = record {
  hard_round = get-put is_hard hard _ is_hard_eq;
  hard_bytes = λ h b e. rw (put-eq is_hard hard _ is_hard_eq h b e).1 (omega arith, λ n. cc);
  entry_round = get-put is_entry entry _ is_entry_eq;
  entry_bytes = λ x b e. rw (put-eq is_entry entry _ is_entry_eq x b e).1 (omega arith);
  snapshot_round = get-put is_snapshot snapshot _ is_snapshot_eq;
  record_round = get-put is_record wal_record _ is_record_eq;
  record_braces =
      λ r b e. (49 ∷ [], (put-eq is_record wal_record _ is_record_eq r b e).1, (refl, tt));
  state_round = λ kv i b e. (kv, get-put is_state state _ is_state_eq _ b e, λ k. refl);
  state_bytes = λ s e. cc (put-eq is_state state _ is_state_eq s [] e).1;
  command_round = λ m b e. (
    get-put is_command command _ is_command_eq m b e,
    rw (put-eq is_command command _ is_command_eq m b e).1 (λ n. cc),
  );
  zero_hard_empty = refl;
  empty_hard_zero = λ h e. ground arith;
  empty_snap_zero = λ s. (λ e. ground arith, λ e. ground arith);
}

-- storage is a list of entries, a node is its applied index, and there are no configuration changes
abbrev pub toy_raft : RaftLib (List Entry) ℕ ℕ
toy_raft = record {
  new_storage = [];
  apply_snapshot = λ s es. some [];
  append = λ es fs. some (fs ++ es);
  set_hard_state = λ h es. es;
  create_snapshot =
      λ i cs b es. some (record { payload = b; conf_state = cs; index = i; term = 1 }, es);
  compact = λ i es. some es;
  start_node = λ id peers es. 0;
  restart_node = λ id i es. i;
  unmarshal_conf_change = λ b. none;
  unmarshal_conf_change_v2 = λ b. none;
  apply_conf_change = λ c n. (n, none);
  advance = λ n. n;
}

pub toy_raft_laws : RaftLaws toy_raft
toy_raft_laws = record { created = λ i cs b s s' snap e. (ground arith, ground arith) }
