-- ===== src/Database/Actions.antt =====
-- The public operations of `Database` (src/database.hpp) as one type, and sequences of them, which
-- is how the command processor drives it.
use codecrafters_redis_cpp.Prelude.{ℕ, ◌+◌, List, [], ◌∷◌, Option, Bytes, length}
use codecrafters_redis_cpp.Prelude.Int.{ℤ}
use codecrafters_redis_cpp.Streams.{StreamId, IdRequest, ReadRequest}
use codecrafters_redis_cpp.Database.{Database, set, get, get_type, keys, key_revision}
use codecrafters_redis_cpp.Database.Lists.{
  ListAddMode, add_list_elements, list_elements, get_list_length, pop_list_element,
  pop_list_elements,
}
use codecrafters_redis_cpp.Database.StreamOps.{add_stream, stream_range}
use codecrafters_redis_cpp.Database.Reads.{read_streams}
use codecrafters_redis_cpp.Database.Counters.{increment_key}

-- Each carries what the operation reads from the clocks.
pub data Action : Type 0 where
  set_key : ℕ → Bytes → Bytes → Option ℤ → Action
  get_key : ℕ → Bytes → Action
  type_key : ℕ → Bytes → Action
  all_keys : ℕ → Action
  push : ℕ → Bytes → List Bytes → ListAddMode → Action
  range : ℕ → Bytes → ℤ → ℤ → Action
  measure : ℕ → Bytes → Action
  pop : ℕ → Bytes → Action
  pop_several : ℕ → Bytes → ℤ → Action
  add_entry : ℕ → ℕ → Bytes → IdRequest → List (Bytes × Bytes) → Action
  stream_slice : ℕ → Bytes → StreamId → StreamId → Action
  read : (ℕ → ℕ) → (ℕ → ℕ) → List ReadRequest → Action
  increment : ℕ → Bytes → Action
  watch : ℕ → Bytes → Action

-- The state that an operation leaves.
abbrev pub perform : Action → Database → Database
perform (set_key now key value expiry) db = set now key value expiry db
perform (get_key now key) db = (get now key db).1
perform (type_key now key) db = (get_type now key db).1
perform (all_keys now) db = (keys now db).1
perform (push now key values mode) db = (add_list_elements now key values mode db).1
perform (range now key start stop) db = (list_elements now key start stop db).1
perform (measure now key) db = (get_list_length now key db).1
perform (pop now key) db = (pop_list_element now key db).1
perform (pop_several now key wanted) db = (pop_list_elements now key wanted db).1
perform (add_entry now unix_ms key id values) db = (add_stream now unix_ms key id values db).1
perform (stream_slice now key start end) db = (stream_range now key start end db).1
perform (read times times' requests) db = (read_streams times times' requests db).2
perform (increment now key) db = (increment_key now key db).1
perform (watch now key) db = (key_revision now key db).1

abbrev pub perform_all : List Action → Database → Database
perform_all [] db = db
perform_all (action ∷ actions) db = perform_all actions (perform action db)

-- As many revision numbers as an operation may give out.
abbrev pub marks : Action → Database → ℕ
marks (all_keys now) db = length db.entries
marks (read times times' requests) db = length requests + length requests
marks _ db = 2
