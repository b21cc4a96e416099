-- ===== src/Database/Revisions/Watch.antt =====
-- What WATCH (src/command_processor.cpp) relies on, for any sequence of database operations.
use codecrafters_redis_cpp.Prelude.{◌≤◌, ◌≡◌, ◌⊎◌, inl, refl, List, [], ◌∷◌, arith, Bytes}
use codecrafters_redis_cpp.Prelude.Map.{bytes_eq, find}
use codecrafters_redis_cpp.Database.{list, Database, get, get_type, keys, key_revision, empty}
use codecrafters_redis_cpp.Database.Lists.{
  add_list_elements, list_elements, get_list_length, pop_list_element, pop_list_elements, add_in,
  entry_or_new, pop_in, pop_several_in,
}
use codecrafters_redis_cpp.Database.StreamOps.{add_stream, add_stream_in, stream_range}
use codecrafters_redis_cpp.Database.Counters.{increment_key, increment_in}
use codecrafters_redis_cpp.Database.Actions.{
  Action, set_key, get_key, type_key, all_keys, push, range, measure, pop, pop_several, add_entry,
  stream_slice, read, increment, watch, perform, perform_all, marks,
}
use codecrafters_redis_cpp.Database.Revisions.{
  revision, IsFresh, Advances, HasRoom, lookup-Advances,
}
use codecrafters_redis_cpp.Database.Revisions.Operations.{
  set-Advances, add_to-Advances, pop_in-Advances, pop_several_in-Advances, increment_in-Advances,
  add_stream_in-Advances,
}
use codecrafters_redis_cpp.Database.Revisions.Loops.{
  weaken, visit_keys-Advances, lookup_only, read_streams-Advances,
}

perform-Advances :
    (action : Action) (other : Bytes) (db : Database)
    → HasRoom (marks action db) db
    → Advances (marks action db) other db (perform action db)
unfolding get get_type keys add_list_elements list_elements get_list_length pop_list_element
    pop_list_elements add_stream stream_range increment_key key_revision
perform-Advances (set_key now key value expiry) other db h =
    weaken other db _ (omega arith) (set-Advances now key other db value expiry (omega arith))
perform-Advances (get_key now key) other db h = lookup_only now key other db h
perform-Advances (type_key now key) other db h = lookup_only now key other db h
perform-Advances (all_keys now) other db h = visit_keys-Advances now db.entries [] other db h
perform-Advances (push now key values mode) other db h =
    lookup-Advances now key other db (add_in key values mode) h (λ found.
      add_to-Advances key other values mode (entry_or_new (list []) found)
        (entry_or_new (list []) found).value)
perform-Advances (range now key start stop) other db h = lookup_only now key other db h
perform-Advances (measure now key) other db h = lookup_only now key other db h
perform-Advances (pop now key) other db h =
    lookup-Advances now key other db (pop_in key) h (pop_in-Advances key other)
perform-Advances (pop_several now key wanted) other db h =
    lookup-Advances now key other db (pop_several_in key wanted) h
      (pop_several_in-Advances key other wanted)
perform-Advances (add_entry now unix_ms key id values) other db h =
    lookup-Advances now key other db (add_stream_in unix_ms key id values) h
      (add_stream_in-Advances unix_ms key other id values)
perform-Advances (stream_slice now key start end) other db h = lookup_only now key other db h
perform-Advances (read times times' requests) other db h =
    read_streams-Advances times times' requests other db h
perform-Advances (increment now key) other db h =
    lookup-Advances now key other db (increment_in key) h (increment_in-Advances key other)
perform-Advances (watch now key) other db h = lookup_only now key other db h

-- The 64-bit counter of revisions does not wrap around in the course of these operations.
abbrev pub RoomFor : List Action → Database → Type 0
RoomFor [] db = Unit
RoomFor (action ∷ actions) db = HasRoom (marks action db) db × RoomFor actions (perform action db)

perform_all-IsFresh :
    (actions : List Action) (key : Bytes) (db : Database)
    → RoomFor actions db
    → IsFresh key db
    → IsFresh key (perform_all actions db)
perform_all-IsFresh [] key db room f = f
perform_all-IsFresh (action ∷ actions) key db (h, room) f =
    perform_all-IsFresh actions key (perform action db) room
      ((perform-Advances action key db h).fresh f)

-- Whatever operations run between two moments, a revision that is the same at both means that the
-- entry of the key was not touched: unchanged, from a database in which revisions are below the
-- next one.
kept_by_all :
    (actions : List Action) (key : Bytes) (db : Database)
    → RoomFor actions db
    → ((find key (perform_all actions db).entries ≡ find key db.entries)
        × (revision key (perform_all actions db) ≡ revision key db))
      ⊎ (db.next_revision ≤ revision key (perform_all actions db))
kept_by_all [] key db room = inl (refl, refl)
kept_by_all (action ∷ actions) key db (h, room) =
    let a = perform-Advances action key db h in
    ground (arith, a.kept, a.grows, kept_by_all actions key (perform action db) room)

-- WATCH is sound. As long as the 64-bit counter of revisions has room for the numbers that the
-- operations give out: after any operations on an empty database, and any further ones, a key whose
-- revision is the same before and after the further ones has the entry that it had, with value and
-- expiry.
pub unchanged_of_revision :
    (earlier actions : List Action) (key : Bytes)
    → RoomFor earlier empty
    → RoomFor actions (perform_all earlier empty)
    → revision key (perform_all actions (perform_all earlier empty))
      ≡ revision key (perform_all earlier empty)
    → find key (perform_all actions (perform_all earlier empty)).entries
      ≡ find key (perform_all earlier empty).entries
unchanged_of_revision earlier actions key room room' e =
    let start = perform_all earlier empty in
    let f = perform_all-IsFresh earlier key empty room (unfold find in omega arith) in
    ground (arith, kept_by_all actions key start room', f)
