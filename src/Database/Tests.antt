-- ===== src/Database/Tests.antt =====
-- Runs of src/database.cpp on small keyspaces, and the theorems about it at concrete inputs.
use codecrafters_redis_cpp.Prelude.{
  ◌≡◌, refl, List, [], ◌∷◌, arith, Bytes, codes, none, some, str_eq,
}
use codecrafters_redis_cpp.Prelude.Int.{pos, negsuc, ◌+ℤ◌, ◌-ℤ◌}
use codecrafters_redis_cpp.Prelude.Map.{bytes_eq, find, insert}
use codecrafters_redis_cpp.Streams.{StreamId, StreamEntry, IdRequest, explicit, id_lt}
use codecrafters_redis_cpp.Database.{
  Database, empty, string, list, stream, ok, err, fault, key_not_found, mark_key_modified,
  put_entry, set, get, find_active_entry,
}
use codecrafters_redis_cpp.Database.Lists.{append, prepend, slice}
use codecrafters_redis_cpp.Database.Expiry.{
  view, find_active_entry_unobservable, get-set, get-set_overflow,
}
use codecrafters_redis_cpp.Database.Spec.{push, run, spec}
use codecrafters_redis_cpp.Database.Refinement.{Agrees}
use codecrafters_redis_cpp.Database.Refinement.Run.{run-Agrees}
use codecrafters_redis_cpp.Database.Actions
use codecrafters_redis_cpp.Database.Actions.{Action, perform, perform_all}
use codecrafters_redis_cpp.Database.Revisions.Watch.{unchanged_of_revision}
use codecrafters_redis_cpp.Database.Validity.{IsValid}
use codecrafters_redis_cpp.Database.Validity.Reachable.{perform_all-empty-IsValid}
use codecrafters_redis_cpp.Database.StreamOps.{stream_range}
use codecrafters_redis_cpp.Database.StreamOps.Range.{in_range, stream_range_lem, stream_range_fault}

abbrev a : Bytes
a = codes "a"

abbrev b : Bytes
b = codes "b"

abbrev c : Bytes
c = codes "c"

-- A key with a deadline, and one with a list.
abbrev sample : Database
sample = record {
  entries =
      (a, record { value = string b; expires_at = some (pos 7) })
      ∷ (b, record { value = list (a ∷ b ∷ c ∷ []); expires_at = none })
      ∷ [];
  key_revisions = (a, 1) ∷ (b, 2) ∷ [];
  next_revision = 3;
}

negative_range : slice (a ∷ b ∷ c ∷ []) (negsuc 1) (negsuc 0) ≡ b ∷ c ∷ []
unfolding slice ◌+ℤ◌ ◌-ℤ◌
negative_range = refl

find_active_entry_unobservable_example :
    ((find_active_entry 8 a sample).0 ≡ view 8 a sample)
    × (view 9 b (find_active_entry 8 a sample).1 ≡ view 9 b sample)
find_active_entry_unobservable_example = find_active_entry_unobservable 8 9 a b sample (omega arith)

get-set_example : (get 2_000_004 c (set 5 c a (some (pos 2)) sample)).0 ≡ ok a
get-set_example = get-set 5 2_000_004 c a (some (pos 2)) sample (omega arith)

get-set_overflow_example :
    (get 6 c (set 5 c a (some (pos 9_223_372_036_855)) sample)).0 ≡ err key_not_found
get-set_overflow_example =
    get-set_overflow 5 6 9_223_372_036_855 c a sample (omega arith) (omega arith) (omega arith)

run-Agrees_example :
    Agrees 5 b sample
      (run 5 b (push prepend (c ∷ a ∷ [])) sample)
      (spec 5 (push prepend (c ∷ a ∷ [])) (view 5 b sample))
run-Agrees_example = run-Agrees 5 b (push prepend (c ∷ a ∷ [])) sample

abbrev written : List Action
written = Actions.set_key 5 a b none ∷ []

abbrev others : List Action
others = Actions.set_key 6 b a none ∷ []

unchanged_of_revision_example :
    find a (perform_all others (perform_all written empty)).entries
    ≡ find a (perform_all written empty).entries
unfolding set put_entry mark_key_modified find insert str_eq
unchanged_of_revision_example =
    unchanged_of_revision written others a (omega arith) (omega arith) refl

abbrev first_id : StreamId
first_id = record { milliseconds = 1; sequence = 0 }

abbrev second_id : StreamId
second_id = record { milliseconds = 2; sequence = 0 }

abbrev third_id : StreamId
third_id = record { milliseconds = 3; sequence = 0 }

abbrev request : IdRequest
request = record { mode = explicit; milliseconds = 2; sequence = 0 }

perform_all-empty-IsValid_example : IsValid (
    perform_all
      (Actions.add_entry 5 100 a request [] ∷ Actions.push 6 b (a ∷ []) append ∷ [])
      empty)
perform_all-empty-IsValid_example =
    perform_all-empty-IsValid
      (Actions.add_entry 5 100 a request [] ∷ Actions.push 6 b (a ∷ []) append ∷ [])
      (
        record { clock = omega arith; milliseconds = omega arith; sequence = omega arith },
        ((λ e. cc), tt),
      )

abbrev entries : List StreamEntry
entries = record { id = first_id; values = [] } ∷ record { id = second_id; values = [] } ∷ []

abbrev with_stream : Database
with_stream = record {
  entries = (a, record { value = stream entries; expires_at = none }) ∷ [];
  key_revisions = [];
  next_revision = 1;
}

stream_range_lem_example :
    (stream_range 5 a second_id third_id with_stream).0 ≡ ok (in_range second_id third_id entries)
unfolding view find str_eq id_lt
stream_range_lem_example =
    stream_range_lem 5 a second_id third_id with_stream
      (record { value = stream entries; expires_at = none }) entries refl refl
      ((refl, tt), (tt, tt)) refl

-- XRANGE a 3-0 1-0
stream_range_fault_example : (stream_range 5 a third_id first_id with_stream).0 ≡ fault
unfolding view find str_eq id_lt
stream_range_fault_example =
    stream_range_fault 5 a third_id first_id with_stream
      (record { value = stream entries; expires_at = none }) entries 1
      (record { id = second_id; values = [] }) refl refl ((refl, tt), (tt, tt)) refl refl refl
