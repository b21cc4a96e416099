-- ===== src/Database/StreamOps/Search.antt =====
-- `std::ranges::lower_bound` and `upper_bound`, which src/database.cpp calls over the entries of a
-- stream: the standard library's halving search, over positions.
use codecrafters_redis_cpp.Prelude.{
  ℕ, zero, suc, ◌+◌, ◌-◌, ◌/◌, Bool, false, not, none, some, List, ◌==◌, if◌then◌else◌, length,
  get_elem?,
}
use codecrafters_redis_cpp.Streams.{StreamId, id_lt, StreamEntry}

abbrev pub holds_at : (StreamId → Bool) → List StreamEntry → ℕ → Bool
holds_at before entries position = elim (get_elem? entries position) [
  | none ↦ false
  | some entry ↦ before entry.id
]

-- `while (len != 0)` of the partition point: `first` and `len` are what is left to search. Each
-- round makes `len` smaller, so `len` rounds are enough.
unfoldable pub halve : ℕ → (StreamId → Bool) → List StreamEntry → ℕ → ℕ → ℕ
halve zero before entries first len = first
halve (suc fuel) before entries first len =
    let half = len / 2 in
    let middle = first + half in
    let ahead = holds_at before entries middle in
    let next =
      halve fuel before entries (if ahead then middle + 1 else first)
        (if ahead then len - half - 1 else half) in
    if len == 0 then first else next

unfoldable pub partition_point : (StreamId → Bool) → List StreamEntry → ℕ
unfolding halve
partition_point before entries = halve (length entries) before entries 0 (length entries)

-- The first position whose identifier is not below `id`.
unfoldable pub lower_bound : List StreamEntry → StreamId → ℕ
unfolding partition_point
lower_bound entries id = partition_point (λ other. id_lt other id) entries

-- The first position whose identifier is above `id`.
unfoldable pub upper_bound : List StreamEntry → StreamId → ℕ
unfolding partition_point
upper_bound entries id = partition_point (λ other. not (id_lt id other)) entries
