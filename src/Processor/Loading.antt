-- ===== src/Processor/Loading.antt =====
-- `process_rdb_load` of src/command_processor.cpp: the entries of a snapshot are set, less those whose
-- time has passed.
pub mod Visible
use codecrafters_redis_cpp.Prelude.{
  ℕ, suc, ◌-◌, min, Option, none, some, List, [], ◌∷◌, leb, if◌then◌else◌,
}
use codecrafters_redis_cpp.Prelude.Int.{ℤ, pos, negsuc}
use codecrafters_redis_cpp.Numeric.{max_int64}
use codecrafters_redis_cpp.Rdb.{StringEntry}
use codecrafters_redis_cpp.Database.{Database}
use codecrafters_redis_cpp.Database

-- By the Unix time in milliseconds: `none` for an entry that is left out, else the expiry to set.
abbrev pub expiry_of : ℤ → Option ℕ → Option (Option ℤ)
expiry_of unix_now none = some none
expiry_of (negsuc n) (some expires_at) = none
expiry_of (pos unix_now) (some expires_at) =
    if leb expires_at unix_now
    then none
    else some (some (pos (min (expires_at - unix_now) max_int64)))

abbrev pub set_entry : ℕ → StringEntry → Option (Option ℤ) → Database → Database
set_entry now entry none db = db
set_entry now entry (some expiry) db = Database.set now entry.key entry.value expiry db

abbrev pub load_entry : ℤ → ℕ → StringEntry → Database → Database
load_entry unix_now now entry db =
    set_entry now entry (expiry_of unix_now entry.expires_at_unix_ms) db

-- `times i` is what the steady clock reads for the entry with index `i`.
unfoldable pub process_rdb_load : ℤ → (ℕ → ℕ) → List StringEntry → Database → Database
process_rdb_load unix_now times [] db = db
process_rdb_load unix_now times (entry ∷ entries) db =
    process_rdb_load unix_now (λ i. times (suc i)) entries (load_entry unix_now (times 0) entry db)
