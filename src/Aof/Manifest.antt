-- ===== src/Aof/Manifest.antt =====
-- src/aof.cpp: the manifest, which names the file that commands are appended to, and `open`. What the
-- file system holds and answers is an argument, with its texts of errors.
pub mod Highest
pub mod Created
pub mod Spaced
mod Tests
use codecrafters_redis_cpp.Prelude.{
  ℕ, zero, suc, Bool, true, false, ◌&&◌, ◌||◌, not, Option, none, some, List, [], ◌∷◌, ◌++◌, ltb,
  leb, ◌==◌, if◌then◌else◌, Bytes, codes, str_eq, length,
}
use codecrafters_redis_cpp.Prelude.Expected.{Expected, expected, unexpected, ◌>>=◌}
use codecrafters_redis_cpp.Numeric.{max_uint64, from_chars, whole}
use codecrafters_redis_cpp.ServerConfig.{AofConfig, is_absolute, is_valid_database_filename}
use codecrafters_redis_cpp.Aof.{AppendOnlyFile, SyncPolicy, always, every_second, never}

pub record ManifestEntry : Type 0 where
  pub filename : Bytes
  pub sequence : ℕ

abbrev pub sequence_or_error : Option ℕ → Expected ℕ
sequence_or_error none = unexpected (codes "Invalid sequence number in AOF manifest")
sequence_or_error (some sequence) = expected sequence

unfoldable pub parse_sequence : Bytes → Expected ℕ
parse_sequence text = sequence_or_error (whole (from_chars max_uint64 text))

-- A path that is absolute has a parent path, so this is the test of the options for file names.
unfoldable pub is_safe_manifest_filename : Bytes → Bool
is_safe_manifest_filename filename = is_valid_database_filename filename

-- `std::isspace`
abbrev pub is_space : ℕ → Bool
is_space c = (c == b' ') || (leb 9 c && leb c 13)

-- A word, if it has begun, and what `operator>>` gives behind it.
abbrev pub end_word : Bytes → List Bytes → List Bytes
end_word [] words = words
end_word (c ∷ word) words = (c ∷ word) ∷ words

-- The words that `operator>>` reads from a line, behind one that it is reading.
unfoldable pub words_behind : Bytes → Bytes → List Bytes
words_behind word [] = end_word word []
words_behind word (c ∷ s) =
    let ended = words_behind [] s in
    let longer = words_behind (word ++ c ∷ []) s in
    if is_space c then end_word word ended else longer

abbrev pub line_behind : Bytes → List Bytes → List Bytes
line_behind [] lines = lines
line_behind (c ∷ line) lines = (c ∷ line) ∷ lines

-- The lines that `std::getline` reads; an empty one counts, unless it is the end of the text.
unfoldable pub lines_behind : Bytes → Bytes → List Bytes
lines_behind line [] = line_behind line []
lines_behind line (c ∷ s) =
    let ended = lines_behind [] s in
    let longer = lines_behind (line ++ c ∷ []) s in if c == 10 then line ∷ ended else longer

-- The entry of a line, if it is one of an incremental file.
pub record Fields : Type 0 where
  pub filename : Bytes
  pub sequence_text : Bytes
  pub type : Bytes

-- The words of a line: six, the first, third and fifth of which are labels.
abbrev pub fields_of : List Bytes → Option Fields
fields_of (file_label ∷ filename ∷ sequence_label ∷ sequence_text ∷ type_label ∷ type ∷ []) =
    if not (str_eq file_label (codes "file"))
      || (not (str_eq sequence_label (codes "seq")) || not (str_eq type_label (codes "type")))
    then none
    else some (record { filename = filename; sequence_text = sequence_text; type = type })
fields_of _ = none

abbrev pub newer : Bytes → ℕ → Option ManifestEntry → Option ManifestEntry
newer filename sequence none = some (record { filename = filename; sequence = sequence })
newer filename sequence (some active) =
    if ltb active.sequence sequence
    then some (record { filename = filename; sequence = sequence })
    else some active

abbrev pub read_fields :
    Bytes → Option Fields → Option ManifestEntry → Expected (Option ManifestEntry)
read_fields path none active =
    unexpected (codes "Invalid entry in AOF manifest '" ++ (path ++ codes "'"))
read_fields path (some fields) active =
    if not (str_eq fields.type (codes "i"))
    then expected active
    else if not (is_safe_manifest_filename fields.filename)
    then unexpected (codes "Invalid incremental filename in AOF manifest")
    else (parse_sequence fields.sequence_text >>= λ sequence.
        expected (newer fields.filename sequence active))

unfoldable pub read_line : Bytes → Bytes → Option ManifestEntry → Expected (Option ManifestEntry)
read_line path line active = read_fields path (fields_of (words_behind [] line)) active

-- The loop over the lines.
unfoldable pub read_lines :
    Bytes → List Bytes → Option ManifestEntry → Expected (Option ManifestEntry)
read_lines path [] active = expected active
read_lines path (line ∷ lines) active = read_line path line active >>= read_lines path lines

abbrev pub filename_of : Option ManifestEntry → Expected Bytes
filename_of none = unexpected (codes "AOF manifest does not contain an incremental file")
filename_of (some active) = expected active.filename

-- A text file: whether it opens, what it holds, and whether the device failed while it was read.
pub record TextFile : Type 0 where
  pub opens : Bool
  pub contents : Bytes
  pub bad : Bool

unfoldable pub read_active_filename : Bytes → TextFile → Expected Bytes
read_active_filename path manifest =
    if not manifest.opens
    then unexpected (codes "Cannot open AOF manifest '" ++ (path ++ codes "'"))
    else (read_lines path (lines_behind [] manifest.contents) none >>= λ active.
        if manifest.bad
        then unexpected (codes "Failed while reading AOF manifest '" ++ (path ++ codes "'"))
        else filename_of active)

abbrev pub active_filename : AofConfig → Bytes
active_filename config = config.append_filename ++ codes ".1.incr.aof"

-- What `create_manifest` writes.
abbrev pub first_manifest : AofConfig → Bytes
first_manifest config = codes "file " ++ (active_filename config ++ codes " seq 1 type i\n")

-- Whether the new manifest can be opened, and whether it is written.
abbrev pub create_manifest : Bool → Bool → Bytes → AofConfig → Expected Bytes
create_manifest opens written path config =
    if not opens
    then unexpected (codes "Cannot create AOF manifest '" ++ (path ++ codes "'"))
    else if not written
    then unexpected (codes "Cannot write AOF manifest '" ++ (path ++ codes "'"))
    else expected (active_filename config)

unfoldable pub sync_policy_of : Bytes → Expected SyncPolicy
sync_policy_of policy =
    if str_eq policy (codes "always")
    then expected always
    else if str_eq policy (codes "everysec")
    then expected every_second
    else if str_eq policy (codes "no")
    then expected never
    else unexpected (codes "Unsupported appendfsync policy")

abbrev pub needs_slash : Bytes → Bool
needs_slash [] = false
needs_slash (c ∷ []) = not (c == b'/')
needs_slash (c ∷ d ∷ s) = needs_slash (d ∷ s)

-- `operator/` of POSIX paths
unfoldable pub join : Bytes → Bytes → Bytes
join directory name =
    if is_absolute name
    then name
    else if needs_slash directory
    then directory ++ (b'/' ∷ name)
    else directory ++ name

-- What the file system answers to `open`: to create_directories, with a text of its error; to
-- exists; of the manifest that it holds or lets create; and to ::open(2), of a file with `contents`.
pub record Disk : Type 0 where
  pub create_directories : Expected Unit
  pub manifest_exists : Expected Bool
  pub manifest : TextFile
  pub creates : Bool
  pub writes_manifest : Bool
  pub open_file : Bytes → Expected Bytes

abbrev pub manifest_or_new : Disk → Bytes → AofConfig → Bool → Expected Bytes
manifest_or_new disk path config true = read_active_filename path disk.manifest
manifest_or_new disk path config false =
    create_manifest disk.creates disk.writes_manifest path config

abbrev pub or_say : {A : Type 0} → Bytes → Bytes → Expected A → Expected A
or_say message path (expected a) = expected a
or_say message path (unexpected reason) = unexpected (message ++ (path ++ (codes "': " ++ reason)))

abbrev pub manifest_path : Bytes → AofConfig → Bytes
manifest_path append_directory config =
    join append_directory (config.append_filename ++ codes ".manifest")

-- Once the file is open. What it held is on the disk already, and `now` is what the constructor reads.
abbrev pub opened_file : ℕ → Bytes → SyncPolicy → Bytes → AppendOnlyFile
opened_file now path policy contents = record {
  path = path;
  contents = contents;
  synced = length contents;
  sync_policy = policy;
  last_sync = now;
}

abbrev pub open_active : Disk → ℕ → Bytes → SyncPolicy → Expected AppendOnlyFile
open_active disk now path policy =
    or_say (codes "Cannot open AOF file '") path (disk.open_file path) >>= λ contents.
    expected (opened_file now path policy contents)

-- The steps of `open`, behind the name of the active file, the manifest and the directory.
abbrev pub after_name : Disk → ℕ → Bytes → AofConfig → Bytes → Expected AppendOnlyFile
after_name disk now append_directory config filename =
    sync_policy_of config.append_fsync >>= open_active disk now (join append_directory filename)

abbrev pub after_exists : Disk → ℕ → Bytes → AofConfig → Bool → Expected AppendOnlyFile
after_exists disk now append_directory config exists =
    manifest_or_new disk (manifest_path append_directory config) config exists
    >>= after_name disk now append_directory config

abbrev pub after_directory : Disk → ℕ → Bytes → AofConfig → Unit {0} → Expected AppendOnlyFile
after_directory disk now append_directory config done =
    or_say (codes "Cannot inspect AOF manifest '") (manifest_path append_directory config)
      disk.manifest_exists
    >>= after_exists disk now append_directory config

unfoldable pub open_append_only : Disk → ℕ → Bytes → AofConfig → Expected AppendOnlyFile
open_append_only disk now base_directory config =
    let append_directory = join base_directory config.append_dirname in
    or_say (codes "Cannot create AOF directory '") append_directory disk.create_directories
    >>= after_directory disk now append_directory config
