-- ===== src/ServerConfig.antt =====
-- src/server_config.hpp and src/server_config.cpp: the options of the command line. The file system and
-- the hash of passwords are outside, in an `Environment`.
pub mod Validity
pub mod RoundTrip
mod Tests
use codecrafters_redis_cpp.Prelude.{
  ℕ, zero, suc, Bool, true, false, ◌&&◌, ◌||◌, not, Option, none, some, List, [], ◌∷◌, ◌++◌, ◌==◌,
  if◌then◌else◌, Bytes, codes, str_eq,
}
use codecrafters_redis_cpp.Prelude.Expected.{Expected, expected, unexpected, ◌>>=◌}
use codecrafters_redis_cpp.Numeric.{from_chars, whole}

pub record ReplicaConfig : Type 0 where
  pub host : Bytes
  pub port : ℕ

pub record RdbConfig : Type 0 where
  pub dir : Bytes
  pub db_filename : Bytes

pub record AofConfig : Type 0 where
  pub enabled : Bool
  pub append_dirname : Bytes
  pub append_filename : Bytes
  pub append_fsync : Bytes

pub record ServerConfig : Type 0 where
  pub port : ℕ
  pub replica_of : Option ReplicaConfig
  pub default_user_password_hash : Option Bytes
  pub rdb_config : RdbConfig
  pub aof_config : AofConfig

-- The default member initialisers.
abbrev pub default_config : ServerConfig
default_config = record {
  port = 6379;
  replica_of = none;
  default_user_password_hash = none;
  rdb_config = record { dir = codes "."; db_filename = codes "dump.rdb" };
  aof_config = record {
    enabled = false;
    append_dirname = codes "appendonlydir";
    append_filename = codes "appendonly.aof";
    append_fsync = codes "everysec";
  };
}

-- `std::filesystem::status` of a path: it fails with a text, or finds a directory or something else.
pub data Status : Type 0 where
  inaccessible : Bytes → Status
  is_directory : Status
  other : Status

pub record Environment : Type 0 where
  pub current_path : Expected Bytes
  pub status : Bytes → Status
  pub sha256 : Bytes → Expected Bytes

abbrev pub max_uint16 : ℕ
max_uint16 = 65535

abbrev pub nonzero_port : Option ℕ → Expected ℕ
nonzero_port none = unexpected (codes "Invalid port number")
nonzero_port (some zero) = unexpected (codes "Invalid port number")
nonzero_port (some (suc n)) = expected (suc n)

unfoldable pub parse_port_number : Bytes → Expected ℕ
parse_port_number arg = nonzero_port (whole (from_chars max_uint16 arg))

abbrev pub in_front : ℕ → Option (Bytes × Bytes) → Option (Bytes × Bytes)
in_front c none = none
in_front c (some (before, after)) = some (c ∷ before, after)

-- `find(' ')`, as what stands before the first space and what stands behind it.
unfoldable pub split_space : Bytes → Option (Bytes × Bytes)
split_space [] = none
split_space (c ∷ s) =
    let later = in_front c (split_space s) in if c == b' ' then some ([], s) else later

abbrev pub is_empty : Bytes → Bool
is_empty [] = true
is_empty (c ∷ s) = false

abbrev pub replica_with : Bytes → Expected ℕ → Expected ReplicaConfig
replica_with host (unexpected message) = unexpected (codes "Invalid replica port")
replica_with host (expected port) = expected (record { host = host; port = port })

abbrev pub replica_of_parts : Option (Bytes × Bytes) → Expected ReplicaConfig
replica_of_parts none = unexpected (codes "Expected --replicaof \"<host> <port>\"")
replica_of_parts (some (host, port_text)) =
    if is_empty host || is_empty port_text
    then unexpected (codes "Invalid --replicaof value")
    else replica_with host (parse_port_number port_text)

unfoldable pub parse_replica_config : Bytes → Expected ReplicaConfig
parse_replica_config arg = replica_of_parts (split_space arg)

abbrev pub by_status : Bytes → Status → Expected Unit
by_status path (inaccessible message) =
    unexpected (codes "Cannot access RDB directory '" ++ (path ++ (codes "': " ++ message)))
by_status path is_directory = expected tt
by_status path other = unexpected (codes "RDB path '" ++ (path ++ codes "' is not a directory"))

unfoldable pub validate_directory : Environment → Bytes → Expected Unit
validate_directory env path =
    if is_empty path
    then unexpected (codes "RDB directory cannot be empty")
    else by_status path (env.status path)

-- `has_parent_path` of a POSIX path that is not empty: it has a slash.
unfoldable pub has_slash : Bytes → Bool
has_slash [] = false
has_slash (c ∷ s) = (c == b'/') || has_slash s

unfoldable pub is_valid_database_filename : Bytes → Bool
is_valid_database_filename filename =
    not (is_empty filename)
    && (not (has_slash filename)
        && (not (str_eq filename (codes ".")) && not (str_eq filename (codes ".."))))

-- `is_absolute` of a POSIX path
abbrev pub is_absolute : Bytes → Bool
is_absolute [] = false
is_absolute (c ∷ s) = c == b'/'

abbrev pub first_grows : ℕ → List Bytes → List Bytes
first_grows c [] = (c ∷ []) ∷ []
first_grows c (component ∷ components) = (c ∷ component) ∷ components

-- The components of a relative path. Slashes in a row give empty ones here, which are never "..".
unfoldable pub components : Bytes → List Bytes
components [] = [] ∷ []
components (c ∷ s) = let rest = components s in if c == b'/' then [] ∷ rest else first_grows c rest

unfoldable pub none_is_parent : List Bytes → Bool
none_is_parent [] = true
none_is_parent (component ∷ rest) = not (str_eq component (codes "..")) && none_is_parent rest

unfoldable pub is_valid_append_directory : Bytes → Bool
is_valid_append_directory directory =
    not (is_empty directory)
    && (not (is_absolute directory)
        && (not (str_eq directory (codes "."))
            && (not (str_eq directory (codes "..")) && none_is_parent (components directory))))

abbrev pub set_port : Bytes → ServerConfig → Expected ServerConfig
set_port value config = parse_port_number value >>= λ port. expected (record config { port = port })

abbrev pub set_replica_of : Bytes → ServerConfig → Expected ServerConfig
set_replica_of value config =
    parse_replica_config value >>= λ replica. expected (record config { replica_of = some replica })

abbrev pub set_password : Environment → Bytes → ServerConfig → Expected ServerConfig
set_password env value config =
    env.sha256 value >>= λ hash. expected (record config { default_user_password_hash = some hash })

abbrev pub set_dir : Environment → Bytes → ServerConfig → Expected ServerConfig
set_dir env value config = validate_directory env value >>= λ _.
    expected (record config { rdb_config = record config.rdb_config { dir = value } })

abbrev pub set_db_filename : Bytes → ServerConfig → Expected ServerConfig
set_db_filename value config =
    if not (is_valid_database_filename value)
    then unexpected (codes "RDB filename must be a filename without a directory path")
    else expected (record config { rdb_config = record config.rdb_config { db_filename = value } })

abbrev pub set_append_only : Bytes → ServerConfig → Expected ServerConfig
set_append_only value config =
    if not (str_eq value (codes "yes")) && not (str_eq value (codes "no"))
    then unexpected (codes "--appendonly must be either 'yes' or 'no'")
    else expected (record config {
      aof_config = record config.aof_config { enabled = str_eq value (codes "yes") };
    })

abbrev pub set_append_dirname : Bytes → ServerConfig → Expected ServerConfig
set_append_dirname value config =
    if not (is_valid_append_directory value)
    then unexpected (codes "AOF directory must be a relative path inside the data directory")
    else expected
        (record config { aof_config = record config.aof_config { append_dirname = value } })

abbrev pub set_append_filename : Bytes → ServerConfig → Expected ServerConfig
set_append_filename value config =
    if not (is_valid_database_filename value)
    then unexpected (codes "AOF filename must be a filename without a directory path")
    else expected
        (record config { aof_config = record config.aof_config { append_filename = value } })

abbrev pub is_policy : Bytes → Bool
is_policy policy =
    str_eq policy (codes "always")
    || (str_eq policy (codes "everysec") || str_eq policy (codes "no"))

abbrev pub set_append_fsync : Bytes → ServerConfig → Expected ServerConfig
set_append_fsync value config =
    if not (is_policy value)
    then unexpected (codes "--appendfsync must be 'always', 'everysec', or 'no'")
    else expected (record config { aof_config = record config.aof_config { append_fsync = value } })

abbrev pub unknown_argument : Bytes → Expected ServerConfig
unknown_argument arg = unexpected (codes "Unknown argument: " ++ arg)

-- One option with its value.
unfoldable pub apply_option : Environment → Bytes → Bytes → ServerConfig → Expected ServerConfig
apply_option env arg value config =
    if str_eq arg (codes "--port")
    then set_port value config
    else if str_eq arg (codes "--replicaof")
    then set_replica_of value config
    else if str_eq arg (codes "--requirepass")
    then set_password env value config
    else if str_eq arg (codes "--dir")
    then set_dir env value config
    else if str_eq arg (codes "--dbfilename")
    then set_db_filename value config
    else if str_eq arg (codes "--appendonly")
    then set_append_only value config
    else if str_eq arg (codes "--appenddirname")
    then set_append_dirname value config
    else if str_eq arg (codes "--appendfilename")
    then set_append_filename value config
    else if str_eq arg (codes "--appendfsync")
    then set_append_fsync value config
    else unknown_argument arg

abbrev pub option_names : List Bytes
option_names =
    codes "--port"
    ∷ codes "--replicaof"
    ∷ codes "--requirepass"
    ∷ codes "--dir"
    ∷ codes "--dbfilename"
    ∷ codes "--appendonly"
    ∷ codes "--appenddirname"
    ∷ codes "--appendfilename"
    ∷ codes "--appendfsync"
    ∷ []

unfoldable pub is_one_of : Bytes → List Bytes → Bool
is_one_of arg [] = false
is_one_of arg (name ∷ names) = str_eq arg name || is_one_of arg names

-- The last argument, which has no value behind it.
unfoldable pub lone_option : Bytes → Expected ServerConfig
lone_option arg =
    if is_one_of arg option_names
    then unexpected (codes "Missing value after " ++ arg)
    else unknown_argument arg

-- The loop, over the arguments that are left.
unfoldable pub parse_options : Environment → List Bytes → ServerConfig → Expected ServerConfig
parse_options env [] config = expected config
parse_options env (arg ∷ []) config = lone_option arg
parse_options env (arg ∷ value ∷ args) config =
    apply_option env arg value config >>= parse_options env args

abbrev pub in_path : Environment → List Bytes → Expected Bytes → Expected ServerConfig
in_path env args (unexpected message) =
    unexpected (codes "Cannot determine the current working directory: " ++ message)
in_path env args (expected path) =
    parse_options env args
      (record default_config { rdb_config = record default_config.rdb_config { dir = path } })

-- `args` is `argv[1]` up to `argv[argc - 1]`.
unfoldable pub parse_arguments : Environment → List Bytes → Expected ServerConfig
parse_arguments env args = in_path env args env.current_path
