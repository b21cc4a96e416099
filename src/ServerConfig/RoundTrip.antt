-- ===== src/ServerConfig/RoundTrip.antt =====
-- Settings written as arguments, and what `parse_arguments` of src/server_config.cpp makes of them.
use codecrafters_redis_cpp.Prelude.{
  ℕ, zero, suc, ◌≡◌, ◌≢◌, inl, inr, refl, ap, ◌∙◌, Bool, true, false, Option, none, some, List, [],
  ◌∷◌, ◌++◌, append-nil, arith, if◌then◌else◌, Bytes, codes, str_eq, str_eq_iff,
}
use codecrafters_redis_cpp.Prelude.Expected.{expected}
use codecrafters_redis_cpp.Numeric.{to_string}
use codecrafters_redis_cpp.Numeric.RoundTrip.{All, whole-from_chars-to_string, to_string-Leads}
use codecrafters_redis_cpp.ServerConfig.{
  ReplicaConfig, RdbConfig, AofConfig, ServerConfig, Environment, is_directory, max_uint16,
  parse_port_number, split_space, replica_with, replica_of_parts, parse_replica_config,
  validate_directory, has_slash, is_valid_database_filename, components, none_is_parent,
  is_valid_append_directory, is_policy, apply_option, parse_options, parse_arguments,
  default_config, in_path,
}
use codecrafters_redis_cpp.ServerConfig.Validity.{
  IsPort, IsFilename, NoParent, StaysWithin, IsPolicy, IsReplica, IsValid,
}

abbrev replica_arguments : Option ReplicaConfig → List Bytes
replica_arguments none = []
replica_arguments (some replica) =
    codes "--replicaof" ∷ (replica.host ++ (b' ' ∷ to_string replica.port)) ∷ []

abbrev password_arguments : Option Bytes → List Bytes
password_arguments none = []
password_arguments (some password) = codes "--requirepass" ∷ password ∷ []

-- The arguments that stand for the settings; the password is not among these, only its hash.
abbrev pub arguments_of : Option Bytes → ServerConfig → List Bytes
arguments_of password config =
    codes "--port"
    ∷ to_string config.port
    ∷ (replica_arguments config.replica_of
        ++ (password_arguments password
            ++ (codes "--dir"
                ∷ config.rdb_config.dir
                ∷ codes "--dbfilename"
                ∷ config.rdb_config.db_filename
                ∷ codes "--appendonly"
                ∷ (if config.aof_config.enabled then codes "yes" else codes "no")
                ∷ codes "--appenddirname"
                ∷ config.aof_config.append_dirname
                ∷ codes "--appendfilename"
                ∷ config.aof_config.append_filename
                ∷ codes "--appendfsync"
                ∷ config.aof_config.append_fsync
                ∷ [])))

parse_port_number-to_string : (n : ℕ) → IsPort n → parse_port_number (to_string n) ≡ expected n
unfolding parse_port_number
parse_port_number-to_string zero (h, k) = absurd (omega arith)
parse_port_number-to_string (suc n) (h, k) =
    rw (whole-from_chars-to_string max_uint16 (suc n) k) refl

split_space_back :
    (host rest : Bytes)
    → All (λ c. c ≢ b' ') host
    → split_space (host ++ (b' ' ∷ rest)) ≡ some (host, rest)
unfolding split_space
split_space_back [] rest h = refl
split_space_back (c ∷ host) rest (h, k) = rw (split_space_back host rest k) (ground (arith, h))

parse_replica_config_back :
    (replica : ReplicaConfig)
    → IsReplica (some replica)
    → parse_replica_config (replica.host ++ (b' ' ∷ to_string replica.port)) ≡ expected replica
unfolding parse_replica_config
parse_replica_config_back replica (nonempty, no_space, port) =
    rw (split_space_back replica.host (to_string replica.port) no_space) (
      by_host replica.host (to_string replica.port) nonempty (no_digits replica.port)
      ∙ rw (parse_port_number-to_string replica.port port) refl)
  where
    no_digits : (n : ℕ) → to_string n ≢ []
    no_digits n e = rw (append-nil (to_string n), e) at (to_string-Leads n [])

    by_host :
        (host port_text : Bytes)
        → host ≢ []
        → port_text ≢ []
        → replica_of_parts (some (host, port_text))
          ≡ replica_with host (parse_port_number port_text)
    by_host [] port_text h k = absurd (h refl)
    by_host (c ∷ host) [] h k = absurd (k refl)
    by_host (c ∷ host) (d ∷ port_text) h k = refl

unlike : (s t : Bytes) → s ≢ t → str_eq s t ≡ false
unlike s t h = ground (arith, h, str_eq_iff s t)

has_slash_back : (s : Bytes) → All (λ c. c ≢ b'/') s → has_slash s ≡ false
unfolding has_slash
has_slash_back [] h = refl
has_slash_back (c ∷ s) (h, k) = ground (arith, h, has_slash_back s k)

pub is_valid_database_filename_back :
    (s : Bytes) → IsFilename s → is_valid_database_filename s ≡ true
unfolding is_valid_database_filename
is_valid_database_filename_back [] h = absurd (h.nonempty refl)
is_valid_database_filename_back (c ∷ s) h =
    rw
      (
        has_slash_back (c ∷ s) h.no_slash,
        unlike (c ∷ s) (codes ".") h.not_here,
        unlike (c ∷ s) (codes "..") h.not_parent,
      )
      refl

none_is_parent_back : (parts : List Bytes) → NoParent parts → none_is_parent parts ≡ true
unfolding none_is_parent
none_is_parent_back [] h = refl
none_is_parent_back (part ∷ parts) (h, k) =
    rw (unlike part (codes "..") h, none_is_parent_back parts k) refl

-- A relative path that is ".." has it for a component.
is_valid_append_directory_back : (s : Bytes) → StaysWithin s → is_valid_append_directory s ≡ true
unfolding is_valid_append_directory
is_valid_append_directory_back [] h = absurd h.relative
is_valid_append_directory_back (c ∷ s) h =
    rw
      (
        unlike (c ∷ s) (codes ".") h.not_here,
        unlike (c ∷ s) (codes "..") (λ e. is_parent (rw e at h.no_parent)),
        none_is_parent_back (components (c ∷ s)) h.no_parent,
      )
      (ground (arith, h.relative))
  where
    parts : components (codes "..") ≡ codes ".." ∷ []
    parts = unfold components in refl

    is_parent : NoParent (components (codes "..")) → ⊥
    is_parent k = (rw parts at k).0 refl

is_policy_back : (s : Bytes) → IsPolicy s → is_policy s ≡ true
is_policy_back s (inl e) = rw e (unfold str_eq in refl)
is_policy_back s (inr (inl e)) = rw e (unfold str_eq in refl)
is_policy_back s (inr (inr e)) = rw e (unfold str_eq in refl)

module _ (env : Environment) where
  option_back :
      (arg value : Bytes) (args : List Bytes) (config later : ServerConfig)
      → apply_option env arg value config ≡ expected later
      → parse_options env (arg ∷ value ∷ args) config ≡ parse_options env args later
  unfolding parse_options
  option_back arg value args config later e = rw e refl

  replica_back :
      (replica : Option ReplicaConfig) (args : List Bytes) (config : ServerConfig)
      → IsReplica replica
      → parse_options env (replica_arguments replica ++ args) (record config { replica_of = none })
        ≡ parse_options env args (record config { replica_of = replica })
  replica_back none args config h = refl
  replica_back (some replica) args config h =
      option_back _ _ args _ _
        (unfold apply_option str_eq in rw (parse_replica_config_back replica h) refl)

  -- The password hashes to what the settings have, or there is neither.
  abbrev pub Hashes : Option Bytes → Option Bytes → Type 0
  Hashes none hash = hash ≡ none
  Hashes (some password) hash = (h : Bytes) × (env.sha256 password ≡ expected h) × (hash ≡ some h)

  password_back :
      (password hash : Option Bytes) (args : List Bytes) (config : ServerConfig)
      → Hashes password hash
      → parse_options env
          (password_arguments password ++ args)
          (record config { default_user_password_hash = none })
        ≡ parse_options env args (record config { default_user_password_hash = hash })
  password_back none hash args config e = rw e refl
  password_back (some password) hash args config (h, e, p) =
      rw p (option_back _ _ args _ _ (unfold apply_option str_eq in rw e refl))

  dir_back :
      (dir : Bytes)
      → dir ≢ []
      → env.status dir ≡ is_directory
      → validate_directory env dir ≡ expected tt
  unfolding validate_directory
  dir_back [] h e = absurd (h refl)
  dir_back (c ∷ dir) h e = rw e refl

  apply_dir :
      (s : Bytes) (config : ServerConfig)
      → s ≢ []
      → env.status s ≡ is_directory
      → apply_option env (codes "--dir") s config
        ≡ expected (record config { rdb_config = record config.rdb_config { dir = s } })
  unfolding apply_option str_eq
  apply_dir s config h e = rw (dir_back s h e) refl

  apply_db_filename :
      (s : Bytes) (config : ServerConfig)
      → IsFilename s
      → apply_option env (codes "--dbfilename") s config
        ≡ expected (record config { rdb_config = record config.rdb_config { db_filename = s } })
  unfolding apply_option str_eq
  apply_db_filename s config h = rw (is_valid_database_filename_back s h) refl

  rdb_back :
      (rdb : RdbConfig) (args : List Bytes) (config : ServerConfig)
      → rdb.dir ≢ []
      → env.status rdb.dir ≡ is_directory
      → IsFilename rdb.db_filename
      → parse_options env
          (codes "--dir" ∷ rdb.dir ∷ codes "--dbfilename" ∷ rdb.db_filename ∷ args)
          config
        ≡ parse_options env args (record config { rdb_config = rdb })
  rdb_back rdb args config h e k =
      option_back _ _ _ _ _ (apply_dir rdb.dir config h e)
      ∙ option_back _ _ args _ _ (apply_db_filename rdb.db_filename _ k)

  apply_append_only :
      (b : Bool) (config : ServerConfig)
      → apply_option env (codes "--appendonly") (if b then codes "yes" else codes "no") config
        ≡ expected (record config { aof_config = record config.aof_config { enabled = b } })
  unfolding apply_option str_eq
  apply_append_only true config = refl
  apply_append_only false config = refl

  apply_append_dirname :
      (s : Bytes) (config : ServerConfig)
      → StaysWithin s
      → apply_option env (codes "--appenddirname") s config
        ≡ expected (record config { aof_config = record config.aof_config { append_dirname = s } })
  unfolding apply_option str_eq
  apply_append_dirname s config h = rw (is_valid_append_directory_back s h) refl

  apply_append_filename :
      (s : Bytes) (config : ServerConfig)
      → IsFilename s
      → apply_option env (codes "--appendfilename") s config
        ≡ expected (record config { aof_config = record config.aof_config { append_filename = s } })
  unfolding apply_option str_eq
  apply_append_filename s config h = rw (is_valid_database_filename_back s h) refl

  apply_append_fsync :
      (s : Bytes) (config : ServerConfig)
      → IsPolicy s
      → apply_option env (codes "--appendfsync") s config
        ≡ expected (record config { aof_config = record config.aof_config { append_fsync = s } })
  unfolding apply_option str_eq
  apply_append_fsync s config h = rw (is_policy_back s h) refl

  no_options : (config : ServerConfig) → parse_options env [] config ≡ expected config
  unfolding parse_options
  no_options config = refl

  aof_back :
      (aof : AofConfig) (config : ServerConfig)
      → StaysWithin aof.append_dirname
      → IsFilename aof.append_filename
      → IsPolicy aof.append_fsync
      → parse_options env
          (codes "--appendonly"
            ∷ (if aof.enabled then codes "yes" else codes "no")
            ∷ codes "--appenddirname"
            ∷ aof.append_dirname
            ∷ codes "--appendfilename"
            ∷ aof.append_filename
            ∷ codes "--appendfsync"
            ∷ aof.append_fsync
            ∷ [])
          config
        ≡ expected (record config { aof_config = aof })
  aof_back aof config h k l =
      option_back _ _ _ _ _ (apply_append_only aof.enabled config)
      ∙ option_back _ _ _ _ _ (apply_append_dirname aof.append_dirname _ h)
      ∙ option_back _ _ _ _ _ (apply_append_filename aof.append_filename _ k)
      ∙ option_back _ _ _ _ _ (apply_append_fsync aof.append_fsync _ l)
      ∙ no_options _

  port_back :
      (n : ℕ) (args : List Bytes) (config : ServerConfig)
      → IsPort n
      → parse_options env (codes "--port" ∷ to_string n ∷ args) config
        ≡ parse_options env args (record config { port = n })
  port_back n args config h =
      option_back _ _ args _ _
        (unfold apply_option str_eq in rw (parse_port_number-to_string n h) refl)

  -- Valid settings, written as arguments, are read back whole: where the current directory can be told,
  -- the data directory has a name and is a directory, and the password given has the hash that the
  -- settings hold, or there is neither.
  pub parse_arguments-arguments_of :
      (config : ServerConfig) (password : Option Bytes) (path : Bytes)
      → IsValid env config
      → env.current_path ≡ expected path
      → config.rdb_config.dir ≢ []
      → env.status config.rdb_config.dir ≡ is_directory
      → Hashes password config.default_user_password_hash
      → parse_arguments env (arguments_of password config) ≡ expected config
  unfolding parse_arguments
  parse_arguments-arguments_of config password path v e named found hashes =
      let start = record default_config {
        port = config.port;
        rdb_config = record default_config.rdb_config { dir = path };
      } in
      ap (in_path env (arguments_of password config)) e
      ∙ port_back config.port _ _ v.port
      ∙ replica_back config.replica_of _ start v.replica_of
      ∙ password_back password config.default_user_password_hash _
          (record start { replica_of = config.replica_of }) hashes
      ∙ rdb_back config.rdb_config _ _ named found v.rdb_config.db_filename
      ∙ aof_back config.aof_config _ v.aof_config.append_dirname v.aof_config.append_filename
          v.aof_config.append_fsync
