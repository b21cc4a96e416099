-- ===== src/ServerConfig/Validity.antt =====
-- What `parse_arguments` of src/server_config.cpp guarantees of the settings that it accepts.
use codecrafters_redis_cpp.Prelude.{
  ℕ, zero, suc, ◌≤◌, ◌<◌, ◌≡◌, ◌≢◌, ◌⊎◌, inl, inr, refl, Bool, true, false, ◌&&◌, not, Option, none,
  some, List, [], ◌∷◌, arith, ◌==◌, if◌then◌else◌, Bytes, codes, str_eq, str_eq_iff, Bool-cases,
}
use codecrafters_redis_cpp.Prelude.Expected.{Expected, expected, unexpected, ◌>>=◌}
use codecrafters_redis_cpp.Numeric.{from_chars, whole}
use codecrafters_redis_cpp.Numeric.RoundTrip.{All, whole-from_chars_bound}
use codecrafters_redis_cpp.ServerConfig.{
  ReplicaConfig, RdbConfig, AofConfig, ServerConfig, Environment, Status, inaccessible,
  is_directory, other, max_uint16, nonzero_port, parse_port_number, in_front, split_space,
  replica_with, replica_of_parts, parse_replica_config, by_status, validate_directory, has_slash,
  is_valid_database_filename, components, none_is_parent, is_valid_append_directory, set_port,
  set_replica_of, set_password, set_dir, set_db_filename, set_append_only, set_append_dirname,
  set_append_filename, is_policy, set_append_fsync, apply_option, parse_options, parse_arguments,
  default_config, lone_option, in_path,
}

abbrev pub IsPort : ℕ → Type 0
IsPort n = (0 < n) × (n ≤ 65535)

-- A name within a directory.
pub record IsFilename (s : Bytes) : Type 0 where
  pub nonempty : s ≢ []
  pub no_slash : All (λ c. c ≢ b'/') s
  pub not_here : s ≢ codes "."
  pub not_parent : s ≢ codes ".."

abbrev pub NoParent : List Bytes → Type 0
NoParent [] = Unit
NoParent (component ∷ rest) = (component ≢ codes "..") × NoParent rest

abbrev pub BeginsWithoutSlash : Bytes → Type 0
BeginsWithoutSlash [] = ⊥
BeginsWithoutSlash (c ∷ s) = c ≢ b'/'

-- A relative path that never leaves the directory that it is taken from. It is not written ".", though it
-- may name that directory in another way, as "./" does.
pub record StaysWithin (s : Bytes) : Type 0 where
  pub relative : BeginsWithoutSlash s
  pub not_here : s ≢ codes "."
  pub no_parent : NoParent (components s)

abbrev pub IsPolicy : Bytes → Type 0
IsPolicy s = (s ≡ codes "always") ⊎ ((s ≡ codes "everysec") ⊎ (s ≡ codes "no"))

abbrev pub IsReplica : Option ReplicaConfig → Type 0
IsReplica none = Unit
IsReplica (some replica) =
    (replica.host ≢ []) × All (λ c. c ≢ b' ') replica.host × IsPort replica.port

pub record IsValidRdb (env : Environment) (config : RdbConfig) : Type 0 where
  pub dir : (env.current_path ≡ expected config.dir) ⊎ (env.status config.dir ≡ is_directory)
  pub db_filename : IsFilename config.db_filename

pub record IsValidAof (config : AofConfig) : Type 0 where
  pub append_dirname : StaysWithin config.append_dirname
  pub append_filename : IsFilename config.append_filename
  pub append_fsync : IsPolicy config.append_fsync

pub record IsValid (env : Environment) (config : ServerConfig) : Type 0 where
  pub port : IsPort config.port
  pub replica_of : IsReplica config.replica_of
  pub rdb_config : IsValidRdb env config.rdb_config
  pub aof_config : IsValidAof config.aof_config

-- What is accepted has the property.
abbrev pub Gives : {A : Type 0} → (A → Type 0) → Expected A → Type 0
Gives P (expected a) = P a
Gives P (unexpected message) = Unit

bind-Gives :
    {A B : Type 0} (P : A → Type 0) (Q : B → Type 0) (o : Expected A) (f : A → Expected B)
    → Gives P o
    → ((a : A) → P a → Gives Q (f a))
    → Gives Q (o >>= f)
bind-Gives P Q (expected a) f h k = k a h
bind-Gives P Q (unexpected message) f h k = tt

parse_port_number-IsPort : (arg : Bytes) → Gives IsPort (parse_port_number arg)
unfolding parse_port_number
parse_port_number-IsPort arg =
    by_value (whole (from_chars max_uint16 arg)) (λ n e. whole-from_chars_bound max_uint16 arg e)
  where
    by_value :
        (o : Option ℕ) → ((n : ℕ) → o ≡ some n → n ≤ max_uint16) → Gives IsPort (nonzero_port o)
    by_value none h = tt
    by_value (some zero) h = tt
    by_value (some (suc n)) h = (omega arith, h (suc n) refl)

abbrev BeforeSpace : Option (Bytes × Bytes) → Type 0
BeforeSpace none = Unit
BeforeSpace (some (host, rest)) = All (λ c. c ≢ b' ') host

split_space-BeforeSpace : (s : Bytes) → BeforeSpace (split_space s)
unfolding split_space
split_space-BeforeSpace [] = tt
split_space-BeforeSpace (c ∷ s) = by_later (split_space s) (split_space-BeforeSpace s)
  where
    by_later :
        (o : Option (Bytes × Bytes))
        → BeforeSpace o
        → BeforeSpace (if c == b' ' then some ([], s) else in_front c o)
    by_later none h = ground arith
    by_later (some (host, rest)) h = ground (arith, h)

replica_of_parts-IsReplica :
    (o : Option (Bytes × Bytes))
    → BeforeSpace o
    → Gives (λ replica. IsReplica (some replica)) (replica_of_parts o)
replica_of_parts-IsReplica none h = tt
replica_of_parts-IsReplica (some ([], port_text)) h = tt
replica_of_parts-IsReplica (some (c ∷ host, [])) h = tt
replica_of_parts-IsReplica (some (c ∷ host, d ∷ port_text)) h =
    by_port (parse_port_number (d ∷ port_text)) (parse_port_number-IsPort (d ∷ port_text))
  where
    by_port :
        (o : Expected ℕ)
        → Gives IsPort o
        → Gives (λ replica. IsReplica (some replica)) (replica_with (c ∷ host) o)
    by_port (expected port) k = ((λ e. cc), h, k)
    by_port (unexpected message) k = tt

validate_directory_lem :
    (env : Environment) (path : Bytes)
    → Gives (λ _. env.status path ≡ is_directory) (validate_directory env path)
unfolding validate_directory
validate_directory_lem env [] = tt
validate_directory_lem env (c ∷ path) = by_answer (env.status (c ∷ path)) refl
  where
    by_answer :
        (answer : Status)
        → env.status (c ∷ path) ≡ answer
        → Gives (λ _. env.status (c ∷ path) ≡ is_directory) (by_status (c ∷ path) answer)
    by_answer (inaccessible message) e = tt
    by_answer is_directory e = e
    by_answer other e = tt

and_left : (a b : Bool) → (a && b) ≡ true → a ≡ true
and_left true b e = refl
and_left false b e = e

and_right : (a b : Bool) → (a && b) ≡ true → b ≡ true
and_right true b e = e
and_right false b e = cc

not-str_eq : (s t : Bytes) → not (str_eq s t) ≡ true → s ≢ t
not-str_eq s t e p = ground (arith, e, (str_eq_iff s t).1 p)

has_slash_lem : (s : Bytes) → not (has_slash s) ≡ true → All (λ c. c ≢ b'/') s
unfolding has_slash
has_slash_lem [] e = tt
has_slash_lem (c ∷ s) e = ((λ p. ground (arith, e, p)), has_slash_lem s (ground (arith, e)))

is_valid_database_filename-IsFilename :
    (s : Bytes) → is_valid_database_filename s ≡ true → IsFilename s
unfolding is_valid_database_filename
is_valid_database_filename-IsFilename [] e = cc
is_valid_database_filename-IsFilename (c ∷ s) e =
    let named = and_right (not (has_slash (c ∷ s))) _ e in
    record {
      nonempty = λ p. cc;
      no_slash = has_slash_lem (c ∷ s) (and_left _ _ e);
      not_here = not-str_eq (c ∷ s) (codes ".") (and_left _ _ named);
      not_parent = not-str_eq (c ∷ s) (codes "..") (and_right _ _ named);
    }

none_is_parent-NoParent : (parts : List Bytes) → none_is_parent parts ≡ true → NoParent parts
unfolding none_is_parent
none_is_parent-NoParent [] e = tt
none_is_parent-NoParent (part ∷ parts) e =
    (not-str_eq part (codes "..") (and_left _ _ e), none_is_parent-NoParent parts (and_right _ _ e))

is_valid_append_directory-StaysWithin :
    (s : Bytes) → is_valid_append_directory s ≡ true → StaysWithin s
unfolding is_valid_append_directory
is_valid_append_directory-StaysWithin [] e = cc
is_valid_append_directory-StaysWithin (c ∷ s) e =
    let named = and_right (not (c == b'/')) _ e in
    record {
      relative = λ p. ground (arith, and_left (not (c == b'/')) _ e, p);
      not_here = not-str_eq (c ∷ s) (codes ".") (and_left _ _ named);
      no_parent = none_is_parent-NoParent (components (c ∷ s)) (
          and_right (not (str_eq (c ∷ s) (codes ".."))) _
            (and_right (not (str_eq (c ∷ s) (codes "."))) _ named));
    }

is_policy-IsPolicy : (s : Bytes) → is_policy s ≡ true → IsPolicy s
is_policy-IsPolicy s e = elim (Bool-cases (str_eq s (codes "always"))) [
  | inl p ↦ inl ((str_eq_iff s (codes "always")).0 p)
  | inr p ↦ elim (Bool-cases (str_eq s (codes "everysec"))) [
    | inl q ↦ inr (inl ((str_eq_iff s (codes "everysec")).0 q))
    | inr q ↦ inr (inr ((str_eq_iff s (codes "no")).0 (rw (p, q) at e)))
  ]
]

-- A setter that tests its value.
tested-Gives :
    {A : Type 0} (P : A → Type 0) (test : Bool) (message : Bytes) (a : A)
    → (test ≡ true → P a)
    → Gives P (if not test then unexpected message else expected a)
tested-Gives P true message a h = h refl
tested-Gives P false message a h = tt

unless-Gives :
    {A : Type 0} (P : A → Type 0) (refused : Bool) (message : Bytes) (a : A)
    → P a
    → Gives P (if refused then unexpected message else expected a)
unless-Gives P true message a h = tt
unless-Gives P false message a h = h

module _ (env : Environment) (value : Bytes) (config : ServerConfig) (v : IsValid env config) where
  with_rdb :
      (rdb : RdbConfig) → IsValidRdb env rdb → IsValid env (record config { rdb_config = rdb })
  with_rdb rdb h = record {
    port = v.port;
    replica_of = v.replica_of;
    rdb_config = h;
    aof_config = v.aof_config;
  }

  with_aof : (aof : AofConfig) → IsValidAof aof → IsValid env (record config { aof_config = aof })
  with_aof aof h = record {
    port = v.port;
    replica_of = v.replica_of;
    rdb_config = v.rdb_config;
    aof_config = h;
  }

  set_port-IsValid : Gives (IsValid env) (set_port value config)
  set_port-IsValid =
      bind-Gives IsPort (IsValid env) (parse_port_number value) _ (parse_port_number-IsPort value)
        λ n h. record {
          port = h;
          replica_of = v.replica_of;
          rdb_config = v.rdb_config;
          aof_config = v.aof_config;
        }

  set_replica_of-IsValid : Gives (IsValid env) (set_replica_of value config)
  unfolding parse_replica_config
  set_replica_of-IsValid =
      bind-Gives (λ replica. IsReplica (some replica)) (IsValid env) (parse_replica_config value) _
        (replica_of_parts-IsReplica (split_space value) (split_space-BeforeSpace value))
        λ replica h. record {
          port = v.port;
          replica_of = h;
          rdb_config = v.rdb_config;
          aof_config = v.aof_config;
        }

  set_password-IsValid : Gives (IsValid env) (set_password env value config)
  set_password-IsValid =
      bind-Gives (λ _. Unit) (IsValid env) (env.sha256 value) _ (any (env.sha256 value))
        λ hash h. record {
          port = v.port;
          replica_of = v.replica_of;
          rdb_config = v.rdb_config;
          aof_config = v.aof_config;
        }
    where
      any : (o : Expected Bytes) → Gives (λ _. Unit) o
      any (expected hash) = tt
      any (unexpected message) = tt

  set_dir-IsValid : Gives (IsValid env) (set_dir env value config)
  set_dir-IsValid =
      bind-Gives (λ _. env.status value ≡ is_directory) (IsValid env) (validate_directory env value)
        _ (validate_directory_lem env value)
        λ done h. with_rdb _ (record { dir = inr h; db_filename = v.rdb_config.db_filename })

  set_db_filename-IsValid : Gives (IsValid env) (set_db_filename value config)
  set_db_filename-IsValid = tested-Gives (IsValid env) (is_valid_database_filename value) _ _ λ e.
      with_rdb _ (record {
        dir = v.rdb_config.dir;
        db_filename = is_valid_database_filename-IsFilename value e;
      })

  set_append_only-IsValid : Gives (IsValid env) (set_append_only value config)
  set_append_only-IsValid = unless-Gives (IsValid env) _ _ _ (
      with_aof _ (record {
        append_dirname = v.aof_config.append_dirname;
        append_filename = v.aof_config.append_filename;
        append_fsync = v.aof_config.append_fsync;
      }))

  set_append_dirname-IsValid : Gives (IsValid env) (set_append_dirname value config)
  set_append_dirname-IsValid = tested-Gives (IsValid env) (is_valid_append_directory value) _ _ λ e.
      with_aof _ (record {
        append_dirname = is_valid_append_directory-StaysWithin value e;
        append_filename = v.aof_config.append_filename;
        append_fsync = v.aof_config.append_fsync;
      })

  set_append_filename-IsValid : Gives (IsValid env) (set_append_filename value config)
  set_append_filename-IsValid =
      tested-Gives (IsValid env) (is_valid_database_filename value) _ _ λ e. with_aof _ (record {
        append_dirname = v.aof_config.append_dirname;
        append_filename = is_valid_database_filename-IsFilename value e;
        append_fsync = v.aof_config.append_fsync;
      })

  set_append_fsync-IsValid : Gives (IsValid env) (set_append_fsync value config)
  set_append_fsync-IsValid = tested-Gives (IsValid env) (is_policy value) _ _ λ e.
      with_aof _ (record {
        append_dirname = v.aof_config.append_dirname;
        append_filename = v.aof_config.append_filename;
        append_fsync = is_policy-IsPolicy value e;
      })

  apply_option-IsValid : (arg : Bytes) → Gives (IsValid env) (apply_option env arg value config)
  unfolding apply_option
  apply_option-IsValid arg = ground (
    arith, set_port-IsValid, set_replica_of-IsValid, set_password-IsValid, set_dir-IsValid,
    set_db_filename-IsValid, set_append_only-IsValid, set_append_dirname-IsValid,
    set_append_filename-IsValid, set_append_fsync-IsValid,
  )

lone_option-IsValid : (env : Environment) (arg : Bytes) → Gives (IsValid env) (lone_option arg)
unfolding lone_option
lone_option-IsValid env arg = ground arith

parse_options-IsValid :
    (env : Environment) (args : List Bytes) (config : ServerConfig)
    → IsValid env config
    → Gives (IsValid env) (parse_options env args config)
unfolding parse_options
parse_options-IsValid env [] config v = v
parse_options-IsValid env (arg ∷ []) config v = lone_option-IsValid env arg
parse_options-IsValid env (arg ∷ value ∷ args) config v =
    bind-Gives (IsValid env) (IsValid env) (apply_option env arg value config) _
      (apply_option-IsValid env value config v arg) (parse_options-IsValid env args)

default_config-IsValid :
    (env : Environment) (path : Bytes)
    → env.current_path ≡ expected path
    → IsValid env
        (record default_config { rdb_config = record default_config.rdb_config { dir = path } })
default_config-IsValid env path e = record {
  port = omega arith;
  replica_of = tt;
  rdb_config = record {
    dir = inl e;
    db_filename =
        is_valid_database_filename-IsFilename (codes "dump.rdb")
          (unfold is_valid_database_filename has_slash str_eq in refl);
  };
  aof_config = record {
    append_dirname =
        is_valid_append_directory-StaysWithin (codes "appendonlydir")
          (unfold is_valid_append_directory components none_is_parent str_eq in refl);
    append_filename =
        is_valid_database_filename-IsFilename (codes "appendonly.aof")
          (unfold is_valid_database_filename has_slash str_eq in refl);
    append_fsync = inr (inl refl);
  };
}

-- Whatever the arguments, settings that are accepted are valid: the port, and that of the master, lie
-- between 1 and 65535; the master's host is not empty and has no space; the data directory is the
-- current one or was found to be a directory; the two file names have no directory part; the
-- directory of the append-only file is a relative path that never leaves the data directory, though it
-- may be the data directory itself, written in another way than "."; and the policy of fsync is one of
-- the three.
pub parse_arguments-IsValid :
    (env : Environment) (args : List Bytes) {config : ServerConfig}
    → parse_arguments env args ≡ expected config
    → IsValid env config
unfolding parse_arguments
parse_arguments-IsValid env args {config} e = by_path env.current_path refl e
  where
    accepted :
        (o : Expected ServerConfig)
        → Gives (IsValid env) o
        → o ≡ expected config
        → IsValid env config
    accepted o h p = rw p at h

    by_path :
        (o : Expected Bytes)
        → env.current_path ≡ o
        → in_path env args o ≡ expected config
        → IsValid env config
    by_path (expected path) p q =
        accepted _ (parse_options-IsValid env args _ (default_config-IsValid env path p)) q
    by_path (unexpected message) p q = cc
