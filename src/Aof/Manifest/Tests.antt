-- ===== src/Aof/Manifest/Tests.antt =====
-- Manifests at concrete inputs.
use codecrafters_redis_cpp.Prelude.{
  ◌≡◌, refl, ap, inl, true, false, List, [], ◌∷◌, ◌++◌, arith, Bytes, codes, str_eq, length, get_or,
}
use codecrafters_redis_cpp.Prelude.Expected.{expected, unexpected}
use codecrafters_redis_cpp.ServerConfig.{
  AofConfig, Environment, is_directory, default_config, parse_arguments, parse_options,
  is_valid_database_filename, has_slash,
}
use codecrafters_redis_cpp.Aof.{SyncPolicy, AppendOnlyFile, every_second}
use codecrafters_redis_cpp.Aof.Manifest.{
  ManifestEntry, Disk, read_active_filename, first_manifest, open_append_only, sync_policy_of, join,
}
use codecrafters_redis_cpp.Aof.Manifest.Highest.{
  IsWord, Line, IsAmong, IsHighest, write_manifest, read_active_filename-IsHighest,
}
use codecrafters_redis_cpp.Aof.Manifest.Created.{reopened, parse_arguments-supported}
use codecrafters_redis_cpp.Aof.Manifest.Spaced.{read_active_filename-spaced}

abbrev config : AofConfig
config = record default_config.aof_config { append_filename = codes "a" }

word_a : IsWord (codes "a")
word_a = record { nonempty = λ e. cc; no_space = (refl, tt) }

word_i : IsWord (codes "i")
word_i = record { nonempty = λ e. cc; no_space = (refl, tt) }

abbrev two : List Line
two =
    record { filename = codes "a"; sequence = 7; type = codes "i" }
    ∷ record { filename = codes "a"; sequence = 8; type = codes "a" }
    ∷ []

read_active_filename-IsHighest_example :
    (active : ManifestEntry) × (read_active_filename
        (codes "m")
        (record { opens = true; contents = write_manifest two; bad = false })
      ≡ expected active.filename)
    × IsAmong active two
    × IsHighest active two
read_active_filename-IsHighest_example =
    read_active_filename-IsHighest (codes "m") two
      (
        record { filename = word_a; safe = safe; sequence = omega arith; type = word_i },
        (record { filename = word_a; safe = safe; sequence = omega arith; type = word_a }, tt),
      )
      (inl refl)
  where
    safe : is_valid_database_filename (codes "a") ≡ true
    safe = unfold is_valid_database_filename has_slash str_eq in refl

abbrev new_disk : Disk
new_disk = record {
  create_directories = expected tt;
  manifest_exists = expected false;
  manifest = record { opens = false; contents = []; bad = false };
  creates = true;
  writes_manifest = true;
  open_file = λ path. expected [];
}

abbrev used_disk : Disk
used_disk = record new_disk {
  manifest_exists = expected true;
  manifest = record { opens = true; contents = first_manifest config; bad = false };
  open_file = λ path. expected (1 ∷ []);
}

abbrev new_file : AppendOnlyFile
new_file = record {
  path = codes "d/appendonlydir/a.1.incr.aof";
  contents = [];
  synced = 0;
  sync_policy = every_second;
  last_sync = 5;
}

reopened_example :
    open_append_only used_disk 9 (codes "d") config
    ≡ expected (record new_file { contents = 1 ∷ []; synced = 1; last_sync = 9 })
reopened_example =
    reopened new_disk used_disk 5 9 (codes "d") (1 ∷ []) config {file = new_file} word_a
      (record {
        nonempty = λ e. cc;
        no_slash = omega arith;
        not_here = not_a;
        not_parent = not_so_long;
      })
      refl (unfold open_append_only join sync_policy_of str_eq in refl)
      (record { creates = refl; exists = refl; manifest = refl; opens = refl })
  where
    not_a : codes "a" ≡ codes "." → ⊥
    not_a e = omega (arith, ap (λ (s : Bytes). get_or s 0 0) e)

    not_so_long : codes "a" ≡ codes ".." → ⊥
    not_so_long e = omega (arith, ap length e)

read_active_filename-spaced_example :
    read_active_filename (codes "m") (record {
      opens = true;
      contents = first_manifest (record config { append_filename = codes "a i" });
      bad = false;
    })
    ≡ unexpected (codes "Invalid entry in AOF manifest '" ++ (codes "m" ++ codes "'"))
read_active_filename-spaced_example =
    read_active_filename-spaced (codes "m") (codes "a") (codes "i")
      (record config { append_filename = codes "a i" }) word_a word_i refl

abbrev plain_system : Environment
plain_system = record {
  current_path = expected (codes "d");
  status = λ path. is_directory;
  sha256 = λ password. expected password;
}

parsed_policy_supported :
    (policy : SyncPolicy) × (sync_policy_of (codes "everysec") ≡ expected policy)
parsed_policy_supported =
    parse_arguments-supported plain_system []
      {config = record default_config {
        rdb_config = record default_config.rdb_config { dir = codes "d" };
      }}
      (unfold parse_arguments parse_options in refl)
