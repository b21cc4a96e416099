-- ===== src/Aof/Manifest/Created.antt =====
-- A server that made its append-only file finds it again when it starts the next time: `open` of
-- src/aof.cpp.
use codecrafters_redis_cpp.Prelude.{
  ℕ, ◌≡◌, inl, inr, refl, ap, sym, ◌∙◌, Bool, true, false, List, [], ◌∷◌, ◌++◌, append_assoc, arith,
  Bytes, codes, str_eq, length, length-append,
}
use codecrafters_redis_cpp.Prelude.Expected.{Expected, expected, unexpected, ◌>>=◌}
use codecrafters_redis_cpp.Numeric.{to_string}
use codecrafters_redis_cpp.Numeric.RoundTrip.{All}
use codecrafters_redis_cpp.ServerConfig.{AofConfig, ServerConfig, Environment, parse_arguments}
use codecrafters_redis_cpp.ServerConfig.Validity.{IsFilename, IsPolicy, parse_arguments-IsValid}
use codecrafters_redis_cpp.ServerConfig.RoundTrip.{is_valid_database_filename_back}
use codecrafters_redis_cpp.Aof.{AppendOnlyFile, SyncPolicy, always, every_second, never}
use codecrafters_redis_cpp.Aof.Manifest.{
  is_space, read_active_filename, active_filename, first_manifest, create_manifest, Disk,
  open_append_only, sync_policy_of, opened_file, open_active, after_name, after_directory,
  manifest_path, or_say, join,
}
use codecrafters_redis_cpp.Aof.Manifest.Highest.{
  IsWord, Line, write_manifest, read_active_filename-IsHighest,
}

abbrev pub suffix : Bytes
suffix = codes ".1.incr.aof"

All-append : (P : ℕ → Type 0) (s t : Bytes) → All P s → All P t → All P (s ++ t)
All-append P [] t h k = k
All-append P (c ∷ s) t (h, l) k = (h, All-append P s t l k)

suffix_no_space : All (λ c. is_space c ≡ false) suffix
suffix_no_space =
    (refl, (refl, (refl, (refl, (refl, (refl, (refl, (refl, (refl, (refl, (refl, tt)))))))))))

pub IsWord-with_suffix : (s : Bytes) → IsWord s → IsWord (s ++ suffix)
IsWord-with_suffix [] h = absurd (h.nonempty refl)
IsWord-with_suffix (c ∷ s) h = record {
  nonempty = λ e. cc;
  no_space = All-append _ (c ∷ s) suffix h.no_space suffix_no_space;
}

IsFilename-with_suffix : (s : Bytes) → IsFilename s → IsFilename (s ++ suffix)
IsFilename-with_suffix s h = record {
  nonempty = λ e. omega (arith, length-append s suffix, ap length e);
  no_slash = All-append _ s suffix h.no_slash (omega arith);
  not_here = λ e. omega (arith, length-append s suffix, ap length e);
  not_parent = λ e. omega (arith, length-append s suffix, ap length e);
}

first_manifest-write_manifest :
    (config : AofConfig)
    → first_manifest config
      ≡ write_manifest
          (record { filename = active_filename config; sequence = 1; type = codes "i" } ∷ [])
unfolding to_string
first_manifest-write_manifest config =
    ap (λ (s : Bytes). codes "file " ++ s)
      (sym (append_assoc (active_filename config) (codes " seq 1 type i") (10 ∷ [])))

module _ {A B : Type 0} where
  bind_expected :
      (o : Expected A) (f : A → Expected B) {b : B}
      → (o >>= f) ≡ expected b
      → (a : A) × (o ≡ expected a) × (f a ≡ expected b)
  bind_expected (expected a) f e = (a, refl, e)
  bind_expected (unexpected message) f e = cc

say_expected :
    {A : Type 0} (message path : Bytes) (o : Expected A) {a : A}
    → or_say message path o ≡ expected a
    → o ≡ expected a
say_expected message path (expected b) e = e
say_expected message path (unexpected reason) e = cc

created_name :
    (creates written : Bool) (path : Bytes) (config : AofConfig) {name : Bytes}
    → create_manifest creates written path config ≡ expected name
    → name ≡ active_filename config
created_name true true path config e = ground (arith, e)
created_name true false path config e = cc
created_name false written path config e = cc

-- The manifest that was made is read back.
pub read_active_filename-first_manifest :
    (path : Bytes) (config : AofConfig)
    → IsWord config.append_filename
    → IsFilename config.append_filename
    → read_active_filename path
        (record { opens = true; contents = first_manifest config; bad = false })
      ≡ expected (active_filename config)
read_active_filename-first_manifest path config word name =
    let entry : Line = record {
      filename = active_filename config;
      sequence = 1;
      type = codes "i";
    } in
    let (active, p, among, highest) =
      read_active_filename-IsHighest path (entry ∷ [])
        (
          record {
            filename = IsWord-with_suffix config.append_filename word;
            safe =
                is_valid_database_filename_back _
                  (IsFilename-with_suffix config.append_filename name);
            sequence = omega arith;
            type = record { nonempty = λ e. cc; no_space = (refl, tt) };
          },
          tt,
        )
        (inl refl) in
    ap
      (λ (s : Bytes).
        read_active_filename path (record { opens = true; contents = s; bad = false }))
      (first_manifest-write_manifest config)
    ∙ p
    ∙ ap expected
        (elim among [ inl (type, same, sequence) ↦ sym same | inr none_else ↦ absurd none_else ])

-- The disk on which `open` has made the manifest of these options, and on which the file opens.
pub record Made (disk : Disk) (config : AofConfig) (path contents : Bytes) : Type 0 where
  pub creates : disk.create_directories ≡ expected tt
  pub exists : disk.manifest_exists ≡ expected true
  pub manifest :
      disk.manifest ≡ record { opens = true; contents = first_manifest config; bad = false }
  pub opens : disk.open_file path ≡ expected contents

-- The file that a start opens, when the name of the active file and the policy stand.
open_active_lem :
    (disk : Disk) (now : ℕ) (path : Bytes) (policy : SyncPolicy) {file : AppendOnlyFile}
    → open_active disk now path policy ≡ expected file
    → (file.path ≡ path) × (file.sync_policy ≡ policy)
open_active_lem disk now path policy e =
    let (contents, p, q) =
      bind_expected (or_say (codes "Cannot open AOF file '") path (disk.open_file path))
        (λ contents. expected (opened_file now path policy contents)) e in
    ground (arith, q)

-- A server that made its append-only file opens the same file when it starts again with the same
-- options: if the first start found no manifest and succeeded, the next one, on a disk that holds
-- what the first has written, opens the file of that path with the same policy and what it holds then.
-- The name of the file must have no white space and no directory part.
pub reopened :
    (first second : Disk) (now later : ℕ) (base contents : Bytes) (config : AofConfig)
    {file : AppendOnlyFile}
    → IsWord config.append_filename
    → IsFilename config.append_filename
    → first.manifest_exists ≡ expected false
    → open_append_only first now base config ≡ expected file
    → Made second config file.path contents
    → open_append_only second later base config
      ≡ expected (record file { contents = contents; synced = length contents; last_sync = later })
unfolding open_append_only
reopened first second now later base contents config {file} word name absent e made =
    let directory = join base config.append_dirname in
    let (done, p, e₁) =
      bind_expected
        (or_say (codes "Cannot create AOF directory '") directory first.create_directories)
        (after_directory first now directory config) e in
    let (filename, q, e₂) =
      bind_expected
        (create_manifest first.creates first.writes_manifest (manifest_path directory config)
          config)
        (after_name first now directory config) (rw absent at e₁) in
    let (policy, r, e₃) =
      bind_expected (sync_policy_of config.append_fsync)
        (open_active first now (join directory filename)) e₂ in
    let (path, same) = open_active_lem first now (join directory filename) policy e₃ in
    again directory policy
      (path
        ∙ ap (join directory) (
            created_name first.creates first.writes_manifest (manifest_path directory config) config
              q))
      r same
  where
    again :
        (directory : Bytes) (policy : SyncPolicy)
        → file.path ≡ join directory (active_filename config)
        → sync_policy_of config.append_fsync ≡ expected policy
        → file.sync_policy ≡ policy
        → (or_say (codes "Cannot create AOF directory '") directory second.create_directories
            >>= after_directory second later directory config)
          ≡ expected
              (record file { contents = contents; synced = length contents; last_sync = later })
    again directory policy path r same =
        rw
          (
            made.creates,
            made.exists,
            made.manifest,
            read_active_filename-first_manifest (manifest_path directory config) config word name,
            r,
            sym path,
            made.opens,
            sym same,
          )
          refl

-- Settings that the options gave have a policy that `open` supports.
pub parse_arguments-supported :
    (env : Environment) (args : List Bytes) {config : ServerConfig}
    → parse_arguments env args ≡ expected config
    → (policy : SyncPolicy) × (sync_policy_of config.aof_config.append_fsync ≡ expected policy)
parse_arguments-supported env args e =
    by_policy ((parse_arguments-IsValid env args e).aof_config.append_fsync)
  where
    by_policy :
        {s : Bytes} → IsPolicy s → (policy : SyncPolicy) × (sync_policy_of s ≡ expected policy)
    by_policy (inl p) = (always, rw p (unfold sync_policy_of str_eq in refl))
    by_policy (inr (inl p)) = (every_second, rw p (unfold sync_policy_of str_eq in refl))
    by_policy (inr (inr p)) = (never, rw p (unfold sync_policy_of str_eq in refl))
