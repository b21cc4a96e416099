-- ===== src/ServerConfig/Tests.antt =====
-- Arguments at concrete inputs.
use codecrafters_redis_cpp.Prelude.{◌≡◌, refl, some, List, [], ◌∷◌, Bytes, codes, str_eq}
use codecrafters_redis_cpp.Prelude.Expected.{expected, unexpected}
use codecrafters_redis_cpp.Numeric.{from_chars, whole}
use codecrafters_redis_cpp.ServerConfig.{
  ServerConfig, Environment, is_directory, parse_arguments, parse_options, apply_option,
  parse_port_number, validate_directory, default_config, lone_option, is_one_of,
  parse_replica_config, split_space, is_valid_database_filename, has_slash,
}
use codecrafters_redis_cpp.ServerConfig.Validity.{IsValid, parse_arguments-IsValid}
use codecrafters_redis_cpp.ServerConfig.RoundTrip.{arguments_of, parse_arguments-arguments_of}

-- Every path is a directory, and a password is its own hash.
abbrev plain_system : Environment
plain_system = record {
  current_path = expected (codes "/home");
  status = λ path. is_directory;
  sha256 = λ password. expected password;
}

abbrev replica : ServerConfig
replica = record default_config {
  port = 80;
  replica_of = some (record { host = codes "h"; port = 6379 });
  default_user_password_hash = some (codes "p");
  rdb_config = record { dir = codes "/d"; db_filename = codes "r" };
}

abbrev replica_arguments : List Bytes
replica_arguments =
    codes "--dir"
    ∷ codes "/d"
    ∷ codes "--replicaof"
    ∷ codes "h 6379"
    ∷ codes "--requirepass"
    ∷ codes "p"
    ∷ codes "--port"
    ∷ codes "80"
    ∷ codes "--dbfilename"
    ∷ codes "r"
    ∷ []

parse_arguments-IsValid_example : IsValid plain_system replica
parse_arguments-IsValid_example = parse_arguments-IsValid plain_system replica_arguments (
    unfold parse_arguments parse_options apply_option parse_port_number from_chars whole
      parse_replica_config split_space validate_directory is_valid_database_filename has_slash
      str_eq in
    refl)

lacks_value :
    parse_arguments plain_system (codes "--port" ∷ [])
    ≡ unexpected (codes "Missing value after --port")
unfolding parse_arguments parse_options lone_option is_one_of str_eq
lacks_value = refl

parse_arguments-arguments_of_example :
    parse_arguments plain_system (arguments_of (some (codes "p")) replica) ≡ expected replica
parse_arguments-arguments_of_example =
    parse_arguments-arguments_of plain_system replica (some (codes "p")) (codes "/home")
      parse_arguments-IsValid_example refl (λ e. cc) refl (codes "p", refl, refl)
