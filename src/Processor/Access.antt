-- ===== src/Processor/Access.antt =====
-- src/acl.hpp, and AUTH and ACL in src/command_processor.cpp. The hash of a password is an argument.
pub mod Grant
use codecrafters_redis_cpp.Prelude.{
  ℕ, zero, suc, Bool, true, false, ◌&&◌, ◌||◌, not, Option, none, some, List, [], ◌∷◌, ◌++◌, ltb,
  leb, ◌==◌, if◌then◌else◌, Bytes, codes, str_eq, length, drop,
}
use codecrafters_redis_cpp.Prelude.Map.{Map, bytes_eq, nat_eq, find, insert}
use codecrafters_redis_cpp.Prelude.Expected.{Expected, expected, unexpected, ◌>>=◌}
use codecrafters_redis_cpp.Resp.{Command}
use codecrafters_redis_cpp.Resp.Reply.{
  Response, Responses, nil, cons, simple_string, simple_error, bulk_string, null_array, empty_array,
  array, response_array,
}
use codecrafters_redis_cpp.Handlers.{word}
use codecrafters_redis_cpp.Processor.Subscriptions.{ClientState, Hub}
use codecrafters_redis_cpp.Processor.Subscriptions.Sets.{member, add}

pub record User : Type 0 where
  pub no_password : Bool
  pub password_hashes : List Bytes

abbrev pub make_default_acl_user : Option Bytes → User
make_default_acl_user none = record { no_password = true; password_hashes = [] }
make_default_acl_user (some hash) = record { no_password = false; password_hashes = hash ∷ [] }

abbrev pub is_authenticated : Option ClientState → Bool
is_authenticated none = false
is_authenticated (some state) = state.authenticated

abbrev pub no_authentication : Response
no_authentication = simple_error (codes "NOAUTH Authentication required.")

unfoldable pub acl_whoami : ℕ → Command → Hub → Response
acl_whoami client command hub =
    if not (length command == 2)
    then simple_error (codes "ERR wrong number of arguments for 'acl|whoami' command")
    else if not (is_authenticated (find client hub.clients))
    then no_authentication
    else bulk_string (codes "default")

-- `operator<` of `std::string`, with the equal ones on its side.
unfoldable pub str_le : Bytes → Bytes → Bool
str_le [] t = true
str_le (c ∷ s) [] = false
str_le (c ∷ s) (d ∷ t) = let later = str_le s t in ltb c d || ((c == d) && later)

unfoldable pub insert_sorted : Bytes → List Bytes → List Bytes
insert_sorted s [] = s ∷ []
insert_sorted s (t ∷ sorted) =
    let later = insert_sorted s sorted in if str_le s t then s ∷ t ∷ sorted else t ∷ later

-- `std::ranges::sort`
unfoldable pub sort : List Bytes → List Bytes
sort [] = []
sort (s ∷ list) = insert_sorted s (sort list)

abbrev pub flags_of : User → List Bytes
flags_of user =
    codes "on"
    ∷ codes "allkeys"
    ∷ codes "allchannels"
    ∷ codes "allcommands"
    ∷ (if user.no_password then codes "nopass" ∷ [] else [])

abbrev pub description_of : User → Responses
description_of user = cons (bulk_string (codes "flags")) (
    cons (array (flags_of user)) (
      cons (bulk_string (codes "passwords")) (
        cons (array (sort user.password_hashes)) (
          cons (bulk_string (codes "commands")) (
            cons (bulk_string (codes "+@all")) (
              cons (bulk_string (codes "keys")) (
                cons (bulk_string (codes "~*")) (
                  cons (bulk_string (codes "channels")) (
                    cons (bulk_string (codes "&*"))
                      (cons (bulk_string (codes "selectors")) (cons empty_array nil)))))))))))

unfoldable pub acl_getuser : Command → User → Response
acl_getuser command user =
    if not (length command == 3)
    then simple_error (codes "ERR wrong number of arguments for 'acl|getuser' command")
    else if not (str_eq (word command 2) (codes "default"))
    then null_array
    else response_array (description_of user)

abbrev pub no_hash : {A : Type 0} → Bytes → Expected A → Expected A
no_hash message (expected a) = expected a
no_hash message (unexpected reason) = unexpected (message ++ reason)

-- The part of a rule behind its '>', if that is not empty.
abbrev pub password_of : Bytes → Option Bytes
password_of [] = none
password_of (c ∷ []) = none
password_of (c ∷ d ∷ s) = if c == b'>' then some (d ∷ s) else none

abbrev pub apply_password : (Bytes → Expected Bytes) → Bytes → Option Bytes → User → Expected User
apply_password sha256 rule none user = unexpected (codes "ERR unsupported ACL rule: " ++ rule)
apply_password sha256 rule (some password) user =
    no_hash (codes "ERR failed to hash ACL password: ") (sha256 password) >>= λ hash.
    expected (record { no_password = false; password_hashes = add hash user.password_hashes })

abbrev pub apply_rule : (Bytes → Expected Bytes) → Bytes → User → Expected User
apply_rule sha256 rule user =
    if str_eq rule (codes "nopass")
    then expected (record { no_password = true; password_hashes = [] })
    else apply_password sha256 rule (password_of rule) user

unfoldable pub apply_rules : (Bytes → Expected Bytes) → List Bytes → User → Expected User
apply_rules sha256 [] user = expected user
apply_rules sha256 (rule ∷ rules) user = apply_rule sha256 rule user >>= apply_rules sha256 rules

abbrev pub updated : Expected User → User → Response × User
updated (expected user') user = (simple_string (codes "OK"), user')
updated (unexpected message) user = (simple_error message, user)

unfoldable pub acl_setuser : (Bytes → Expected Bytes) → Command → User → Response × User
acl_setuser sha256 command user =
    if ltb (length command) 3
    then (simple_error (codes "ERR wrong number of arguments for 'acl|setuser' command"), user)
    else if not (str_eq (word command 2) (codes "default"))
    then (simple_error (codes "ERR only the default ACL user is supported"), user)
    else updated (apply_rules sha256 (drop 3 command) user) user

unfoldable pub process_acl_command :
    (Bytes → Expected Bytes) → ℕ → Command → Hub → User → Response × User
process_acl_command sha256 client command hub user =
    if ltb (length command) 2
    then (simple_error (codes "ERR wrong number of arguments for 'acl' command"), user)
    else if str_eq (word command 1) (codes "WHOAMI")
    then (acl_whoami client command hub, user)
    else if str_eq (word command 1) (codes "GETUSER")
    then (acl_getuser command user, user)
    else if str_eq (word command 1) (codes "SETUSER")
    then acl_setuser sha256 command user
    else (simple_error (codes "ERR unknown ACL subcommand"), user)

abbrev pub wrong_password : Response
wrong_password =
    simple_error (codes "WRONGPASS invalid username-password pair or user is disabled.")

-- Whether the credentials match, or why that cannot be told.
abbrev pub credentials_match : (Bytes → Expected Bytes) → Bytes → User → Expected Bool
credentials_match sha256 password user =
    if user.no_password
    then expected true
    else (no_hash (codes "ERR failed to hash authentication password: ") (sha256 password)
        >>= λ hash. expected (member hash user.password_hashes))

abbrev pub admit : ℕ → ClientState → Expected Bool → Hub → Response × Hub
admit client state (unexpected message) hub = (simple_error message, hub)
admit client state (expected false) hub = (wrong_password, hub)
admit client state (expected true) hub = (
  simple_string (codes "OK"),
  record hub { clients = insert client (record state { authenticated = true }) hub.clients },
)

abbrev pub authenticate_client :
    (Bytes → Expected Bytes) → ℕ → Bytes → Bytes → Option ClientState → User → Hub → Response × Hub
authenticate_client sha256 client username password none user hub =
    (simple_error (codes "ERR client connection is not registered"), hub)
authenticate_client sha256 client username password (some state) user hub =
    if not (str_eq username (codes "default"))
    then (wrong_password, hub)
    else admit client state (credentials_match sha256 password user) hub

unfoldable pub authenticate : (Bytes → Expected Bytes) → ℕ → Command → User → Hub → Response × Hub
authenticate sha256 client command user hub =
    if not (length command == 2) && not (length command == 3)
    then (simple_error (codes "ERR wrong number of arguments for 'auth' command"), hub)
    else authenticate_client sha256 client
        (if length command == 2 then codes "default" else word command 1)
        (if length command == 2 then word command 1 else word command 2) (find client hub.clients)
        user hub
