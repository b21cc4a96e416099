-- ===== src/Processor/Access/Grant.antt =====
-- Whom AUTH in src/command_processor.cpp lets in.
use codecrafters_redis_cpp.Prelude.{
  ℕ, ◌≡◌, inl, inr, refl, Bool, true, false, ◌&&◌, ◌||◌, Option, none, some, [], ◌∷◌, arith, ◌==◌,
  ==_iff, Bytes, codes, str_eq, Bool-cases,
}
use codecrafters_redis_cpp.Prelude.Map.{bytes_eq, nat_eq, find, find-insert}
use codecrafters_redis_cpp.Prelude.Expected.{Expected, expected, unexpected}
use codecrafters_redis_cpp.Resp.{Command}
use codecrafters_redis_cpp.Processor.Subscriptions.{ClientState, Hub}
use codecrafters_redis_cpp.Processor.Subscriptions.Sets.{member}
use codecrafters_redis_cpp.Processor.Access.{
  User, is_authenticated, credentials_match, admit, authenticate_client, authenticate,
}

abbrev pub is_known : Expected Bytes → User → Bool
is_known (expected hash) user = member hash user.password_hashes
is_known (unexpected message) user = false

-- The password opens the account: it needs none, or the hash is among those of the account.
abbrev pub opens : (Bytes → Expected Bytes) → Bytes → User → Bool
opens sha256 password user = user.no_password || is_known (sha256 password) user

abbrev pub is_registered : Option ClientState → Bool
is_registered none = false
is_registered (some state) = true

-- The two forms of AUTH, without and with the name of the user.
abbrev pub auth_command : Option Bytes → Bytes → Command
auth_command none password = codes "AUTH" ∷ password ∷ []
auth_command (some username) password = codes "AUTH" ∷ username ∷ password ∷ []

abbrev pub names_default : Option Bytes → Bool
names_default none = true
names_default (some username) = str_eq username (codes "default")

abbrev Admits : ℕ → Bool → Hub → Hub → Type 0
Admits client granted hub hub' =
    (other : ℕ)
    → is_authenticated (find other hub'.clients) ≡ (
        is_authenticated (find other hub.clients)
        || ((client == other) && (is_registered (find client hub.clients) && granted)))

admit-Admits :
    (sha256 : Bytes → Expected Bytes) (client : ℕ) (password : Bytes) (state : ClientState)
    (user : User) (hub : Hub)
    → find client hub.clients ≡ some state
    → Admits client
        (opens sha256 password user)
        hub
        (admit client state (credentials_match sha256 password user) hub).1
admit-Admits sha256 client password state user hub e other = ground (
  arith,
  e,
  ==_iff client other,
  find-insert client other (record state { authenticated = true }) hub.clients,
)

authenticate_client-Admits :
    (sha256 : Bytes → Expected Bytes) (client : ℕ) (username password : Bytes) (user : User)
    (hub : Hub)
    → Admits client
        (str_eq username (codes "default") && opens sha256 password user)
        hub
        (authenticate_client sha256 client username password (find client hub.clients) user hub).1
authenticate_client-Admits sha256 client username password user hub =
    by_client (find client hub.clients) refl
  where
    nobody :
        (b : Bool) (found : Option ClientState)
        → (found ≡ none)
        → (is_registered found && b) ≡ false
    nobody b none e = refl
    nobody b (some state) e = cc

    by_client :
        (found : Option ClientState)
        → find client hub.clients ≡ found
        → Admits client
            (str_eq username (codes "default") && opens sha256 password user)
            hub
            (authenticate_client sha256 client username password found user hub).1
    by_client none e = λ other. ground (
      arith,
      nobody (str_eq username (codes "default") && opens sha256 password user)
          (find client hub.clients) e,
    )
    by_client (some state) e = elim (Bool-cases (str_eq username (codes "default"))) [
      | inl named ↦ rw named (admit-Admits sha256 client password state user hub e)
      | inr other_name ↦ rw other_name (λ other. ground arith)
    ]

-- AUTH with a password, and a name of a user or none, makes exactly the client that sent it
-- authenticated, and only if the client is registered, the name is that of the default user, and the
-- password opens its account; no client loses what it had.
pub authenticate-grants :
    (sha256 : Bytes → Expected Bytes) (client other : ℕ) (username : Option Bytes)
    (password : Bytes) (user : User) (hub : Hub)
    → let (reply, hub') = authenticate sha256 client (auth_command username password) user hub in
      is_authenticated (find other hub'.clients) ≡ (
        is_authenticated (find other hub.clients)
        || ((client == other)
            && (is_registered (find client hub.clients)
                && (names_default username && opens sha256 password user))))
unfolding authenticate str_eq
authenticate-grants sha256 client other none password user hub =
    authenticate_client-Admits sha256 client (codes "default") password user hub other
authenticate-grants sha256 client other (some username) password user hub =
    authenticate_client-Admits sha256 client username password user hub other
