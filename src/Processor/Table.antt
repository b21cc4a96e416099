-- ===== src/Processor/Table.antt =====
-- src/command_processor.cpp: the table of commands, and `dispatch`.
use codecrafters_redis_cpp.Prelude.{
  Bool, true, false, Option, none, some, List, [], ◌∷◌, if◌then◌else◌, Bytes, codes, str_eq,
}
use codecrafters_redis_cpp.Resp.{Command}
use codecrafters_redis_cpp.Resp.Reply.{simple_error, null_bulk_string}
use codecrafters_redis_cpp.Database.{Database}
use codecrafters_redis_cpp.Handlers.{Clock, Outcome, replied}
use codecrafters_redis_cpp.Handlers.Time.{Doubles}
use codecrafters_redis_cpp.Handlers.Strings.{ping, echo, set, get, keys, type, incr}
use codecrafters_redis_cpp.Handlers.Rlist.{rpush, lpush, lrange, llen, lpop, blpop}
use codecrafters_redis_cpp.Handlers.Rstream.{xadd, xrange, xread}

pub data CommandAccess : Type 0 where
  read_only write : CommandAccess

pub record CommandDefinition : Type 0 where
  pub command : Bytes
  pub handler : Clock → Command → Database → Outcome
  pub access : CommandAccess

-- `std::ranges::find` on the field `command`.
unfoldable pub find_definition : Bytes → List CommandDefinition → Option CommandDefinition
find_definition name [] = none
find_definition name (definition ∷ definitions) =
    let later = find_definition name definitions in
    if str_eq definition.command name then some definition else later

abbrev pub writes : CommandAccess → Bool
writes read_only = false
writes write = true

abbrev pub is_write : Option CommandDefinition → Bool
is_write none = false
is_write (some definition) = writes definition.access

abbrev pub run_definition : Clock → Command → Option CommandDefinition → Database → Outcome
run_definition clock command none db = replied (simple_error (codes "ERR unknown command")) db
run_definition clock command (some definition) db = definition.handler clock command db

module _ (F : Doubles) where
  abbrev pub command_handlers : List CommandDefinition
  command_handlers =
      record { command = codes "PING"; handler = λ clock. ping; access = read_only }
      ∷ record { command = codes "ECHO"; handler = λ clock. echo; access = read_only }
      ∷ record { command = codes "SET"; handler = set; access = write }
      ∷ record { command = codes "GET"; handler = get; access = read_only }
      ∷ record { command = codes "KEYS"; handler = keys; access = read_only }
      ∷ record { command = codes "TYPE"; handler = type; access = read_only }
      ∷ record { command = codes "INCR"; handler = incr; access = write }
      ∷ record { command = codes "RPUSH"; handler = rpush; access = write }
      ∷ record { command = codes "LPUSH"; handler = lpush; access = write }
      ∷ record { command = codes "LRANGE"; handler = lrange; access = read_only }
      ∷ record { command = codes "LLEN"; handler = llen; access = read_only }
      ∷ record { command = codes "LPOP"; handler = lpop; access = write }
      ∷ record { command = codes "BLPOP"; handler = blpop F; access = write }
      ∷ record { command = codes "XADD"; handler = xadd; access = write }
      ∷ record { command = codes "XRANGE"; handler = xrange; access = read_only }
      ∷ record { command = codes "XREAD"; handler = xread; access = read_only }
      ∷ []

  unfoldable pub find_command_definition : Bytes → Option CommandDefinition
  unfolding find_definition
  find_command_definition name = find_definition name command_handlers

  unfoldable pub is_write_command : Command → Bool
  is_write_command [] = false
  is_write_command (name ∷ arguments) = is_write (find_command_definition name)

  unfoldable pub dispatch : Clock → Command → Database → Outcome
  dispatch clock [] db = replied null_bulk_string db
  dispatch clock (name ∷ arguments) db =
      run_definition clock (name ∷ arguments) (find_command_definition name) db
