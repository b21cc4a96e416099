-- ===== src/Processor/Log.antt =====
-- src/command_processor.cpp: which commands are written to the log and sent to the replicas, and in
-- which form.
use codecrafters_redis_cpp.Prelude.{
  Bool, true, false, ◌&&◌, not, [], ◌∷◌, if◌then◌else◌, Bytes, codes, str_eq,
}
use codecrafters_redis_cpp.Resp.{Command}
use codecrafters_redis_cpp.Resp.Reply.{Response, simple_error, bulk_string, null_bulk_string, array}
use codecrafters_redis_cpp.Handlers.{word}
use codecrafters_redis_cpp.Handlers.Time.{Doubles}
use codecrafters_redis_cpp.Processor.Table.{is_write_command}

abbrev pub response_is_error : Response → Bool
response_is_error (simple_error message) = true
response_is_error _ = false

-- An array that is not empty.
abbrev pub popped_values : Response → Bool
popped_values (array (value ∷ values)) = true
popped_values _ = false

-- Neither the null bulk string nor an empty array.
abbrev pub popped_any : Response → Bool
popped_any null_bulk_string = false
popped_any (array []) = false
popped_any _ = true

unfoldable pub write_modified_database : Command → Response → Bool
write_modified_database command reply =
    if response_is_error reply
    then false
    else if str_eq (word command 0) (codes "BLPOP")
    then popped_values reply
    else if not (str_eq (word command 0) (codes "LPOP"))
    then true
    else popped_any reply

-- `command[2] = id`
abbrev pub replace_id : Bytes → Command → Command
replace_id id (name ∷ key ∷ old ∷ arguments) = name ∷ key ∷ id ∷ arguments
replace_id id command = command

abbrev pub with_generated_id : Response → Command → Command
with_generated_id (bulk_string id) command = replace_id id command
with_generated_id _ command = command

unfoldable pub normalize_replication_command : Command → Response → Command
normalize_replication_command command reply =
    if str_eq (word command 0) (codes "XADD")
    then with_generated_id reply command
    else if str_eq (word command 0) (codes "BLPOP")
    then codes "LPOP" ∷ word command 1 ∷ []
    else command

-- Whether the command is logged and replicated, where a log or replicas are there.
abbrev pub is_logged : Doubles → Command → Response → Bool
is_logged F command reply = is_write_command F command && write_modified_database command reply
