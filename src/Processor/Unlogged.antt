-- ===== src/Processor/Unlogged.antt =====
-- What is neither logged nor replicated: runs of `dispatch` that show no client a change.
use codecrafters_redis_cpp.Prelude.{
  ◌≡◌, refl, Option, none, some, true, false, ◌&&◌, List, [], ◌∷◌, Bytes, codes, str_eq, str_eq_iff,
  Bool-cases, inl, inr, subst, arith,
}
use codecrafters_redis_cpp.Resp.{Command}
use codecrafters_redis_cpp.Resp.Reply.{Response, simple_string, integer, bulk_string, array}
use codecrafters_redis_cpp.Database.{Database}
use codecrafters_redis_cpp.Database.Lists.{append, prepend}
use codecrafters_redis_cpp.Database.Expiry.Loops.{IsMap}
use codecrafters_redis_cpp.Database.Expiry.Failures.{Alike, Alike-refl}
use codecrafters_redis_cpp.Handlers.{InOrder, Clock, replied}
use codecrafters_redis_cpp.Handlers.Time.{Doubles}
use codecrafters_redis_cpp.Handlers.Strings.{ping}
use codecrafters_redis_cpp.Handlers.Rlist.{rpush, lpush}
use codecrafters_redis_cpp.Processor.Table.{
  CommandDefinition, find_definition, writes, is_write, command_handlers, find_command_definition,
  is_write_command, run_definition, dispatch,
}
use codecrafters_redis_cpp.Processor.Log.{write_modified_database, is_logged}
use codecrafters_redis_cpp.Processor.Quiet.{Quiet}
use codecrafters_redis_cpp.Processor.Quiet.Commands.{
  Success, echo-Quiet, get-Quiet, type-Quiet, keys-Quiet, llen-Quiet, lrange-Quiet, xrange-Quiet,
  xread-Quiet, blpop-Quiet, push-Quiet, incr-Quiet, set-Quiet, lpop-Quiet, xadd-Quiet,
}

infixr 4 ◌&◌
pub data AllDefinitions (P : CommandDefinition → Type 0) : List CommandDefinition → Type 0 where
  done : AllDefinitions P []
  ◌&◌ :
      {definition : CommandDefinition} {definitions : List CommandDefinition}
      → P definition
      → AllDefinitions P definitions
      → AllDefinitions P (definition ∷ definitions)

pub find_definition-AllDefinitions :
    (P : CommandDefinition → Type 0) (name : Bytes) (definitions : List CommandDefinition)
    (definition : CommandDefinition)
    → AllDefinitions P definitions
    → find_definition name definitions ≡ some definition
    → P definition × (definition.command ≡ name)
unfolding find_definition
find_definition-AllDefinitions P name [] definition done e = cc
find_definition-AllDefinitions P name (first ∷ definitions) definition (p & all) e =
    elim (Bool-cases (str_eq first.command name)) [
      | inl h ↦ go h (rw h at e)
      | inr h ↦ find_definition-AllDefinitions P name definitions definition all (rw h at e)
    ]
  where
    go :
        str_eq first.command name ≡ true
        → some first ≡ some definition
        → P definition × (definition.command ≡ name)
    go h k =
        subst (λ o. elim o [ none ↦ Unit | some d ↦ P d × (d.command ≡ name) ]) k
          (p, (str_eq_iff first.command name).0 h)

-- A run of the handler whose reply is not logged shows no client a change.
abbrev IsQuiet : CommandDefinition → Type 0
IsQuiet definition =
    (clock : Clock) (arguments : List Bytes) (db : Database)
    → InOrder clock
    → IsMap db.entries
    → Quiet
        (λ reply.
          writes definition.access
          && write_modified_database (definition.command ∷ arguments) reply)
        clock.ended db (definition.handler clock (definition.command ∷ arguments) db)

success :
    (name : Bytes) (arguments : List Bytes)
    → str_eq name (codes "BLPOP") ≡ false
    → (reply : Response) → Success reply
    → write_modified_database (name ∷ arguments) reply ≡ true
unfolding write_modified_database
success name arguments e (simple_string text) s = ground (arith, e)
success name arguments e (integer n) s = ground (arith, e)
success name arguments e (bulk_string text) s = ground (arith, e)
success name arguments e (array (value ∷ values)) s = ground (arith, e)
success name arguments e reply s = absurd s

handlers-IsQuiet : (F : Doubles) → AllDefinitions IsQuiet (command_handlers F)
unfolding ping str_eq write_modified_database rpush lpush
handlers-IsQuiet F =
    (λ clock arguments db h m k. Alike-refl clock.ended db)
    & (λ clock arguments db h m. echo-Quiet _ clock _ db h)
    & (λ clock arguments db h m. set-Quiet _ clock _ db h (success (codes "SET") arguments refl))
    & (λ clock arguments db h m. get-Quiet _ clock _ db h)
    & (λ clock arguments db h m. keys-Quiet _ clock _ db h m)
    & (λ clock arguments db h m. type-Quiet _ clock _ db h)
    & (λ clock arguments db h m. incr-Quiet _ clock _ db h (success (codes "INCR") arguments refl))
    & (λ clock arguments db h m.
        push-Quiet _ clock (codes "RPUSH" ∷ arguments) db h (success (codes "RPUSH") arguments refl)
          append (codes "ERR invalid syntax. Expected usage RPUSH <list_name> <values...>"))
    & (λ clock arguments db h m.
        push-Quiet _ clock (codes "LPUSH" ∷ arguments) db h (success (codes "LPUSH") arguments refl)
          prepend (codes "ERR invalid syntax. Expected usage LPUSH <list_name> <values...>"))
    & (λ clock arguments db h m. lrange-Quiet _ clock _ db h)
    & (λ clock arguments db h m. llen-Quiet _ clock _ db h)
    & (λ clock arguments db h m. lpop-Quiet _ clock _ db h (success (codes "LPOP") arguments refl))
    & (λ clock arguments db h m. blpop-Quiet _ clock _ db h F (λ key value. refl))
    & (λ clock arguments db h m. xadd-Quiet _ clock _ db h (success (codes "XADD") arguments refl))
    & (λ clock arguments db h m. xrange-Quiet _ clock _ db h)
    & (λ clock arguments db h m. xread-Quiet _ clock _ db h)
    & done

-- A command that is not to be logged, by what the processor tests, shows no client a change: when it
-- replies, by the readings of a clock that does not run back, and at any later time, every key has the
-- entry that it had. The map of entries holds no key twice, and the run is defined.
pub dispatch_unlogged :
    (F : Doubles) (clock : Clock) (command : Command) (db db' : Database) (reply : Response)
    → InOrder clock
    → IsMap db.entries
    → dispatch F clock command db ≡ replied reply db'
    → is_logged F command reply ≡ false
    → Alike clock.ended db db'
unfolding dispatch is_write_command find_command_definition
dispatch_unlogged F clock [] db db' reply h m e l =
    subst (Quiet (is_logged F []) clock.ended db) e (λ k. Alike-refl clock.ended db) l
dispatch_unlogged F clock (name ∷ arguments) db db' reply h m e l =
    subst (Quiet (is_logged F (name ∷ arguments)) clock.ended db) e
      (go (find_command_definition F name) refl) l
  where
    go :
        (found : Option CommandDefinition)
        → find_command_definition F name ≡ found
        → Quiet
            (λ reply'. is_write found && write_modified_database (name ∷ arguments) reply')
            clock.ended
            db
            (run_definition clock (name ∷ arguments) found db)
    go none e' = λ k. Alike-refl clock.ended db
    go (some definition) e' =
        let (q, n) =
          find_definition-AllDefinitions IsQuiet name (command_handlers F) definition
            (handlers-IsQuiet F) e' in
        subst
          (λ word.
            Quiet
              (λ reply'.
                writes definition.access && write_modified_database (word ∷ arguments) reply')
              clock.ended db (definition.handler clock (word ∷ arguments) db))
          n (q clock arguments db h m)
