-- ===== src/Processor/Quiet/Commands.antt =====
-- The handlers of the command table that show no client a change, unless their reply says that
-- they wrote.
use codecrafters_redis_cpp.Prelude.{
  ◌≡◌, Option, none, some, Bool, true, false, List, [], ◌∷◌, ◌==◌, not, ltb, if◌then◌else◌, Bytes,
  codes, str_eq, length, drop, ◌&&◌, arith,
}
use codecrafters_redis_cpp.Prelude.Int.{ℤ}
use codecrafters_redis_cpp.Prelude.Map.{find}
use codecrafters_redis_cpp.Streams.{StreamId, IdRequest, ReadCommand}
use codecrafters_redis_cpp.Resp.{Command}
use codecrafters_redis_cpp.Resp.Reply.{
  Response, simple_string, simple_error, integer, bulk_string, array,
}
use codecrafters_redis_cpp.Database.{Entry, Database, get, get_type, find_active_entry, string_in}
use codecrafters_redis_cpp.Database.Lists.{
  ListAddMode, add_list_elements, list_elements, get_list_length, pop_list_element,
  pop_list_elements, slice_in, length_in, add_in, pop_in, pop_several_in,
}
use codecrafters_redis_cpp.Database.Counters.{increment_key, increment_in}
use codecrafters_redis_cpp.Database.StreamOps.{add_stream, add_stream_in, stream_range, range_in}
use codecrafters_redis_cpp.Database.Reads.{read_streams}
use codecrafters_redis_cpp.Database.Expiry.Loops.{
  IsMap, keys_unobservable, read_streams_unobservable,
}
use codecrafters_redis_cpp.Database.Expiry.Failures.{
  Alike, Alike-refl, find_active_entry-Alike, add_in-KeepsUnlessOk, pop_in-KeepsUnlessOk,
  increment_in-KeepsUnlessOk, add_stream_in-KeepsUnlessOk, pop_several_in-KeepsUnlessPopped,
}
use codecrafters_redis_cpp.Handlers.{InOrder, word, Clock, replied, Parsed, parsed, refused}
use codecrafters_redis_cpp.Handlers.Time.{Doubles, parse_expiry}
use codecrafters_redis_cpp.Handlers
use codecrafters_redis_cpp.Handlers.Strings.{set_expiring}
use codecrafters_redis_cpp.Handlers.Rlist.{
  size_reply, pop_reply, get_range_index, range_between, parse_number_of_elements, pop_counted,
  lrange, llen, lpop, blpop, BlockingPopRequest, parse_blpop, blpop_request,
}
use codecrafters_redis_cpp.Handlers.Rstream.{
  xadd, xadd_request, xadd_values, xrange, xrange_between, xread, xread_command, is_explicit,
}
use codecrafters_redis_cpp.Handlers.Rstream.Parse.{
  parse_id, parse_value_list, parse_range_start, parse_range_stop, parse_xread,
}
use codecrafters_redis_cpp.Processor.Quiet.{
  Quiet, refusing-Quiet, accepting-Quiet, string_reply-Quiet, range_reply-Quiet, length_reply-Quiet,
  xrange_reply-Quiet, xread_reply-Quiet, size_reply-Quiet, incr_reply-Quiet, pop_reply-Quiet,
  pop_many_reply-Quiet, xadd_reply-Quiet, blpop_reply-Quiet,
}

-- The replies with which a write says that it wrote.
abbrev pub Success : Response → Type 0
Success (simple_string text) = Unit
Success (integer n) = Unit
Success (bulk_string text) = Unit
Success (array (value ∷ values)) = Unit
Success _ = ⊥

module _ (logged : Response → Bool) (clock : Clock) (command : Command) (db : Database)
    (in_order : InOrder clock) where
  abbrev looked_up : Database
  looked_up = (find_active_entry clock.steady (word command 1) db).1

  looked_up-Alike : Alike clock.ended db looked_up
  looked_up-Alike =
      find_active_entry-Alike clock.steady clock.ended (word command 1) db in_order.start

  pub echo-Quiet : Quiet logged clock.ended db (Handlers.Strings.echo command db)
  unfolding Handlers.Strings.echo
  echo-Quiet =
      accepting-Quiet logged clock.ended db (length command == 2) _ _
        (λ h. Alike-refl clock.ended db)

  pub get-Quiet : Quiet logged clock.ended db (Handlers.Strings.get clock command db)
  unfolding Handlers.Strings.get get
  get-Quiet = accepting-Quiet logged clock.ended db (length command == 2) _ _ (
      string_reply-Quiet logged clock.ended db looked_up looked_up-Alike
        (string_in (find_active_entry clock.steady (word command 1) db).0))

  pub type-Quiet : Quiet logged clock.ended db (Handlers.Strings.type clock command db)
  unfolding Handlers.Strings.type get_type
  type-Quiet =
      accepting-Quiet logged clock.ended db (length command == 2) _ _ (λ h. looked_up-Alike)

  pub keys-Quiet :
      IsMap db.entries → Quiet logged clock.ended db (Handlers.Strings.keys clock command db)
  unfolding Handlers.Strings.keys
  keys-Quiet m = refusing-Quiet logged clock.ended db (not (length command == 2)) _ _ (
      refusing-Quiet logged clock.ended db (not (str_eq (word command 1) (codes "*"))) _ _
        (λ h later other k.
          keys_unobservable clock.steady later other db m (omega (arith, in_order.start))))

  pub llen-Quiet : Quiet logged clock.ended db (llen clock command db)
  unfolding llen get_list_length
  llen-Quiet = refusing-Quiet logged clock.ended db (not (length command == 2)) _ _ (
      length_reply-Quiet logged clock.ended db looked_up looked_up-Alike
        (length_in (find_active_entry clock.steady (word command 1) db).0))

  pub lrange-Quiet : Quiet logged clock.ended db (lrange clock command db)
  unfolding lrange list_elements find find_active_entry
  lrange-Quiet =
      refusing-Quiet logged clock.ended db (not (length command == 4)) _ _
        (go (get_range_index (word command 2)) (get_range_index (word command 3)))
    where
      go :
          (start stop : Option ℤ)
          → Quiet logged clock.ended db (range_between clock command start stop db)
      go none stop = λ h. Alike-refl clock.ended db
      go (some start) none = λ h. Alike-refl clock.ended db
      go (some start) (some stop) =
          range_reply-Quiet logged clock.ended db looked_up looked_up-Alike
            (slice_in (find_active_entry clock.steady (word command 1) db).0 start stop)

  pub xrange-Quiet : Quiet logged clock.ended db (xrange clock command db)
  unfolding xrange stream_range find find_active_entry
  xrange-Quiet =
      refusing-Quiet logged clock.ended db (not (length command == 4)) _ _
        (go (parse_range_start (word command 2)) (parse_range_stop (word command 3)))
    where
      go :
          (start stop : Option StreamId)
          → Quiet logged clock.ended db (xrange_between clock command start stop db)
      go none stop = λ h. Alike-refl clock.ended db
      go (some start) none = λ h. Alike-refl clock.ended db
      go (some start) (some stop) =
          xrange_reply-Quiet logged clock.ended db looked_up looked_up-Alike
            (range_in start stop (find_active_entry clock.steady (word command 1) db).0)

  pub xread-Quiet : Quiet logged clock.ended db (xread clock command db)
  unfolding xread
  xread-Quiet = go (parse_xread command)
    where
      go :
          (request : Parsed ReadCommand)
          → Quiet logged clock.ended db (xread_command clock request db)
      go (refused message) = λ h. Alike-refl clock.ended db
      go (parsed read) =
          xread_reply-Quiet logged clock.ended db _
            (λ later other k.
              read_streams_unobservable clock.first_reads clock.second_reads later read.requests
                other db (λ n. omega (arith, in_order.first n, k))
                (λ n. omega (arith, in_order.second n, k)))
            (read_streams clock.first_reads clock.second_reads read.requests db).0
            (read_streams clock.first_reads clock.second_reads read.requests db).1

  pub blpop-Quiet :
      (F : Doubles)
      → ((key value : Bytes) → logged (array (key ∷ value ∷ [])) ≡ true)
      → Quiet logged clock.ended db (blpop F clock command db)
  unfolding blpop pop_list_element find find_active_entry
  blpop-Quiet F p = go (parse_blpop F command)
    where
      go :
          (request : Parsed BlockingPopRequest)
          → Quiet logged clock.ended db (blpop_request F clock request db)
      go (refused message) = λ h. Alike-refl clock.ended db
      go (parsed request) =
          let (found, db') = find_active_entry clock.steady request.key db in
          blpop_reply-Quiet F logged clock.ended db db' _
            (find_active_entry-Alike clock.steady clock.ended request.key db in_order.start)
            request.key (λ value. p request.key value) (pop_in request.key found db').0
            (pop_in-KeepsUnlessOk request.key found db')

  -- The writes, whose successes are logged.
  module _ (p : (reply : Response) → Success reply → logged reply ≡ true) where
    pub push-Quiet :
        (mode : ListAddMode) (message : Bytes)
        → Quiet logged clock.ended db (
            if ltb (length command) 3
            then replied (simple_error message) db
            else let (size, db') =
                add_list_elements clock.steady (word command 1) (drop 2 command) mode db in
              size_reply size db')
    unfolding add_list_elements
    push-Quiet mode message =
        let (found, db') = find_active_entry clock.steady (word command 1) db in
        let added = add_in (word command 1) (drop 2 command) mode found db' in
        refusing-Quiet logged clock.ended db (ltb (length command) 3) _ _ (
          size_reply-Quiet logged clock.ended db looked_up _ looked_up-Alike (λ n. p (integer n) tt)
            added.0 (add_in-KeepsUnlessOk (word command 1) (drop 2 command) mode found db'))

    pub incr-Quiet : Quiet logged clock.ended db (Handlers.Strings.incr clock command db)
    unfolding Handlers.Strings.incr increment_key
    incr-Quiet =
        let (found, db') = find_active_entry clock.steady (word command 1) db in
        accepting-Quiet logged clock.ended db (length command == 2) _ _ (
          incr_reply-Quiet logged clock.ended db looked_up _ looked_up-Alike (λ n. p (integer n) tt)
            (increment_in (word command 1) found db').0
            (increment_in-KeepsUnlessOk (word command 1) found db'))

    pub set-Quiet : Quiet logged clock.ended db (Handlers.Strings.set clock command db)
    unfolding Handlers.Strings.set
    set-Quiet = go (length command == 3) (length command == 5) (parse_expiry (word command 4)) _ _
      where
        accepted :
            (db' : Database)
            → Quiet logged clock.ended db (replied (simple_string (codes "OK")) db')
        accepted db' = λ h. cc (p (simple_string (codes "OK")) tt, h)

        expiring :
            (px ex : Bool) (db₁ db₂ : Database) (message : Bytes)
            → Quiet logged clock.ended db (
                if px
                then replied (simple_string (codes "OK")) db₁
                else if ex
                then replied (simple_string (codes "OK")) db₂
                else replied (simple_error message) db)
        expiring true ex db₁ db₂ message = accepted db₁
        expiring false true db₁ db₂ message = accepted db₂
        expiring false false db₁ db₂ message = λ h. Alike-refl clock.ended db

        set_expiring-Quiet :
            (expiry : Option ℤ) → Quiet logged clock.ended db (set_expiring clock command expiry db)
        set_expiring-Quiet none = λ h. Alike-refl clock.ended db
        set_expiring-Quiet (some n) =
            expiring (str_eq (word command 3) (codes "PX")) (str_eq (word command 3) (codes "EX")) _
              _ _

        go :
            (three five : Bool) (expiry : Option ℤ) (db' : Database) (message : Bytes)
            → Quiet logged clock.ended db (
                if three
                then replied (simple_string (codes "OK")) db'
                else if five
                then set_expiring clock command expiry db
                else replied (simple_error message) db)
        go true five expiry db' message = accepted db'
        go false true expiry db' message = set_expiring-Quiet expiry
        go false false expiry db' message = λ h. Alike-refl clock.ended db

    pub lpop-Quiet : Quiet logged clock.ended db (lpop clock command db)
    unfolding lpop pop_list_element pop_list_elements find find_active_entry
    lpop-Quiet =
        go (length command == 2) (length command == 3) (parse_number_of_elements (word command 2)) _
      where
        found : Option Entry
        found = (find_active_entry clock.steady (word command 1) db).0

        counted :
            (wanted : Parsed ℤ) → Quiet logged clock.ended db (pop_counted clock command wanted db)
        counted (refused message) = λ h. Alike-refl clock.ended db
        counted (parsed wanted) =
            pop_many_reply-Quiet logged clock.ended db looked_up _ looked_up-Alike
              (λ value values. p (array (value ∷ values)) tt)
              (pop_several_in (word command 1) wanted found looked_up).0
              (pop_several_in-KeepsUnlessPopped (word command 1) wanted found looked_up)

        one :
            Quiet logged clock.ended db
              (let (value, db') = pop_in (word command 1) found looked_up in pop_reply value db')
        one =
            pop_reply-Quiet logged clock.ended db looked_up _ looked_up-Alike
              (λ value. p (bulk_string value) tt) (pop_in (word command 1) found looked_up).0
              (pop_in-KeepsUnlessOk (word command 1) found looked_up)

        go :
            (two three : Bool) (wanted : Parsed ℤ) (message : Bytes)
            → Quiet logged clock.ended db (
                if two
                then (let (value, db') = pop_in (word command 1) found looked_up in
                    pop_reply value db')
                else if three
                then pop_counted clock command wanted db
                else replied (simple_error message) db)
        go true three wanted message = one
        go false true wanted message = counted wanted
        go false false wanted message = λ h. Alike-refl clock.ended db

    pub xadd-Quiet : Quiet logged clock.ended db (xadd clock command db)
    unfolding xadd add_stream find find_active_entry
    xadd-Quiet =
        refusing-Quiet logged clock.ended db (ltb (length command) 5) _ _
          (requested (parse_id (word command 2)))
      where
        found : Option Entry
        found = (find_active_entry clock.steady (word command 1) db).0

        valued :
            (id : IdRequest) (values : Option (List (Bytes × Bytes)))
            → Quiet logged clock.ended db (xadd_values clock command id values db)
        valued id none = λ h. Alike-refl clock.ended db
        valued id (some values) =
            xadd_reply-Quiet logged clock.ended db looked_up _ looked_up-Alike
              (λ text. p (bulk_string text) tt)
              (add_stream_in clock.unix_ms (word command 1) id values found looked_up).0
              (add_stream_in-KeepsUnlessOk clock.unix_ms (word command 1) id values found looked_up)

        requested :
            (id : Option IdRequest) → Quiet logged clock.ended db (xadd_request clock command id db)
        requested none = λ h. Alike-refl clock.ended db
        requested (some id) =
            refusing-Quiet logged clock.ended db
              (is_explicit id.mode && ((id.milliseconds == 0) && (id.sequence == 0))) _ _
              (valued id (parse_value_list (drop 3 command)))
