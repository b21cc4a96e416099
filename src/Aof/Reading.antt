-- ===== src/Aof/Reading.antt =====
-- What `read_commands` of src/aof.cpp gives for what was written to the file.
use codecrafters_redis_cpp.Prelude.{
  ℕ, zero, suc, ◌+◌, ◌≤◌, ◌<◌, ◌≡◌, ◌≢◌, refl, sym, ap, ap₂, ◌∙◌, List, [], ◌∷◌, ◌++◌, arith, ◌==◌,
  false, append_assoc, append-nil, Bytes, codes, length, drop, length-append, drop-length,
  Bool-cases, inl, inr,
}
use codecrafters_redis_cpp.Numeric.{to_string}
use codecrafters_redis_cpp.Resp.{
  Command, ParseResult, ok, incomplete, error, parse_command, serialize_command,
}
use codecrafters_redis_cpp.Resp
use codecrafters_redis_cpp.Resp.Consumed.{bytes_consumed-le-length}
use codecrafters_redis_cpp.Resp.RoundTrip.{
  Fits, parse_command-serialize_command, parse_command_prefix,
}
use codecrafters_redis_cpp.Aof.{
  Read, commands, unreadable, out_of_fuel, after_parse, read_loop, read_commands,
}

length-drop_le : (n : ℕ) (s : Bytes) → length (drop n s) ≤ length s
length-drop_le zero s = omega arith
length-drop_le (suc n) [] = omega arith
length-drop_le (suc n) (c ∷ s) = omega (arith, length-drop_le n s)

after_parse_ends :
    (position : ℕ) (o : Resp.Outcome ParseResult) (further : ParseResult → Read)
    → ((parsed : ParseResult) → parsed.bytes_consumed ≢ 0 → further parsed ≢ out_of_fuel)
    → after_parse position o further ≢ out_of_fuel
after_parse_ends position (ok parsed) further h = elim (Bool-cases (parsed.bytes_consumed == 0)) [
  | inl e ↦ rw e (λ p. cc)
  | inr e ↦ rw e (h parsed (λ p. ground (arith, e, p)))
]
after_parse_ends position incomplete further h = λ p. cc
after_parse_ends position (error e) further h = λ p. cc

read_loop_ends :
    (fuel position : ℕ) (unread : Bytes) (done : List Command)
    → length unread ≤ fuel
    → read_loop fuel position unread done ≢ out_of_fuel
unfolding read_loop
read_loop_ends fuel position [] done h = λ p. cc
read_loop_ends zero position (c ∷ unread) done h = absurd (omega arith)
read_loop_ends (suc fuel) position (c ∷ unread) done h =
    after_parse_ends position (parse_command (c ∷ unread)) _ (λ parsed n.
      read_loop_ends fuel (position + parsed.bytes_consumed)
        (drop parsed.bytes_consumed (c ∷ unread)) (done ++ parsed.command ∷ [])
        (shorter parsed.bytes_consumed n))
  where
    shorter : (n : ℕ) → n ≢ 0 → length (drop n (c ∷ unread)) ≤ fuel
    shorter zero k = absurd (k refl)
    shorter (suc n) k = omega (arith, length-drop_le n unread, h)

-- Whatever the file holds, the loop ends, with the commands or with an error.
pub read_commands_ends : (contents : Bytes) → read_commands contents ≢ out_of_fuel
unfolding read_commands
read_commands_ends contents = read_loop_ends (length contents) 0 contents [] (omega arith)

-- The log that a sequence of commands makes.
abbrev pub log_of : List Command → Bytes
log_of [] = []
log_of (command ∷ rest) = serialize_command command ++ log_of rest

abbrev pub AllFit : List Command → Type 0
AllFit [] = Unit
AllFit (command ∷ rest) = Fits command × AllFit rest

read_step :
    (fuel position : ℕ) (input : Bytes) (done : List Command) (parsed : ParseResult)
    → parse_command input ≡ ok parsed
    → 0 < parsed.bytes_consumed
    → read_loop (suc fuel) position input done
      ≡ read_loop fuel
          (position + parsed.bytes_consumed)
          (drop parsed.bytes_consumed input)
          (done ++ parsed.command ∷ [])
unfolding read_loop
read_step fuel position [] done parsed e h = absurd (omega (arith, bytes_consumed-le-length [] e))
read_step fuel position (c ∷ input) done parsed e h = rw (e, positive parsed.bytes_consumed h) refl
  where
    positive : (n : ℕ) → 0 < n → (n == 0) ≡ false
    positive n k = ground arith

serialize_command_positive :
    (command : Command) → Fits command → 0 < length (serialize_command command)
unfolding parse_command
serialize_command_positive command f =
    go (serialize_command command) (parse_command-serialize_command command [] f)
  where
    go :
        (s : Bytes)
        → parse_command (s ++ []) ≡ ok (record { command = command; bytes_consumed = length s })
        → 0 < length s
    go [] e = cc
    go (c ∷ s) e = omega arith

-- The loop over a log arrives at what follows it, with fuel for that.
abbrev Arrives : List Command → Bytes → ℕ → ℕ → List Command → Type 0
Arrives log rest fuel position done =
    (left : ℕ) × (length rest ≤ left)
    × (read_loop fuel position (log_of log ++ rest) done
        ≡ read_loop left (position + length (log_of log)) rest (done ++ log))

log_step :
    (command : Command) (log : List Command) (rest : Bytes) (fuel position : ℕ)
    (done : List Command)
    → Fits command
    → length (log_of (command ∷ log) ++ rest) ≤ fuel
    → ((fuel' : ℕ)
        → length (log_of log ++ rest) ≤ fuel'
        → Arrives log rest fuel'
            (position + length (serialize_command command))
            (done ++ command ∷ []))
    → Arrives (command ∷ log) rest fuel position done
log_step command log rest zero position done f h k = absurd (
    omega (
      arith,
      serialize_command_positive command f,
      length-append (serialize_command command ++ log_of log) rest,
      length-append (serialize_command command) (log_of log),
    ))
log_step command log rest (suc fuel) position done f h k =
    let written = serialize_command command in
    let (left, enough, e) = k fuel (
      omega (
        arith,
        serialize_command_positive command f,
        length-append (written ++ log_of log) rest,
        length-append written (log_of log),
        length-append (log_of log) rest,
      )) in
    (
      left,
      enough,
      ap (λ (s : Bytes). read_loop (suc fuel) position s done)
            (append_assoc written (log_of log) rest)
          ∙ read_step fuel position (written ++ (log_of log ++ rest)) done
              (record { command = command; bytes_consumed = length written })
              (parse_command-serialize_command command (log_of log ++ rest) f)
              (serialize_command_positive command f)
          ∙ ap (λ (s : Bytes). read_loop fuel (position + length written) s (done ++ command ∷ []))
              (drop-length written (log_of log ++ rest))
          ∙ e
          ∙ ap₂ (λ (p : ℕ) (d : List Command). read_loop left p rest d)
              (omega (arith, length-append written (log_of log)))
              (append_assoc done (command ∷ []) log),
    )

read_loop_log :
    (log : List Command) (rest : Bytes) (fuel position : ℕ) (done : List Command)
    → AllFit log
    → length (log_of log ++ rest) ≤ fuel
    → Arrives log rest fuel position done
read_loop_log [] rest fuel position done f h =
    (fuel, h, ap₂ (λ p d. read_loop fuel p rest d) (omega arith) (sym (append-nil done)))
read_loop_log (command ∷ log) rest fuel position done (f, fs) h =
    log_step command log rest fuel position done f h (λ fuel' h'.
      read_loop_log log rest fuel' (position + length (serialize_command command))
        (done ++ command ∷ []) fs h')

-- What was logged is read back: the commands that were written, with words and lengths of 64 bits,
-- in their order.
pub read_commands-log_of :
    (log : List Command) → AllFit log → read_commands (log_of log) ≡ commands log
unfolding read_commands read_loop
read_commands-log_of log f =
    let (left, enough, e) =
      read_loop_log log [] (length (log_of log)) 0 [] f
        (omega (arith, length-append (log_of log) [])) in
    ap (λ (s : Bytes). read_loop (length (log_of log)) 0 s []) (sym (append-nil (log_of log))) ∙ e

-- A log whose last command was not written to its end is refused, with the position at which that
-- command begins: a server does not start on part of a log.
pub read_commands_torn :
    (log : List Command) (command : Command) (before after : Bytes)
    → AllFit log
    → Fits command
    → serialize_command command ≡ before ++ after
    → before ≢ []
    → after ≢ []
    → read_commands (log_of log ++ before)
      ≡ unreadable
          (codes "Incomplete command in AOF file at byte " ++ to_string (length (log_of log)))
unfolding read_commands read_loop
read_commands_torn log command [] after f g e started torn = absurd (started refl)
read_commands_torn log command (c ∷ before) after f g e started torn =
    let (left, enough, p) =
      read_loop_log log (c ∷ before) (length (log_of log ++ c ∷ before)) 0 [] f (omega arith) in
    p ∙ ap (λ (n : ℕ). read_loop left n (c ∷ before) log) (omega arith) ∙ last left enough
  where
    last :
        (left : ℕ)
        → length (c ∷ before) ≤ left
        → read_loop left (length (log_of log)) (c ∷ before) log
          ≡ unreadable
              (codes "Incomplete command in AOF file at byte " ++ to_string (length (log_of log)))
    last zero h = absurd (omega arith)
    last (suc left) h = rw (parse_command_prefix command (c ∷ before) after g e torn) refl
