-- ===== src/Resp/RoundTrip.antt =====
-- Reading back what `serialize_command` writes.
use codecrafters_redis_cpp.Prelude.{
  take-length, drop-length, ℕ, ◌+◌, ◌≤◌, ◌<◌, ◌≡◌, ◌≢◌, inl, inr, refl, sym, ap, subst, ap₂, some,
  List, [], ◌∷◌, ◌++◌, append_assoc, append-nil, arith, Bytes, length, length-append, ◌∙◌,
}
use codecrafters_redis_cpp.Numeric.{max_uint64, to_string}
use codecrafters_redis_cpp.Numeric.RoundTrip.{
  All, IsDigit, to_string-IsDigit, whole-from_chars-to_string,
}
use codecrafters_redis_cpp.Resp.Framing.{parse_command-append}
use codecrafters_redis_cpp.Resp.Consumed.{bytes_consumed-le-length}
use codecrafters_redis_cpp.Resp.{
  Command, ParseResult, Outcome, ok, incomplete, error, find_crlf, read_line, parse_length,
  read_bulk, read_argument, parse_argument, parse_arguments, read_array, parse_command, crlf,
  append_bulk_string, append_bulk_strings, serialize_command,
}

find_crlf-digits :
    (s rest : Bytes) → All IsDigit s → find_crlf (s ++ (crlf ++ rest)) ≡ some (s, rest)
unfolding find_crlf
find_crlf-digits [] rest h = refl
find_crlf-digits (c ∷ []) rest h = ground arith
find_crlf-digits (c ∷ d ∷ s) rest (hc, hs) = ground (arith, find_crlf-digits (d ∷ s) rest hs)

-- A length line is read back.
read_length :
    (n position : ℕ) (rest : Bytes)
    → read_line (record { position = position; rest = to_string n ++ (crlf ++ rest) })
      ≡ ok (to_string n, record { position = position + length (to_string n) + 2; rest = rest })
unfolding read_line
read_length n position rest = rw (find_crlf-digits (to_string n) rest (to_string-IsDigit n)) refl

parse_length-to_string : (n : ℕ) → n ≤ max_uint64 → parse_length (to_string n) ≡ ok n
unfolding parse_length
parse_length-to_string n h = rw (whole-from_chars-to_string max_uint64 n h) refl

read_bulk_back :
    (value rest : Bytes) (position : ℕ)
    → read_bulk (length value) (record { position = position; rest = value ++ (crlf ++ rest) })
      ≡ ok (value, record { position = position + length value + 2; rest = rest })
unfolding read_bulk
read_bulk_back value rest position =
    rw (take-length value (crlf ++ rest), drop-length value (crlf ++ rest))
      (ground (arith, length-append value (crlf ++ rest)))

-- The text that `append_bulk_string` adds.
abbrev bulk : Bytes → Bytes
bulk value = b'$' ∷ (to_string (length value) ++ (crlf ++ (value ++ crlf)))

argument_back :
    (value rest : Bytes) (position : ℕ)
    → length value ≤ max_uint64
    → parse_argument (record { position = position; rest = bulk value ++ rest })
      ≡ ok (value, record { position = position + length (bulk value); rest = rest })
unfolding parse_argument read_argument
argument_back value rest position h =
    simp (append_assoc, read_length, parse_length-to_string (length value) h, read_bulk_back)
      (ap (λ (p : ℕ). ok (value, record { position = p; rest = rest }))
        (omega (
          arith,
          length-append (to_string (length value)) (crlf ++ (value ++ crlf)),
          length-append value crlf,
        )))

bulks : List Bytes → Bytes
bulks [] = []
bulks (value ∷ values) = bulk value ++ bulks values

append_bulk_strings_lem :
    (output : Bytes) (values : List Bytes)
    → append_bulk_strings output values ≡ output ++ bulks values
unfolding append_bulk_strings append_bulk_string bulks
append_bulk_strings_lem output [] = sym (append-nil output)
append_bulk_strings_lem output (value ∷ values) =
    rw (append_bulk_strings_lem (output ++ bulk value) values)
      (append_assoc output (bulk value) (bulks values))

-- A `size_t` holds the length of every word.
abbrev pub WordsFit : Command → Type 0
WordsFit [] = Unit
WordsFit (value ∷ values) = (length value ≤ max_uint64) × WordsFit values

arguments_back :
    (values done : Command) (rest : Bytes) (position : ℕ)
    → WordsFit values
    → parse_arguments
        (length values)
        (record { position = position; rest = bulks values ++ rest })
        done
      ≡ ok (record { command = done ++ values; bytes_consumed = position + length (bulks values) })
unfolding parse_arguments bulks
arguments_back [] done rest position h =
    ap₂ (λ (c : Command) (n : ℕ). ok (record { command = c; bytes_consumed = n }))
      (sym (append-nil done)) (omega arith)
arguments_back (value ∷ values) done rest position (h, hs) =
    rw
      (
        append_assoc (bulk value) (bulks values) rest,
        argument_back value (bulks values ++ rest) position h,
        arguments_back values (done ++ value ∷ []) rest (position + length (bulk value)) hs,
      )
      (ap₂ (λ (c : Command) (n : ℕ). ok (record { command = c; bytes_consumed = n }))
        (append_assoc done (value ∷ []) values)
        (omega (arith, length-append (bulk value) (bulks values))))

-- The lengths that a command is written with fit a `size_t`.
abbrev pub Fits : Command → Type 0
Fits command = (length command ≤ max_uint64) × WordsFit command

serialize_command_lem :
    (command : Command)
    → serialize_command command ≡ b'*' ∷ (to_string (length command) ++ (crlf ++ bulks command))
unfolding serialize_command
serialize_command_lem command =
    rw (append_bulk_strings_lem _ command) (
      ap (λ (t : Bytes). b'*' ∷ t) (append_assoc (to_string (length command)) crlf (bulks command)))

-- A written command, whose number of words and their lengths fit 64 bits, is read back whole from
-- the front of any buffer: the same words, and exactly the bytes that were written.
pub parse_command-serialize_command :
    (command : Command) (rest : Bytes)
    → Fits command
    → parse_command (serialize_command command ++ rest)
      ≡ ok (record { command = command; bytes_consumed = length (serialize_command command) })
unfolding parse_command read_array
parse_command-serialize_command command rest h = rw serialize_command_lem (
    simp
      (
        append_assoc,
        read_length,
        parse_length-to_string (length command) h.0,
        arguments_back command [] rest _ h.1,
      )
      (ap (λ (n : ℕ). ok (record { command = command; bytes_consumed = n }))
        (omega (arith, length-append (to_string (length command)) (crlf ++ bulks command)))))

-- A proper part of a written command, with lengths of 64 bits, is never taken for a command or an
-- error: whatever beginning of it has arrived, the parser asks for more.
pub parse_command_prefix :
    (command : Command) (before after : Bytes)
    → Fits command
    → serialize_command command ≡ before ++ after
    → after ≢ []
    → parse_command before ≡ incomplete
parse_command_prefix command before after h e nonempty = go (parse_command before) refl
  where
    whole_command :
        parse_command (before ++ after)
        ≡ ok (record { command = command; bytes_consumed = length (serialize_command command) })
    whole_command =
        subst
          (λ s.
            parse_command s
            ≡ ok
                (record { command = command; bytes_consumed = length (serialize_command command) }))
          (append-nil (serialize_command command) ∙ e)
          (parse_command-serialize_command command [] h)

    positive : (s : Bytes) → s ≢ [] → 0 < length s
    positive [] p = absurd (p refl)
    positive (c ∷ s) p = omega arith

    go : (o : Outcome ParseResult) → parse_command before ≡ o → parse_command before ≡ incomplete
    go incomplete p = p
    go (ok r) p = elim (parse_command-append before after) [
      | inl q ↦ q
      | inr q ↦
          let same : ParseResult.bytes_consumed r ≡ length (serialize_command command) =
            cc (p, q, whole_command) in
          absurd (
            omega (
              arith,
              same,
              ap (length {A = ℕ}) e,
              length-append before after,
              positive after nonempty,
              bytes_consumed-le-length before p,
            ))
    ]
    go (error r) p = elim (parse_command-append before after) [
      | inl q ↦ q
      | inr q ↦ cc (p, q, whole_command)
    ]
