-- ===== src/Resp/Consumed.antt =====
-- How much of its buffer `parse_command` of src/resp.cpp consumes.
use codecrafters_redis_cpp.Prelude.{
  ℕ, zero, suc, ◌+◌, ◌≤◌, ◌≡◌, inl, inr, subst, Bool-cases, Option, none, some, [], ◌∷◌, ◌++◌,
  arith, ltb, ◌==◌, Bytes, length, take, drop, length-drop,
}
use codecrafters_redis_cpp.Resp.{
  Command, ParseResult, Outcome, ok, incomplete, error, Cursor, find_crlf, read_line, parse_length,
  read_bulk, read_argument, parse_argument, parse_arguments, read_array, parse_command, ◌>>=◌,
  close_argument, argument_at,
}

-- What is consumed and what is left make up the input.
abbrev extent : Cursor → ℕ
extent cursor = cursor.position + length cursor.rest

abbrev Keeps : {A : Type 0} → ℕ → Outcome (A × Cursor) → Type 0
Keeps n (ok (a, after)) = extent after ≡ n
Keeps n incomplete = Unit
Keeps n (error e) = Unit

abbrev FoundLength : Option (Bytes × Bytes) → ℕ → Type 0
FoundLength none n = Unit
FoundLength (some (line, rest)) n = length line + 2 + length rest ≡ n

find_crlf-FoundLength : (s : Bytes) → FoundLength (find_crlf s) (length s)
unfolding find_crlf
find_crlf-FoundLength [] = tt
find_crlf-FoundLength (c ∷ []) = tt
find_crlf-FoundLength (c ∷ d ∷ s) = ground (arith, find_crlf-FoundLength (d ∷ s))

read_line-Keeps : (cursor : Cursor) → Keeps (extent cursor) (read_line cursor)
unfolding read_line
read_line-Keeps cursor = ground (arith, find_crlf-FoundLength cursor.rest)

close_argument-Keeps :
    (argument : Bytes) (position : ℕ) (s : Bytes)
    → Keeps (position + length s) (close_argument argument position s)
close_argument-Keeps argument position [] = tt
close_argument-Keeps argument position (c ∷ []) = tt
close_argument-Keeps argument position (c ∷ d ∷ s) = ground arith

read_bulk-Keeps : (n : ℕ) (cursor : Cursor) → Keeps (extent cursor) (read_bulk n cursor)
unfolding read_bulk
read_bulk-Keeps n cursor = elim (Bool-cases (ltb (length cursor.rest) n)) [
  | inl short ↦ rw short tt
  | inr enough ↦ rw enough (
      subst
        (λ k.
          Keeps k (close_argument (take n cursor.rest) (cursor.position + n) (drop n cursor.rest)))
        (ground (arith, length-drop n cursor.rest))
        (close_argument-Keeps _ (cursor.position + n) (drop n cursor.rest)))
]

bind-Keeps :
    {A B : Type 0} (n : ℕ) (o : Outcome (A × Cursor)) (f : A × Cursor → Outcome (B × Cursor))
    → Keeps n o
    → ((a : A) (after : Cursor) → Keeps (extent after) (f (a, after)))
    → Keeps n (o >>= f)
bind-Keeps n (ok (a, after)) f h k = subst (λ m. Keeps m (f (a, after))) h (k a after)
bind-Keeps n incomplete f h k = tt
bind-Keeps n (error e) f h k = tt

pure-Keeps :
    {A B : Type 0} (n : ℕ) (o : Outcome A) (f : A → Outcome (B × Cursor))
    → ((a : A) → Keeps n (f a))
    → Keeps n (o >>= f)
pure-Keeps n (ok a) f k = k a
pure-Keeps n incomplete f k = tt
pure-Keeps n (error e) f k = tt

read_argument-Keeps : (cursor : Cursor) → Keeps (extent cursor) (read_argument cursor)
unfolding read_argument
read_argument-Keeps cursor =
    bind-Keeps (extent cursor) (read_line cursor) _ (read_line-Keeps cursor)
      λ text after. pure-Keeps (extent after) (parse_length text) _ λ n. read_bulk-Keeps n after

argument_at-Keeps :
    (position : ℕ) (s : Bytes) → Keeps (position + length s) (argument_at position s)
argument_at-Keeps position [] = tt
argument_at-Keeps position (c ∷ s) = elim (Bool-cases (c == b'$')) [
  | inl e ↦ rw e (
      subst (λ n. Keeps n (read_argument (record { position = position + 1; rest = s })))
        (omega arith) (read_argument-Keeps (record { position = position + 1; rest = s })))
  | inr e ↦ rw e tt
]

-- The end that the parser reports lies within the text.
abbrev EndsWithin : ℕ → Outcome ParseResult → Type 0
EndsWithin n (ok r) = r.bytes_consumed ≤ n
EndsWithin n incomplete = Unit
EndsWithin n (error e) = Unit

bind-EndsWithin :
    {A : Type 0} (n : ℕ) (o : Outcome (A × Cursor)) (f : A × Cursor → Outcome ParseResult)
    → Keeps n o
    → ((a : A) (after : Cursor) → EndsWithin (extent after) (f (a, after)))
    → EndsWithin n (o >>= f)
bind-EndsWithin n (ok (a, after)) f h k = subst (λ m. EndsWithin m (f (a, after))) h (k a after)
bind-EndsWithin n incomplete f h k = tt
bind-EndsWithin n (error e) f h k = tt

pure-EndsWithin :
    {A : Type 0} (n : ℕ) (o : Outcome A) (f : A → Outcome ParseResult)
    → ((a : A) → EndsWithin n (f a))
    → EndsWithin n (o >>= f)
pure-EndsWithin n (ok a) f k = k a
pure-EndsWithin n incomplete f k = tt
pure-EndsWithin n (error e) f k = tt

parse_arguments-EndsWithin :
    (left : ℕ) (cursor : Cursor) (command : Command)
    → EndsWithin (extent cursor) (parse_arguments left cursor command)
unfolding parse_arguments parse_argument
parse_arguments-EndsWithin zero cursor command = omega arith
parse_arguments-EndsWithin (suc left) cursor command =
    bind-EndsWithin (extent cursor) (parse_argument cursor) _
      (argument_at-Keeps cursor.position cursor.rest)
      λ argument after. parse_arguments-EndsWithin left after (command ++ argument ∷ [])

read_array-EndsWithin : (cursor : Cursor) → EndsWithin (extent cursor) (read_array cursor)
unfolding read_array
read_array-EndsWithin cursor =
    bind-EndsWithin (extent cursor) (read_line cursor) _ (read_line-Keeps cursor) λ text after.
      pure-EndsWithin (extent after) (parse_length text) _
        λ n. parse_arguments-EndsWithin n after []

-- A parsed command ends inside the buffer: the caller can erase `bytes_consumed` bytes of it.
pub bytes_consumed-le-length :
    (input : Bytes) {r : ParseResult} → parse_command input ≡ ok r → r.bytes_consumed ≤ length input
unfolding parse_command
bytes_consumed-le-length [] h = cc
bytes_consumed-le-length (c ∷ s) {r} h = elim (Bool-cases (c == b'*')) [
  | inl e ↦ within_length (rw e at h)
  | inr e ↦ cc (rw e at h)
]
  where
    within_length :
        read_array (record { position = 1; rest = s }) ≡ ok r → r.bytes_consumed ≤ suc (length s)
    within_length p =
        let b =
          subst (EndsWithin (1 + length s)) p
            (read_array-EndsWithin (record { position = 1; rest = s })) in
        omega arith
