-- ===== src/Resp/Framing.antt =====
-- `parse_command` of src/resp.cpp over a buffer that grows between two calls, as the connection
-- loop of src/server.cpp calls it.
use codecrafters_redis_cpp.Prelude.{
  ℕ, zero, suc, ◌+◌, ◌≤◌, ◌≡◌, ◌⊎◌, inl, inr, refl, ap, Bool-cases, Option, none, some, [], ◌∷◌,
  ◌++◌, arith, ltb, ◌==◌, Bytes, length, take, drop, length-append,
}
use codecrafters_redis_cpp.Resp.{
  Command, Outcome, ok, incomplete, error, Cursor, find_crlf, read_line, parse_length, read_bulk,
  read_argument, parse_argument, parse_arguments, read_array, parse_command, ◌>>=◌, close_argument,
  argument_at,
}

abbrev grow : Cursor → Bytes → Cursor
grow cursor more = record { position = cursor.position; rest = cursor.rest ++ more }

abbrev grown : {A : Type 0} → Bytes → Outcome (A × Cursor) → Outcome (A × Cursor)
grown more (ok (a, after)) = ok (a, grow after more)
grown more incomplete = incomplete
grown more (error e) = error e

-- `o` asked for more bytes, or `o'` is what `o` was.
abbrev Settles : {A : Type 0} → Outcome A → Outcome A → Type 0
Settles o o' = (o ≡ incomplete) ⊎ (o' ≡ o)

abbrev found_with : Bytes → Option (Bytes × Bytes) → Option (Bytes × Bytes)
found_with more none = none
found_with more (some (line, rest)) = some (line, rest ++ more)

find_crlf_grow :
    (s more : Bytes)
    → (find_crlf s ≡ none) ⊎ (find_crlf (s ++ more) ≡ found_with more (find_crlf s))
unfolding find_crlf
find_crlf_grow [] more = inl refl
find_crlf_grow (c ∷ []) more = inl refl
find_crlf_grow (c ∷ d ∷ s) more = ground (arith, find_crlf_grow (d ∷ s) more)

read_line-grow :
    (cursor : Cursor) (more : Bytes)
    → Settles (grown more (read_line cursor)) (read_line (grow cursor more))
unfolding read_line
read_line-grow cursor more = ground (arith, find_crlf_grow cursor.rest more)

take-append : (n : ℕ) (s more : Bytes) → n ≤ length s → take n (s ++ more) ≡ take n s
take-append zero s more h = refl
take-append (suc n) [] more h = elim h [ ]
take-append (suc n) (c ∷ s) more h = ap (λ (t : Bytes). c ∷ t) (take-append n s more (omega arith))

drop-append : (n : ℕ) (s more : Bytes) → n ≤ length s → drop n (s ++ more) ≡ drop n s ++ more
drop-append zero s more h = refl
drop-append (suc n) [] more h = elim h [ ]
drop-append (suc n) (c ∷ s) more h = drop-append n s more (omega arith)

close_argument_grow :
    (argument : Bytes) (position : ℕ) (s more : Bytes)
    → Settles
        (grown more (close_argument argument position s))
        (close_argument argument position (s ++ more))
close_argument_grow argument position [] more = inl refl
close_argument_grow argument position (c ∷ []) more = inl refl
close_argument_grow argument position (c ∷ d ∷ s) more = inr (ground arith)

read_bulk-grow :
    (n : ℕ) (cursor : Cursor) (more : Bytes)
    → Settles (grown more (read_bulk n cursor)) (read_bulk n (grow cursor more))
unfolding read_bulk
read_bulk-grow n cursor more = elim (Bool-cases (ltb (length cursor.rest) n)) [
  | inl short ↦ inl (rw short)
  | inr enough ↦ ground (
    arith,
    take-append n cursor.rest more (ground arith),
    drop-append n cursor.rest more (ground arith),
    length-append cursor.rest more,
    close_argument_grow (take n cursor.rest) (cursor.position + n) (drop n cursor.rest) more,
  )
]

-- A step that settles, in front of one that does.
bind_grow :
    {A B : Type 0} (more : Bytes) (o o' : Outcome (A × Cursor))
    (f : A × Cursor → Outcome (B × Cursor))
    → Settles (grown more o) o'
    → ((a : A) (after : Cursor) → Settles (grown more (f (a, after))) (f (a, grow after more)))
    → Settles (grown more (o >>= f)) (o' >>= f)
bind_grow more (ok (a, after)) o' f (inl h) k = cc
bind_grow more (ok (a, after)) o' f (inr h) k = rw h (k a after)
bind_grow more incomplete o' f h k = inl refl
bind_grow more (error e) o' f (inl h) k = cc
bind_grow more (error e) o' f (inr h) k = rw h (inr refl)

bind-Settles :
    {A B : Type 0} (more : Bytes) (o o' : Outcome (A × Cursor)) (f : A × Cursor → Outcome B)
    → Settles (grown more o) o'
    → ((a : A) (after : Cursor) → Settles (f (a, after)) (f (a, grow after more)))
    → Settles (o >>= f) (o' >>= f)
bind-Settles more (ok (a, after)) o' f (inl h) k = cc
bind-Settles more (ok (a, after)) o' f (inr h) k = rw h (k a after)
bind-Settles more incomplete o' f h k = inl refl
bind-Settles more (error e) o' f (inl h) k = cc
bind-Settles more (error e) o' f (inr h) k = rw h (inr refl)

-- A step that reads no input.
pure_grow :
    {A B : Type 0} (more : Bytes) (o : Outcome A) (f g : A → Outcome (B × Cursor))
    → ((a : A) → Settles (grown more (f a)) (g a))
    → Settles (grown more (o >>= f)) (o >>= g)
pure_grow more (ok a) f g k = k a
pure_grow more incomplete f g k = inl refl
pure_grow more (error e) f g k = inr refl

pure-Settles :
    {A B : Type 0} (o : Outcome A) (f g : A → Outcome B)
    → ((a : A) → Settles (f a) (g a))
    → Settles (o >>= f) (o >>= g)
pure-Settles (ok a) f g k = k a
pure-Settles incomplete f g k = inl refl
pure-Settles (error e) f g k = inr refl

read_argument-grow :
    (cursor : Cursor) (more : Bytes)
    → Settles (grown more (read_argument cursor)) (read_argument (grow cursor more))
unfolding read_argument
read_argument-grow cursor more =
    bind_grow more (read_line cursor) _ _ (read_line-grow cursor more)
      λ text after. pure_grow more (parse_length text) _ _ λ n. read_bulk-grow n after more

argument_at_grow :
    (position : ℕ) (s more : Bytes)
    → Settles (grown more (argument_at position s)) (argument_at position (s ++ more))
argument_at_grow position [] more = inl refl
argument_at_grow position (c ∷ s) more = elim (Bool-cases (c == b'$')) [
  | inl e ↦ rw e (read_argument-grow (record { position = position + 1; rest = s }) more)
  | inr e ↦ rw e (inr refl)
]

parse_argument-grow :
    (cursor : Cursor) (more : Bytes)
    → Settles (grown more (parse_argument cursor)) (parse_argument (grow cursor more))
unfolding parse_argument
parse_argument-grow cursor more = argument_at_grow cursor.position cursor.rest more

parse_arguments-grow :
    (left : ℕ) (cursor : Cursor) (command : Command) (more : Bytes)
    → Settles
        (parse_arguments left cursor command)
        (parse_arguments left (grow cursor more) command)
unfolding parse_arguments
parse_arguments-grow zero cursor command more = inr refl
parse_arguments-grow (suc left) cursor command more =
    bind-Settles more (parse_argument cursor) _ _ (parse_argument-grow cursor more)
      λ argument after. parse_arguments-grow left after (command ++ argument ∷ []) more

read_array-grow :
    (cursor : Cursor) (more : Bytes) → Settles (read_array cursor) (read_array (grow cursor more))
unfolding read_array
read_array-grow cursor more =
    bind-Settles more (read_line cursor) _ _ (read_line-grow cursor more)
      λ text after. pure-Settles (parse_length text) _ _ λ n. parse_arguments-grow n after [] more

-- Whatever bytes follow a buffer, `parse_command` gives the outcome that it gave without them, a
-- command with its length or an error, unless that was `Incomplete`.
pub parse_command-append :
    (input more : Bytes)
    → (parse_command input ≡ incomplete) ⊎ (parse_command (input ++ more) ≡ parse_command input)
unfolding parse_command
parse_command-append [] more = inl refl
parse_command-append (c ∷ s) more = elim (Bool-cases (c == b'*')) [
  | inl e ↦ rw e (read_array-grow (record { position = 1; rest = s }) more)
  | inr e ↦ rw e (inr refl)
]
