-- ===== src/Aof/Manifest/Highest.antt =====
-- Reading a manifest of src/aof.cpp back: which of its files is chosen.
use codecrafters_redis_cpp.Prelude.{
  ℕ, ◌≤◌, ◌<◌, ◌≡◌, ◌≢◌, ◌⊎◌, inl, inr, refl, ap, sym, ◌∙◌, true, false, Option, none, some, List,
  [], ◌∷◌, ◌++◌, append_assoc, append-nil, arith, ltb, ◌==◌, if◌then◌else◌, Bytes, codes, str_eq,
  str_eq_iff, Bool-cases,
}
use codecrafters_redis_cpp.Prelude.Expected.{expected}
use codecrafters_redis_cpp.Numeric.{max_uint64, to_string}
use codecrafters_redis_cpp.Numeric.RoundTrip.{
  All, IsDigit, to_string-IsDigit, to_string-Leads, whole-from_chars-to_string,
}
use codecrafters_redis_cpp.ServerConfig.{is_valid_database_filename}
use codecrafters_redis_cpp.Aof.Manifest.{
  ManifestEntry, parse_sequence, is_safe_manifest_filename, is_space, words_behind, lines_behind,
  fields_of, newer, read_fields, read_line, read_lines, read_active_filename,
}

-- A word that `operator>>` reads whole.
pub record IsWord (s : Bytes) : Type 0 where
  pub nonempty : s ≢ []
  pub no_space : All (λ c. is_space c ≡ false) s

words_within :
    (word s rest : Bytes)
    → All (λ c. is_space c ≡ false) s
    → words_behind word (s ++ rest) ≡ words_behind (word ++ s) rest
unfolding words_behind
words_within word [] rest h = ap (λ (w : Bytes). words_behind w rest) (sym (append-nil word))
words_within word (c ∷ s) rest (h, k) = rw h (
    words_within (word ++ c ∷ []) s rest k
    ∙ ap (λ (w : Bytes). words_behind w rest) (append_assoc word (c ∷ []) s))

-- A word in front of a space, and one at the end of the line.
pub word_read :
    (s rest : Bytes) → IsWord s → words_behind [] (s ++ (b' ' ∷ rest)) ≡ s ∷ words_behind [] rest
unfolding words_behind
word_read [] rest h = absurd (h.nonempty refl)
word_read (c ∷ s) rest h = words_within [] (c ∷ s) (b' ' ∷ rest) h.no_space

pub word_last : (s : Bytes) → IsWord s → words_behind [] s ≡ s ∷ []
unfolding words_behind
word_last [] h = absurd (h.nonempty refl)
word_last (c ∷ s) h =
    ap (words_behind []) (sym (append-nil (c ∷ s))) ∙ words_within [] (c ∷ s) [] h.no_space

-- A line that is read whole.
abbrev pub InLine : Bytes → Type 0
InLine s = All (λ c. (c == 10) ≡ false) s

lines_within :
    (line s rest : Bytes) → InLine s → lines_behind line (s ++ rest) ≡ lines_behind (line ++ s) rest
unfolding lines_behind
lines_within line [] rest h = ap (λ (l : Bytes). lines_behind l rest) (sym (append-nil line))
lines_within line (c ∷ s) rest (h, k) = rw h (
    lines_within (line ++ c ∷ []) s rest k
    ∙ ap (λ (l : Bytes). lines_behind l rest) (append_assoc line (c ∷ []) s))

pub line_read :
    (s rest : Bytes) → InLine s → lines_behind [] (s ++ (10 ∷ rest)) ≡ s ∷ lines_behind [] rest
unfolding lines_behind
line_read s rest h = lines_within [] s (10 ∷ rest) h

pub InLine-append : (s t : Bytes) → InLine s → InLine t → InLine (s ++ t)
InLine-append [] t h k = k
InLine-append (c ∷ s) t (h, l) k = (h, InLine-append s t l k)

pub word-InLine : (s : Bytes) → All (λ c. is_space c ≡ false) s → InLine s
word-InLine [] h = tt
word-InLine (c ∷ s) (h, k) = (ground (arith, h), word-InLine s k)

-- An entry of a manifest, as it is written.
pub record Line : Type 0 where
  pub filename : Bytes
  pub sequence : ℕ
  pub type : Bytes

abbrev pub line_of : Line → Bytes
line_of entry =
    codes "file "
    ++ (entry.filename
        ++ (b' '
            ∷ (codes "seq "
                ++ (to_string entry.sequence ++ (b' ' ∷ (codes "type " ++ entry.type))))))

abbrev pub write_manifest : List Line → Bytes
write_manifest [] = []
write_manifest (entry ∷ entries) = line_of entry ++ (10 ∷ write_manifest entries)

pub record IsEntry (entry : Line) : Type 0 where
  pub filename : IsWord entry.filename
  pub safe : is_valid_database_filename entry.filename ≡ true
  pub sequence : entry.sequence ≤ max_uint64
  pub type : IsWord entry.type

digit_no_space : (c : ℕ) → IsDigit c → is_space c ≡ false
digit_no_space c h = ground arith

digits_no_space : (s : Bytes) → All IsDigit s → All (λ c. is_space c ≡ false) s
digits_no_space [] h = tt
digits_no_space (c ∷ s) (h, k) = (digit_no_space c h, digits_no_space s k)

to_string-IsWord : (n : ℕ) → IsWord (to_string n)
to_string-IsWord n = record {
  nonempty = λ e. rw (append-nil (to_string n), e) at (to_string-Leads n []);
  no_space = digits_no_space (to_string n) (to_string-IsDigit n);
}

line_of-InLine : (entry : Line) → IsEntry entry → InLine (line_of entry)
line_of-InLine entry h =
    InLine-append (codes "file ") _ (refl, (refl, (refl, (refl, (refl, tt)))))
      (InLine-append entry.filename _ (word-InLine entry.filename h.filename.no_space) (
        InLine-append (codes " seq ") _ (refl, (refl, (refl, (refl, (refl, tt)))))
          (InLine-append (to_string entry.sequence) _
            (word-InLine _ (to_string-IsWord entry.sequence).no_space)
            (InLine-append (codes " type ") _ (refl, (refl, (refl, (refl, (refl, (refl, tt))))))
              (word-InLine entry.type h.type.no_space)))))

pub file_word : IsWord (codes "file")
file_word = record { nonempty = λ e. cc; no_space = (refl, (refl, (refl, (refl, tt)))) }

pub seq_word : IsWord (codes "seq")
seq_word = record { nonempty = λ e. cc; no_space = (refl, (refl, (refl, tt))) }

pub type_word : IsWord (codes "type")
type_word = record { nonempty = λ e. cc; no_space = (refl, (refl, (refl, (refl, tt)))) }

words_of_line :
    (entry : Line)
    → IsEntry entry
    → words_behind [] (line_of entry)
      ≡ codes "file"
        ∷ entry.filename
        ∷ codes "seq"
        ∷ to_string entry.sequence
        ∷ codes "type"
        ∷ entry.type
        ∷ []
words_of_line entry h =
    word_read (codes "file") _ file_word
    ∙ ap (λ ws. codes "file" ∷ ws)
        (word_read entry.filename _ h.filename
          ∙ ap (λ ws. entry.filename ∷ ws)
              (word_read (codes "seq") _ seq_word
                ∙ ap (λ ws. codes "seq" ∷ ws)
                    (word_read (to_string entry.sequence) _ (to_string-IsWord entry.sequence)
                      ∙ ap (λ ws. to_string entry.sequence ∷ ws)
                          (word_read (codes "type") _ type_word
                            ∙ ap (λ ws. codes "type" ∷ ws) (word_last entry.type h.type)))))

-- What a line of the manifest makes of the file chosen so far.
abbrev chosen : Line → Option ManifestEntry → Option ManifestEntry
chosen entry active =
    if str_eq entry.type (codes "i") then newer entry.filename entry.sequence active else active

read_line_back :
    (path : Bytes) (entry : Line) (active : Option ManifestEntry)
    → IsEntry entry
    → read_line path (line_of entry) active ≡ expected (chosen entry active)
unfolding read_line str_eq parse_sequence is_safe_manifest_filename
read_line_back path entry active h =
    ap (λ ws. read_fields path (fields_of ws) active) (words_of_line entry h)
    ∙ by_type (Bool-cases (str_eq entry.type (codes "i")))
  where
    by_type :
        (str_eq entry.type (codes "i") ≡ true) ⊎ (str_eq entry.type (codes "i") ≡ false)
        → read_fields path
            (some (record {
              filename = entry.filename;
              sequence_text = to_string entry.sequence;
              type = entry.type;
            }))
            active
          ≡ expected (chosen entry active)
    by_type (inl e) =
        rw (e, h.safe, whole-from_chars-to_string max_uint64 entry.sequence h.sequence) refl
    by_type (inr e) = rw e refl

-- The entry of the file that is chosen is one of these, and is of an incremental file.
abbrev pub IsAmong : ManifestEntry → List Line → Type 0
IsAmong active [] = ⊥
IsAmong active (entry ∷ entries) =
    ((entry.type ≡ codes "i")
      × (entry.filename ≡ active.filename)
      × (entry.sequence ≡ active.sequence))
    ⊎ IsAmong active entries

-- No incremental file has a higher sequence number.
abbrev pub IsHighest : ManifestEntry → List Line → Type 0
IsHighest active [] = Unit
IsHighest active (entry ∷ entries) =
    (entry.type ≡ codes "i" → entry.sequence ≤ active.sequence) × IsHighest active entries

abbrev pub HasIncremental : List Line → Type 0
HasIncremental [] = ⊥
HasIncremental (entry ∷ entries) = (entry.type ≡ codes "i") ⊎ HasIncremental entries

abbrev pub AllEntries : List Line → Type 0
AllEntries [] = Unit
AllEntries (entry ∷ entries) = IsEntry entry × AllEntries entries

abbrev choose : List Line → Option ManifestEntry → Option ManifestEntry
choose [] active = active
choose (entry ∷ entries) active = choose entries (chosen entry active)

read_lines_back :
    (path : Bytes) (entries : List Line) (active : Option ManifestEntry)
    → AllEntries entries
    → read_lines path (lines_behind [] (write_manifest entries)) active
      ≡ expected (choose entries active)
unfolding read_lines lines_behind
read_lines_back path [] active h = refl
read_lines_back path (entry ∷ entries) active (h, k) =
    ap (λ lines. read_lines path lines active)
      (line_read (line_of entry) (write_manifest entries) (line_of-InLine entry h))
    ∙ rw (read_line_back path entry active h) (read_lines_back path entries (chosen entry active) k)

-- What `choose` ends with, behind a file chosen before.
abbrev Chosen : ManifestEntry → List Line → Type 0
Chosen before entries =
    (active : ManifestEntry) × (choose entries (some before) ≡ some active)
    × (before.sequence ≤ active.sequence)
    × IsHighest active entries
    × ((active ≡ before) ⊎ IsAmong active entries)

order : (m n : ℕ) → (m < n) ⊎ (n ≤ m)
order m n = elim (Bool-cases (ltb m n)) [
  | inl e ↦ inl (ground (arith, e))
  | inr e ↦ inr (ground (arith, e))
]

ltb-true : {m n : ℕ} → m < n → ltb m n ≡ true
ltb-true h = ground (arith, h)

ltb-false : {m n : ℕ} → n ≤ m → ltb m n ≡ false
ltb-false h = ground (arith, h)

other_type : {s : Bytes} → str_eq s (codes "i") ≡ false → s ≢ codes "i"
other_type {s} e p = ground (arith, e, (str_eq_iff s (codes "i")).1 p)

choose_behind : (entries : List Line) (before : ManifestEntry) → Chosen before entries
choose_behind [] before = (before, refl, omega arith, tt, inl refl)
choose_behind (entry ∷ entries) before =
    by_type (Bool-cases (str_eq entry.type (codes "i"))) (choose_behind entries)
  where
    named : ManifestEntry
    named = record { filename = entry.filename; sequence = entry.sequence }

    by_order :
        str_eq entry.type (codes "i") ≡ true
        → (before.sequence < entry.sequence) ⊎ (entry.sequence ≤ before.sequence)
        → ((m : ManifestEntry) → Chosen m entries)
        → Chosen before (entry ∷ entries)
    by_order e (inl l) later =
        let (active, p, q, highest, among) = later named in
        (
          active,
          rw e (rw (ltb-true l) p),
          omega (arith, q, l),
          ((λ _. q), highest),
          inr (elim among [
            | inl same ↦ inl (
              (str_eq_iff entry.type (codes "i")).0 e,
              ap (λ m. m.filename) (sym same),
              ap (λ m. m.sequence) (sym same),
            )
            | inr k ↦ inr k
          ]),
        )
    by_order e (inr l) later =
        let (active, p, q, highest, among) = later before in
        (
          active,
          rw e (rw (ltb-false l) p),
          q,
          ((λ _. omega (arith, q, l)), highest),
          elim among [ inl same ↦ inl same | inr k ↦ inr (inr k) ],
        )

    by_type :
        (str_eq entry.type (codes "i") ≡ true) ⊎ (str_eq entry.type (codes "i") ≡ false)
        → ((m : ManifestEntry) → Chosen m entries)
        → Chosen before (entry ∷ entries)
    by_type (inl e) later = by_order e (order before.sequence entry.sequence) later
    by_type (inr e) later =
        let (active, p, q, highest, among) = later before in
        (
          active,
          rw e p,
          q,
          ((λ i. absurd (other_type e i)), highest),
          elim among [ inl same ↦ inl same | inr k ↦ inr (inr k) ],
        )

-- The same, where no file is chosen before and one of the entries is of an incremental file.
abbrev ChosenFirst : List Line → Type 0
ChosenFirst entries =
    (active : ManifestEntry) × (choose entries none ≡ some active)
    × IsHighest active entries
    × IsAmong active entries

choose_first : (entries : List Line) → HasIncremental entries → ChosenFirst entries
choose_first [] h = absurd h
choose_first (entry ∷ entries) h =
    by_type (Bool-cases (str_eq entry.type (codes "i"))) (choose_first entries) h
  where
    named : ManifestEntry
    named = record { filename = entry.filename; sequence = entry.sequence }

    by_type :
        (str_eq entry.type (codes "i") ≡ true) ⊎ (str_eq entry.type (codes "i") ≡ false)
        → (HasIncremental entries → ChosenFirst entries)
        → HasIncremental (entry ∷ entries)
        → ChosenFirst (entry ∷ entries)
    by_type (inl e) later i =
        let (active, p, q, highest, among) = choose_behind entries named in
        (
          active,
          rw e p,
          ((λ _. q), highest),
          elim among [
            | inl same ↦ inl (
              (str_eq_iff entry.type (codes "i")).0 e,
              ap (λ m. m.filename) (sym same),
              ap (λ m. m.sequence) (sym same),
            )
            | inr k ↦ inr k
          ],
        )
    by_type (inr e) later (inl i) = absurd (other_type e i)
    by_type (inr e) later (inr i) =
        let (active, p, highest, among) = later i in
        (active, rw e p, ((λ i'. absurd (other_type e i')), highest), inr among)

-- A manifest of entries in their written form, an incremental one among them, gives the file of an
-- incremental entry, and no incremental entry has a higher sequence number. File names and types are
-- words without white space, the names with no directory part, and the numbers have 64 bits.
pub read_active_filename-IsHighest :
    (path : Bytes) (entries : List Line)
    → AllEntries entries
    → HasIncremental entries
    → (active : ManifestEntry) × (read_active_filename path
          (record { opens = true; contents = write_manifest entries; bad = false })
        ≡ expected active.filename)
      × IsAmong active entries
      × IsHighest active entries
unfolding read_active_filename
read_active_filename-IsHighest path entries h i =
    let (active, p, highest, among) = choose_first entries i in
    (active, rw (read_lines_back path entries none h, p) refl, among, highest)
