-- ===== src/Aof/Manifest/Spaced.antt =====
-- A file name of two words in the manifest of src/aof.cpp.
use codecrafters_redis_cpp.Prelude.{
  ◌≡◌, refl, ap, sym, ◌∙◌, true, false, [], ◌∷◌, ◌++◌, append_assoc, Bytes, codes,
}
use codecrafters_redis_cpp.Prelude.Expected.{unexpected}
use codecrafters_redis_cpp.ServerConfig.{AofConfig}
use codecrafters_redis_cpp.Aof.Manifest.{
  words_behind, lines_behind, read_line, read_lines, read_active_filename, first_manifest,
}
use codecrafters_redis_cpp.Aof.Manifest.Highest.{
  file_word, seq_word, type_word, IsWord, word_read, word_last, InLine, InLine-append, word-InLine,
  line_read,
}
use codecrafters_redis_cpp.Aof.Manifest.Created.{suffix, IsWord-with_suffix}

one_word : IsWord (codes "1")
one_word = record { nonempty = λ e. cc; no_space = (refl, tt) }

incremental : IsWord (codes "i")
incremental = record { nonempty = λ e. cc; no_space = (refl, tt) }

-- The words of the line for a file name of two words.
seven_words :
    (a b : Bytes)
    → IsWord a
    → IsWord b
    → words_behind [] (codes "file " ++ (a ++ (b' ' ∷ (b ++ codes " seq 1 type i"))))
      ≡ codes "file" ∷ a ∷ b ∷ codes "seq" ∷ codes "1" ∷ codes "type" ∷ codes "i" ∷ []
seven_words a b h k =
    word_read (codes "file") _ file_word
    ∙ ap (λ ws. codes "file" ∷ ws)
        (word_read a _ h
          ∙ ap (λ ws. a ∷ ws)
              (word_read b _ k
                ∙ ap (λ ws. b ∷ ws)
                    (word_read (codes "seq") _ seq_word
                      ∙ ap (λ ws. codes "seq" ∷ ws)
                          (word_read (codes "1") _ one_word
                            ∙ ap (λ ws. codes "1" ∷ ws)
                                (word_read (codes "type") _ type_word
                                  ∙ ap (λ ws. codes "type" ∷ ws)
                                      (word_last (codes "i") incremental))))))

spaced_manifest :
    (a b : Bytes) (config : AofConfig)
    → config.append_filename ≡ a ++ (b' ' ∷ b)
    → first_manifest config
      ≡ (codes "file " ++ (a ++ (b' ' ∷ ((b ++ suffix) ++ codes " seq 1 type i")))) ++ (10 ∷ [])
spaced_manifest a b config e = rw e (
    ap (λ (s : Bytes). codes "file " ++ s)
      (ap (λ (s : Bytes). s ++ codes " seq 1 type i\n") (append_assoc a (b' ' ∷ b) suffix)
        ∙ append_assoc a (b' ' ∷ (b ++ suffix)) (codes " seq 1 type i\n")
        ∙ ap (λ (s : Bytes). a ++ (b' ' ∷ s))
            (sym (append_assoc (b ++ suffix) (codes " seq 1 type i") (10 ∷ [])))
        ∙ sym (append_assoc a (b' ' ∷ ((b ++ suffix) ++ codes " seq 1 type i")) (10 ∷ []))))

-- The manifest that is made for a file name of two words, which the options allow, is refused when it
-- is read: its line has seven words.
pub read_active_filename-spaced :
    (path a b : Bytes) (config : AofConfig)
    → IsWord a
    → IsWord b
    → config.append_filename ≡ a ++ (b' ' ∷ b)
    → read_active_filename path
        (record { opens = true; contents = first_manifest config; bad = false })
      ≡ unexpected (codes "Invalid entry in AOF manifest '" ++ (path ++ codes "'"))
unfolding read_active_filename read_lines read_line
read_active_filename-spaced path a b config h k e =
    let line : Bytes = codes "file " ++ (a ++ (b' ' ∷ ((b ++ suffix) ++ codes " seq 1 type i"))) in
    let one_line : lines_behind [] (first_manifest config) ≡ line ∷ lines_behind [] [] =
      ap (lines_behind []) (spaced_manifest a b config e)
      ∙ line_read line [] (in_line (b ++ suffix) (IsWord-with_suffix b k)) in
    rw (one_line, seven_words a (b ++ suffix) h (IsWord-with_suffix b k)) refl
  where
    all_of_it : InLine (codes " seq 1 type i")
    all_of_it = (
      refl,
      (
        refl,
        (refl, (refl, (refl, (refl, (refl, (refl, (refl, (refl, (refl, (refl, (refl, tt))))))))))),
      ),
    )

    in_line :
        (b : Bytes)
        → IsWord b
        → InLine (codes "file " ++ (a ++ (b' ' ∷ (b ++ codes " seq 1 type i"))))
    in_line b k =
        InLine-append (codes "file ") _ (refl, (refl, (refl, (refl, (refl, tt)))))
          (InLine-append a _ (word-InLine a h.no_space) (
            InLine-append (codes " ") _ (refl, tt)
              (InLine-append b _ (word-InLine b k.no_space) all_of_it)))
