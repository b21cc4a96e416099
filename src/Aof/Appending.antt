-- ===== src/Aof/Appending.antt =====
-- What `append` of src/aof.cpp leaves in the file, whatever the calls of write(2) return.
use codecrafters_redis_cpp.Prelude.{
  ℕ, zero, suc, ◌-◌, ◌≤◌, ◌≡◌, refl, sym, ap, subst, ◌∙◌, Option, none, some, List, [], ◌∷◌, ◌++◌,
  arith, append_assoc, append-nil, Bytes, length, length-drop, take, drop, leb, Bool-cases, inl,
  inr,
}
use codecrafters_redis_cpp.Aof.{
  Write, wrote, interrupted, failed, Appended, appended, no_append, waiting, append_loop,
  SyncPolicy, always, every_second, never, AppendOnlyFile, sync, after_write, finish, append,
}

take-drop : (n : ℕ) (s : Bytes) → s ≡ take n s ++ drop n s
take-drop zero s = refl
take-drop (suc n) [] = refl
take-drop (suc n) (c ∷ s) = ap (λ (t : Bytes). c ∷ t) (take-drop n s)

-- The file has grown by a part of the payload, and by the whole of it after a success.
pub record GrowsBy (payload old : Bytes) (result : Appended) (new : Bytes) : Type 0 where
  pub done : Bytes
  pub left : Bytes
  pub splits : payload ≡ done ++ left
  pub holds : new ≡ old ++ done
  pub whole : result ≡ appended → left ≡ []

nothing_more :
    (payload old : Bytes) (result : Appended)
    → (result ≡ appended → payload ≡ [])
    → GrowsBy payload old result old
nothing_more payload old result h = record {
  done = [];
  left = payload;
  splits = refl;
  holds = sym (append-nil old);
  whole = h;
}

one_more :
    (n : ℕ) (payload old : Bytes) (result : Appended) (new : Bytes)
    → GrowsBy (drop n payload) (old ++ take n payload) result new
    → GrowsBy payload old result new
one_more n payload old result new g = record {
  done = take n payload ++ g.done;
  left = g.left;
  splits =
      take-drop n payload
      ∙ ap (λ (s : Bytes). take n payload ++ s) g.splits
      ∙ sym (append_assoc (take n payload) g.done g.left);
  holds = g.holds ∙ append_assoc old (take n payload) g.done;
  whole = g.whole;
}

append_loop-GrowsBy :
    (path : Bytes) (writes : List Write) (payload file : Bytes)
    → GrowsBy payload file
        (append_loop path writes payload file).0
        (append_loop path writes payload file).1
unfolding append_loop
append_loop-GrowsBy path [] [] file = nothing_more [] file appended (λ e. refl)
append_loop-GrowsBy path (write ∷ writes) [] file = nothing_more [] file appended (λ e. refl)
append_loop-GrowsBy path [] (c ∷ payload) file = nothing_more _ file waiting (λ e. cc)
append_loop-GrowsBy path (interrupted ∷ writes) (c ∷ payload) file =
    append_loop-GrowsBy path writes (c ∷ payload) file
append_loop-GrowsBy path (failed reason ∷ writes) (c ∷ payload) file =
    nothing_more _ file (no_append _) (λ e. cc)
append_loop-GrowsBy path (wrote zero ∷ writes) (c ∷ payload) file =
    nothing_more _ file (no_append _) (λ e. cc)
append_loop-GrowsBy path (wrote (suc n) ∷ writes) (c ∷ payload) file =
    one_more (suc n) (c ∷ payload) file _ _ (
      append_loop-GrowsBy path writes (drop (suc n) (c ∷ payload))
        (file ++ take (suc n) (c ∷ payload)))

-- What an append leaves: the file, and with the policy `always` a success that is on the disk.
pub record Kept (payload : Bytes) (old : AppendOnlyFile) (outcome : Appended × AppendOnlyFile)
    : Type 0 where
  pub grows : GrowsBy payload old.contents outcome.0 outcome.1.contents
  pub durable :
      old.sync_policy ≡ always → outcome.0 ≡ appended → outcome.1.synced ≡ length outcome.1.contents

sync_lem :
    (fsync : Option Bytes) (now : ℕ) (file : AppendOnlyFile)
    → ((sync fsync now file).1.contents ≡ file.contents)
      × ((sync fsync now file).0 ≡ appended
          → (sync fsync now file).1.synced ≡ length (sync fsync now file).1.contents)
sync_lem none now file = (refl, λ e. refl)
sync_lem (some reason) now file = (refl, λ e. cc)

after_write_lem :
    (policy : SyncPolicy) (fsync : Option Bytes) (now now' : ℕ) (file : AppendOnlyFile)
    → ((after_write policy fsync now now' file).1.contents ≡ file.contents)
      × (policy ≡ always
          → (after_write policy fsync now now' file).0 ≡ appended
          → (after_write policy fsync now now' file).1.synced
            ≡ length (after_write policy fsync now now' file).1.contents)
after_write_lem always fsync now now' file =
    let (same, durable) = sync_lem fsync now' file in (same, λ p. durable)
after_write_lem every_second fsync now now' file =
    elim (Bool-cases (leb 1_000_000_000 (now - file.last_sync))) [
      | inl e ↦ rw e ((sync_lem fsync now' file).0, λ p. cc)
      | inr e ↦ rw e (refl, λ p. cc)
    ]
after_write_lem never fsync now now' file = (refl, λ p. cc)

finish-Kept :
    (payload : Bytes) (result : Appended × Bytes) (fsync : Option Bytes) (now now' : ℕ)
    (file : AppendOnlyFile)
    → GrowsBy payload file.contents result.0 result.1
    → Kept payload file (finish result fsync now now' file)
finish-Kept payload (appended, contents) fsync now now' file g =
    let (same, durable) =
      after_write_lem file.sync_policy fsync now now' (record file { contents = contents }) in
    record {
      grows = record {
        done = g.done;
        left = g.left;
        splits = g.splits;
        holds = same ∙ g.holds;
        whole = λ e. g.whole refl;
      };
      durable = durable;
    }
finish-Kept payload (no_append reason, contents) fsync now now' file g = record {
  grows = g;
  durable = λ p e. cc;
}
finish-Kept payload (waiting, contents) fsync now now' file g = record {
  grows = g;
  durable = λ p e. cc;
}

-- Whatever write(2) and fsync(2) return, `append` leaves the file with what it held and a part of
-- the payload behind it: the whole payload when it succeeds, and then, with the policy `always`,
-- everything that the file holds is on the disk.
pub append-Kept :
    (writes : List Write) (fsync : Option Bytes) (now now' : ℕ) (payload : Bytes)
    (file : AppendOnlyFile)
    → Kept payload file (append writes fsync now now' payload file)
unfolding append
append-Kept writes fsync now now' payload file =
    finish-Kept payload (append_loop file.path writes payload file.contents) fsync now now' file
      (append_loop-GrowsBy file.path writes payload file.contents)

-- As many bytes as the calls of write(2) write between them, none of which fails or writes nothing.
abbrev pub Writes : List Write → ℕ → Type 0
Writes [] n = n ≡ 0
Writes (interrupted ∷ writes) n = Writes writes n
Writes (failed reason ∷ writes) n = ⊥
Writes (wrote zero ∷ writes) n = ⊥
Writes (wrote (suc m) ∷ writes) n = (suc m ≤ n) × Writes writes (n - suc m)

-- The loop of `append` ends, and with success, when the calls of write(2) write as many bytes as the
-- payload has between them, however they split it and however often they are interrupted.
pub append_loop_ends :
    (path : Bytes) (writes : List Write) (payload file : Bytes)
    → Writes writes (length payload)
    → (append_loop path writes payload file).0 ≡ appended
unfolding append_loop
append_loop_ends path writes [] file h = refl
append_loop_ends path [] (c ∷ payload) file h = absurd (omega (arith, h))
append_loop_ends path (interrupted ∷ writes) (c ∷ payload) file h =
    append_loop_ends path writes (c ∷ payload) file h
append_loop_ends path (failed reason ∷ writes) (c ∷ payload) file h = absurd h
append_loop_ends path (wrote zero ∷ writes) (c ∷ payload) file h = absurd h
append_loop_ends path (wrote (suc n) ∷ writes) (c ∷ payload) file (h, hs) =
    append_loop_ends path writes (drop n payload) (file ++ c ∷ take n payload)
      (subst (Writes writes) (omega (arith, length-drop n payload)) hs)
