-- ===== src/Storage/Execute.antt =====
-- A follower, which reads the text of an entry, does what the leader does with the command of a session.
use draft.Base.{
  ◌≡◌, refl, ap, ◌∙◌, ◌⊎◌, inl, inr, ◌≢◌, [], ◌∷◌, ◌++◌, append_assoc, append-nil, sym, Str, codes,
  str_eq,
}
use draft.Command.{Command, set, del}
use draft.Table.{Table, assign, erase_key}
use draft.Storage.Input.{
  NoSpace, NoNewline, word, read_word, skip_one, word-NoSpace, word-append, read_line-NoNewline,
}
use draft.Base.{is_space, skip_space}
use draft.Storage.{log_text, apply_text, execute}

-- A `set` or `del` whose key is a word, and whose value is one line.
abbrev pub IsPlain : Command → Type 0
IsPlain c = (c.key ≢ []) × NoSpace c.key × (((c.type ≡ set) × NoNewline c.value) ⊎ (c.type ≡ del))

-- A word behind one blank.
skip_space-word : (k rest : Str) → k ≢ [] → NoSpace k → skip_space (32 ∷ (k ++ rest)) ≡ k ++ rest
unfolding skip_space is_space
skip_space-word [] rest ne h = absurd (ne refl)
skip_space-word (c ∷ k) rest ne (a, h) = rw a refl

read_word-set : (rest : Str) → read_word (codes "set " ++ rest) ≡ (codes "set", 32 ∷ rest)
unfolding read_word skip_space word is_space
read_word-set rest = refl

read_word-del : (rest : Str) → read_word (codes "del " ++ rest) ≡ (codes "del", 32 ∷ rest)
unfolding read_word skip_space word is_space
read_word-del rest = refl

apply_set :
    (k v : Str) (db : Table)
    → k ≢ []
    → NoSpace k
    → NoNewline v
    → apply_text (codes "set " ++ k ++ (codes " " ++ v)) db ≡ assign k v db
unfolding apply_text
apply_set k v db ne h line =
    let words : read_word (32 ∷ (k ++ (32 ∷ v))) ≡ (k, 32 ∷ v) =
      unfold read_word in
      rw (skip_space-word k (32 ∷ v) ne h) (word-append k 32 v h (unfold is_space in refl)) in
    rw (append_assoc (codes "set ") k (codes " " ++ v)) (
      rw (read_word-set (k ++ (32 ∷ v)))
        (rw words (unfold skip_one in rw (read_line-NoNewline v line) (unfold str_eq in refl))))

apply_del :
    (k : Str) (db : Table) → k ≢ [] → NoSpace k → apply_text (codes "del " ++ k) db ≡ erase_key k db
unfolding apply_text
apply_del k db ne h =
    let words : read_word (32 ∷ k) ≡ (k, []) =
      unfold read_word in
      rw
        (ap skip_space (ap (λ t. 32 ∷ t) (sym (append-nil k)))
          ∙ skip_space-word k [] ne h
          ∙ append-nil k)
        (word-NoSpace k h) in
    rw (read_word-del k) (rw words (unfold str_eq in refl))

-- The text of the entry of a plain command, read by a server without its session, changes the
-- database as the command itself does.
pub apply_text-log_text :
    (c : Command) (db : Table) → IsPlain c → apply_text (log_text c) db ≡ execute c db
unfolding execute
apply_text-log_text c db (ne, h, inl (e, line)) = rw e (apply_set c.key c.value db ne h line)
apply_text-log_text c db (ne, h, inr e) = rw e (apply_del c.key db ne h)
