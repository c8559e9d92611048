-- ===== src/Raft/Files/Received.antt =====
-- What the requests for one file or directory leave at the member.
use draft.Base.{
  ◌≡◌, ◌≢◌, refl, inl, inr, Bool, true, false, none, some, List, [], ◌∷◌, ◌++◌, Str, str_eq,
  str_eq_refl, if◌then◌else◌, Bool-cases,
}
use draft.Raft.Files.{Receiver, write_to, directory_of, receive, close_out}

abbrev pub is_absent : Str → List (Str × Str) → Bool
is_absent n [] = true
is_absent n ((m, s) ∷ fs) = if str_eq n m then false else is_absent n fs

pub write_to-absent :
    (n bytes : Str) (fs : List (Str × Str))
    → is_absent n fs ≡ true
    → write_to n bytes fs ≡ fs ++ (n, bytes) ∷ []
unfolding write_to
write_to-absent n bytes [] h = refl
write_to-absent n bytes ((m, s) ∷ fs) h = elim (Bool-cases (str_eq n m)) [
  | inl e ↦ absurd (cc)
  | inr e ↦ rw (e, write_to-absent n bytes fs (rw e at h)) refl
]

pub write_to-last :
    (n bytes s : Str) (fs : List (Str × Str))
    → is_absent n fs ≡ true
    → write_to n bytes (fs ++ (n, s) ∷ []) ≡ fs ++ (n, s ++ bytes) ∷ []
unfolding write_to
write_to-last n bytes s [] h = rw (str_eq_refl n) refl
write_to-last n bytes s ((m, t) ∷ fs) h = elim (Bool-cases (str_eq n m)) [
  | inl e ↦ absurd (cc)
  | inr e ↦ rw (e, write_to-last n bytes s fs (rw e at h)) refl
]

directory_of-slash : (d : Str) → directory_of (d ++ b'/' ∷ []) ≡ some d
unfolding directory_of
directory_of-slash [] = refl
directory_of-slash (c ∷ []) = refl
directory_of-slash (c ∷ e ∷ s) = rw (directory_of-slash (e ∷ s)) refl

-- What the member has of the file `n`, of which `sent` came.
abbrev pub receiving : Str → Str → List (Str × Str) → List Str → Receiver
receiving n sent fs ds = record {
  last = n;
  fout = some n;
  files = fs ++ (n, sent) ∷ [];
  directories = ds;
}

pub receive-first :
    (n bytes : Str) (v : Receiver)
    → n ≢ []
    → directory_of n ≡ none
    → str_eq n v.last ≡ false
    → is_absent n v.files ≡ true
    → receive (record { name = n; bytes = bytes }) v ≡ receiving n bytes v.files v.directories
unfolding receive
receive-first [] bytes v e d new absent = absurd (e refl)
receive-first (c ∷ n) bytes v e d new absent =
    rw
      (
        d,
        new,
        write_to-absent (c ∷ n) [] v.files absent,
        write_to-last (c ∷ n) bytes [] v.files absent,
      )
      refl

pub receive-more :
    (n bytes sent : Str) (fs : List (Str × Str)) (ds : List Str)
    → n ≢ []
    → directory_of n ≡ none
    → is_absent n fs ≡ true
    → receive (record { name = n; bytes = bytes }) (receiving n sent fs ds)
      ≡ receiving n (sent ++ bytes) fs ds
unfolding receive
receive-more [] bytes sent fs ds e d absent = absurd (e refl)
receive-more (c ∷ n) bytes sent fs ds e d absent =
    rw (d, str_eq_refl (c ∷ n), write_to-last (c ∷ n) bytes sent fs absent) refl

pub receive-directory :
    (d : Str) (v : Receiver)
    → receive (record { name = d ++ b'/' ∷ []; bytes = [] }) v
      ≡ record v { last = d; directories = v.directories ++ d ∷ [] }
unfolding receive
receive-directory [] v = rw (directory_of-slash []) refl
receive-directory (c ∷ d) v = rw (directory_of-slash (c ∷ d)) refl

-- A file that comes again as the first of the next transfer is lost: it is not opened again.
receive-close_out :
    (n bytes sent : Str) (fs : List (Str × Str)) (ds : List Str)
    → n ≢ []
    → directory_of n ≡ none
    → receive (record { name = n; bytes = bytes }) (close_out (receiving n sent fs ds))
      ≡ close_out (receiving n sent fs ds)
unfolding receive
receive-close_out [] bytes sent fs ds e d = absurd (e refl)
receive-close_out (c ∷ n) bytes sent fs ds e d = rw (d, str_eq_refl (c ∷ n)) refl
