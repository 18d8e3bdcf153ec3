-- ===== src/Session/Admission/Total.antt =====
-- Where `validate_user_sql` answers, and where it panics.
use swanlake.Prelude.{
  ℕ, ◌≡◌, refl, ap, inl, inr, ◌∙◌, Bool, true, false, List, [], ◌∷◌, ◌++◌, append_assoc, append-nil,
  Option, none, some, Checked, done, panicked, IsDone, IsDone-bind, All, if◌then◌else◌, Bool-cases,
  head?,
}
use swanlake.Text.{Bytes, IsAscii, latin1}
use swanlake.Error.{ServerError}
use swanlake.Sql.Lexer.{
  Mode, plain, next_mode, is_separator, split_from, split_top_level_statements,
}
use swanlake.Sql.Lexer.Pieces.{split_top_level_statements-All-IsAscii}
use swanlake.Sql.Ascii.{strip_comments-IsAscii, leading_keyword-IsDone, tokenize-IsDone}
use swanlake.Sql.Comments.{strip_comments}
use swanlake.Sql.Constructs.{creates_persistent_secret, call_targets_ducklake, copy_writes_file}
use swanlake.Session.Admission.{
  SessionAuth, Verdict, ◌else_check◌, refuse_if, non_writer_keyword, admit_keyword, admit_statement,
  admit_statements, validate_user_sql,
}

else_check-IsDone : (a b : Verdict) → IsDone a → IsDone b → IsDone (a else_check b)
else_check-IsDone panicked b h k = absurd (cc h.1)
else_check-IsDone (done none) b h k = k
else_check-IsDone (done (some e)) b h k = (some e, refl)

refuse_if-IsDone :
    (t : Bool) (r : Checked Bool) (e : ServerError) → IsDone r → IsDone (refuse_if t r e)
refuse_if-IsDone false r e h = (none, refl)
refuse_if-IsDone true r e h = IsDone-bind r _ h (λ a _. (_, refl))

creates_persistent_secret-IsDone : (s : Bytes) → IsAscii s → IsDone (creates_persistent_secret s)
unfolding creates_persistent_secret
creates_persistent_secret-IsDone s a =
    IsDone-bind _ _ (tokenize-IsDone (strip_comments s) (strip_comments-IsAscii s a))
      (λ ts _. (_, refl))

call_targets_ducklake-IsDone : (s : Bytes) → IsAscii s → IsDone (call_targets_ducklake s)
unfolding call_targets_ducklake
call_targets_ducklake-IsDone s a =
    IsDone-bind _ _ (tokenize-IsDone (strip_comments s) (strip_comments-IsAscii s a))
      (λ ts _. (_, refl))

copy_writes_file-IsDone : (s : Bytes) → IsAscii s → IsDone (copy_writes_file s)
unfolding copy_writes_file
copy_writes_file-IsDone s a =
    IsDone-bind _ _ (tokenize-IsDone (strip_comments s) (strip_comments-IsAscii s a))
      (λ ts _. (_, refl))

non_writer_keyword-IsDone : (k s : Bytes) → IsAscii s → IsDone (non_writer_keyword k s)
unfolding non_writer_keyword
non_writer_keyword-IsDone k s a = else_check-IsDone _ _ (refuse_if-IsDone _ _ _ (true, refl)) (
    else_check-IsDone _ _ (refuse_if-IsDone _ _ _ (call_targets_ducklake-IsDone s a))
      (refuse_if-IsDone _ _ _ (copy_writes_file-IsDone s a)))

non_writer_part-IsDone :
    (writer : Bool) (k s : Bytes)
    → IsAscii s
    → IsDone (if writer then done none else non_writer_keyword k s)
non_writer_part-IsDone true k s a = (none, refl)
non_writer_part-IsDone false k s a = non_writer_keyword-IsDone k s a

admit_keyword-IsDone : (writer : Bool) (k s : Bytes) → IsAscii s → IsDone (admit_keyword writer k s)
unfolding admit_keyword
admit_keyword-IsDone writer k s a = else_check-IsDone _ _ (refuse_if-IsDone _ _ _ (true, refl)) (
    else_check-IsDone _ _ (refuse_if-IsDone _ _ _ (creates_persistent_secret-IsDone s a))
      (else_check-IsDone _ _ (non_writer_part-IsDone writer k s a) (_, refl)))

admit_statement-IsDone : (writer : Bool) (s : Bytes) → IsAscii s → IsDone (admit_statement writer s)
unfolding admit_statement
admit_statement-IsDone writer s a = IsDone-bind _ _ (leading_keyword-IsDone s a) λ k _. go k
  where
    go :
        (k : Option Bytes)
        → IsDone ((elim k [ none ↦ done none | some keyword ↦ admit_keyword writer keyword s ]))
    go none = (none, refl)
    go (some k) = admit_keyword-IsDone writer k s a

admit_statements-IsDone :
    (writer : Bool) (ss : List Bytes) → All IsAscii ss → IsDone (admit_statements writer ss)
unfolding admit_statements
admit_statements-IsDone writer [] h = (none, refl)
admit_statements-IsDone writer (s ∷ ss) (a, h) =
    else_check-IsDone _ _ (admit_statement-IsDone writer s a) (admit_statements-IsDone writer ss h)

-- Of ASCII text the check always comes to an answer: none of its slices panics.
pub validate_user_sql-IsDone :
    (auth : Option SessionAuth) (sql : Bytes) → IsAscii sql → IsDone (validate_user_sql auth sql)
unfolding validate_user_sql
validate_user_sql-IsDone none sql a = (none, refl)
validate_user_sql-IsDone (some auth) sql a =
    admit_statements-IsDone auth.writer _ (split_top_level_statements-All-IsAscii sql a)

-- A segment in progress is the front of the first one.
split_from-front :
    (m : Mode) (c : ℕ) (current rest : Bytes)
    → (more : Bytes) × (ss : List Bytes) × (split_from m (c ∷ current) rest
        ≡ (c ∷ current ++ more) ∷ ss)
unfolding split_from
split_from-front m c current [] = ([], [], simp append-nil)
split_from-front m c current (d ∷ rest) = elim (Bool-cases (is_separator m d)) [
  | inl e ↦ rw (e, split_from) ([], split_from plain [] rest, simp append-nil)
  | inr e ↦
      let (more, ss, eq) =
        split_from-front (next_mode m d (head? rest)) c (current ++ latin1 d) rest in
      rw (e, split_from)
        (latin1 d ++ more, ss, eq ∙ ap (λ t. (c ∷ t) ∷ ss) (append_assoc current (latin1 d) more))
]

letter_statement :
    (rest : Bytes)
    → (more : Bytes) × (ss : List Bytes) × (split_top_level_statements (195 ∷ rest)
        ≡ (195 ∷ 131 ∷ more) ∷ ss)
unfolding split_top_level_statements
letter_statement rest = split_from-front (next_mode plain 195 (head? rest)) 195 (131 ∷ []) rest

-- Any text that begins with a letter from U+00C0 to U+00FF, whose first byte is 195, makes the check
-- of an authed session panic.
pub validate_user_sql-panics :
    (auth : SessionAuth) (rest : Bytes) → validate_user_sql (some auth) (195 ∷ rest) ≡ panicked
unfolding validate_user_sql
validate_user_sql-panics auth rest = let (more, ss, e) = letter_statement rest in rw e
