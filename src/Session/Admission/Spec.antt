-- ===== src/Session/Admission/Spec.antt =====
-- What `validate_user_sql` lets through, statement by statement.
use swanlake.Prelude.{
  ◌≡◌, refl, sym, ap, subst, ◌≢◌, ◌⊎◌, inl, inr, ◌↔◌, Bool, true, false, List, [], ◌∷◌, Option,
  none, some, arith, Checked, done, panicked, All, if◌then◌else◌,
}
use swanlake.Text.{Bytes, codes, bytes_eq, bytes_eq_iff}
use swanlake.Error.{ServerError}
use swanlake.Sql.Lexer.{split_top_level_statements}
use swanlake.Sql.Keyword.{leading_keyword}
use swanlake.Sql.Constructs.{
  Refusal, refused_construct, creates_persistent_secret, call_targets_ducklake, copy_writes_file,
}
use swanlake.Session.Admission.{
  SessionAuth, Verdict, ◌else_check◌, refuse_if, non_writer_keyword, refusal_error, admit_keyword,
  admit_statement, admit_statements, validate_user_sql,
}

-- What holds of an admitted statement with the keyword `keyword`.
pub record IsAllowed (writer : Bool) (keyword statement : Bytes) : Type 0 where
  pub no_attach : keyword ≢ codes "ATTACH"
  pub no_persistent_secret :
      keyword ≡ codes "CREATE" → creates_persistent_secret statement ≡ done false
  pub no_export : writer ≡ false → keyword ≢ codes "EXPORT"
  pub no_ducklake_call :
      writer ≡ false → keyword ≡ codes "CALL" → call_targets_ducklake statement ≡ done false
  pub no_file_sink :
      writer ≡ false → keyword ≡ codes "COPY" → copy_writes_file statement ≡ done false
  pub no_construct : refused_construct statement writer ≡ none

abbrev pub IsAdmitted : Bool → Bytes → Type 0
IsAdmitted writer statement =
    (leading_keyword statement ≡ done none)
    ⊎ ((keyword : Bytes) × (leading_keyword statement ≡ done (some keyword))
        × IsAllowed writer keyword statement)

else_check_none :
    (a b : Verdict) → ((a else_check b) ≡ done none) ↔ ((a ≡ done none) × (b ≡ done none))
else_check_none panicked b = ((λ e. cc), (λ e. cc))
else_check_none (done none) b = ((λ e. (refl, e)), (λ e. e.1))
else_check_none (done (some e)) b = ((λ e. cc), (λ e. cc))

test_none :
    (k w : Bytes) (c : Checked Bool) (e : ServerError)
    → (refuse_if (bytes_eq k w) c e ≡ done none) ↔ (k ≡ w → c ≡ done false)
test_none k w panicked e = ground (arith, bytes_eq_iff k w)
test_none k w (done true) e = ground (arith, bytes_eq_iff k w)
test_none k w (done false) e = ground (arith, bytes_eq_iff k w)

false_of_test :
    (k w : Bytes) (e : ServerError) → (refuse_if (bytes_eq k w) (done true) e ≡ done none) ↔ (k ≢ w)
false_of_test k w e = ground (arith, bytes_eq_iff k w)

refusal_error-none : (r : Option Refusal) → (refusal_error r ≡ none) ↔ (r ≡ none)
refusal_error-none r = ground arith

non_writer_keyword-none :
    (k s : Bytes)
    → (non_writer_keyword k s ≡ done none) ↔ (
        (k ≢ codes "EXPORT")
        × (k ≡ codes "CALL" → call_targets_ducklake s ≡ done false)
        × (k ≡ codes "COPY" → copy_writes_file s ≡ done false))
unfolding non_writer_keyword
non_writer_keyword-none k s = (
  (λ h.
      let (a, b) = (else_check_none _ _).0 h in
      let (c, d) = (else_check_none _ _).0 b in
      ((false_of_test _ _ _).0 a, (test_none _ _ _ _).0 c, (test_none _ _ _ _).0 d)),
  (λ (a, c, d). (else_check_none _ _).1 (
    (false_of_test _ _ _).1 a,
    (else_check_none _ _).1 ((test_none _ _ _ _).1 c, (test_none _ _ _ _).1 d),
  )),
)

of_non_writer :
    (writer : Bool) (v : Verdict)
    → (if writer then done none else v) ≡ done none
    → writer ≡ false
    → v ≡ done none
of_non_writer true v h w = cc
of_non_writer false v h w = h

done_injective : {r r' : Option ServerError} → done r ≡ done r' → r ≡ r'
done_injective h = cc

admit_keyword_sound :
    (writer : Bool) (k s : Bytes) → admit_keyword writer k s ≡ done none → IsAllowed writer k s
unfolding admit_keyword
admit_keyword_sound writer k s h =
    let (a, b) = (else_check_none _ _).0 h in
    let (c, d) = (else_check_none _ _).0 b in
    let (e, f) = (else_check_none _ _).0 d in
    record {
      no_attach = (false_of_test _ _ _).0 a;
      no_persistent_secret = (test_none _ _ _ _).0 c;
      no_export = λ w. ((non_writer_keyword-none k s).0 (of_non_writer writer _ e w)).0;
      no_ducklake_call = λ w. ((non_writer_keyword-none k s).0 (of_non_writer writer _ e w)).1;
      no_file_sink = λ w. ((non_writer_keyword-none k s).0 (of_non_writer writer _ e w)).2;
      no_construct = (refusal_error-none _).0 (done_injective f);
    }

non_writer_part :
    (writer : Bool) (k s : Bytes)
    → IsAllowed writer k s
    → (if writer then done none else non_writer_keyword k s) ≡ done none
non_writer_part true k s a = refl
non_writer_part false k s a =
    (non_writer_keyword-none k s).1 (a.no_export refl, a.no_ducklake_call refl, a.no_file_sink refl)

admit_keyword_complete :
    (writer : Bool) (k s : Bytes) → IsAllowed writer k s → admit_keyword writer k s ≡ done none
unfolding admit_keyword
admit_keyword_complete writer k s a = (else_check_none _ _).1 (
  (false_of_test _ _ _).1 a.no_attach,
  (else_check_none _ _).1 (
    (test_none _ _ _ _).1 a.no_persistent_secret,
    (else_check_none _ _).1
        (non_writer_part writer k s a, ap done ((refusal_error-none _).1 a.no_construct)),
  ),
)

keyword_injective : {k k' : Bytes} → done (some k) ≡ done (some k') → k ≡ k'
keyword_injective h = cc

admit_statement_iff :
    (writer : Bool) (s : Bytes) → (admit_statement writer s ≡ done none) ↔ IsAdmitted writer s
unfolding admit_statement
admit_statement_iff writer s = go (leading_keyword s) refl
  where
    go :
        (r : Checked (Option Bytes))
        → leading_keyword s ≡ r
        → (admit_statement writer s ≡ done none) ↔ IsAdmitted writer s
    go panicked e = rw (e, admit_statement) ((λ h. cc), ground arith)
    go (done none) e = rw (e, admit_statement) ((λ h. inl refl), (λ h. refl))
    go (done (some k)) e =
        rw (e, admit_statement)
          (
            (λ h. inr (k, refl, admit_keyword_sound writer k s h)),
            elim [
              | inl f ↦ cc
              | inr (k', f, a) ↦
                  admit_keyword_complete writer k s
                    (subst (λ x. IsAllowed writer x s) (keyword_injective (sym f)) a)
            ],
          )

admit_statements_iff :
    (writer : Bool) (ss : List Bytes)
    → (admit_statements writer ss ≡ done none) ↔ All (IsAdmitted writer) ss
unfolding admit_statements
admit_statements_iff writer [] = ((λ h. tt), (λ h. refl))
admit_statements_iff writer (s ∷ ss) = (
  (λ h.
      let (a, b) = (else_check_none _ _).0 h in
      ((admit_statement_iff writer s).0 a, (admit_statements_iff writer ss).0 b)),
  (λ (a, b).
      (else_check_none _ _).1
        ((admit_statement_iff writer s).1 a, (admit_statements_iff writer ss).1 b)),
)

-- In an authed session `validate_user_sql` admits a text exactly when each statement of its split
-- is admitted: it has no keyword, or its keyword is not ATTACH, it creates no persistent secret, it
-- has no refused construct, and, in a non-writer session, it is no EXPORT, no CALL of a ducklake
-- function and no COPY to a file.
pub validate_user_sql_iff :
    (auth : SessionAuth) (sql : Bytes)
    → (validate_user_sql (some auth) sql ≡ done none)
      ↔ All (IsAdmitted auth.writer) (split_top_level_statements sql)
unfolding validate_user_sql
validate_user_sql_iff auth sql = admit_statements_iff auth.writer (split_top_level_statements sql)
