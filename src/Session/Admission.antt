-- ===== src/Session/Admission.antt =====
-- session/mod.rs: `validate_user_sql`.
pub mod Spec
pub mod Total
mod Tests
use swanlake.Prelude.{
  ℕ, Bool, true, false, ◌&&◌, ◌||◌, not, List, [], ◌∷◌, Option, none, some, if◌then◌else◌, Checked,
  done, panicked, ◌>>=◌,
}
use swanlake.Text.{Bytes, codes, bytes_eq}
use swanlake.Error.{
  ServerError, attach_not_permitted, persistent_secret_not_permitted, write_not_permitted,
  reserved_name_not_permitted,
}
use swanlake.Sql.Lexer.{split_top_level_statements}
use swanlake.Sql.Keyword.{leading_keyword}
use swanlake.Sql.Constructs.{
  Refusal, reserved_name, non_writer, refused_construct, creates_persistent_secret,
  call_targets_ducklake, copy_writes_file,
}

pub record SessionAuth : Type 0 where
  pub subject : Bytes
  pub project_id : Bytes
  pub writer : Bool

-- `None` admits; an early return with an error ends the check.
abbrev pub Verdict : Type 0
Verdict = Checked (Option ServerError)

infixr 6 ◌else_check◌
abbrev pub ◌else_check◌ : Verdict → Verdict → Verdict
panicked else_check k = panicked
done none else_check k = k
done (some e) else_check k = done (some e)

abbrev pub refuse_if : Bool → Checked Bool → ServerError → Verdict
refuse_if false refused e = done none
refuse_if true refused e = refused >>= λ r. done (if r then some e else none)

unfoldable pub non_writer_keyword : Bytes → Bytes → Verdict
unfolding bytes_eq call_targets_ducklake copy_writes_file
non_writer_keyword keyword statement =
    refuse_if (bytes_eq keyword (codes "EXPORT")) (done true)
      (write_not_permitted (codes "EXPORT DATABASE"))
    else_check refuse_if (bytes_eq keyword (codes "CALL")) (call_targets_ducklake statement)
        (write_not_permitted (codes "CALL ducklake_*"))
    else_check refuse_if (bytes_eq keyword (codes "COPY")) (copy_writes_file statement)
        (write_not_permitted (codes "COPY to a file"))

abbrev pub refusal_error : Option Refusal → Option ServerError
refusal_error none = none
refusal_error (some reserved_name) = some reserved_name_not_permitted
refusal_error (some (non_writer what)) = some (write_not_permitted what)

unfoldable pub admit_keyword : Bool → Bytes → Bytes → Verdict
unfolding bytes_eq creates_persistent_secret non_writer_keyword refused_construct
admit_keyword writer keyword statement =
    refuse_if (bytes_eq keyword (codes "ATTACH")) (done true) attach_not_permitted
    else_check refuse_if (bytes_eq keyword (codes "CREATE")) (creates_persistent_secret statement)
        persistent_secret_not_permitted
    else_check (if writer then done none else non_writer_keyword keyword statement)
    else_check done (refusal_error (refused_construct statement writer))

-- A round of the loop; a statement without a keyword is passed over.
unfoldable pub admit_statement : Bool → Bytes → Verdict
unfolding leading_keyword admit_keyword
admit_statement writer statement =
    leading_keyword statement
    >>= elim [ none ↦ done none | some keyword ↦ admit_keyword writer keyword statement ]

unfoldable pub admit_statements : Bool → List Bytes → Verdict
unfolding admit_statement
admit_statements writer [] = done none
admit_statements writer (s ∷ ss) = admit_statement writer s else_check admit_statements writer ss

unfoldable pub validate_user_sql : Option SessionAuth → Bytes → Verdict
unfolding admit_statements split_top_level_statements
validate_user_sql none sql = done none
validate_user_sql (some auth) sql = admit_statements auth.writer (split_top_level_statements sql)
