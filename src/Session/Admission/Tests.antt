-- ===== src/Session/Admission/Tests.antt =====
-- Runs of statement admission.
use swanlake.Prelude.{
  ◌≡◌, refl, ◌↔◌, true, false, none, some, done, panicked, IsDone, All, [], ◌∷◌, arith,
}
use swanlake.Text.{codes}
use swanlake.Error.{
  attach_not_permitted, write_not_permitted, reserved_name_not_permitted,
  persistent_secret_not_permitted,
}
use swanlake.Sql.Lexer.{split_top_level_statements}
use swanlake.Session.Admission.Spec.{IsAdmitted, validate_user_sql_iff}
use swanlake.Session.Admission.Total.{validate_user_sql-IsDone, validate_user_sql-panics}
use swanlake.Session.Admission.{SessionAuth, validate_user_sql}

abbrev reader : SessionAuth
reader = record { subject = codes "u"; project_id = codes "p"; writer = false }

abbrev author : SessionAuth
author = record { subject = codes "u"; project_id = codes "p"; writer = true }

attach_refused :
    validate_user_sql (some author) (codes "SELECT ';'; /* x; */ attach 'a' AS b")
    ≡ done (some attach_not_permitted)
unfolding validate_user_sql
attach_refused = refl

copy_refused :
    validate_user_sql (some reader) (codes "COPY t TO 'x.csv'")
    ≡ done (some (write_not_permitted (codes "COPY to a file")))
unfolding validate_user_sql
copy_refused = refl

copy_admitted : validate_user_sql (some reader) (codes "COPY t FROM 'x.csv'") ≡ done none
unfolding validate_user_sql
copy_admitted = refl

secret_refused :
    validate_user_sql (some author) (codes "CREATE PERSISTENT SECRET s (TYPE s3)")
    ≡ done (some persistent_secret_not_permitted)
unfolding validate_user_sql
secret_refused = refl

call_refused :
    validate_user_sql (some reader) (codes "select * from query ('x')")
    ≡ done (some (write_not_permitted (codes "query")))
unfolding validate_user_sql
call_refused = refl

reserved_refused :
    validate_user_sql (some author) (codes "select '__Duckvis_a'")
    ≡ done (some reserved_name_not_permitted)
unfolding validate_user_sql
reserved_refused = refl

-- A table named by the letter U+00E0.
letter_panics : validate_user_sql (some author) (195 ∷ 160 ∷ []) ≡ panicked
unfolding validate_user_sql
letter_panics = refl

validate_user_sql_iff_example :
    (validate_user_sql (some reader) (codes "COPY t FROM 'x'; SELECT 1") ≡ done none)
    ↔ All (IsAdmitted false) (split_top_level_statements (codes "COPY t FROM 'x'; SELECT 1"))
validate_user_sql_iff_example = validate_user_sql_iff reader (codes "COPY t FROM 'x'; SELECT 1")

validate_user_sql-IsDone_example : IsDone (validate_user_sql (some reader) (codes "CALL x ('a')"))
validate_user_sql-IsDone_example =
    validate_user_sql-IsDone (some reader) (codes "CALL x ('a')") (omega arith)

validate_user_sql-panics_example :
    validate_user_sql (some author) (195 ∷ 160 ∷ codes " IS NULL") ≡ panicked
validate_user_sql-panics_example = validate_user_sql-panics author (160 ∷ codes " IS NULL")
