-- ===== src/Session/Lockdown/Tests.antt =====
-- The block of a non-writer session, with quotes and semicolons in its directories.
use swanlake.Prelude.{◌≡◌, refl, false, [], ◌∷◌, arith}
use swanlake.Text.{codes}
use swanlake.Sql.Lexer.{split_top_level_statements}
use swanlake.Session.Lockdown.{LockdownTemplate, directory_list, lockdown_block, lockdown_sql}
use swanlake.Session.Lockdown.Closed.{on_lines}
use swanlake.Session.Lockdown.Statements.{split-lockdown_sql}

abbrev template : LockdownTemplate
template = record { scratch_directory = codes "/s'; x"; scratch_max_size = codes "1GB" }

directories :
    directory_list template.scratch_directory (codes "a" ∷ codes "b'" ∷ [])
    ≡ codes "'a', 'b''', '/s''; x'"
unfolding directory_list
directories = refl

split-lockdown_sql_example :
    split_top_level_statements (lockdown_sql template false (codes "/lake';" ∷ []))
    ≡ on_lines (lockdown_block template false (codes "/lake';" ∷ []))
split-lockdown_sql_example =
    split-lockdown_sql template false (codes "/lake';" ∷ [])
      (record { directory = omega arith; size = omega arith }) (omega arith)
