-- ===== src/Session/Lockdown.antt =====
-- session/mod.rs: `lockdown_sql`.
pub mod Closed
pub mod Presets
pub mod Statements
mod Tests
use swanlake.Prelude.{Bool, true, false, List, [], ◌∷◌, ◌++◌, map, if◌then◌else◌}
use swanlake.Text.{Bytes, codes}
use swanlake.Sql.Quoting.{escape_sql_literal, join}

pub record LockdownTemplate : Type 0 where
  pub scratch_directory : Bytes
  pub scratch_max_size : Bytes

-- `'{}'` around an escaped text, with `behind` behind it.
unfoldable pub literal_then : Bytes → Bytes → Bytes
unfolding escape_sql_literal
literal_then value behind = 39 ∷ escape_sql_literal value ++ 39 ∷ behind

abbrev pub preset_statements : List Bytes
preset_statements =
    codes "SET enable_profiling = 'no_output'"
    ∷ codes
        "SET custom_profiling_settings = '{\"OPERATOR_CPU_TIME\": \"true\", \"CPU_TIME_ACTUAL\": \"true\"}'"
    ∷ codes "SET autoinstall_known_extensions = false"
    ∷ codes "SET autoload_known_extensions = false"
    ∷ codes "SET allow_community_extensions = false"
    ∷ []

-- The roots and the scratch directory, as a list of literals.
unfoldable pub directory_list : Bytes → List Bytes → Bytes
unfolding join literal_then
directory_list scratch roots =
    join (codes ", ") (map (λ dir. literal_then dir []) (roots ++ scratch ∷ []))

unfoldable pub confining_statements : LockdownTemplate → List Bytes → List Bytes
unfolding directory_list literal_then
confining_statements template roots =
    (codes "SET temp_directory = " ++ literal_then template.scratch_directory [])
    ∷ (codes "SET max_temp_directory_size = " ++ literal_then template.scratch_max_size [])
    ∷ (codes "SET allowed_directories = ["
        ++ (directory_list template.scratch_directory roots ++ codes "]"))
    ∷ codes "SET enable_external_access = false"
    ∷ []

-- The block, as the vector that is joined. `roots` is in the order of its set.
unfoldable pub lockdown_block : LockdownTemplate → Bool → List Bytes → List Bytes
unfolding confining_statements
lockdown_block template writer roots =
    preset_statements
    ++ ((if writer then [] else confining_statements template roots)
        ++ codes "SET lock_configuration = true" ∷ [])

unfoldable pub lockdown_sql : LockdownTemplate → Bool → List Bytes → Bytes
unfolding lockdown_block join
lockdown_sql template writer roots = join (codes ";\n") (lockdown_block template writer roots)
