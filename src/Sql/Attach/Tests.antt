-- ===== src/Sql/Attach/Tests.antt =====
-- Runs of the normalisation of ATTACH, those of the source's own tests among them.
use swanlake.Prelude.{◌≡◌, refl, true, false, none, some, done, List, [], ◌∷◌, ◌++◌, All, arith}
use swanlake.Text.{Bytes, codes, bytes_eq, trim}
use swanlake.Sql.Lexer.{split_top_level_statements}
use swanlake.Sql.Tokens.{tokenize, ends_bare}
use swanlake.Sql.Attach.{attach_data_path, rebuild_options}
use swanlake.Sql.Attach.Normalize.{normalize_attach, enforce_read_only}
use swanlake.Sql.Attach.Rebuild.{IsToken, mark, word, tokenize-rebuild_options}
use swanlake.Sql.Attach.Secrets.{secret_statement}
use swanlake.Sql.Attach.SecretText.{secret_statement-IsOneStatement}
use swanlake.Sql.Attach.ReadOnly.{option_tokens, others, enforce_read_only_flags}

keeps_options :
    normalize_attach
      (codes "ATTACH 'pg.db' AS pg (TYPE postgres, READ_ONLY)")
      (codes "warehouse")
      false
    ≡ done (some (codes "ATTACH OR REPLACE 'pg.db' AS \"warehouse\" (TYPE postgres, READ_ONLY)"))
unfolding normalize_attach
keeps_options = refl

overrides_read_only :
    normalize_attach
      (codes "attach if not exists 'a;b' (read_only false, TYPE duckdb);")
      (codes "x")
      true
    ≡ done (some (codes "ATTACH OR REPLACE 'a;b' AS \"x\" (TYPE duckdb, READ_ONLY)"))
unfolding normalize_attach
overrides_read_only = refl

two_statements : normalize_attach (codes "ATTACH 'a'; DROP TABLE t") (codes "x") false ≡ done none
unfolding normalize_attach
two_statements = refl

data_path :
    attach_data_path (codes "ATTACH 'm' AS x (DATA_PATH 's3://b/')") ≡ done (some (codes "s3://b/"))
unfolding attach_data_path
data_path = refl

-- A path with the letter U+00E9 is not kept: its bytes are read as characters twice.
path_changes :
    normalize_attach (codes "ATTACH '" ++ (195 ∷ 169 ∷ codes "'")) (codes "x") false
    ≡ done (
        some (
          codes "ATTACH OR REPLACE '"
          ++ (195 ∷ 131 ∷ 194 ∷ 131 ∷ 195 ∷ 130 ∷ 194 ∷ 169 ∷ codes "' AS \"x\"")))
unfolding normalize_attach
path_changes = refl

abbrev weak : Bytes
weak = codes "(read_only false, TYPE duckdb)"

abbrev weak_entries : List (List Bytes)
weak_entries = (codes "read_only" ∷ codes "false" ∷ []) ∷ (codes "TYPE" ∷ codes "duckdb" ∷ []) ∷ []

abbrev weak_tokens : List Bytes
weak_tokens = option_tokens weak_entries

weak-IsToken : All IsToken weak_tokens
unfolding ends_bare
weak-IsToken = (
  mark 40 refl,
  (
    word 114 (codes "ead_only") (ground arith) (ground arith),
    (
      word 102 (codes "alse") (ground arith) (ground arith),
      (
        mark 44 refl,
        (
          word 84 (codes "YPE") (ground arith) (ground arith),
          (word 100 (codes "uckdb") (ground arith) (ground arith), (mark 41 refl, tt)),
        ),
      ),
    ),
  ),
)

tokenize-rebuild_options_example : tokenize (rebuild_options weak_tokens) ≡ done weak_tokens
tokenize-rebuild_options_example = tokenize-rebuild_options weak_tokens weak-IsToken

weak_entries-IsToken : All (All IsToken) weak_entries
unfolding ends_bare
weak_entries-IsToken =
    let (_, (a, (b, (_, (c, (d, _)))))) = weak-IsToken in ((a, (b, tt)), ((c, (d, tt)), tt))

enforce_read_only_flags_example :
    (text : Bytes) × (enforce_read_only weak ≡ done text)
    × (tokenize text
        ≡ done
            (option_tokens ((codes "TYPE" ∷ codes "duckdb" ∷ []) ∷ (codes "READ_ONLY" ∷ []) ∷ [])))
unfolding trim tokenize bytes_eq others
enforce_read_only_flags_example =
    enforce_read_only_flags weak weak (codes "read_only" ∷ codes "false" ∷ [])
      ((codes "TYPE" ∷ codes "duckdb" ∷ []) ∷ []) refl refl refl weak_entries-IsToken
      ((refl, (refl, tt)), ((refl, (refl, tt)), tt))

enforced : enforce_read_only weak ≡ done (codes "(TYPE duckdb, READ_ONLY)")
unfolding enforce_read_only
enforced = refl

abbrev secret_name : Bytes
secret_name = codes "__duckvis_0123456789abcdef0123456789abcdef"

-- The value of the field tries to end its literal.
abbrev secret_sql : Bytes
secret_sql =
    codes
      "CREATE OR REPLACE TEMPORARY SECRET __duckvis_0123456789abcdef0123456789abcdef (TYPE postgres, password 'a'';DROP TABLE t;--')"

secret_statement-IsOneStatement_example : split_top_level_statements secret_sql ≡ secret_sql ∷ []
unfolding secret_statement
secret_statement-IsOneStatement_example =
    secret_statement-IsOneStatement secret_name (codes "Postgres")
      ((codes "password", codes "a';DROP TABLE t;--") ∷ []) secret_sql (ground arith, tt) refl
