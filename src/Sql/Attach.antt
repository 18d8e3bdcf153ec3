-- ===== src/Sql/Attach.antt =====
-- duckvis/attach.rs: `parse_attach` and `attach_data_path`. `AttachInvalid`, the one error of these,
-- is `none`.
pub mod Normalize
pub mod Rebuild
pub mod ReadOnly
pub mod Secrets
pub mod Neutral
pub mod SecretText
mod Tests
use swanlake.Prelude.{
  ℕ, Bool, true, false, ◌&&◌, ◌||◌, not, List, [], ◌∷◌, ◌++◌, Option, none, some, ◌==◌, leb,
  if◌then◌else◌, is_empty, all, length, Checked, done, panicked, ◌>>=◌,
}
use swanlake.Text.{
  Bytes, codes, bytes_eq, eq_ignore_ascii_case, to_ascii_lowercase, is_ascii_letter,
  is_ascii_alphanumeric, trim,
}
use swanlake.Sql.Lexer.{split_top_level_statements}
use swanlake.Sql.Keyword.{leading_keyword}
use swanlake.Sql.Tokens.{tokenize, unquote}
use swanlake.Sql.Constructs.{reserved_secret_prefix}
use swanlake.Sql.Quoting.{doubled, quote_identifier, join}

pub record ParsedAttach : Type 0 where
  pub path : Bytes
  pub options : Bytes

abbrev pub sticks_left : Bytes → Bool
sticks_left t = bytes_eq t (codes ")") || bytes_eq t (codes ",")

-- The loop of `rebuild_options` behind the token `prev`.
unfoldable pub rebuild_from : Bytes → List Bytes → Bytes
unfolding bytes_eq
rebuild_from prev [] = []
rebuild_from prev (t ∷ ts) =
    (if sticks_left t || bytes_eq prev (codes "(") then t else 32 ∷ t) ++ rebuild_from t ts

unfoldable pub rebuild_options : List Bytes → Bytes
unfolding rebuild_from
rebuild_options [] = []
rebuild_options (t ∷ ts) = t ++ rebuild_from t ts

abbrev pub is_word : Bytes → Bytes → Bool
is_word keyword t = eq_ignore_ascii_case t keyword

unfoldable pub skip_or_replace : List Bytes → List Bytes
unfolding eq_ignore_ascii_case
skip_or_replace (a ∷ b ∷ ts) =
    if is_word (codes "OR") a && is_word (codes "REPLACE") b then ts else a ∷ b ∷ ts
skip_or_replace ts = ts

unfoldable pub skip_database : List Bytes → List Bytes
unfolding eq_ignore_ascii_case
skip_database [] = []
skip_database (a ∷ ts) = if is_word (codes "DATABASE") a then ts else a ∷ ts

unfoldable pub skip_if_not_exists : List Bytes → List Bytes
unfolding eq_ignore_ascii_case
skip_if_not_exists (a ∷ b ∷ c ∷ ts) =
    if is_word (codes "IF") a && is_word (codes "NOT") b && is_word (codes "EXISTS") c
    then ts
    else a ∷ b ∷ c ∷ ts
skip_if_not_exists ts = ts

-- `AS` and the alias behind it, which is no opening parenthesis.
unfoldable pub skip_alias : List Bytes → List Bytes
unfolding bytes_eq eq_ignore_ascii_case
skip_alias [] = []
skip_alias (a ∷ []) = if is_word (codes "AS") a then [] else a ∷ []
skip_alias (a ∷ b ∷ ts) =
    if is_word (codes "AS") a then (if bytes_eq b (codes "(") then b ∷ ts else ts) else a ∷ b ∷ ts

unfoldable pub parsed_options : Bytes → List Bytes → Option ParsedAttach
unfolding rebuild_options bytes_eq
parsed_options path [] = some (record { path = path; options = [] })
parsed_options path (t ∷ ts) =
    if bytes_eq t (codes "(")
    then some (record { path = path; options = rebuild_options (t ∷ ts) })
    else none

unfoldable pub parsed_path : List Bytes → Option ParsedAttach
unfolding parsed_options skip_alias bytes_eq
parsed_path [] = none
parsed_path (path ∷ ts) =
    if bytes_eq path (codes "(") then none else parsed_options path (skip_alias ts)

unfoldable pub parse_tokens : List Bytes → Option ParsedAttach
unfolding parsed_path skip_or_replace skip_database skip_if_not_exists eq_ignore_ascii_case
parse_tokens [] = none
parse_tokens (t ∷ ts) =
    if is_word (codes "ATTACH") t
    then parsed_path (skip_if_not_exists (skip_database (skip_or_replace ts)))
    else none

unfoldable pub parse_attach : Bytes → Checked (Option ParsedAttach)
unfolding parse_tokens tokenize
parse_attach statement = do tokens ← tokenize statement; done (parse_tokens tokens)

unfoldable pub data_path_of : List Bytes → Option Bytes
unfolding unquote eq_ignore_ascii_case
data_path_of [] = none
data_path_of (t ∷ []) = none
data_path_of (t ∷ u ∷ ts) =
    if is_word (codes "DATA_PATH") t then some (unquote u) else data_path_of (u ∷ ts)

unfoldable pub attach_data_path : Bytes → Checked (Option Bytes)
unfolding parse_attach data_path_of tokenize
attach_data_path statement = parse_attach statement >>= elim [
  | none ↦ done none
  | some parsed ↦ tokenize parsed.options >>= λ tokens. done (data_path_of tokens)
]
