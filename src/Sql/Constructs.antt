-- ===== src/Sql/Constructs.antt =====
-- duckvis/attach.rs: what statement admission asks of a statement.
use swanlake.Prelude.{
  ℕ, suc, Bool, true, false, ◌&&◌, ◌||◌, not, List, [], ◌∷◌, ◌++◌, Option, none, some, ◌==◌,
  if◌then◌else◌, any, Checked, done, ◌>>=◌,
}
use swanlake.Text.{
  Bytes, codes, bytes_eq, eq_ignore_ascii_case, to_ascii_lowercase, starts_with, contains,
}
use swanlake.Sql.Comments.{strip_comments}
use swanlake.Sql.Scan.{Scanned, word, literal, punct, scan}
use swanlake.Sql.Tokens.{tokenize, unquote}

abbrev first_is : Bytes → List Bytes → Bool
first_is keyword [] = false
first_is keyword (t ∷ ts) = eq_ignore_ascii_case t keyword

abbrev rest_of : List Bytes → List Bytes
rest_of [] = []
rest_of (t ∷ ts) = ts

-- The function name of a CALL: its tokens before the argument list, joined.
unfoldable pub call_name : List Bytes → Bytes
unfolding bytes_eq unquote to_ascii_lowercase
call_name [] = []
call_name (t ∷ ts) =
    if bytes_eq t (codes "(") then [] else to_ascii_lowercase (unquote t) ++ call_name ts

-- `name.rsplit('.').next()`
unfoldable pub last_part : Bytes → Bytes → Bytes
last_part part [] = part
last_part part (c ∷ name) = last_part (if c == b'.' then [] else part ++ c ∷ []) name

unfoldable pub call_targets_ducklake : Bytes → Checked Bool
unfolding strip_comments tokenize call_name last_part starts_with eq_ignore_ascii_case
call_targets_ducklake statement = do
  tokens ← tokenize (strip_comments statement)
  done (
      first_is (codes "CALL") tokens
      && starts_with (last_part [] (call_name (rest_of tokens))) (codes "ducklake_"))

-- The bare tokens before the option block.
unfoldable pub secret_head : List Bytes → List Bytes
unfolding bytes_eq eq_ignore_ascii_case
secret_head [] = []
secret_head (t ∷ ts) =
    if bytes_eq t (codes "(") || eq_ignore_ascii_case t (codes "AS") then [] else t ∷ secret_head ts

abbrev has_token : Bytes → List Bytes → Bool
has_token keyword = any (λ t. eq_ignore_ascii_case t keyword)

unfoldable pub creates_persistent_secret : Bytes → Checked Bool
unfolding strip_comments tokenize secret_head eq_ignore_ascii_case
creates_persistent_secret statement = do
  tokens ← tokenize (strip_comments statement)
  let head = secret_head (rest_of tokens)
  done (
      first_is (codes "CREATE") tokens
      && has_token (codes "SECRET") head
      && (has_token (codes "PERSISTENT") head || has_token (codes "IN") head))

-- The loop of `copy_writes_file`. Its `depth` is the number of opening parentheses so far less that
-- of the closing ones.
unfoldable pub copy_sink : ℕ → ℕ → List Bytes → Bool
unfolding bytes_eq eq_ignore_ascii_case
copy_sink opened closed [] = true
copy_sink opened closed (t ∷ ts) =
    let deeper = copy_sink (suc opened) closed ts in
    let back = copy_sink opened (suc closed) ts in
    let next = copy_sink opened closed ts in
    if bytes_eq t (codes "(")
    then deeper
    else if bytes_eq t (codes ")")
    then back
    else if opened == closed && eq_ignore_ascii_case t (codes "TO")
    then true
    else if opened == closed && eq_ignore_ascii_case t (codes "FROM")
    then false
    else next

unfoldable pub copy_writes_file : Bytes → Checked Bool
unfolding strip_comments tokenize copy_sink eq_ignore_ascii_case
copy_writes_file statement = do
  tokens ← tokenize (strip_comments statement)
  done (first_is (codes "COPY") tokens && copy_sink 0 0 (rest_of tokens))

abbrev pub reserved_secret_prefix : Bytes
reserved_secret_prefix = codes "__duckvis_"

abbrev pub non_writer_functions : List Bytes
non_writer_functions =
    codes "postgres_scan"
    ∷ codes "postgres_scan_pushdown"
    ∷ codes "postgres_query"
    ∷ codes "postgres_execute"
    ∷ codes "postgres_attach"
    ∷ codes "query"
    ∷ codes "query_table"
    ∷ codes "json_execute_serialized_sql"
    ∷ []

abbrev pub non_writer_ducklake_functions : List Bytes
non_writer_ducklake_functions =
    codes "ducklake_current_snapshot"
    ∷ codes "ducklake_last_committed_snapshot"
    ∷ codes "ducklake_options"
    ∷ codes "ducklake_settings"
    ∷ codes "ducklake_snapshots"
    ∷ codes "ducklake_table_info"
    ∷ codes "ducklake_table_changes"
    ∷ codes "ducklake_table_insertions"
    ∷ codes "ducklake_table_deletions"
    ∷ []

abbrev pub non_call_predecessors : List Bytes
non_call_predecessors = codes "table" ∷ codes "into" ∷ codes "view" ∷ codes "exists" ∷ []

abbrev pub one_of : List Bytes → Bytes → Bool
one_of names name = any (λ n. bytes_eq n name) names

pub data Refusal : Type 0 where
  reserved_name : Refusal
  non_writer : Bytes → Refusal

unfoldable pub names_reserved : Scanned → Bool
unfolding contains to_ascii_lowercase
names_reserved (word text _) = contains (to_ascii_lowercase text) reserved_secret_prefix
names_reserved (literal text) = contains (to_ascii_lowercase text) reserved_secret_prefix
names_reserved (punct c) = false

unfoldable pub lower_word : Scanned → Option Bytes
unfolding to_ascii_lowercase
lower_word (word text _) = some (to_ascii_lowercase text)
lower_word _ = none

-- The first word behind CREATE that is no modifier.
unfoldable pub created_kind : List Scanned → Option Bytes
unfolding lower_word bytes_eq
created_kind [] = none
created_kind (t ∷ ts) = elim (lower_word t) [
  | none ↦ created_kind ts
  | some w ↦
      (let more = created_kind ts in
        if one_of (codes "or" ∷ codes "replace" ∷ codes "temp" ∷ codes "temporary" ∷ []) w
        then more
        else some w)
]

abbrev refused_kind : Option Bytes → Option Refusal
refused_kind none = none
refused_kind (some w) =
    if bytes_eq w (codes "macro")
    then some (non_writer (codes "CREATE MACRO"))
    else if bytes_eq w (codes "function")
    then some (non_writer (codes "CREATE FUNCTION"))
    else none

unfoldable pub refused_definition : List Scanned → Option Refusal
unfolding created_kind lower_word bytes_eq
refused_definition [] = none
refused_definition (t ∷ ts) = elim (lower_word t) [
  | none ↦ none
  | some w ↦ if bytes_eq w (codes "create") then refused_kind (created_kind ts) else none
]

abbrev opens_call : List Scanned → Bool
opens_call (punct c ∷ ts) = c == b'('
opens_call _ = false

abbrev after_definer : Option Bytes → Bool
after_definer none = false
after_definer (some w) = one_of non_call_predecessors w

-- A round of the last loop, at the word `w` between the word `before` it and the tokens behind it.
unfoldable pub refused_word : Option Bytes → Bytes → List Scanned → Option Refusal
unfolding starts_with bytes_eq
refused_word before w behind =
    if starts_with w (codes "__ducklake_metadata")
    then some (non_writer (codes "__ducklake_metadata catalogs"))
    else if not (opens_call behind) || after_definer before
    then none
    else if one_of non_writer_functions w
    then some (non_writer w)
    else if starts_with w (codes "ducklake_") && not (one_of non_writer_ducklake_functions w)
    then some (non_writer (codes "ducklake_* maintenance and file listing"))
    else none

unfoldable pub refused_word_from : Option Bytes → List Scanned → Option Refusal
unfolding refused_word lower_word
refused_word_from before [] = none
refused_word_from before (t ∷ ts) = elim (lower_word t) [
  | none ↦ refused_word_from none ts
  | some w ↦ elim (refused_word before w ts) [
    | some r ↦ some r
    | none ↦ refused_word_from (some w) ts
  ]
]

unfoldable pub refused_tokens : List Scanned → Bool → Option Refusal
unfolding names_reserved refused_definition refused_word_from
refused_tokens tokens writer =
    if any names_reserved tokens
    then some reserved_name
    else if writer
    then none
    else elim (refused_definition tokens) [ some r ↦ some r | none ↦ refused_word_from none tokens ]

unfoldable pub refused_construct : Bytes → Bool → Option Refusal
unfolding refused_tokens scan strip_comments
refused_construct statement writer = refused_tokens (scan (strip_comments statement)) writer
