-- ===== src/Sql/Attach/Normalize.antt =====
-- duckvis/attach.rs: `enforce_read_only` and `normalize_attach`.
use swanlake.Prelude.{
  Bool, false, not, List, [], ◌∷◌, ◌++◌, Option, none, some, if◌then◌else◌, is_empty, Checked, done,
  ◌>>=◌,
}
use swanlake.Text.{Bytes, codes, bytes_eq, eq_ignore_ascii_case, trim}
use swanlake.Sql.Lexer.{split_top_level_statements}
use swanlake.Sql.Keyword.{leading_keyword}
use swanlake.Sql.Tokens.{tokenize}
use swanlake.Sql.Quoting.{quote_identifier}
use swanlake.Sql.Attach.{ParsedAttach, is_word, rebuild_options, parse_attach}

-- The tokens between the first and the last.
unfoldable pub but_last : List Bytes → List Bytes
but_last [] = []
but_last (t ∷ []) = []
but_last (t ∷ u ∷ ts) = t ∷ but_last (u ∷ ts)

abbrev pub inner_tokens : List Bytes → List Bytes
inner_tokens [] = []
inner_tokens (t ∷ ts) = but_last ts

-- The entries between the commas; `entry` is the last one so far.
unfoldable pub entries_of : List Bytes → List Bytes → List (List Bytes)
unfolding bytes_eq
entries_of entry [] = entry ∷ []
entries_of entry (t ∷ ts) =
    let next = entries_of [] ts in
    let longer = entries_of (entry ++ t ∷ []) ts in
    if bytes_eq t (codes ",") then entry ∷ next else longer

unfoldable pub keeps_entry : List Bytes → Bool
unfolding eq_ignore_ascii_case
keeps_entry [] = false
keeps_entry (t ∷ ts) = not (is_word (codes "READ_ONLY") t)

unfoldable pub retained : List (List Bytes) → List (List Bytes)
unfolding keeps_entry
retained [] = []
retained (entry ∷ es) = let rest = retained es in if keeps_entry entry then entry ∷ rest else rest

-- The option entries of a read-only attachment.
unfoldable pub read_only_entries : List Bytes → List (List Bytes)
unfolding retained entries_of but_last
read_only_entries tokens =
    retained (entries_of [] (inner_tokens tokens)) ++ (codes "READ_ONLY" ∷ []) ∷ []

unfoldable pub with_commas : List (List Bytes) → List Bytes
with_commas [] = []
with_commas (entry ∷ []) = entry
with_commas (entry ∷ e ∷ es) = entry ++ (codes "," ∷ with_commas (e ∷ es))

unfoldable pub enforce_read_only : Bytes → Checked Bytes
unfolding trim tokenize read_only_entries with_commas rebuild_options
enforce_read_only options = elim (trim options) [
  | [] ↦ done (codes "(READ_ONLY)")
  | c ∷ trimmed ↦ (do
    tokens ← tokenize (c ∷ trimmed)
    done (rebuild_options (codes "(" ∷ (with_commas (read_only_entries tokens) ++ codes ")" ∷ []))))
]

unfoldable pub not_blank : List Bytes → List Bytes
unfolding trim
not_blank [] = []
not_blank (s ∷ ss) = let rest = not_blank ss in if is_empty (trim s) then rest else s ∷ rest

abbrev options_suffix : Bytes → Bytes
options_suffix [] = []
options_suffix (c ∷ s) = 32 ∷ c ∷ s

unfoldable pub attach_text : Bytes → Bool → ParsedAttach → Checked (Option Bytes)
unfolding enforce_read_only quote_identifier trim
attach_text name read_only parsed = do
  options ← (if read_only then enforce_read_only parsed.options else done (trim parsed.options))
  done (
      some (
        codes "ATTACH OR REPLACE "
        ++ (parsed.path ++ (codes " AS " ++ (quote_identifier name ++ options_suffix options)))))

abbrev is_attach : Option Bytes → Bool
is_attach none = false
is_attach (some keyword) = bytes_eq keyword (codes "ATTACH")

unfoldable pub normalize_statement : Bytes → Bool → Bytes → Checked (Option Bytes)
unfolding leading_keyword parse_attach attach_text bytes_eq
normalize_statement name read_only statement = do
  keyword ← leading_keyword statement
  if is_attach keyword
      then (parse_attach statement
          >>= elim [ none ↦ done none | some parsed ↦ attach_text name read_only parsed ])
      else done none

unfoldable pub only_statement : List Bytes → Option Bytes
unfolding trim
only_statement (only ∷ []) = some (trim only)
only_statement _ = none

unfoldable pub normalize_attach : Bytes → Bytes → Bool → Checked (Option Bytes)
unfolding normalize_statement only_statement not_blank split_top_level_statements
normalize_attach secret_config name read_only =
    elim (only_statement (not_blank (split_top_level_statements secret_config))) [
      | none ↦ done none
      | some statement ↦ normalize_statement name read_only statement
    ]
