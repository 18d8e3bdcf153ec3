-- ===== src/Service/Parameters.antt =====
-- service/handlers/prepared.rs: `infer_parameter_schema`, with `resolve_catalog_and_table` of
-- session/mod.rs. The parsed text, the current catalog and the schemas of tables are arguments.
pub mod Fits
mod Tests
use swanlake.Prelude.{
  ℕ, zero, suc, ◌+◌, ◌*◌, ◌%◌, ◌≡◌, Bool, true, false, not, List, [], ◌∷◌, ◌++◌, Option, none, some,
  ◌==◌, if◌then◌else◌, length, Checked, done, panicked, ◌>>=◌,
}
use swanlake.Text.{Bytes, codes, eq_ignore_ascii_case}
use swanlake.Error.{Result, ok, err}
use swanlake.Sql.Syntax.{
  ObjectName, Statement, is_insert, get_insert_table, get_statement_table, get_insert_columns,
  insert_values_all_placeholders, insert_values_shape,
}
use swanlake.Sql.Syntax.Parameters.{parameter_columns}

abbrev pub default_catalog : Bytes
default_catalog = codes "swanlake"

abbrev catalog_or : Bytes → Result Bytes → Bytes
catalog_or d (err e) = d
catalog_or d (ok catalog) = if eq_ignore_ascii_case catalog (codes "memory") then d else catalog

-- `parts[0]` panics if the name has no part.
unfoldable pub resolve_catalog_and_table :
    Result Bytes → ObjectName → Bytes → Checked (Bytes × Bytes)
unfolding eq_ignore_ascii_case
resolve_catalog_and_table current [] d = panicked
resolve_catalog_and_table current (table ∷ []) d = done (catalog_or d current, table)
resolve_catalog_and_table current (catalog ∷ table ∷ parts) d = done (catalog, table)

module _ {F : Type 0} (name : F → Bytes) where
  unfoldable pub find_field : List F → Bytes → Option F
  unfolding eq_ignore_ascii_case
  find_field [] column = none
  find_field (f ∷ fields) column =
      let rest = find_field fields column in
      if eq_ignore_ascii_case (name f) column then some f else rest

  abbrev pub pushed_if_found : Option F → List F → List F
  pushed_if_found none fs = fs
  pushed_if_found (some f) fs = f ∷ fs

  -- `columns.iter().filter_map(|name| find_field(schema, name))`
  unfoldable pub found_fields : List F → List Bytes → List F
  unfolding find_field
  found_fields fields [] = []
  found_fields fields (c ∷ columns) =
      pushed_if_found (find_field fields c) (found_fields fields columns)

  abbrev pub nth : List F → ℕ → Checked F
  nth [] i = panicked
  nth (f ∷ fields) zero = done f
  nth (f ∷ fields) (suc i) = nth fields i

  -- `fields[idx % fields.len()]`; a remainder by zero panics.
  abbrev pub field_at : List F → ℕ → Checked F
  field_at fields i = if length fields == 0 then panicked else nth fields (i % length fields)

  -- The fields for `i`, `i + 1` and so on.
  unfoldable pub repeated_fields : List F → ℕ → ℕ → Checked (List F)
  repeated_fields fields i zero = done []
  repeated_fields fields i (suc count) = do
    f ← field_at fields i
    rest ← repeated_fields fields (i + 1) count
    done (f ∷ rest)

  abbrev pub size_or : ℕ → Option (ℕ × ℕ) → ℕ
  size_or d none = d
  size_or d (some shape) = shape.0 * shape.1

  abbrev pub some_schema : Checked (List F) → Checked (Option (List F))
  some_schema r = do fields ← r; done (some fields)

  abbrev pub insert_column_fields :
      List F → ℕ → Option (ℕ × ℕ) → List Bytes → Checked (Option (List F))
  insert_column_fields table param_count shape columns =
      let fields = found_fields table columns in
      if not (size_or (length columns) shape == param_count)
      then done none
      else if not (length fields == length columns)
      then done none
      else some_schema (repeated_fields fields 0 (size_or (length fields) shape))

  abbrev pub insert_fields :
      List F → ℕ → Option (ℕ × ℕ) → Option (List Bytes) → Checked (Option (List F))
  insert_fields table param_count shape (some columns) =
      insert_column_fields table param_count shape columns
  insert_fields table param_count shape none =
      if not (size_or (length table) shape == param_count)
      then done none
      else some_schema (repeated_fields table 0 (size_or (length table) shape))

  abbrev pub compared_fields : List F → ℕ → Option (List Bytes) → Option (List F)
  compared_fields table param_count none = none
  compared_fields table param_count (some columns) =
      if not (length (found_fields table columns) == param_count)
      then none
      else some (found_fields table columns)

  abbrev pub with_table : ℕ → Statement → Option (List F) → Checked (Option (List F))
  with_table param_count s none = done none
  with_table param_count s (some table) =
      if is_insert s
      then (if not (insert_values_all_placeholders s)
          then done none
          else insert_fields table param_count (insert_values_shape s) (get_insert_columns s))
      else done (compared_fields table param_count (parameter_columns s))

  abbrev pub named_table : Statement → Option ObjectName
  named_table s = if is_insert s then get_insert_table s else get_statement_table s

  abbrev pub with_name :
      Result Bytes
      → (Bytes → Option (List F))
      → ℕ
      → Statement
      → Option ObjectName
      → Checked (Option (List F))
  with_name current table_schema param_count s none = done none
  with_name current table_schema param_count s (some parts) = do
    pair ← resolve_catalog_and_table current parts default_catalog
    with_table param_count s (table_schema (pair.0 ++ (codes "." ++ pair.1)))

  unfoldable pub infer_parameter_schema :
      Result Bytes → (Bytes → Option (List F)) → Option Statement → ℕ → Checked (Option (List F))
  unfolding repeated_fields found_fields resolve_catalog_and_table parameter_columns
      insert_values_shape
  infer_parameter_schema current table_schema none param_count = done none
  infer_parameter_schema current table_schema (some s) param_count =
      with_name current table_schema param_count s (named_table s)
