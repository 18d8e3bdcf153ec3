-- ===== src/Service/Parameters/Fits.antt =====
-- service/handlers/prepared.rs: the fields of the parameters.
use swanlake.Prelude.{
  ℕ, zero, suc, ◌+◌, ◌%◌, ◌<◌, ◌≡◌, refl, ap, ◌∙◌, subst, Bool, true, false, not, List, [], ◌∷◌,
  Option, none, some, ◌==◌, if◌then◌else◌, length, All, Checked, done, Bool-cases, inl, inr, arith,
}
use native.Mathlib.Nat.{mod-lt}
use swanlake.Text.{Bytes, eq_ignore_ascii_case}
use swanlake.Error.{Result}
use swanlake.Sql.Syntax.{
  ObjectName, Statement, insert, update, delete, query, show_or_explain, is_insert,
  get_insert_columns, insert_values_all_placeholders, insert_values_shape,
}
use swanlake.Sql.Syntax.Parameters.{parameter_columns}
use swanlake.Service.Parameters.{
  find_field, pushed_if_found, found_fields, nth, field_at, repeated_fields, size_or, some_schema,
  insert_column_fields, insert_fields, compared_fields, with_table, named_table, with_name,
  infer_parameter_schema,
}

-- A schema for `n` parameters, all of its fields with `P`.
abbrev pub IsFor : {F : Type 0} → (F → Type 0) → ℕ → Option (List F) → Type 0
IsFor P n none = Unit
IsFor P n (some schema) = (length schema ≡ n) × All P schema

abbrev pub IsNamed : Option ObjectName → Type 0
IsNamed none = Unit
IsNamed (some parts) = 0 < length parts

-- A table has fields, all of them with `P`.
abbrev pub HasFields : {F : Type 0} → (F → Type 0) → Option (List F) → Type 0
HasFields P none = Unit
HasFields P (some table) = (0 < length table) × All P table

get_insert_columns-filled :
    (s : Statement) (columns : List Bytes)
    → get_insert_columns s ≡ some columns
    → 0 < length columns
get_insert_columns-filled (insert t [] source) columns h = absurd (cc h)
get_insert_columns-filled (insert t (c ∷ cs) source) columns h =
    subst (λ xs. 0 < length xs) {x = c ∷ cs} (cc h) (omega arith)
get_insert_columns-filled (update t assignments selection) columns h = absurd (cc h)
get_insert_columns-filled (delete from selection) columns h = absurd (cc h)
get_insert_columns-filled (query q) columns h = absurd (cc h)
get_insert_columns-filled show_or_explain columns h = absurd (cc h)
get_insert_columns-filled Statement.other columns h = absurd (cc h)

module _ {F : Type 0} (name : F → Bytes) (P : F → Type 0) where
  nth-P :
      (fields : List F) (i : ℕ)
      → i < length fields
      → All P fields
      → (f : F) × (nth name fields i ≡ done f) × P f
  nth-P [] i h a = absurd (omega (arith, h))
  nth-P (f ∷ fields) zero h a = (f, refl, a.0)
  nth-P (f ∷ fields) (suc i) h a = nth-P fields i (omega (arith, h)) a.1

  field_at-P :
      (fields : List F) (i : ℕ)
      → 0 < length fields
      → All P fields
      → (f : F) × (field_at name fields i ≡ done f) × P f
  field_at-P fields i h a =
      let filled : length fields == 0 ≡ false = ground (arith, h) in
      let (f, e, p) = nth-P fields (i % length fields) (mod-lt i h) a in (f, rw filled e, p)

  -- What `repeated_fields` makes.
  abbrev Makes : ℕ → Checked (List F) → Type 0
  Makes n r = (fs : List F) × (r ≡ done fs) × (length fs ≡ n) × All P fs

  repeated_fields-Makes :
      (fields : List F)
      → 0 < length fields
      → All P fields
      → (count i : ℕ) → Makes count (repeated_fields name fields i count)
  unfolding repeated_fields
  repeated_fields-Makes fields h a zero i = ([], refl, refl, tt)
  repeated_fields-Makes fields h a (suc count) i =
      let (f, e, p) = field_at-P fields i h a in
      let (fs, e', l, ps) = repeated_fields-Makes fields h a count (i + 1) in
      (f ∷ fs, rw (e, e') refl, ap suc l, (p, ps))

  find_field-P :
      (fields : List F) (c : Bytes) (f : F) → All P fields → find_field name fields c ≡ some f → P f
  unfolding find_field
  find_field-P [] c f a h = absurd (cc h)
  find_field-P (g ∷ fields) c f a h =
      either (eq_ignore_ascii_case (name g) c) (find_field-P fields c f a.1) h
    where
      either :
          (b : Bool)
          → (find_field name fields c ≡ some f → P f)
          → (if b then some g else find_field name fields c) ≡ some f
          → P f
      either true ih e = subst P {x = g} (cc e) a.0
      either false ih e = ih e

  found_fields-P :
      (fields : List F) (columns : List Bytes)
      → All P fields
      → All P (found_fields name fields columns)
  unfolding found_fields
  found_fields-P fields [] a = tt
  found_fields-P fields (c ∷ columns) a =
      prepended (find_field name fields c) (λ f. find_field-P fields c f a)
        (found_fields-P fields columns a)
    where
      prepended :
          (o : Option F)
          → ((f : F) → o ≡ some f → P f)
          → All P (found_fields name fields columns)
          → All P (pushed_if_found name o (found_fields name fields columns))
      prepended none h ps = ps
      prepended (some f) h ps = (h f refl, ps)

  -- The answer is there, and it is for `n` parameters.
  abbrev pub Answers : ℕ → Checked (Option (List F)) → Type 0
  Answers n r = (schema : Option (List F)) × (r ≡ done schema) × IsFor P n schema

  some-Answers :
      (n count : ℕ) (r : Checked (List F))
      → count ≡ n
      → Makes count r
      → Answers n (some_schema name r)
  some-Answers n count r e (fs, e', l, ps) = (some fs, rw e' refl, (l ∙ e, ps))

  unless_not :
      (n count : ℕ) (r : Checked (Option (List F)))
      → (count ≡ n → Answers n r)
      → Answers n (if not (count == n) then done none else r)
  unless_not n count r h = elim (Bool-cases (count == n)) [
    | inl e ↦ rw e (h (ground (arith, e)))
    | inr e ↦ rw e (none, refl, tt)
  ]

  insert_column_fields-Answers :
      (table : List F) (n : ℕ) (shape : Option (ℕ × ℕ)) (columns : List Bytes)
      → 0 < length columns
      → All P table
      → Answers n (insert_column_fields name table n shape columns)
  insert_column_fields-Answers table n shape columns h a =
      let fields = found_fields name table columns in
      unless_not n (size_or name (length columns) shape) _ (λ e. unless_not_all e)
    where
      unless_not_all :
          size_or name (length columns) shape ≡ n
          → Answers n (
              if not (length (found_fields name table columns) == length columns)
              then done none
              else some_schema name (
                  repeated_fields name
                    (found_fields name table columns)
                    0
                    (size_or name (length (found_fields name table columns)) shape)))
      unless_not_all e =
          elim (Bool-cases (length (found_fields name table columns) == length columns)) [
            | inr f ↦ rw f (none, refl, tt)
            | inl f ↦
                let same : length (found_fields name table columns) ≡ length columns =
                  ground (arith, f) in
                rw f (some_schema-same same e)
          ]
        where
          some_schema-same :
              length (found_fields name table columns) ≡ length columns
              → size_or name (length columns) shape ≡ n
              → Answers n (
                  some_schema name (
                    repeated_fields name
                      (found_fields name table columns)
                      0
                      (size_or name (length (found_fields name table columns)) shape)))
          some_schema-same same e =
              some-Answers n (size_or name (length (found_fields name table columns)) shape) _
                (ap (λ l. size_or name l shape) same ∙ e)
                (repeated_fields-Makes (found_fields name table columns) (omega (arith, same, h))
                  (found_fields-P table columns a) _ 0)

  insert_fields-Answers :
      (table : List F) (n : ℕ) (shape : Option (ℕ × ℕ)) (columns : Option (List Bytes))
      → ((cs : List Bytes) → columns ≡ some cs → 0 < length cs)
      → 0 < length table
      → All P table
      → Answers n (insert_fields name table n shape columns)
  insert_fields-Answers table n shape (some cs) named h a =
      insert_column_fields-Answers table n shape cs (named cs refl) a
  insert_fields-Answers table n shape none named h a =
      unless_not n (size_or name (length table) shape) _
        (λ e. some-Answers n _ _ e (repeated_fields-Makes table h a _ 0))

  compared_fields-IsFor :
      (table : List F) (n : ℕ) (columns : Option (List Bytes))
      → All P table
      → IsFor P n (compared_fields name table n columns)
  compared_fields-IsFor table n none a = tt
  compared_fields-IsFor table n (some cs) a =
      elim (Bool-cases (length (found_fields name table cs) == n)) [
        | inl e ↦ rw e (ground (arith, e), found_fields-P table cs a)
        | inr e ↦ rw e tt
      ]

  with_table-Answers :
      (n : ℕ) (s : Statement) (o : Option (List F))
      → HasFields P o
      → Answers n (with_table name n s o)
  with_table-Answers n s none h = (none, refl, tt)
  with_table-Answers n s (some table) (h, a) =
      answers (is_insert s) (insert_values_all_placeholders s)
    where
      answers :
          (b all : Bool)
          → Answers n (
              if b
              then (if not all
                  then done none
                  else insert_fields name table n (insert_values_shape s) (get_insert_columns s))
              else done (compared_fields name table n (parameter_columns s)))
      answers true true =
          insert_fields-Answers table n (insert_values_shape s) (get_insert_columns s)
            (get_insert_columns-filled s) h a
      answers true false = (none, refl, tt)
      answers false all = (_, refl, compared_fields-IsFor table n (parameter_columns s) a)

  -- The name of the statement's table has a part, and each table has a field. Then the schema of the
  -- parameters is worked out without a panic, and if there is one it has a field for each of the
  -- parameters, all of them fields of the table (whatever `P` all fields of the tables have).
  pub infer_parameter_schema-Answers :
      (current : Result Bytes) (table_schema : Bytes → Option (List F)) (s : Statement)
      (param_count : ℕ)
      → IsNamed (named_table name s)
      → ((table : Bytes) → HasFields P (table_schema table))
      → Answers param_count (infer_parameter_schema name current table_schema (some s) param_count)
  unfolding infer_parameter_schema
  infer_parameter_schema-Answers current table_schema s n named tables =
      go (named_table name s) named
    where
      go :
          (o : Option ObjectName)
          → IsNamed o
          → Answers n (with_name name current table_schema n s o)
      go none h = (none, refl, tt)
      go (some []) h = absurd (omega (arith, h))
      go (some (table ∷ [])) h = with_table-Answers n s (table_schema _) (tables _)
      go (some (catalog ∷ table ∷ parts)) h = with_table-Answers n s (table_schema _) (tables _)
