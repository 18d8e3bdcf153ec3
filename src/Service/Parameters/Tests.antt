-- ===== src/Service/Parameters/Tests.antt =====
-- A table of two columns; a field is its name.
use swanlake.Prelude.{◌≡◌, refl, List, [], ◌∷◌, Option, some, done, arith, ◌<◌, length}
use swanlake.Text.{Bytes, codes, eq_ignore_ascii_case, bytes_eq, to_ascii_lowercase}
use swanlake.Error.{ok}
use swanlake.Sql.Syntax.{placeholder, values, Statement, insert, insert_values_shape}
use swanlake.Service.Parameters.{
  resolve_catalog_and_table, infer_parameter_schema, find_field, found_fields, repeated_fields,
}
use swanlake.Service.Parameters.Fits.{Answers, infer_parameter_schema-Answers}

abbrev as_name : Bytes → Bytes
as_name f = f

abbrev pair_table : Bytes → Option (List Bytes)
pair_table q = some (codes "Id" ∷ codes "name" ∷ [])

abbrev two_rows : Statement
two_rows = insert (some (codes "t" ∷ [])) (codes "name" ∷ codes "id" ∷ []) (
    some (record {
      body = values ((placeholder ∷ placeholder ∷ []) ∷ (placeholder ∷ placeholder ∷ []) ∷ []);
      text = [];
    }))

in_order :
    infer_parameter_schema as_name (ok (codes "memory")) pair_table (some two_rows) 4
    ≡ done (some (codes "name" ∷ codes "Id" ∷ codes "name" ∷ codes "Id" ∷ []))
unfolding infer_parameter_schema found_fields find_field repeated_fields resolve_catalog_and_table
    insert_values_shape eq_ignore_ascii_case bytes_eq to_ascii_lowercase
in_order = refl

unqualified :
    resolve_catalog_and_table (ok (codes "MEMORY")) (codes "t" ∷ []) (codes "swanlake")
    ≡ done (codes "swanlake", codes "t")
unfolding resolve_catalog_and_table eq_ignore_ascii_case bytes_eq to_ascii_lowercase
unqualified = refl

-- Of a name with a schema, the schema is taken for the table.
with_schema :
    resolve_catalog_and_table
      (ok (codes "lake"))
      (codes "lake" ∷ codes "main" ∷ codes "t" ∷ [])
      (codes "swanlake")
    ≡ done (codes "lake", codes "main")
unfolding resolve_catalog_and_table
with_schema = refl

infer_parameter_schema-Answers_example :
    Answers as_name
      (λ f. 0 < length f)
      4
      (infer_parameter_schema as_name (ok (codes "memory")) pair_table (some two_rows) 4)
infer_parameter_schema-Answers_example =
    infer_parameter_schema-Answers as_name (λ f. 0 < length f) (ok (codes "memory")) pair_table
      two_rows 4 (omega arith) (λ q. (omega arith, (omega arith, (omega arith, tt))))
