-- ===== src/Session/SchemaCache/Tests.antt =====
-- The schema cache, with numbers for schemas.
use swanlake.Prelude.{ℕ, ◌≡◌, refl, some, [], ◌∷◌, arith}
use swanlake.Text.{Bytes, codes, bytes_eq}
use swanlake.Dict.{bytes_key, has_key, member}
use swanlake.Session.SchemaCache.{SchemaCache, new, get, insert_schema, clear}
use swanlake.Session.SchemaCache.Bounds.{IsValid, SchemaCache-IsValid}

abbrev one_query : SchemaCache ℕ
one_query = record { entries = (codes "a", 1) ∷ []; order = codes "a" ∷ [] }

same_keys : (k : Bytes) → member k one_query.order ≡ has_key k one_query.entries
unfolding member has_key
same_keys k = refl

one_query-IsValid : IsValid one_query
unfolding member has_key
one_query-IsValid = record {
  indexed = record { distinct = (refl, tt); once = (refl, tt); same = same_keys };
  bounded = omega arith;
}

cached : (get (codes "a") (insert_schema (codes "b") 2 one_query)).0 ≡ some 1
unfolding get insert_schema bytes_eq
cached = refl

SchemaCache-IsValid_example :
    IsValid (insert_schema (codes "b") 2 one_query)
    × IsValid (get (codes "b") one_query).1
    × IsValid (clear one_query)
    × IsValid (new {S = ℕ})
SchemaCache-IsValid_example = SchemaCache-IsValid (codes "b") 2 one_query one_query-IsValid
