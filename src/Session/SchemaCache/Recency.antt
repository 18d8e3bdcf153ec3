-- ===== src/Session/SchemaCache/Recency.antt =====
-- What the cache answers: the eviction takes the key that was used least recently, and no other.
use swanlake.Prelude.{
  ◌+◌, ◌≤◌, ◌≡◌, refl, sym, ap, ◌∙◌, inl, inr, Bool, true, false, ◌||◌, List, [], ◌∷◌, ◌++◌, Option,
  none, some, arith, ltb, length, if◌then◌else◌, Bool-cases, head?,
}
use swanlake.Text.{Bytes, bytes_eq, bytes_eq_iff}
use swanlake.Dict.{
  bytes_key, lookup, insert, remove, discard, has_key, member, beq_refl, lookup-insert,
  lookup-remove,
}
use swanlake.Dict.Sizes.{insert-IsDistinct, length-remove, length-insert, has_key-insert}
use swanlake.Session.SchemaCache.{
  SchemaCache, schema_cache_capacity, touch_key, evict, evict_if_needed, insert_schema,
}
use swanlake.Session.SchemaCache.Bounds.{IsIndexed, IsValid, length-order}

discard_none : (k : Bytes) (s : List Bytes) → member k s ≡ false → discard k s ≡ s
unfolding discard member
discard_none k [] h = refl
discard_none k (i ∷ s) h = ground (arith, discard_none k s)

abbrev pub is_key : Bytes → Option Bytes → Bool
is_key k none = false
is_key k (some j) = bytes_eq k j

module _ {S : Type 0} where
  evict_within :
      (entries : List (Bytes × S)) (order : List Bytes)
      → length entries ≤ schema_cache_capacity
      → (evict entries order).entries ≡ entries
  unfolding evict
  evict_within entries [] h = refl
  evict_within entries (k ∷ order) h = ground arith

  evict_one :
      (entries : List (Bytes × S)) (k : Bytes) (order : List Bytes)
      → length entries ≡ schema_cache_capacity + 1
      → length (remove k entries) ≡ schema_cache_capacity
      → (evict entries (k ∷ order)).entries ≡ remove k entries
  unfolding evict
  evict_one entries k order h r = ground (arith, evict_within (remove k entries) order)

  -- The key that an insertion of `key` takes out: the least recent one, if the cache is full and
  -- `key` is new.
  unfoldable pub evicted : Bytes → SchemaCache S → Option Bytes
  evicted key c =
      if has_key key c.entries || ltb (length c.entries) schema_cache_capacity
      then none
      else head? c.order

  lookup_within :
      (key j : Bytes) (schema : S) (c : SchemaCache S)
      → length (insert key schema c.entries) ≤ schema_cache_capacity
      → lookup j (insert_schema key schema c).entries
        ≡ (if bytes_eq j key then some schema else lookup j c.entries)
  unfolding insert_schema evict_if_needed touch_key
  lookup_within key j schema c h =
      ap (lookup j) (evict_within (insert key schema c.entries) _ h)
      ∙ lookup-insert key j schema c.entries

  present :
      (k : Bytes) (order : List Bytes) (entries : List (Bytes × S))
      → IsIndexed entries (k ∷ order)
      → has_key k entries ≡ true
  unfolding member
  present k order entries x = sym (x.same k) ∙ ap (λ b. b || member k order) (beq_refl k)

  full_from :
      (key j : Bytes) (schema : S) (entries : List (Bytes × S)) (order : List Bytes)
      → IsIndexed entries order
      → has_key key entries ≡ false
      → length entries ≡ schema_cache_capacity
      → lookup j (evict (insert key schema entries) (discard key order ++ key ∷ [])).entries ≡ (
          if bytes_eq j key
          then some schema
          else if is_key j (head? order)
          then none
          else lookup j entries)
  full_from key j schema entries [] x n h = absurd (omega (arith, length-order [] entries x))
  full_from key j schema entries (k ∷ order) x n h =
      let there = present k order entries x in
      let grown = length-insert key schema entries in
      let still = has_key-insert key k schema entries in
      let shrunk =
        length-remove k (insert key schema entries)
          (insert-IsDistinct key schema entries x.distinct) in
      let len : length (insert key schema entries) ≡ schema_cache_capacity + 1 = ground arith in
      let less : length (remove k (insert key schema entries)) ≡ schema_cache_capacity =
        ground arith in
      rw (discard_none key (k ∷ order) (x.same key ∙ n)) (
        ap (lookup j) (evict_one (insert key schema entries) k (order ++ key ∷ []) len less)
        ∙ ground (
          arith,
          lookup-remove k j (insert key schema entries),
          lookup-insert key j schema entries,
          bytes_eq_iff j k,
          bytes_eq_iff j key,
        ))

  lookup_full :
      (key j : Bytes) (schema : S) (c : SchemaCache S)
      → IsValid c
      → has_key key c.entries ≡ false
      → length c.entries ≡ schema_cache_capacity
      → lookup j (insert_schema key schema c).entries ≡ (
          if bytes_eq j key
          then some schema
          else if is_key j (head? c.order)
          then none
          else lookup j c.entries)
  unfolding insert_schema evict_if_needed touch_key
  lookup_full key j schema c v n h = full_from key j schema c.entries c.order v.indexed n h

  -- After an insertion in a valid cache the new schema is found under its key, the evicted key is
  -- gone, and every other key has what it had.
  pub lookup-insert_schema :
      (key j : Bytes) (schema : S) (c : SchemaCache S)
      → IsValid c
      → lookup j (insert_schema key schema c).entries ≡ (
          if bytes_eq j key
          then some schema
          else if is_key j (evicted key c)
          then none
          else lookup j c.entries)
  unfolding evicted
  lookup-insert_schema key j schema c v = elim (Bool-cases (has_key key c.entries)) [
    | inl old ↦ rw old (
        lookup_within key j schema c
          (ground (arith, length-insert key schema c.entries, v.bounded)))
    | inr fresh ↦ elim (Bool-cases (ltb (length c.entries) schema_cache_capacity)) [
      | inl room ↦
          rw (fresh, room)
            (lookup_within key j schema c (ground (arith, length-insert key schema c.entries)))
      | inr full ↦ rw (fresh, full) (lookup_full key j schema c v fresh (ground (arith, v.bounded)))
    ]
  ]
