-- ===== src/Session/SchemaCache/Bounds.antt =====
-- The cache never holds more than its capacity, and its order lists exactly its keys.
use swanlake.Prelude.{
  suc, ◌≤◌, ◌≡◌, refl, sym, ap, ◌∙◌, inl, inr, true, false, ◌||◌, List, [], ◌∷◌, ◌++◌, arith, ltb,
  length, Bool-cases, Option-cases,
}
use swanlake.Text.{Bytes, bytes_eq, bytes_eq_iff}
use swanlake.Dict.{
  bytes_key, lookup, insert, remove, discard, has_key, member, beq_refl, member-discard,
  has_key-lookup,
}
use swanlake.Dict.Sizes.{
  IsDistinct, has_key-insert, has_key-remove, insert-IsDistinct, remove-IsDistinct, length-remove,
}
use swanlake.Session.SchemaCache.{
  SchemaCache, schema_cache_capacity, new, touch_key, get, evict, evict_if_needed, insert_schema,
  clear,
}

-- No key is listed twice.
abbrev pub IsListedOnce : List Bytes → Type 0
IsListedOnce [] = Unit
IsListedOnce (k ∷ ks) = (member k ks ≡ false) × IsListedOnce ks

-- The entries have distinct keys, and `order` lists each of them once.
pub record IsIndexed {S : Type 0} (entries : List (Bytes × S)) (order : List Bytes) : Type 0 where
  pub distinct : IsDistinct entries
  pub once : IsListedOnce order
  pub same : (k : Bytes) → member k order ≡ has_key k entries

module _ {S : Type 0} where
  no_keys : (entries : List (Bytes × S)) → ((k : Bytes) → false ≡ has_key k entries) → entries ≡ []
  unfolding has_key
  no_keys [] h = refl
  no_keys ((k, v) ∷ m) h = ground (arith, h k, bytes_eq_iff k k)

  IsIndexed-tail :
      (entries : List (Bytes × S)) (k : Bytes) (order : List Bytes)
      → IsIndexed entries (k ∷ order)
      → IsIndexed (remove k entries) order
  unfolding member
  IsIndexed-tail entries k order x = record {
    distinct = remove-IsDistinct k entries x.distinct;
    once = x.once.1;
    same = λ j. ground (arith, x.same j, has_key-remove k j entries, bytes_eq_iff j k, x.once.0);
  }

  pub length-order :
      (order : List Bytes) (entries : List (Bytes × S))
      → IsIndexed entries order
      → length order ≡ length entries
  unfolding member
  length-order [] entries x = rw (no_keys entries x.same)
  length-order (k ∷ order) entries x =
      let present : has_key k entries ≡ true =
        sym (x.same k) ∙ ap (λ b. b || member k order) (beq_refl k) in
      ap suc (length-order order (remove k entries) (IsIndexed-tail entries k order x))
      ∙ sym (rw present at (length-remove k entries x.distinct))

  evict-IsIndexed :
      (entries : List (Bytes × S)) (order : List Bytes)
      → IsIndexed entries order
      → IsIndexed (evict entries order).entries (evict entries order).order
        × (length (evict entries order).entries ≤ schema_cache_capacity)
  unfolding evict member
  evict-IsIndexed entries [] x = (x, rw (no_keys entries x.same) (omega arith))
  evict-IsIndexed entries (k ∷ order) x =
      elim (Bool-cases (ltb schema_cache_capacity (length entries))) [
        | inl e ↦
            rw (e, evict)
              (evict-IsIndexed (remove k entries) order (IsIndexed-tail entries k order x))
        | inr e ↦ rw (e, evict) (x, ground arith)
      ]

member-snoc : (j k : Bytes) (s : List Bytes) → member j (s ++ k ∷ []) ≡ (member j s || bytes_eq j k)
unfolding member
member-snoc j k [] = ground arith
member-snoc j k (i ∷ s) = ground (arith, member-snoc j k s)

discard-IsListedOnce : (k : Bytes) (s : List Bytes) → IsListedOnce s → IsListedOnce (discard k s)
unfolding discard
discard-IsListedOnce k [] d = tt
discard-IsListedOnce k (i ∷ s) (n, d) =
    ground (arith, member-discard k i s, discard-IsListedOnce k s d)

snoc-IsListedOnce :
    (k : Bytes) (s : List Bytes) → IsListedOnce s → member k s ≡ false → IsListedOnce (s ++ k ∷ [])
unfolding member
snoc-IsListedOnce k [] d n = (refl, tt)
snoc-IsListedOnce k (i ∷ s) (m, d) n =
    ground (arith, member-snoc i k s, snoc-IsListedOnce k s d, bytes_eq_iff i k, bytes_eq_iff k i)

discard_absent : (k : Bytes) (s : List Bytes) → member k (discard k s) ≡ false
discard_absent k s = ground (arith, member-discard k k s, bytes_eq_iff k k)

pub record IsValid {S : Type 0} (c : SchemaCache S) : Type 0 where
  pub indexed : IsIndexed c.entries c.order
  pub bounded : length c.entries ≤ schema_cache_capacity

module _ {S : Type 0} where
  -- Touching a key of the cache moves it to the end.
  pub touch-IsIndexed :
      (key : Bytes) (entries : List (Bytes × S)) (order : List Bytes)
      → IsDistinct entries
      → IsListedOnce order
      → ((k : Bytes) → (bytes_eq k key || member k order) ≡ has_key k entries)
      → IsIndexed entries (discard key order ++ key ∷ [])
  touch-IsIndexed key entries order d o same = record {
    distinct = d;
    once =
        snoc-IsListedOnce key (discard key order) (discard-IsListedOnce key order o)
          (discard_absent key order);
    same = λ k.
        ground (arith, same k, member-snoc k key (discard key order), member-discard key k order);
  }

  pub new-IsValid : IsValid (new {S = S})
  unfolding member has_key
  new-IsValid = record {
    indexed = record { distinct = tt; once = tt; same = λ k. refl };
    bounded = omega arith;
  }

  insert-IsValid :
      (key : Bytes) (schema : S) (c : SchemaCache S)
      → IsValid c
      → IsValid (insert_schema key schema c)
  unfolding insert_schema touch_key evict_if_needed
  insert-IsValid key schema c v =
      let x =
        touch-IsIndexed key (insert key schema c.entries) c.order
          (insert-IsDistinct key schema c.entries v.indexed.distinct) v.indexed.once
          (λ k. ground (arith, v.indexed.same k, has_key-insert key k schema c.entries)) in
      let (i, b) = evict-IsIndexed _ _ x in record { indexed = i; bounded = b }

  get-IsValid : (key : Bytes) (c : SchemaCache S) → IsValid c → IsValid (get key c).1
  unfolding get touch_key
  get-IsValid key c v = elim (Option-cases (lookup key c.entries)) [
    | inl e ↦ rw (e, get) v
    | inr (s, e) ↦
        rw (e, get)
          (record {
            indexed = touch-IsIndexed key c.entries c.order v.indexed.distinct v.indexed.once (λ k.
                ground (arith, v.indexed.same k, has_key-lookup k c.entries, bytes_eq_iff k key));
            bounded = v.bounded;
          })
  ]

  -- Every operation keeps the cache within its 128 entries, and its order a list, without
  -- repetition, of exactly the cached keys; the new cache has this property.
  pub SchemaCache-IsValid :
      (key : Bytes) (schema : S) (c : SchemaCache S)
      → IsValid c
      → IsValid (insert_schema key schema c)
        × IsValid (get key c).1
        × IsValid (clear c)
        × IsValid (new {S = S})
  unfolding clear
  SchemaCache-IsValid key schema c v =
      (insert-IsValid key schema c v, get-IsValid key c v, new-IsValid, new-IsValid)
