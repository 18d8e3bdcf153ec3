-- ===== src/Session/Catalogs/Allowed.antt =====
-- The roots that an attachment allows.
use swanlake.Prelude.{
  ℕ, ◌≡◌, refl, ap, ap₂, ◌∙◌, Bool, true, false, ◌&&◌, ◌||◌, not, List, [], ◌∷◌, Option, some,
  arith, ltb, ◌==◌, if◌then◌else◌, Checked, done, ◌>>=◌, All, Bool-cases, inl, inr,
}
use swanlake.Text.{Bytes, bytes_eq_iff, bytes_less}
use swanlake.Error.{ok}
use swanlake.Dict.{bytes_key, beq_refl, member}
use swanlake.Sql.Attach.{attach_data_path}
use swanlake.Session.Engine.{Engine}
use swanlake.Session.State.{Session}
use swanlake.Session.Catalogs.{
  insert_root, insert_roots, confines, with_root, with_data_roots, collect_roots,
}
use swanlake.Session.Catalogs.Kept.{member-insert_root, member-insert_roots, Extends}

-- The order on texts is total.
bytes_less_total : (a b : Bytes) → bytes_less a b ≡ false → bytes_less b a ≡ false → a ≡ b
unfolding bytes_less
bytes_less_total [] [] h k = refl
bytes_less_total [] (b ∷ t) h k = absurd (cc h)
bytes_less_total (a ∷ s) [] h k = absurd (cc k)
bytes_less_total (a ∷ s) (b ∷ t) h k =
    let heads = same_heads a b (bytes_less s t) (bytes_less t s) h k in
    ap₂ ◌∷◌ heads.0 (bytes_less_total s t heads.1 heads.2)
  where
    same_heads :
        (a b : ℕ) (x y : Bool)
        → (ltb a b || (a == b && x)) ≡ false
        → (ltb b a || (b == a && y)) ≡ false
        → (a ≡ b) × (x ≡ false) × (y ≡ false)
    same_heads a b x y h k = ground arith

member-inserted : (root : Bytes) (roots : List Bytes) → member root (insert_root root roots) ≡ true
unfolding insert_root member
member-inserted root [] = ground (arith, beq_refl root)
member-inserted root (r ∷ rs) = elim (Bool-cases (bytes_less root r)) [
  | inl before ↦ rw before (ground (arith, beq_refl root))
  | inr not_before ↦ elim (Bool-cases (bytes_less r root)) [
    | inl behind ↦ rw (not_before, behind) (ground (arith, member-inserted root rs))
    | inr same ↦
        rw (not_before, same)
          (ground (arith, (bytes_eq_iff root r).1 (bytes_less_total root r not_before same)))
  ]
]

member-inserted-All :
    (more roots : List Bytes) → All (λ r. member r (insert_roots more roots) ≡ true) more
unfolding insert_roots
member-inserted-All [] roots = tt
member-inserted-All (r ∷ rs) roots = (
  member-insert_roots r rs (insert_root r roots) (member-inserted r roots),
  member-inserted-All rs (insert_root r roots),
)

module _ (engine : Engine) {S : Type 0} where
  open engine use {World, data_roots}

  -- In a non-writer's session before its lockdown, an attachment allows the data path that its
  -- statement names and every root of the catalog's metadata, and keeps the roots allowed before.
  pub collect_roots_allows :
      (catalog sql root : Bytes) (more : List Bytes) (w : World) (s : Session World S)
      → confines s.auth s.lockdown ≡ true
      → s.lockdown_applied ≡ false
      → attach_data_path sql ≡ done (some root)
      → data_roots catalog s.world ≡ (ok more, w)
      → (t : Session World S) × (collect_roots engine catalog sql s ≡ done t)
        × (member root t.roots ≡ true)
        × All (λ r. member r t.roots ≡ true) more
        × Extends s.roots t.roots
  unfolding collect_roots
  collect_roots_allows catalog sql root more w s confined before path metadata = (
    record s { roots = insert_roots more (insert_root root s.roots); world = w },
    ap (λ b. if b then (attach_data_path sql >>= after) else done s)
          (ap₂ (λ a b. a && not b) confined before)
        ∙ (ap (λ p. p >>= after) path
            ∙ ap (λ d. done (with_data_roots engine (insert_root root s.roots) d s)) metadata),
    member-insert_roots root more (insert_root root s.roots) (member-inserted root s.roots),
    member-inserted-All more (insert_root root s.roots),
    λ r h.
        member-insert_roots r more (insert_root root s.roots) (member-insert_root r root s.roots h),
  )
    where
      after : Option Bytes → Checked (Session World S)
      after found =
          done (with_data_roots engine (with_root found s.roots) (data_roots catalog s.world) s)
