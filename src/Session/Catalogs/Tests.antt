-- ===== src/Session/Catalogs/Tests.antt =====
-- Catalogs in a non-writer's session.
use swanlake.Prelude.{
  ℕ, ◌≡◌, refl, true, List, [], ◌∷◌, none, some, Checked, done, panicked, IfDone, All,
}
use swanlake.Text.{Bytes, codes}
use swanlake.Error.{Result}
use swanlake.Session.Fixture.{toy, guarded}
use swanlake.Session.State.{Session}
use swanlake.Dict.{bytes_key, member}
use swanlake.Sql.Attach.{attach_data_path}
use swanlake.Session.Catalogs.{attach_catalog, collect_roots, insert_roots}
use swanlake.Session.Catalogs.Allowed.{collect_roots_allows}
use swanlake.Session.Catalogs.Kept.{Confined, Extends}
use swanlake.Session.Catalogs.Roots.{attach_catalog-Confined}

abbrev statement : Bytes
statement = codes "ATTACH OR REPLACE 'ducklake:m' AS \"lake\" (DATA_PATH '/b')"

abbrev path : Bytes
path = codes "SET search_path = 'main,lake.main'"

abbrev before : Session (List Bytes) ℕ
before = record guarded { roots = codes "/a" ∷ [] }

abbrev roots_after : Checked (Result (Unit {0}) × Session (List Bytes) ℕ) → List Bytes
roots_after (done (r, s)) = s.roots
roots_after panicked = []

collected :
    roots_after (attach_catalog toy 5 (codes "lake") [] statement (some path) before)
    ≡ codes "/a" ∷ codes "/b" ∷ []
unfolding attach_catalog
collected = refl

frozen :
    roots_after (
      attach_catalog toy 5
        (codes "lake")
        []
        statement
        none
        (record before { lockdown_applied = true }))
    ≡ codes "/a" ∷ []
unfolding attach_catalog
frozen = refl

attach_catalog-Confined_example :
    IfDone
      (λ x. Confined before x.1)
      (attach_catalog toy 5 (codes "lake") [] statement (some path) before)
attach_catalog-Confined_example =
    attach_catalog-Confined toy 5 (codes "lake") statement [] (some path) before

ordered :
    insert_roots (codes "b" ∷ codes "a" ∷ codes "ab" ∷ codes "b" ∷ []) []
    ≡ codes "a" ∷ codes "ab" ∷ codes "b" ∷ []
unfolding insert_roots
ordered = refl

collect_roots_allows_example :
    (t : Session (List Bytes) ℕ) × (collect_roots toy (codes "lake") statement before ≡ done t)
    × (member (codes "/b") t.roots ≡ true)
    × All (λ r. member r t.roots ≡ true) []
    × Extends before.roots t.roots
unfolding attach_data_path
collect_roots_allows_example =
    collect_roots_allows toy (codes "lake") statement (codes "/b") [] [] before refl refl refl refl
