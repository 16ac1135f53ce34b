-- ===== src/Scrub/Marks.antt =====
-- What the marks that a scrub of src/benji/benji.py sets do to the rows of a version.
use be_backup.Prelude.{
  if◌then◌else◌, ◌==◌, Has, Has-map, map-Has, ◌≡◌, refl, subst, ◌∙◌, Bool, true, false, List, [],
  ◌∷◌, map, arith,
}
use be_backup.Uid.{BlockUid, block_uid_eq}
use be_backup.Database.{VersionStatus, invalid, Block, Version, Database}
use be_backup.Versions.{set_block_valid}
use be_backup.Versions.Validity.{set_block_valid_rows}

abbrev pub HasRow : Version → Database → BlockUid → Type 0
HasRow v db u = (b : Block) × Has b db.blocks × (b.version_id ≡ v.id) × (b.uid ≡ u)

-- all rows of the version have the status
abbrev pub AllStatus : Version → VersionStatus → Database → Type 0
AllStatus v s db = (w : Version) → Has w db.versions → w.id ≡ v.id → w.status ≡ s

module _ (db : Database) (u : BlockUid) (good : Bool) where
  pub set_block_valid-HasRow :
      (v : Version) (x : BlockUid) → HasRow v db x → HasRow v (set_block_valid db u good).0 x
  set_block_valid-HasRow v x (b, h, own, same) =
      let changed : Block → Block =
        λ b. record b { valid = if b.uid == u then good else b.valid } in
      (changed b, rw (set_block_valid_rows db u good).0 (map-Has changed b db.blocks h), own, same)

  pub set_block_valid-AllStatus :
      (v : Version) → AllStatus v invalid db → AllStatus v invalid (set_block_valid db u good).0
  set_block_valid-AllStatus v all w' m own =
      let (w, h, e) =
        Has-map _ w' db.versions (subst (λ l. Has w' l) ((set_block_valid_rows db u good).1) m) in
      ground (arith, all w h)

-- a version with a row of a block that is marked invalid is invalid afterwards
pub mark-AllStatus :
    (v : Version) (db : Database) (u : BlockUid)
    → HasRow v db u
    → AllStatus v invalid (set_block_valid db u false).0
mark-AllStatus v db u (b, hb, own, same) w' m mine =
    let (e1, e2, listed) = set_block_valid_rows db u false in
    let (w, h, e) = Has-map _ w' db.versions (subst (λ l. Has w' l) e2 m) in
    ground (arith, listed w b h hb)

map_same : {A : Type 0} (f : A → A) (xs : List A) → ((x : A) → f x ≡ x) → map f xs ≡ xs
map_same f [] h = refl
map_same f (x ∷ xs) h = rw (h x, map_same f xs h) refl

-- to mark one valid changes no version
pub mark_valid_versions :
    (db : Database) (u : BlockUid) → (set_block_valid db u true).0.versions ≡ db.versions
mark_valid_versions db u = (set_block_valid_rows db u true).1 ∙ map_same _ db.versions (λ v. refl)
