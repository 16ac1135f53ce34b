-- ===== src/Versions/Validity.antt =====
-- Validity of blocks and versions.
use mathlib.Core.Path.{fun_ext}
use be_backup.Prelude.{
  if◌then◌else◌, ◌==◌, any, filter, contains, Has, any-Has, filter-Has, Has-contains, Has-map,
  map-Has, ◌≡◌, ap, Bool, true, not, ◌&&◌, map, arith, nat_eq, list_eq,
}
use be_backup.Uid.{BlockUid, uid_eqb_iff, block_uid_eq}
use be_backup.Database.{VersionStatus, invalid, Block, Version, Database}
use be_backup.Versions.{affected_versions, set_block_valid}

-- A version whose status is valid has no row that is marked invalid.
abbrev pub IsSound : Database → Type 0
IsSound db =
    (v : Version) (b : Block)
    → Has v db.versions
    → Has b db.blocks
    → v.status ≡ VersionStatus.valid
    → b.version_id ≡ v.id
    → b.valid ≡ true

module _ (db : Database) (u : BlockUid) (good : Bool) where
  affected-Has :
      (v : Version) (b : Block)
      → Has v db.versions
      → Has b db.blocks
      → b.version_id ≡ v.id
      → b.uid ≡ u
      → contains (map (λ w. w.uid) (affected_versions db u)) v.uid ≡ true
  unfolding affected_versions
  affected-Has v b hv hb own same =
      let mine =
        λ (w : Version). any (λ (c : Block). c.version_id == w.id && c.uid == u) db.blocks in
      let t : mine v ≡ true =
        any-Has (λ c. c.version_id == v.id && c.uid == u) b db.blocks hb
          (ground (arith, uid_eqb_iff b.uid u)) in
      Has-contains v.uid (map (λ w. w.uid) (filter mine db.versions))
        (map-Has (λ w. w.uid) v (filter mine db.versions) (filter-Has mine v db.versions hv t))

  -- If no valid version has an invalid row, none has one after `set_block_valid`: when it marks a
  -- block invalid it takes the status of every version that has the block, and when it marks one
  -- valid it gives no version a status.
  pub set_block_valid-IsSound : IsSound db → IsSound (set_block_valid db u good).0
  unfolding set_block_valid
  set_block_valid-IsSound sound v' b' hv' hb' st own =
      let (v, hv, ev) = Has-map _ v' db.versions hv' in
      let (b, hb, eb) = Has-map _ b' db.blocks hb' in
      ground (arith, sound v b hv hb, affected-Has v b hv hb, uid_eqb_iff b.uid u)

  -- Of the rows, `set_block_valid` changes those with the given UID, and in these the mark alone; a
  -- version's row is changed only if the block is marked invalid and the returned list has the
  -- version's UID, and then the status alone. Every version with a row of the block is in the list.
  pub set_block_valid_rows :
      ((set_block_valid db u good).0.blocks
        ≡ map {A = Block}
            (λ b. record b { valid = if b.uid == u then good else b.valid })
            db.blocks)
      × ((set_block_valid db u good).0.versions
          ≡ map {A = Version}
              (λ v. record v {
                status =
                    if not good && contains (set_block_valid db u good).1 v.uid
                    then invalid
                    else v.status;
              })
              db.versions)
      × ((v : Version) (b : Block)
          → Has v db.versions
          → Has b db.blocks
          → b.version_id ≡ v.id
          → b.uid ≡ u
          → contains (set_block_valid db u good).1 v.uid ≡ true)
  unfolding set_block_valid
  set_block_valid_rows = (
    ap (λ (f : Block → Block). map f db.blocks) (fun_ext (λ b. ground arith)),
    ap (λ (f : Version → Version). map f db.versions) (fun_ext (λ v. ground arith)),
    affected-Has,
  )
