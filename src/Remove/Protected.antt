-- ===== src/Remove/Protected.antt =====
-- A version that was protected is not removed.
use be_backup.Prelude.{
  if◌then◌else◌, Bool-cases, Option-cases, ◌==◌, ==_refl, find_first, ℕ, ◌≡◌, refl, ap, ◌∙◌, inl,
  inr, Bool, true, none, some, List, [], ◌∷◌, map, arith, nat_eq, list_eq, option_eq,
}
use be_backup.Errors.{key_error, permission_error, err, ok}
use be_backup.Uid.{Text}
use be_backup.Database.{Version, Database}
use be_backup.Versions.{set_version, get_by_uid}
use be_backup.Locking.{Owner, Lock, version_lock}
use be_backup.Locking.Table.{HasKeys, holder}
use be_backup.Remove.{RemoveRequest, protect, rm}
use be_backup.Remove.Outcomes.{may_remove, rm_outcomes}

module _ (uid : Text) (v : Version) (flag : Bool) where
  abbrev mark : Version → Version
  mark w = if w.id == v.id then record w { status = w.status; protected = flag } else w

  mark-uid : (w : Version) → (mark w).uid ≡ w.uid
  mark-uid w = elim (Bool-cases (w.id == v.id)) [ inl t ↦ rw t | inr f ↦ rw f ]

  find-mark :
      (vs : List Version)
      → find_first (λ w. w.uid == uid) vs ≡ some v
      → find_first (λ w. w.uid == uid) (map mark vs) ≡ some (record v { protected = flag })
  find-mark [] e = absurd (ground arith)
  find-mark (w ∷ vs) e = elim (Bool-cases (w.uid == uid)) [
    | inl t ↦
        let here : some w ≡ some v = rw t at e in
        let same : w ≡ v = cc in
        rw (mark-uid, t) (ap (λ x. some (mark x)) same ∙ rw (==_refl v.id) refl)
    | inr f ↦ rw (mark-uid, f) (find-mark vs (rw f at e))
  ]

pub get_by_uid_cases :
    (db : Database) (uid : Text) (v : Version)
    → get_by_uid db uid ≡ ok v
    → find_first (λ w. w.uid == uid) db.versions ≡ some v
unfolding get_by_uid
get_by_uid_cases db uid v e = elim (Option-cases (find_first (λ w. w.uid == uid) db.versions)) [
  | inl n ↦ absurd (let no : err key_error ≡ ok v = rw (n, get_by_uid) at e in ground arith)
  | inr (w, m) ↦
      m
      ∙ (let same : ok w ≡ ok v = rw (m, get_by_uid) at e in
          let wv : w ≡ v = cc in ap (λ x. some x) wv)
]

get_by_uid-set_version :
    (db : Database) (uid : Text) (v : Version) (flag : Bool)
    → get_by_uid db uid ≡ ok v
    → get_by_uid (set_version db v none (some flag)) uid ≡ ok (record v { protected = flag })
unfolding set_version get_by_uid
get_by_uid-set_version db uid v flag e =
    rw (get_by_uid, find-mark uid v flag db.versions (get_by_uid_cases db uid v e))

-- Let the version be in the database, its lock be free, and no two locks have one name. Then
-- protecting it succeeds, and a removal after that is refused with a permission error, whether it
-- is forced or not; every lock has afterwards the holder that it had.
pub rm-protect :
    (me : Owner) (now next : ℕ) (req : RemoveRequest) (db : Database) (objects : List (ℕ × Text))
    (locks : List Lock) (v : Version)
    → HasKeys locks
    → holder (version_lock req.version_uid) locks ≡ none
    → get_by_uid db req.version_uid ≡ ok v
    → (protected_db : Database) × (protect db req.version_uid true ≡ ok protected_db)
      × (after : List Lock) × (rm me now next req protected_db objects locks
          ≡ (err permission_error, after))
      × HasKeys after
      × ((n : Text) → holder n after ≡ holder n locks)
unfolding protect may_remove
rm-protect me now next req db objects locks v k free found =
    let db' = set_version db v none (some true) in
    let marked = get_by_uid-set_version db req.version_uid v true found in
    let (after, e, k', same) =
      rm_outcomes me now next req db' objects locks (record v { protected = true }) k free marked in
    (db', rw (protect, found), after, e, k', same)
