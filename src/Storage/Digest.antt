-- ===== src/Storage/Digest.antt =====
-- `DictHMAC` of src/benji/storage/dicthmac.py: what `verify_digest` accepts.
use be_backup.Prelude.{
  Bool-cases, ◌==◌, ==_refl, eq_of_==, ◌≡◌, refl, ◌≢◌, inl, inr, none, some, nat_eq, list_eq,
  option_eq,
}
use be_backup.Errors.{value_error, err, ok}
use be_backup.Uid.{Text}
use be_backup.Storage.{
  Metadata, hash_name, calculate_digest, add_digest, verify_hmac, verify_digest,
}
use be_backup.Storage.RoundTrip.{verify-add_digest}

abbrev bare : Metadata → Metadata
bare m = record m { hmac = none }

-- Metadata with its digest added verifies, and comes back without it. Other metadata that carries
-- this digest is refused with a value error, if its own digest is another; so is metadata with no
-- digest at all.
pub verify_digest-add_digest :
    (hmac_of : Text → Text) (m other : Metadata)
    → calculate_digest hmac_of (record other { hmac = none })
      ≢ calculate_digest hmac_of (record m { hmac = none })
    → (let signed = add_digest (some hmac_of) (record m { hmac = none }) in
        (verify_digest (some hmac_of) signed ≡ ok (record m { hmac = none }))
        × (verify_digest (some hmac_of) (record other { hmac = signed.hmac }) ≡ err value_error)
        × (verify_digest (some hmac_of) (record other { hmac = none }) ≡ err value_error))
unfolding verify_digest verify_hmac add_digest
verify_digest-add_digest hmac_of m other differ = (
  verify-add_digest (some hmac_of) m,
  elim (Bool-cases (calculate_digest hmac_of (bare other) == calculate_digest hmac_of (bare m))) [
    | inl t ↦ absurd (
        differ
          (eq_of_== (calculate_digest hmac_of (bare other)) (calculate_digest hmac_of (bare m)) t))
    | inr f ↦ rw (==_refl hash_name, f)
  ],
  refl,
)
