-- ===== src/NbdServer/Ends.antt =====
-- The handler of src/benji/nbdserver.py comes to an end, and a read-only export leaves versions
-- alone.
use be_backup.Prelude.{
  Bool-cases, Option-cases, ◌==◌, length, find_first, ℕ, zero, suc, ◌≤◌, ◌<◌, ◌≡◌, refl, ap, ◌∙◌,
  inl, inr, Bool, true, false, Option, none, some, arith, nat_eq, list_eq,
}
use be_backup.Clone.Packages.{Result-cases}
use be_backup.Errors.{Result, err, ok}
use be_backup.Database.{Version}
use be_backup.Transforms.{Bytes}
use be_backup.NbdServer.{
  ExportStore, Session, ClientOption, export_name, abort, list, other, option_of, read_option,
}
use be_backup.NbdServer.Turns.{
  is_ascii, is_version_uid, send, open_export, negotiate_export, negotiate_kind, negotiate_turn,
}
use be_backup.NbdServer.Handler.{negotiate}
use be_backup.NbdServer.Rounds.{read_option-IsShorter}

-- what the calls of a reader keep
pub record KeepsByReads {S : Type 0} (st : ExportStore S) (P : S → Type 0) : Type 0 where
  pub open_keeps : (v : Version) (s : S) → P s → P (st.open_version v s).1
  pub close_keeps : (v : Version) (s : S) → P s → P (st.close_version v s).1
  pub read_keeps :
      (v : Version) (c : Option Version) (offset n : ℕ) (s : S)
      → P s
      → P (st.read_data v c offset n s).1

module _ {S : Type 0} (st : ExportStore S) (read_only : Bool) (P : S → Type 0)
    (keeps : KeepsByReads st P) where
  abbrev pub IsKept : Session S → Type 0
  IsKept s = read_only ≡ true → (s.cow_version ≡ none) × P s.store

  abbrev HasVersion : Result Bool × Session S → Type 0
  HasVersion (r, s) = r ≡ ok true → (v : Version) × (s.version ≡ some v)

  open_export_lem :
      (no_zeros : Bool) (v : Version) (s : Session S)
      → IsKept s
      → IsKept (open_export st read_only no_zeros v s).1
        × HasVersion (open_export st read_only no_zeros v s)
  unfolding open_export send
  open_export_lem no_zeros v s k = elim (Result-cases (st.open_version v s.store).0) [
    | inl (u, e) ↦ (
      rw (open_export, e) (λ ro. ((k ro).0, keeps.open_keeps v s.store (k ro).1)),
      rw (open_export, e) (λ t. (v, refl)),
    )
    | inr (x, e) ↦ (
      rw (open_export, e) (λ ro. ((k ro).0, keeps.open_keeps v s.store (k ro).1)),
      rw (open_export, e) (λ t. (v, refl)),
    )
  ]

  negotiate_export_lem :
      (fixed no_zeros : Bool) (opt : ℕ) (name : Bytes) (s : Session S)
      → IsKept s
      → IsKept (negotiate_export st read_only fixed no_zeros opt name s).1
        × HasVersion (negotiate_export st read_only fixed no_zeros opt name s)
  unfolding negotiate_export send
  negotiate_export_lem fixed no_zeros opt name s k = elim (Bool-cases (length name == 0)) [
    | inl t ↦ rw (negotiate_export, t) (k, λ e. absurd (ground arith))
    | inr f ↦ elim (Bool-cases (is_ascii name)) [
      | inr g ↦ rw (negotiate_export, f, g) (k, λ e. absurd (ground arith))
      | inl a ↦ elim (Bool-cases (is_version_uid name)) [
        | inr g ↦ rw (negotiate_export, f, a, g) (k, λ e. absurd (ground arith))
        | inl u ↦ elim (Option-cases (find_first (λ v. v.uid == name) (st.find_versions s.store))) [
          | inr (v, found) ↦ rw (negotiate_export, f, a, u, found) (open_export_lem no_zeros v s k)
          | inl missing ↦ elim (Bool-cases fixed) [
            | inl t ↦ rw (negotiate_export, f, a, u, missing, t) (k, λ e. absurd (ground arith))
            | inr g ↦ rw (negotiate_export, f, a, u, missing, g) (k, λ e. absurd (ground arith))
          ]
        ]
      ]
    ]
  ]

  negotiate_kind_lem :
      (o : ClientOption) (fixed no_zeros : Bool) (opt : ℕ) (bytes : Bytes) (s : Session S)
      → IsKept s
      → IsKept (negotiate_kind st read_only o fixed no_zeros opt bytes s).1
        × HasVersion (negotiate_kind st read_only o fixed no_zeros opt bytes s)
  unfolding negotiate_kind send
  negotiate_kind_lem export_name fixed no_zeros opt bytes s k =
      negotiate_export_lem fixed no_zeros opt bytes s k
  negotiate_kind_lem list fixed no_zeros opt bytes s k = (k, λ e. absurd (ground arith))
  negotiate_kind_lem abort fixed no_zeros opt bytes s k = (k, λ e. absurd (ground arith))
  negotiate_kind_lem other true no_zeros opt bytes s k = (k, λ e. absurd (ground arith))
  negotiate_kind_lem other false no_zeros opt bytes s k = (k, λ e. absurd (ground arith))

  -- the loop of the negotiation ends; if it does not raise, a version is open
  abbrev IsNegotiated : ℕ → Result Bytes × Session S → Type 0
  IsNegotiated n (r, s) =
      IsKept s
      × ((rest : Bytes) → r ≡ ok rest → (length rest ≤ n) × ((v : Version) × (s.version ≡ some v)))

  pub negotiate_lem :
      (rounds : ℕ) (fixed no_zeros : Bool) (xs : Bytes) (s : Session S)
      → length xs < rounds
      → IsKept s
      → (outcome : Result Bytes × Session S) × (negotiate st read_only rounds fixed no_zeros xs s
          ≡ some outcome)
        × IsNegotiated (length xs) outcome
  unfolding negotiate negotiate_turn
  negotiate_lem zero fixed no_zeros xs s lt k = absurd (omega arith)
  negotiate_lem (suc rounds) fixed no_zeros xs s lt k = elim (Result-cases (read_option xs)) [
    | inr (x, e) ↦ ((err x, s), rw (negotiate, e) refl, (k, λ rest e'. absurd (ground arith)))
    | inl (((opt, bytes), rest), e) ↦
        let less = read_option-IsShorter xs in
        let shorter : length rest < length xs = rw e at less in
        let turn = negotiate_turn st read_only fixed no_zeros opt bytes s in
        let (k', has) = negotiate_kind_lem (option_of opt) fixed no_zeros opt bytes s k in
        elim (Result-cases turn.0) [
          | inr (x, e') ↦
              ((err x, turn.1), rw (negotiate, e, e') refl, (k', λ r' e''. absurd (ground arith)))
          | inl (go, e') ↦ elim (Bool-cases go) [
            | inl t ↦ (
              (ok rest, turn.1),
              rw (negotiate, e, e', t) refl,
              (k', λ r' e''. (ground arith, has (e' ∙ ap (λ b. ok b) t))),
            )
            | inr f ↦
                let (o, ends, n) =
                  negotiate_lem rounds fixed no_zeros rest turn.1 (omega arith) k' in
                (
                  o,
                  rw (negotiate, e, e', f) ends,
                  (n.0, λ r' e''. let (l, v) = n.1 r' e'' in (omega arith, v)),
                )
          ]
        ]
  ]
