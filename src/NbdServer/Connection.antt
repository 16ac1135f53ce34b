-- ===== src/NbdServer/Connection.antt =====
-- A whole connection to src/benji/nbdserver.py: what the client is sent.
use mathlib.Core.List.{append_assoc}
use be_backup.Prelude.{
  Option-cases, ◌==◌, length, length-append, All, find_first, ℕ, suc, ◌+◌, ◌^◌, ◌≤◌, ◌<◌, ◌≡◌, refl,
  ap, subst, ◌∙◌, inl, inr, Bool, true, false, Option, none, some, List, [], ◌∷◌, ◌++◌, arith,
  nat_eq, list_eq,
}
use be_backup.Clone.Packages.{Result-cases}
use be_backup.Errors.{Result, err, ok}
use be_backup.Uid.{Text}
use be_backup.Database.{Version}
use be_backup.Transforms.{Bytes}
use be_backup.Wire.{pack_be, read_word, read_exactly-append, read_word-pack_be, length-packed}
use be_backup.NbdServer.{
  ExportStore, Session, cliserv_magic, request_magic, unknown_flags, read_option,
}
use be_backup.NbdServer.Turns.{
  export_reply, is_ascii, is_version_uid, send, open_export, negotiate_export, negotiate_kind,
  negotiate_turn,
}
use be_backup.NbdServer.Handler.{
  greeting, negotiate, close_export, end_session, after_negotiation, talk, handler,
}
use be_backup.NbdServer.Sessions.{
  Action, read_at_offset, write_at_offset, flush_all, encode_request, encode_action, encode_actions,
  act_all, Fits, IsDevice,
}
use be_backup.NbdServer.Served.{served_lem}

-- a client that sets both flags, names a version, makes requests, and disconnects
abbrev pub encode_option : Text → Bytes → Bytes
encode_option uid rest =
    pack_be 8 cliserv_magic ++ (pack_be 4 1 ++ (pack_be 4 (length uid) ++ (uid ++ rest)))

abbrev pub encode_client : Text → List Action → Bytes
encode_client uid as_ = pack_be 4 3 ++ encode_option uid (encode_actions as_)

read_option-encode :
    (uid rest : Bytes)
    → length uid < 256 ^ 4
    → read_option (encode_option uid rest) ≡ ok ((1, uid), rest)
unfolding read_option
read_option-encode uid rest lt =
    let r3 = uid ++ rest in
    let r2 = pack_be 4 (length uid) ++ r3 in
    let r1 = pack_be 4 1 ++ r2 in
    let e1 : read_word 8 (pack_be 8 cliserv_magic ++ r1) ≡ ok (cliserv_magic, r1) =
      read_word-pack_be 8 cliserv_magic r1 (omega arith) in
    let e2 : read_word 4 r1 ≡ ok (1, r2) = read_word-pack_be 4 1 r2 (omega arith) in
    let e3 : read_word 4 r2 ≡ ok (length uid, r3) = read_word-pack_be 4 (length uid) r3 lt in
    rw (read_option, e1, e2, e3, read_exactly-append uid rest) refl

length-encode_request :
    (cmd handle offset n : ℕ) (rest : Bytes)
    → length rest < length (encode_request cmd handle offset n rest)
length-encode_request cmd handle offset n rest =
    let r4 = pack_be 4 n ++ rest in
    let r3 = pack_be 8 offset ++ r4 in
    let r2 = pack_be 8 handle ++ r3 in
    let r1 = pack_be 4 cmd ++ r2 in
    omega (
      arith,
      length-packed 4 n rest,
      length-packed 8 offset r4,
      length-packed 8 handle r3,
      length-packed 4 cmd r2,
      length-packed 4 request_magic r1,
    )

length-encode_action : (a : Action) (rest : Bytes) → length rest < length (encode_action a rest)
length-encode_action (read_at_offset h o n) rest = length-encode_request 0 h o n rest
length-encode_action (flush_all h) rest = length-encode_request 3 h 0 0 rest
length-encode_action (write_at_offset h o bytes) rest =
    omega
      (arith, length-encode_request 1 h o (length bytes) (bytes ++ rest), length-append bytes rest)

length-encode_actions : (as_ : List Action) → length as_ ≤ length (encode_actions as_)
length-encode_actions [] = omega arith
length-encode_actions (a ∷ as_) =
    omega (arith, length-encode_action a (encode_actions as_), length-encode_actions as_)

length-encode_client :
    (uid : Text) (as_ : List Action) → length as_ < length (encode_client uid as_)
length-encode_client uid as_ =
    let rest = encode_actions as_ in
    let r3 = uid ++ rest in
    let r2 = pack_be 4 (length uid) ++ r3 in
    let r1 = pack_be 4 1 ++ r2 in
    omega (
      arith,
      length-encode_actions as_,
      length-append uid rest,
      length-packed 4 (length uid) r3,
      length-packed 4 1 r2,
      length-packed 8 cliserv_magic r1,
      length-packed 4 3 (encode_option uid rest),
    )

module _ {S : Type 0} (st : ExportStore S) (v : Version) (uid : Text) (store opened : S) where
  -- the version that the client names can be opened
  abbrev pub IsExported : Type 0
  IsExported =
      (0 < length uid)
      × (length uid < 256 ^ 4)
      × (is_ascii uid ≡ true)
      × (is_version_uid uid ≡ true)
      × (find_first (λ w. w.uid == uid) (st.find_versions store) ≡ some v)
      × (st.open_version v store ≡ (ok tt, opened))

module _ {S : Type 0} (st : ExportStore S) (v : Version) (Shows : S → Bytes → Type 0)
    (device : IsDevice st v Shows) (uid : Text) (store opened : S) where
  -- what is there after the negotiation
  abbrev open_session : Session S
  open_session = record {
    store = opened;
    sent = greeting ++ export_reply true true v;
    version = some v;
    cow_version = none;
  }

  abbrev new_session : Session S
  new_session = record { store = store; sent = greeting; version = none; cow_version = none }

  export_turn :
      IsExported st v uid store opened
      → negotiate_turn st true true true 1 uid new_session ≡ (ok true, open_session)
  unfolding negotiate_turn negotiate_kind negotiate_export open_export send
  export_turn (some_bytes, short, ascii, named, found, opens) =
      let full : (length uid == 0) ≡ false = ground arith in
      let answer : Result (Unit {0}) × S → Result Bool × Session S = λ x.
        let s : Session S = record new_session { store = x.1; version = some v } in
        elim x.0 [
          | err e ↦ (err e, s)
          | ok u ↦ (ok true, send st true (export_reply true true v) s)
        ] in
      rw (negotiate_turn, negotiate_kind, negotiate_export, full, ascii, named, found)
        (ap answer opens)

  negotiated :
      (rounds : ℕ) (rest : Bytes)
      → IsExported st v uid store opened
      → negotiate st true (suc rounds) true true (encode_option uid rest) new_session
        ≡ some (ok rest, open_session)
  unfolding negotiate
  negotiated rounds rest x =
      let go : Result Bool × Session S → Option (Result Bytes × Session S) = λ t. elim t.0 [
        | err e ↦ some (err e, t.1)
        | ok transmits ↦ elim transmits [
          | true ↦ some (ok rest, t.1)
          | false ↦ negotiate st true rounds true true rest t.1
        ]
      ] in
      rw (negotiate, read_option-encode uid rest x.1) (ap go (export_turn x))

  close_export-sent :
      (r : Result (Unit {0})) (s : Session S) → (close_export st true r s).1.sent ≡ s.sent
  unfolding close_export
  close_export-sent r s = elim (Option-cases s.version) [
    | inl e ↦ rw (close_export, e) refl
    | inr (w, e) ↦ elim (Result-cases (st.close_version w s.store).0) [
      | inl (u, e') ↦ rw (close_export, e, e') refl
      | inr (x, e') ↦ rw (close_export, e, e') refl
    ]
  ]

  end_session-sent :
      (r : Result (Unit {0})) (s : Session S) → (end_session st true r s).1.sent ≡ s.sent
  unfolding end_session
  end_session-sent r s = elim (Option-cases s.cow_version) [
    | inl e ↦ rw (end_session, e) (close_export-sent r s)
    | inr (w, e) ↦
        let fixated : Session S = record s { store = (st.fixate w s.store).1 } in
        elim (Result-cases (st.fixate w s.store).0) [
          | inl (u, e') ↦ rw (end_session, e, e') (close_export-sent r fixated)
          | inr (x, e') ↦ rw (end_session, e, e') refl
        ]
  ]

  -- Let the reads of the store show a device for the version once it is open, and let the client's
  -- numbers and its reads fit. Then a client of a read-only export that sets both flags, names the
  -- version, makes requests and disconnects is sent the greeting, the export's size and flags, and
  -- for each request the reply of that device: the bytes of a read, and an error for a write.
  pub serves_device :
      (as_ : List Action) (d : Bytes)
      → IsExported st v uid store opened
      → Shows opened d
      → All (Fits (length d)) as_
      → (outcome : Result (Unit {0}) × Session S) × (handler st true (encode_client uid as_) store
          ≡ some outcome)
        × (outcome.1.sent ≡ greeting ++ (export_reply true true v ++ act_all as_ d))
  unfolding handler talk unknown_flags after_negotiation
  serves_device as_ d x shows fits =
      let xs = encode_client uid as_ in
      let rest = encode_option uid (encode_actions as_) in
      let (s', runs, sent) =
        served_lem st v Shows device as_ (length xs + 1) open_session d
          (omega (arith, length-encode_client uid as_)) (refl, shows) fits in
      let e : read_word 4 xs ≡ ok (3, rest) = read_word-pack_be 4 3 rest (omega arith) in
      let more : suc (length xs) ≡ length xs + 1 = omega arith in
      let begins : negotiate st true (length xs + 1) true true rest new_session
          ≡ some (ok (encode_actions as_), open_session) =
        subst
          (λ k.
            negotiate st true k true true rest new_session
            ≡ some (ok (encode_actions as_), open_session))
          more (negotiated (length xs) (encode_actions as_) x) in
      let go : Option (Result Bytes × Session S) → Option (Result (Unit {0}) × Session S) = λ o.
        elim o [ none ↦ none | some outcome ↦ after_negotiation st true (length xs + 1) outcome ] in
      let talks : talk st true (length xs + 1) xs new_session ≡ some (ok tt, s') =
        rw (talk, e) (ap go begins ∙ runs) in
      (
        end_session st true (ok tt) s',
        rw (handler, talks) refl,
        end_session-sent (ok tt) s'
            ∙ sent
            ∙ append_assoc greeting (export_reply true true v) (act_all as_ d),
      )
