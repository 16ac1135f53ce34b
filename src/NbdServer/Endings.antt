-- ===== src/NbdServer/Endings.antt =====
-- The end of a connection to src/benji/nbdserver.py, whatever the client sends.
use be_backup.Prelude.{
  ltb, Bool-cases, Option-cases, length, ℕ, zero, suc, ◌+◌, ◌≤◌, ◌<◌, ◌≡◌, refl, sym, subst, inl,
  inr, Bool, true, Option, none, some, arith, nat_eq, list_eq,
}
use be_backup.Clone.Packages.{Result-cases}
use be_backup.Errors.{os_error, eof_error, Result, err, ok}
use be_backup.Database.{Version}
use be_backup.Transforms.{Bytes}
use be_backup.Wire.{read_exactly-cases, read_word-cases}
use be_backup.NbdServer.{
  ExportStore, Session, Command, read_cmd, write_cmd, disc_cmd, flush_cmd, unknown_cmd, command_of,
  has_cmd_flags, unknown_flags, is_fixed, is_no_zeros, ClientRequest, read_request,
}
use be_backup.NbdServer.Turns.{
  send, serve_data, serve_read, serve_flush, read_and_write, serve_command, request_turn,
}
use be_backup.NbdServer.Handler.{
  handle_errors, greeting, transmit, close_export, end_session, after_negotiation, talk, handler,
}
use be_backup.NbdServer.Rounds.{read_request-IsShorter}
use be_backup.NbdServer.Ends.{KeepsByReads, IsKept, negotiate_lem}

-- what a request leaves of the stream is not longer
abbrev IsFurther : ℕ → Result (Option Bytes) → Type 0
IsFurther n (err e) = Unit
IsFurther n (ok none) = Unit
IsFurther n (ok (some after)) = length after ≤ n

module _ {S : Type 0} (st : ExportStore S) (read_only : Bool) (P : S → Type 0)
    (keeps : KeepsByReads st P) where
  abbrev Kept : Session S → Type 0
  Kept s = IsKept st read_only P keeps s

  serve_data_lem :
      (v : Version) (q : ClientRequest) (bytes : Bytes) (s : Session S)
      → Kept s
      → Kept (serve_data st read_only v q bytes s).1
  unfolding serve_data send
  serve_data_lem v q bytes s k = elim (Bool-cases read_only) [
    | inl t ↦ rw (serve_data, t) (λ u. k t)
    | inr f ↦ λ ro. absurd (ground arith)
  ]

  serve_flush_lem :
      (q : ClientRequest) (s : Session S) → Kept s → Kept (serve_flush st read_only q s)
  unfolding serve_flush send
  serve_flush_lem q s k = elim (Bool-cases read_only) [
    | inl t ↦ rw (serve_flush, t) (λ u. k t)
    | inr f ↦ λ ro. absurd (ground arith)
  ]

  serve_read_lem :
      (v : Version) (q : ClientRequest) (s : Session S)
      → Kept s
      → Kept (serve_read st read_only v q s)
  unfolding serve_read send
  serve_read_lem v q s k =
      let after : Kept
          (record s { store = (st.read_data v s.cow_version q.offset q.length_of s.store).1 }) =
        λ ro. ((k ro).0, keeps.read_keeps v s.cow_version q.offset q.length_of s.store (k ro).1) in
      elim (Result-cases (st.read_data v s.cow_version q.offset q.length_of s.store).0) [
        | inl (bytes, e) ↦ rw (serve_read, e) after
        | inr (x, e) ↦ rw (serve_read, e) after
      ]

  read_and_write_lem :
      (v : Version) (q : ClientRequest) (rest : Bytes) (s : Session S)
      → Kept s
      → Kept (read_and_write st read_only v q rest s).1
        × IsFurther (length rest) (read_and_write st read_only v q rest s).0
  unfolding read_and_write
  read_and_write_lem v q rest s k = elim (read_exactly-cases q.length_of rest) [
    | inl e ↦ rw (read_and_write, e) (k, tt)
    | inr (bytes, after, e, l) ↦
        let k' = serve_data_lem v q bytes s k in
        elim (Result-cases (serve_data st read_only v q bytes s).0) [
          | inl (u, e') ↦ rw (read_and_write, e, e') (k', omega arith)
          | inr (x, e') ↦ rw (read_and_write, e, e') (k', tt)
        ]
  ]

  serve_command_lem :
      (c : Command) (v : Version) (q : ClientRequest) (rest : Bytes) (s : Session S)
      → Kept s
      → Kept (serve_command st read_only c v q rest s).1
        × IsFurther (length rest) (serve_command st read_only c v q rest s).0
  unfolding serve_command send
  serve_command_lem disc_cmd v q rest s k = (k, tt)
  serve_command_lem read_cmd v q rest s k = (serve_read_lem v q s k, omega arith)
  serve_command_lem flush_cmd v q rest s k = (serve_flush_lem q s k, omega arith)
  serve_command_lem write_cmd v q rest s k = read_and_write_lem v q rest s k
  serve_command_lem unknown_cmd v q rest s k = (k, omega arith)

  request_turn_lem :
      (v : Version) (q : ClientRequest) (rest : Bytes) (s : Session S)
      → Kept s
      → Kept (request_turn st read_only v q rest s).1
        × IsFurther (length rest) (request_turn st read_only v q rest s).0
  unfolding request_turn send
  request_turn_lem v q rest s k = elim (Bool-cases (has_cmd_flags q.cmd)) [
    | inl t ↦ rw (request_turn, t) (k, omega arith)
    | inr f ↦ rw (request_turn, f) (serve_command_lem (command_of q.cmd) v q rest s k)
  ]

  transmit_lem :
      (rounds : ℕ) (v : Version) (xs : Bytes) (s : Session S)
      → length xs < rounds
      → Kept s
      → (outcome : Result (Unit {0}) × Session S) × (transmit st read_only rounds v xs s
          ≡ some outcome)
        × Kept outcome.1
  unfolding transmit
  transmit_lem zero v xs s lt k = absurd (omega arith)
  transmit_lem (suc rounds) v xs s lt k = elim (Result-cases (read_request xs)) [
    | inr (x, e) ↦ ((err x, s), rw (transmit, e) refl, k)
    | inl ((q, rest), e) ↦
        let less = read_request-IsShorter xs in
        let shorter : length rest < length xs = rw e at less in
        let turn = request_turn st read_only v q rest s in
        let (k', further) = request_turn_lem v q rest s k in
        elim (Result-cases turn.0) [
          | inr (x, e') ↦ ((err x, turn.1), rw (transmit, e, e') refl, k')
          | inl (o, e') ↦ elim (Option-cases o) [
            | inl t ↦ ((ok tt, turn.1), rw (transmit, e, e', t) refl, k')
            | inr (after, t) ↦
                let next : length after ≤ length rest = rw (e', t) at further in
                let (outcome, ends, k'') = transmit_lem rounds v after turn.1 (omega arith) k' in
                (outcome, rw (transmit, e, e', t) ends, k'')
          ]
        ]
  ]

  after_negotiation_lem :
      (rounds n : ℕ) (r : Result Bytes) (s : Session S)
      → n < rounds
      → Kept s
      → ((rest : Bytes) → r ≡ ok rest → (length rest ≤ n) × ((v : Version) × (s.version ≡ some v)))
      → (outcome : Result (Unit {0}) × Session S) × (after_negotiation st read_only rounds (r, s)
          ≡ some outcome)
        × Kept outcome.1
  unfolding after_negotiation
  after_negotiation_lem rounds n (err x) s lt k opened = ((err x, s), refl, k)
  after_negotiation_lem rounds n (ok rest) s lt k opened =
      let (le, (v, e)) = opened rest refl in
      let (outcome, e', k') = transmit_lem rounds v rest s (omega arith) k in
      let go : Option Version → Option (Result (Unit {0}) × Session S) =
        λ o. elim o [ none ↦ none | some w ↦ transmit st read_only rounds w rest s ] in
      (outcome, subst (λ o. go o ≡ some outcome) (sym e) e', k')

  talk_lem :
      (xs : Bytes) (s : Session S)
      → Kept s
      → (outcome : Result (Unit {0}) × Session S) × (talk st read_only (length xs + 1) xs s
          ≡ some outcome)
        × Kept outcome.1
  unfolding talk
  talk_lem xs s k = elim (read_word-cases 4 xs) [
    | inl e ↦ ((err eof_error, s), rw (talk, e) refl, k)
    | inr (flags, rest, e, l) ↦ elim (Bool-cases (ltb 0 (unknown_flags flags))) [
      | inl t ↦ ((err os_error, s), rw (talk, e, t) refl, k)
      | inr f ↦
          let ((r, s'), ends, (k', opened)) =
            negotiate_lem st read_only P keeps (length xs + 1) (is_fixed flags) (is_no_zeros flags)
              rest s (omega arith) k in
          let (outcome, e', k'') =
            after_negotiation_lem (length xs + 1) (length rest) r s' (omega arith) k' opened in
          (outcome, rw (talk, e, f, ends) e', k'')
    ]
  ]

  close_export_lem :
      (r : Result (Unit {0})) (s : Session S) → Kept s → Kept (close_export st read_only r s).1
  unfolding close_export
  close_export_lem r s k = elim (Option-cases s.version) [
    | inl n ↦ rw (close_export, n) k
    | inr (v, e) ↦
        let closed : Kept (record s { store = (st.close_version v s.store).1 }) =
          λ ro. ((k ro).0, keeps.close_keeps v s.store (k ro).1) in
        elim (Result-cases (st.close_version v s.store).0) [
          | inl (u, e') ↦ rw (close_export, e, e') closed
          | inr (x, e') ↦ rw (close_export, e, e') closed
        ]
  ]

  end_session_lem :
      (r : Result (Unit {0})) (s : Session S) → Kept s → Kept (end_session st read_only r s).1
  unfolding end_session
  end_session_lem r s k = elim (Bool-cases read_only) [
    | inl t ↦ rw (end_session, (k t).0) (close_export_lem r s k)
    | inr f ↦ λ ro. absurd (ground arith)
  ]

  -- Whatever the client sends, the handler comes to an end, each of its loops within one round more
  -- than bytes were sent. A handler of a read-only export has made no copy-on-write version then, and
  -- what opening and closing a version and reading from it keep of the store is kept.
  pub handler_ends :
      (xs : Bytes) (store : S)
      → P store
      → (outcome : Result (Unit {0}) × Session S) × (handler st read_only xs store ≡ some outcome)
        × (read_only ≡ true → (outcome.1.cow_version ≡ none) × P outcome.1.store)
  unfolding handler
  handler_ends xs store p =
      let ((r, s'), e, k) =
        talk_lem xs (record { store = store; sent = greeting; version = none; cow_version = none })
          (λ ro. (refl, p)) in
      (
        end_session st read_only (handle_errors r) s',
        rw (handler, e) refl,
        end_session_lem (handle_errors r) s' k,
      )
