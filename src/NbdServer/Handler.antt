-- ===== src/NbdServer/Handler.antt =====
-- The loops of `NbdServer.handler` of src/benji/nbdserver.py, and its clauses at the end. The fuel of
-- a loop is the number of its rounds.
use be_backup.Prelude.{
  ltb, if◌then◌else◌, length, ℕ, zero, suc, ◌+◌, Bool, true, false, Option, none, some, ◌++◌,
  nat_eq, list_eq,
}
use be_backup.Errors.{os_error, Result, err, ok, is_io_error}
use be_backup.Database.{Version}
use be_backup.Transforms.{Bytes}
use be_backup.Wire.{pack_be, read_word}
use be_backup.NbdServer.{
  ExportStore, Session, init_passwd, cliserv_magic, unknown_flags, is_fixed, is_no_zeros,
  read_option, read_request,
}
use be_backup.NbdServer.Turns.{negotiate_turn, request_turn}

-- except _NbdServerAbortedNegotiationError, asyncio.IncompleteReadError and IOError
unfoldable pub handle_errors : Result (Unit {0}) → Result (Unit {0})
handle_errors (ok u) = ok tt
handle_errors (err e) = if is_io_error e then ok tt else err e

unfoldable pub greeting : Bytes
greeting = pack_be 8 init_passwd ++ pack_be 8 cliserv_magic ++ pack_be 2 3

module _ {S : Type 0} (st : ExportStore S) (read_only : Bool) where
  unfoldable pub negotiate : ℕ → Bool → Bool → Bytes → Session S → Option (Result Bytes × Session S)
  negotiate zero fixed no_zeros xs s = none
  negotiate (suc rounds) fixed no_zeros xs s = elim (read_option xs) [
    | err e ↦ some (err e, s)
    | ok ((opt, bytes), rest) ↦
        let (r, s') = negotiate_turn st read_only fixed no_zeros opt bytes s in
        elim r [
          | err e ↦ some (err e, s')
          | ok transmit ↦ elim transmit [
            | true ↦ some (ok rest, s')
            | false ↦ negotiate rounds fixed no_zeros rest s'
          ]
        ]
  ]

  unfoldable pub transmit : ℕ → Version → Bytes → Session S → Option (Result (Unit {0}) × Session S)
  transmit zero v xs s = none
  transmit (suc rounds) v xs s = elim (read_request xs) [
    | err e ↦ some (err e, s)
    | ok (q, rest) ↦
        let (r, s') = request_turn st read_only v q rest s in
        elim r [
          | err e ↦ some (err e, s')
          | ok o ↦ elim o [ none ↦ some (ok tt, s') | some after ↦ transmit rounds v after s' ]
        ]
  ]

  -- finally: what is raised here takes the place of what was
  unfoldable pub close_export : Result (Unit {0}) → Session S → Result (Unit {0}) × Session S
  close_export r s = elim s.version [
    | none ↦ (r, s)
    | some v ↦
        let (c, store') = st.close_version v s.store in
        let closed : Session S = record s { store = store' } in
        elim c [ err e ↦ (err e, closed) | ok u ↦ (r, closed) ]
  ]

  unfoldable pub end_session : Result (Unit {0}) → Session S → Result (Unit {0}) × Session S
  unfolding close_export
  end_session r s = elim s.cow_version [
    | none ↦ close_export r s
    | some cow ↦
        let (c, store') = st.fixate cow s.store in
        let fixated : Session S = record s { store = store' } in
        elim c [ err e ↦ (err e, fixated) | ok u ↦ close_export r fixated ]
  ]

  unfoldable pub after_negotiation :
      ℕ → Result Bytes × Session S → Option (Result (Unit {0}) × Session S)
  unfolding transmit
  after_negotiation rounds (err e, s) = some (err e, s)
  after_negotiation rounds (ok rest, s) = elim s.version [
    | none ↦ none
    | some v ↦ transmit rounds v rest s
  ]

  -- the body of the `try`
  unfoldable pub talk : ℕ → Bytes → Session S → Option (Result (Unit {0}) × Session S)
  unfolding negotiate after_negotiation
  talk rounds xs s = elim (read_word 4 xs) [
    | err e ↦ some (err e, s)
    | ok (flags, rest) ↦
        if ltb 0 (unknown_flags flags)
        then some (err os_error, s)
        else elim (negotiate rounds (is_fixed flags) (is_no_zeros flags) rest s) [
          | none ↦ none
          | some outcome ↦ after_negotiation rounds outcome
        ]
  ]

  -- `handler`, with enough rounds for what the client sends
  unfoldable pub handler : Bytes → S → Option (Result (Unit {0}) × Session S)
  unfolding talk greeting end_session handle_errors
  handler xs store =
      let s : Session S = record {
        store = store;
        sent = greeting;
        version = none;
        cow_version = none;
      } in
      elim (talk (length xs + 1) xs s) [
        | none ↦ none
        | some (r, s') ↦ some (end_session (handle_errors r) s')
      ]
