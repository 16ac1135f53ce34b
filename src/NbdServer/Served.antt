-- ===== src/NbdServer/Served.antt =====
-- A whole connection to src/benji/nbdserver.py: what the client is sent.
use mathlib.Core.List.{append_assoc, append-nil}
use be_backup.Prelude.{
  length, All, ℕ, zero, suc, ◌<◌, ◌≡◌, refl, sym, ap, ◌∙◌, true, Option, none, some, List, [], ◌∷◌,
  ◌++◌, arith, nat_eq, list_eq,
}
use be_backup.Errors.{Result, err, ok}
use be_backup.Database.{Version}
use be_backup.Transforms.{Bytes}
use be_backup.Wire.{read_exactly-append}
use be_backup.NbdServer.{ExportStore, Session, ClientRequest, read_request}
use be_backup.NbdServer.Turns.{serve_read, serve_flush, read_and_write, serve_command, request_turn}
use be_backup.NbdServer.Handler.{transmit}
use be_backup.NbdServer.Sessions.{
  Action, read_at_offset, write_at_offset, flush_all, encode_action, encode_actions, act, act_all,
  Fits, read_request-encode, IsDevice,
}
use be_backup.NbdServer.DeviceTurns.{
  ShowsDevice, Answers, serve_data_lem, serve_read_lem, serve_flush_lem,
}

module _ {S : Type 0} (st : ExportStore S) (v : Version) (Shows : S → Bytes → Type 0)
    (device : IsDevice st v Shows) where
  -- the request is read, and its turn answers it as the device does
  abbrev IsServed : Action → Bytes → Session S → Bytes → Type 0
  IsServed a rest s d =
      (q : ClientRequest) × (left : Bytes) × (s' : Session S) × (read_request (encode_action a rest)
        ≡ ok (q, left))
      × (request_turn st true v q left s ≡ (ok (some rest), s'))
      × Answers st v Shows device s (act a d) d s'

  action_turn :
      (a : Action) (rest : Bytes) (s : Session S) (d : Bytes)
      → ShowsDevice st v Shows device s d
      → Fits (length d) a
      → IsServed a rest s d
  unfolding request_turn serve_command read_and_write
  action_turn (read_at_offset h o n) rest s d shows f =
      let q : ClientRequest = record { cmd = 0; handle = h; offset = o; length_of = n } in
      (
        q,
        rest,
        serve_read st true v q s,
        read_request-encode 0 h o n rest (omega arith) f.0 f.1 f.2,
        refl,
        serve_read_lem st v Shows device q s d shows f.3 f.4,
      )
  action_turn (flush_all h) rest s d shows f =
      let q : ClientRequest = record { cmd = 3; handle = h; offset = 0; length_of = 0 } in
      (
        q,
        rest,
        serve_flush st true q s,
        read_request-encode 3 h 0 0 rest (omega arith) f (omega arith) (omega arith),
        refl,
        serve_flush_lem st v Shows device q s d shows,
      )
  action_turn (write_at_offset h o bytes) rest s d shows f =
      let q : ClientRequest = record {
        cmd = 1;
        handle = h;
        offset = o;
        length_of = length bytes;
      } in
      let (s', e, answers) = serve_data_lem st v Shows device q bytes s d shows in
      let go : Result (Unit {0}) × Session S → Result (Option Bytes) × Session S =
        λ x. elim x.0 [ err e ↦ (err e, x.1) | ok u ↦ (ok (some rest), x.1) ] in
      (
        q,
        bytes ++ rest,
        s',
        read_request-encode 1 h o (length bytes) (bytes ++ rest) (omega arith) f.0 f.1 f.2,
        rw (request_turn, serve_command, read_and_write, read_exactly-append bytes rest) (ap go e),
        answers,
      )

  round_lem :
      (rounds : ℕ) (q : ClientRequest) (xs left rest : Bytes) (s s' : Session S)
      → read_request xs ≡ ok (q, left)
      → request_turn st true v q left s ≡ (ok (some rest), s')
      → transmit st true (suc rounds) v xs s ≡ transmit st true rounds v rest s'
  unfolding transmit
  round_lem rounds q xs left rest s s' e turn =
      let go : Result (Option Bytes) × Session S → Option (Result (Unit {0}) × Session S) = λ x.
        elim x.0 [
          | err e ↦ some (err e, x.1)
          | ok o ↦ elim o [
            | none ↦ some (ok tt, x.1)
            | some after ↦ transmit st true rounds v after x.1
          ]
        ] in
      rw (transmit, e) (ap go turn)

  pub served_lem :
      (as_ : List Action) (rounds : ℕ) (s : Session S) (d : Bytes)
      → length as_ < rounds
      → ShowsDevice st v Shows device s d
      → All (Fits (length d)) as_
      → (s' : Session S) × (transmit st true rounds v (encode_actions as_) s ≡ some (ok tt, s'))
        × (s'.sent ≡ s.sent ++ act_all as_ d)
  unfolding transmit request_turn serve_command
  served_lem as_ zero s d lt shows f = absurd (omega arith)
  served_lem [] (suc rounds) s d lt shows f =
      let q : ClientRequest = record { cmd = 2; handle = 0; offset = 0; length_of = 0 } in
      let e =
        read_request-encode 2 0 0 0 [] (omega arith) (omega arith) (omega arith) (omega arith) in
      (s, rw (transmit, e) refl, sym (append-nil s.sent))
  served_lem (a ∷ as_) (suc rounds) s d lt shows f =
      let (q, left, s1, e, turn, (sent, shows1)) =
        action_turn a (encode_actions as_) s d shows f.0 in
      let (s', e', sent') = served_lem as_ rounds s1 d (omega arith) shows1 f.1 in
      (
        s',
        round_lem rounds q (encode_action a (encode_actions as_)) left (encode_actions as_) s s1 e
              turn
            ∙ e',
        sent' ∙ (rw sent (append_assoc s.sent (act a d) (act_all as_ d))),
      )
