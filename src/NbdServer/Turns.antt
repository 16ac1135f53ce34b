-- ===== src/NbdServer/Turns.antt =====
-- What `NbdServer.handler` of src/benji/nbdserver.py does with one option and with one request.
use be_backup.Prelude.{
  leb, if◌then◌else◌, ◌==◌, length, replicate, any, find_first, ℕ, ◌+◌, ◌*◌, ◌/◌, Bool, true, false,
  not, ◌&&◌, ◌||◌, Option, none, some, List, [], ◌∷◌, ◌++◌, nat_eq, list_eq,
}
use be_backup.Errors.{
  input_data_error, os_error, unicode_decode_error, aborted_negotiation_error, Result, err, ok,
}
use be_backup.Database.{Version}
use be_backup.Transforms.{Bytes}
use be_backup.Wire.{pack_be, read_exactly}
use be_backup.NbdServer.{
  ExportStore, Session, rep_ack, rep_server, rep_err_unsup, eperm, eio, einval, ClientOption,
  export_name, abort, list, other, option_of, Command, read_cmd, write_cmd, disc_cmd, flush_cmd,
  unknown_cmd, command_of, has_cmd_flags, option_reply, nbd_response, ClientRequest,
}

-- math.ceil(version.size / 4096) * 4096
abbrev pub export_size : Version → ℕ
export_size v = (v.size + 4095) / 4096 * 4096

-- NBD_EXPORT_FLAGS, and NBD_FLAG_READ_ONLY
abbrev pub export_flags : Bool → ℕ
export_flags read_only = if read_only then 7 else 5

unfoldable pub export_reply : Bool → Bool → Version → Bytes
export_reply read_only no_zeros v =
    pack_be 8 (export_size v)
    ++ pack_be 2 (export_flags read_only)
    ++ (if no_zeros then [] else replicate 124 0)

-- the replies to NBD_OPT_LIST before the last one
unfoldable pub list_replies : ℕ → List Version → Bytes
list_replies opt [] = []
list_replies opt (v ∷ vs) =
    option_reply opt rep_server (length v.uid + 4)
    ++ pack_be 4 (length v.uid)
    ++ v.uid
    ++ list_replies opt vs

abbrev pub is_ascii : Bytes → Bool
is_ascii bytes = not (any (λ b. leb 128 b) bytes)

-- VALUE_REGEXP: letters, digits and the characters -_.:/@+
abbrev pub is_value_char : ℕ → Bool
is_value_char b =
    (leb 97 b && leb b 122)
    || (leb 65 b && leb b 90)
    || (leb 45 b && leb b 58)
    || b == b'_'
    || b == b'@'
    || b == b'+'

abbrev pub ends_in_dash : Bytes → Bool
ends_in_dash [] = false
ends_in_dash (b ∷ []) = b == b'-'
ends_in_dash (b ∷ c ∷ bytes) = ends_in_dash (c ∷ bytes)

abbrev pub starts_with_dash : Bytes → Bool
starts_with_dash [] = false
starts_with_dash (b ∷ bytes) = b == b'-'

-- InputValidation.is_version_uid
unfoldable pub is_version_uid : Bytes → Bool
is_version_uid bytes =
    not (length bytes == 0)
    && not (any (λ b. not (is_value_char b)) bytes)
    && not (starts_with_dash bytes)
    && not (ends_in_dash bytes)

module _ {S : Type 0} (st : ExportStore S) (read_only : Bool) where
  -- writer.write
  unfoldable pub send : Bytes → Session S → Session S
  send bytes s = record s { sent = s.sent ++ bytes }

  -- the version is opened and answered for
  unfoldable pub open_export : Bool → Version → Session S → Result Bool × Session S
  unfolding send export_reply
  open_export no_zeros v s =
      let (r, store') = st.open_version v s.store in
      let opened : Session S = record s { store = store'; version = some v } in
      elim r [
        | err e ↦ (err e, opened)
        | ok u ↦ (ok true, send (export_reply read_only no_zeros v) opened)
      ]

  -- NBD_OPT_EXPORTNAME
  unfoldable pub negotiate_export : Bool → Bool → ℕ → Bytes → Session S → Result Bool × Session S
  unfolding send open_export option_reply
  negotiate_export fixed no_zeros opt name s =
      if length name == 0
      then (err os_error, s)
      else if not (is_ascii name)
      then (err unicode_decode_error, s)
      else if not (is_version_uid name)
      then (err input_data_error, s)
      else elim (find_first (λ v. v.uid == name) (st.find_versions s.store)) [
        | some v ↦ open_export no_zeros v s
        | none ↦
            if fixed
            then (ok false, send (option_reply opt rep_err_unsup 0) s)
            else (err os_error, s)
      ]

  -- a turn of the negotiation; it returns whether the transmission begins
  unfoldable pub negotiate_kind :
      ClientOption → Bool → Bool → ℕ → Bytes → Session S → Result Bool × Session S
  unfolding send negotiate_export option_reply list_replies
  negotiate_kind export_name fixed no_zeros opt bytes s =
      negotiate_export fixed no_zeros opt bytes s
  negotiate_kind list fixed no_zeros opt bytes s =
      (ok false, send (list_replies opt (st.find_versions s.store) ++ option_reply opt rep_ack 0) s)
  negotiate_kind abort fixed no_zeros opt bytes s =
      (err aborted_negotiation_error, send (option_reply opt rep_ack 0) s)
  negotiate_kind other fixed no_zeros opt bytes s =
      if fixed then (ok false, send (option_reply opt rep_err_unsup 0) s) else (err os_error, s)

  unfoldable pub negotiate_turn : Bool → Bool → ℕ → Bytes → Session S → Result Bool × Session S
  unfolding negotiate_kind
  negotiate_turn fixed no_zeros opt bytes s =
      negotiate_kind (option_of opt) fixed no_zeros opt bytes s

  -- NBD_CMD_WRITE, once its data are read
  unfoldable pub serve_write : Version → ℕ → ℕ → Bytes → Session S → Result (Unit {0}) × Session S
  unfolding send nbd_response
  serve_write cow handle offset bytes s =
      let (r, store') = st.write_data cow offset bytes s.store in
      let written : Session S = record s { store = store'; cow_version = some cow } in
      elim r [
        | err e ↦ (ok tt, send (nbd_response handle eio []) written)
        | ok u ↦ (ok tt, send (nbd_response handle 0 []) written)
      ]

  unfoldable pub serve_first_write :
      Version → ℕ → ℕ → Bytes → Session S → Result (Unit {0}) × Session S
  unfolding serve_write
  serve_first_write v handle offset bytes s =
      let (r, store') = st.create_cow_version v s.store in
      elim r [
        | err e ↦ (err e, record s { store = store' })
        | ok cow ↦ serve_write cow handle offset bytes (record s { store = store' })
      ]

  unfoldable pub serve_data :
      Version → ClientRequest → Bytes → Session S → Result (Unit {0}) × Session S
  unfolding send nbd_response serve_write serve_first_write
  serve_data v q bytes s =
      if read_only then (ok tt, send (nbd_response q.handle eperm []) s) else elim s.cow_version [
        | none ↦ serve_first_write v q.handle q.offset bytes s
        | some cow ↦ serve_write cow q.handle q.offset bytes s
      ]

  -- NBD_CMD_READ
  unfoldable pub serve_read : Version → ClientRequest → Session S → Session S
  unfolding send nbd_response
  serve_read v q s =
      let (r, store') = st.read_data v s.cow_version q.offset q.length_of s.store in
      elim r [
        | err e ↦ send (nbd_response q.handle eio []) (record s { store = store' })
        | ok bytes ↦ send (nbd_response q.handle 0 bytes) (record s { store = store' })
      ]

  -- NBD_CMD_FLUSH
  unfoldable pub serve_flush : ClientRequest → Session S → Session S
  unfolding send nbd_response
  serve_flush q s = if read_only then send (nbd_response q.handle 0 []) s else elim s.cow_version [
    | none ↦ send (nbd_response q.handle 0 []) s
    | some cow ↦
        let (r, store') = st.flush cow s.store in
        elim r [
          | err e ↦ send (nbd_response q.handle eio []) (record s { store = store' })
          | ok u ↦ send (nbd_response q.handle 0 []) (record s { store = store' })
        ]
  ]

  -- NBD_CMD_WRITE: its data are read first
  unfoldable pub read_and_write :
      Version → ClientRequest → Bytes → Session S → Result (Option Bytes) × Session S
  unfolding serve_data
  read_and_write v q rest s = elim (read_exactly q.length_of rest) [
    | err e ↦ (err e, s)
    | ok (bytes, after) ↦
        let (r, s') = serve_data v q bytes s in
        elim r [ err e ↦ (err e, s') | ok u ↦ (ok (some after), s') ]
  ]

  -- a turn of the transmission; it returns what is left to read, or that the client has disconnected
  unfoldable pub serve_command :
      Command → Version → ClientRequest → Bytes → Session S → Result (Option Bytes) × Session S
  unfolding send nbd_response serve_read serve_flush read_and_write
  serve_command disc_cmd v q rest s = (ok none, s)
  serve_command read_cmd v q rest s = (ok (some rest), serve_read v q s)
  serve_command flush_cmd v q rest s = (ok (some rest), serve_flush q s)
  serve_command write_cmd v q rest s = read_and_write v q rest s
  serve_command unknown_cmd v q rest s = (ok (some rest), send (nbd_response q.handle einval []) s)

  unfoldable pub request_turn :
      Version → ClientRequest → Bytes → Session S → Result (Option Bytes) × Session S
  unfolding send nbd_response serve_command
  request_turn v q rest s =
      if has_cmd_flags q.cmd
      then (ok (some rest), send (nbd_response q.handle einval []) s)
      else serve_command (command_of q.cmd) v q rest s
