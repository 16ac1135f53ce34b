-- ===== src/NbdServer.antt =====
-- `NbdServer.handler` of src/benji/nbdserver.py, from the first bytes of a client to the end of its
-- connection. What the client sends is a list of bytes, and so is what it is sent; the store, a
-- BenjiStore, is an argument. A number that is packed fits, and the UID of a version is ASCII.
pub mod Turns
pub mod Handler
pub mod Rounds
pub mod Ends
pub mod Endings
pub mod Sessions
pub mod DeviceTurns
pub mod Served
pub mod Connection
pub mod Export
pub mod Flags
use be_backup.Prelude.{
  if◌then◌else◌, ◌==◌, ℕ, ◌+◌, ◌-◌, ◌*◌, ◌/◌, ◌%◌, ◌^◌, Bool, not, Option, List, ◌++◌, nat_eq,
  list_eq,
}
use be_backup.Errors.{os_error, Result, ok, ◌>>=◌, ◌>>◌, require}
use be_backup.Database.{Version}
use be_backup.Transforms.{Bytes}
use be_backup.Wire.{pack_be, read_exactly, read_word}

-- the methods of BenjiStore, which raise or return, and what state they leave
pub record ExportStore (S : Type 0) : Type 0 where
  pub find_versions : S → List Version
  pub open_version : Version → S → Result (Unit {0}) × S
  pub close_version : Version → S → Result (Unit {0}) × S
  pub create_cow_version : Version → S → Result Version × S
  pub read_data : Version → Option Version → ℕ → ℕ → S → Result Bytes × S
  pub write_data : Version → ℕ → Bytes → S → Result (Unit {0}) × S
  pub flush : Version → S → Result (Unit {0}) × S
  pub fixate : Version → S → Result (Unit {0}) × S

-- the local variables of the handler, with the store and what was written to the client
pub record Session (S : Type 0) : Type 0 where
  pub store : S
  pub sent : Bytes
  pub version : Option Version
  pub cow_version : Option Version

-- b'NBDMAGIC', b'IHAVEOPT', and the other magic numbers
abbrev pub init_passwd : ℕ
init_passwd = 5639144782019643715

abbrev pub cliserv_magic : ℕ
cliserv_magic = 5280542401877725268

abbrev pub opt_reply_magic : ℕ
opt_reply_magic = 1100100111001001

abbrev pub request_magic : ℕ
request_magic = 627086611

abbrev pub reply_magic : ℕ
reply_magic = 1732535960

-- NBD_REP_ACK, NBD_REP_SERVER, NBD_REP_ERR_UNSUP
abbrev pub rep_ack : ℕ
rep_ack = 1

abbrev pub rep_server : ℕ
rep_server = 2

abbrev pub rep_err_unsup : ℕ
rep_err_unsup = 2 ^ 31 + 1

-- EPERM, EIO, EINVAL
abbrev pub eperm : ℕ
eperm = 1

abbrev pub eio : ℕ
eio = 5

abbrev pub einval : ℕ
einval = 22

-- NBD_OPT_EXPORTNAME and the others that are served
pub data ClientOption : Type 0 where
  export_name abort list other : ClientOption

abbrev pub option_of : ℕ → ClientOption
option_of n =
    if n == 1 then export_name else if n == 2 then abort else if n == 3 then list else other

pub data Command : Type 0 where
  read_cmd write_cmd disc_cmd flush_cmd unknown_cmd : Command

-- cmd & NBD_CMD_MASK_COMMAND
abbrev pub command_of : ℕ → Command
command_of n =
    let c = n % 65536 in
    if c == 0
    then read_cmd
    else if c == 1
    then write_cmd
    else if c == 2
    then disc_cmd
    else if c == 3
    then flush_cmd
    else unknown_cmd

-- cmd & NBD_CMD_MASK_FLAGS
abbrev pub has_cmd_flags : ℕ → Bool
has_cmd_flags n = not (n / 65536 == 0)

-- client_flags ^= NBD_FLAG_FIXED_NEWSTYLE | NBD_FLAG_NO_ZEROES
unfoldable pub unknown_flags : ℕ → ℕ
unknown_flags flags = flags / 4 * 4 + (3 - flags % 4)

abbrev pub is_fixed : ℕ → Bool
is_fixed flags = flags % 2 == 1

abbrev pub is_no_zeros : ℕ → Bool
is_no_zeros flags = flags / 2 % 2 == 1

-- the reply to an option, without its data
unfoldable pub option_reply : ℕ → ℕ → ℕ → Bytes
option_reply opt rep n = pack_be 8 opt_reply_magic ++ pack_be 4 opt ++ pack_be 4 rep ++ pack_be 4 n

-- `nbd_response`
unfoldable pub nbd_response : ℕ → ℕ → Bytes → Bytes
nbd_response handle error bytes =
    pack_be 4 reply_magic ++ pack_be 4 error ++ pack_be 8 handle ++ bytes

-- the header of an option, and its data
unfoldable pub read_option : Bytes → Result ((ℕ × Bytes) × Bytes)
read_option xs = do
  (magic, r1) ← read_word 8 xs
  (opt, r2) ← read_word 4 r1
  (n, r3) ← read_word 4 r2
  require (magic == cliserv_magic) os_error
  (bytes, r4) ← read_exactly n r3
  ok ((opt, bytes), r4)

pub record ClientRequest : Type 0 where
  pub cmd : ℕ
  pub handle : ℕ
  pub offset : ℕ
  pub length_of : ℕ

-- the header of a request
unfoldable pub read_request : Bytes → Result (ClientRequest × Bytes)
read_request xs = do
  (magic, r1) ← read_word 4 xs
  (cmd, r2) ← read_word 4 r1
  (handle, r3) ← read_word 8 r2
  (offset, r4) ← read_word 8 r3
  (n, r5) ← read_word 4 r4
  require (magic == request_magic) os_error
  ok (record { cmd = cmd; handle = handle; offset = offset; length_of = n }, r5)
