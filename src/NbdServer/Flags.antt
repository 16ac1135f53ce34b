-- ===== src/NbdServer/Flags.antt =====
-- The flags of a client in the handshake of src/benji/nbdserver.py.
use be_backup.Prelude.{
  ltb, ℕ, ◌^◌, ◌<◌, ◌≡◌, refl, ◌≢◌, Bool, true, none, some, ◌++◌, arith, nat_eq, list_eq,
}
use be_backup.Errors.{ok}
use be_backup.Transforms.{Bytes}
use be_backup.Wire.{pack_be, read_word-pack_be}
use be_backup.NbdServer.{ExportStore, unknown_flags}
use be_backup.NbdServer.Handler.{handle_errors, greeting, close_export, end_session, talk, handler}

-- The handler accepts a client only if its flags are both flags and no other: with any other value of
-- the four bytes the client is sent the greeting and nothing more, and nothing is asked of the store.
pub handler_refuses :
    {S : Type 0} (st : ExportStore S) (read_only : Bool) (flags : ℕ) (rest : Bytes) (store : S)
    → flags < 256 ^ 4
    → flags ≢ 3
    → handler st read_only (pack_be 4 flags ++ rest) store
      ≡ some (ok tt, record { store = store; sent = greeting; version = none; cow_version = none })
unfolding handler talk unknown_flags end_session close_export handle_errors
handler_refuses st read_only flags rest store lt differ =
    let e = read_word-pack_be 4 flags rest lt in
    let unknown : ltb 0 (unknown_flags flags) ≡ true = ground arith in
    rw (handler, talk, e, unknown) refl
