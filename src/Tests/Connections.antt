-- ===== src/Tests/Connections.antt =====
-- A client that writes a byte, reads, and flushes.
use be_backup.Prelude.{
  list_eqb, take, drop, ◌≡◌, refl, true, false, none, some, List, [], ◌∷◌, ◌++◌, arith, nat_eq,
  list_eq,
}
use be_backup.Errors.{input_data_error, os_error, Result, err, ok}
use be_backup.Transforms.{Bytes}
use be_backup.Io.{write_at}
use be_backup.Wire.{pack_be}
use be_backup.NbdServer.{ExportStore, Session}
use be_backup.NbdServer.Handler.{greeting, handler}
use be_backup.NbdServer.Turns.{export_reply, is_version_uid}
use be_backup.NbdServer.Ends.{KeepsByReads}
use be_backup.NbdServer.Endings.{handler_ends}
use be_backup.NbdServer.Sessions.{Action, read_at_offset, write_at_offset, flush_all, act_all}
use be_backup.NbdServer.Connection.{encode_client}
use be_backup.NbdServer.Export.{with_reads, serves_version}
use be_backup.Uid.{BlockUid}
use be_backup.Tests.Devices.{rows, fetch, cache, is_cache, path, has_sizes, no_copies, rows-IsShown}
use be_backup.NbdServer.Flags.{handler_refuses}
use be_backup.Tests.Runs.{device, version_c}

-- a store that is the bytes of one device
abbrev plain_store : ExportStore Bytes
plain_store = record {
  find_versions = λ s. version_c ∷ [];
  open_version = λ v s. (ok tt, s);
  close_version = λ v s. (ok tt, s);
  create_cow_version = λ v s. (ok v, s);
  read_data = λ v c offset n s. (ok (take n (drop offset s)), s);
  write_data = λ v offset bytes s. (ok tt, write_at offset bytes s);
  flush = λ v s. (ok tt, s);
  fixate = λ v s. (ok tt, s);
}

abbrev actions : List Action
actions = write_at_offset 7 1 (9 ∷ []) ∷ read_at_offset 8 0 4 ∷ flush_all 9 ∷ []

-- a store whose state is the block cache
abbrev cache_store : ExportStore (List (BlockUid × Bytes))
cache_store = record {
  find_versions = λ s. version_c ∷ [];
  open_version = λ v s. (ok tt, s);
  close_version = λ v s. (ok tt, s);
  create_cow_version = λ v s. (err input_data_error, s);
  read_data = λ v c offset n s. (err os_error, s);
  write_data = λ v offset bytes s. (err os_error, s);
  flush = λ v s. (err os_error, s);
  fixate = λ v s. (err os_error, s);
}

abbrev benji_store : ExportStore (List (BlockUid × Bytes))
benji_store = with_reads path cache fetch rows no_copies (λ v. []) cache_store

serves_version_example :
    (outcome : Result (Unit {0}) × Session (List (BlockUid × Bytes))) × (handler benji_store true
        (encode_client (b'c' ∷ []) actions)
        []
      ≡ some outcome)
    × (outcome.1.sent
        ≡ greeting ++ (export_reply true true version_c ++ act_all actions (1 ∷ 2 ∷ 0 ∷ 0 ∷ [])))
unfolding is_version_uid list_eqb
serves_version_example =
    serves_version path cache fetch rows no_copies (λ v. []) is_cache version_c has_sizes
      (omega arith) (1 ∷ 2 ∷ 0 ∷ 0 ∷ []) (refl, rows-IsShown 0) cache_store (b'c' ∷ []) [] []
      actions (omega arith, omega arith, refl, refl, refl, refl)
      (λ b bytes e. absurd (ground arith))
      (
        (omega arith, omega arith, omega arith),
        ((omega arith, omega arith, omega arith, omega arith, omega arith), (omega arith, tt)),
      )

plain_keeps : KeepsByReads plain_store (λ s. s ≡ device)
plain_keeps = record {
  open_keeps = λ v s p. p;
  close_keeps = λ v s p. p;
  read_keeps = λ v c offset n s p. p;
}

handler_ends_example :
    (outcome : Result (Unit {0}) × Session Bytes) × (handler plain_store true
        (encode_client (b'c' ∷ []) actions)
        device
      ≡ some outcome)
    × (true ≡ true → (outcome.1.cow_version ≡ none) × (outcome.1.store ≡ device))
handler_ends_example =
    handler_ends plain_store true (λ s. s ≡ device) plain_keeps (encode_client (b'c' ∷ []) actions)
      device refl

handler_refuses_example :
    handler plain_store false (pack_be 4 1 ++ (1 ∷ 2 ∷ [])) device
    ≡ some (ok tt, record { store = device; sent = greeting; version = none; cow_version = none })
handler_refuses_example =
    handler_refuses plain_store false 1 (1 ∷ 2 ∷ []) device (omega arith)
      (λ e. absurd (ground arith))
