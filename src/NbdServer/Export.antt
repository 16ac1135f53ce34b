-- ===== src/NbdServer/Export.antt =====
-- A connection to src/benji/nbdserver.py, with the reads of `BenjiStore` of src/benji/benji.py.
use be_backup.Prelude.{
  length, take, drop, All, ℕ, ◌+◌, ◌≤◌, ◌<◌, ◌≡◌, refl, sym, ap, ◌∙◌, true, Option, none, some,
  List, [], ◌++◌, arith,
}
use be_backup.Errors.{os_error, Result, err, ok}
use be_backup.Uid.{Text, BlockUid}
use be_backup.Database.{Block, Version, Database}
use be_backup.Transforms.{Bytes}
use be_backup.BlockList.Cover.{HasBlockSizes}
use be_backup.NbdStore.{BlockStore, BlockCache, read}
use be_backup.NbdStore.Device.{Shows}
use be_backup.NbdStore.Reads.{IsCoherent, IsCache, read-Shows}
use be_backup.NbdServer.{ExportStore, Session}
use be_backup.NbdServer.Turns.{export_reply}
use be_backup.NbdServer.Handler.{greeting, handler}
use be_backup.NbdServer.Sessions.{Action, act_all, Fits, IsDevice}
use be_backup.NbdServer.Connection.{encode_client, IsExported, serves_device}

module _ {C : Type 0} (path : BlockUid → Result Text) (cache : BlockCache C)
    (fetch : Block → Result Bytes) (db : Database) (copy_store : BlockStore)
    (copies_of : Version → List (ℕ × Block)) where
  -- a read that runs out of fuel is one that raises, to the handler
  abbrev read_outcome : C → Option (Result (Bytes × C)) → Result Bytes × C
  read_outcome c none = (err os_error, c)
  read_outcome c (some (err e)) = (err e, c)
  read_outcome c (some (ok (bytes, c'))) = (ok bytes, c')

  -- the store, its state the cache, whose reads are those of BenjiStore
  abbrev pub with_reads : ExportStore C → ExportStore C
  with_reads st = record st {
    read_data = λ v cow_version offset n c. read_outcome c (
        read path cache fetch db v (elim cow_version [ none ↦ none | some w ↦ some (copies_of w) ])
          copy_store c offset n);
  }

  module _ (is_cache : IsCache cache fetch) (v : Version) (sizes : HasBlockSizes db v)
      (size_positive : 0 < v.block_size) (dev : Bytes)
      (shows : Shows path fetch 0 v db [] copy_store dev) (st : ExportStore C) where
    -- the cache has of a block only what the storage has, and the device is this one
    abbrev pub IsCurrent : C → Bytes → Type 0
    IsCurrent c d = IsCoherent cache fetch c × (d ≡ dev)

    with_reads-IsDevice : IsDevice (with_reads st) v IsCurrent
    with_reads-IsDevice = record {
      reads = λ offset n c d (coherent, same) pos le.
          let fits : offset + n ≤ v.size = omega (arith, shows.0, ap (λ x. length x) same, le) in
          let (c', e, coherent') =
            read-Shows path cache fetch is_cache 0 v db copy_store dev none offset n c sizes shows
              coherent size_positive pos fits in
          (
            c',
            ap (read_outcome c) e ∙ ap (λ x. (ok (take n (drop offset x)), c')) (sym same),
            (coherent', same),
          );
    }

    -- Let a version have a positive block size and blocks of the right sizes that show a device, let
    -- the store open it, let the cache have of a block only what the storage has, also once the
    -- version is open, and let the client's numbers fit and each of its reads be of at least one byte
    -- within the version. Then a client of a read-only export that sets both flags, names the
    -- version, makes requests and disconnects is sent the greeting, the export's size and flags, and
    -- for each request, in order, the reply of the device: to a read the bytes that are there, to a
    -- write an error, and to a flush nothing more.
    pub serves_version :
        (uid : Text) (store opened : C) (as_ : List Action)
        → IsExported (with_reads st) v uid store opened
        → IsCoherent cache fetch opened
        → All (Fits v.size) as_
        → (outcome : Result (Unit {0}) × Session C) × (handler
              (with_reads st)
              true
              (encode_client uid as_)
              store
            ≡ some outcome)
          × (outcome.1.sent ≡ greeting ++ (export_reply true true v ++ act_all as_ dev))
    serves_version uid store opened as_ exported coherent fits =
        serves_device (with_reads st) v IsCurrent with_reads-IsDevice uid store opened as_ dev
          exported (coherent, refl) (rw shows.0 fits)
