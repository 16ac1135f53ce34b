-- ===== src/NbdServer/DeviceTurns.antt =====
-- What the handler of src/benji/nbdserver.py does with a request, on a read-only export
-- of a store that shows a device.
use be_backup.Prelude.{
  length, ◌+◌, ◌≤◌, ◌<◌, ◌≡◌, refl, sym, ap, subst, ◌∙◌, true, Option, none, [], ◌++◌, nat_eq,
  list_eq,
}
use be_backup.Errors.{Result, err, ok}
use be_backup.Database.{Version}
use be_backup.Transforms.{Bytes}
use be_backup.NbdServer.{ExportStore, Session, eperm, eio, nbd_response, ClientRequest}
use be_backup.NbdServer.Turns.{send, serve_data, serve_read, serve_flush}
use be_backup.NbdServer.Sessions.{read_at_offset, act, IsDevice}

module _ {S : Type 0} (st : ExportStore S) (v : Version) (Shows : S → Bytes → Type 0)
    (device : IsDevice st v Shows) where
  -- a session of a read-only export
  abbrev pub ShowsDevice : Session S → Bytes → Type 0
  ShowsDevice s d = (s.cow_version ≡ none) × Shows s.store d

  -- a step from one session to another, with what was sent
  abbrev pub Answers : Session S → Bytes → Bytes → Session S → Type 0
  Answers s reply d s' = (s'.sent ≡ s.sent ++ reply) × ShowsDevice s' d

  pub serve_data_lem :
      (q : ClientRequest) (bytes : Bytes) (s : Session S) (d : Bytes)
      → ShowsDevice s d
      → (s' : Session S) × (serve_data st true v q bytes s ≡ (ok tt, s'))
        × Answers s (nbd_response q.handle eperm []) d s'
  unfolding serve_data send
  serve_data_lem q bytes s d shows =
      (send st true (nbd_response q.handle eperm []) s, refl, (refl, shows))

  pub serve_read_lem :
      (q : ClientRequest) (s : Session S) (d : Bytes)
      → ShowsDevice s d
      → 0 < q.length_of
      → q.offset + q.length_of ≤ length d
      → Answers s
          (act (read_at_offset q.handle q.offset q.length_of) d)
          d
          (serve_read st true v q s)
  unfolding serve_read send
  serve_read_lem q s d (original, shows) pos le =
      let (t, e, shows') = device.reads q.offset q.length_of s.store d shows pos le in
      let of_copies : Option Version → Result Bytes × S =
        λ c. st.read_data v c q.offset q.length_of s.store in
      let answer : Result Bytes × S → Session S = λ x. elim x.0 [
        | err e ↦ send st true (nbd_response q.handle eio []) (record s { store = x.1 })
        | ok bytes ↦ send st true (nbd_response q.handle 0 bytes) (record s { store = x.1 })
      ] in
      subst (Answers s (act (read_at_offset q.handle q.offset q.length_of) d) d)
        (sym (ap answer (ap of_copies original ∙ e))) (refl, (original, shows'))

  pub serve_flush_lem :
      (q : ClientRequest) (s : Session S) (d : Bytes)
      → ShowsDevice s d
      → Answers s (nbd_response q.handle 0 []) d (serve_flush st true q s)
  unfolding serve_flush send
  serve_flush_lem q s d shows = (refl, shows)
