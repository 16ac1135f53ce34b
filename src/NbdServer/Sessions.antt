-- ===== src/NbdServer/Sessions.antt =====
-- What a client of src/benji/nbdserver.py is answered, as requests to a device.
use be_backup.Prelude.{
  length, take, drop, ℕ, ◌+◌, ◌^◌, ◌≤◌, ◌<◌, ◌≡◌, refl, none, List, [], ◌∷◌, ◌++◌, arith, nat_eq,
  list_eq,
}
use be_backup.Errors.{ok}
use be_backup.Database.{Version}
use be_backup.Transforms.{Bytes}
use be_backup.Wire.{pack_be, read_word, read_word-pack_be}
use be_backup.NbdServer.{ExportStore, request_magic, eperm, nbd_response, read_request}

-- a request that a client makes, each with its handle
pub data Action : Type 0 where
  read_at_offset : ℕ → ℕ → ℕ → Action
  write_at_offset : ℕ → ℕ → Bytes → Action
  flush_all : ℕ → Action

-- the bytes of a request, with those after it
abbrev pub encode_request : ℕ → ℕ → ℕ → ℕ → Bytes → Bytes
encode_request cmd handle offset n rest =
    pack_be 4 request_magic
    ++ (pack_be 4 cmd ++ (pack_be 8 handle ++ (pack_be 8 offset ++ (pack_be 4 n ++ rest))))

abbrev pub encode_action : Action → Bytes → Bytes
encode_action (read_at_offset h o n) rest = encode_request 0 h o n rest
encode_action (write_at_offset h o bytes) rest = encode_request 1 h o (length bytes) (bytes ++ rest)
encode_action (flush_all h) rest = encode_request 3 h 0 0 rest

-- requests, and the disconnection
abbrev pub encode_actions : List Action → Bytes
encode_actions [] = encode_request 2 0 0 0 []
encode_actions (a ∷ as_) = encode_action a (encode_actions as_)

-- the reply of a device that cannot be written to
abbrev pub act : Action → Bytes → Bytes
act (read_at_offset h o n) d = nbd_response h 0 (take n (drop o d))
act (write_at_offset h o bytes) d = nbd_response h eperm []
act (flush_all h) d = nbd_response h 0 []

abbrev pub act_all : List Action → Bytes → Bytes
act_all [] d = []
act_all (a ∷ as_) d = act a d ++ act_all as_ d

-- the numbers can be packed, and a read is of bytes of the device, at least one
abbrev pub Fits : ℕ → Action → Type 0
Fits n (read_at_offset h o k) =
    (h < 256 ^ 8) × (o < 256 ^ 8) × (k < 256 ^ 4) × (0 < k) × (o + k ≤ n)
Fits n (write_at_offset h o bytes) = (h < 256 ^ 8) × (o < 256 ^ 8) × (length bytes < 256 ^ 4)
Fits n (flush_all h) = h < 256 ^ 8

pub read_request-encode :
    (cmd handle offset n : ℕ) (rest : Bytes)
    → cmd < 256 ^ 4
    → handle < 256 ^ 8
    → offset < 256 ^ 8
    → n < 256 ^ 4
    → read_request (encode_request cmd handle offset n rest)
      ≡ ok (record { cmd = cmd; handle = handle; offset = offset; length_of = n }, rest)
unfolding read_request
read_request-encode cmd handle offset n rest c h o l =
    let r4 = pack_be 4 n ++ rest in
    let r3 = pack_be 8 offset ++ r4 in
    let r2 = pack_be 8 handle ++ r3 in
    let r1 = pack_be 4 cmd ++ r2 in
    let e1 : read_word 4 (pack_be 4 request_magic ++ r1) ≡ ok (request_magic, r1) =
      read_word-pack_be 4 request_magic r1 (omega arith) in
    let e2 : read_word 4 r1 ≡ ok (cmd, r2) = read_word-pack_be 4 cmd r2 c in
    let e3 : read_word 8 r2 ≡ ok (handle, r3) = read_word-pack_be 8 handle r3 h in
    let e4 : read_word 8 r3 ≡ ok (offset, r4) = read_word-pack_be 8 offset r4 o in
    let e5 : read_word 4 r4 ≡ ok (n, rest) = read_word-pack_be 4 n rest l in
    rw (read_request, e1, e2, e3, e4, e5) refl

-- what the handler of a read-only export asks of a store: that its reads show a device
pub record IsDevice {S : Type 0} (st : ExportStore S) (v : Version) (Shows : S → Bytes → Type 0)
    : Type 0 where
  pub reads :
      (offset n : ℕ) (s : S) (d : Bytes)
      → Shows s d
      → 0 < n
      → offset + n ≤ length d
      → (s' : S) × (st.read_data v none offset n s ≡ (ok (take n (drop offset d)), s')) × Shows s' d
