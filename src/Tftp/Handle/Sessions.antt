-- ===== src/Tftp/Handle/Sessions.antt =====
-- Whole sessions: from the text of a request to the state of the files.
use ecen_602_network_program.Base.{
  Bool, List, [], ap, arith, if◌then◌else◌, length, length-append, none, refl, some, true, ℕ, ◌*◌,
  ◌++◌, ◌+◌, ◌<◌, ◌∙◌, ◌∷◌, ◌≡◌, ◌≢◌,
}
use ecen_602_network_program.Base.Bytes.{NoNul, codes, same_string}
use ecen_602_network_program.Base.Files.{Files, update}
use ecen_602_network_program.Tftp.Wire.{error_message, file_size, opcode, rrq_opcode, wrq_opcode}
use ecen_602_network_program.Tftp.Socket.{
  Network, Socket, aborted, done, running, send_error_message, send_message,
}
use ecen_602_network_program.Tftp.Request.{Mode, get_mode, octet, parse_request, request}
use ecen_602_network_program.Tftp.Request.Parse.{
  parse_request-append, parse_request-request_message, request_message,
}
use ecen_602_network_program.Tftp.Download.Confirmed.{Confirmed, IsTransfer, send_file-IsTransfer}
use ecen_602_network_program.Tftp.Download.Progress.{send_file-ends}
use ecen_602_network_program.Tftp.Upload.{upload}
use ecen_602_network_program.Tftp.Upload.Arrival.{Stores, Uploads, upload-Stores}
use ecen_602_network_program.Tftp.Handle.{
  Handled, Host, handle_message, open_read, open_write, serve_read, serve_write,
}

-- A request in the memory of a message, with `stale` behind it, on a machine that gives a socket.
pub record Asks (host : Host) (name mode : List ℕ) : Type 0 where
  pub plain_name : NoNul name
  pub plain_mode : NoNul mode
  pub socket_works : host.socket_works ≡ true
  pub timeout_works : host.timeout_works ≡ true

abbrev pub handle : Network → Host → ℕ → ℕ → List ℕ → List ℕ → List ℕ → Socket → Files → Handled
handle net host rounds op name mode stale s files =
    handle_message net host rounds (request_message op name mode ++ stale)
      (length (request_message op name mode)) s files

parsed :
    (op : ℕ) (name mode stale : List ℕ)
    → NoNul name
    → NoNul mode
    → parse_request (request_message op name mode ++ stale) (length (request_message op name mode))
      ≡ request name mode
parsed op name mode stale h k =
    parse_request-append (request_message op name mode) stale
      (omega (arith, length-append {0} name (0 ∷ (mode ++ 0 ∷ []))))
    ∙ parse_request-request_message op name mode h k

handle-read :
    (net : Network) (host : Host) (rounds : ℕ) (name mode stale : List ℕ) (s : Socket)
    (files : Files)
    → Asks host name mode
    → handle net host rounds rrq_opcode name mode stale s files
      ≡ open_read net host (get_mode mode) name s files
unfolding handle_message opcode
handle-read net host rounds name mode stale s files a =
    rw
      (parsed rrq_opcode name mode stale a.plain_name a.plain_mode, a.socket_works, a.timeout_works)
      refl

handle-write :
    (net : Network) (host : Host) (rounds : ℕ) (name mode stale : List ℕ) (s : Socket)
    (files : Files)
    → Asks host name mode
    → handle net host rounds wrq_opcode name mode stale s files
      ≡ open_write net host rounds (get_mode mode) name s files
unfolding handle_message opcode
handle-write net host rounds name mode stale s files a =
    rw
      (parsed wrq_opcode name mode stale a.plain_name a.plain_mode, a.socket_works, a.timeout_works)
      refl

abbrev pub fresh : ℕ → ℕ → Socket
fresh clock peer = record { clock = clock; peer = peer; sent = [] }

-- The session behind a request that opens its file.
handle-serve_read :
    (net : Network) (host : Host) (rounds : ℕ) (name mode stale file : List ℕ) (md : Mode)
    (s : Socket) (files : Files)
    → Asks host name mode
    → get_mode mode ≡ some md
    → files name ≡ some file
    → handle net host rounds rrq_opcode name mode stale s files
      ≡ serve_read net host name md file s files
unfolding open_read
handle-serve_read net host rounds name mode stale file md s files a m f =
    handle-read net host rounds name mode stale s files a
    ∙ ap (λ o. open_read net host o name s files) m
    ∙ rw (f, open_read) refl

-- What a session of a download promises: it ends; what it sends is a first part of the file, all of it
-- if the session says that it is done, and then each block was acknowledged.
pub record Downloads (net : Network) (file : List ℕ) (clock : ℕ) (h : Handled) : Type 0 where
  pub ends : h.outcome ≢ running
  pub transfers : IsTransfer net (length file + 1) file clock (h.outcome, h.socket)

serve_read-octet :
    (net : Network) (host : Host) (name file : List ℕ) (clock peer : ℕ) (files : Files)
    → Downloads net file clock (serve_read net host name octet file (fresh clock peer) files)
unfolding serve_read
serve_read-octet net host name file clock peer files = record {
  ends = send_file-ends net (length file + 1) file 0 (fresh clock peer) (omega arith);
  transfers = send_file-IsTransfer net (length file + 1) file clock peer;
}

-- A read request in mode octet for a file that is there, whatever the network does and whatever
-- stands behind the request in the buffer.
pub handle-octet :
    (net : Network) (host : Host) (rounds : ℕ) (name mode stale file : List ℕ) (clock peer : ℕ)
    (files : Files)
    → Asks host name mode
    → get_mode mode ≡ some octet
    → files name ≡ some file
    → Downloads net file clock
        (handle net host rounds rrq_opcode name mode stale (fresh clock peer) files)
handle-octet net host rounds name mode stale file clock peer files a m f =
    rw (handle-serve_read net host rounds name mode stale file octet (fresh clock peer) files a m f)
      (serve_read-octet net host name file clock peer files)

-- The content takes the place of the emptied file.
written_over :
    (files : Files) (removed : Bool) (name other content : List ℕ)
    → (if removed
        then none
        else if same_string name other
        then some content
        else update files name (some []) other)
      ≡ (if removed then none else if same_string name other then some content else files other)
unfolding update
written_over files removed name other content = ground arith

-- A write request on a name that can be written, from a client that the network serves well: the
-- session ends with success, the file holds the content, and no other file changes, but for the
-- one (if any) that the uninitialised array temp_file_name happens to name: that one is removed.
pub handle-upload :
    (net : Network) (host : Host) (from rounds : ℕ) (name mode stale content other : List ℕ)
    (md : Mode) (clock peer : ℕ) (files : Files)
    → Asks host name mode
    → get_mode mode ≡ some md
    → host.writable name ≡ true
    → ((t : ℕ) → net.sendto t ≡ true)
    → Uploads net from rounds content (clock + 1) 0
    → length content < rounds * file_size
    → let h = handle net host rounds wrq_opcode name mode stale (fresh clock peer) files in
      (h.outcome ≡ done)
      × (h.files other ≡ (
          if same_string host.stack other
          then none
          else if same_string name other
          then some content
          else files other))
unfolding open_write serve_write update
handle-upload net host from rounds name mode stale content other md clock peer files a m w up u l =
    let st : Stores [] content (upload net rounds (fresh clock peer)) =
      upload-Stores net from rounds content (fresh clock peer) up u l in
    rw
      (
        handle-write net host rounds name mode stale (fresh clock peer) files a,
        m,
        open_write,
        w,
        st.outcome,
        st.file,
      )
      (refl, written_over files (same_string host.stack other) name other content)

-- A write request with a mode that is none, on a name that can be written: an ERROR packet with the
-- code 0 and the text "Invalid mode" goes to the client, if sendto works; the session is left; and the
-- file is empty, or new, all the same.
pub handle-invalid_mode :
    (net : Network) (host : Host) (rounds : ℕ) (name mode stale other : List ℕ) (s : Socket)
    (files : Files)
    → Asks host name mode
    → get_mode mode ≡ none
    → host.writable name ≡ true
    → let h = handle net host rounds wrq_opcode name mode stale s files in
      (h.outcome ≡ aborted)
      × (h.socket.sent ≡ (
          if net.sendto s.clock
          then s.sent
            ++ record { to = s.peer; bytes = 0 ∷ 5 ∷ 0 ∷ 0 ∷ (codes "Invalid mode" ++ 0 ∷ []) } ∷ []
          else s.sent))
      × (h.files other ≡ (if same_string name other then some [] else files other))
unfolding open_write update send_error_message send_message error_message
handle-invalid_mode net host rounds name mode stale other s files a m w =
    rw (handle-write net host rounds name mode stale s files a, m, open_write, w)
      (refl, ground arith, refl)
