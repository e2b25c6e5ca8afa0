-- ===== src/Tftp/Server/Transfers.antt =====
-- A request that comes to the TFTP server, from its datagram to the end of the session.
use ecen_602_network_program.Base.{
  List, [], arith, drop, if◌then◌else◌, length, length-append, none, refl, some, true, ℕ, ◌*◌, ◌++◌,
  ◌<◌, ◌==◌, ◌||◌, ◌∷◌, ◌≡◌, ◌≤◌,
}
use ecen_602_network_program.Base.Bytes.{same_string}
use ecen_602_network_program.Base.Files.{Files}
use ecen_602_network_program.Tftp.Wire.{file_size, message_size, opcode, rrq_opcode, wrq_opcode}
use ecen_602_network_program.Tftp.Socket.{Network, Socket, datagram, done}
use ecen_602_network_program.Tftp.Request.{Mode, get_mode}
use ecen_602_network_program.Tftp.Request.Parse.{request_message}
use ecen_602_network_program.Tftp.Upload.Arrival.{Uploads}
use ecen_602_network_program.Tftp.Handle.{Handled, Host}
use ecen_602_network_program.Tftp.Handle.Sessions.{Asks, fresh, handle, handle-upload}
use ecen_602_network_program.Tftp.Server.{serve_round}
use ecen_602_network_program.Tftp.Server.Requests.{Comes, serve_round-forked}

-- The datagram of a request is one that the server takes.
pub request-Comes :
    (net : Network) (s : Socket) (from op : ℕ) (name mode : List ℕ)
    → ((op == rrq_opcode) || (op == wrq_opcode)) ≡ true
    → net.recvfrom s.clock ≡ datagram from (request_message op name mode)
    → length (request_message op name mode) ≤ message_size
    → Comes net s from (request_message op name mode)
unfolding opcode
request-Comes net s from op name mode o e l =
    let same : opcode (request_message op name mode) ≡ op = omega arith in
    record {
      arrives = e;
      fits = l;
      enough =
          omega
            (arith, length-append {0} name (0 ∷ (mode ++ 0 ∷ [])), length-append {0} mode (0 ∷ []));
      asks = rw same o;
    }

-- A write request on a name that can be written comes to the server; its name and mode have no NUL in
-- them, its mode is octet or netascii, and it fits a message; fork, socket and setsockopt work; and
-- the network serves the client of the upload well: the child's session ends with success, the file holds the
-- content, and no other file changes, but for the one (if any) that the uninitialised array
-- temp_file_name happens to name: that one is removed.
pub serve_round-stores :
    (net child : Network) (host : Host) (from tid rounds : ℕ)
    (name mode content other memory : List ℕ) (md : Mode) (s : Socket) (files : Files)
    → net.recvfrom s.clock ≡ datagram from (request_message wrq_opcode name mode)
    → length (request_message wrq_opcode name mode) ≤ message_size
    → Asks host name mode
    → get_mode mode ≡ some md
    → host.writable name ≡ true
    → ((t : ℕ) → child.sendto t ≡ true)
    → Uploads child tid rounds content 1 0
    → length content < rounds * file_size
    → let r = serve_round net child true host rounds s memory files in
      (r.listening.socket.sent ≡ s.sent)
      × (h : Handled) × (r.session ≡ some h)
      × (h.outcome ≡ done)
      × (h.files other ≡ (
          if same_string host.stack other
          then none
          else if same_string name other
          then some content
          else files other))
serve_round-stores net child host from tid rounds name mode content other memory md s files e l a m
      w up u k =
    let request = request_message wrq_opcode name mode in
    let stale = drop (length request) memory in
    let (starts, quiet) =
      serve_round-forked net child host rounds from request memory s files
        (request-Comes net s from wrq_opcode name mode refl e l) in
    let (ends, holds) =
      handle-upload child host tid rounds name mode stale content other md 0 from files a m w up u
        k in
    (
      quiet,
      handle child host rounds wrq_opcode name mode stale (fresh 0 from) files,
      starts,
      ends,
      holds,
    )
