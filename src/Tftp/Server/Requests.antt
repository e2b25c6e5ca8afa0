-- ===== src/Tftp/Server/Requests.antt =====
-- From a datagram at the socket of the TFTP server to the end of the session that it starts.
use ecen_602_network_program.Base.{
  Bool, List, ap, arith, false, length, ltb, refl, some, sym, take_all, true, ℕ, ◌+◌, ◌==◌, ◌||◌,
  ◌∙◌, ◌≡◌, ◌≤◌, ◌⊎◌,
}
use ecen_602_network_program.Base.Files.{Files}
use ecen_602_network_program.Tftp.Wire.{message_size, opcode, rrq_opcode, wrq_opcode}
use ecen_602_network_program.Tftp.Socket.{Network, Recv, Socket, datagram, receive_message}
use ecen_602_network_program.Tftp.Request.{parse_request}
use ecen_602_network_program.Tftp.Handle.{Handled, Host, handle_message}
use ecen_602_network_program.Tftp.Handle.Sessions.{fresh}
use ecen_602_network_program.Tftp.Server.{
  Round, classify, forked, idle, listen_round, overwrite, refused, run_session, serve_round,
}
use ecen_602_network_program.Tftp.Server.Rounds.{classified, opcode-overwrite}

-- A datagram of a request, at the next call of recvfrom.
pub record Comes (net : Network) (s : Socket) (from : ℕ) (bytes : List ℕ) : Type 0 where
  pub arrives : net.recvfrom s.clock ≡ datagram from bytes
  pub fits : length bytes ≤ message_size
  pub enough : 4 ≤ length bytes
  pub asks : ((opcode bytes == rrq_opcode) || (opcode bytes == wrq_opcode)) ≡ true

listen_round-request :
    (net : Network) (from : ℕ) (bytes memory : List ℕ) (s : Socket)
    → Comes net s from bytes
    → listen_round net s memory ≡ record {
      round = forked (overwrite bytes memory) (length bytes);
      socket = record s { clock = s.clock + 1; peer = from };
      memory = overwrite bytes memory;
    }
unfolding listen_round receive_message
listen_round-request net from bytes memory s c =
    let long : ltb (length bytes) 4 ≡ false = ground (arith, c.enough) in
    rw
      (
        c.arrives,
        receive_message,
        take_all message_size bytes c.fits,
        long,
        opcode-overwrite bytes memory c.enough,
        c.asks,
      )
      refl

-- The round behind such a datagram: the socket has sent nothing, and the child has the memory.
pub serve_round-forked :
    (net child : Network) (host : Host) (rounds from : ℕ) (bytes memory : List ℕ) (s : Socket)
    (files : Files)
    → Comes net s from bytes
    → let r = serve_round net child true host rounds s memory files in
      (r.session
        ≡ some (
            handle_message child host rounds
              (overwrite bytes memory)
              (length bytes)
              (fresh 0 from)
              files))
      × (r.listening.socket.sent ≡ s.sent)
unfolding serve_round
serve_round-forked net child host rounds from bytes memory s files c =
    rw (listen_round-request net from bytes memory s c) (refl, refl)

-- A session reads its message by the opcode and the parser only.
handle_message-same :
    (net : Network) (host : Host) (rounds : ℕ) (message bytes : List ℕ) (m n : ℕ) (s : Socket)
    (files : Files)
    → opcode message ≡ opcode bytes
    → parse_request message m ≡ parse_request bytes n
    → handle_message net host rounds message m s files
      ≡ handle_message net host rounds bytes n s files
unfolding handle_message
handle_message-same net host rounds message bytes m n s files op text = rw (op, text) refl

peer-receive_message :
    (net : Network) (s : Socket) (from : ℕ) (bytes : List ℕ)
    → (receive_message net s).0 ≡ datagram from bytes
    → (receive_message net s).1.peer ≡ from
unfolding receive_message
peer-receive_message net s from bytes e = ground (arith, e)

socket-classify :
    (net : Network) (x : Recv) (s : Socket) (memory message : List ℕ) (msglen : ℕ)
    → (classify net x s memory).round ≡ forked message msglen
    → (classify net x s memory).socket ≡ s
socket-classify net x s memory message msglen e = ground (arith, e)

-- Where a session was started: its request, and the session on that request alone.
session_of :
    (net child : Network) (host : Host) (rounds : ℕ) (s : Socket) (memory : List ℕ) (files : Files)
    (h : Handled) (x : Round)
    → (listen_round net s memory).round ≡ x
    → run_session child host rounds (listen_round net s memory).socket.peer x files ≡ some h
    → (from : ℕ) × (bytes : List ℕ) × ((receive_message net s).0 ≡ datagram from bytes)
      × (4 ≤ length bytes)
      × ((opcode bytes ≡ rrq_opcode) ⊎ (opcode bytes ≡ wrq_opcode))
      × (h ≡ handle_message child host rounds bytes (length bytes) (fresh 0 from) files)
unfolding listen_round
session_of net child host rounds s memory files h idle e r = cc
session_of net child host rounds s memory files h refused e r = cc
session_of net child host rounds s memory files h (forked message msglen) e r =
    let x : Recv = (receive_message net s).0 in
    let s' : Socket = (receive_message net s).1 in
    let (from, bytes, came, len, enough, asks, op, text) =
      classified net x s' memory message msglen e in
    let same : (classify net x s' memory).socket ≡ s' =
      socket-classify net x s' memory message msglen e in
    let peer : (classify net x s' memory).socket.peer ≡ from =
      ap (λ t. t.peer) same ∙ peer-receive_message net s from bytes came in
    let it : handle_message child host rounds message msglen
          (fresh 0 (classify net x s' memory).socket.peer) files
        ≡ h =
      cc r in
    (
      from,
      bytes,
      came,
      enough,
      asks,
      sym it
          ∙ ap (λ q. handle_message child host rounds message msglen (fresh 0 q) files) peer
          ∙ handle_message-same child host rounds message bytes msglen (length bytes) (fresh 0 from)
              files op text,
    )

-- A session is started only for a datagram that came, of four bytes at least, with the opcode of a
-- read or a write request, and only if fork works; and it is the session of handle_message on this
-- very datagram, whatever longer messages were in the memory before, with its sender as the client.
pub serve_round-session :
    (net child : Network) (fork_works : Bool) (host : Host) (rounds : ℕ) (s : Socket)
    (memory : List ℕ) (files : Files) (h : Handled)
    → (serve_round net child fork_works host rounds s memory files).session ≡ some h
    → (fork_works ≡ true)
      × (from : ℕ) × (bytes : List ℕ) × ((receive_message net s).0 ≡ datagram from bytes)
      × (4 ≤ length bytes)
      × ((opcode bytes ≡ rrq_opcode) ⊎ (opcode bytes ≡ wrq_opcode))
      × (h ≡ handle_message child host rounds bytes (length bytes) (fresh 0 from) files)
unfolding serve_round
serve_round-session net child true host rounds s memory files h e =
    let (from, bytes, came, enough, asks, same) =
      session_of net child host rounds s memory files h (listen_round net s memory).round refl e in
    (refl, from, bytes, came, enough, asks, same)
serve_round-session net child false host rounds s memory files h e = cc
