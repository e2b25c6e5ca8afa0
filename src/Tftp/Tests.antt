-- ===== src/Tftp/Tests.antt =====
-- The theorems on the TFTP server at concrete inputs, and runs of the server.
use ecen_602_network_program.Base.{
  Bool, List, [], arith, if◌then◌else◌, inl, inr, length, none, refl, replicate, some, true, ℕ,
  ◌++◌, ◌==◌, ◌∷◌, ◌≡◌, ◌≢◌, ◌≤◌, ◌⊎◌,
}
use ecen_602_network_program.Base.Bytes.{NoNul, codes, same_string}
use ecen_602_network_program.Base.Files.{Files}
use ecen_602_network_program.Tftp.Wire.{
  ack_message, block_number, data_message, next_block, opcode, rrq_opcode, wrq_opcode,
}
use ecen_602_network_program.Tftp.Socket.{
  Network, aborted, datagram, done, receive_message, running, send_data, send_message, timeout,
}
use ecen_602_network_program.Tftp.Netascii.{create_temp_file}
use ecen_602_network_program.Tftp.Netascii.Decode.{decode, decode-create_temp_file}
use ecen_602_network_program.Tftp.Request.{get_mode, octet, parse_request}
use ecen_602_network_program.Tftp.Request.Parse.{request_message}
use ecen_602_network_program.Tftp.Download.{await_ack, check_ack, send_file}
use ecen_602_network_program.Tftp.Download.Confirmed.{Confirmed}
use ecen_602_network_program.Tftp.Download.Progress.{
  Acknowledges, send_file-ends, send_file-refuses, send_file-succeeds,
}
use ecen_602_network_program.Tftp.Upload.{receive_file, upload}
use ecen_602_network_program.Tftp.Upload.Arrival.{Stores, Uploads, upload-Stores}
use ecen_602_network_program.Tftp.Upload.Refusal.{receive_file-refuses}
use ecen_602_network_program.Tftp.Handle.{Handled, Host, handle_message, open_read, serve_read}
use ecen_602_network_program.Tftp.Handle.Sessions.{Asks, fresh, handle, handle-invalid_mode}
use ecen_602_network_program.Tftp.Server.{listen_round, serve_round}
use ecen_602_network_program.Tftp.Server.Requests.{serve_round-session}
use ecen_602_network_program.Tftp.Server.Transfers.{serve_round-stores}

-- The file "a\nb", and what it looks like in netascii.
abbrev small : List ℕ
small = 97 ∷ 10 ∷ 98 ∷ []

abbrev name : List ℕ
name = codes "notes"

-- One timeout, and then the ACK of block 1 from address 7.
abbrev lossy : Network
lossy = record {
  recvfrom = λ t. if t == 3 then datagram 7 (ack_message 1) else timeout;
  sendto = λ t. true;
}

-- The ACK of block 0 comes once more.
abbrev repeating : Network
repeating = record { recvfrom = λ t. datagram 7 (ack_message 0); sendto = λ t. true }

-- The client of an upload: its block 1 arrives after one timeout.
abbrev uploader : Network
uploader = record {
  recvfrom = λ t. if t == 3 then datagram 7 (data_message 1 small) else timeout;
  sendto = λ t. true;
}

abbrev host : Host
host = record {
  socket_works = true;
  timeout_works = true;
  writable = λ n. true;
  temp_name = codes "temp_file_1.txt";
  temp_opens = true;
  stack = codes "core";
}

abbrev files : Files
files n = if same_string n name then some small else none

octet_mode : get_mode (codes "OcTet") ≡ some octet
unfolding get_mode
octet_mode = refl

mail_mode : get_mode (codes "mail") ≡ none
unfolding get_mode
mail_mode = refl

asks : (mode : List ℕ) → NoNul mode → Asks host name mode
asks mode h = record {
  plain_name = omega arith;
  plain_mode = h;
  socket_works = refl;
  timeout_works = refl;
}

download_runs :
    (handle lossy host 0 rrq_opcode name (codes "netascii") [] (fresh 0 5) files).outcome ≡ done
unfolding handle_message parse_request get_mode opcode open_read serve_read send_file same_string
    await_ack send_data send_message receive_message ack_message check_ack block_number next_block
download_runs = refl

decode-create_temp_file_example : decode (create_temp_file small) ≡ small
decode-create_temp_file_example = decode-create_temp_file small

send_file-ends_example : (send_file repeating 1 small 0 (fresh 0 5)).0 ≢ running
send_file-ends_example = send_file-ends repeating 1 small 0 (fresh 0 5) (omega arith)

lossy_acks : Acknowledges lossy 7 1 0 0
unfolding next_block
lossy_acks = (1, omega arith, (refl, refl), tt)

send_file-succeeds_example : (send_file lossy 1 small 0 (fresh 0 5)).0 ≡ done
send_file-succeeds_example =
    send_file-succeeds lossy 7 1 small 0 (fresh 0 5) (λ t. refl) lossy_acks (omega arith)

ack_zero : (block_number (ack_message 0) ≢ next_block 0)
unfolding block_number ack_message next_block
ack_zero = omega arith

send_file-refuses_example : (send_file repeating 1 small 0 (fresh 0 5)).0 ≡ aborted
unfolding ack_message
send_file-refuses_example =
    send_file-refuses repeating 7 0 small (ack_message 0) 0 (fresh 0 5) refl refl (omega arith)
      (omega arith) (inr ack_zero)

uploader-Uploads : Uploads uploader 7 1 small 1 0
unfolding next_block
uploader-Uploads = (1, omega arith, (refl, refl), tt)

upload-Stores_example : Stores [] small (upload uploader 1 (fresh 0 5))
upload-Stores_example =
    upload-Stores uploader 7 1 small (fresh 0 5) (λ t. refl) uploader-Uploads (omega arith)

-- Block 1 once more, when block 2 is due.
data_one : (block_number (data_message 1 small) ≢ next_block 1)
unfolding block_number data_message next_block
data_one = omega arith

receive_file-refuses_example :
    ((receive_file uploader 2 small 1 (fresh 3 5)).outcome ≡ aborted)
    × ((receive_file uploader 2 small 1 (fresh 3 5)).file ≡ small)
unfolding data_message
receive_file-refuses_example =
    receive_file-refuses uploader 7 1 small (data_message 1 small) 1 (fresh 3 5) refl (omega arith)
      (omega arith) (inl data_one)

handle-invalid_mode_example :
    let h = handle uploader host 1 wrq_opcode name (codes "mail") [] (fresh 0 5) files in
    (h.outcome ≡ aborted)
    × (h.socket.sent
        ≡ record { to = 5; bytes = 0 ∷ 5 ∷ 0 ∷ 0 ∷ (codes "Invalid mode" ++ 0 ∷ []) } ∷ [])
    × (h.files name ≡ (if same_string name name then some [] else files name))
handle-invalid_mode_example =
    handle-invalid_mode uploader host 1 name (codes "mail") [] name (fresh 0 5) files
      (asks (codes "mail") (omega arith)) mail_mode refl

-- A request arrives where a longer message stood before.
abbrev asking : Network
asking = record {
  recvfrom = λ t. datagram 9 (request_message 1 name (codes "octet"));
  sendto = λ t. true;
}

abbrev old : List ℕ
old = replicate 20 65

-- A write request arrives.
abbrev writing : Network
writing = record {
  recvfrom = λ t. datagram 9 (request_message 2 name (codes "OcTet"));
  sendto = λ t. true;
}

serve_round-stores_example :
    let r = serve_round writing uploader true host 1 (fresh 0 0) old files in
    (r.listening.socket.sent ≡ [])
    × (h : Handled) × (r.session ≡ some h)
    × (h.outcome ≡ done)
    × (h.files name ≡ (
        if same_string (codes "core") name
        then none
        else if same_string name name
        then some small
        else files name))
serve_round-stores_example =
    serve_round-stores writing uploader host 9 7 1 name (codes "OcTet") small name old octet
      (fresh 0 0) files refl (omega arith) (asks (codes "OcTet") (omega arith)) octet_mode refl
      (λ t. refl) uploader-Uploads (omega arith)

-- The session reads the 14 bytes that came, not the letters behind them.
abbrev session : Handled
session =
    handle_message lossy host 0 (request_message 1 name (codes "octet") ++ replicate 6 65) 14
      (fresh 0 9) files

asking_session : (serve_round asking lossy true host 0 (fresh 0 0) old files).session ≡ some session
unfolding serve_round listen_round receive_message opcode
asking_session = refl

serve_round-session_example :
    (◌≡◌ {A = Bool} true true)
    × (from : ℕ) × (bytes : List ℕ) × ((receive_message asking (fresh 0 0)).0 ≡ datagram from bytes)
    × (4 ≤ length bytes)
    × ((opcode bytes ≡ rrq_opcode) ⊎ (opcode bytes ≡ wrq_opcode))
    × (session ≡ handle_message lossy host 0 bytes (length bytes) (fresh 0 from) files)
serve_round-session_example =
    serve_round-session asking lossy true host 0 (fresh 0 0) old files session asking_session
