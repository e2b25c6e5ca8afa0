-- ===== src/Tftp/Handle.antt =====
-- handle_message of Programming_Assignment_3/src/helper.c: a request, from its text to the end of
-- its session.
pub mod Sessions
use ecen_602_network_program.Base.{
  Bool, List, Option, [], if◌then◌else◌, length, none, not, some, ℕ, ◌&&◌, ◌+◌, ◌==◌,
}
use ecen_602_network_program.Base.Bytes.{codes, same_string}
use ecen_602_network_program.Base.Files.{Files, update}
use ecen_602_network_program.Tftp.Wire.{opcode, rrq_opcode}
use ecen_602_network_program.Tftp.Socket.{
  Network, Outcome, Socket, aborted, complain, crashed, done,
}
use ecen_602_network_program.Tftp.Netascii.{create_temp_file}
use ecen_602_network_program.Tftp.Request.{
  Mode, Parsed, get_mode, netascii, no_mode, octet, parse_request, request, unterminated,
}
use ecen_602_network_program.Tftp.Download.{send_file}
use ecen_602_network_program.Tftp.Upload.{upload}

-- What the machine decides: whether socket() and setsockopt() work, which names can be opened for
-- writing, what rand() makes the name of the temporary file, whether fopen opens that one for writing
-- and for reading, and what stands in the array temp_file_name before anything is written there.
pub record Host : Type 0 where
  pub socket_works : Bool
  pub timeout_works : Bool
  pub writable : List ℕ → Bool
  pub temp_name : List ℕ
  pub temp_opens : Bool
  pub stack : List ℕ

pub record Handled : Type 0 where
  pub outcome : Outcome
  pub socket : Socket
  pub files : Files

abbrev pub give_up : Socket → Files → Handled
give_up s files = record { outcome = aborted; socket = s; files = files }

-- The last lines are reached from the end of the loops only: the temporary file goes.
abbrev pub clean_up : Outcome → List ℕ → Files → Files
clean_up done temp_file_name files = update files temp_file_name none
clean_up _ temp_file_name files = files

-- A read request, with rounds for every block of the file. In netascii mode the file is converted
-- into the temporary file, and that is sent. To open it for writing empties it, also where it is the
-- file that is read; and the null pointer of a file that is not opened is used all the same.
unfoldable pub serve_read : Network → Host → List ℕ → Mode → List ℕ → Socket → Files → Handled
unfolding create_temp_file same_string
serve_read net host name octet file s files =
    let (outcome, s₁) = send_file net (length file + 1) file 0 s in
    record { outcome = outcome; socket = s₁; files = clean_up outcome host.stack files }
serve_read net host name netascii file s files =
    let source = if same_string host.temp_name name then [] else file in
    let temp = create_temp_file source in
    let (outcome, s₁) = send_file net (length temp + 1) temp 0 s in
    let session : Handled = record {
      outcome = outcome;
      socket = s₁;
      files = clean_up outcome host.temp_name (update files host.temp_name (some temp));
    } in
    if host.temp_opens then session else record { outcome = crashed; socket = s; files = files }

-- A write request: what arrives goes to the file as it is, in both modes.
unfoldable pub serve_write : Network → Host → ℕ → List ℕ → Socket → Files → Handled
serve_write net host rounds name s files =
    let u = upload net rounds s in
    record {
      outcome = u.outcome;
      socket = u.socket;
      files = clean_up u.outcome host.stack (update files name (some u.file));
    }

-- fopen of a read request, the test on the mode behind it, and the session.
unfoldable pub open_read : Network → Host → Option Mode → List ℕ → Socket → Files → Handled
open_read net host mode name s files = elim (files name) [
  | none ↦ give_up (complain net s 1 (codes "File not found")) files
  | some file ↦ elim mode [
    | none ↦ give_up (complain net s 0 (codes "Invalid mode")) files
    | some m ↦ serve_read net host name m file s files
  ]
]

-- fopen of any other request empties the file, or makes it; then the mode is tested.
unfoldable pub open_write : Network → Host → ℕ → Option Mode → List ℕ → Socket → Files → Handled
open_write net host rounds mode name s files =
    let emptied = update files name (some []) in
    let session : Handled = elim mode [
      | none ↦ give_up (complain net s 0 (codes "Invalid mode")) emptied
      | some m ↦ serve_write net host rounds name s emptied
    ] in
    if host.writable name
    then session
    else give_up (complain net s 1 (codes "File not found")) files

abbrev pub dispatch : Network → Host → ℕ → ℕ → Parsed → Socket → Files → Handled
dispatch net host rounds op unterminated s files =
    give_up (complain net s 0 (codes "Invalid filename or mode")) files
dispatch net host rounds op no_mode s files =
    give_up (complain net s 0 (codes "transfer mode not given")) files
dispatch net host rounds op (request name text) s files =
    if op == rrq_opcode
    then open_read net host (get_mode text) name s files
    else open_write net host rounds (get_mode text) name s files

-- `rounds` bounds the rounds of an upload, which a client may keep up for ever. The server calls
-- this for the opcodes of read and write requests only.
unfoldable pub handle_message : Network → Host → ℕ → List ℕ → ℕ → Socket → Files → Handled
handle_message net host rounds message msglen s files =
    let session =
      dispatch net host rounds (opcode message) (parse_request message msglen) s files in
    if host.socket_works && host.timeout_works then session else give_up s files
