-- ===== src/Tftp/Request.antt =====
-- How handle_message and get_mode of Programming_Assignment_3/src/helper.c read a request.
pub mod Parse
use ecen_602_network_program.Base.{
  Bool, List, Option, [], drop, false, get_or, if◌then◌else◌, leb, length, ltb, none, not, some,
  true, ℕ, ◌&&◌, ◌+◌, ◌-◌, ◌==◌, ◌∷◌,
}
use ecen_602_network_program.Base.Bytes.{codes, cstr}

-- The modes that get_mode returns: NETASCII and OCTET, and 0 for any other text.
pub data Mode : Type 0 where
  netascii octet : Mode

abbrev pub to_lower : ℕ → ℕ
to_lower c = if leb b'A' c && leb c b'Z' then c + 32 else c

-- strcasecmp (a, b) == 0
unfoldable pub same_text : List ℕ → List ℕ → Bool
same_text [] [] = true
same_text [] (d ∷ ds) = false
same_text (c ∷ cs) [] = false
same_text (c ∷ cs) (d ∷ ds) = (to_lower c == to_lower d) && same_text cs ds

-- The second test overrides the first one's result.
unfoldable pub get_mode : List ℕ → Option Mode
unfolding same_text
get_mode text =
    if same_text text (codes "octet")
    then some octet
    else if same_text text (codes "netascii")
    then some netascii
    else none

-- What the first tests of handle_message make of the message: it does not end with a NUL; no mode
-- stands behind the file's name; or a name and the text of a mode.
pub data Parsed : Type 0 where
  unterminated : Parsed
  no_mode : Parsed
  request : List ℕ → List ℕ → Parsed

-- `message` is the memory of the whole message, of which `msglen` bytes were received; what stands
-- behind them is left from before. The name begins at its third byte, and `end` is the last byte
-- received. A place outside the memory reads as 1, which is no NUL.
unfoldable pub parse_request : List ℕ → ℕ → Parsed
unfolding cstr
parse_request message msglen =
    let names = drop 2 message in
    let file_name = cstr names in
    let mode_checker = length file_name + 1 in
    if not (get_or names (msglen - 3) 1 == 0)
    then unterminated
    else if ltb (msglen - 3) mode_checker
    then no_mode
    else request file_name (cstr (drop mode_checker names))
