-- ===== src/Proxy/Request.antt =====
-- What a client asks the proxy for: iFormat_Read_Request of Programming_Assignment_4/src/helper.c,
-- and the test of its result in main of http.c.
pub mod Reading
use ecen_602_network_program.Base.{
  Bool, List, Option, [], drop, if◌then◌else◌, length, ltb, none, some, true, ℕ, ◌&&◌, ◌++◌, ◌+◌,
  ◌==◌, ◌∷◌,
}
use ecen_602_network_program.Base.Bytes.{codes, same_string}

-- MAX_NAME_LENGTH
abbrev pub max_name_length : ℕ
max_name_length = 256

-- The result -1; the number of words with pcHost, pcUrl and pcName; or behaviour that C leaves
-- undefined: an array that nothing was read into is compared, or a text does not fit its array.
pub data Formatted : Type 0 where
  refused unknown : Formatted
  formatted : ℕ → List ℕ → List ℕ → List ℕ → Formatted

unfoldable pub all_fit : List (List ℕ) → Bool
all_fit [] = true
all_fit (word ∷ words) = ltb (length word) max_name_length && all_fit words

-- The header is copied from its sixth byte on; then the name is put behind it.
unfoldable pub locate : ℕ → List ℕ → List ℕ → Formatted
locate count name header =
    let host = drop 5 header in
    if ltb (length (host ++ name)) max_name_length
    then formatted count host (host ++ name) name
    else unknown

-- pcUrl is all zeros before the reading.
unfoldable pub fourth : List (List ℕ) → List ℕ
fourth [] = []
fourth (header ∷ words) = header

-- The tests, on the words that sscanf has read.
unfoldable pub format_words : List (List ℕ) → Formatted
unfolding same_string locate fourth
format_words [] = unknown
format_words (method ∷ []) = if same_string method (codes "GET") then unknown else refused
format_words (method ∷ name ∷ []) = if same_string method (codes "GET") then unknown else refused
format_words (method ∷ name ∷ protocol ∷ words) =
    if same_string method (codes "GET")
    then if same_string protocol (codes "HTTP/1.0")
      then locate (3 + length words) name (fourth words)
      else refused
    else refused

-- `sscanf` gives the words, four at most, that the format "%s %s %s %s" reads.
unfoldable pub i_format_read_request : (List ℕ → List (List ℕ)) → List ℕ → Formatted
unfolding format_words all_fit
i_format_read_request sscanf request =
    if all_fit (sscanf request) then format_words (sscanf request) else unknown

-- vSend_Error_Message
unfoldable pub v_send_error_message : ℕ → Option (List ℕ)
v_send_error_message status =
    let stars = codes "****************************************************************" in
    if status == 400
    then some (stars ++ (codes "HTTP/1.0 400 Bad Request" ++ stars))
    else if status == 404
    then some (stars ++ (codes "HTTP/1.0 404 Not Found" ++ stars))
    else none

-- The proxy goes on with a host, a url and a name; main returns, when something may have been sent
-- to the client; or the behaviour is undefined.
pub data Read : Type 0 where
  asked : List ℕ → List ℕ → List ℕ → Read
  returns : Option (List ℕ) → Read
  unclear : Read

unfoldable pub after_format : Formatted → Read
unfolding v_send_error_message
after_format unknown = unclear
after_format refused = returns (v_send_error_message 400)
after_format (formatted count host url name) =
    if count == 4 then asked host url name else returns (v_send_error_message 400)

unfoldable pub read_request : (List ℕ → List (List ℕ)) → List ℕ → Read
unfolding after_format
read_request sscanf request = after_format (i_format_read_request sscanf request)
