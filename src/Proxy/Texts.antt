-- ===== src/Proxy/Texts.antt =====
-- The texts that main of Programming_Assignment_4/src/http.c writes and searches: the requests to the
-- web server, its answers, and the path that gives the name of a file.
pub mod Search
use ecen_602_network_program.Base.{
  Bool, List, Option, [], get_or, if◌then◌else◌, length, ltb, none, some, take, ℕ, ◌&&◌, ◌++◌, ◌-◌,
  ◌==◌, ◌∷◌,
}
use ecen_602_network_program.Base.Bytes.{codes, cstr}
use ecen_602_network_program.Base.Numerals.{is_blank}
use ecen_602_network_program.Base.Words.{split}
use ecen_602_network_program.Proxy.Cache.{max_file_name_length}

-- "GET %s HTTP/1.0\r\nHost: %s\r\n\r\n"
abbrev pub line_end : List ℕ
line_end = 13 ∷ 10 ∷ []

unfoldable pub get_request : List ℕ → List ℕ → List ℕ
get_request name host =
    codes "GET "
    ++ (name
        ++ (codes " HTTP/1.0"
            ++ (line_end ++ (codes "Host: " ++ (host ++ (line_end ++ line_end))))))

-- strstr: what stands behind the first occurrence of a text, if there is one.
unfoldable pub strip : List ℕ → List ℕ → Option (List ℕ)
strip [] text = some text
strip (p ∷ ps) [] = none
strip (p ∷ ps) (c ∷ cs) = let rest = strip ps cs in if p == c then rest else none

unfoldable pub behind : List ℕ → List ℕ → Option (List ℕ)
unfolding strip
behind pattern [] = strip pattern []
behind pattern (c ∷ cs) = elim (strip pattern (c ∷ cs)) [
  | some rest ↦ some rest
  | none ↦ behind pattern cs
]

unfoldable pub find_expires : List ℕ → Option (List ℕ)
unfolding behind
find_expires buffer = behind (codes "Expires: ") (cstr buffer)

-- The loop over the parts of the path: each is copied over the one before it into an array of 10
-- bytes. `none` is a write behind its end.
unfoldable pub last_part : List ℕ → List (List ℕ) → Option (List ℕ)
last_part part [] = some part
last_part part (next ∷ parts) =
    let rest = last_part next parts in if ltb (length next) max_file_name_length then rest else none

unfoldable pub file_name : List ℕ → Option (List ℕ)
unfolding last_part
file_name name = last_part [] (split (λ c. c == 47) name)

-- The request for a newer file: the request of the client without its last two bytes, and a header.
-- `none` is a text that is written behind the end of its array of 10000 bytes.
unfoldable pub modified_request : List ℕ → List ℕ → Option (List ℕ)
modified_request request last_modified =
    let text =
      take (length request - 2) request
      ++ (codes "If-Modified-Since: " ++ (last_modified ++ (line_end ++ line_end))) in
    if ltb (length text) 10000 then some text else none

-- acBuffer[9], [10] and [11]
unfoldable pub status_is : ℕ → ℕ → ℕ → List ℕ → Bool
status_is a b c buffer =
    (get_or buffer 9 0 == a) && ((get_or buffer 10 0 == b) && (get_or buffer 11 0 == c))

-- The words that sscanf reads for "%s %s %s %s".
unfoldable pub four_words : List ℕ → List (List ℕ)
unfolding split
four_words text = take 4 (split is_blank text)
