-- ===== src/Proxy/Client.antt =====
-- Programming_Assignment_4/src/client.c: the request for the proxy, the name of the file that the
-- answer goes to, and what it holds.
pub mod Asking
pub mod Connect
use mathlib.Core.Option
use ecen_602_network_program.Base.{
  List, Option, [], if◌then◌else◌, length, ltb, none, some, suc, zero, ℕ, ◌++◌, ◌+◌, ◌/◌, ◌==◌,
  ◌>>=◌, ◌∷◌,
}
use ecen_602_network_program.Base.Bytes.{codes, cstr}
use ecen_602_network_program.Base.Words.{split}
use ecen_602_network_program.Proxy.Texts.{behind, line_end, status_is}
use ecen_602_network_program.Proxy.Session.{concat}

-- strtok (url, "/") and strtok (NULL, ""): separators in front are skipped; the host goes up to the
-- next one, and what is behind it is the path.
unfoldable pub skip_slashes : List ℕ → List ℕ
skip_slashes [] = []
skip_slashes (c ∷ cs) = if c == 47 then skip_slashes cs else c ∷ cs

unfoldable pub cut : List ℕ → List ℕ × List ℕ
cut [] = ([], [])
cut (c ∷ cs) = let (host, path) = cut cs in if c == 47 then ([], cs) else (c ∷ host, path)

-- No host or no path is a null pointer, which the code reads.
unfoldable pub both : List ℕ → List ℕ → Option (List ℕ × List ℕ)
both [] path = none
both (c ∷ cs) [] = none
both (c ∷ cs) (d ∷ ds) = some (c ∷ cs, d ∷ ds)

unfoldable pub host_and_path : List ℕ → Option (List ℕ × List ℕ)
unfolding skip_slashes cut both
host_and_path url = let (host, path) = cut (skip_slashes url) in both host path

-- "GET /%s HTTP/1.0\r\nHost:%s\r\n\r\n"
unfoldable pub request_text : List ℕ → List ℕ → List ℕ
request_text host path =
    codes "GET /"
    ++ (path
        ++ (codes " HTTP/1.0" ++ (line_end ++ (codes "Host:" ++ (host ++ (line_end ++ line_end))))))

-- What the client sends for a url: `none` where a null pointer is read, or where the text is written
-- behind the end of its array of 200 bytes.
unfoldable pub request_of : List ℕ → Option (List ℕ)
unfolding host_and_path request_text
request_of url = do
  (host, path) ← host_and_path url
  (if ltb (length (request_text host path)) 200 then some (request_text host path) else none)

unfoldable pub count_slashes : List ℕ → ℕ
count_slashes [] = 0
count_slashes (c ∷ cs) = (if c == 47 then 1 else 0) + count_slashes cs

abbrev pub nth : ℕ → List (List ℕ) → Option (List ℕ)
nth n [] = none
nth zero (word ∷ words) = some word
nth (suc n) (word ∷ words) = nth n words

-- The file for the answer: as many calls of strtok as there are slashes, and one; `none` is a null
-- pointer for fopen.
unfoldable pub local_name : List ℕ → Option (List ℕ)
unfolding count_slashes split
local_name path =
    if count_slashes path == 0
    then some path
    else nth (count_slashes path) (split (λ c. c == 47) path)

-- What the file holds behind the transfer; it may be removed; a null pointer is read where the first
-- part of the answer has no empty line, and its array is overrun where it has no end.
pub data Saved : Type 0 where
  holds_text : List ℕ → Saved
  removed : Saved
  crashes : Saved

unfoldable pub save : List (List ℕ) → Saved
unfolding status_is behind
save [] = holds_text []
save (chunk ∷ chunks) =
    if ltb (length chunk) 10000
    then if status_is 52 48 52 chunk
      then removed
      else elim (behind (line_end ++ line_end) (cstr chunk)) [
        | none ↦ crashes
        | some body ↦ holds_text (body ++ concat chunks)
      ]
    else crashes
