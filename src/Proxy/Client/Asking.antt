-- ===== src/Proxy/Client/Asking.antt =====
-- The request of Programming_Assignment_4/src/client.c, as the proxy reads it.
use ecen_602_network_program.Base.{
  List, [], ap, arith, length, length-append, ltb, lt→ltb, refl, some, take, true, ℕ, ◌++◌, ◌+◌,
  ◌<◌, ◌==◌, ◌∙◌, ◌∷◌, ◌≡◌, ◌≢◌,
}
use ecen_602_network_program.Base.Bytes.{codes}
use ecen_602_network_program.Base.Numerals.{is_blank}
use ecen_602_network_program.Base.Words.{All, split, split-separator, split-word, split_from}
use ecen_602_network_program.Proxy.Request.{all_fit, asked, read_request}
use ecen_602_network_program.Proxy.Request.Reading.{get_words, read_request-get_words}
use ecen_602_network_program.Proxy.Texts.{four_words}
use ecen_602_network_program.Proxy.Client.{
  both, cut, host_and_path, request_of, request_text, skip_slashes,
}

-- No byte is blank.
abbrev pub IsWord : List ℕ → Type 0
IsWord text = All is_blank text

-- A host has no slash.
abbrev pub IsHost : List ℕ → Type 0
IsHost host = All (λ c. c == 47) host

cut-host : (host path : List ℕ) → IsHost host → cut (host ++ 47 ∷ path) ≡ (host, path)
unfolding cut
cut-host [] path h = refl
cut-host (c ∷ cs) path h =
    rw h.0 (ap (λ (r : List ℕ × List ℕ). (c ∷ r.0, r.1)) (cut-host cs path h.1))

host_and_path-url :
    (host path : List ℕ)
    → IsHost host
    → host ≢ []
    → path ≢ []
    → host_and_path (host ++ 47 ∷ path) ≡ some (host, path)
unfolding host_and_path skip_slashes both
host_and_path-url [] path h some_host some_path = absurd (some_host refl)
host_and_path-url (c ∷ cs) [] h some_host some_path = absurd (some_path refl)
host_and_path-url (c ∷ cs) (d ∷ ds) h some_host some_path =
    rw h.0 (ap (λ (r : List ℕ × List ℕ). both r.0 r.1) (cut-host (c ∷ cs) (d ∷ ds) h))

-- The request from its last header on, and from each word before it.
abbrev blank_line : List ℕ
blank_line = 10 ∷ 13 ∷ 10 ∷ []

abbrev from_header : List ℕ → List ℕ
from_header host = (72 ∷ (codes "ost:" ++ host)) ++ 13 ∷ blank_line

abbrev from_protocol : List ℕ → List ℕ
from_protocol host = codes "HTTP/1.0" ++ 13 ∷ 10 ∷ from_header host

abbrev from_name : List ℕ → List ℕ → List ℕ
from_name host path = (47 ∷ path) ++ 32 ∷ from_protocol host

split-blank_line : split is_blank blank_line ≡ []
unfolding split split_from
split-blank_line = refl

split-from_header :
    (host : List ℕ) → IsWord host → split is_blank (from_header host) ≡ (codes "Host:" ++ host) ∷ []
split-from_header host h =
    split-word is_blank 72 (codes "ost:" ++ host) blank_line 13
      (refl, (refl, (refl, (refl, (refl, h))))) refl
    ∙ ap (◌∷◌ (codes "Host:" ++ host)) split-blank_line

split-from_protocol :
    (host : List ℕ)
    → IsWord host
    → split is_blank (from_protocol host) ≡ codes "HTTP/1.0" ∷ (codes "Host:" ++ host) ∷ []
split-from_protocol host h =
    split-word is_blank 72 (codes "TTP/1.0") (10 ∷ from_header host) 13
      (refl, (refl, (refl, (refl, (refl, (refl, (refl, (refl, tt)))))))) refl
    ∙ ap (◌∷◌ (codes "HTTP/1.0"))
        (split-separator is_blank 10 (from_header host) refl ∙ split-from_header host h)

four_words-request_text :
    (host path : List ℕ)
    → IsWord host
    → IsWord path
    → four_words (request_text host path) ≡ get_words (47 ∷ path) (codes "Host:" ++ host)
unfolding four_words request_text
four_words-request_text host path h p = ap (take 4) (
    split-word is_blank 71 (69 ∷ 84 ∷ []) (from_name host path) 32 (refl, (refl, (refl, tt))) refl
    ∙ ap (◌∷◌ (codes "GET")) (
        split-word is_blank 47 path (from_protocol host) 32 (refl, p) refl
        ∙ ap (◌∷◌ (47 ∷ path)) (split-from_protocol host h)))

length-request_text :
    (host path : List ℕ) → length host + length path < 174 → length (request_text host path) < 200
unfolding request_text
length-request_text host path h = omega (arith, length-append {0}, h)

all_fit-get_words :
    (host path : List ℕ)
    → length host + length path < 174
    → all_fit (get_words (47 ∷ path) (codes "Host:" ++ host)) ≡ true
unfolding all_fit
all_fit-get_words host path h =
    let a : ltb (length (47 ∷ path)) 256 ≡ true = lt→ltb _ _ (omega (arith, h)) in
    let b : ltb (length (codes "Host:" ++ host)) 256 ≡ true =
      lt→ltb _ _ (omega (arith, length-append {0}, h)) in
    rw (a, b) refl

-- The url of a host without a slash and a path, neither of them empty and with no blank in them, at
-- most 173 bytes long without the slash between them.
pub record IsUrl (host path : List ℕ) : Type 0 where
  pub host_part : IsHost host
  pub host_word : IsWord host
  pub path_word : IsWord path
  pub some_host : host ≢ []
  pub some_path : path ≢ []
  pub size : length host + length path < 174

-- The client sends a request for such a url, and the proxy takes this for the host, the path behind a
-- slash as the name, and the url as it was given.
pub read_request-request_of :
    (host path : List ℕ)
    → IsUrl host path
    → (request : List ℕ) × (request_of (host ++ 47 ∷ path) ≡ some request)
      × (read_request four_words request ≡ asked host (host ++ 47 ∷ path) (47 ∷ path))
unfolding request_of
read_request-request_of host path u =
    let fits : ltb (length (request_text host path)) 200 ≡ true =
      lt→ltb _ _ (length-request_text host path u.size) in
    (
      request_text host path,
      rw (host_and_path-url host path u.host_part u.some_host u.some_path, fits) refl,
      read_request-get_words four_words (request_text host path) (47 ∷ path) (codes "Host:" ++ host)
          (four_words-request_text host path u.host_word u.path_word)
          (all_fit-get_words host path u.size) (omega (arith, length-append {0}, u.size)),
    )
