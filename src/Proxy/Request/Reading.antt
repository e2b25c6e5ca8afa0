-- ===== src/Proxy/Request/Reading.antt =====
-- Which requests iFormat_Read_Request and main of Programming_Assignment_4 take.
use ecen_602_network_program.Base.{
  ==_iff, Bool-cases, List, [], ap, arith, drop, if◌then◌else◌, inl, inr, length, ltb, lt→ltb, refl,
  true, ℕ, ◌++◌, ◌+◌, ◌<◌, ◌==◌, ◌∙◌, ◌∷◌, ◌≡◌,
}
use ecen_602_network_program.Base.Bytes.{codes, same_string, same_string_eq}
use ecen_602_network_program.Proxy.Request.{
  Formatted, after_format, all_fit, asked, format_words, formatted, fourth, i_format_read_request,
  locate, max_name_length, read_request, refused, unknown,
}

-- The words of a request that the proxy is meant for, with the header that names the host.
abbrev pub get_words : List ℕ → List ℕ → List (List ℕ)
get_words name header = codes "GET" ∷ name ∷ codes "HTTP/1.0" ∷ header ∷ []

locate-fits :
    (count : ℕ) (name header : List ℕ)
    → length (drop 5 header ++ name) < max_name_length
    → locate count name header ≡ formatted count (drop 5 header) (drop 5 header ++ name) name
unfolding locate
locate-fits count name header h =
    let e : ltb (length (drop 5 header ++ name)) max_name_length ≡ true = lt→ltb _ _ h in rw e refl

format_words-get_words :
    (name header : List ℕ) → format_words (get_words name header) ≡ locate 4 name header
unfolding format_words fourth same_string
format_words-get_words name header = refl

-- A GET request for HTTP/1.0 whose words fit their arrays is taken: the host is the fourth word
-- without its first five bytes ("Host:"), and the url is the host with the name behind it.
pub read_request-get_words :
    (sscanf : List ℕ → List (List ℕ)) (request name header : List ℕ)
    → sscanf request ≡ get_words name header
    → all_fit (get_words name header) ≡ true
    → length (drop 5 header ++ name) < max_name_length
    → read_request sscanf request ≡ asked (drop 5 header) (drop 5 header ++ name) name
unfolding read_request i_format_read_request after_format
read_request-get_words sscanf request name header e fits h =
    ap (λ words. after_format (if all_fit words then format_words words else unknown)) e
    ∙ rw (fits, format_words-get_words name header, locate-fits 4 name header h) refl

locate-formatted :
    (count c : ℕ) (name header host url name' : List ℕ)
    → locate count name header ≡ formatted c host url name'
    → (c ≡ count) × (host ≡ drop 5 header) × (url ≡ host ++ name') × (name' ≡ name)
unfolding locate
locate-formatted count c name header host url name' h =
    elim (Bool-cases (ltb (length (drop 5 header ++ name)) max_name_length)) [
      | inr over ↦ cc (rw over at h)
      | inl fits ↦
          let e : formatted count (drop 5 header) (drop 5 header ++ name) name
              ≡ formatted c host url name' =
            rw fits at h in
          (cc, cc, cc, cc)
    ]

one_header :
    (words : List (List ℕ))
    → 4 ≡ 3 + length words
    → (header : List ℕ) × (words ≡ header ∷ []) × (fourth words ≡ header)
unfolding fourth
one_header [] h = absurd (omega (arith, h))
one_header (header ∷ []) h = (header, refl, refl)
one_header (header ∷ other ∷ words) h = absurd (omega (arith, h))

format_words-formatted :
    (words : List (List ℕ)) (host url name : List ℕ)
    → format_words words ≡ formatted 4 host url name
    → (header : List ℕ) × (words ≡ get_words name header)
      × (host ≡ drop 5 header)
      × (url ≡ host ++ name)
unfolding format_words
format_words-formatted [] host url name h = cc
format_words-formatted (method ∷ []) host url name h =
    elim (Bool-cases (same_string method (codes "GET"))) [
      | inl get ↦ cc (rw get at h)
      | inr other ↦ cc (rw other at h)
    ]
format_words-formatted (method ∷ word ∷ []) host url name h =
    elim (Bool-cases (same_string method (codes "GET"))) [
      | inl get ↦ cc (rw get at h)
      | inr other ↦ cc (rw other at h)
    ]
format_words-formatted (method ∷ word ∷ protocol ∷ words) host url name h =
    elim (Bool-cases (same_string method (codes "GET"))) [
      | inr other ↦ cc (rw other at h)
      | inl get ↦ elim (Bool-cases (same_string protocol (codes "HTTP/1.0"))) [
        | inr other ↦ cc (rw (get, other) at h)
        | inl http ↦
            let (count, at_host, at_url, named) =
              locate-formatted (3 + length words) 4 word (fourth words) host url name
                (rw (get, http) at h) in
            let (header, one, last) = one_header words count in
            let method_is : method ≡ codes "GET" = same_string_eq method (codes "GET") get in
            let protocol_is : protocol ≡ codes "HTTP/1.0" =
              same_string_eq protocol (codes "HTTP/1.0") http in
            (header, cc (method_is, protocol_is, named, one), at_host ∙ ap (drop 5) last, at_url)
      ]
    ]

after_format-asked :
    (f : Formatted) (host url name : List ℕ)
    → after_format f ≡ asked host url name
    → f ≡ formatted 4 host url name
unfolding after_format
after_format-asked unknown host url name h = cc
after_format-asked refused host url name h = cc
after_format-asked (formatted count host' url' name') host url name h =
    elim (Bool-cases (count == 4)) [
      | inr other ↦ cc (rw other at h)
      | inl four ↦
          let e : asked host' url' name' ≡ asked host url name = rw four at h in
          cc ((==_iff count 4).0 four, e)
    ]

-- The proxy takes nothing else: if it goes on, the words that sscanf has stored, at most four of them,
-- are GET, the name, HTTP/1.0 and a fourth one, the host is this fourth word without its first five
-- bytes, whatever they are, and the url is the host with the name behind it. What stands behind the
-- fourth word of the request is not looked at.
pub read_request-asked :
    (sscanf : List ℕ → List (List ℕ)) (request host url name : List ℕ)
    → read_request sscanf request ≡ asked host url name
    → (header : List ℕ) × (sscanf request ≡ get_words name header)
      × (host ≡ drop 5 header)
      × (url ≡ host ++ name)
unfolding read_request i_format_read_request
read_request-asked sscanf request host url name h =
    let e : (if all_fit (sscanf request) then format_words (sscanf request) else unknown)
        ≡ formatted 4 host url name =
      after_format-asked _ host url name h in
    elim (Bool-cases (all_fit (sscanf request))) [
      | inl fits ↦ format_words-formatted (sscanf request) host url name (rw fits at e)
      | inr over ↦ cc (rw over at e)
    ]
