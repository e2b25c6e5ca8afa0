-- ===== src/Tftp/Netascii/Decode.antt =====
-- The conversion to netascii is the one of the standard, and loses nothing.
use ecen_602_network_program.Base.{
  ==_iff, Bool-cases, List, Option, [], ap, arith, false, if◌then◌else◌, inl, inr, none, refl, some,
  ℕ, ◌++◌, ◌==◌, ◌∙◌, ◌∷◌, ◌≡◌,
}
use ecen_602_network_program.Tftp.Netascii.{convert_loop, cr, create_temp_file, emit, lf}

-- How netascii writes a character: a line end as CR LF, a CR as CR NUL.
abbrev pub encode_char : ℕ → List ℕ
encode_char c = if c == lf then cr ∷ lf ∷ [] else if c == cr then cr ∷ 0 ∷ [] else c ∷ []

abbrev pub encode : List ℕ → List ℕ
encode [] = []
encode (c ∷ cs) = encode_char c ++ encode cs

-- What a client makes of netascii: behind a CR, LF is a line end and all else a CR.
abbrev pub decode : List ℕ → List ℕ
decode [] = []
decode (c ∷ []) = c ∷ []
decode (c ∷ d ∷ cs) =
    if c == cr then (if d == lf then lf else cr) ∷ decode cs else c ∷ decode (d ∷ cs)

convert_loop-encode : (next : Option ℕ) (cs : List ℕ) → convert_loop next cs ≡ emit next (encode cs)
unfolding convert_loop
convert_loop-encode next [] = refl
convert_loop-encode next (c ∷ cs) = elim (Bool-cases (c == lf)) [
  | inl line_end ↦ rw line_end (ap (λ xs. emit next (cr ∷ xs)) (convert_loop-encode (some lf) cs))
  | inr other ↦ elim (Bool-cases (c == cr)) [
    | inl return ↦
        let e : c ≡ cr = (==_iff c cr).0 return in
        rw (other, return, e) (ap (λ xs. emit next (cr ∷ xs)) (convert_loop-encode (some 0) cs))
    | inr plain ↦ rw (other, plain) (ap (λ xs. emit next (c ∷ xs)) (convert_loop-encode none cs))
  ]
]

-- The temporary file is the netascii form of the file.
pub create_temp_file-encode : (file : List ℕ) → create_temp_file file ≡ encode file
unfolding create_temp_file
create_temp_file-encode file = convert_loop-encode none file

decode_plain : (c : ℕ) (cs : List ℕ) → (c == cr) ≡ false → decode (c ∷ cs) ≡ c ∷ decode cs
decode_plain c [] h = refl
decode_plain c (d ∷ cs) h = rw h refl

decode-encode : (cs : List ℕ) → decode (encode cs) ≡ cs
decode-encode [] = refl
decode-encode (c ∷ cs) = elim (Bool-cases (c == lf)) [
  | inl line_end ↦ rw line_end (ground (arith, decode-encode cs))
  | inr other ↦ elim (Bool-cases (c == cr)) [
    | inl return ↦ rw (other, return) (ground (arith, decode-encode cs))
    | inr plain ↦
        rw (other, plain) (decode_plain c (encode cs) plain ∙ ap (◌∷◌ c) (decode-encode cs))
  ]
]

-- A client that decodes the temporary file has the file back, whatever bytes it holds.
pub decode-create_temp_file : (file : List ℕ) → decode (create_temp_file file) ≡ file
decode-create_temp_file file = ap decode (create_temp_file-encode file) ∙ decode-encode file
