-- ===== src/Echo/Client/RoundTrip.antt =====
-- The client against a server that echoes.
use mathlib.Core.Path.{ap₂}
use ecen_602_network_program.Base.{
  Bool-cases, List, [], ap, arith, drop, drop-append, false, get_or-set_again, inl, inr, length,
  length-append, refl, replicate, set, subst, suc, sym, take-set_before, take_all, zero, ℕ, ◌++◌,
  ◌+◌, ◌<◌, ◌==◌, ◌∙◌, ◌∷◌, ◌≡◌, ◌≤◌,
}
use ecen_602_network_program.Base.Bytes.{
  NoNul, NoNul-left, NoNul-right, cstr, cstr-take, cstr_whole,
}
use ecen_602_network_program.Echo.Io.{
  Ends, Healthy, Read, Write, buffer_size, newline, payload, progress, returned, take_line,
}
use ecen_602_network_program.Echo.Write.{writen}
use ecen_602_network_program.Echo.Write.Delivery.{Delivers, writen-Delivers}
use ecen_602_network_program.Echo.ReadLine.{Line, i_read_line}
use ecen_602_network_program.Echo.ReadLine.Lines.{Reads, i_read_line-Reads}
use ecen_602_network_program.Echo.Client.{Session, client, exited, one_round}

abbrev pub flatten : List (List ℕ) → List ℕ
flatten [] = []
flatten (xs ∷ xss) = xs ++ flatten xss

-- A session in which everything was sent, answered and printed.
pub record IsRoundTrip (input : List ℕ) (s : Session) : Type 0 where
  pub ending : s.ending ≡ exited
  pub sent : s.sent ≡ input
  pub shown : flatten s.shown ≡ input

pub take_line_split :
    (k : ℕ) (cs : List ℕ) → take_line k cs ++ drop (length (take_line k cs)) cs ≡ cs
take_line_split zero cs = refl
take_line_split (suc k) [] = refl
take_line_split (suc k) (c ∷ cs) = elim (Bool-cases (c == newline)) [
  | inl stop ↦ rw stop refl
  | inr more ↦ rw more (ap (◌∷◌ c) (take_line_split k cs))
]

round-IsRoundTrip :
    (again : List Read → List Write → Session) (text tail : List ℕ) (rs : List Read)
    (ws : List Write)
    → let l = i_read_line (replicate (buffer_size + 1) 0) buffer_size rs in
      0 < length text
      → NoNul text
      → Healthy ws
      → length text ≤ progress ws
      → Reads 0 (replicate (buffer_size + 1) 0) text rs l
      → IsRoundTrip tail (again l.rest (writen text (length text) ws).rest)
      → IsRoundTrip (text ++ tail) (one_round again text rs ws)
round-IsRoundTrip again text tail rs ws some_text h v q r t =
    let n : ℕ = length text in
    let l : Line = i_read_line (replicate (buffer_size + 1) 0) buffer_size rs in
    let d : Delivers n text n ws (writen text n ws) = writen-Delivers text n ws v q in
    let more : (n == 0) ≡ false = ground arith in
    let e : 0 + n ≡ n = omega arith in
    let result : l.result ≡ returned n = r.result ∙ ap returned e in
    let sent : (writen text n ws).sent ≡ text = d.bytes ∙ take_all n text (omega arith) in
    let shown : cstr (set l.buffer n 0) ≡ text =
      cstr-take text (set l.buffer n 0) (take-set_before n l.buffer 0 ∙ (rw e at r.stored))
        (get_or-set_again n l.buffer 0 1 (rw e at r.terminated)) h in
    rw (more, d.all, result)
      (record {
        ending = t.ending;
        sent = ap₂ (λ (xs ys : List ℕ). xs ++ ys) sent t.sent;
        shown = ap₂ (λ (xs ys : List ℕ). xs ++ ys) shown t.shown;
      })

pub client-IsRoundTrip :
    (rounds : ℕ) (input : List ℕ) (rs : List Read) (ws : List Write)
    → NoNul input
    → Ends rs
    → payload rs ≡ input
    → Healthy ws
    → length input ≤ progress ws
    → length input < rounds
    → IsRoundTrip input (client rounds input rs ws)
unfolding client
client-IsRoundTrip zero input rs ws h e p v q f = absurd (omega arith)
client-IsRoundTrip (suc rounds) [] rs ws h e p v q f = record {
  ending = refl;
  sent = refl;
  shown = refl;
}
client-IsRoundTrip (suc rounds) (c ∷ cs) rs ws h e p v q f =
    let input : List ℕ = c ∷ cs in
    let line : List ℕ = take_line 19 input in
    let tail : List ℕ = drop (length line) input in
    let l : Line = i_read_line (replicate (buffer_size + 1) 0) buffer_size rs in
    let split : line ++ tail ≡ input = take_line_split 19 input in
    let sizes : length line + length tail ≡ length input =
      sym (length-append line tail) ∙ ap length split in
    let whole : NoNul (line ++ tail) = subst NoNul (sym split) h in
    let plain : NoNul line = NoNul-left line tail whole in
    let text : cstr line ≡ line = cstr_whole line plain in
    let d : Delivers (length line) line (length line) ws (writen line (length line) ws) =
      writen-Delivers line (length line) ws v (omega (arith, sizes)) in
    let r : Reads 0 (replicate (buffer_size + 1) 0) line rs l =
      subst (λ t. Reads 0 (replicate (buffer_size + 1) 0) (take_line 19 t) rs l) p
        (i_read_line-Reads buffer_size (replicate (buffer_size + 1) 0) rs e (omega arith)
          (omega arith)) in
    let left : payload l.rest ≡ tail =
      sym (drop-append line (payload l.rest)) ∙ ap (drop (length line)) (sym r.stream ∙ p) in
    let ih : IsRoundTrip tail (client rounds tail l.rest (writen line (length line) ws).rest) =
      client-IsRoundTrip rounds tail l.rest _ (NoNul-right line tail whole) r.ends left d.healthy
        (omega (arith, sizes, d.room)) (omega (arith, sizes)) in
    let this : IsRoundTrip (line ++ tail) (one_round (client rounds tail) line rs ws) =
      round-IsRoundTrip (client rounds tail) line tail rs ws (omega arith) plain v
        (omega (arith, sizes)) r ih in
    subst (λ t. IsRoundTrip input (one_round (client rounds tail) t rs ws)) (sym text)
      (subst (λ t. IsRoundTrip t (one_round (client rounds tail) line rs ws)) split this)
