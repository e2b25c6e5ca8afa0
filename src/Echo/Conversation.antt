-- ===== src/Echo/Conversation.antt =====
-- The client of Programming_Assignment_1 and a child of its server, each of which reads what the other
-- one writes.
use ecen_602_network_program.Base.{
  Bool-cases, List, [], ap, arith, drop, drop-append, false, inl, inr, length, length-append, refl,
  replicate, subst, suc, sym, take_all, zero, ℕ, ◌++◌, ◌+◌, ◌<◌, ◌==◌, ◌∙◌, ◌∷◌, ◌≡◌, ◌≤◌,
}
use ecen_602_network_program.Base.Bytes.{NoNul, NoNul-left, NoNul-right, cstr, cstr_whole}
use ecen_602_network_program.Echo.Io.{
  Ends, Healthy, Read, Write, buffer_size, newline, payload, progress, take_line,
}
use ecen_602_network_program.Echo.Write.{writen}
use ecen_602_network_program.Echo.Write.Delivery.{Delivers, writen-Delivers}
use ecen_602_network_program.Echo.ReadLine.{Line, i_read_line}
use ecen_602_network_program.Echo.ReadLine.Lines.{Reads, i_read_line-Reads}
use ecen_602_network_program.Echo.Server.{Echoed, read_write}
use ecen_602_network_program.Echo.Server.EchoAll.{echoed, read_write-echoed}
use ecen_602_network_program.Echo.Client.{Session, client, one_round}
use ecen_602_network_program.Echo.Client.RoundTrip.{
  IsRoundTrip, client-IsRoundTrip, take_line_split,
}

-- What the client has sent is a line, and what it sends behind it; it may read anything.
one_round-sent :
    (again : List Read → List Write → Session) (text line : List ℕ) (rs : List Read)
    (ws : List Write)
    → let l = i_read_line (replicate (buffer_size + 1) 0) buffer_size rs in
      0 < length text
      → Healthy ws
      → length text ≤ progress ws
      → Reads 0 (replicate (buffer_size + 1) 0) line rs l
      → (one_round again text rs ws).sent
        ≡ text ++ (again l.rest (writen text (length text) ws).rest).sent
one_round-sent again text line rs ws some_text v q r =
    let n : ℕ = length text in
    let d : Delivers n text n ws (writen text n ws) = writen-Delivers text n ws v q in
    let more : (n == 0) ≡ false = ground arith in
    let sent : (writen text n ws).sent ≡ text = d.bytes ∙ take_all n text (omega arith) in
    rw (more, d.all, r.result)
      (ap
        (λ (xs : List ℕ).
          xs
          ++ (again (i_read_line (replicate (buffer_size + 1) 0) buffer_size rs).rest
              (writen text n ws).rest).sent)
        sent)

client_nil :
    (rounds : ℕ) (rs : List Read) (ws : List Write)
    → 0 < rounds
    → (client rounds [] rs ws).sent ≡ []
unfolding client
client_nil zero rs ws h = absurd (omega arith)
client_nil (suc rounds) rs ws h = refl

-- The first line of a text is the first line of itself, with anything behind it, if there is
-- nothing behind a text of one line.
take_line_again :
    (k : ℕ) (cs later : List ℕ)
    → (drop (length (take_line k cs)) cs ≡ [] → later ≡ [])
    → take_line k (take_line k cs ++ later) ≡ take_line k cs
take_line_again zero cs later h = refl
take_line_again (suc k) [] later h = ap (take_line (suc k)) (h refl)
take_line_again (suc k) (c ∷ cs) later h = elim (Bool-cases (c == newline)) [
  | inl stop ↦ rw stop refl
  | inr more ↦ rw more (ap (◌∷◌ c) (take_line_again k cs later (rw more at h)))
]

-- A client that reads what it has sent has sent its whole input.
client-sends :
    (rounds : ℕ) (input : List ℕ) (rs : List Read) (ws : List Write)
    → NoNul input
    → Ends rs
    → Healthy ws
    → length input ≤ progress ws
    → length input < rounds
    → payload rs ≡ (client rounds input rs ws).sent
    → payload rs ≡ input
unfolding client
client-sends zero input rs ws h e v q f p = absurd (omega arith)
client-sends (suc rounds) [] rs ws h e v q f p = p
client-sends (suc rounds) (c ∷ cs) rs ws h e v q f p =
    let input : List ℕ = c ∷ cs in
    let line : List ℕ = take_line 19 input in
    let tail : List ℕ = drop (length line) input in
    let l : Line = i_read_line (replicate (buffer_size + 1) 0) buffer_size rs in
    let split : line ++ tail ≡ input = take_line_split 19 input in
    let sizes : length line + length tail ≡ length input =
      sym (length-append line tail) ∙ ap length split in
    let whole : NoNul (line ++ tail) = subst NoNul (sym split) h in
    let text : cstr line ≡ line = cstr_whole line (NoNul-left line tail whole) in
    let d : Delivers (length line) line (length line) ws (writen line (length line) ws) =
      writen-Delivers line (length line) ws v (omega (arith, sizes)) in
    let r : Reads 0 (replicate (buffer_size + 1) 0) (take_line 19 (payload rs)) rs l =
      i_read_line-Reads buffer_size (replicate (buffer_size + 1) 0) rs e (omega arith)
        (omega arith) in
    let later : List ℕ = (client rounds tail l.rest (writen line (length line) ws).rest).sent in
    let sent : payload rs ≡ line ++ later =
      p
      ∙ ap (λ t. (one_round (client rounds tail) t rs ws).sent) text
      ∙ one_round-sent (client rounds tail) line (take_line 19 (payload rs)) rs ws (omega arith) v
          (omega (arith, sizes)) r in
    let last : tail ≡ [] → later ≡ [] = λ z.
      ap (λ t. (client rounds t l.rest (writen line (length line) ws).rest).sent) z
      ∙ client_nil rounds _ _ (omega arith) in
    let first : take_line 19 (payload rs) ≡ line =
      ap (take_line 19) sent ∙ take_line_again 19 input later last in
    let left : payload l.rest ≡ later =
      sym (drop-append line (payload l.rest))
      ∙ ap (drop (length line)) (ap (λ t. t ++ payload l.rest) (sym first) ∙ sym r.stream ∙ sent)
      ∙ drop-append line later in
    let rest : payload l.rest ≡ tail =
      client-sends rounds tail l.rest _ (NoNul-right line tail whole) r.ends d.healthy
        (omega (arith, sizes, d.room)) (omega (arith, sizes)) left in
    sent ∙ ap (λ t. line ++ t) (sym left ∙ rest) ∙ split

-- A client and a child of the server that have run to the end, where the child has read what the client
-- wrote, and the client what the child wrote: if no call has failed for good, and there were writes and
-- rounds enough, then the client has sent its whole input, a text with no NUL, has got back and printed
-- it all, and has exited; and the child has left its loop. The order of their calls is not modelled.
pub conversation-IsRoundTrip :
    (rounds_c rounds_s : ℕ) (input : List ℕ) (rs_c rs_s : List Read) (ws_c ws_s : List Write)
    → NoNul input
    → Ends rs_c
    → Ends rs_s
    → Healthy ws_c
    → Healthy ws_s
    → length input ≤ progress ws_c
    → length (payload rs_s) ≤ progress ws_s
    → length input < rounds_c
    → length rs_s < rounds_s
    → payload rs_s ≡ (client rounds_c input rs_c ws_c).sent
    → payload rs_c ≡ (read_write rounds_s rs_s ws_s).sent
    → IsRoundTrip input (client rounds_c input rs_c ws_c)
      × (read_write rounds_s rs_s ws_s ≡ echoed input)
conversation-IsRoundTrip rounds_c rounds_s input rs_c rs_s ws_c ws_s h e e' v v' q q' f f' to back =
    let echo = read_write-echoed rounds_s rs_s ws_s e' v' q' f' in
    let same : payload rs_c ≡ payload rs_s = back ∙ ap (λ (x : Echoed). x.sent) echo in
    let whole : payload rs_c ≡ input =
      client-sends rounds_c input rs_c ws_c h e v q f (same ∙ to) in
    (
      client-IsRoundTrip rounds_c input rs_c ws_c h e whole v q f,
      echo ∙ ap echoed (sym same ∙ whole),
    )
