-- ===== src/Echo/Server/EchoAll.antt =====
-- The server sends back what it receives; where it does not stop.
use ecen_602_network_program.Base.{
  List, [], ap, arith, false, length, length-append, refl, replicate, suc, sym, zero, ℕ, ◌++◌, ◌+◌,
  ◌<◌, ◌==◌, ◌∙◌, ◌∷◌, ◌≡◌, ◌≢◌, ◌≤◌,
}
use ecen_602_network_program.Echo.Io.{
  Ends, Healthy, Read, Write, broken, buffer_size, payload, progress, returned, take_line, unread,
}
use ecen_602_network_program.Echo.Write.{writen}
use ecen_602_network_program.Echo.Write.Delivery.{writen-Delivers}
use ecen_602_network_program.Echo.ReadLine.{Line, i_read_line}
use ecen_602_network_program.Echo.ReadLine.Lines.{Reads, i_read_line-Reads}
use ecen_602_network_program.Echo.Server.{Echoed, after_read, closed, quiet, read_write, running}

-- What a session with the whole stream echoed comes to.
abbrev pub echoed : List ℕ → Echoed
echoed bytes = record { ending = closed; sent = bytes }

round-echoed :
    (again : List Read → List Write → Echoed) (l : Line) (line tail : List ℕ) (rs : List Read)
    (ws : List Write)
    → Reads 0 (replicate buffer_size 0) line rs l
    → Healthy ws
    → length line ≤ progress ws
    → (line ≡ [] → tail ≡ [])
    → (line ≢ [] → again l.rest (writen l.buffer (length line) ws).rest ≡ echoed tail)
    → after_read again l ws ≡ echoed (line ++ tail)
round-echoed again l [] tail rs ws r h p stop go = rw (r.result, stop refl)
round-echoed again l (c ∷ line) tail rs ws r h p stop go =
    let n = suc (length line) in
    let d = writen-Delivers l.buffer n ws h p in
    let e : 0 + n ≡ n = omega arith in
    let result : l.result ≡ returned n = r.result ∙ ap returned e in
    let bytes : (writen l.buffer n ws).sent ≡ c ∷ line = d.bytes ∙ (rw e at r.stored) in
    let more : (n == 0) ≡ false = ground arith in
    rw (result, more, go (λ q. cc), d.all)
      (ap (λ xs. record { ending = closed; sent = xs ++ tail }) bytes)

pos_length : (xs : List ℕ) → xs ≢ [] → 0 < length xs
pos_length [] h = absurd (h refl)
pos_length (x ∷ xs) h = omega arith

no_line : (k : ℕ) (cs : List ℕ) → take_line (suc k) cs ≡ [] → cs ≡ []
no_line k [] e = refl
no_line k (c ∷ cs) e = cc

-- Whatever the peer sends before it closes the connection comes back to it, byte for byte and in
-- order, and the child leaves its loop: if no call of read or write fails for good, if as many
-- writes take a byte as there are bytes, and with more rounds than calls of read. EINTR, short
-- writes, the cut at 19 bytes and a last line with no newline change nothing.
pub read_write-echoed :
    (rounds : ℕ) (rs : List Read) (ws : List Write)
    → Ends rs
    → Healthy ws
    → length (payload rs) ≤ progress ws
    → length rs < rounds
    → read_write rounds rs ws ≡ echoed (payload rs)
unfolding read_write
read_write-echoed zero rs ws e h p f = absurd (omega arith)
read_write-echoed (suc rounds) rs ws e h p f =
    let buffer : List ℕ = replicate buffer_size 0 in
    let line : List ℕ = take_line 19 (payload rs) in
    let l : Line = i_read_line buffer buffer_size rs in
    let r : Reads 0 buffer line rs l =
      i_read_line-Reads buffer_size buffer rs e (omega arith) (omega arith) in
    let parts : length (payload rs) ≡ length line + length (payload l.rest) =
      ap length r.stream ∙ length-append line (payload l.rest) in
    let d = writen-Delivers l.buffer (length line) ws h (omega (arith, parts)) in
    round-echoed (read_write rounds) l line (payload l.rest) rs ws r h (omega (arith, parts))
      (λ empty. sym (r.stream ∙ ap (λ xs. xs ++ payload l.rest) empty) ∙ no_line 18 _ empty)
      (λ some_left.
        read_write-echoed rounds l.rest _ r.ends d.healthy (omega (arith, parts, d.room))
          (omega (arith, r.shorter, pos_length line some_left)))
    ∙ ap echoed (sym r.stream)

-- A descriptor whose reads fail for good (a failed accept hands -1 to the child) keeps the child in
-- its loop, however many rounds it is given: the result -1 does not end the loop.
pub read_write-broken :
    (rounds : ℕ) (ws : List Write)
    → read_write rounds (replicate rounds (unread broken)) ws ≡ quiet running
unfolding read_write i_read_line
read_write-broken zero ws = refl
read_write-broken (suc rounds) ws = read_write-broken rounds ws
