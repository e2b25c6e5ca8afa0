-- ===== src/Echo/ReadLine/Lines.antt =====
-- iReadLine cuts a stream into lines.
use native.Mathlib.Numerals.{add-one}
use ecen_602_network_program.Base.{
  Bool-cases, List, [], ap, append-nil, append_assoc, arith, false, get_or, get_or-set, inl, inr,
  length, length-set, ltb, min, refl, set, suc, sym, take, take-set, take-set_before, true, zero, ℕ,
  ◌++◌, ◌+◌, ◌-◌, ◌<◌, ◌==◌, ◌∙◌, ◌∷◌, ◌≡◌, ◌≤◌,
}
use ecen_602_network_program.Echo.Io.{
  Ends, Read, broken, ended, got, interrupted, newline, payload, returned, take_line, unread,
}
use ecen_602_network_program.Echo.ReadLine.{Line, i_read_line, read_loop}

-- What a call leaves that found the bytes `line` on the stream.
pub record Reads (len : ℕ) (buffer line : List ℕ) (rs : List Read) (l : Line) : Type 0 where
  pub result : l.result ≡ returned (len + length line)
  pub stored : take (len + length line) l.buffer ≡ take len buffer ++ line
  pub terminated : get_or l.buffer (len + length line) 1 ≡ 0
  pub stream : payload rs ≡ line ++ payload l.rest
  pub ends : Ends l.rest
  pub shorter : length l.rest + min 1 (length line) ≤ length rs

finished :
    (len : ℕ) (buffer : List ℕ) (c : ℕ) (rs : List Read)
    → Ends rs
    → len + 1 < length buffer
    → Reads len buffer (c ∷ []) (got c ∷ rs) (record {
      result = returned (len + 1);
      buffer = set (set buffer len c) (len + 1) 0;
      rest = rs;
    })
finished len buffer c rs h room =
    let buffer' = set buffer len c in
    record {
      result = refl;
      stored =
          take-set_before (len + 1) buffer' 0 ∙ rw add-one (take-set len buffer c (omega arith));
      terminated = get_or-set (len + 1) buffer' 0 1 (omega (arith, length-set {0} buffer len c));
      stream = refl;
      ends = h;
      shorter = omega arith;
    }

-- One more byte in front of what a later part of the loop reads.
extended :
    (len : ℕ) (buffer : List ℕ) (c : ℕ) (line : List ℕ) (rs : List Read) (l : Line)
    → len < length buffer
    → Reads (len + 1) (set buffer len c) line rs l
    → Reads len buffer (c ∷ line) (got c ∷ rs) l
extended len buffer c line rs l room r =
    let e : len + 1 + length line ≡ len + suc (length line) = omega arith in
    record {
      result = r.result ∙ ap returned e;
      stored = rw (← e) (
          r.stored
          ∙ ap (λ xs. xs ++ line) (rw add-one (take-set len buffer c room))
          ∙ append_assoc (take len buffer) (c ∷ []) line);
      terminated = rw (← e) r.terminated;
      stream = ap (◌∷◌ c) r.stream;
      ends = r.ends;
      shorter = omega (arith, r.shorter);
    }

read_loop-Reads :
    (size len k : ℕ) (buffer : List ℕ) (rs : List Read)
    → Ends rs
    → len + suc k + 1 ≡ size
    → size ≤ length buffer
    → Reads len buffer (take_line (suc k) (payload rs)) rs (read_loop size buffer len rs)
unfolding read_loop
read_loop-Reads size len k buffer [] h e room = elim h [ ]
read_loop-Reads size len k buffer (unread broken ∷ rs) h e room = elim h [ ]
read_loop-Reads size len k buffer (unread interrupted ∷ rs) h e room =
    let r = read_loop-Reads size len k buffer rs h e room in
    record {
      result = r.result;
      stored = r.stored;
      terminated = r.terminated;
      stream = r.stream;
      ends = r.ends;
      shorter = omega (arith, r.shorter);
    }
read_loop-Reads size len k buffer (ended ∷ rs) h e room =
    let n : len + 0 ≡ len = omega arith in
    record {
      result = ap returned (sym n);
      stored = rw n (take-set_before len buffer 0 ∙ sym (append-nil _));
      terminated = rw n (get_or-set len buffer 0 1 (omega arith));
      stream = refl;
      ends = h;
      shorter = omega arith;
    }
read_loop-Reads size len zero buffer (got c ∷ rs) h e room =
    let fits : ltb (len + 1) size ≡ true = ground arith in
    let full : (len + 1 + 1 == size) ≡ true = ground arith in
    elim (Bool-cases (c == newline)) [
      | inl stop ↦ rw (stop, fits) (finished len buffer c rs h (omega arith))
      | inr more ↦ rw (more, fits, full) (finished len buffer c rs h (omega arith))
    ]
read_loop-Reads size len (suc k) buffer (got c ∷ rs) h e room =
    let fits : ltb (len + 1) size ≡ true = ground arith in
    let full : (len + 1 + 1 == size) ≡ false = ground arith in
    elim (Bool-cases (c == newline)) [
      | inl stop ↦ rw (stop, fits) (finished len buffer c rs h (omega arith))
      | inr more ↦
          rw (more, fits, full)
            (extended len buffer c (take_line (suc k) (payload rs)) rs _ (omega arith) (
              read_loop-Reads size (len + 1) k (set buffer len c) rs h (omega arith)
                (omega (arith, length-set {0} buffer len c))))
    ]

-- A call that has room for a byte and the NUL, on a stream that the peer ends, returns: with the
-- first line of the stream, cut at `size` - 1 bytes, stored in order and followed by a NUL, and the
-- stream moved behind it; EINTR leaves no trace.
pub i_read_line-Reads :
    (size : ℕ) (buffer : List ℕ) (rs : List Read)
    → Ends rs
    → 2 ≤ size
    → size ≤ length buffer
    → Reads 0 buffer (take_line (size - 1) (payload rs)) rs (i_read_line buffer size rs)
unfolding i_read_line
i_read_line-Reads size buffer rs h two room =
    let e : size - 1 ≡ suc (size - 2) = omega arith in
    rw e (read_loop-Reads size 0 (size - 2) buffer rs h (omega arith) room)
