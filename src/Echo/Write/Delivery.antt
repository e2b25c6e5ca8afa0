-- ===== src/Echo/Write/Delivery.antt =====
-- What writen has sent when it returns, and that it returns.
use ecen_602_network_program.Base.{
  List, [], ap, append_assoc, arith, drop, length, length-append, length-take, min, refl, suc, take,
  take-add, take-append-drop, zero, ℕ, ◌++◌, ◌+◌, ◌-◌, ◌∙◌, ◌∷◌, ◌≡◌, ◌≤◌,
}
use ecen_602_network_program.Echo.Io.{
  Healthy, Write, accepts, broken, interrupted, progress, returned, unwritten,
}
use ecen_602_network_program.Echo.Write.{Written, write_loop, writen}

-- What has gone out is a first part of the buffer, and a result is the whole size, sent.
pub record IsPart (size : ℕ) (buffer : List ℕ) (left : ℕ) (w : Written) : Type 0 where
  pub within : length w.sent ≤ left
  pub unsent : List ℕ
  pub part : w.sent ++ unsent ≡ buffer
  pub whole : (n : ℕ) → w.result ≡ returned n → (n ≡ size) × (w.sent ≡ take left buffer)

-- The loop ends with everything sent, and uses up one accepting call for a byte at most.
pub record Delivers (size : ℕ) (buffer : List ℕ) (left : ℕ) (ws : List Write) (w : Written)
    : Type 0 where
  pub all : w.result ≡ returned size
  pub bytes : w.sent ≡ take left buffer
  pub healthy : Healthy w.rest
  pub room : progress ws ≤ progress w.rest + left

write_loop-Delivers :
    (size : ℕ) (buffer : List ℕ) (left : ℕ) (ws : List Write)
    → Healthy ws
    → left ≤ progress ws
    → Delivers size buffer left ws (write_loop size buffer left ws)
unfolding write_loop
write_loop-Delivers size buffer zero ws h p = record {
  all = refl;
  bytes = refl;
  healthy = h;
  room = omega arith;
}
write_loop-Delivers size buffer (suc left) [] h p = absurd (omega arith)
write_loop-Delivers size buffer (suc left) (accepts zero ∷ ws) h p =
    let m = min zero (suc left) in
    let ih = write_loop-Delivers size (drop m buffer) (suc left - m) ws h (omega arith) in
    record {
      all = ih.all;
      bytes =
          ap (◌++◌ (take m buffer)) ih.bytes
          ∙ take-add m (suc left - m) (suc left) buffer (omega arith);
      healthy = ih.healthy;
      room = omega (arith, ih.room);
    }
write_loop-Delivers size buffer (suc left) (accepts (suc n) ∷ ws) h p =
    let m = min (suc n) (suc left) in
    let ih = write_loop-Delivers size (drop m buffer) (suc left - m) ws h (omega arith) in
    record {
      all = ih.all;
      bytes =
          ap (◌++◌ (take m buffer)) ih.bytes
          ∙ take-add m (suc left - m) (suc left) buffer (omega arith);
      healthy = ih.healthy;
      room = omega (arith, ih.room);
    }
write_loop-Delivers size buffer (suc left) (unwritten interrupted ∷ ws) h p =
    let ih = write_loop-Delivers size buffer (suc left) ws h p in
    record { all = ih.all; bytes = ih.bytes; healthy = ih.healthy; room = ih.room }
write_loop-Delivers size buffer (suc left) (unwritten broken ∷ ws) h p = absurd h

-- With enough accepting calls for the bytes and no call that fails for good, writen returns the
-- size and has sent the first `size` bytes of the buffer, whatever EINTR and short writes it meets;
-- the calls left over accept no fewer than before, less one for each byte.
pub writen-Delivers :
    (buffer : List ℕ) (size : ℕ) (ws : List Write)
    → Healthy ws
    → size ≤ progress ws
    → Delivers size buffer size ws (writen buffer size ws)
unfolding writen
writen-Delivers buffer size ws h p = write_loop-Delivers size buffer size ws h p

write_loop-IsPart :
    (size : ℕ) (buffer : List ℕ) (left : ℕ) (ws : List Write)
    → IsPart size buffer left (write_loop size buffer left ws)
unfolding write_loop
write_loop-IsPart size buffer zero ws = record {
  within = omega arith;
  unsent = buffer;
  part = refl;
  whole = λ n e. (ground arith, refl);
}
write_loop-IsPart size buffer (suc left) [] = record {
  within = omega arith;
  unsent = buffer;
  part = refl;
  whole = λ n e. cc;
}
write_loop-IsPart size buffer (suc left) (accepts n ∷ ws) =
    let m = min n (suc left) in
    let ih = write_loop-IsPart size (drop m buffer) (suc left - m) ws in
    record {
      within = omega (
        arith,
        ih.within,
        length-append {0} (take m buffer) (write_loop size (drop m buffer) (suc left - m) ws).sent,
        length-take {0} m buffer,
      );
      unsent = ih.unsent;
      part =
          append_assoc (take m buffer) _ _
          ∙ ap (◌++◌ (take m buffer)) ih.part
          ∙ take-append-drop m buffer;
      whole = λ k e. (
        (ih.whole k e).0,
        ap (◌++◌ (take m buffer)) (ih.whole k e).1
            ∙ take-add m (suc left - m) (suc left) buffer (omega arith),
      );
    }
write_loop-IsPart size buffer (suc left) (unwritten interrupted ∷ ws) =
    let ih = write_loop-IsPart size buffer (suc left) ws in
    record { within = ih.within; unsent = ih.unsent; part = ih.part; whole = ih.whole }
write_loop-IsPart size buffer (suc left) (unwritten broken ∷ ws) = record {
  within = omega arith;
  unsent = buffer;
  part = refl;
  whole = λ n e. cc;
}

-- Whatever the calls of write answer: what has gone out is a first part of the buffer and no longer
-- than the size; and if writen returns a length, it is the size, and as many bytes have gone out.
pub writen-IsPart :
    (buffer : List ℕ) (size : ℕ) (ws : List Write) → IsPart size buffer size (writen buffer size ws)
unfolding writen
writen-IsPart buffer size ws = write_loop-IsPart size buffer size ws
