-- ===== src/Tftp/Exchange/Turns.antt =====
-- What one turn of an inner loop comes to when the network behaves.
use ecen_602_network_program.Base.{
  List, arith, false, length, ltb, refl, take, take_all, true, ℕ, ◌+◌, ◌≡◌, ◌≤◌,
}
use ecen_602_network_program.Tftp.Wire.{message_size}
use ecen_602_network_program.Tftp.Socket.{
  Network, Socket, datagram, receive_message, send_message, timeout,
}
use ecen_602_network_program.Tftp.Exchange.{Reply, receive_next, replied}

pub send_message-works :
    (net : Network) (s : Socket) (message : List ℕ)
    → net.sendto s.clock ≡ true
    → ((send_message net s message).0 ≡ true) × ((send_message net s message).1.clock ≡ s.clock + 1)
unfolding send_message
send_message-works net s message up = rw up (refl, refl)

-- A loop that is answered replies the message, with the clock where it says.
pub record Gets (message : List ℕ) (clock : ℕ) (x : Reply × Socket) : Type 0 where
  pub reply : x.0 ≡ replied message
  pub moved : x.1.clock ≡ clock

pub receive_next-datagram :
    (net : Network) (again : Socket → Reply × Socket) (from : ℕ) (message : List ℕ) (s : Socket)
    → 4 ≤ length message
    → length message ≤ message_size
    → net.recvfrom s.clock ≡ datagram from message
    → Gets message (s.clock + 1) (receive_next net again s)
unfolding receive_message
receive_next-datagram net again from message s len fits e =
    let whole : take message_size message ≡ message = take_all message_size message fits in
    let long : (ltb (length message) 4) ≡ false = ground arith in
    rw (e, receive_message, whole, long) (record { reply = refl; moved = refl })

pub receive_next-timeout :
    (net : Network) (again : Socket → Reply × Socket) (s : Socket)
    → net.recvfrom s.clock ≡ timeout
    → receive_next net again s ≡ again (record s { clock = s.clock + 1 })
unfolding receive_message
receive_next-timeout net again s e = rw (e, receive_message) refl
