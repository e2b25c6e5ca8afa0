-- ===== src/Chat/Broadcast/Delivery.antt =====
-- Whom the loops that send to all in broadcast_message and main of Programming_Assignment_2 reach.
use native.Mathlib.Numerals.{add-one}
use mathlib.Core.Bool.{false≢true}
use ecen_602_network_program.Base.{
  ==_iff, Bool, Bool-cases, List, [], ap, arith, false, if◌then◌else◌, inl, inr, length, not, refl,
  some, subst, suc, sym, take, true, zero, ℕ, ◌&&◌, ◌++◌, ◌+◌, ◌<◌, ◌==◌, ◌∙◌, ◌∷◌, ◌≡◌, ◌≤◌, ◌⊎◌,
}
use ecen_602_network_program.Base.Bytes.{codes}
use ecen_602_network_program.Base.Select.{FdSet}
use ecen_602_network_program.Chat.Message.{Message, fitting-fits, forward, payload_size}
use ecen_602_network_program.Chat.Room.{
  Action, Room, User, broadcast, closes, fan_out, find_user, goes, sends,
}
use ecen_602_network_program.Chat.Room.Members.{active, find_user-holds, holds}
use ecen_602_network_program.Chat.Room.Wellformed.{IsRoom}
use ecen_602_network_program.Chat.Broadcast.{arrived, broadcast_message, chat_text, speak}

-- The messages that were sent to a socket, in order.
abbrev pub inbox : ℕ → List Action → List Message
inbox fd [] = []
inbox fd (sends other m ∷ actions) = if other == fd then m ∷ inbox fd actions else inbox fd actions
inbox fd (closes other ∷ actions) = inbox fd actions

module _ (works : ℕ → Bool) (set : FdSet) (own other : ℕ) (m : Message) where
  abbrev wanted : ℕ → Bool
  wanted k = set k && (not (k == own) && not (k == other))

  differs : (j k : ℕ) → (j < k) ⊎ (wanted j ≡ false) → wanted k ≡ true → (k == j) ≡ false
  differs j k (inl lt) e = ground arith
  differs j k (inr un) e = elim (Bool-cases (k == j)) [
    | inr ne ↦ ne
    | inl same ↦ absurd (false≢true (sym un ∙ ap wanted (sym ((==_iff k j).0 same)) ∙ e))
  ]

  inbox-fan_out_none :
      (j k n : ℕ)
      → (j < k) ⊎ (wanted j ≡ false)
      → inbox j (fan_out works set own other m k n).1 ≡ []
  unfolding fan_out
  inbox-fan_out_none j k zero h = refl
  inbox-fan_out_none j k (suc n) h =
      let later : inbox j (fan_out works set own other m (k + 1) n).1 ≡ [] =
        inbox-fan_out_none j (k + 1) n (elim h [ inl lt ↦ inl (omega arith) | inr un ↦ inr un ]) in
      elim (Bool-cases (wanted k)) [
        | inr skipped ↦ rw skipped later
        | inl chosen ↦ elim (Bool-cases (works k)) [
          | inr fails ↦ rw (chosen, fails) refl
          | inl sent ↦ rw (chosen, sent, differs j k h chosen) later
        ]
      ]

  inbox-fan_out_one :
      (j k n : ℕ)
      → ((i : ℕ) → works i ≡ true)
      → k ≤ j
      → j < k + n
      → wanted j ≡ true
      → inbox j (fan_out works set own other m k n).1 ≡ m ∷ []
  unfolding fan_out
  inbox-fan_out_one j k zero w h l e = absurd (omega arith)
  inbox-fan_out_one j k (suc n) w h l e = elim (Bool-cases (k == j)) [
    | inl here ↦
        let same : k ≡ j = (==_iff k j).0 here in
        let chosen : wanted k ≡ true = subst (λ t. wanted t ≡ true) (sym same) e in
        rw (chosen, w k, here)
          (ap (◌∷◌ m) (inbox-fan_out_none j (k + 1) n (inl (omega (arith, same)))))
    | inr further ↦
        let later : inbox j (fan_out works set own other m (k + 1) n).1 ≡ m ∷ [] =
          inbox-fan_out_one j (k + 1) n w (ground (arith, further)) (omega arith) e in
        elim (Bool-cases (wanted k)) [
          | inr skipped ↦ rw skipped later
          | inl chosen ↦ rw (chosen, w k, further) later
        ]
  ]

  fan_out-goes :
      (k n : ℕ) → ((i : ℕ) → works i ≡ true) → (fan_out works set own other m k n).0 ≡ true
  unfolding fan_out
  fan_out-goes k zero w = refl
  fan_out-goes k (suc n) w = ground (arith, w k, fan_out-goes (k + 1) n w)

-- The sockets that the loop takes are those of the clients, but for the one left out.
wanted-holds :
    (room : Room) (own j : ℕ)
    → IsRoom room
    → (room.set1 j && (not (j == own) && not (j == room.listening)))
      ≡ (holds j (active room) && not (j == own))
wanted-holds room own j v = elim (Bool-cases (j == room.listening)) [
  | inl here ↦
      let none_here : holds j (active room) ≡ false =
        ap (λ t. holds t (active room)) ((==_iff j room.listening).0 here) ∙ v.apart in
      ground (arith, here, none_here)
  | inr client ↦ ground (arith, client, v.watched j)
]

-- A broadcast over sockets that all work.
pub inbox-broadcast :
    (works : ℕ → Bool) (room : Room) (own : ℕ) (m : Message) (j : ℕ)
    → IsRoom room
    → ((i : ℕ) → works i ≡ true)
    → ((broadcast works room own m).0 ≡ true)
      × (inbox j (broadcast works room own m).1
          ≡ (if holds j (active room) && not (j == own) then m ∷ [] else []))
unfolding broadcast
inbox-broadcast works room own m j v w = (
  fan_out-goes works room.set1 own room.listening m 0 (room.max_fd + 1) w,
  elim (Bool-cases (holds j (active room) && not (j == own))) [
    | inl reached ↦
        let e : (room.set1 j && (not (j == own) && not (j == room.listening))) ≡ true =
          wanted-holds room own j v ∙ reached in
        let watched : room.set1 j ≡ true = ground arith in
        rw reached (
          inbox-fan_out_one works room.set1 own room.listening m j 0 (room.max_fd + 1) w
            (omega arith) (omega (arith, v.below j watched)) e)
    | inr missed ↦ rw missed (
        inbox-fan_out_none works room.set1 own room.listening m j 0 (room.max_fd + 1)
          (inr (wanted-holds room own j v ∙ missed)))
  ],
)

-- The search that reads one entry more finds the same client, if one in use has the socket.
find_user_longer :
    (fd n : ℕ) (us : List User) (u : User)
    → find_user fd (take n us) ≡ some u
    → find_user fd (take (suc n) us) ≡ some u
unfolding find_user
find_user_longer fd zero us u h = cc
find_user_longer fd (suc n) [] u h = h
find_user_longer fd (suc n) (v ∷ us) u h = ground (arith, find_user_longer fd n us u)

find_user-more :
    (room : Room) (fd : ℕ) (u : User)
    → find_user fd (active room) ≡ some u
    → find_user fd (take (room.client_count + 1) room.clients) ≡ some u
find_user-more room fd u h = rw add-one (find_user_longer fd room.client_count room.clients u h)

speak-fits :
    (works : ℕ → Bool) (room : Room) (fd header_type : ℕ) (payload : List ℕ) (u : User)
    → let text = chat_text u.user_name header_type payload in
      length text < payload_size
      → (broadcast works room fd (forward text)).0 ≡ true
      → speak works room fd header_type payload (some u)
        ≡ goes room (broadcast works room fd (forward text)).1
unfolding speak
speak-fits works room fd header_type payload u h b =
    rw (fitting-fits payload_size (chat_text u.user_name header_type payload) h, speak, b) refl

pub broadcast_message-tells :
    (works : ℕ → Bool) (room : Room) (fd header_type j : ℕ) (heap payload : List ℕ)
    → IsRoom room
    → ((i : ℕ) → works i ≡ true)
    → holds fd (active room) ≡ true
    → ((u : User)
        → find_user fd (active room) ≡ some u
        → length (chat_text u.user_name header_type payload) < payload_size)
    → (u : User) × (actions : List Action) × (find_user fd (active room) ≡ some u)
      × (broadcast_message works room fd heap (arrived header_type payload) ≡ goes room actions)
      × (inbox j actions ≡ (
          if holds j (active room) && not (j == fd)
          then forward (chat_text u.user_name header_type payload) ∷ []
          else []))
unfolding broadcast_message
broadcast_message-tells works room fd header_type j heap payload v w h fits =
    let (u, e) = find_user-holds fd (active room) h in
    let text : List ℕ = chat_text u.user_name header_type payload in
    let b = inbox-broadcast works room fd (forward text) j v w in
    (
      u,
      (broadcast works room fd (forward text)).1,
      e,
      rw (find_user-more room fd u e)
          (speak-fits works room fd header_type payload u (fits u e) b.0),
      b.1,
    )

-- What the others are to see: the name of the sender, and that it is idle (header type 9) or what it
-- says.
abbrev pub spoken : List ℕ → ℕ → List ℕ → List ℕ
spoken name header_type payload =
    name
    ++ (if header_type == 9
        then codes " is idle" ++ 10 ∷ []
        else codes ": " ++ (payload ++ 10 ∷ []))
