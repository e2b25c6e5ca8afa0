-- ===== src/Chat/Client/Talk.antt =====
-- From the keyboard of one client to the screens of the others, through the chat server of
-- Programming_Assignment_2.
use ecen_602_network_program.Base.{
  Bool, List, [], ap, arith, false, if◌then◌else◌, length, not, refl, some, suc, true, zero, ℕ,
  ◌&&◌, ◌++◌, ◌<◌, ◌==◌, ◌∙◌, ◌∷◌, ◌≡◌, ◌≢◌,
}
use ecen_602_network_program.Base.Bytes.{codes, cstr}
use ecen_602_network_program.Chat.Message.{Message, forward, payload_size, send}
use ecen_602_network_program.Chat.Room.{Action, Room, User, find_user, goes}
use ecen_602_network_program.Chat.Room.Members.{active, holds}
use ecen_602_network_program.Chat.Room.Wellformed.{IsRoom}
use ecen_602_network_program.Chat.Broadcast.{arrived, broadcast_message, chat_text}
use ecen_602_network_program.Chat.Broadcast.Delivery.{broadcast_message-tells, inbox}
use ecen_602_network_program.Chat.Client.{
  Shown, chat_line, chomp, fgets_line, prints, show_message, typed, typed_text,
}

-- What a client shows of the messages that it gets.
abbrev pub shown : List Message → List Shown
shown [] = []
shown (m ∷ ms) = show_message m ∷ shown ms

-- A text that is one line: no NUL and no newline in it.
abbrev pub IsLine : List ℕ → Type 0
IsLine [] = Unit
IsLine (c ∷ cs) = (c ≢ 0) × (c ≢ 10) × IsLine cs

fgets_line-line :
    (n : ℕ) (text rest : List ℕ)
    → IsLine text
    → length text < n
    → fgets_line n (text ++ 10 ∷ rest) ≡ text ++ 10 ∷ []
unfolding fgets_line
fgets_line-line zero text rest h l = absurd (omega arith)
fgets_line-line (suc n) [] rest h l = refl
fgets_line-line (suc n) (c ∷ cs) rest h l =
    let solid : (c == 10) ≡ false = ground (arith, h.1) in
    rw solid (ap (◌∷◌ c) (fgets_line-line n cs rest h.2 (omega arith)))

cstr-line : (text : List ℕ) → IsLine text → cstr (text ++ 10 ∷ []) ≡ text ++ 10 ∷ []
unfolding cstr
cstr-line [] h = refl
cstr-line (c ∷ cs) h =
    let solid : (c == 0) ≡ false = ground (arith, h.0) in rw solid (ap (◌∷◌ c) (cstr-line cs h.2))

chomp-line : (text : List ℕ) → chomp (text ++ 10 ∷ []) ≡ text
unfolding chomp
chomp-line [] = refl
chomp-line (c ∷ []) = refl
chomp-line (c ∷ d ∷ cs) = ap (◌∷◌ c) (chomp-line (d ∷ cs))

typed_text-line : (text : List ℕ) → typed_text (text ++ 10 ∷ []) ≡ some (chat_line text)
unfolding typed_text
typed_text-line [] = ap some (ap chat_line (chomp-line []))
typed_text-line (c ∷ cs) = ap some (ap chat_line (chomp-line (c ∷ cs)))

typed-line :
    (text rest : List ℕ)
    → IsLine text
    → length text < 511
    → typed (text ++ 10 ∷ rest) ≡ some (chat_line text)
unfolding typed
typed-line text rest h l =
    rw (fgets_line-line 511 text rest h l, cstr-line text h) (typed_text-line text)

abbrev on_screen : List ℕ → List ℕ → Shown
on_screen name text = prints ((name ++ (codes ": " ++ (text ++ 10 ∷ []))) ++ 10 ∷ [])

shown_if :
    (b : Bool) (name text : List ℕ)
    → shown (if b then forward (chat_text name send text) ∷ [] else [])
      ≡ (if b then on_screen name text ∷ [] else [])
unfolding show_message chat_text
shown_if true name text = refl
shown_if false name text = refl

-- In a well-formed room, where every send works, a client in use types a line of at most 510 bytes
-- with no NUL, which fits the payload behind its name: what main sends for it, the server accepts in
-- the same state; and it brings to the screen of every other client in use, once, the name, a colon
-- and the line, and to no other screen anything.
pub typed-shown :
    (works : ℕ → Bool) (room : Room) (fd j : ℕ) (heap text rest : List ℕ)
    → IsRoom room
    → ((i : ℕ) → works i ≡ true)
    → holds fd (active room) ≡ true
    → IsLine text
    → length text < 511
    → ((u : User)
        → find_user fd (active room) ≡ some u
        → length (chat_text u.user_name send text) < payload_size)
    → (u : User) × (m : Message) × (actions : List Action) × (find_user fd (active room) ≡ some u)
      × (typed (text ++ 10 ∷ rest) ≡ some m)
      × (broadcast_message works room fd heap (arrived m.header_type m.payload) ≡ goes room actions)
      × (shown (inbox j actions) ≡ (
          if holds j (active room) && not (j == fd)
          then prints ((u.user_name ++ (codes ": " ++ (text ++ 10 ∷ []))) ++ 10 ∷ []) ∷ []
          else []))
typed-shown works room fd j heap text rest v w h line l fits =
    let (u, actions, found, goes_on, told) =
      broadcast_message-tells works room fd send j heap text v w h fits in
    (
      u,
      chat_line text,
      actions,
      found,
      typed-line text rest line l,
      goes_on,
      ap shown told ∙ shown_if (holds j (active room) && not (j == fd)) u.user_name text,
    )
