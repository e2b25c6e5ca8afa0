-- ===== src/Chat/Client/Idle.antt =====
-- How often vSendIdleMessage of Programming_Assignment_2/src/client.c speaks, whatever the order in
-- which the two threads run.
use ecen_602_network_program.Base.{
  Bool, List, [], ap, arith, false, if◌then◌else◌, refl, some, subst, sym, true, ℕ, ◌+◌, ◌==◌, ◌∙◌,
  ◌∷◌, ◌≡◌, ◌≤◌,
}
use ecen_602_network_program.Chat.Message.{Message, idle, send}
use ecen_602_network_program.Chat.Client.{
  Client, IdleAt, MainAt, Move, Runs, begins, chat_line, chomp, hands_over, idles, marked, marks,
  moves, passed, selecting, sending, times_out, typed, typed_text, types, waiting,
}

-- The number of messages with a type.
abbrev pub count_type : ℕ → List Message → ℕ
count_type t [] = 0
count_type t (m ∷ ms) = (if m.header_type == t then 1 else 0) + count_type t ms

-- A message that is typed and not yet sent.
abbrev pub pending : MainAt → ℕ
pending selecting = 0
pending (sending m) = 1

abbrev unset : Bool → ℕ
unset true = 0
unset false = 1

-- What the place of the second thread says of the flag and of the messages.
abbrev Spoken : IdleAt → Bool → ℕ → ℕ → Type 0
Spoken waiting flag idle_count n = idle_count + unset flag ≤ n + 1
Spoken passed flag idle_count n = idle_count ≤ n
Spoken marked flag idle_count n = idle_count + unset flag ≤ n

abbrev IsSend : MainAt → Type 0
IsSend selecting = Unit
IsSend (sending m) = m.header_type ≡ send

record Inv (c : Client) : Type 0 where
  spoken :
      Spoken c.idle_at c.flag (count_type idle c.sent) (count_type send c.sent + pending c.main_at)
  typed_send : IsSend c.main_at

typed_text-send : (line : List ℕ) (m : Message) → typed_text line ≡ some m → m.header_type ≡ send
unfolding typed_text
typed_text-send [] m h = cc
typed_text-send (c ∷ cs) m h =
    let e : chat_line (chomp (c ∷ cs)) ≡ m = cc in sym (ap (λ (m : Message). m.header_type) e)

Spoken-eq :
    (at : IdleAt) (flag : Bool) (i i' n n' : ℕ)
    → i ≡ i'
    → n ≡ n'
    → Spoken at flag i n
    → Spoken at flag i' n'
Spoken-eq at flag i i' n n' e f h =
    subst (λ k. Spoken at flag i' k) f (subst (λ k. Spoken at flag k n) e h)

-- A line more may be followed by one idle message more.
Spoken-types :
    (at : IdleAt) (flag : Bool) (i n : ℕ) → Spoken at flag i n → Spoken at false i (n + 1)
Spoken-types waiting true i n h = omega (arith, h)
Spoken-types waiting false i n h = omega (arith, h)
Spoken-types passed flag i n h = omega (arith, h)
Spoken-types marked true i n h = omega (arith, h)
Spoken-types marked false i n h = omega (arith, h)

Move-Inv : (c d : Client) → Move c d → Inv c → Inv d
unfolding typed
Move-Inv c _ (types _ input m e t) v = record {
  spoken =
      Spoken-eq c.idle_at false _ _ (count_type send c.sent + pending c.main_at + 1) _ refl
        (ap (λ a. count_type send c.sent + pending a + 1) e ∙ omega arith)
        (Spoken-types c.idle_at c.flag _ _ v.spoken);
  typed_send = typed_text-send _ m t;
}
Move-Inv c _ (hands_over _ m e) v =
    let kind : m.header_type ≡ send = subst IsSend e v.typed_send in
    record {
      spoken =
          Spoken-eq c.idle_at c.flag (count_type idle c.sent) _
            (count_type send c.sent + pending c.main_at) _ (ground (arith, kind))
            (ap (λ a. count_type send c.sent + pending a) e ∙ ground (arith, kind)) v.spoken;
      typed_send = tt;
    }
Move-Inv c _ (times_out _ e f) v = record {
  spoken =
      let h =
        subst
          (λ at.
            Spoken at c.flag (count_type idle c.sent) (count_type send c.sent + pending c.main_at))
          e v.spoken in
      ground (arith, h, f);
  typed_send = v.typed_send;
}
Move-Inv c _ (marks _ e) v = record {
  spoken =
      let h =
        subst
          (λ at.
            Spoken at c.flag (count_type idle c.sent) (count_type send c.sent + pending c.main_at))
          e v.spoken in
      omega (arith, h);
  typed_send = v.typed_send;
}
Move-Inv c _ (idles _ e) v = record {
  spoken =
      let h =
        subst
          (λ at.
            Spoken at c.flag (count_type idle c.sent) (count_type send c.sent + pending c.main_at))
          e v.spoken in
      omega (arith, h);
  typed_send = v.typed_send;
}

Runs-Inv : (c : Client) → Runs c → Inv c
Runs-Inv _ begins = record { spoken = omega arith; typed_send = tt }
Runs-Inv c (moves b _ r m) = Move-Inv b c m (Runs-Inv b r)

Spoken-le : (at : IdleAt) (flag : Bool) (i n : ℕ) → Spoken at flag i n → i ≤ n + 1
Spoken-le waiting true i n h = omega (arith, h)
Spoken-le waiting false i n h = omega (arith, h)
Spoken-le passed flag i n h = omega (arith, h)
Spoken-le marked true i n h = omega (arith, h)
Spoken-le marked false i n h = omega (arith, h)

-- Whatever the order in which the two threads run: when main waits at select, the client has sent at
-- most one idle message more than lines of text, so a user who stays silent is told of once.
pub idle-le-send :
    (c : Client)
    → Runs c
    → c.main_at ≡ selecting
    → count_type idle c.sent ≤ count_type send c.sent + 1
idle-le-send c r e =
    let bound = Spoken-le c.idle_at c.flag _ _ (Runs-Inv c r).spoken in
    omega (arith, bound, ap pending e)
