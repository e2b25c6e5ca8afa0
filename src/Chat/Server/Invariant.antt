-- ===== src/Chat/Server/Invariant.antt =====
-- The well-formedness of the room over one event of the loop in main of
-- Programming_Assignment_2/src/server.c.
use mathlib.Core.Bool.{false≢true}
use native.Mathlib.Numerals.{add-one}
use ecen_602_network_program.Base.{
  ==_iff, Bool, Bool-cases, List, Option, Option-cases, [], ap, arith, false, if◌then◌else◌, inl,
  inr, length, length-set, length-take, ltb, none, refl, some, subst, suc, sym, take, take-set,
  true, zero, ℕ, ◌++◌, ◌-◌, ◌<◌, ◌==◌, ◌||◌, ◌∙◌, ◌∷◌, ◌≡◌, ◌≤◌, ◌⊎◌,
}
use ecen_602_network_program.Base.Select.{fd_put, fd_setsize}
use ecen_602_network_program.Chat.Message.{
  fitting, forward, get_hung_message, get_join_message, name_size, payload_size,
}
use ecen_602_network_program.Chat.Room.{
  Action, NameCheck, Room, Step, User, broadcast, check_name, duplicate, exits, find_user, fresh,
  full, goes, name_taken, remove_client, sends, undefined, waits,
}
use ecen_602_network_program.Chat.Room.Members.{
  Distinct, Distinct-append, Distinct-without, active, holds, holds-append, holds-find_user,
  holds-without, length-remove_client, take-remove_client, without,
}
use ecen_602_network_program.Chat.Room.Wellformed.{IsRoom}
use ecen_602_network_program.Chat.Join.{
  accept_connection, ack_message, add_client, admit, announce, connect, join_message_process, watch,
}
use ecen_602_network_program.Chat.Broadcast.{
  arrived, broadcast_message, chat_text, drop_client, failed, hang_up, hung_up, speak,
}
use ecen_602_network_program.Chat.Server.{Event, IsOpenable, connects, ready, serve}

-- What holds of the state if the server goes on.
abbrev pub Keeps : (Room → Type 0) → Step → Type 0
Keeps P (goes room actions) = P room
Keeps P (exits actions) = Unit
Keeps P waits = Unit
Keeps P undefined = Unit

length-active : (room : Room) → IsRoom room → length (active room) ≡ room.client_count
length-active room v =
    omega (arith, length-take {0} room.client_count room.clients, v.fits, v.space)

NameCheck-cases :
    (c : NameCheck) → (c ≡ NameCheck.full) ⊎ (c ≡ NameCheck.duplicate) ⊎ (c ≡ NameCheck.fresh)
NameCheck-cases full = inl refl
NameCheck-cases duplicate = inr (inl refl)
NameCheck-cases fresh = inr (inr refl)

module _ (room : Room) (fd : ℕ) (name : List ℕ) (v : IsRoom room) (new : room.set1 fd ≡ false)
    (ok : check_name name room ≡ NameCheck.fresh) where
  free_place : room.client_count < room.max_client
  unfolding check_name
  free_place = ground (arith, v.fits)

  free_name : name_taken name (active room) ≡ false
  unfolding check_name
  free_name = ground arith

  abbrev pub newcomer : User
  newcomer = record { user_name = name; socket_fd = fd; user_number = room.client_count }

  pub active-add_client : active (add_client room fd name) ≡ active room ++ newcomer ∷ []
  unfolding add_client
  active-add_client =
      rw add-one
        (take-set room.client_count room.clients newcomer (omega (arith, free_place, v.space)))

  free_socket : (fd == room.listening) || holds fd (active room) ≡ false
  free_socket = sym (v.watched fd) ∙ new

  watched-add :
      (other : ℕ)
      → fd_put fd true room.set1 other
        ≡ ((other == room.listening) || holds other (active (add_client room fd name)))
  unfolding fd_put
  watched-add other =
      rw (active-add_client, holds-append other (active room) newcomer)
        (ground (arith, v.watched other))

  below-add :
      (other : ℕ)
      → fd_put fd true room.set1 other ≡ true
      → other ≤ (if ltb room.max_fd fd then fd else room.max_fd)
  unfolding fd_put
  below-add other h = ground (arith, v.below other)

  -- A new client with a descriptor that was not open and a name that check_name allows.
  pub add_client-IsRoom : IsRoom (watch (add_client room fd name) fd)
  unfolding watch
  add_client-IsRoom = record {
    fits = unfold add_client in omega (arith, free_place);
    space = unfold add_client in (length-set room.clients room.client_count newcomer ∙ v.space);
    distinct =
        subst Distinct (sym active-add_client) (
          Distinct-append (active room) newcomer v.distinct (ground (arith, free_socket))
            free_name);
    watched = unfold add_client in watched-add;
    apart =
        unfold add_client in
        subst (λ us. holds room.listening us ≡ false) (sym active-add_client)
          (holds-append room.listening (active room) newcomer
            ∙ ground (arith, v.apart, free_socket));
    below = unfold add_client in below-add;
  }

holds-pos : (fd n : ℕ) (us : List User) → holds fd (take n us) ≡ true → n ≡ suc (n - 1)
holds-pos fd zero us h = cc
holds-pos fd (suc n) us h = omega arith

module _ (room : Room) (fd : ℕ) (v : IsRoom room) (h : holds fd (active room) ≡ true) where
  -- The client goes out of the list, and the others stay in their order.
  pub active-drop_client : active (drop_client room fd) ≡ without fd (active room)
  unfolding drop_client
  active-drop_client =
      let m : ℕ = room.client_count - 1 in
      let e : room.client_count ≡ suc m = holds-pos fd room.client_count room.clients h in
      subst (λ n. take m (remove_client room.clients fd n) ≡ without fd (take n room.clients))
        (sym e)
        (take-remove_client m room.clients fd (omega (arith, e, v.fits, v.space))
          (subst (λ n. holds fd (take n room.clients) ≡ true) e h))

  not_listening : (fd == room.listening) ≡ false
  not_listening = elim (Bool-cases (fd == room.listening)) [
    | inr other ↦ other
    | inl same ↦ absurd (
        false≢true (
          sym v.apart
          ∙ ap (λ t. holds t (active room)) (sym ((==_iff fd room.listening).0 same))
          ∙ h))
  ]

  watched-drop :
      (other : ℕ)
      → fd_put fd false room.set1 other
        ≡ ((other == room.listening) || holds other (active (drop_client room fd)))
  unfolding fd_put
  watched-drop other =
      rw (active-drop_client, holds-without fd other (active room) v.distinct)
        (ground (arith, not_listening, v.watched other))

  pub drop_client-IsRoom : IsRoom (drop_client room fd)
  drop_client-IsRoom = record {
    fits = unfold drop_client in omega (arith, v.fits);
    space =
        unfold drop_client in (length-remove_client room.clients fd room.client_count ∙ v.space);
    distinct =
        subst Distinct (sym active-drop_client) (Distinct-without fd (active room) v.distinct);
    watched = unfold drop_client in watched-drop;
    apart =
        unfold drop_client in
        subst (λ us. holds room.listening us ≡ false) (sym active-drop_client)
          (holds-without fd room.listening (active room) v.distinct ∙ ground (arith, v.apart));
    below = unfold drop_client in (λ other e. v.below other (unfold fd_put in ground (arith, e)));
  }

-- A property of the three rooms that an event can lead to.
abbrev pub Follows : (Room → Type 0) → Room → Event → Type 0
Follows P room (connects none payload heap) = Unit
Follows P room (connects (some fd) payload heap) =
    (name : List ℕ)
    → check_name name room ≡ NameCheck.fresh
    → P (watch (add_client room fd name) fd)
Follows P room (ready fd heap received) = holds fd (active room) ≡ true → P (drop_client room fd)

module _ (works : ℕ → Bool) (room : Room) (P : Room → Type 0) (stays : P room) where
  announce-Keeps :
      (room' : Room) (fd : ℕ) (heap name : List ℕ) (actions : List Action)
      → P (watch room' fd)
      → Keeps P (announce works room' fd heap name actions)
  unfolding announce
  announce-Keeps room' fd heap name actions h = elim (Bool-cases (ltb fd fd_setsize)) [
    | inr large ↦ rw (large, announce) tt
    | inl small ↦ elim (Option-cases (get_join_message heap name)) [
      | inl e ↦ rw (small, e, announce) tt
      | inr (m, e) ↦ elim (Bool-cases (broadcast works (watch room' fd) fd m).0) [
        | inl going ↦ rw (small, e, announce, going) h
        | inr stops ↦ rw (small, e, announce, stops) tt
      ]
    ]
  ]

  admit-Keeps :
      (fd : ℕ) (payload heap : List ℕ)
      → ((name : List ℕ)
          → check_name name room ≡ NameCheck.fresh
          → P (watch (add_client room fd name) fd))
      → Keeps P (admit works room fd payload heap)
  unfolding admit join_message_process
  admit-Keeps fd payload heap new = elim (Option-cases (fitting name_size payload)) [
    | inl e ↦ rw (e, admit, join_message_process) tt
    | inr (name, e) ↦ elim (NameCheck-cases (check_name name room)) [
      | inl too_many ↦ rw (e, admit, join_message_process, too_many) stays
      | inr (inl taken) ↦ rw (e, admit, join_message_process, taken) stays
      | inr (inr new_name) ↦ elim (Option-cases (ack_message (add_client room fd name))) [
        | inl none_left ↦ rw (e, admit, join_message_process, new_name, none_left) tt
        | inr (m, text) ↦
            rw (e, admit, join_message_process, new_name, text)
              (announce-Keeps (add_client room fd name) fd heap payload (sends fd m ∷ [])
                (new name new_name))
      ]
    ]
  ]

  connect-Keeps :
      (fd : ℕ) (payload : Option (List ℕ)) (heap : List ℕ)
      → ((name : List ℕ)
          → check_name name room ≡ NameCheck.fresh
          → P (watch (add_client room fd name) fd))
      → Keeps P (connect works room (some fd) payload heap)
  unfolding connect accept_connection
  connect-Keeps fd payload heap new = elim (Bool-cases (ltb room.client_count room.max_client)) [
    | inr crowded ↦ rw (crowded, connect, accept_connection) tt
    | inl place ↦ elim (Option-cases payload) [
      | inl e ↦ rw (place, e, connect, accept_connection) tt
      | inr (text, e) ↦ rw (place, e, connect, accept_connection) (admit-Keeps fd text heap new)
    ]
  ]

  hang_up-Keeps :
      (fd : ℕ) (heap : List ℕ) (found : Option User)
      → ((u : User) → found ≡ some u → P (drop_client room fd))
      → Keeps P (hang_up works room fd heap found)
  unfolding hang_up
  hang_up-Keeps fd heap none h = tt
  hang_up-Keeps fd heap (some u) h = elim (Option-cases (get_hung_message heap u.user_name)) [
    | inl e ↦ rw (e, hang_up) tt
    | inr (m, e) ↦ elim (Bool-cases (broadcast works room fd m).0) [
      | inl going ↦ rw (e, hang_up, going) (h u refl)
      | inr stops ↦ rw (e, hang_up, stops) tt
    ]
  ]

  speak-Keeps :
      (fd header_type : ℕ) (payload : List ℕ) (found : Option User)
      → Keeps P (speak works room fd header_type payload found)
  unfolding speak
  speak-Keeps fd header_type payload none = tt
  speak-Keeps fd header_type payload (some u) =
      elim (Option-cases (fitting payload_size (chat_text u.user_name header_type payload))) [
        | inl e ↦ rw (e, speak) tt
        | inr (text, e) ↦ elim (Bool-cases (broadcast works room fd (forward text)).0) [
          | inl going ↦ rw (e, speak, going) stays
          | inr stops ↦ rw (e, speak, stops) tt
        ]
      ]

  -- What holds of the room, and of the rooms that an event can lead to, holds after the event.
  pub serve-Follows : (e : Event) → Follows P room e → Keeps P (serve works room e)
  unfolding serve broadcast_message connect accept_connection
  serve-Follows (connects none payload heap) h = tt
  serve-Follows (connects (some fd) payload heap) h = connect-Keeps fd payload heap h
  serve-Follows (ready fd heap failed) h = tt
  serve-Follows (ready fd heap hung_up) h =
      hang_up-Keeps fd heap (find_user fd (active room))
        (λ u e. h (holds-find_user fd (active room) u e))
  serve-Follows (ready fd heap (arrived header_type payload)) h =
      speak-Keeps fd header_type payload _

IsRoom-Follows : (room : Room) (e : Event) → IsRoom room → IsOpenable room e → Follows IsRoom room e
IsRoom-Follows room (connects none payload heap) v o = tt
IsRoom-Follows room (connects (some fd) payload heap) v o =
    λ name fresh_name. add_client-IsRoom room fd name v o fresh_name
IsRoom-Follows room (ready fd heap received) v o = λ h. drop_client-IsRoom room fd v h

-- From a well-formed room, whatever a socket brings, and whichever sends fail: if the server goes
-- on, its room is well formed again, given that a descriptor from accept was not open before.
pub serve-Keeps :
    (works : ℕ → Bool) (room : Room) (v : IsRoom room) (e : Event)
    → IsOpenable room e
    → Keeps IsRoom (serve works room e)
serve-Keeps works room v e o = serve-Follows works room IsRoom v e (IsRoom-Follows room e v o)
