-- ===== src/Chat/Room/Members.antt =====
-- The clients in use, as a list, and what remove_client and the searches of
-- Programming_Assignment_2/src/helper.c do to it.
use ecen_602_network_program.Base.{
  Bool, Bool-cases, List, [], ap, arith, false, if◌then◌else◌, inl, inr, length, refl, some, suc,
  take, true, zero, ℕ, ◌++◌, ◌==◌, ◌||◌, ◌∷◌, ◌≡◌, ◌≢◌, ◌≤◌,
}
use ecen_602_network_program.Base.Bytes.{same_string, same_string_ne}
use ecen_602_network_program.Chat.Room.{Room, User, find_user, name_taken, remove_client, shift}

abbrev pub active : Room → List User
active room = take room.client_count room.clients

abbrev pub holds : ℕ → List User → Bool
holds fd [] = false
holds fd (u ∷ us) = (u.socket_fd == fd) || holds fd us

-- No client of the list has the socket or the name of `u`.
abbrev pub Apart : User → List User → Type 0
Apart u [] = Unit
Apart u (v ∷ us) = (u.socket_fd ≢ v.socket_fd) × (u.user_name ≢ v.user_name) × Apart u us

abbrev pub Distinct : List User → Type 0
Distinct [] = Unit
Distinct (u ∷ us) = Apart u us × Distinct us

-- The list without the client of a socket, the others in their order.
abbrev pub without : ℕ → List User → List User
without fd [] = []
without fd (u ∷ us) = if u.socket_fd == fd then us else u ∷ without fd us

take-shift :
    (n : ℕ) (u : User) (us : List User) → n ≤ length us → take n (shift (u ∷ us) n) ≡ take n us
unfolding shift
take-shift zero u us h = refl
take-shift (suc n) u [] h = absurd (omega arith)
take-shift (suc n) u (v ∷ us) h = ap (◌∷◌ v) (take-shift n v us (omega arith))

-- Taking a client out of the array takes it out of the list, and moves no other past one another.
pub take-remove_client :
    (n : ℕ) (us : List User) (fd : ℕ)
    → suc n ≤ length us
    → holds fd (take (suc n) us) ≡ true
    → take n (remove_client us fd (suc n)) ≡ without fd (take (suc n) us)
unfolding remove_client
take-remove_client n [] fd h held = absurd (omega arith)
take-remove_client zero (u ∷ us) fd h held = elim (Bool-cases (u.socket_fd == fd)) [
  | inl found ↦ rw (found, remove_client) (take-shift 0 u us (omega arith))
  | inr other ↦ cc (rw other at held)
]
take-remove_client (suc n) (u ∷ us) fd h held = elim (Bool-cases (u.socket_fd == fd)) [
  | inl found ↦ rw (found, remove_client) (take-shift (suc n) u us (omega arith))
  | inr other ↦
      rw (other, remove_client)
        (ap (◌∷◌ u) (take-remove_client n us fd (omega arith) (rw other at held)))
]

length-shift : (us : List User) (n : ℕ) → length (shift us n) ≡ length us
unfolding shift
length-shift [] n = refl
length-shift (u ∷ []) n = refl
length-shift (u ∷ v ∷ us) zero = refl
length-shift (u ∷ v ∷ us) (suc n) = ap suc (length-shift (v ∷ us) n)

pub length-remove_client : (us : List User) (fd n : ℕ) → length (remove_client us fd n) ≡ length us
unfolding remove_client
length-remove_client [] fd n = refl
length-remove_client (u ∷ us) fd zero = refl
length-remove_client (u ∷ us) fd (suc n) =
    ground (arith, length-shift (u ∷ us) n, length-remove_client us fd n)

pub Apart-without : (u : User) (fd : ℕ) (us : List User) → Apart u us → Apart u (without fd us)
Apart-without u fd [] h = tt
Apart-without u fd (v ∷ us) h = elim (Bool-cases (v.socket_fd == fd)) [
  | inl found ↦ rw found h.2
  | inr other ↦ rw other (h.0, h.1, Apart-without u fd us h.2)
]

pub Distinct-without : (fd : ℕ) (us : List User) → Distinct us → Distinct (without fd us)
Distinct-without fd [] h = tt
Distinct-without fd (u ∷ us) h = elim (Bool-cases (u.socket_fd == fd)) [
  | inl found ↦ rw found h.1
  | inr other ↦ rw other (Apart-without u fd us h.0, Distinct-without fd us h.1)
]

Apart-holds : (u : User) (us : List User) → Apart u us → holds u.socket_fd us ≡ false
Apart-holds u [] h = refl
Apart-holds u (v ∷ us) h = ground (arith, h.0, Apart-holds u us h.2)

-- The socket that went is not there any more, and the others are.
pub holds-without :
    (fd other : ℕ) (us : List User)
    → Distinct us
    → holds other (without fd us) ≡ (if other == fd then false else holds other us)
holds-without fd other [] h = ground arith
holds-without fd other (u ∷ us) h =
    ground (arith, Apart-holds u us h.0, holds-without fd other us h.1)

pub holds-append :
    (fd : ℕ) (us : List User) (u : User)
    → holds fd (us ++ u ∷ []) ≡ ((u.socket_fd == fd) || holds fd us)
holds-append fd [] u = refl
holds-append fd (v ∷ us) u = ground (arith, holds-append fd us u)

Apart-append :
    (v : User) (us : List User) (u : User)
    → Apart v us
    → v.socket_fd ≢ u.socket_fd
    → v.user_name ≢ u.user_name
    → Apart v (us ++ u ∷ [])
Apart-append v [] u h s n = (s, n, tt)
Apart-append v (w ∷ us) u h s n = (h.0, h.1, Apart-append v us u h.2 s n)

-- A client with a new socket and a new name may be put at the end.
pub Distinct-append :
    (us : List User) (u : User)
    → Distinct us
    → holds u.socket_fd us ≡ false
    → name_taken u.user_name us ≡ false
    → Distinct (us ++ u ∷ [])
unfolding name_taken
Distinct-append [] u h s n = (tt, tt)
Distinct-append (v ∷ us) u h s n =
    let name : same_string u.user_name v.user_name ≡ false = ground arith in
    let names : name_taken u.user_name us ≡ false = ground arith in
    let sockets : holds u.socket_fd us ≡ false = ground arith in
    (
      Apart-append v us u h.0 (ground arith) (same_string_ne u.user_name v.user_name name),
      Distinct-append us u h.1 sockets names,
    )

-- The client that is found by a socket is one of those in use, and has the socket.
pub find_user-holds :
    (fd : ℕ) (us : List User) → holds fd us ≡ true → (u : User) × (find_user fd us ≡ some u)
unfolding find_user
find_user-holds fd [] h = cc
find_user-holds fd (u ∷ us) h = elim (Bool-cases (u.socket_fd == fd)) [
  | inl found ↦ (u, rw found refl)
  | inr other ↦ let (w, e) = find_user-holds fd us (rw other at h) in (w, rw other e)
]

pub holds-find_user :
    (fd : ℕ) (us : List User) (u : User) → find_user fd us ≡ some u → holds fd us ≡ true
unfolding find_user
holds-find_user fd [] u h = cc
holds-find_user fd (v ∷ us) u h = ground (arith, holds-find_user fd us u)
