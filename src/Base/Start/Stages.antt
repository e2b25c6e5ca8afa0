-- ===== src/Base/Start/Stages.antt =====
-- The life of one socket, against which the calls of a program are checked, and rules for programs
-- put together of parts.
use Prim.Native.Nat.{ℕ}
use mathlib.Core.Path.{◌≡◌}
use mathlib.Core.Logic.{◌≢◌, ◌⊎◌}
use mathlib.Core.Bool.{true, false}
use mathlib.Core.Option.{none, some}
use native.Mathlib.Omega.{arith}
use mathlib.Core.List.{List, [], ◌∷◌, ◌++◌}
use ecen_602_network_program.Base.Start.{
  Address, Call, Family, Kernel, Result, Setup, Transport, call_bind, call_close, call_connect,
  call_listen, call_socket, crashes, exits_with, stream, yields, ◌>>=◌,
}

-- There is no socket; there is one, as socket made it; it has an address; it takes connections; it
-- has one.
pub data Stage : Type 0 where
  stage_none : Stage
  stage_made : ℕ → Family → Transport → Stage
  stage_bound : ℕ → Address → Transport → Stage
  stage_listening : ℕ → Address → ℕ → Stage
  stage_connected : ℕ → Address → Stage

-- The calls that are in order, and what they lead to. A call on -1 is allowed and fails.
pub data Moves (k : Kernel) : Stage → Call → Stage → Type 0 where
  makes :
      (f : Family) (t : Transport) (fd : ℕ)
      → k.sockets f t ≡ some fd
      → Moves k stage_none (call_socket f t) (stage_made fd f t)
  makes_none :
      (f : Family) (t : Transport)
      → k.sockets f t ≡ none
      → Moves k stage_none (call_socket f t) stage_none
  binds :
      (fd : ℕ) (f : Family) (t : Transport) (a : Address)
      → a.family ≡ f
      → k.binds (some fd) a ≡ true
      → Moves k (stage_made fd f t) (call_bind (some fd) a) (stage_bound fd a t)
  binds_not :
      (fd : ℕ) (f : Family) (t : Transport) (a : Address)
      → a.family ≡ f
      → k.binds (some fd) a ≡ false
      → Moves k (stage_made fd f t) (call_bind (some fd) a) (stage_made fd f t)
  listens :
      (fd : ℕ) (a : Address) (t : Transport) (queue : ℕ)
      → t ≡ stream
      → k.listens (some fd) queue ≡ true
      → Moves k (stage_bound fd a t) (call_listen (some fd) queue) (stage_listening fd a queue)
  listens_not :
      (fd : ℕ) (a : Address) (t : Transport) (queue : ℕ)
      → t ≡ stream
      → k.listens (some fd) queue ≡ false
      → Moves k (stage_bound fd a t) (call_listen (some fd) queue) (stage_bound fd a t)
  listens_none :
      (queue : ℕ)
      → k.listens none queue ≡ false
      → Moves k stage_none (call_listen none queue) stage_none
  connects :
      (fd : ℕ) (f : Family) (t : Transport) (a : Address)
      → a.family ≡ f
      → t ≡ stream
      → k.connects (some fd) a ≡ true
      → Moves k (stage_made fd f t) (call_connect (some fd) a) (stage_connected fd a)
  connects_not :
      (fd : ℕ) (f : Family) (t : Transport) (a : Address)
      → a.family ≡ f
      → t ≡ stream
      → k.connects (some fd) a ≡ false
      → Moves k (stage_made fd f t) (call_connect (some fd) a) (stage_made fd f t)
  connects_none :
      (a : Address)
      → k.connects none a ≡ false
      → Moves k stage_none (call_connect none a) stage_none
  closes :
      (fd : ℕ) (f : Family) (t : Transport)
      → Moves k (stage_made fd f t) (call_close (some fd)) stage_none

pub data Run (k : Kernel) : Stage → List Call → Stage → Type 0 where
  over : {s : Stage} → Run k s [] s
  then_run :
      {s t u : Stage} {c : Call} {cs : List Call}
      → Moves k s c t
      → Run k t cs u
      → Run k s (c ∷ cs) u

Run-append :
    {k : Kernel} {s t u : Stage} {cs ds : List Call}
    → Run k s cs t
    → Run k t ds u
    → Run k s (cs ++ ds) u
Run-append over r = r
Run-append (then_run m q) r = then_run m (Run-append q r)

-- A call on -1 fails.
pub record IsKernel (k : Kernel) : Type 0 where
  pub listens_nowhere : (queue : ℕ) → k.listens none queue ≡ false
  pub connects_nowhere : (a : Address) → k.connects none a ≡ false

-- How a part of a program ends: with a value and in a stage with `Q`, or with a status and in a stage
-- with `E`; and not with a crash.
abbrev pub EndsIn :
    {A : Type 0} → (A → Stage → Type 0) → (ℕ → Stage → Type 0) → Result A → Stage → Type 0
EndsIn Q E (yields a) s = Q a s
EndsIn Q E (exits_with status) s = E status s
EndsIn Q E crashes s = ⊥

-- From a stage, its calls are in order, and it ends so.
abbrev pub Ensures :
    {A : Type 0} → Kernel → Stage → (A → Stage → Type 0) → (ℕ → Stage → Type 0) → Setup A → Type 0
Ensures k s Q E m = (t : Stage) × Run k s m.0 t × EndsIn Q E m.1 t

module _ {A B : Type 0} (k : Kernel) (P : A → Stage → Type 0) (Q : B → Stage → Type 0)
    (E : ℕ → Stage → Type 0) where
  and_then-Ensures :
      (s t : Stage) (calls : List Call) (r : Result A) (next : A → Setup B)
      → Run k s calls t
      → EndsIn P E r t
      → ((a : A) (u : Stage) → P a u → Ensures k u Q E (next a))
      → Ensures k s Q E ((calls, r) >>= next)
  and_then-Ensures s t calls (yields a) next run e h =
      let (u, later, f) = h a t e in (u, Run-append run later, f)
  and_then-Ensures s t calls (exits_with status) next run e h = (t, run, e)
  and_then-Ensures s t calls crashes next run e h = absurd e

  -- A part, and what follows it.
  pub >>=-Ensures :
      (s : Stage) (m : Setup A) (next : A → Setup B)
      → Ensures k s P E m
      → ((a : A) (u : Stage) → P a u → Ensures k u Q E (next a))
      → Ensures k s Q E (m >>= next)
  >>=-Ensures s (calls, r) next (t, run, e) h = and_then-Ensures s t calls r next run e h

-- A server for an address does not listen: socket has failed, or it has a socket and bind has
-- failed, or that has an address and listen has failed.
abbrev pub NotServing : Kernel → Address → ℕ → Stage → Type 0
NotServing k a queue s =
    ((s ≡ stage_none) × (k.sockets a.family stream ≡ none))
    ⊎ ((fd : ℕ) × (k.sockets a.family stream ≡ some fd)
        × (((s ≡ stage_made fd a.family stream) × (k.binds (some fd) a ≡ false))
            ⊎ ((s ≡ stage_bound fd a stream)
                × (k.binds (some fd) a ≡ true)
                × (k.listens (some fd) queue ≡ false))))

-- A client of an address has no connection: socket has failed, or it has a socket and connect has
-- failed.
abbrev pub NotConnected : Kernel → Address → Stage → Type 0
NotConnected k a s =
    ((s ≡ stage_none) × (k.sockets a.family stream ≡ none))
    ⊎ ((fd : ℕ) × (k.sockets a.family stream ≡ some fd)
        × (s ≡ stage_made fd a.family stream)
        × (k.connects (some fd) a ≡ false))

pub ne_255 : ◌≢◌ {A = ℕ} 255 0
ne_255 e = omega (arith, e)
