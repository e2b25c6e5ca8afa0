-- ===== src/Base/Start/Rules.antt =====
-- What each call does to the socket of a program, and what follows it.
use Prim.Native.Nat.{ℕ}
use mathlib.Core.Path.{◌≡◌, refl}
use mathlib.Core.Logic.{inl, inr}
use mathlib.Core.Bool.{Bool, true, false}
use mathlib.Core.Option.{none, some}
use ecen_602_network_program.Base.Tests.{if◌then◌else◌, Bool-cases, Option-cases}
use ecen_602_network_program.Base.Start.{
  Address, Family, Kernel, Setup, Transport, call_bind, call_close, call_connect, call_listen,
  issue, open_socket, quit, require, stream, ◌>>=◌, ◌>>◌,
}
use ecen_602_network_program.Base.Start.Stages.{
  Ensures, IsKernel, Stage, binds, binds_not, closes, connects, connects_none, connects_not,
  listens, listens_none, listens_not, makes, makes_none, over, stage_bound, stage_connected,
  stage_listening, stage_made, stage_none, then_run,
}

module _ {B : Type 0} (k : Kernel) (Q : B → Stage → Type 0) (E : ℕ → Stage → Type 0) where
  pub open_socket-Ensures :
      (f : Family) (t : Transport) (status : ℕ) (next : ℕ → Setup B)
      → (k.sockets f t ≡ none → E status stage_none)
      → ((fd : ℕ) → k.sockets f t ≡ some fd → Ensures k (stage_made fd f t) Q E (next fd))
      → Ensures k stage_none Q E (open_socket k f t status >>= next)
  unfolding open_socket
  open_socket-Ensures f t status next down h = elim (Option-cases (k.sockets f t)) [
    | inl e ↦ rw (Ensures, open_socket, e) (stage_none, then_run (makes_none f t e) over, down e)
    | inr (fd, e) ↦
        let (u, run, q) = h fd e in
        rw (Ensures, open_socket, e) (u, then_run (makes f t fd e) run, q)
  ]

  pub bind-Ensures :
      (fd : ℕ) (a : Address) (t : Transport) (status : ℕ) (next : Unit {0} → Setup B)
      → (k.binds (some fd) a ≡ false → E status (stage_made fd a.family t))
      → (k.binds (some fd) a ≡ true → Ensures k (stage_bound fd a t) Q E (next tt))
      → Ensures k
          (stage_made fd a.family t)
          Q
          E
          (require (call_bind (some fd) a) (k.binds (some fd) a) status >>= next)
  bind-Ensures fd a t status next down later = elim (Bool-cases (k.binds (some fd) a)) [
    | inl e ↦
        let (u, run, q) = later e in
        rw (Ensures, e) (u, then_run (binds fd a.family t a refl e) run, q)
    | inr e ↦
        rw (Ensures, e)
          (stage_made fd a.family t, then_run (binds_not fd a.family t a refl e) over, down e)
  ]

  pub listen-Ensures :
      (fd : ℕ) (a : Address) (queue status : ℕ) (next : Unit {0} → Setup B)
      → (k.listens (some fd) queue ≡ false → E status (stage_bound fd a stream))
      → Ensures k (stage_listening fd a queue) Q E (next tt)
      → Ensures k
          (stage_bound fd a stream)
          Q
          E
          (require (call_listen (some fd) queue) (k.listens (some fd) queue) status >>= next)
  listen-Ensures fd a queue status next down (u, run, q) =
      elim (Bool-cases (k.listens (some fd) queue)) [
        | inl e ↦ rw (Ensures, e) (u, then_run (listens fd a stream queue refl e) run, q)
        | inr e ↦
            rw (Ensures, e)
              (
                stage_bound fd a stream,
                then_run (listens_not fd a stream queue refl e) over,
                down e,
              )
      ]

  -- listen (-1, ...)
  pub listen_nowhere-Ensures :
      (v : IsKernel k) (queue status : ℕ) (next : Unit {0} → Setup B)
      → E status stage_none
      → Ensures k stage_none Q E
          (require (call_listen none queue) (k.listens none queue) status >>= next)
  listen_nowhere-Ensures v queue status next down =
      rw (Ensures, v.listens_nowhere queue)
        (stage_none, then_run (listens_none queue (v.listens_nowhere queue)) over, down)

  -- connect, whose result the program may test.
  pub connect-Ensures :
      (fd : ℕ) (a : Address) (next : Bool → Setup B)
      → ((works : Bool)
          → k.connects (some fd) a ≡ works
          → Ensures k
              (if works then stage_connected fd a else stage_made fd a.family stream)
              Q
              E
              (next works))
      → Ensures k
          (stage_made fd a.family stream)
          Q
          E
          (issue (call_connect (some fd) a) (k.connects (some fd) a) >>= next)
  connect-Ensures fd a next h = elim (Bool-cases (k.connects (some fd) a)) [
    | inl e ↦
        let (u, run, q) = h true e in
        rw (Ensures, e) (u, then_run (connects fd a.family stream a refl refl e) run, q)
    | inr e ↦
        let (u, run, q) = h false e in
        rw (Ensures, e) (u, then_run (connects_not fd a.family stream a refl refl e) run, q)
  ]

  pub connect_nowhere-Ensures :
      (v : IsKernel k) (a : Address) (next : Bool → Setup B)
      → Ensures k stage_none Q E (next false)
      → Ensures k stage_none Q E (issue (call_connect none a) (k.connects none a) >>= next)
  connect_nowhere-Ensures v a next (u, run, q) =
      rw (Ensures, v.connects_nowhere a)
        (u, then_run (connects_none a (v.connects_nowhere a)) run, q)

  -- bind, where the program closes the socket if it fails.
  pub bind_or_close-Ensures :
      (fd : ℕ) (a : Address) (t : Transport) (status : ℕ) (later : Setup B)
      → (k.binds (some fd) a ≡ false → E status stage_none)
      → Ensures k (stage_bound fd a t) Q E later
      → Ensures k (stage_made fd a.family t) Q E (
          issue (call_bind (some fd) a) (k.binds (some fd) a) >>= (λ works.
            if works
            then later
            else (issue {A = Unit {0}} (call_close (some fd)) tt >> quit status)))
  bind_or_close-Ensures fd a t status later down (u, run, q) =
      elim (Bool-cases (k.binds (some fd) a)) [
        | inl e ↦ rw (Ensures, e) (u, then_run (binds fd a.family t a refl e) run, q)
        | inr e ↦
            rw (Ensures, e)
              (
                stage_none,
                then_run (binds_not fd a.family t a refl e) (then_run (closes fd a.family t) over),
                down e,
              )
      ]

  pub connect_required-Ensures :
      (fd : ℕ) (a : Address) (status : ℕ) (next : Unit {0} → Setup B)
      → (k.connects (some fd) a ≡ false → E status (stage_made fd a.family stream))
      → Ensures k (stage_connected fd a) Q E (next tt)
      → Ensures k
          (stage_made fd a.family stream)
          Q
          E
          (require (call_connect (some fd) a) (k.connects (some fd) a) status >>= next)
  connect_required-Ensures fd a status next down (u, run, q) =
      elim (Bool-cases (k.connects (some fd) a)) [
        | inl e ↦ rw (Ensures, e) (u, then_run (connects fd a.family stream a refl refl e) run, q)
        | inr e ↦
            rw (Ensures, e)
              (
                stage_made fd a.family stream,
                then_run (connects_not fd a.family stream a refl refl e) over,
                down e,
              )
      ]
