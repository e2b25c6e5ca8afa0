-- ===== src/Echo/Accept/Clients.antt =====
-- What every caller of the echo server gets, and what stays open in the parent.
use ecen_602_network_program.Base.{
  ==_iff, Bool, Bool-cases, List, Option, [], ap, arith, false, if◌then◌else◌, inl, inr, length,
  none, refl, replicate, some, sym, true, ℕ, ◌<◌, ◌==◌, ◌∙◌, ◌∷◌, ◌≡◌, ◌≢◌, ◌≤◌,
}
use ecen_602_network_program.Base.Select.{FdSet, fd_put}
use ecen_602_network_program.Echo.Io.{Ends, Healthy, broken, payload, progress, unread}
use ecen_602_network_program.Echo.Server.{quiet, read_write, running}
use ecen_602_network_program.Echo.Server.EchoAll.{echoed, read_write-broken, read_write-echoed}
use ecen_602_network_program.Echo.Accept.{Caller, Child, accept_loop, put_accepted, run_child}

-- The callers for which fork works.
abbrev pub with_child : List Caller → List Caller
with_child [] = []
with_child (c ∷ cs) = if c.forks then c ∷ with_child cs else with_child cs

-- The caller closes its connection, no call fails for good, and there are writes and rounds enough.
pub record IsGood (rounds : ℕ) (c : Caller) : Type 0 where
  pub ends : Ends c.reads
  pub healthy : Healthy c.writes
  pub writable : length (payload c.reads) ≤ progress c.writes
  pub enough : length c.reads < rounds

-- The child of a caller, where `fds` are the descriptors of the parent in front of the loop: it has
-- these open, the connection too, and the listening socket not; the caller gets back what it has
-- sent; and without a connection, when every read fails, the child never ends.
pub record IsChild (rounds listening : ℕ) (fds : FdSet) (c : Caller) (k : Child) : Type 0 where
  pub closed_listening : k.fds listening ≡ false
  pub opened : (fd : ℕ) → c.accepted ≡ some fd → fd ≢ listening → k.fds fd ≡ true
  pub others : (fd : ℕ) → c.accepted ≢ some fd → fd ≢ listening → k.fds fd ≡ fds fd
  pub served : IsGood rounds c → k.echo ≡ echoed (payload c.reads)
  pub endless : c.reads ≡ replicate rounds (unread broken) → k.echo ≡ quiet running

abbrev pub Pairs : ℕ → ℕ → FdSet → List Caller → List Child → Type 0
Pairs rounds listening fds [] [] = Unit
Pairs rounds listening fds (c ∷ cs) (k ∷ ks) =
    IsChild rounds listening fds c k × Pairs rounds listening fds cs ks
Pairs rounds listening fds _ _ = ⊥

-- A descriptor from accept is not open in the parent.
abbrev pub AllNew : FdSet → List Caller → Type 0
AllNew fds [] = Unit
AllNew fds (c ∷ cs) = ((fd : ℕ) → c.accepted ≡ some fd → fds fd ≡ false) × AllNew fds cs

put_accepted-put :
    (accepted : Option ℕ) (fds : FdSet)
    → ((fd : ℕ) → accepted ≡ some fd → fds fd ≡ false)
    → (fd : ℕ) → put_accepted accepted false (put_accepted accepted true fds) fd ≡ fds fd
unfolding put_accepted fd_put
put_accepted-put none fds h fd = refl
put_accepted-put (some new) fds h fd = let e = h new refl in ground (arith, e)

put_accepted-some :
    (accepted : Option ℕ) (fds : FdSet) (fd : ℕ)
    → accepted ≡ some fd
    → put_accepted accepted true fds fd ≡ true
unfolding put_accepted fd_put
put_accepted-some none fds fd e = cc
put_accepted-some (some new) fds fd e = let same : new ≡ fd = cc in ground (arith, same)

put_accepted-other :
    (accepted : Option ℕ) (fds : FdSet) (fd : ℕ)
    → accepted ≢ some fd
    → put_accepted accepted true fds fd ≡ fds fd
unfolding put_accepted fd_put
put_accepted-other none fds fd d = refl
put_accepted-other (some new) fds fd d = elim (Bool-cases (fd == new)) [
  | inl same ↦ absurd (d (ap some (sym ((==_iff fd new).0 same))))
  | inr other ↦ rw other refl
]

module _ (rounds listening : ℕ) (fds : FdSet) where
  run_child-IsChild :
      (now : FdSet) (c : Caller)
      → ((fd : ℕ) → now fd ≡ fds fd)
      → IsChild rounds listening fds c
          (run_child rounds listening (put_accepted c.accepted true now) c)
  unfolding run_child fd_put
  run_child-IsChild now c same = record {
    closed_listening = ground arith;
    opened = λ fd e d. let h = put_accepted-some c.accepted now fd e in ground (arith, h, d);
    others =
        λ fd e d. let h = put_accepted-other c.accepted now fd e ∙ same fd in ground (arith, h, d);
    served = λ g. read_write-echoed rounds c.reads c.writes g.ends g.healthy g.writable g.enough;
    endless = λ e. ap (λ rs. read_write rounds rs c.writes) e ∙ read_write-broken rounds c.writes;
  }

  choose-Pairs :
      (b : Bool) (c : Caller) (cs : List Caller) (k : Child) (ks : List Child)
      → IsChild rounds listening fds c k
      → Pairs rounds listening fds cs ks
      → Pairs rounds listening fds (if b then c ∷ cs else cs) (if b then k ∷ ks else ks)
  choose-Pairs true c cs k ks v pairs = (v, pairs)
  choose-Pairs false c cs k ks v pairs = pairs

  accept_loop-Pairs_from :
      (cs : List Caller) (now : FdSet)
      → ((fd : ℕ) → now fd ≡ fds fd)
      → AllNew fds cs
      → ((fd : ℕ) → (accept_loop rounds listening now cs).0 fd ≡ fds fd)
        × Pairs rounds listening fds (with_child cs) (accept_loop rounds listening now cs).1
  unfolding accept_loop
  accept_loop-Pairs_from [] now same new = (same, tt)
  accept_loop-Pairs_from (c ∷ cs) now same new =
      let (kept, pairs) =
        accept_loop-Pairs_from cs (put_accepted c.accepted false (put_accepted c.accepted true now))
          (λ fd. put_accepted-put c.accepted now (λ fd e. same fd ∙ new.0 fd e) fd ∙ same fd)
          new.1 in
      (kept, choose-Pairs c.forks c (with_child cs) _ _ (run_child-IsChild now c same) pairs)

-- For any callers, where accept gives descriptors that the parent does not have open in front of the
-- loop: every caller for which fork works has a child of its own, in order, and nobody else has. The
-- child has the listening socket closed, its own connection open, and of the other descriptors those
-- that the parent had in front of the loop. It sends back all that its caller sends, if the caller
-- closes the connection, no call fails for good, and there are writes and rounds enough, whatever
-- the other callers do; if all its reads fail, it is still in its loop when its rounds are over. And
-- the parent has open what it had, so no connection is left over.
pub accept_loop-Pairs :
    (rounds listening : ℕ) (fds : FdSet) (cs : List Caller)
    → AllNew fds cs
    → ((fd : ℕ) → (accept_loop rounds listening fds cs).0 fd ≡ fds fd)
      × Pairs rounds listening fds (with_child cs) (accept_loop rounds listening fds cs).1
accept_loop-Pairs rounds listening fds cs new =
    accept_loop-Pairs_from rounds listening fds cs fds (λ fd. refl) new
