-- ===== src/Base/Start/Sample.antt =====
-- A machine on which every call on a descriptor works, for tests.
use Prim.Native.Nat.{ℕ}
use mathlib.Core.Path.{refl}
use mathlib.Core.Bool.{Bool, true, false}
use mathlib.Core.Option.{Option, none, some}
use ecen_602_network_program.Base.Start.{Kernel, converted, ip4}
use ecen_602_network_program.Base.Start.Stages.{IsKernel}

abbrev is_open : Option ℕ → Bool
is_open none = false
is_open (some fd) = true

abbrev pub machine : Kernel
machine = record {
  sockets = λ f t. some 3;
  binds = λ fd a. is_open fd;
  listens = λ fd queue. is_open fd;
  connects = λ fd a. is_open fd;
  resolves = λ ip. some ip4;
  inet_addr = λ ip. 2130706433;
  inet_pton = λ f ip. converted 2130706433;
  atoi = λ text. 8080;
}

pub machine-IsKernel : IsKernel machine
machine-IsKernel = record { listens_nowhere = λ queue. refl; connects_nowhere = λ a. refl }
