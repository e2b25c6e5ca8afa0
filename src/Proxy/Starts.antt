-- ===== src/Proxy/Starts.antt =====
-- The programs of Programming_Assignment_4 at concrete arguments.
use ecen_602_network_program.Base.{List, Option, arith, refl, some, ℕ}
use ecen_602_network_program.Base.Bytes.{codes}
use ecen_602_network_program.Proxy.Client.Asking.{IsUrl}

abbrev inet_aton : List ℕ → Option ℕ
inet_aton text = some 2130706433

-- The url a.org/d/x.
pub a-IsUrl : IsUrl (codes "a.org") (codes "d/x")
a-IsUrl = record {
  host_part = (refl, (refl, (refl, (refl, (refl, tt)))));
  host_word = (refl, (refl, (refl, (refl, (refl, tt)))));
  path_word = (refl, (refl, (refl, tt)));
  some_host = λ e. cc;
  some_path = λ e. cc;
  size = omega arith;
}
