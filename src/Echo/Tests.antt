-- ===== src/Echo/Tests.antt =====
-- The theorems on the echo programs at concrete inputs, and runs of the programs.
use ecen_602_network_program.Base.{
  List, [], arith, false, none, refl, replicate, some, true, ℕ, ◌++◌, ◌∷◌, ◌≡◌,
}
use ecen_602_network_program.Base.Bytes.{codes}
use ecen_602_network_program.Echo.Io.{
  Read, Write, accepts, broken, ended, got, interrupted, unread, unwritten,
}
use ecen_602_network_program.Echo.Write.{writen}
use ecen_602_network_program.Echo.Write.Delivery.{Delivers, writen-Delivers}
use ecen_602_network_program.Echo.ReadLine.{i_read_line}
use ecen_602_network_program.Echo.ReadLine.Lines.{Reads, i_read_line-Reads}
use ecen_602_network_program.Echo.Server.{closed, quiet, read_write, running}
use ecen_602_network_program.Echo.Server.EchoAll.{read_write-broken, read_write-echoed}
use ecen_602_network_program.Echo.Accept.{Caller}

-- "hi\n" and then "yo" with no newline, with calls interrupted and bytes taken in small parts.
abbrev reads : List Read
reads = got 104 ∷ unread interrupted ∷ got 105 ∷ got 10 ∷ got 121 ∷ got 111 ∷ ended ∷ []

abbrev writes : List Write
writes =
    accepts 2
    ∷ unwritten interrupted
    ∷ accepts 0
    ∷ accepts 9
    ∷ accepts 1
    ∷ accepts 1
    ∷ accepts 4
    ∷ accepts 1
    ∷ []

abbrev text : List ℕ
text = codes "hi" ++ 10 ∷ codes "yo"

echo_runs : read_write 9 reads writes ≡ record { ending = closed; sent = text }
unfolding read_write i_read_line writen
echo_runs = refl

read_write-echoed_example : read_write 9 reads writes ≡ record { ending = closed; sent = text }
read_write-echoed_example =
    read_write-echoed 9 reads writes (omega arith) (omega arith) (omega arith) (omega arith)

read_write-broken_example :
    read_write 3 (unread broken ∷ unread broken ∷ unread broken ∷ []) writes ≡ quiet running
read_write-broken_example = read_write-broken 3 writes

i_read_line-Reads_example :
    Reads 0 (9 ∷ 9 ∷ 9 ∷ []) (codes "hi") reads (i_read_line (9 ∷ 9 ∷ 9 ∷ []) 3 reads)
i_read_line-Reads_example =
    i_read_line-Reads 3 (9 ∷ 9 ∷ 9 ∷ []) reads (omega arith) (omega arith) (omega arith)

writen-Delivers_example : Delivers 5 text 5 writes (writen text 5 writes)
writen-Delivers_example = writen-Delivers text 5 writes (omega arith) (omega arith)

-- The first caller is served; fork fails for the second; accept fails for the third.
abbrev callers : List Caller
callers =
    (record { accepted = some 4; forks = true; reads = reads; writes = writes })
    ∷ (record { accepted = some 4; forks = false; reads = []; writes = [] })
    ∷ (record { accepted = none; forks = true; reads = replicate 9 (unread broken); writes = [] })
    ∷ []
