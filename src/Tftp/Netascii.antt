-- ===== src/Tftp/Netascii.antt =====
-- create_temp_file of Programming_Assignment_3/src/helper.c: the copy of a file in netascii.
pub mod Decode
use ecen_602_network_program.Base.{List, Option, [], if◌then◌else◌, none, some, ℕ, ◌==◌, ◌∷◌}

abbrev pub lf : ℕ
lf = 10

abbrev pub cr : ℕ
cr = 13

-- fputc(nextChar) if there is one; `none` is the value -1.
abbrev pub emit : Option ℕ → List ℕ → List ℕ
emit none out = out
emit (some c) out = c ∷ out

-- The loop: `next_char` is what the round before has left to write, the list is what getc will
-- give before EOF, and the result is what goes to the temporary file.
pub convert_loop : Option ℕ → List ℕ → List ℕ
convert_loop next_char [] = emit next_char []
convert_loop next_char (ch ∷ rest) =
    let ch' = if ch == lf then cr else ch in
    let next = if ch == lf then some lf else if ch == cr then some 0 else none in
    emit next_char (ch' ∷ convert_loop next rest)

unfoldable pub create_temp_file : List ℕ → List ℕ
unfolding convert_loop
create_temp_file file = convert_loop none file
