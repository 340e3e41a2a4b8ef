-- ===== src/Examples/Shells.antt =====
-- await_shell_tool.go: a shell whose output is longer than the buffer.
use cursor_byok_lite.Prelude.{
  ℕ, zero, suc, ◌≤◌, ◌≡◌, refl, arith, ◌∷◌, [], ◌++◌, false, length, length-append,
}
use cursor_byok_lite.Prelude.Int.{pos, i64_max}
use cursor_byok_lite.Prelude.Text.{Text, codes}
use cursor_byok_lite.ShellTail.{append_bounded_shell_tail, shell_output_since, tail_of}
use cursor_byok_lite.ShellTail.Output.{append_bounded_shell_tail-tail_of, shell_output_since-append}

filling : ℕ → Text
filling zero = []
filling (suc n) = b'x' ∷ filling n

length-filling : (n : ℕ) → length (filling n) ≡ n
unfolding filling
length-filling zero = refl
length-filling (suc n) = omega (arith, length-filling n)

long : Text
long = filling 262150

fits : length (long ++ codes "done") ≤ i64_max
unfolding long
fits = omega (arith, length-append long (codes "done"), length-filling 262150)

append_bounded_shell_tail-tail_of_example :
    append_bounded_shell_tail (tail_of long).0 (tail_of long).1 (codes "done")
    ≡ tail_of (long ++ codes "done")
append_bounded_shell_tail-tail_of_example =
    append_bounded_shell_tail-tail_of long (codes "done") fits

shell_output_since-append_example :
    (let before = tail_of long in
      let offset = (shell_output_since before.0 before.1 (pos 0)).1 in
      let after = append_bounded_shell_tail before.0 before.1 (codes "done") in
      shell_output_since after.0 after.1 offset)
    ≡ (codes "done", pos (length (long ++ codes "done")), false)
shell_output_since-append_example = shell_output_since-append long (codes "done") (omega arith) fits
