-- ===== src/ShellTail.antt =====
-- internal/backend/forwarder/await_shell_tool.go: the buffer that keeps the end of a shell's output.
-- It holds the last 256 KiB of a stream and counts the bytes that it has let go; a reader asks for
-- what came since an offset of the whole output. A buffer is a list of bytes with an `int64`.
pub mod Output
use cursor_byok_lite.Prelude.{
  ℕ, zero, suc, ◌+◌, ◌-◌, ◌*◌, ◌≡◌, refl, Bool, true, false, not, ◌&&◌, List, [], ◌∷◌, ◌++◌, Option,
  none, some, leb, ltb, ◌==◌, if◌then◌else◌, length, drop, take, is_nil, on_found,
}
use cursor_byok_lite.Prelude.Int.{ℤ, pos, negsuc, pos_part, ltb_ℤ, add64, sub64}
use cursor_byok_lite.Prelude.Text.{Text, codes, is_empty, trim_space}

abbrev pub shell_output_tail_limit : ℕ
shell_output_tail_limit = 256 * 1024

unfoldable pub append_bounded_shell_tail : Text → ℤ → Text → Text × ℤ
append_bounded_shell_tail current dropped_bytes value =
    let both = current ++ value in
    let excess = length both - shell_output_tail_limit in
    if length value == 0
    then (current, dropped_bytes)
    else if leb shell_output_tail_limit (length value)
    then (
      drop (length value - shell_output_tail_limit) value,
      add64 dropped_bytes (pos (length current + length value - shell_output_tail_limit)),
    )
    else if leb (length both) shell_output_tail_limit
    then (both, dropped_bytes)
    else (take shell_output_tail_limit (drop excess both), add64 dropped_bytes (pos excess))

-- the bytes since an offset, the end of the output, and whether bytes since the offset are gone
unfoldable pub shell_output_since : Text → ℤ → ℤ → Text × ℤ × Bool
shell_output_since current dropped_bytes offset =
    let dropped = if ltb_ℤ dropped_bytes (pos 0) then pos 0 else dropped_bytes in
    let end = add64 dropped (pos (length current)) in
    let from = if ltb_ℤ offset (pos 0) then pos 0 else offset in
    let kept = if ltb_ℤ from dropped then dropped else from in
    let start = if ltb_ℤ end kept then end else kept in
    (drop (pos_part (sub64 start dropped)) current, end, ltb_ℤ from dropped)

abbrev last_byte : Text → Option ℕ
last_byte [] = none
last_byte (c ∷ []) = some c
last_byte (c ∷ d ∷ s) = last_byte (d ∷ s)

-- a notice on a line of its own: behind output that does not end with a newline, one is added
unfoldable pub append_background_shell_buffer : Text → ℤ → Text → Text × ℤ
append_background_shell_buffer current dropped_bytes value =
    let trimmed = trim_space value in
    let broken = append_bounded_shell_tail current dropped_bytes (b'\n' ∷ []) in
    if is_empty trimmed
    then (current, dropped_bytes)
    else if on_found (last_byte current) false (λ c. not (c == b'\n'))
    then append_bounded_shell_tail broken.0 broken.1 trimmed
    else append_bounded_shell_tail current dropped_bytes trimmed

-- what a stream's whole output leaves in the buffer, written in one piece
abbrev pub tail_of : Text → Text × ℤ
tail_of output =
    let excess = length output - shell_output_tail_limit in (drop excess output, pos excess)

since_test : shell_output_since (codes "cdef") (pos 2) (pos 3) ≡ (codes "def", pos 6, false)
unfolding shell_output_since add64 sub64
since_test = refl

lost_test : shell_output_since (codes "cdef") (pos 2) (pos 1) ≡ (codes "cdef", pos 6, true)
unfolding shell_output_since add64 sub64
lost_test = refl
