-- ===== src/Tasks/Buffer.antt =====
-- companion/internal/tasks/buffer.go: one output stream of a task, read by cursor.
use fylane.Common.{ℕ, ◌+◌, ◌-◌, Bool, [], ◌++◌, if◌then◌else◌, ltb, length, take, drop}
use fylane.Common.Int.{ℤ, at_least_zero}
use fylane.Common.Text.{Text}

pub record Buffer : Type 0 where
  pub buf : Text
  pub limit : ℕ
  pub seen : ℕ

unfoldable pub new_buffer : ℕ → Buffer
new_buffer limit = record { buf = []; limit = limit; seen = 0 }

-- The buffer after a write, and the number of bytes that the write reports.
unfoldable pub write : Buffer → Text → Buffer × ℕ
write b p =
    let n = length p in
    let counted = record b { seen = b.seen + n } in
    let room = b.limit - length b.buf in
    (
      if ltb 0 room
          then record counted { buf = b.buf ++ (if ltb room n then take room p else p) }
          else counted,
      n,
    )

-- What stands after the cursor, the next cursor, and whether bytes were dropped.
unfoldable pub since : Buffer → ℤ → Text × ℕ × Bool
since b cursor =
    let from = at_least_zero cursor in
    let at = if ltb (length b.buf) from then length b.buf else from in
    (drop at b.buf, length b.buf, ltb b.limit b.seen)
