-- ===== src/Approval/Order.antt =====
-- companion/internal/approval/approval.go: the list of open prompts that the desktop shows.
use mathlib.Core.List.{Perm}
use fylane.Common.{Bool, List, map}
use fylane.Common.Sort.{
  sort_by, sort_by-perm, sort_by-IsSortedBy, by_key, by_key-IsOrder, IsSortedBy,
}
use fylane.Approval.State.{Service, Pending}

abbrev pub created_before : Pending → Pending → Bool
created_before = by_key (λ p. p.created_at)

-- sortPending
unfoldable pub sort_pending : List Pending → List Pending
unfolding sort_by
sort_pending ps = sort_by created_before ps

-- The prompts in the map, in whatever order it gives them.
abbrev pub open_prompts : Service → List Pending
open_prompts s = map (λ (_, p). s.cells p) s.pending

unfoldable pub pending_list : Service → List Pending
unfolding sort_pending
pending_list s = sort_pending (open_prompts s)

-- The list shows every open prompt, each once as in the map, and the oldest first.
pub pending_list_lem :
    (s : Service)
    → Perm (pending_list s) (open_prompts s) × IsSortedBy created_before (pending_list s)
unfolding pending_list
pending_list_lem s = (
  sort_by-perm created_before (open_prompts s),
  sort_by-IsSortedBy created_before (by_key-IsOrder (λ p. p.created_at)) (open_prompts s),
)
