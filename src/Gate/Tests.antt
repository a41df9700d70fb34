-- ===== src/Gate/Tests.antt =====
-- The theorems about the gate and the delegations at concrete inputs.
use fylane.Common.{◌+◌, ◌≡◌, refl, ◌≢◌, ◌↔◌, true, false, List, [], ◌∷◌, none, some, ltb}
use fylane.Common.Text.{Text, codes, text_eq}
use fylane.Command.Line.{Request}
use fylane.Command.Check.{allow, allowed as check_allowed}
use fylane.Gate.Grants.{ok}
use fylane.Gate.Decide.{
  Gate, Answer, approval, allowed, open_rung, workspace, decide, grant, revoke,
}
use fylane.Gate.Safety.{decide-allowed_iff, RunsUnasked, grant-decide-revoke, run}
use fylane.Gate.Delegations
use fylane.Gate.Delegations.{Delegations, key, delegation_ttl}
use fylane.Gate.Standing.{grant-granted}

abbrev gate : Gate
gate = record { grants = some []; rung = workspace; persist = none; persisted = [] }

abbrev open_gate : Gate
open_gate = record gate { rung = open_rung }

abbrev root_words : List Text
root_words = codes "w" ∷ []

abbrev reads_passwd : Request
reads_passwd = record { argv = codes "cat" ∷ codes "/etc/x" ∷ []; root = codes "/w"; dir = [] }

abbrev ask : Answer
ask = record { need = approval; grant = false }

decide-allowed_iff_example :
    ((a : Answer) × (decide false gate (codes "ws") check_allowed ≡ ok a) × (a.need ≡ allowed))
    ↔ RunsUnasked gate (codes "ws") allow
decide-allowed_iff_example = decide-allowed_iff gate (codes "ws") check_allowed

grant-decide-revoke_example :
    (g' : Gate) × (g'' : Gate) × (grant false 7 gate (codes "ws") ≡ ok g')
    × (decide false g' (codes "ws") check_allowed ≡ ok run)
    × (revoke false g' (codes "ws") ≡ ok g'')
    × (decide false g'' (codes "ws") check_allowed ≡ ok (record { need = approval; grant = true }))
grant-decide-revoke_example =
    grant-decide-revoke 7 gate [] (codes "ws") check_allowed refl refl (λ e. cc) refl

grant-granted_example :
    let d = (Delegations.grant 5 (codes "ws") (codes "codex") []).0 in
    (Delegations.granted 9 (codes "ws") (codes "codex") d ≡ ltb 9 (5 + delegation_ttl))
    × (key (codes "ws") (codes "codex") ≢ key (codes "ws") (codes "opencode")
        → Delegations.granted 9 (codes "ws") (codes "opencode") d
          ≡ Delegations.granted 9 (codes "ws") (codes "opencode") [])
grant-granted_example =
    grant-granted 5 9 (codes "ws") (codes "codex") (codes "ws") (codes "opencode") [] (λ e. cc)
      (λ e. cc)

abbrev one_yes : Delegations
one_yes = (Delegations.grant 5 (codes "ws") (codes "codex") []).0
