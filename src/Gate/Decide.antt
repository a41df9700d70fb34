-- ===== src/Gate/Decide.antt =====
-- companion/internal/cmdgate/cmdgate.go: the rung and the decision about one command.
use fylane.Common.{ℕ, Bool, true, false, List, [], ◌∷◌, Option, none, some, if◌then◌else◌, ◌==◌}
use fylane.Common.Text.{Text, codes, text_beq, text_eq}
use fylane.Command.Check.{Verdict, block, disclose, confirm, allow, Decision}
use fylane.Gate.Grants.{
  Result, ok, err, not_found, no_storage, confirmation_required, unknown_rung, persist_failed,
  CommandGrant, Table, grant_commands, command_grant_for, revoke_commands, list_command_grants,
}

pub data Rung : Type 0 where
  strict workspace open_rung : Rung

abbrev pub rung_text : Rung → Text
rung_text strict = codes "strict"
rung_text workspace = codes "workspace"
rung_text open_rung = codes "open"

unfoldable pub parse_rung : Text → Option Rung
parse_rung t =
    if t == codes "strict"
    then some strict
    else if t == codes "workspace"
    then some workspace
    else if t == codes "open"
    then some open_rung
    else none

pub data Need : Type 0 where
  allowed approval refused : Need

-- The answer, without the two values that are only passed on: the rung and the rule's decision.
pub record Answer : Type 0 where
  pub need : Need
  pub grant : Bool

-- `grants` is none where no storage is configured; `persist` is none where no function is set, and
-- else says whether the function fails; `persisted` are the rungs it was given, newest first.
pub record Gate : Type 0 where
  pub grants : Option Table
  pub rung : Rung
  pub persist : Option Bool
  pub persisted : List Text

abbrev pub default_rung : Rung
default_rung = workspace

abbrev rung_or_default : Option Rung → Rung
rung_or_default none = default_rung
rung_or_default (some r) = r

unfoldable pub new : Option Table → Text → Option Bool → Gate
unfolding parse_rung text_beq
new grants rung persist = record {
  grants = grants;
  rung = rung_or_default (parse_rung rung);
  persist = persist;
  persisted = [];
}

persisted_as : Gate → Option Bool → Gate × Result (Unit {0})
persisted_as g none = (g, ok tt)
persisted_as g (some fails) = (
  record g { persisted = rung_text g.rung ∷ g.persisted },
  if fails then err persist_failed else ok tt,
)

take_rung : Gate → Rung → Gate × Result (Unit {0})
unfolding persisted_as
take_rung g r = persisted_as (record g { rung = r }) g.persist

set_parsed : Option Rung → Bool → Gate → Gate × Result (Unit {0})
unfolding take_rung
set_parsed none confirmed g = (g, err unknown_rung)
set_parsed (some open_rung) confirmed g =
    if confirmed then take_rung g open_rung else (g, err confirmation_required)
set_parsed (some r) confirmed g = take_rung g r

unfoldable pub set_rung : Text → Bool → Gate → Gate × Result (Unit {0})
unfolding set_parsed parse_rung text_beq
set_rung rung confirmed g = set_parsed (parse_rung rung) confirmed g

abbrev pub same_rung : Rung → Result CommandGrant → Result Bool
same_rung r (ok grant) = ok (grant.rung == rung_text r)
same_rung r (err not_found) = ok false
same_rung r (err e) = err e

-- granted: is there a grant for the workspace at this very rung?
unfoldable pub granted : Bool → Gate → Text → Rung → Option Table → Result Bool
unfolding command_grant_for
granted broken g workspace_id r none = ok false
granted broken g workspace_id r (some t) =
    if workspace_id == [] then ok false else same_rung r (command_grant_for broken workspace_id t)

abbrev pub by_grant : Result Bool → Result Answer
by_grant (err e) = err e
by_grant (ok true) = ok (record { need = allowed; grant = false })
by_grant (ok false) = ok (record { need = approval; grant = true })

abbrev pub plain : Need → Result Answer
plain n = ok (record { need = n; grant = false })

unfoldable pub decide_at : Bool → Gate → Text → Verdict → Rung → Result Answer
unfolding granted
decide_at broken g workspace_id block r = plain refused
decide_at broken g workspace_id disclose r = plain approval
decide_at broken g workspace_id v open_rung = plain allowed
decide_at broken g workspace_id confirm r = plain approval
decide_at broken g workspace_id allow strict = plain approval
decide_at broken g workspace_id allow workspace =
    by_grant (granted broken g workspace_id workspace g.grants)

unfoldable pub decide : Bool → Gate → Text → Decision → Result Answer
unfolding decide_at
decide broken g workspace_id d = decide_at broken g workspace_id d.verdict g.rung

abbrev pub with_table : Gate → Result Table → Result Gate
with_table g (ok t) = ok (record g { grants = some t })
with_table g (err e) = err e

unfoldable pub grant_in : Bool → ℕ → Gate → Text → Option Table → Result Gate
unfolding grant_commands
grant_in broken now g workspace_id none = err no_storage
grant_in broken now g workspace_id (some t) =
    with_table g (grant_commands broken now workspace_id (rung_text g.rung) now t)

unfoldable pub grant : Bool → ℕ → Gate → Text → Result Gate
unfolding grant_in
grant broken now g workspace_id = grant_in broken now g workspace_id g.grants

unfoldable pub revoke_in : Bool → Gate → Text → Option Table → Result Gate
unfolding revoke_commands
revoke_in broken g workspace_id none = err no_storage
revoke_in broken g workspace_id (some t) = with_table g (revoke_commands broken workspace_id t)

unfoldable pub revoke : Bool → Gate → Text → Result Gate
unfolding revoke_in
revoke broken g workspace_id = revoke_in broken g workspace_id g.grants

list_in : Bool → Option Table → Result (List CommandGrant)
unfolding list_command_grants
list_in broken none = ok []
list_in broken (some t) = list_command_grants broken t

unfoldable pub list : Bool → Gate → Result (List CommandGrant)
unfolding list_in
list broken g = list_in broken g.grants
