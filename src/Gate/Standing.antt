-- ===== src/Gate/Standing.antt =====
-- How long a delegation stands.
use fylane.Common.{
  ℕ, ◌+◌, ◌≡◌, refl, ◌≢◌, Bool, true, false, [], if◌then◌else◌, ltb, ne→==, ==-refl, ◌==◌, ◌||◌,
  arith,
}
use fylane.Common.Text.{Text, text_eq}
use fylane.Common.Dict.{lookup-insert, lookup-delete}
use fylane.Gate.Delegations.{Delegations, key, key_eq, granted, grant, revoke, delegation_ttl}

-- One yes counts for exactly the time limit, in this workspace and for this agent; another pair
-- of names keeps what it had.
pub grant-granted :
    (now later : ℕ) (workspace_id agent other_id other_agent : Text) (d : Delegations)
    → workspace_id ≢ []
    → agent ≢ []
    → let d' = (grant now workspace_id agent d).0 in
      (granted later workspace_id agent d' ≡ ltb later (now + delegation_ttl))
      × (key workspace_id agent ≢ key other_id other_agent
          → granted later other_id other_agent d' ≡ granted later other_id other_agent d)
unfolding grant granted
grant-granted now later workspace_id agent other_id other_agent d n m = (
  rw (ne→== workspace_id [] n, ne→== agent [] m, lookup-insert, ==-refl (key workspace_id agent)),
  λ apart. rw (lookup-insert, ne→== (key workspace_id agent) (key other_id other_agent) apart),
)

if_same {ℓ} : {A : Type ℓ} (b : Bool) (a : A) → (if b then a else a) ≡ a
if_same true a = refl
if_same false a = refl

-- A revocation counts at once and for nobody else, and reports whether there was a yes.
pub revoke-granted :
    (now : ℕ) (workspace_id agent other_id other_agent : Text) (d : Delegations)
    → let (d', there) = revoke workspace_id agent d in
      (granted now workspace_id agent d' ≡ false)
      × (granted now workspace_id agent d ≡ true → there ≡ true)
      × (key workspace_id agent ≢ key other_id other_agent
          → granted now other_id other_agent d' ≡ granted now other_id other_agent d)
unfolding revoke granted
revoke-granted now workspace_id agent other_id other_agent d = (
  rw (lookup-delete, ==-refl (key workspace_id agent))
      (if_same (workspace_id == [] || agent == []) false),
  there_if_granted,
  λ apart. rw (lookup-delete, ne→== (key workspace_id agent) (key other_id other_agent) apart),
)
  where
    there_if_granted :
        granted now workspace_id agent d ≡ true → (revoke workspace_id agent d).1 ≡ true
    there_if_granted h = ground arith
