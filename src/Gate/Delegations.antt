-- ===== src/Gate/Delegations.antt =====
-- companion/internal/cmdgate/delegation.go: one yes to an agent in a workspace, for a while.
use fylane.Common.{
  ℕ, ◌+◌, ◌*◌, Bool, true, false, ◌&&◌, ◌||◌, not, List, [], Option, none, some, if◌then◌else◌, ltb,
  ◌==◌, HasEq, map, ◌↔◌, ◌≡◌, arith,
}
use fylane.Common.Text.{Text, text_beq, text_eq, text_beq_iff}
use fylane.Common.Dict.{Dict, lookup, insert, delete, delete_where}
use fylane.Common.Sort.{sort_by, by_key}

abbrev pub delegation_ttl : ℕ
delegation_ttl = 8 * 60 * 60 * 1000000000

pub record DelegationGrant : Type 0 where
  pub workspace_id : Text
  pub agent : Text
  pub granted_at : ℕ
  pub expires_at : ℕ

pub record Key : Type 0 where
  pub workspace : Text
  pub agent : Text

abbrev pub key_beq : Key → Key → Bool
key_beq a b = text_beq a.workspace b.workspace && text_beq a.agent b.agent

pub key_beq_iff : (a b : Key) → (key_beq a b ≡ true) ↔ (a ≡ b)
key_beq_iff a b = ground (arith, text_beq_iff a.workspace b.workspace, text_beq_iff a.agent b.agent)

instance abbrev pub key_eq : HasEq Key
key_eq = record { same = key_beq; same_iff = key_beq_iff }

abbrev pub Delegations : Type 0
Delegations = Dict Key DelegationGrant

abbrev pub key : Text → Text → Key
key workspace_id agent = record { workspace = workspace_id; agent = agent }

abbrev pub in_force : ℕ → Option DelegationGrant → Bool
in_force now none = false
in_force now (some g) = ltb now g.expires_at

unfoldable pub granted : ℕ → Text → Text → Delegations → Bool
granted now workspace_id agent d =
    if workspace_id == [] || agent == []
    then false
    else in_force now (lookup (key workspace_id agent) d)

unfoldable pub grant : ℕ → Text → Text → Delegations → Delegations × DelegationGrant
grant now workspace_id agent d =
    let g : DelegationGrant = record {
      workspace_id = workspace_id;
      agent = agent;
      granted_at = now;
      expires_at = now + delegation_ttl;
    } in
    (insert (key workspace_id agent) g d, g)

abbrev pub is_some {ℓ} : {A : Type ℓ} → Option A → Bool
is_some none = false
is_some (some a) = true

unfoldable pub revoke : Text → Text → Delegations → Delegations × Bool
revoke workspace_id agent d = let k = key workspace_id agent in (delete k d, is_some (lookup k d))

abbrev expired : ℕ → Key → DelegationGrant → Bool
expired now k g = not (ltb now g.expires_at)

-- The grants in force, by the time at which they end, and the map without the others.
unfoldable pub list : ℕ → Delegations → Delegations × List DelegationGrant
unfolding delete_where sort_by
list now d =
    let kept = delete_where (expired now) d in
    (kept, sort_by (by_key (λ g. g.expires_at)) (map (λ (_, g). g) kept))
