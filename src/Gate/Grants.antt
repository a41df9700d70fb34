-- ===== src/Gate/Grants.antt =====
-- companion/internal/store/grants.go: the table of command grants. The key of the table is the
-- workspace; `broken` says that the database call itself fails, which the database decides.
use fylane.Common.{ℕ, Bool, List, [], Option, none, some, if◌then◌else◌, ◌||◌, ◌==◌, ltb, map}
use fylane.Common.Text.{Text, text_beq, text_eq}
use fylane.Common.Dict.{Dict, lookup, insert, delete}
use fylane.Common.Sort.{sort_by}

pub data Error : Type 0 where
  not_found required database no_storage confirmation_required unknown_rung persist_failed : Error

pub data Result {ℓ} (A : Type ℓ) : Type ℓ where
  ok : A → Result A
  err : Error → Result A

pub record CommandGrant : Type 0 where
  pub workspace_id : Text
  pub rung : Text
  pub granted_at : ℕ

abbrev pub Table : Type 0
Table = Dict Text CommandGrant

-- The time of the call stands in where the caller gives none, which here is 0.
unfoldable pub grant_commands : Bool → ℕ → Text → Text → ℕ → Table → Result Table
unfolding insert text_beq
grant_commands broken now workspace_id rung at t =
    if workspace_id == [] || rung == []
    then err required
    else if broken
    then err database
    else ok (
        insert workspace_id
          (record {
            workspace_id = workspace_id;
            rung = rung;
            granted_at = if ltb 0 at then at else now;
          })
          t)

abbrev found : Option CommandGrant → Result CommandGrant
found none = err not_found
found (some g) = ok g

unfoldable pub command_grant_for : Bool → Text → Table → Result CommandGrant
unfolding lookup
command_grant_for broken workspace_id t =
    if broken then err database else found (lookup workspace_id t)

unfoldable pub revoke_commands : Bool → Text → Table → Result Table
unfolding delete
revoke_commands broken workspace_id t = if broken then err database else ok (delete workspace_id t)

abbrev newer : CommandGrant → CommandGrant → Bool
newer a b = ltb b.granted_at a.granted_at

unfoldable pub list_command_grants : Bool → Table → Result (List CommandGrant)
unfolding sort_by
list_command_grants broken t =
    if broken then err database else ok (sort_by newer (map (λ (_, g). g) t))
