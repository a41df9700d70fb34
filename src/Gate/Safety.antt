-- ===== src/Gate/Safety.antt =====
-- What the gate allows, and what no rung and no grant can allow.
use fylane.Common.{
  ℕ, ◌≡◌, refl, ap, ◌≢◌, ◌↔◌, ◌⊎◌, inl, inr, Bool, true, false, List, [], Option, none, some, arith,
  if◌then◌else◌, ltb, ◌==◌, ne→==, ==→eq, ==→ne, ==-refl, Bool-cases, Option-cases,
}
use fylane.Common.Text.{Text, text_beq, text_eq, text_beq_iff}
use fylane.Common.Dict.{lookup, insert, delete, lookup-insert, lookup-delete}
use fylane.Command.Check.{Verdict, block, disclose, confirm, allow, Decision}
use fylane.Gate.Grants.{
  Result, ok, CommandGrant, Table, grant_commands, command_grant_for, revoke_commands,
}
use fylane.Gate.Decide.{
  Rung, strict, workspace, open_rung, rung_text, Gate, Answer, allowed, approval, decide, decide_at,
  by_grant, granted, grant, grant_in, revoke, revoke_in,
}

-- The workspace holds a grant that was taken at this rung.
abbrev pub HasGrant : Gate → Text → Rung → Type 0
HasGrant g workspace_id r =
    (t : Table) × (c : CommandGrant) × (g.grants ≡ some t)
    × (workspace_id ≢ [])
    × (lookup workspace_id t ≡ some c)
    × (c.rung ≡ rung_text r)

-- When a command runs with nobody asked.
abbrev pub RunsUnasked : Gate → Text → Verdict → Type 0
RunsUnasked g workspace_id v =
    ((g.rung ≡ open_rung) × ((v ≡ confirm) ⊎ (v ≡ allow)))
    ⊎ ((g.rung ≡ workspace) × (v ≡ allow) × HasGrant g workspace_id workspace)

granted→HasGrant :
    (g : Gate) (workspace_id : Text) (r : Rung) (o : Option Table)
    → g.grants ≡ o
    → granted false g workspace_id r o ≡ ok true
    → HasGrant g workspace_id r
unfolding granted
granted→HasGrant g workspace_id r none e h = cc
granted→HasGrant g workspace_id r (some t) e h = elim (Bool-cases (workspace_id == [])) [
  | inl w ↦ let n : ok false ≡ ok true = rw w at h in cc
  | inr w ↦ elim (Option-cases (lookup workspace_id t)) [
    | inl l ↦ let n : ok false ≡ ok true = rw (w, l) at h in cc
    | inr (c, l) ↦
        let m : ok (c.rung == rung_text r) ≡ ok true = rw (w, l) at h in
        let m' : (c.rung == rung_text r) ≡ true = cc in
        (t, c, e, ==→ne workspace_id w, l, ==→eq c.rung (rung_text r) m')
  ]
]

HasGrant→granted :
    (g : Gate) (workspace_id : Text) (r : Rung)
    → HasGrant g workspace_id r
    → granted false g workspace_id r g.grants ≡ ok true
unfolding granted
HasGrant→granted g workspace_id r (t, c, e, n, l, q) =
    rw (e, ne→== workspace_id [] n, l, q) (ap ok (==-refl (rung_text r)))

by_grant-allowed :
    (m : Result Bool) (a : Answer) → by_grant m ≡ ok a → a.need ≡ allowed → m ≡ ok true
by_grant-allowed m a e h = ground arith

decide→RunsUnasked :
    (g : Gate) (workspace_id : Text) (v : Verdict) (r : Rung) (a : Answer)
    → g.rung ≡ r
    → decide_at false g workspace_id v r ≡ ok a
    → a.need ≡ allowed
    → RunsUnasked g workspace_id v
unfolding decide_at
decide→RunsUnasked g workspace_id block r a q e h = absurd (ground arith)
decide→RunsUnasked g workspace_id disclose r a q e h = absurd (ground arith)
decide→RunsUnasked g workspace_id confirm open_rung a q e h = inl (q, inl refl)
decide→RunsUnasked g workspace_id allow open_rung a q e h = inl (q, inr refl)
decide→RunsUnasked g workspace_id confirm strict a q e h = absurd (ground arith)
decide→RunsUnasked g workspace_id confirm workspace a q e h = absurd (ground arith)
decide→RunsUnasked g workspace_id allow strict a q e h = absurd (ground arith)
decide→RunsUnasked g workspace_id allow workspace a q e h = inr (
  q,
  refl,
  granted→HasGrant g workspace_id workspace g.grants refl
      (by_grant-allowed (granted false g workspace_id workspace g.grants) a e h),
)

abbrev pub run : Answer
run = record { need = allowed; grant = false }

RunsUnasked→decide :
    (g : Gate) (workspace_id : Text) (v : Verdict)
    → RunsUnasked g workspace_id v
    → decide_at false g workspace_id v g.rung ≡ ok run
unfolding decide_at
RunsUnasked→decide g workspace_id v (inl (q, inl w)) = rw (q, w)
RunsUnasked→decide g workspace_id v (inl (q, inr w)) = rw (q, w)
RunsUnasked→decide g workspace_id v (inr (q, w, h)) =
    rw (q, w) (ap by_grant (HasGrant→granted g workspace_id workspace h))

-- While the database answers, a command runs unasked exactly when the rung is the open one and
-- the command is neither blocked nor a disclosure, or when the rung is the workspace one, no rule
-- objects, and the workspace holds a grant taken at that rung.
pub decide-allowed_iff :
    (g : Gate) (workspace_id : Text) (d : Decision)
    → ((a : Answer) × (decide false g workspace_id d ≡ ok a) × (a.need ≡ allowed))
      ↔ RunsUnasked g workspace_id d.verdict
unfolding decide
decide-allowed_iff g workspace_id d = (
  λ (a, e, h). decide→RunsUnasked g workspace_id d.verdict g.rung a refl e h,
  λ h. (run, RunsUnasked→decide g workspace_id d.verdict h, refl),
)

decide-run :
    (g : Gate) (workspace_id : Text) (d : Decision)
    → RunsUnasked g workspace_id d.verdict
    → decide false g workspace_id d ≡ ok run
unfolding decide
decide-run g workspace_id d h = RunsUnasked→decide g workspace_id d.verdict h

-- The grant that a yes at the workspace rung records.
abbrev recorded : ℕ → Text → CommandGrant
recorded now workspace_id = record {
  workspace_id = workspace_id;
  rung = rung_text workspace;
  granted_at = if ltb 0 now then now else now;
}

grant_lem :
    (now : ℕ) (g : Gate) (t : Table) (workspace_id : Text)
    → g.grants ≡ some t
    → g.rung ≡ workspace
    → workspace_id ≢ []
    → grant false now g workspace_id
      ≡ ok (record g { grants = some (insert workspace_id (recorded now workspace_id) t) })
unfolding grant grant_in grant_commands text_beq
grant_lem now g t workspace_id e q n = rw (e, q, ne→== workspace_id [] n)

lookup-insert_self : (k : Text) (c : CommandGrant) (t : Table) → lookup k (insert k c t) ≡ some c
lookup-insert_self k c t = ground (arith, lookup-insert k k c t, text_beq_iff k k)

lookup-delete_self : (k : Text) (t : Table) → lookup k (delete k t) ≡ none
lookup-delete_self k t = ground (arith, lookup-delete k k t, text_beq_iff k k)

revoke_lem :
    (g : Gate) (t : Table) (workspace_id : Text)
    → g.grants ≡ some t
    → revoke false g workspace_id ≡ ok (record g { grants = some (delete workspace_id t) })
unfolding revoke revoke_in revoke_commands
revoke_lem g t workspace_id e = rw e

decide_ungranted :
    (g : Gate) (t : Table) (workspace_id : Text) (d : Decision)
    → g.grants ≡ some t
    → g.rung ≡ workspace
    → workspace_id ≢ []
    → d.verdict ≡ allow
    → lookup workspace_id t ≡ none
    → decide false g workspace_id d ≡ ok (record { need = approval; grant = true })
unfolding decide decide_at granted command_grant_for
decide_ungranted g t workspace_id d e q n v l = rw (v, q, e, ne→== workspace_id [] n, l)

-- A grant works for the rung at which it was taken, and a revocation undoes it: after a grant at
-- the workspace rung a command to which no rule objects runs unasked, and after the grant is
-- revoked the gate asks the one-time question again.
pub grant-decide-revoke :
    (now : ℕ) (g : Gate) (t : Table) (workspace_id : Text) (d : Decision)
    → g.grants ≡ some t
    → g.rung ≡ workspace
    → workspace_id ≢ []
    → d.verdict ≡ allow
    → (g' : Gate) × (g'' : Gate) × (grant false now g workspace_id ≡ ok g')
      × (decide false g' workspace_id d ≡ ok run)
      × (revoke false g' workspace_id ≡ ok g'')
      × (decide false g'' workspace_id d ≡ ok (record { need = approval; grant = true }))
grant-decide-revoke now g t workspace_id d e q n v =
    let c = recorded now workspace_id in
    let granted_table = insert workspace_id c t in
    let g' : Gate = record g { grants = some granted_table } in
    (
      g',
      record g' { grants = some (delete workspace_id granted_table) },
      grant_lem now g t workspace_id e q n,
      (decide-run g' workspace_id d
          (inr (q, v, (granted_table, c, refl, n, lookup-insert_self workspace_id c t, refl)))),
      revoke_lem g' granted_table workspace_id refl,
      decide_ungranted (record g' { grants = some (delete workspace_id granted_table) })
          (delete workspace_id granted_table) workspace_id d refl q n v
          (lookup-delete_self workspace_id granted_table),
    )
