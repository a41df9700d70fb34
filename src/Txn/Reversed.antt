-- ===== src/Txn/Reversed.antt =====
-- When a rollback touches the disk, and what it then does.
use mathlib.Core.List.{reverse}
use fylane.Common.{
  ◌≡◌, refl, ◌⊎◌, inl, inr, Bool, true, false, ◌&&◌, not, List, [], ◌∷◌, ◌++◌, Option, none, some,
  if◌then◌else◌, if_cases, Bool-cases, Option-cases, ltb, ◌==◌, ==→eq, any, All, arith,
}
use fylane.Common.Text.{Text, codes, text_eq}
use fylane.Common.Dict.{lookup}
use fylane.Txn.{OpType, create, update, move, delete, other, Decision}
use fylane.Txn.Disk.{Nodes, Disk, exists}
use fylane.Txn.Ops.{Operation, Workspace, op_write, op_delete}
use fylane.Txn.Plan.{hash_file}
use fylane.Txn.Store.{
  ChangeSetStatus, set_pending, set_approved, set_applied, set_denied, set_failed, set_rolled_back,
  ChangeSet, Engine, Surroundings, or_empty,
}
use fylane.Txn.Claim.{release, put}
use fylane.Txn.Consent.{Yes, finish-disk}
use fylane.Txn.Inverse.{
  RollbackStep, read_only, already_executing, store_failed, Inverse, prepared, moved_on, impossible,
  at_path, invert, invert_written, invert_move, invert_delete, plan_rollback, apply_rollback, ◌>>=◌,
}
use fylane.Txn.Rollback.{
  RollbackReply, refused, rollback, rollback_claimed, rollback_found, rollback_by, rollback_ask,
  rollback_decided, reversed, rolled, rollback_request, planned_rollback, backup_of, audit_steps,
}

-- The hash is the one recorded under the path as it is spelled; where none is recorded, it is that
-- of a file that cannot be read.
abbrev pub IsRecorded : (Text → Option Text) → Text → Text → Type 0
IsRecorded recorded path h = (recorded path ≡ some h) ⊎ ((recorded path ≡ none) × (h ≡ []))

or_empty-IsRecorded :
    (recorded : Text → Option Text) (path h : Text)
    → h ≡ or_empty (recorded path)
    → IsRecorded recorded path h
or_empty-IsRecorded recorded path h e = elim (Option-cases (recorded path)) [
  | inl o ↦ inr (o, rw o at e)
  | inr (sum, o) ↦ let same : h ≡ sum = rw o at e in inl (rw same o)
]

module _ (hash : Text → Text) (ws : Workspace) (n : Nodes) (recorded : Text → Option Text) where
  -- The path is where the sandbox puts it, and the file there has the recorded hash.
  abbrev pub Written : Text → Type 0
  Written path =
      (abs : Text) × (at_path (ws.resolve path op_write) ≡ prepared abs)
      × IsRecorded recorded path (hash_file hash n abs)

  -- What is checked of the paths of an operation.
  abbrev pub AsApplied : OpType → Operation → Type 0
  AsApplied create op = Written op.path
  AsApplied update op = Written op.path
  AsApplied move op =
      (from_abs : Text) × (to_abs : Text) × (at_path (ws.resolve op.from op_write)
        ≡ prepared from_abs)
      × (at_path (ws.resolve op.to op_delete) ≡ prepared to_abs)
      × IsRecorded recorded op.to (hash_file hash n to_abs)
      × ((exists from_abs n ≡ false) ⊎ (from_abs ≡ to_abs))
  AsApplied delete op =
      (abs : Text) × (at_path (ws.resolve op.path op_write) ≡ prepared abs) × (exists abs n ≡ false)
  AsApplied (other t) op = Unit

-- What is prepared in two parts had its first part prepared.
first_prepared {ℓ κ} :
    {A : Type ℓ} {B : Type κ} {whole : B} (part : Inverse A) (next : A → Inverse B)
    → (part >>= next) ≡ prepared whole
    → (a : A) × (part ≡ prepared a) × (next a ≡ prepared whole)
first_prepared (impossible e) next chain = cc
first_prepared (moved_on c) next chain = cc
first_prepared (prepared a) next chain = (a, refl, chain)

not-false : (b : Bool) → not b ≡ false → b ≡ true
not-false b h = ground arith

module _ (hash : Text → Text) (diff_text : Text → Text → Text → Text) (ws : Workspace) (n : Nodes)
    (saved : Nodes) (recorded : Text → Option Text) where
  abbrev hashes : Text → Text
  hashes path = or_empty (recorded path)

  written_state :
      (t : OpType) (op : Operation) (abs : Text) {s : RollbackStep}
      → invert_written hash diff_text ws n saved hashes t op abs ≡ prepared s
      → hash_file hash n abs ≡ hashes op.path
  unfolding invert_written
  written_state t op abs e = elim (Bool-cases (not (hash_file hash n abs == hashes op.path))) [
    | inl h ↦ absurd (let f = rw h at e in cc)
    | inr h ↦ ==→eq (hash_file hash n abs) (hashes op.path) (not-false _ h)
  ]

  moved_state :
      (op : Operation) (from_abs to_abs : Text) {s : RollbackStep}
      → invert_move hash diff_text ws n saved hashes op from_abs to_abs ≡ prepared s
      → (hash_file hash n to_abs ≡ hashes op.to)
        × ((exists from_abs n ≡ false) ⊎ (from_abs ≡ to_abs))
  unfolding invert_move
  moved_state op from_abs to_abs e =
      let here = hash_file hash n to_abs == hashes op.to in
      let taken = exists from_abs n && not (exists to_abs n && (from_abs == to_abs)) in
      elim (Bool-cases (not here)) [
        | inl h ↦ absurd (let f = rw h at e in cc)
        | inr h ↦ elim (Bool-cases taken) [
          | inl k ↦ absurd (let f = rw (h, k) at e in cc)
          | inr k ↦ (
            ==→eq (hash_file hash n to_abs) (hashes op.to) (not-false here h),
            elim (Bool-cases (exists from_abs n)) [
              | inr free ↦ inl free
              | inl there ↦ inr (==→eq from_abs to_abs (ground arith))
            ],
          )
        ]
      ]

  deleted_state :
      (op : Operation) (abs : Text) {s : RollbackStep}
      → invert_delete hash diff_text ws n saved hashes op abs ≡ prepared s
      → exists abs n ≡ false
  unfolding invert_delete
  deleted_state op abs e = elim (Bool-cases (exists abs n)) [
    | inl h ↦ absurd (let f = rw h at e in cc)
    | inr h ↦ h
  ]

  invert-AsApplied :
      (t : OpType) (op : Operation) {s : List RollbackStep}
      → invert hash diff_text ws n saved hashes t op ≡ prepared s
      → AsApplied hash ws n recorded t op
  unfolding invert
  invert-AsApplied create op e =
      let (abs, a, f) = first_prepared (at_path (ws.resolve op.path op_write)) _ e in
      let (s, b, _) =
        first_prepared (invert_written hash diff_text ws n saved hashes create op abs) _ f in
      (abs, a, or_empty-IsRecorded recorded op.path _ (written_state create op abs b))
  invert-AsApplied update op e =
      let (abs, a, f) = first_prepared (at_path (ws.resolve op.path op_write)) _ e in
      let (s, b, _) =
        first_prepared (invert_written hash diff_text ws n saved hashes update op abs) _ f in
      (abs, a, or_empty-IsRecorded recorded op.path _ (written_state update op abs b))
  invert-AsApplied move op e =
      let (from_abs, a, f) = first_prepared (at_path (ws.resolve op.from op_write)) _ e in
      let (to_abs, b, g) = first_prepared (at_path (ws.resolve op.to op_delete)) _ f in
      let (s, c, _) =
        first_prepared (invert_move hash diff_text ws n saved hashes op from_abs to_abs) _ g in
      let (same, free) = moved_state op from_abs to_abs c in
      (from_abs, to_abs, a, b, or_empty-IsRecorded recorded op.to _ same, free)
  invert-AsApplied delete op e =
      let (abs, a, f) = first_prepared (at_path (ws.resolve op.path op_write)) _ e in
      let (s, b, _) = first_prepared (invert_delete hash diff_text ws n saved hashes op abs) _ f in
      (abs, a, deleted_state op abs b)
  invert-AsApplied (other t) op e = tt

  plan_rollback-AsApplied :
      (ops : List Operation) {steps : List RollbackStep}
      → plan_rollback hash diff_text ws n saved hashes ops ≡ prepared steps
      → All (λ op. AsApplied hash ws n recorded op.op_type op) ops
  unfolding plan_rollback
  plan_rollback-AsApplied [] e = tt
  plan_rollback-AsApplied (op ∷ ops) e =
      let (s, a, f) = first_prepared (invert hash diff_text ws n saved hashes op.op_type op) _ e in
      let (rest, b, _) = first_prepared (plan_rollback hash diff_text ws n saved hashes ops) _ f in
      (invert-AsApplied op.op_type op a, plan_rollback-AsApplied ops b)

audit_steps-disk :
    (rec : ChangeSet) (steps : List RollbackStep) (st : Engine)
    → (audit_steps rec steps st).disk ≡ st.disk
unfolding audit_steps
audit_steps-disk rec [] st = refl
audit_steps-disk rec (s ∷ steps) st = audit_steps-disk rec steps _

module _ (env : Surroundings) where
  -- A rollback that runs: the change set is an applied one of the workspace, within its time; every
  -- operation's paths passed the check of their state; the answer to the previews of all the
  -- steps was a yes; and the disk is what the steps make of what others left.
  pub record Ran (ws : Workspace) (id : Text) (st : Engine) (after : Disk) : Type 0 where
    pub rec : ChangeSet
    pub steps : List RollbackStep
    pub known : lookup id st.change_sets ≡ some rec
    pub own : rec.workspace_id ≡ ws.id
    pub status : rec.status ≡ set_applied
    pub in_time : ltb rec.rollback_deadline env.now ≡ false
    pub as_applied :
        All
          (λ op.
            AsApplied env.hash ws st.disk.nodes
              (λ path. lookup path rec.after_hashes)
              op.op_type
              op)
          (reverse rec.operations)
    pub planned : planned_rollback env ws rec st ≡ prepared steps
    pub approved : Yes (env.approve (rollback_request ws rec steps))
    pub result : after ≡ (apply_rollback (backup_of rec st) steps (env.meanwhile st.disk)).0

  abbrev pub RunsOnYes : Workspace → Text → Engine → Disk → Type 0
  RunsOnYes ws id st after =
      (after ≡ st.disk) ⊎ (after ≡ env.meanwhile st.disk) ⊎ Ran ws id st after

  reversed-disk :
      (rec : ChangeSet) (steps : List RollbackStep) (st : Engine) (r : Disk × Option Text)
      → (reversed env rec steps st r).0.disk ≡ r.0
  unfolding reversed rolled
  reversed-disk rec steps st (d, none) =
      let rec' : ChangeSet = record rec { status = set_rolled_back } in
      let st' : Engine = record st { disk = d } in
      elim (Bool-cases env.journal_fails) [
        | inl h ↦ rw h
        | inr h ↦ rw h (audit_steps-disk rec' steps (put rec' st'))
      ]
  reversed-disk rec steps st (d, some path) =
      finish-disk env.finish_fails rec set_failed _ (record st { disk = d })

  rollback_decided-disk :
      (rec : ChangeSet) (steps : List RollbackStep) (st : Engine) (o : Option Decision)
      → let after = (rollback_decided env rec steps st o).0.disk in
        (after ≡ st.disk) ⊎ (Yes o × (after ≡ (apply_rollback (backup_of rec st) steps st.disk).0))
  unfolding rollback_decided
  rollback_decided-disk rec steps st none = inl refl
  rollback_decided-disk rec steps st (some d) = elim (Bool-cases d.pending) [
    | inl p ↦ inl (rw p)
    | inr p ↦ elim (Bool-cases d.approved) [
      | inr a ↦ inl (rw (p, a))
      | inl a ↦ inr (
        (d, refl, p, a),
        rw (p, a) (reversed-disk rec steps st (apply_rollback (backup_of rec st) steps st.disk)),
      )
    ]
  ]

  rollback_ask-RunsOnYes :
      (ws : Workspace) (id : Text) (rec : ChangeSet) (st : Engine) (p : Inverse (List RollbackStep))
      → lookup id st.change_sets ≡ some rec
      → rec.workspace_id ≡ ws.id
      → rec.status ≡ set_applied
      → ltb rec.rollback_deadline env.now ≡ false
      → planned_rollback env ws rec st ≡ p
      → RunsOnYes ws id st (rollback_ask env ws rec st p).0.disk
  unfolding rollback_ask
  rollback_ask-RunsOnYes ws id rec st (impossible e) known own status time planned = inl refl
  rollback_ask-RunsOnYes ws id rec st (moved_on c) known own status time planned = inl refl
  rollback_ask-RunsOnYes ws id rec st (prepared steps) known own status time planned =
      elim (rollback_decided-disk rec steps (record st { disk = env.meanwhile st.disk })
        (env.approve (rollback_request ws rec steps))) [
          | inl same ↦ inr (inl same)
          | inr (y, ran) ↦ inr (
              inr (record {
                rec = rec;
                steps = steps;
                known = known;
                own = own;
                status = status;
                in_time = time;
                as_applied =
                    plan_rollback-AsApplied env.hash env.diff_text ws st.disk.nodes
                      (backup_of rec st) (λ path. lookup path rec.after_hashes)
                      (reverse rec.operations) planned;
                planned = planned;
                approved = y;
                result = ran;
              }))
        ]

  rollback_by-RunsOnYes :
      (s : ChangeSetStatus) (ws : Workspace) (id : Text) (rec : ChangeSet) (st : Engine)
      → rec.status ≡ s
      → lookup id st.change_sets ≡ some rec
      → rec.workspace_id ≡ ws.id
      → RunsOnYes ws id st (rollback_by env s ws rec st).0.disk
  unfolding rollback_by
  rollback_by-RunsOnYes set_applied ws id rec st status known own =
      elim (Bool-cases (ltb rec.rollback_deadline env.now)) [
        | inl h ↦ inl (rw h)
        | inr h ↦ rw h (
            rollback_ask-RunsOnYes ws id rec st (planned_rollback env ws rec st) known own status h
              refl)
      ]
  rollback_by-RunsOnYes set_rolled_back ws id rec st status known own = inl refl
  rollback_by-RunsOnYes set_pending ws id rec st status known own = inl refl
  rollback_by-RunsOnYes set_approved ws id rec st status known own = inl refl
  rollback_by-RunsOnYes set_denied ws id rec st status known own = inl refl
  rollback_by-RunsOnYes set_failed ws id rec st status known own = inl refl

  rollback_found-RunsOnYes :
      (ws : Workspace) (id : Text) (o : Option ChangeSet) (st : Engine)
      → lookup id st.change_sets ≡ o
      → RunsOnYes ws id st (rollback_found env ws o st).0.disk
  unfolding rollback_found
  rollback_found-RunsOnYes ws id none st known = inl refl
  rollback_found-RunsOnYes ws id (some rec) st known =
      elim (Bool-cases (rec.workspace_id == ws.id)) [
        | inr h ↦ inl (rw h)
        | inl h ↦ rw h (
            rollback_by-RunsOnYes rec.status ws id rec st refl known
              (==→eq rec.workspace_id ws.id h))
      ]

  -- Entering the table of calls that run changes nothing of this.
  unclaimed :
      (ws : Workspace) (id key : Text) (st : Engine) (after : Disk)
      → RunsOnYes ws id (record st { inflight = key ∷ st.inflight }) after
      → RunsOnYes ws id st after
  unclaimed ws id key st after (inl same) = inl same
  unclaimed ws id key st after (inr (inl others)) = inr (inl others)
  unclaimed ws id key st after (inr (inr r)) = inr (
      inr (record {
        rec = r.rec;
        steps = r.steps;
        known = r.known;
        own = r.own;
        status = r.status;
        in_time = r.in_time;
        as_applied = r.as_applied;
        planned = r.planned;
        approved = r.approved;
        result = r.result;
      }))

  claimed-RunsOnYes :
      (ws : Workspace) (id : Text) (st : Engine)
      → RunsOnYes ws id st (rollback_claimed env ws id st).0.disk
  unfolding rollback_claimed
  claimed-RunsOnYes ws id st =
      if_cases (λ (r : Engine × RollbackReply). RunsOnYes ws id st r.0.disk) env.get_fails
        (st, refused store_failed) (rollback_found env ws (lookup id st.change_sets) st)
        (λ _. inl refl) (λ _. rollback_found-RunsOnYes ws id (lookup id st.change_sets) st refl)

  -- A rollback leaves the disk as it was, or as others left it while the answer was awaited; or the
  -- change set is an applied one of the workspace within its time, the answer to the previews of all
  -- the steps was a yes, the disk is what those steps make of it, and when they were planned: each
  -- file that was written or moved had the hash that is recorded under its path as the operation
  -- spells it (where none is recorded under that spelling, no file could be read), the place that a
  -- file was moved from was free or the same path, and what was deleted was not there.
  pub rollback-RunsOnYes :
      (ws : Workspace) (id : Text) (st : Engine) → RunsOnYes ws id st (rollback env ws id st).0.disk
  unfolding rollback rollback_claimed release
  rollback-RunsOnYes ws id st =
      let key = codes "rollback:" ++ id in
      let claimed : Engine = record st { inflight = key ∷ st.inflight } in
      let (t, reply) = rollback_claimed env ws id claimed in
      let P = λ (r : Engine × RollbackReply). RunsOnYes ws id st r.0.disk in
      if_cases P (not ws.writable) (st, refused read_only)
        (if any (λ i. i == key) st.inflight
          then (st, refused already_executing)
          else (release key t, reply))
        (λ _. inl refl)
        (λ _.
          if_cases P (any (λ i. i == key) st.inflight) (st, refused already_executing)
            (release key t, reply) (λ _. inl refl)
            (λ _. unclaimed ws id key st t.disk (claimed-RunsOnYes ws id claimed)))
