-- ===== src/Sandbox/Workspaces.antt =====
-- companion/internal/workspace/workspace.go: the workspace of the write pipeline over the sandbox.
use fylane.Common.{
  ◌≡◌, refl, sym, ap, ◌∙◌, ◌≢◌, true, false, Option, none, some, List, [], ◌∷◌, ◌++◌, All,
  All-append, any, drop, length, drop_append,
}
use fylane.Common.Text.{Text, split_on}
use fylane.Common.Paths.{slash, join_words}
use fylane.Common.Paths.Join.{join_words-plain}
use fylane.Common.Paths.Walk.{IsPlain, rooted_path}
use fylane.Sandbox.Names.{Alphabets}
use fylane.Sandbox.Clean.{Checked, accepted, refused}
use fylane.Sandbox.Resolve.{Op, op_write, op_delete, Files, is_git, writes, resolve}
use fylane.Sandbox.Inside.{IsResolved, Walked, resolve-IsResolved, split_on-rooted_path, words_some}
use fylane.Txn.{move}
use fylane.Txn.Disk.{Nodes}
use fylane.Txn.Ops
use fylane.Txn.Ops.{Access, Workspace, Operation, PlannedOp, ready}
use fylane.Txn.Plan.{plan}
use fylane.Txn.Loaded.{Located, Grounded}
use fylane.Txn.Grounded.{plan_ops-Grounded}
use fylane.Txn.Claims.{Lawful}

abbrev op_of : Access → Op
op_of Ops.op_write = op_write
op_of Ops.op_delete = op_delete

abbrev taken : Checked (Text × Text) → Option (Text × Text)
taken (accepted o) = some o
taken (refused e) = none

-- The workspace with the root `root` that answers by the sandbox.
unfoldable pub sandboxed : Alphabets → Files → Text → Workspace → Workspace
unfolding resolve
sandboxed a fs root ws = record ws { resolve = λ rel x. taken (resolve a fs root rel (op_of x)) }

taken-some :
    (o : Checked (Text × Text)) (abs c : Text) → taken o ≡ some (abs, c) → o ≡ accepted (abs, c)
taken-some (accepted (x, y)) abs c e = cc
taken-some (refused e') abs c e = absurd (let bad = e in cc)

module _ (a : Alphabets) (fs : Files) (rs : List Text) (n : rs ≢ []) (plain : All IsPlain rs)
    (ws : Workspace) where
  at-IsResolved :
      (p : Text) (x : Access) (abs c : Text)
      → (sandboxed a fs (rooted_path rs) ws).resolve p x ≡ some (abs, c)
      → IsResolved a fs rs p (op_of x) abs c
  unfolding sandboxed
  at-IsResolved p x abs c e =
      resolve-IsResolved a fs rs p abs c (op_of x) n plain
        (taken-some (resolve a fs (rooted_path rs) p (op_of x)) abs c e)

  -- The words behind the root are the path's.
  behind :
      (vs : List Text)
      → vs ≢ []
      → All IsPlain vs
      → drop (length rs) (drop 1 (split_on slash (rooted_path (rs ++ vs)))) ≡ vs
  behind vs m h =
      ap (drop (length rs))
        (split_on-rooted_path (rs ++ vs) (words_some rs vs n) (All-append IsPlain rs vs plain h))
      ∙ drop_append rs vs

  -- What the proofs about plans ask of a workspace, the sandbox gives.
  pub sandboxed-Lawful : Lawful (sandboxed a fs (rooted_path rs) ws)
  sandboxed-Lawful = record { one_name = one; some_name = named }
    where
      one :
          (p q : Text) (x y : Access) (abs c d : Text)
          → (sandboxed a fs (rooted_path rs) ws).resolve p x ≡ some (abs, c)
          → (sandboxed a fs (rooted_path rs) ws).resolve q y ≡ some (abs, d)
          → c ≡ d
      one p q x y abs c d e f =
          let h = at-IsResolved p x abs c e in
          let k = at-IsResolved q y abs d f in
          let same : rooted_path (rs ++ h.clean.words) ≡ rooted_path (rs ++ k.clean.words) =
            sym h.under ∙ k.under in
          let words : h.clean.words ≡ k.clean.words =
            sym (behind h.clean.words h.clean.there h.clean.plain)
            ∙ ap (λ (t : Text). drop (length rs) (drop 1 (split_on slash t))) same
            ∙ behind k.clean.words k.clean.there k.clean.plain in
          h.clean.path ∙ ap join_words words ∙ sym k.clean.path

      named :
          (p : Text) (x : Access) (abs c : Text)
          → (sandboxed a fs (rooted_path rs) ws).resolve p x ≡ some (abs, c)
          → c ≢ []
      named p x abs c e z =
          let h = at-IsResolved p x abs c e in
          join_words-plain h.clean.words h.clean.there h.clean.plain (sym h.clean.path ∙ z)

-- A path in the workspace that is reached without a link and is not below a .git.
abbrev pub IsReached : Files → List Text → Text → Type 0
IsReached fs rs abs =
    (vs : List Text) × (abs ≡ rooted_path (rs ++ vs))
    × All IsPlain vs
    × Walked fs rs vs
    × (any is_git vs ≡ false)

abbrev pub IsInside : Files → List Text → PlannedOp → Type 0
IsInside fs rs p = IsReached fs rs p.abs × (p.op.op_type ≡ move → IsReached fs rs p.to_abs)

module _ (a : Alphabets) (fs : Files) (rs : List Text) (n : rs ≢ []) (plain : All IsPlain rs)
    (ws : Workspace) where
  Located-IsReached :
      (abs c : Text) → Located (sandboxed a fs (rooted_path rs) ws) abs c → IsReached fs rs abs
  Located-IsReached abs c (p, x, e) =
      let h = at-IsResolved a fs rs n plain ws p x abs c e in
      (h.clean.words, h.under, h.clean.plain, h.walked, h.no_git (writes_all x))
    where
      writes_all : (x : Access) → writes (op_of x) ≡ true
      writes_all Ops.op_write = refl
      writes_all Ops.op_delete = refl

  each-IsInside :
      (hash : Text → Text) (ps : List PlannedOp)
      → All (Grounded hash (sandboxed a fs (rooted_path rs) ws)) ps
      → All (IsInside fs rs) ps
  each-IsInside hash [] h = tt
  each-IsInside hash (p ∷ ps) (h, hs) = (
    (
      Located-IsReached p.abs p.canonical h.at,
      λ m. Located-IsReached p.to_abs p.to_canonical (h.to_at m),
    ),
    each-IsInside hash ps hs,
  )

  -- In a workspace whose paths the sandbox gives, each operation of a plan stands at a path in the
  -- workspace that is reached without a symbolic link and is not below a .git, and so does the
  -- target of a move.
  pub plan-IsInside :
      (hash : Text → Text) (diff_text : Text → Text → Text → Text) (nodes : Nodes)
      (ops : List Operation) (ps : List PlannedOp)
      → plan hash diff_text (sandboxed a fs (rooted_path rs) ws) nodes ops ≡ ready ps
      → All (IsInside fs rs) ps
  unfolding plan
  plan-IsInside hash diff_text nodes ops ps e =
      each-IsInside hash ps
        (plan_ops-Grounded hash diff_text (sandboxed a fs (rooted_path rs) ws) nodes [] ops ps e)
