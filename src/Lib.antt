-- ===== src/Lib.antt =====
-- Fylane's Companion lets a remote caller work in a local workspace: it changes files through a
-- transaction, runs commands, and asks its user before either where a policy says so. This library
-- models the parts that decide and that write, and proves what they promise.
--
-- The parts and their files:
--   Common    texts, paths, maps and sorting, as the program uses them of Go's library: strings are
--             lists of bytes, with letter case and blanks read as ASCII, paths are those of Unix, a
--             map is an association list, and sort.Slice is an insertion sort.
--   Approval  companion/internal/approval/approval.go. State has the modes, budgets and the service
--             record with New and SetMode; Policy has autoApproved; Prompts has Approve (ask_policy,
--             attach_call, wake), attach, Resolve (mark, file) and ApproveRead; Events makes every
--             interleaving of the calls a list of events, one for each hold of the lock, so that the
--             policy of an Approve is asked in one event and its prompt is attached in another.
--             History, Attach, Collected and Race have the proofs. A *Pending is an address into
--             `cells`, and the callbacks are recorded in logs.
--   Command   companion/internal/cmdrule/cmdrule.go with the parts of companion/internal/cmdexec that
--             it calls (Shells): Line parses an argv, Rules has one function for each rule of the
--             table, Check has the table in its order and Check itself.
--   Gate      companion/internal/cmdgate and companion/internal/store/grants.go: Decide has the rung
--             and the decision, Grants the stored workspace grants, Delegations the grants of the
--             process. A flag `broken` says that the database call fails.
--   Txn       companion/internal/txn and the change sets of companion/internal/store: Disk has fs.go
--             and the calls of package os on a map of paths, Plan has plan, Apply has backup and apply
--             with the undo list as data, Effect has effect.go, Claim and Execute have Execute, Inverse and
--             Rollback have rollback.go.
--   Edit      companion/internal/mcpserver: Splice has applyEdits (edit.go) with each kind of edit,
--             Patch has applyUnified (patch.go), with the regular expression of a header as a parser,
--             Encoding has companion/internal/textenc, Endings has preserve.go and what editFile does
--             between the read and the write of a file.
--   Tasks     companion/internal/tasks: Buffer has the output buffer, State a task and its end, Manager
--             the table with acquire and the purge, Calls the other calls and what a task's goroutine
--             does; Stream, Forget, Invariant, Purge, Tracked and Settled have the proofs. A *task is
--             an address into `cells`, and a run of a manager is any list of events.
--   Routes    companion/internal/routerule: Glob has path.Match of Go's library, Rules the table with
--             Validate, Matches, Apply, CountUse and the shadow marks; Landing, First and Shadow have
--             the proofs.
--   Sandbox   companion/internal/sandbox: Names has the check of a component, Clean has CleanPath, Resolve
--             has Resolve over the answers of the operating system; Accepted and Inside have the proofs,
--             Workspaces fills the workspace of the write pipeline with it.
--
-- How they interact: Gate asks Command for the verdict about a command; Txn asks Approval about a
-- change set with the request type that both share (Txn), and writes the text that Edit makes; both
-- are told only what the local user or the policy table of Approval answers. Routes decides where a
-- save lands before Txn sees it.
--
-- Choices of the model:
--   Times are nanoseconds as natural numbers, given to a function as `now`. All recursion is
--   structural, over lists of operations, paths or events, and no definition has fuel.
--   A call of package os may fail: a disk carries a schedule of its faults, and the theorems hold for
--   every schedule. Writing before the final rename of AtomicWrite leaves the target as it was. Reads
--   do not fail, a path below a file is read as missing, and directories have no permission bits.
--   A symbolic link carries what os.ReadFile finds behind it (nothing, something unreadable, or
--   bytes), and that does not change while the pipeline writes: no write goes through a link, and a
--   link to a file that the same change set writes is not followed to the new bytes. os.SameFile, in
--   the rollback of a move, is equality of paths: hard links and file systems that ignore letter case
--   are not seen.
--   The workspace gives the pipeline its paths (record Workspace); the theorems about a pipeline hold
--   for any workspace that is Lawful, and that of the sandbox is. SHA-256 and the diff are parameters:
--   of the hash it is assumed that different bytes have hashes that differ in more than letter case,
--   and that a hash is not empty.
--   In a pattern of Routes, ? and a class match one byte, which is Go's one character for ASCII names.
--   While an approval is awaited others may change the disk: `meanwhile` is any function.
--   Left out of the previews are the tree and the impact, which no modelled decision reads.
--   The coders of golang.org/x/text are a parameter (record Coders); where it matters it is assumed that
--   they give back the bytes of the file at hand.
--   The letter tables of package unicode are a parameter as well (record Alphabets).
--
-- Not modelled: recovery and retention of change sets, the policy of a workspace, and the other tools
-- of the MCP server; these come next. Further the
-- control interface, the tunnel, the relay, the desktop shell and the other packages, which move data
-- between these parts and the network or the screen.
pub mod Common
pub mod Txn
pub mod Approval
pub mod Command
pub mod Gate
pub mod Edit
pub mod Tasks
pub mod Routes
pub mod Sandbox
