-- ===== src/Approval/Invariant.antt =====
-- What holds of the prompts after any interleaving of calls.
use mathlib.Core.List.{Memᴰ}
use fylane.Common.{
  ℕ, suc, ◌<◌, ◌≡◌, refl, ◌⊎◌, inl, inr, Bool, true, false, List, [], ◌∷◌, subst, sym, nat_beq_iff,
  ltb, ltb→lt, nat_beq, arith, Bool-cases,
}
use fylane.Common.Text.{Text, text_eq}
use fylane.Approval.State.{
  Service, Pending, Mode, Budgets, started, set_mode, parse_mode, fresh_pending, write_cell,
}
use fylane.Approval.Prompts.{wake, done, timer, canceled, mark, remove, local_decision}
use fylane.Approval.Attach.{decided_cell, mark_first, file_fields}
use fylane.Approval.Events.{
  Event, asks, attaches, wakes, marks, files, sets, step, Run, start, after, Answered,
}
use fylane.Approval.Cells.{Opens, attach_call-Opens, mark_again, set_mode_cells, file-next}

abbrev pub AnsweredIfClosed : List Event → ℕ → Pending → Type 0
AnsweredIfClosed es p c = (c.closed ≡ false) ⊎ Answered es p c.decision

pub record Inv (s : Service) (es : List Event) : Type 0 where
  pub answered : (p : ℕ) → AnsweredIfClosed es p (s.cells p)
  pub allocated : (p : ℕ) → (s.cells p).closed ≡ true → p < s.next
  pub agrees : (p : ℕ) → (s.cells p).closed ≡ (s.cells p).decided

later :
    (es : List Event) (p : ℕ) (c : Pending) (e : Event)
    → AnsweredIfClosed es p c
    → AnsweredIfClosed (e ∷ es) p c
later es p c e (inl h) = inl h
later es p c e (inr (now, approved, reason, m, d)) = inr (now, approved, reason, Memᴰ.tail m, d)

Inv-same :
    {s t : Service} {es : List Event} (e : Event)
    → t.cells ≡ s.cells
    → t.next ≡ s.next
    → Inv s es
    → Inv t (e ∷ es)
Inv-same {s} {t} {es} e c n v = record {
  answered = λ p. rw c (later es p (s.cells p) e (v.answered p));
  allocated = λ p h. rw n (v.allocated p (rw c at h));
  agrees = λ p. rw c (v.agrees p);
}

-- A cell that is read back from a write.
write_cell_cases {κ} :
    (P : ℕ → Pending → Type κ) (q : ℕ) (c : Pending) (f : ℕ → Pending)
    → P q c
    → ((p : ℕ) → P p (f p))
    → (p : ℕ) → P p (write_cell q c f p)
write_cell_cases P q c f h hs p = elim (Bool-cases (nat_beq p q)) [
  | inl e ↦ rw e (subst (λ r. P r c) (sym ((nat_beq_iff p q).0 e)) h)
  | inr e ↦ rw e (hs p)
]

Inv-Opens : {s t : Service} {es : List Event} (e : Event) → Opens s t → Inv s es → Inv t (e ∷ es)
Inv-Opens e (inl (c, n)) v = Inv-same e c n v
Inv-Opens {s} {es} e (inr (now, req, c, n)) v = record {
  answered = rw c (
      write_cell_cases (AnsweredIfClosed (e ∷ es)) s.next (fresh_pending now req) s.cells (inl refl)
        (λ p. later es p (s.cells p) e (v.answered p)));
  allocated =
      rw (c, n)
        (write_cell_cases (λ p d. d.closed ≡ true → p < suc s.next) s.next (fresh_pending now req)
          s.cells (λ h. omega arith) (λ p h. let below = v.allocated p h in omega arith));
  agrees = rw c (
      write_cell_cases (λ p d. d.closed ≡ d.decided) s.next (fresh_pending now req) s.cells refl
        v.agrees);
}

Inv-marks :
    (now p : ℕ) (approved : Bool) (reason : Text) {s : Service} {es : List Event}
    → p < s.next
    → (s.cells p).decided ≡ false
    → Inv s es
    → Inv
        (record s {
          cells =
              write_cell p (decided_cell now (local_decision approved reason) (s.cells p)) s.cells;
        })
        (marks now p approved reason ∷ es)
Inv-marks now p approved reason {s} {es} below undecided v = record {
  answered =
      write_cell_cases (AnsweredIfClosed (marks now p approved reason ∷ es)) p _ s.cells
        (inr (now, approved, reason, Memᴰ.head refl, refl))
        (λ q. later es q (s.cells q) _ (v.answered q));
  allocated =
      write_cell_cases (λ q d. d.closed ≡ true → q < s.next) p _ s.cells (λ _. below) v.allocated;
  agrees = write_cell_cases (λ q d. d.closed ≡ d.decided) p _ s.cells refl v.agrees;
}

Inv-marks_again :
    (now p : ℕ) (approved : Bool) (reason : Text) {s : Service} {es : List Event}
    → (s.cells p).decided ≡ true
    → Inv s es
    → Inv (mark now p (local_decision approved reason) s).0 (marks now p approved reason ∷ es)
Inv-marks_again now p approved reason {s} {es} e v =
    let m : Event = marks now p approved reason in
    rw (mark_again now p (local_decision approved reason) s e) (record {
      answered =
          write_cell_cases (AnsweredIfClosed (m ∷ es)) p (s.cells p) s.cells
            (later es p (s.cells p) m (v.answered p))
            (λ q. later es q (s.cells q) m (v.answered q));
      allocated =
          write_cell_cases (λ q d. d.closed ≡ true → q < s.next) p (s.cells p) s.cells
            (v.allocated p) v.allocated;
      agrees =
          write_cell_cases (λ q d. d.closed ≡ d.decided) p (s.cells p) s.cells (v.agrees p)
            v.agrees;
    })

step_marks-Inv :
    (now p : ℕ) (approved : Bool) (reason : Text) {s : Service} {es : List Event}
    → Inv s es
    → Inv (step s (marks now p approved reason)).0 (marks now p approved reason ∷ es)
unfolding step
step_marks-Inv now p approved reason {s} {es} v = elim (Bool-cases (ltb p s.next)) [
  | inr e ↦ rw e (Inv-same (marks now p approved reason) refl refl v)
  | inl e ↦ rw e (elim (Bool-cases (s.cells p).decided) [
    | inl d ↦ Inv-marks_again now p approved reason d v
    | inr d ↦
        rw (mark_first now p (local_decision approved reason) s d)
          (Inv-marks now p approved reason (ltb→lt p s.next e) d v)
  ])
]

step-Inv : {s : Service} {es : List Event} (e : Event) → Inv s es → Inv (step s e).0 (e ∷ es)
unfolding step remove wake set_mode
step-Inv (asks req) v = Inv-same (asks req) refl refl v
step-Inv {s} (attaches now req) v = Inv-Opens (attaches now req) (attach_call-Opens now s req) v
step-Inv {s} (wakes id p done) v = elim (Bool-cases (s.cells p).closed) [
  | inl c ↦ rw c (Inv-same (wakes id p done) refl refl v)
  | inr c ↦ rw c (Inv-same (wakes id p done) refl refl v)
]
step-Inv (wakes id p timer) v = Inv-same (wakes id p timer) refl refl v
step-Inv (wakes id p canceled) v = Inv-same (wakes id p canceled) refl refl v
step-Inv (marks now p approved reason) v = step_marks-Inv now p approved reason v
step-Inv {s} (files now id p approved) v =
    Inv-same (files now id p approved) (file_fields now id p approved s).2
      (file-next now id p approved s) v
step-Inv {s} (sets text confirm) v =
    let (c, n) = set_mode_cells (parse_mode text) text confirm s in
    Inv-same (sets text confirm) c n v

start-Inv : (mode : Mode) (b : Budgets) (r : Bool) → Inv (started mode b r) []
start-Inv mode b r = record { answered = λ p. inl refl; allocated = λ p h. cc; agrees = λ p. refl }

pub Run-Inv :
    {mode : Mode} {b : Budgets} {r : Bool} {s : Service} {es : List Event}
    → Run mode b r s es
    → Inv s es
Run-Inv {mode} {b} {r} start = start-Inv mode b r
Run-Inv (after {es = es} e run h) = rw h (step-Inv e (Run-Inv run))
