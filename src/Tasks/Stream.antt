-- ===== src/Tasks/Stream.antt =====
-- The output of a task against its log: what was written, in one piece, and what pollers receive
-- of it, while writes and polls alternate in any way.
use mathlib.Core.List.{append-nil, append_assoc}
use fylane.Common.{
  ℕ, zero, suc, ◌+◌, ◌-◌, ◌≤◌, ◌≡◌, refl, sym, ap, ◌∙◌, inl, inr, false, List, [], ◌∷◌, ◌++◌,
  if◌then◌else◌, ltb, min, length, take, drop, length-append, length-take, take-append-drop,
  drop_all, arith, Bool-cases,
}
use fylane.Common.Int.{ℤ, pos, at_least_zero}
use fylane.Common.Text.{Text}
use fylane.Tasks.Buffer.{Buffer, new_buffer, write, since}

pub data Use : Type 0 where
  writes : Text → Use
  polls : Use

abbrev pub written : List Use → Text
written [] = []
written (writes p ∷ us) = p ++ written us
written (polls ∷ us) = written us

-- A poller keeps the cursor that it was given last, and the bytes so far.
pub record Poller : Type 0 where
  pub cursor : ℕ
  pub received : Text

abbrev pub new_poller : Poller
new_poller = record { cursor = 0; received = [] }

abbrev pub poll : Buffer → Poller → Poller
poll b r =
    let (text, next, _) = since b (pos r.cursor) in
    record { cursor = next; received = r.received ++ text }

unfoldable pub uses : Buffer → Poller → List Use → Buffer × Poller
uses b r [] = (b, r)
uses b r (writes p ∷ us) = uses (write b p).0 r us
uses b r (polls ∷ us) = uses b (poll b r) us

take_whole {ℓ} : {A : Type ℓ} (n : ℕ) (xs : List A) → length xs ≤ n → take n xs ≡ xs
take_whole zero [] h = refl
take_whole zero (x ∷ xs) h = absurd (omega arith)
take_whole (suc n) [] h = refl
take_whole (suc n) (x ∷ xs) h = ap (◌∷◌ x) (take_whole n xs (omega arith))

take-append {ℓ} :
    {A : Type ℓ} (n : ℕ) (xs ys : List A) → take n (xs ++ ys) ≡ take n xs ++ take (n - length xs) ys
take-append zero xs ys = let e : 0 - length xs ≡ 0 = omega arith in rw e
take-append (suc n) [] ys = let e : suc n - 0 ≡ suc n = omega arith in rw e
take-append (suc n) (x ∷ xs) ys =
    let e : suc n - suc (length xs) ≡ n - length xs = omega arith in
    rw e (ap (◌∷◌ x) (take-append n xs ys))

-- The buffer stands for the log: its first bytes up to the limit, and how many there were.
pub record StandsFor (b : Buffer) (limit : ℕ) (log : Text) : Type 0 where
  pub limited : b.limit ≡ limit
  pub kept : b.buf ≡ take limit log
  pub counted : b.seen ≡ length log

cut : (room : ℕ) (p : Text) → (if ltb room (length p) then take room p else p) ≡ take room p
cut room p = elim (Bool-cases (ltb room (length p))) [
  | inl h ↦ rw h
  | inr h ↦ rw h (sym (take_whole room p (ground arith)))
]

write_fields :
    (b : Buffer) (p : Text)
    → ((write b p).0.limit ≡ b.limit)
      × ((write b p).0.buf ≡ b.buf ++ take (b.limit - length b.buf) p)
      × ((write b p).0.seen ≡ b.seen + length p)
unfolding write
write_fields b p = elim (Bool-cases (ltb 0 (b.limit - length b.buf))) [
  | inl h ↦ rw h (refl, ap (◌++◌ b.buf) (cut (b.limit - length b.buf) p), refl)
  | inr h ↦
      let none_left : b.limit - length b.buf ≡ 0 = ground arith in
      let same : take (b.limit - length b.buf) p ≡ [] = rw none_left in
      rw (h, same, append-nil) (refl, refl, refl)
]

write-StandsFor :
    (b : Buffer) (limit : ℕ) (log p : Text)
    → StandsFor b limit log
    → StandsFor (write b p).0 limit (log ++ p)
write-StandsFor b limit log p s =
    let (l, f, n) = write_fields b p in
    let room : b.limit - length b.buf ≡ limit - length log =
      omega (arith, s.limited, ap length s.kept, length-take limit log) in
    record {
      limited = l ∙ s.limited;
      kept = f ∙ rw (room, s.kept, take-append limit log p);
      counted = n ∙ omega (arith, s.counted, length-append log p);
    }

-- The poller has received the first bytes of the log, as many as its cursor counts.
pub record HasRead (r : Poller) (b : Buffer) : Type 0 where
  pub within : r.cursor ≤ length b.buf
  pub prefix : r.received ≡ take r.cursor b.buf

since_within :
    (b : Buffer) (n : ℕ)
    → n ≤ length b.buf
    → since b (pos n) ≡ (drop n b.buf, length b.buf, ltb b.limit b.seen)
unfolding since
since_within b n h = let e : ltb (length b.buf) n ≡ false = ground arith in rw e

poll-HasRead : (b : Buffer) (r : Poller) → HasRead r b → HasRead (poll b r) b
poll-HasRead b r h = rw (since_within b r.cursor h.within) (record {
  within = omega arith;
  prefix =
      rw h.prefix (take-append-drop r.cursor b.buf)
      ∙ sym (take_whole (length b.buf) b.buf (omega arith));
})

write-HasRead : (b : Buffer) (p : Text) (r : Poller) → HasRead r b → HasRead r (write b p).0
write-HasRead b p r h =
    let (_, f, _) = write_fields b p in
    let more = take (b.limit - length b.buf) p in
    let nothing : r.cursor - length b.buf ≡ 0 = omega (arith, h.within) in
    record {
      within = rw f (omega (arith, length-append b.buf more, h.within));
      prefix = h.prefix ∙ sym (rw (f, take-append r.cursor b.buf more, nothing, append-nil));
    }

uses_lem :
    (us : List Use) (b : Buffer) (r : Poller) (limit : ℕ) (log : Text)
    → StandsFor b limit log
    → HasRead r b
    → StandsFor (uses b r us).0 limit (log ++ written us) × HasRead (uses b r us).1 (uses b r us).0
unfolding uses
uses_lem [] b r limit log s h = rw append-nil (s, h)
uses_lem (writes p ∷ us) b r limit log s h =
    let more =
      uses_lem us (write b p).0 r limit (log ++ p) (write-StandsFor b limit log p s)
        (write-HasRead b p r h) in
    rw (← append_assoc log p (written us)) more
uses_lem (polls ∷ us) b r limit log s h = uses_lem us b (poll b r) limit log s (poll-HasRead b r h)

new_buffer-StandsFor : (limit : ℕ) → StandsFor (new_buffer limit) limit []
unfolding new_buffer
new_buffer-StandsFor zero = record { limited = refl; kept = refl; counted = refl }
new_buffer-StandsFor (suc n) = record { limited = refl; kept = refl; counted = refl }

new_poller-HasRead : (limit : ℕ) → HasRead new_poller (new_buffer limit)
unfolding new_buffer
new_poller-HasRead limit = record { within = omega arith; prefix = refl }

fresh_uses :
    (limit : ℕ) (us : List Use)
    → let (b, r) = uses (new_buffer limit) new_poller us in
      StandsFor b limit (written us) × HasRead r b
fresh_uses limit us =
    uses_lem us (new_buffer limit) new_poller limit [] (new_buffer-StandsFor limit)
      (new_poller-HasRead limit)

since_past :
    (b : Buffer) (cursor : ℤ)
    → since b cursor ≡ (drop (at_least_zero cursor) b.buf, length b.buf, ltb b.limit b.seen)
unfolding since
since_past b cursor =
    let n = at_least_zero cursor in
    elim (Bool-cases (ltb (length b.buf) n)) [
      | inr h ↦ rw h
      | inl h ↦ rw (h, drop_all (length b.buf) b.buf (omega arith), drop_all n b.buf (ground arith))
    ]

-- The buffer implements its log: after any writes and polls, an answer holds what stands behind
-- the cursor in the first `limit` bytes of all that was written, and the mark says exactly whether
-- bytes were dropped. A negative cursor counts as 0, one past the end gets an empty text.
pub uses-since :
    (limit : ℕ) (us : List Use) (cursor : ℤ)
    → let log = written us in
      since (uses (new_buffer limit) new_poller us).0 cursor ≡ (
        drop (at_least_zero cursor) (take limit log),
        min limit (length log),
        ltb limit (length log),
      )
uses-since limit us cursor =
    let (s, _) = fresh_uses limit us in
    let log = written us in
    since_past (uses (new_buffer limit) new_poller us).0 cursor
    ∙ rw (s.kept, s.limited, s.counted, length-take limit log)

uses-last_poll :
    (us : List Use) (b : Buffer) (r : Poller)
    → uses b r (us ++ polls ∷ []) ≡ (let (c, q) = uses b r us in (c, poll c q))
unfolding uses
uses-last_poll [] b r = refl
uses-last_poll (writes p ∷ us) b r = uses-last_poll us (write b p).0 r
uses-last_poll (polls ∷ us) b r = uses-last_poll us b (poll b r)

poll_all : (b : Buffer) (r : Poller) → HasRead r b → (poll b r).received ≡ b.buf
unfolding since
poll_all b r h = (poll-HasRead b r h).prefix ∙ take_whole (length b.buf) b.buf (omega arith)

-- A poller that passes on each cursor receives the kept output in order, nothing twice and nothing
-- left out, however its polls fall between the writes.
pub uses-received :
    (limit : ℕ) (us : List Use)
    → (uses (new_buffer limit) new_poller (us ++ polls ∷ [])).1.received ≡ take limit (written us)
uses-received limit us =
    let (s, h) = fresh_uses limit us in
    let (b, r) = uses (new_buffer limit) new_poller us in
    rw (uses-last_poll us (new_buffer limit) new_poller) (poll_all b r h ∙ s.kept)
