-- ===== src/Evolution/Cycle/Marks.antt =====
-- When a cycle of src/pyclaw/core/curator_cycle.py marks its work as done.
use pyclaw.Prelude.{
  ℕ, true, false, Option, some, ◌≡◌, ◌≢◌, refl, ◌∙◌, ◌⊎◌, inl, inr, if◌then◌else◌, if_elim,
  text_key,
}
use pyclaw.Evolution.Cycle.{
  World, lock_lost, CycleReport, Sent, done, refused, unanswered, Cycle, Running, Left, fine,
  lost_lock, broke, then_run, run_scan, run_review_if_permitted, does_scan, mark_scan_completed,
  mark_review_fully_completed, mark_completion, begin_cycle, work, completed, build_report, execute,
}
use pyclaw.Evolution.Cycle.Sections.{
  IsUnmarked, LeavesMarks, then_run-LeavesMarks, run_scan-LeavesMarks, run_review-LeavesMarks,
}

-- A property of what is left carries over the rest.
then_run-carries :
    (P Q : Left → Type 0) (left : Left) (rest : Running → Left)
    → P left
    → ((r : Running) → P (fine r) → Q (rest r))
    → ((r : Running) → P (lost_lock r) → Q (lost_lock r))
    → ((r : Running) → P (broke r) → Q (broke r))
    → Q (then_run left rest)
unfolding then_run
then_run-carries P Q (fine r) rest p f l b = f r p
then_run-carries P Q (lost_lock r) rest p f l b = l r p
then_run-carries P Q (broke r) rest p f l b = b r p

sent_elim :
    (P : Left → Type 0) (s : Sent) {x y z : Left}
    → P x
    → P y
    → P z
    → P (elim s [ done ↦ x | refused ↦ y | unanswered ↦ z ])
sent_elim P done p q t = p
sent_elim P refused p q t = q
sent_elim P unanswered p q t = t

module _ (c : Cycle) (w : World) where
  -- The time of the scan or of the review was left, or set to now.
  abbrev pub LeftOrNow : (before after : Option ℕ) → Type 0
  LeftOrNow before after = (after ≡ before) ⊎ (after ≡ some c.now)

  abbrev pub scan_time : Option ℕ
  scan_time = if does_scan c.mode then some c.now else w.last_run_at

  -- Neither was marked; or the scan was, if the mode has one, and the review perhaps.
  abbrev pub AreMarkedInOrder : World → Type 0
  AreMarkedInOrder after =
      ((after.last_run_at ≡ w.last_run_at)
        × (after.llm_review_last_run_at ≡ w.llm_review_last_run_at))
      ⊎ ((after.last_run_at ≡ scan_time)
          × LeftOrNow w.llm_review_last_run_at after.llm_review_last_run_at)

  -- How the times stand when the critical section is left.
  abbrev Fate : Left → Type 0
  Fate (fine r) =
      (r.error ≢ some lock_lost)
      × (r.unexpected_exception ≡ false)
      × (r.world.last_run_at ≡ scan_time)
      × LeftOrNow w.llm_review_last_run_at r.world.llm_review_last_run_at
  Fate (lost_lock r) = IsUnmarked w r
  Fate (broke r) = (r.error ≢ some lock_lost) × AreMarkedInOrder r.world

  -- The same when the scan is marked, and not yet the review.
  abbrev ScanFate : Left → Type 0
  ScanFate (fine r) =
      (r.error ≢ some lock_lost)
      × (r.unexpected_exception ≡ false)
      × (r.world.last_run_at ≡ scan_time)
      × (r.world.llm_review_last_run_at ≡ w.llm_review_last_run_at)
  ScanFate (lost_lock r) = IsUnmarked w r
  ScanFate (broke r) = Fate (broke r)

  mark_scan-Fate :
      (r : Running)
      → IsUnmarked w r
      → ScanFate (if does_scan c.mode then mark_scan_completed c r else fine r)
  unfolding mark_scan_completed
  mark_scan-Fate r h =
      if_elim ScanFate (does_scan c.mode)
        (λ scans.
          let time : some c.now ≡ scan_time = rw scans refl in
          sent_elim ScanFate c.scan_mark (h.error, h.calm, time, h.review)
            (h.error, inl (h.last_run, h.review)) (h.error, inr (time, inl h.review)))
        (λ scans.
          let time : w.last_run_at ≡ scan_time = rw scans refl in
          (h.error, h.calm, h.last_run ∙ time, h.review))

  mark_review-Fate :
      (r : Running)
      → ScanFate (fine r)
      → Fate (if r.full_traversal then mark_review_fully_completed c r else fine r)
  unfolding mark_review_fully_completed
  mark_review-Fate r (e, u, time, review) =
      if_elim Fate r.full_traversal
        (λ _.
          sent_elim Fate c.review_mark (e, u, time, inr refl) (e, inr (time, inl review))
            (e, inr (time, inr refl)))
        (λ _. (e, u, time, inl review))

  mark_completion-Fate : (r : Running) → IsUnmarked w r → Fate (mark_completion c r)
  unfolding mark_completion
  mark_completion-Fate r h =
      then_run-carries ScanFate Fate (if does_scan c.mode then mark_scan_completed c r else fine r)
        _ (mark_scan-Fate r h) mark_review-Fate (λ q k. k) (λ q k. k)

  work-Fate : (r : Running) → IsUnmarked w r → Fate (work c r)
  unfolding work
  work-Fate r h =
      then_run-carries (LeavesMarks w) Fate
        (then_run (if does_scan c.mode then run_scan c r else fine r) (run_review_if_permitted c))
        (mark_completion c)
        (then_run-LeavesMarks w (if does_scan c.mode then run_scan c r else fine r) _
          (if_elim (LeavesMarks w) (does_scan c.mode) (λ _. run_scan-LeavesMarks c w r h)
            (λ _. unfold LeavesMarks in h))
          (run_review-LeavesMarks c w))
        (λ q k. mark_completion-Fate q (unfold LeavesMarks in k)) (λ q k. unfold LeavesMarks in k)
        (λ q k. unfold LeavesMarks in (k.error, inl (k.last_run, k.review)))

  -- How a cycle that had the lock ends: it reports the loss of the lock and has marked nothing; or it reports an
  -- unexpected exception and not the loss of the lock, and has marked nothing, or its scan first, if its mode has one, and
  -- perhaps the review; or it reports neither, has marked its scan, if its mode has one, and perhaps the review.
  abbrev pub IsMarked : World × CycleReport → Type 0
  IsMarked (after, report) =
      ((report.error ≡ some lock_lost)
        × (report.unexpected_exception ≡ false)
        × (after.last_run_at ≡ w.last_run_at)
        × (after.llm_review_last_run_at ≡ w.llm_review_last_run_at))
      ⊎ ((report.error ≢ some lock_lost)
          × (report.unexpected_exception ≡ true)
          × AreMarkedInOrder after)
      ⊎ ((report.error ≢ some lock_lost)
          × (report.unexpected_exception ≡ false)
          × (after.last_run_at ≡ scan_time)
          × (LeftOrNow w.llm_review_last_run_at after.llm_review_last_run_at))

  completed-IsMarked :
      (left : Left) → Fate left → IsMarked ((completed left).world, build_report (completed left))
  unfolding completed build_report
  completed-IsMarked (fine r) (e, u, scan, review) = inr (inr (e, u, scan, review))
  completed-IsMarked (lost_lock r) h = inl (refl, h.calm, h.last_run, h.review)
  completed-IsMarked (broke r) (e, marks) = inr (inl (e, refl, marks))

begin_cycle-IsUnmarked : (w : World) → IsUnmarked w (begin_cycle w)
unfolding begin_cycle
begin_cycle-IsUnmarked w = record { last_run = refl; review = refl; error = λ q. cc; calm = refl }

-- A cycle that finds the lock busy changes nothing and says so. One that reports that it lost the lock has marked
-- neither the scan nor the review as done. One that reports an unexpected exception has marked neither, or has marked its
-- scan, if its mode has one, and has left the time of the review or set it to now. Any other has marked its scan, if its
-- mode has one, and has left the time of the review or set it to now. No cycle reports both.
pub execute-IsMarked :
    (c : Cycle) (w : World)
    → (((execute c false w).0 ≡ w) × ((execute c false w).1.acquired ≡ false))
      × IsMarked c w (execute c true w)
unfolding execute
execute-IsMarked c w = (
  (refl, refl),
  completed-IsMarked c w (work c (begin_cycle w))
      (work-Fate c w (begin_cycle w) (begin_cycle-IsUnmarked w)),
)
