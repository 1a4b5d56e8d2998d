-- ===== src/Editor/Keys/History.antt =====
-- The up and down keys.
use websh.Base.{ℕ, ◌+◌, ◌-◌, ◌<◌, ◌≡◌, ap, ◌∙◌, List, arith, length, codes}
use websh.Editor.State.{Terminal, Editor, change, same_line}
use websh.Editor.Keys.{recall, previous, following, handle_csi}
use websh.Editor.Keys.Drawn.{core, change-core}

module _ (t : Terminal) where
  previous-saves : (e : Editor) → e.hist_idx ≡ length e.history → (previous e).hist_save ≡ e.buf
  unfolding previous recall
  previous-saves e h = ground (arith, h)

  previous-fields :
      (e : Editor) → ((previous e).history ≡ e.history) × ((previous e).hist_idx ≡ e.hist_idx - 1)
  unfolding previous recall
  previous-fields e = ground arith

  following-saved :
      (e : Editor)
      → e.hist_idx + 1 ≡ length e.history
      → ((following e).buf ≡ e.hist_save)
        × ((following e).cursor ≡ length e.hist_save)
        × ((following e).hist_idx ≡ e.hist_idx + 1)
  unfolding following recall
  following-saved e h = ground (arith, h)

  -- what the editor shows of its history
  abbrev shown : Editor → List (List ℕ) × ℕ × List ℕ
  shown e = (e.history, e.hist_idx, e.hist_save)

  abbrev line : Editor → List ℕ × ℕ × ℕ
  line e = (e.buf, e.cursor, e.hist_idx)

  handle_csi-up : (e : Editor) → 0 < e.hist_idx → handle_csi t (codes "A") e ≡ change t previous e
  unfolding handle_csi same_line
  handle_csi-up e h = ground (arith, h)

  handle_csi-down :
      (e : Editor)
      → e.hist_idx < length e.history
      → handle_csi t (codes "B") e ≡ change t following e
  unfolding handle_csi same_line
  handle_csi-down e h = ground (arith, h)

  change-shown : (f : Editor → Editor) (e : Editor) → shown (change t f e) ≡ shown (f e)
  unfolding core
  change-shown f e = ap shown (change-core t e f)

  change-line : (f : Editor → Editor) (e : Editor) → line (change t f e) ≡ line (f e)
  unfolding core
  change-line f e = ap line (change-core t e f)

  -- On a fresh line, behind a history that is not empty, the up key and then the down key give back
  -- the line as it was, with the cursor behind it and the history's index behind the last line.
  pub handle_csi-handle_csi :
      (e : Editor)
      → 0 < length e.history
      → e.hist_idx ≡ length e.history
      → let e' = handle_csi t (codes "B") (handle_csi t (codes "A") e) in
        (e'.buf ≡ e.buf) × (e'.cursor ≡ length e.buf) × (e'.hist_idx ≡ length e.history)
  handle_csi-handle_csi e n h =
      let a = change t previous e in
      let kept = change-shown previous e in
      let history : a.history ≡ e.history = ap (λ x. x.0) kept ∙ (previous-fields e).0 in
      let idx : a.hist_idx ≡ e.hist_idx - 1 = ap (λ x. x.1) kept ∙ (previous-fields e).1 in
      let saved : a.hist_save ≡ e.buf = ap (λ x. x.2) kept ∙ previous-saves e h in
      let up = handle_csi-up e (omega arith) in
      let down = handle_csi-down a (omega (arith, idx, ap length history)) in
      let restored = following-saved a (omega (arith, idx, ap length history)) in
      let both =
        ap (λ x. line (handle_csi t (codes "B") x)) up ∙ (ap line down ∙ change-line following a) in
      (
        ap (λ x. x.0) both ∙ (restored.0 ∙ saved),
        ap (λ x. x.1) both ∙ (restored.1 ∙ ap length saved),
        ap (λ x. x.2) both ∙ (restored.2 ∙ omega (arith, idx, h, n)),
      )
