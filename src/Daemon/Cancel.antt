-- ===== src/Daemon/Cancel.antt =====
-- src/daemon/cancel.go: why a render is interrupted.
use prompto.Prelude.{Bool, true, false, if◌then◌else◌}

pub data CancelKind : Type 0 where
  cancel_hard cancel_soft : CancelKind

unfoldable pub cancel_kind_for_repaint : Bool → CancelKind
cancel_kind_for_repaint repaint = if repaint then cancel_soft else cancel_hard

unfoldable pub repaint : CancelKind → Bool
repaint cancel_soft = true
repaint cancel_hard = false
