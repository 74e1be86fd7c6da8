-- ===== src/Views/ControlPlane.antt =====
-- pkg/mahogany/views/control_plane.go: the page of the control plane, which is the status.
use mahogany.Views.{World, ViewFinder, StatusView, get_status}

pub record ControlPlaneView : Type 0 where
  pub status : StatusView

-- `GetControlPlane`
unfoldable pub get_control_plane : World → ViewFinder → ControlPlaneView × ViewFinder
unfolding get_status
get_control_plane w v = let (status, v') = get_status w v in (record { status = status }, v')
