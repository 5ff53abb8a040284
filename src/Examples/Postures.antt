-- ===== src/Examples/Postures.antt =====
-- The default posture and the lab posture.
use rexec_op.Base.{◌≡◌, refl, ok, some}
use rexec_op.Posture.{resolve_mutation_posture}
use rexec_op.Examples.Toy.{toy}

lab_resolved : resolve_mutation_posture (some " lab_only ") "" ≡ ok "lab_only"
unfolding resolve_mutation_posture toy
lab_resolved = refl
