-- ===== src/BaseThread/Tests.antt =====
-- Runs of base/base_thread/base_thread.cc, and its theorem at concrete inputs.
use moony.Prelude.{◌≡◌, refl, [], ◌∷◌}
use moony.Prelude.Text.{codes, decimal, snprintf}
use moony.BaseThread.{create, default_name}
use moony.BaseThread.Life.{starts, joins, live, verdict, live_lem}

third_name : (create 2 (codes "")).0.name ≡ codes "thread 3"
unfolding create default_name snprintf decimal
third_name = refl

-- Started again, and left so.
live_lem_example :
    live (create 0 (codes "test")).0 (starts 7 ∷ joins ∷ starts 8 ∷ [])
    ≡ verdict (starts 7 ∷ joins ∷ starts 8 ∷ [])
live_lem_example = live_lem 0 (codes "test") (starts 7 ∷ joins ∷ starts 8 ∷ [])
