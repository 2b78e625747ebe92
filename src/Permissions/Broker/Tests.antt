-- ===== src/Permissions/Broker/Tests.antt =====
-- The witness of the theorem on prompts: another prompt is answered and asked in between, and the
-- request is answered twice.
use apprentice_harness.Common.{◌≡◌, true, none, List, [], ◌∷◌, codes, if◌then◌else◌}
use apprentice_harness.Permissions.Types.{allow_once, deny_once}
use apprentice_harness.Permissions.Broker.{
  new_broker, find_pending, Op, registers, responds, apply_all, reply_of, no_client, ask,
}
use apprentice_harness.Permissions.Broker.FirstAnswer.{first_answer}
use apprentice_harness.Permissions.Broker.Asking.{ask-first_answer}

abbrev earlier : List Op
earlier = registers (codes "r0") (codes "a") ∷ []

abbrev meanwhile : List Op
meanwhile =
    responds (codes "r0") (deny_once, none)
    ∷ registers (codes "r2") (codes "b")
    ∷ responds (codes "r1") (allow_once, none)
    ∷ responds (codes "r1") (deny_once, none)
    ∷ []

ask-first_answer_example :
    ((ask (codes "r1") (codes "a") true meanwhile (apply_all earlier new_broker)).0
      ≡ (if true then reply_of (first_answer (codes "r1") meanwhile) else no_client))
    × (find_pending
          (codes "r1")
          (ask (codes "r1") (codes "a") true meanwhile (apply_all earlier new_broker)).1.pending
        ≡ none)
ask-first_answer_example = ask-first_answer (codes "r1") (codes "a") true earlier meanwhile
