-- ===== src/Tools/Execute/InOrder.antt =====
-- About `execute_all` of crates/core/src/tools/execute.rs: the places of the results.
use apprentice_harness.Common.{
  ℕ, suc, ◌<◌, ◌≡◌, refl, sym, ◌∙◌, ap, Bool, Option, none, some, List, [], ◌∷◌, ◌++◌, append_assoc,
  map, length, length-append, arith, All, Text, codes, Bool-cases, Option-cases, inl, inr,
}
use apprentice_harness.Common.Result.{Result, ok, err}
use apprentice_harness.Mentor.Types.{ContentBlock}
use apprentice_harness.Mentor.Assemble.Slots.{
  put_slot, filled, put_slot-put_slot, put_slot-behind, filled-map-some,
}
use apprentice_harness.Runtime.Conversation.{ToolCall, result_ids, use_ids}
use apprentice_harness.Tools.Registry.{Registry, get, names}
use apprentice_harness.Tools.Execute.{
  ToolsConfig, ToolEnv, ToolError, ToolOutput, Formats, Meets, Executed, run_tool, finish,
  result_block, failed_call, unknown_tool, resolve_env,
}
use apprentice_harness.Tools.Execute.Batch.{
  Placed, mutates, enumerate, partition, run_phase, execute_one, execute_all, env_of,
}

module _ {Value Validator : Type 0} (formats : Formats Value) (config : ToolsConfig)
    (default_env : ToolEnv) (registry : Registry Value Validator) (meets : ℕ → Meets Value) where
  abbrev one : ℕ → ToolCall Value → Executed Value
  one i c = execute_one formats config default_env registry c (meets i)

  -- Each call executed at its place.
  abbrev pub in_order : ℕ → List (ToolCall Value) → List (Executed Value)
  in_order i [] = []
  in_order i (c ∷ cs) = one i c ∷ in_order (suc i) cs

  abbrev phase : Placed Value → List (Option (Executed Value)) → List (Option (Executed Value))
  phase cs slots = run_phase formats config default_env registry meets cs slots

  abbrev split : Placed Value → Placed Value × Placed Value
  split cs = partition formats config default_env registry cs

  abbrev Later : ℕ → Placed Value → Type 0
  Later i cs = All (λ p. i < p.0) cs

  Later-enumerate :
      (i j : ℕ) (cs : List (ToolCall Value))
      → i < j
      → Later i (split (enumerate formats config default_env registry j cs)).0
  unfolding partition
  Later-enumerate i j [] h = tt
  Later-enumerate i j (c ∷ cs) h =
      let rest = Later-enumerate i (suc j) cs (omega arith) in
      elim (Bool-cases (mutates formats config default_env registry c)) [
        | inl t ↦ rw (partition, t) rest
        | inr f ↦ rw (partition, f) (h, rest)
      ]

  put-phase :
      (i : ℕ) (x : Executed Value) (cs : Placed Value) (slots : List (Option (Executed Value)))
      → Later i cs
      → put_slot i x (phase cs slots) ≡ phase cs (put_slot i x slots)
  unfolding run_phase
  put-phase i x [] slots h = refl
  put-phase i x ((j, c) ∷ cs) slots h =
      put-phase i x cs (put_slot j (one j c) slots) h.1
      ∙ ap (phase cs) (put_slot-put_slot i j x (one j c) slots h.0)

  phases :
      (i : ℕ) (cs : List (ToolCall Value)) (done : List (Option (Executed Value)))
      → length done ≡ i
      → let parts = split (enumerate formats config default_env registry i cs) in
        phase parts.1 (phase parts.0 (done ++ map (λ c. none) cs))
        ≡ done ++ map some (in_order i cs)
  unfolding partition run_phase
  phases i [] done h = refl
  phases i (c ∷ cs) done h =
      let x = one i c in
      let empty_slots : List (Option (Executed Value)) = map (λ c. none) cs in
      let parts = split (enumerate formats config default_env registry (suc i) cs) in
      let slots = done ++ none ∷ empty_slots in
      let put_here : put_slot i x slots ≡ (done ++ some x ∷ []) ++ empty_slots =
        ap (λ k. put_slot k x slots) (sym h) ∙ put_slot-behind done empty_slots x none in
      let longer : length (done ++ some x ∷ []) ≡ suc i =
        omega (arith, h, length-append done (some x ∷ [])) in
      let ih =
        phases (suc i) cs (done ++ some x ∷ []) longer
        ∙ append_assoc done (some x ∷ []) (map some (in_order (suc i) cs)) in
      elim (Bool-cases (mutates formats config default_env registry c)) [
        | inr f ↦ rw (partition, f) (ap (λ s. phase parts.1 (phase parts.0 s)) put_here ∙ ih)
        | inl t ↦
            rw (partition, t)
              (ap (phase parts.1) (
                  put-phase i x parts.0 slots (Later-enumerate i (suc i) cs (omega arith))
                  ∙ ap (phase parts.0) put_here)
                ∙ ih)
      ]

  execute_all-in_order :
      (calls : List (ToolCall Value))
      → execute_all formats config default_env registry meets calls ≡ in_order 0 calls
  unfolding execute_all
  execute_all-in_order calls =
      ap filled (phases 0 calls [] refl) ∙ filled-map-some (in_order 0 calls)

  -- The block is a result for the call.
  data AnswersCall (c : ToolCall Value) (x : Executed Value) : Type 0 where
    answer : (t : Text) (e : Bool) → x.block ≡ result_block c.id t e → AnswersCall c x

  finish-AnswersCall :
      (c : ToolCall Value) (env : ToolEnv) (r : Result ToolError (ToolOutput Value))
      (met : Meets Value)
      → AnswersCall c (finish formats c env r met)
  unfolding finish
  finish-AnswersCall c env (ok output) met = answer _ _ refl
  finish-AnswersCall c env (err e) met = answer _ _ refl

  one-AnswersCall : (i : ℕ) (c : ToolCall Value) → AnswersCall c (one i c)
  unfolding execute_one
  one-AnswersCall i c = elim (Option-cases ((meets i).traced)) [
    | inr (e, f) ↦
        rw (execute_one, f)
          (finish-AnswersCall c (env_of formats config default_env registry (get c.name registry))
            (err (failed_call (codes "trace: " ++ e))) (meets i))
    | inl f ↦ elim (Option-cases (get c.name registry)) [
      | inl g ↦
          rw (execute_one, f, g)
            (finish-AnswersCall c default_env
              (err (unknown_tool formats.debug c.name (names registry))) (meets i))
      | inr (entry, g) ↦
          rw (execute_one, f, g)
            (finish-AnswersCall c (resolve_env config entry.spec) (run_tool (meets i)) (meets i))
    ]
  ]

  AnswersCall-ids :
      (c : ToolCall Value) (x : Executed Value) (bs : List (ContentBlock Value))
      → AnswersCall c x
      → (result_ids (x.block ∷ bs) ≡ c.id ∷ result_ids bs) × (use_ids (x.block ∷ bs) ≡ use_ids bs)
  AnswersCall-ids c x bs (answer t e h) =
      (ap (λ b. result_ids (b ∷ bs)) h, ap (λ b. use_ids (b ∷ bs)) h)

  in_order-ids :
      (i : ℕ) (calls : List (ToolCall Value))
      → (result_ids (map Executed.block (in_order i calls)) ≡ map ToolCall.id calls)
        × (use_ids (map Executed.block (in_order i calls)) ≡ [])
  in_order-ids i [] = (refl, refl)
  in_order-ids i (c ∷ cs) =
      let rest = map Executed.block (in_order (suc i) cs) in
      let (ids, uses) = in_order-ids (suc i) cs in
      let here = AnswersCall-ids c (one i c) rest (one-AnswersCall i c) in
      (here.0 ∙ ap (λ l. c.id ∷ l) ids, here.1 ∙ uses)

  -- Whatever the calls of a message meet: their results stand in the order of the calls, each that of its
  -- own call executed alone, and their blocks are one answer to each call, in the same order, and no call.
  pub execute_all_lem :
      (calls : List (ToolCall Value))
      → let results = execute_all formats config default_env registry meets calls in
        (results ≡ in_order 0 calls)
        × (result_ids (map Executed.block results) ≡ map ToolCall.id calls)
        × (use_ids (map Executed.block results) ≡ [])
  execute_all_lem calls =
      let same = execute_all-in_order calls in
      let ids = in_order-ids 0 calls in
      (
        same,
        ap (λ l. result_ids (map Executed.block l)) same ∙ ids.0,
        ap (λ l. use_ids (map Executed.block l)) same ∙ ids.1,
      )
