-- ===== src/Tools/Execute/Permitted.antt =====
-- About `execute_one` of crates/core/src/tools/execute.rs: when a call succeeds.
use apprentice_harness.Common.{
  ◌≡◌, ◌≢◌, refl, ◌∙◌, ap, false, ◌↔◌, inl, inr, none, some, codes, ◌++◌, Bool-cases, Option-cases,
}
use apprentice_harness.Common.Result.{Result, ok, err, Result-cases}
use apprentice_harness.Runtime.Conversation.{ToolCall}
use apprentice_harness.Tools.Registry.{Entry, Registry, get, names}
use apprentice_harness.Tools.Registry.Order.{err-ok}
use apprentice_harness.Tools.Execute.{
  ToolsConfig, ToolEnv, ToolError, ToolOutput, Formats, Meets, ok_kind, error_kind, kind_of,
  invalid_input, denied_call, timed_out, cancelled_call, io, failed_call, run_tool, finish,
  unknown_tool, resolve_env,
}
use apprentice_harness.Tools.Execute.Batch.{execute_one}

none-some : {A : Type 0} {a : A} → none ≢ some a
none-some h = cc

some-injective : {A : Type 0} {a b : A} → some a ≡ some b → a ≡ b
some-injective h = cc

kind-err : (e : ToolError) → kind_of e ≢ ok_kind
kind-err (invalid_input m) h = cc
kind-err (denied_call m) h = cc
kind-err timed_out h = cc
kind-err cancelled_call h = cc
kind-err (io e) h = cc
kind-err (failed_call m) h = cc

kind-error : error_kind ≢ ok_kind
kind-error h = cc

module _ {Value : Type 0} where
  -- The gate lets the call through and nothing ends it before the tool does, with an output.
  abbrev pub Runs : Meets Value → ToolOutput Value → Type 0
  Runs met output =
      (met.valid ≡ ok tt)
      × (met.cancels_asking ≡ false)
      × (met.permit ≡ ok tt)
      × (met.cancels_running ≡ false)
      × (met.ran ≡ some (ok output))

  run_tool-Runs :
      (met : Meets Value) (output : ToolOutput Value) → run_tool met ≡ ok output → Runs met output
  unfolding run_tool
  run_tool-Runs met output h = elim (Result-cases (met.valid)) [
    | inl (e, f) ↦ absurd (err-ok (rw (run_tool, f) at h))
    | inr (u, v) ↦ elim (Bool-cases (met.cancels_asking)) [
      | inl f ↦ absurd (err-ok (rw (run_tool, v, f) at h))
      | inr a ↦ elim (Result-cases (met.permit)) [
        | inl (e, f) ↦ absurd (err-ok (rw (run_tool, v, a, f) at h))
        | inr (w, p) ↦ elim (Bool-cases (met.cancels_running)) [
          | inl f ↦ absurd (err-ok (rw (run_tool, v, a, p, f) at h))
          | inr c ↦ elim (Option-cases (met.ran)) [
            | inl f ↦ absurd (err-ok (rw (run_tool, v, a, p, c, f) at h))
            | inr (r, f) ↦ (v, a, p, c, f ∙ ap (λ x. some x) (rw (run_tool, v, a, p, c, f) at h))
          ]
        ]
      ]
    ]
  ]

  Runs-run_tool :
      (met : Meets Value) (output : ToolOutput Value) → Runs met output → run_tool met ≡ ok output
  unfolding run_tool
  Runs-run_tool met output (v, a, p, c, r) = rw (run_tool, v, a, p, c, r) refl

  finish-ok_kind :
      (formats : Formats Value) (call : ToolCall Value) (env : ToolEnv)
      (r : Result ToolError (ToolOutput Value)) (met : Meets Value)
      → (finish formats call env r met).kind ≡ ok_kind
      → (output : ToolOutput Value) × (r ≡ ok output) × (output.is_error ≡ false)
  unfolding finish
  finish-ok_kind formats call env (err e) met h = absurd (kind-err e h)
  finish-ok_kind formats call env (ok output) met h = elim (Bool-cases (output.is_error)) [
    | inl t ↦ absurd (kind-error (rw t at h))
    | inr f ↦ (output, refl, f)
  ]

  ok_kind-finish :
      (formats : Formats Value) (call : ToolCall Value) (env : ToolEnv)
      (r : Result ToolError (ToolOutput Value)) (met : Meets Value) (output : ToolOutput Value)
      → r ≡ ok output
      → output.is_error ≡ false
      → (finish formats call env r met).kind ≡ ok_kind
  unfolding finish
  ok_kind-finish formats call env r met output h f = rw h (rw (finish, f) refl)

module _ {Value Validator : Type 0} (formats : Formats Value) (config : ToolsConfig)
    (default_env : ToolEnv) (registry : Registry Value Validator) where
  abbrev pub Succeeds : ToolCall Value → Meets Value → Type 0
  Succeeds call met =
      (entry : Entry Value Validator) × (output : ToolOutput Value) × (met.traced ≡ none)
      × (get call.name registry ≡ some entry)
      × Runs met output
      × (output.is_error ≡ false)

  kind-Succeeds :
      (call : ToolCall Value) (met : Meets Value)
      → (execute_one formats config default_env registry call met).kind ≡ ok_kind
      → Succeeds call met
  unfolding execute_one finish
  kind-Succeeds call met h = elim (Option-cases (met.traced)) [
    | inr (e, f) ↦ absurd (kind-err (failed_call (codes "trace: " ++ e)) (rw (execute_one, f) at h))
    | inl f ↦ elim (Option-cases (get call.name registry)) [
      | inl g ↦ absurd (
          kind-err (unknown_tool formats.debug call.name (names registry))
            (rw (execute_one, f, g) at h))
      | inr (entry, g) ↦
          let (output, r, fine) =
            finish-ok_kind formats call (resolve_env config entry.spec) (run_tool met) met
              (rw (execute_one, f, g) at h) in
          (entry, output, f, g, run_tool-Runs met output r, fine)
    ]
  ]

  Succeeds-kind :
      (call : ToolCall Value) (met : Meets Value)
      → Succeeds call met
      → (execute_one formats config default_env registry call met).kind ≡ ok_kind
  unfolding execute_one
  Succeeds-kind call met (entry, output, f, g, runs, fine) =
      rw (execute_one, f, g)
        (ok_kind-finish formats call (resolve_env config entry.spec) (run_tool met) met output
          (Runs-run_tool met output runs) fine)

  -- A call ends as `ok` exactly when the trace has recorded it, the registry has the tool, the input is
  -- valid, the gate permits it, and the tool runs to its end, in time and with no cancellation, and its
  -- output is no error.
  pub execute_one_iff :
      (call : ToolCall Value) (met : Meets Value)
      → ((execute_one formats config default_env registry call met).kind ≡ ok_kind)
        ↔ Succeeds call met
  execute_one_iff call met = (kind-Succeeds call met, Succeeds-kind call met)
