-- ===== src/Scripts/Answers.antt =====
-- Which scripts answer a query.
use cserf.Prelude.{
  ◌≡◌, ◌∙◌, refl, ap, Bool, not, ◌&&◌, some, List, [], ◌∷◌, Text, ltb, arith, if◌then◌else◌,
  Bool-cases, Option-cases, inl, inr,
}
use cserf.Messages.{QueryEvent, Event, on_query, on_action, on_member, on_members}
use cserf.Serf.{Serf, Env}
use cserf.Serf.Relay.{respond_to_query_event}
use cserf.Scripts.{ScriptIo, event_stdin, answer, invoke_event_script, receive_invoke_scripts}

-- Whether the script was run to its end, without an error, and has written something.
abbrev pub has_answer : ScriptIo → Bool
has_answer io =
    not io.pipe_fails && (not io.start_fails && (not io.script_fails && ltb 0 io.total_written))

-- The specification: the queries with their answers, in the order of the runs.
abbrev pub answers : List (ScriptIo × Text × Event) → List (QueryEvent × Text)
answers [] = []
answers ((io, script, on_query q) ∷ more) =
    if has_answer io then (q, io.output) ∷ answers more else answers more
answers ((io, script, _) ∷ more) = answers more

unfoldable pub respond_all : Env → Serf → List (QueryEvent × Text) → Serf
respond_all env s [] = s
respond_all env s ((q, t) ∷ more) = respond_all env (respond_to_query_event env s q (some t)).1 more

module _ (io : ScriptIo) (env : Env) (s : Serf) (script : Text) where
  invoke-query :
      (q : QueryEvent)
      → (invoke_event_script io env s script (on_query q)).serf
        ≡ (if has_answer io then (respond_to_query_event env s q (some io.output)).1 else s)
  unfolding invoke_event_script event_stdin answer
  invoke-query q = ground arith

  invoke-other :
      (e : Event) → answer io env s e ≡ s → (invoke_event_script io env s script e).serf ≡ s
  unfolding invoke_event_script
  invoke-other e h = elim (Option-cases (event_stdin io e)) [
    | inl n ↦ ground (arith, n)
    | inr (t, k) ↦ ground (arith, h, k)
  ]

-- Of the scripts that are run, exactly those answer that were run for a query, to their end and without an
-- error, and have written something: each answers its query once, with what is kept of its output, in the order
-- of the runs. The others leave the node as it is.
pub receive_invoke_scripts_lem :
    (runs : List (ScriptIo × Text × Event)) (env : Env) (s : Serf)
    → receive_invoke_scripts runs env s ≡ respond_all env s (answers runs)
unfolding receive_invoke_scripts respond_all answer
receive_invoke_scripts_lem [] env s = refl
receive_invoke_scripts_lem ((io, script, on_query q) ∷ more) env s =
    elim (Bool-cases (has_answer io)) [
      | inl done ↦
          ap (receive_invoke_scripts more env) (rw done at (invoke-query io env s script q))
          ∙ rw done (
              receive_invoke_scripts_lem more env
                (respond_to_query_event env s q (some io.output)).1)
      | inr failed ↦
          ap (receive_invoke_scripts more env) (rw failed at (invoke-query io env s script q))
          ∙ rw failed (receive_invoke_scripts_lem more env s)
    ]
receive_invoke_scripts_lem ((io, script, on_action e) ∷ more) env s =
    ap (receive_invoke_scripts more env) (invoke-other io env s script (on_action e) refl)
    ∙ receive_invoke_scripts_lem more env s
receive_invoke_scripts_lem ((io, script, on_member e) ∷ more) env s =
    ap (receive_invoke_scripts more env) (invoke-other io env s script (on_member e) refl)
    ∙ receive_invoke_scripts_lem more env s
receive_invoke_scripts_lem ((io, script, on_members e) ∷ more) env s =
    ap (receive_invoke_scripts more env) (invoke-other io env s script (on_members e) refl)
    ∙ receive_invoke_scripts_lem more env s
