-- ===== src/Runtime/Examples.antt =====
-- The runtime of the turn of the examples, in which a delegation runs and a peer has answered, and the
-- theorems about the runtime there.
use Prim.Native.Char.{code}
use text.Mathlib.Text.{◌==◌ as str_eq}
use alt_tui.Prelude.{
  ℕ, zero, suc, ◌+◌, String, ◌≡◌, refl, ap, inl, inr, Option, none, some, false, [], ◌∷◌, keep,
  arith, eq_iff, Bool-cases, ok,
}
use alt_tui.Prelude.Int.{pos}
use alt_tui.Prelude.Dict.{lookup, insert, update, on_some}
use alt_tui.Prelude.Text.{trim_space, is_blank}
use alt_tui.Content.{is_empty, text_input}
use alt_tui.Fixtures.{turn_events, work}
use alt_tui.Fixtures.Turn.{turn_state}
use alt_tui.Event.{Event}
use alt_tui.Projection.{
  Projection, Delegation, completed, start, replay, replay_from, apply, apply_body, created,
  started, finished,
}
use alt_tui.Store.{Session, session_running, events_after, order_by_sequence, insert_by_sequence}
use alt_tui.Store.Sequence.Reading.{IsNumbered}
use alt_tui.Orchestrator.{AgentDecision}
use alt_tui.Runtime.{SessionRuntime, RunError, replayed}
use alt_tui.Runtime.Work.{mark_interrupted_delegations}
use alt_tui.Runtime.Execution.{SpecialistResult, answered, delegation_kind, or_trimmed, end}
use alt_tui.Runtime.Log.{with_work}
use alt_tui.Runtime.Returns.{IsReady}
use alt_tui.Runtime.Recovery.Recovered.{recovered}
use alt_tui.Runtime.Recovery.{mark_interrupted-recovers}
use alt_tui.Runtime.Cancellation.{Stands}
use alt_tui.Runtime.Decided.Keys.{Decided}
use alt_tui.Runtime.Attempt.Lawful.{delegation_kind-IsLawful}
use alt_tui.Runtime.Attempt.Outcomes.{result_after_cancellation}

-- ids that are never drawn twice: "x", "xx", and so on
abbrev marks : ℕ → String
marks zero = "x"
marks (suc n) = String.◌∷◌ "x" (marks n)

abbrev first_code : String → ℕ
first_code String.[] = 0
first_code (String.◌∷◌ c s) = code c

abbrev measure : String → ℕ
measure String.[] = 0
measure (String.◌∷◌ c s) = suc (measure s)

first_code-marks : (n : ℕ) → first_code (marks n) ≡ 120
first_code-marks zero = refl
first_code-marks (suc n) = refl

measure-marks : (n : ℕ) → measure (marks n) ≡ n + 1
measure-marks zero = refl
measure-marks (suc n) = omega (arith, measure-marks n)

marks_distinct : (m n : ℕ) → marks m ≡ marks n → m ≡ n
marks_distinct m n e = omega (arith, measure-marks m, measure-marks n, ap measure e)

not_a_mark : (id : String) (n : ℕ) → first_code id ≡ 101 → str_eq id (marks n) ≡ false
not_a_mark id n h = elim (Bool-cases (str_eq id (marks n))) [
  | inl e ↦ absurd (omega (arith, h, first_code-marks n, ap first_code ((eq_iff id (marks n)).0 e)))
  | inr e ↦ e
]

abbrev clock : ℕ → ℕ
clock n = 100 + n

abbrev session : Session
session = record {
  id = "s";
  conversation_id = "s";
  profile_id = "core-team";
  profile_revision = pos 1;
  profile_digest = "d";
  title = "t";
  task = "do it";
  workspace = "/w";
  leader_id = "lead";
  status = session_running;
  final_answer = "";
  created_at = 0;
  updated_at = 0;
}

abbrev runtime : SessionRuntime
runtime = record {
  session_id = "s";
  tables = record { sessions = ("s", session) ∷ []; events = turn_events };
  drawn = 0;
  active = "d1" ∷ [];
  stopped = [];
  signals = [];
  launched = "d1:1" ∷ [];
  launches = [];
  finalizing = false;
  user_cancelled = false;
  loop_stopped = false;
}

runtime-IsNumbered : IsNumbered runtime.tables
unfolding keep
runtime-IsNumbered session_id = elim (Bool-cases (str_eq "s" session_id)) [
  | inl e ↦ rw e (refl, (refl, (refl, (refl, (refl, (refl, tt))))))
  | inr e ↦ rw e tt
]

runtime-IsReady : IsReady marks runtime
unfolding lookup
runtime-IsReady = record {
  numbered = runtime-IsNumbered;
  row = (session, refl);
  fresh = λ n le.
      rw
        (
          not_a_mark "e1" n refl,
          not_a_mark "e2" n refl,
          not_a_mark "e3" n refl,
          not_a_mark "e4" n refl,
          not_a_mark "e5" n refl,
          not_a_mark "e6" n refl,
        )
        refl;
}

replayed-runtime : replayed runtime ≡ ok turn_state
unfolding replay replay_from apply apply_body start created started finished lookup insert update
    is_empty text_input events_after order_by_sequence insert_by_sequence keep
replayed-runtime = refl

runtime-Stands : Stands marks runtime turn_state
runtime-Stands = record { ready = runtime-IsReady; read = replayed-runtime }

mark_interrupted-recovers_example :
    (r' : SessionRuntime) × (q : Projection) × (mark_interrupted_delegations marks clock runtime
      ≡ (r', ok tt))
    × IsReady marks r'
    × (replayed r' ≡ ok q)
    × ((k : String) → lookup k q.delegations ≡ on_some recovered (lookup k turn_state.delegations))
    × ((k : String) → lookup k q.peer_turns ≡ on_some recovered (lookup k turn_state.peer_turns))
    × (q ≡ with_work turn_state q.delegations q.peer_turns q.last_sequence)
mark_interrupted-recovers_example =
    mark_interrupted-recovers marks clock runtime turn_state marks_distinct runtime-IsReady
      replayed-runtime

-- a decision to cancel the delegation
abbrev decision : AgentDecision
decision = record {
  kind = "coordinate";
  assessment = "the review is enough";
  delegations = [];
  peer_turns = [];
  cancel = "d1" ∷ [];
  handoff = none;
  observed_work = 1;
}

-- results are taken as they are, and errors are not described
abbrev undecoded : String → Option SpecialistResult
undecoded raw = none

abbrev described : RunError → String
described e = "error"

abbrev running_work : Delegation
running_work = or_else (lookup "d1" turn_state.delegations)
  where
    or_else : Option Delegation → Delegation
    or_else (some w) = w
    or_else none = record {
      spec = work;
      spec_reference = none;
      spec_sequence = 0;
      status = completed;
      attempt = 0;
      interrupted = false;
      result = "";
      result_reference = none;
      result_sequence = 0;
      findings = [];
      risks = [];
      confidence = "";
      error = "";
    }

d1_found : lookup "d1" turn_state.delegations ≡ some running_work
unfolding lookup replay replay_from apply apply_body start created started finished insert update
    is_empty text_input
d1_found = refl

text_given : is_blank (or_trimmed "text" (undecoded "text")).result ≡ false
unfolding trim_space
text_given = refl

result_after_cancellation_example :
    (s : SessionRuntime) × (q : Projection) × (w' : Delegation) × (end marks clock described
        undecoded delegation_kind "d1" "coder" 1
        (answered "text")
        runtime
      ≡ (s, ok tt))
    × Stands marks s q
    × (lookup "d1" q.delegations ≡ some w')
    × (w'.status ≡ completed)
result_after_cancellation_example =
    result_after_cancellation marks clock described undecoded delegation_kind "d1" "coder" "text" 1
      runtime turn_state running_work marks_distinct
      (delegation_kind-IsLawful marks clock marks_distinct) runtime-Stands d1_found text_given
