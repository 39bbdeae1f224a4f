-- ===== src/Examples/Timeline.antt =====
-- The timeline of the history of `Events`.
use Prim.Native.String.{count}
use crashsafe.Prelude.{
  ℕ, String, none, List, [], ◌∷◌, ◌++◌, ◌≡◌, ◌≤◌, pos, ok, leb, arith, Bool-cases, inl, inr, All,
  if◌then◌else◌,
}
use crashsafe.Models.Values.{Json}
use crashsafe.Models.{WorkflowRunStatus}
use crashsafe.Models.Timeline.{WorkflowRunTimeline}
use crashsafe.Timeline.{build_timeline}
use crashsafe.Timeline.Reading.{IsTimelineOf, build_timeline-IsTimelineOf}
use crashsafe.Timeline.Rendering.{join_lines, format_timeline}
use crashsafe.Timeline.Width.{format_timeline-width}
use crashsafe.Examples.Codec.{codec}
use crashsafe.Examples.Events.{early_events, late_events, late_run}
use crashsafe.Examples.History.{late-reduced}

abbrev pub shown : Json → String
shown value = "..."

build_timeline-IsTimelineOf_example :
    (timeline : WorkflowRunTimeline) × (build_timeline shown codec (early_events ++ late_events)
      ≡ ok timeline)
    × IsTimelineOf shown (early_events ++ late_events) late_run timeline
build_timeline-IsTimelineOf_example =
    build_timeline-IsTimelineOf shown codec (early_events ++ late_events) late_run late-reduced

-- a wrapping that keeps a content that fits, and drops another
abbrev wrap : String → ℕ → List String
wrap content width = if leb (count content) width then content ∷ [] else []

wrap-fits : (content : String) (n : ℕ) → 68 ≤ n → All (λ line. count line ≤ n) (wrap content n)
wrap-fits content n wide = elim (Bool-cases (leb (count content) n)) [
  | inl e ↦ rw e (ground arith, tt)
  | inr e ↦ rw e tt
]

abbrev small : WorkflowRunTimeline
small = record {
  run_id = "r1";
  entries = [];
  summary = record {
    status = WorkflowRunStatus.running;
    duration_ms = pos 1500;
    attempts = 2;
    retries = 1;
    planned_wait_ms = 250;
    step_duration_ms = [];
  };
}

format_timeline-width_example :
    (lines : List String) × (format_timeline wrap 121 small none ≡ join_lines lines)
    × All (λ line. count line ≡ 120) lines
format_timeline-width_example = format_timeline-width wrap wrap-fits small none 121
